-- ===== src/Service/Serving.antt =====
-- How Serve of pkg/arke/arke.go listens, and how run of cmd/serve.go ends.
use arke.Common.{
  String, Bool, true, false, ◌&&◌, not, Option, none, some, inl, inr, ◌≡◌, ◌↔◌, refl, ap, ◌∙◌,
  str_eq, if◌then◌else◌, ok, err,
}
use arke.Common.Int.{ℤ}
use arke.Service.Defs.{
  Arke, Listener, plain, with_tls, Failure, net_op, other, Stop, cancelled, returned, check_err,
  served, serve_error, secured, tls_config, listener, serve,
}

-- The TLS settings that a server uses are both given and their key pair loads.
abbrev pub Secure : {B : Type 0} → (String → String → Option String) → Arke B → Type 0
Secure load a =
    (str_eq a.cert_file "" ≡ false)
    × (str_eq a.cert_key "" ≡ false)
    × (load a.cert_file a.cert_key ≡ none)

secured_iff :
    (c k : Bool) (o : Option String)
    → (secured (if not c && not k then (elim o [ none ↦ ok true | some e ↦ err e ]) else ok false)
        ≡ with_tls)
      ↔ ((c ≡ false) × (k ≡ false) × (o ≡ none))
unfolding secured
secured_iff false false none = (λ h. (refl, refl, refl), λ h. refl)
secured_iff false false (some e) = (λ h. absurd (cc h), λ (_, _, g). absurd (cc g))
secured_iff true k o = (λ h. absurd (cc h), λ (g, _, _). absurd (cc g))
secured_iff false true o = (λ h. absurd (cc h), λ (_, g, _). absurd (cc g))

module _ {B : Type 0} (listen : ℤ → Option Failure) (load : String → String → Option String)
    (stop : Stop) (a : Arke B) where
  served_on : Option Failure → Option Listener × Option Failure
  served_on o = served (elim o [ some e ↦ inl e | none ↦ inr (secured (tls_config load a)) ]) stop

  serve-served_on :
      (o : Option Failure) → listen a.port ≡ o → serve listen load stop a ≡ served_on o
  unfolding serve served_on listener
  serve-served_on o h = ap served_on h

  closed_lem : (x : Failure) → listen a.port ≡ some x → serve listen load stop a ≡ (none, some x)
  unfolding served_on served
  closed_lem x h = serve-served_on (some x) h

  open_lem :
      listen a.port ≡ none
      → serve listen load stop a ≡ (some (secured (tls_config load a)), serve_error stop)
  unfolding served_on served
  open_lem h = serve-served_on none h

fatal_iff :
    (stop : Stop)
    → (check_err (serve_error stop) ≡ true) ↔ ((x : String) × (stop ≡ returned (some (other x))))
unfolding check_err serve_error
fatal_iff cancelled = (λ h. absurd (cc h), λ (x, h). absurd (cc h))
fatal_iff (returned none) = (λ h. absurd (cc h), λ (x, h). absurd (cc h))
fatal_iff (returned (some (net_op e))) = (λ h. absurd (cc h), λ (x, h). absurd (cc h))
fatal_iff (returned (some (other e))) = (λ h. (e, refl), λ h. refl)

with_tls_iff :
    {B : Type 0} (load : String → String → Option String) (a : Arke B)
    → (some (secured (tls_config load a)) ≡ some with_tls) ↔ Secure load a
unfolding tls_config
with_tls_iff load a =
    let (to, from) =
      secured_iff (str_eq a.cert_file "") (str_eq a.cert_key "") (load a.cert_file a.cert_key) in
    (λ h. to (cc h), λ h. ap some (from h))

-- What Serve and run make of listening and of the end of serving. If the port cannot be listened on,
-- nothing is served and Serve returns that error; otherwise requests are taken with TLS exactly if a
-- certificate and a key are both given and the pair loads, and run ends with a fatal error exactly if
-- the multiplexer's Serve fails with an error that is not one of the network.
pub serve_lem :
    {B : Type 0} (listen : ℤ → Option Failure) (load : String → String → Option String)
    (stop : Stop) (a : Arke B)
    → ((x : Failure) → listen a.port ≡ some x → serve listen load stop a ≡ (none, some x))
      × (listen a.port ≡ none
          → ((serve listen load stop a).0 ≡ some with_tls ↔ Secure load a)
            × ((check_err (serve listen load stop a).1 ≡ true)
                ↔ ((x : String) × (stop ≡ returned (some (other x))))))
serve_lem listen load stop a = (
  closed_lem listen load stop a,
  λ h. rw (open_lem listen load stop a h) (with_tls_iff load a, fatal_iff stop),
)

-- If the certificate and the key are given but do not load, requests are taken without TLS and, when
-- serving ends, run reports no error.
pub serve-plain_on_bad_keys :
    {B : Type 0} (listen : ℤ → Option Failure) (load : String → String → Option String) (a : Arke B)
    (e : String)
    → listen a.port ≡ none
    → str_eq a.cert_file "" ≡ false
    → str_eq a.cert_key "" ≡ false
    → load a.cert_file a.cert_key ≡ some e
    → serve listen load cancelled a ≡ (some plain, none)
unfolding serve_error secured tls_config
serve-plain_on_bad_keys listen load a e open_port cert key bad =
    open_lem listen load cancelled a open_port ∙ rw (cert, key, bad) refl
