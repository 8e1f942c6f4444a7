-- ===== src/Service/Settings.antt =====
-- What the settings of run in cmd/serve.go make of the server.
use mathlib.Core.Option
use arke.Common.{
  ℕ, ◌*◌, ◌^◌, ◌≤◌, ◌<◌, String, Bool, true, false, ◌&&◌, not, Option, none, some, List, [], ◌∷◌,
  ◌++◌, is_some, ◌≡◌, refl, ap, subst, sym, ◌∙◌, str_eq, if◌then◌else◌, ok, err, arith,
}
use arke.Common.Int.{ℤ, pos, ltb_ℤ}
use arke.Common.Text.{atoi}
use arke.RateLimiter.{Manager, new_manager}
use arke.Service.Defs.{
  RateLimitParameters, seconds, parameters, Interceptor, prometheus, rate_limit, ServerOption,
  keepalive_policy, keepalive_params, chain_unary, chain_stream, Arke, invalid, limited_by,
  with_rate_limit, run_server, Settings, default_arke_server, on_port, configure, build,
  with_prometheus, with_cert_key_path, with_cert_file_path, with_tls_skip_verify,
  get_rate_limit_parameters,
}

-- The middleware of a server with or without a limiter.
abbrev pub middleware : {B : Type 0} → Option (Manager B) → List Interceptor
middleware none = prometheus ∷ []
middleware (some m) = prometheus ∷ rate_limit ∷ []

-- The options of a server whose middleware is given.
abbrev pub options_with : List Interceptor → List Interceptor → List ServerOption
options_with l m = keepalive_policy ∷ keepalive_params ∷ chain_unary l ∷ chain_stream m ∷ []

abbrev pub positive : ℤ → Bool
positive a = ltb_ℤ (pos 0) a

-- The three numbers ask for a limiter.
abbrev pub usable : Option ℤ → Option ℤ → Option ℤ → Bool
usable (some size) (some refill) (some age) =
    positive size && (positive (seconds refill) && positive (seconds age))
usable _ _ _ = false

-- The limiter that the three texts ask for.
abbrev pub wants_limiter : Settings → Bool
wants_limiter e = usable (atoi e.bucket_size_env) (atoi e.refill_env) (atoi e.max_age_env)

not-invalid :
    (p : RateLimitParameters)
    → not (invalid p)
      ≡ positive p.bucket_size && (positive p.refill_interval && positive p.max_age_stale_client)
unfolding invalid
not-invalid p = ground arith

module _ {B : Type 0} where
  Limited : Bool → Arke B → Arke B → Type 0
  Limited limits a c =
      (is_some c.ratelimiter ≡ limits)
      × (c.unary ≡ middleware c.ratelimiter)
      × (c.stream ≡ middleware c.ratelimiter)
      × (c.server_options ≡ a.server_options)

  Bare : Arke B → Type 0
  Bare a = (a.ratelimiter ≡ none) × (a.unary ≡ prometheus ∷ []) × (a.stream ≡ prometheus ∷ [])

  unlimited : (a : Arke B) → Bare a → Limited false a a
  unfolding Limited Bare
  unlimited a (none_yet, u, v) = (rw none_yet refl, rw none_yet u, rw none_yet v, refl)

  chosen_lem :
      (a : Arke B) (i : Bool) (e : String) (m : Manager B)
      → Bare a
      → Limited (not i) a (if i then a else limited_by (if i then err e else ok m) a)
  unfolding Limited Bare limited_by
  chosen_lem a true e m h = unlimited a h
  chosen_lem a false e m (none_yet, u, v) =
      (refl, ap (λ l. l ++ (rate_limit ∷ [])) u, ap (λ l. l ++ (rate_limit ∷ [])) v, refl)

  with_rate_limit-Limited :
      (a : Arke B) (p : RateLimitParameters)
      → Bare a
      → Limited
          (positive p.bucket_size
            && (positive p.refill_interval && positive p.max_age_stale_client))
          a
          (with_rate_limit (some p) a)
  unfolding with_rate_limit invalid new_manager
  with_rate_limit-Limited a p h =
      subst (λ x. Limited x a (with_rate_limit (some p) a)) (not-invalid p)
        (chosen_lem a (invalid p) _ _ h)

  limited_lem :
      (a : Arke B) (b s t : Option ℤ) (enforced : Bool)
      → Bare a
      → Limited (usable b s t) a (with_rate_limit (parameters b s t enforced) a)
  unfolding with_rate_limit parameters
  limited_lem a (some b) (some s) (some t) enforced h =
      with_rate_limit-Limited a
        (record {
          bucket_size = b;
          refill_interval = seconds s;
          max_age_stale_client = seconds t;
          enforced = enforced;
        })
        h
  limited_lem a none s t enforced h = unlimited a h
  limited_lem a (some b) none t enforced h = unlimited a h
  limited_lem a (some b) (some s) none enforced h = unlimited a h

  mapped_twice :
      (o : Option ℤ) (f : Arke B → Arke B) (a : Arke B)
      → Option.map f (Option.map on_port o) ≡ some a
      → (p : ℤ) × (a ≡ f (on_port p))
  mapped_twice none f a h = absurd (cc h)
  mapped_twice (some p) f a h = (p, cc h)

  -- What run promises of its server.
  pub Built : Settings → Arke B → Type 0
  Built e a =
      (is_some a.ratelimiter ≡ wants_limiter e)
      × (a.unary ≡ middleware a.ratelimiter)
      × (a.stream ≡ middleware a.ratelimiter)
      × (a.server ≡ some (options_with a.unary a.stream))

  build-Built :
      (e : Settings) (a b : Arke B) (limits : Bool)
      → b.server_options ≡ keepalive_policy ∷ keepalive_params ∷ []
      → limits ≡ wants_limiter e
      → Limited limits b a
      → Built e (build a)
  unfolding build Built Limited
  build-Built e a b limits h g (l, u, v, o) = (
    l ∙ g,
    u,
    v,
    ap (λ k. some (k ++ (chain_unary a.unary ∷ chain_stream a.stream ∷ []))) (o ∙ h),
  )

  configure-Built : (e : Settings) (p : ℤ) (c : Arke B) → c ≡ configure e (on_port p) → Built e c
  unfolding configure on_port with_prometheus with_cert_key_path with_cert_file_path
      with_tls_skip_verify get_rate_limit_parameters Bare
  configure-Built e p c same =
      let a = with_prometheus (
        with_cert_key_path e.cert_key_env (
          with_cert_file_path e.cert_file_env
            (with_tls_skip_verify e.tls_skip_verify_flag (on_port {B = B} p)))) in
      subst (Built e) (sym same) (
        build-Built e _ a _ refl refl (
          limited_lem a (atoi e.bucket_size_env) (atoi e.refill_env) (atoi e.max_age_env)
            (str_eq e.enforced_env "true") (refl, refl, refl)))

  -- A server that run makes has a rate limiter exactly if the three texts are integers, the size is
  -- positive and so are both intervals in nanoseconds, as an int64 holds them. Unary calls and streams
  -- go through the same middleware, the metrics first and then the limiter if there is one; and the
  -- options that the server is made with are the two keep-alive settings and one chain of each kind.
  pub run_server-middleware :
      (e : Settings) (a : Arke B)
      → run_server e ≡ some a
      → (is_some a.ratelimiter ≡ wants_limiter e)
        × (a.unary ≡ middleware a.ratelimiter)
        × (a.stream ≡ middleware a.ratelimiter)
        × (a.server ≡ some (options_with a.unary a.stream))
  unfolding run_server default_arke_server Built
  run_server-middleware e a h =
      let (p, same) = mapped_twice _ (configure e) a h in configure-Built e p a same

is_some-false : {A : Type 0} {o : Option A} → is_some o ≡ false → o ≡ none
is_some-false {o = none} h = refl
is_some-false {o = some a} h = absurd (cc h)

pub seconds_exact : (n : ℕ) → n ≤ 9223372036 → seconds (pos n) ≡ pos (n * 10 ^ 9)
unfolding seconds
seconds_exact n h = ground arith

seconds_wraps : (n : ℕ) → 9223372036 < n → n ≤ 18446744073 → positive (seconds (pos n)) ≡ false
unfolding seconds
seconds_wraps n g h = ground arith

unusable_age :
    (b s : Option ℤ) (n : ℕ) → 9223372036 < n → n ≤ 18446744073 → usable b s (some (pos n)) ≡ false
unusable_age none s n g h = refl
unusable_age (some b) none n g h = refl
unusable_age (some b) (some s) n g h = ground (arith, seconds_wraps n g h)

-- A server that run makes with a maximal age between 9223372037 and 18446744073 seconds has no rate
-- limiter, whatever size and interval are given: the age in nanoseconds wraps around to a negative number.
pub run_server-age_wraps :
    {B : Type 0} (e : Settings) (a : Arke B) (n : ℕ)
    → run_server e ≡ some a
    → atoi e.max_age_env ≡ some (pos n)
    → 9223372036 < n
    → n ≤ 18446744073
    → a.ratelimiter ≡ none
run_server-age_wraps e a n built age g h =
    let (l, _, _, _) = run_server-middleware e a built in
    let limits = unusable_age (atoi e.bucket_size_env) (atoi e.refill_env) n g h in
    is_some-false (l ∙ rw age limits)
