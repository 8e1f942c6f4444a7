-- ===== src/Service/Defs.antt =====
-- The builder of pkg/arke/arke.go and run of cmd/serve.go. Tracing, profiling, logging and the limit of
-- the memory are left out; a signal and the end of the context are ways in which serving ends.
use mathlib.Core.Option
use arke.Common.{
  ℕ, ◌+◌, ◌-◌, ◌*◌, ◌%◌, ◌^◌, String, Bool, true, false, ◌&&◌, ◌||◌, not, Option, none, some, ◌⊎◌,
  inl, inr, List, [], ◌∷◌, ◌++◌, Fallible, ok, err, str_eq, if◌then◌else◌,
}
use arke.Common.Int.{ℤ, pos, negsuc, leb_ℤ, int64}
use arke.Common.Text.{atoi}
use arke.RateLimiter.{Manager, new_manager}

pub record RateLimitParameters : Type 0 where
  pub bucket_size : ℤ
  pub refill_interval : ℤ
  pub max_age_stale_client : ℤ
  pub enforced : Bool

-- `time.Duration(n) * time.Second`, with the wrap-around of an int64
unfoldable pub seconds : ℤ → ℤ
seconds (pos n) = int64 (n * 10 ^ 9)
seconds (negsuc n) = int64 (2 ^ 64 - (n + 1) * 10 ^ 9 % 2 ^ 64)

-- All three must be numbers.
unfoldable pub parameters : Option ℤ → Option ℤ → Option ℤ → Bool → Option RateLimitParameters
parameters (some size) (some refill) (some age) enforced = some (record {
  bucket_size = size;
  refill_interval = seconds refill;
  max_age_stale_client = seconds age;
  enforced = enforced;
})
parameters _ _ _ enforced = none

-- None is the error, of which the text is only logged.
unfoldable pub get_rate_limit_parameters :
    String → String → String → String → Option RateLimitParameters
unfolding parameters
get_rate_limit_parameters bucket_size refill_interval_sec max_age_sec enforced =
    parameters (atoi bucket_size) (atoi refill_interval_sec) (atoi max_age_sec)
      (str_eq enforced "true")

-- The middleware that a server can have; a number stands for one that the caller brings.
pub data Interceptor : Type 0 where
  prometheus rate_limit : Interceptor
  custom : ℕ → Interceptor

pub data ServerOption : Type 0 where
  keepalive_policy keepalive_params : ServerOption
  chain_unary chain_stream : List Interceptor → ServerOption

-- `server` holds the options with which Build has made the server.
pub record Arke (B : Type 0) : Type 0 where
  pub port : ℤ
  pub cert_file : String
  pub cert_key : String
  pub hpa_name : String
  pub tls_skip_verify : Bool
  pub server_options : List ServerOption
  pub ratelimiter : Option (Manager B)
  pub unary : List Interceptor
  pub stream : List Interceptor
  pub server : Option (List ServerOption)

unfoldable pub invalid : RateLimitParameters → Bool
invalid p =
    leb_ℤ p.bucket_size (pos 0)
    || (leb_ℤ p.refill_interval (pos 0) || leb_ℤ p.max_age_stale_client (pos 0))

-- The settings that run reads from the environment and its flags.
pub record Settings : Type 0 where
  pub port_env : String
  pub cert_file_env : String
  pub cert_key_env : String
  pub enforced_env : String
  pub bucket_size_env : String
  pub max_age_env : String
  pub refill_env : String
  pub tls_skip_verify_flag : Bool

pub data Listener : Type 0 where
  plain with_tls : Listener

-- `net_op` is a *net.OpError.
pub data Failure : Type 0 where
  net_op other : String → Failure

-- How serving stops: the context ends, or the multiplexer's Serve returns.
pub data Stop : Type 0 where
  cancelled : Stop
  returned : Option Failure → Stop

unfoldable pub serve_error : Stop → Option Failure
serve_error cancelled = none
serve_error (returned none) = none
serve_error (returned (some (net_op e))) = none
serve_error (returned (some (other e))) = some (other e)

-- Whether run ends with a fatal error.
unfoldable pub check_err : Option Failure → Bool
check_err none = false
check_err (some (net_op e)) = false
check_err (some (other e)) = true

unfoldable pub secured : Fallible Bool → Listener
secured (ok true) = with_tls
secured (ok false) = plain
secured (err e) = plain

unfoldable pub served : Failure ⊎ Listener → Stop → Option Listener × Option Failure
unfolding serve_error
served (inl e) stop = (none, some e)
served (inr l) stop = (some l, serve_error stop)

module _ {B : Type 0} where
  unfoldable pub on_port : ℤ → Arke B
  on_port p = record {
    port = p;
    cert_file = "";
    cert_key = "";
    hpa_name = "arke";
    tls_skip_verify = false;
    server_options = keepalive_policy ∷ keepalive_params ∷ [];
    ratelimiter = none;
    unary = [];
    stream = [];
    server = none;
  }

  -- The argument is ARKE_PORT; none is the fatal error of a port that is no number.
  unfoldable pub default_arke_server : String → Option (Arke B)
  default_arke_server port_env =
      Option.map on_port (if str_eq port_env "" then some (pos 50051) else atoi port_env)

  unfoldable pub with_prometheus : Arke B → Arke B
  with_prometheus a = record a {
    unary = a.unary ++ (prometheus ∷ []);
    stream = a.stream ++ (prometheus ∷ []);
  }

  unfoldable pub limited_by : Fallible (Manager B) → Arke B → Arke B
  limited_by (err e) a = a
  limited_by (ok m) a = record a {
    ratelimiter = some m;
    unary = a.unary ++ (rate_limit ∷ []);
    stream = a.stream ++ (rate_limit ∷ []);
  }

  unfoldable pub with_rate_limit : Option RateLimitParameters → Arke B → Arke B
  unfolding invalid limited_by
  with_rate_limit none a = a
  with_rate_limit (some p) a =
      if invalid p
      then a
      else limited_by
          (new_manager p.bucket_size p.refill_interval p.max_age_stale_client p.enforced) a

  unfoldable pub with_tls_skip_verify : Bool → Arke B → Arke B
  with_tls_skip_verify skip a = record a { tls_skip_verify = skip }

  unfoldable pub with_port : ℤ → Arke B → Arke B
  with_port p a = record a { port = p }

  unfoldable pub with_cert_file_path : String → Arke B → Arke B
  with_cert_file_path path a = record a { cert_file = path }

  unfoldable pub with_cert_key_path : String → Arke B → Arke B
  with_cert_key_path path a = record a { cert_key = path }

  unfoldable pub with_hpa_name : String → Arke B → Arke B
  with_hpa_name name a = record a { hpa_name = name }

  unfoldable pub with_unary_interceptor : ℕ → Arke B → Arke B
  with_unary_interceptor i a = record a { unary = a.unary ++ (custom i ∷ []) }

  unfoldable pub with_stream_interceptor : ℕ → Arke B → Arke B
  with_stream_interceptor i a = record a { stream = a.stream ++ (custom i ∷ []) }

  unfoldable pub build : Arke B → Arke B
  build a =
      let options = a.server_options ++ (chain_unary a.unary ∷ chain_stream a.stream ∷ []) in
      record a { server_options = options; server = some options }

  unfoldable pub configure : Settings → Arke B → Arke B
  configure e a =
      let limits =
        get_rate_limit_parameters e.bucket_size_env e.refill_env e.max_age_env e.enforced_env in
      build (
        with_rate_limit limits (
          with_prometheus (
            with_cert_key_path e.cert_key_env (
              with_cert_file_path e.cert_file_env
                (with_tls_skip_verify e.tls_skip_verify_flag a)))))

  -- The server that run serves.
  unfoldable pub run_server : Settings → Option (Arke B)
  run_server e = Option.map (configure e) (default_arke_server e.port_env)

  -- `load` is the error of loading the key pair.
  unfoldable pub tls_config : (String → String → Option String) → Arke B → Fallible Bool
  tls_config load a =
      if not (str_eq a.cert_file "") && not (str_eq a.cert_key "")
      then (elim (load a.cert_file a.cert_key) [ none ↦ ok true | some e ↦ err e ])
      else ok false

  -- `listen` is the error of listening on the port.
  unfoldable pub listener :
      (ℤ → Option Failure) → (String → String → Option String) → Arke B → Failure ⊎ Listener
  unfolding tls_config secured
  listener listen load a = elim (listen a.port) [
    | some e ↦ inl e
    | none ↦ inr (secured (tls_config load a))
  ]

  -- The listener on which requests are taken, and the error that Serve returns.
  unfoldable pub serve :
      (ℤ → Option Failure)
      → (String → String → Option String)
      → Stop
      → Arke B
      → Option Listener × Option Failure
  unfolding served listener
  serve listen load stop a = served (listener listen load a) stop
