-- ===== src/Service/Examples.antt =====
-- Concrete servers.
use arke.Common.{◌≡◌, ◌↔◌, refl, String, Bool, true, false, Option, none, some, is_some, arith}
use arke.Common.Int.{ℤ, pos}
use arke.Common.Text.{atoi}
use arke.Service.Defs.{
  seconds, parameters, Arke, invalid, limited_by, with_rate_limit, run_server, Settings,
  default_arke_server, on_port, configure, Listener, plain, with_tls, Failure, other, Stop,
  cancelled, returned, check_err, serve, build, with_prometheus, with_cert_key_path,
  with_cert_file_path, with_tls_skip_verify, get_rate_limit_parameters,
}
use arke.Service.Settings.{
  middleware, options_with, wants_limiter, run_server-middleware, run_server-age_wraps,
}
use arke.RateLimiter.{new_manager}
use arke.Service.Serving.{serve_lem, serve-plain_on_bad_keys, Secure}

abbrev settings : String → String → Settings
settings cert age = record {
  port_env = "";
  cert_file_env = cert;
  cert_key_env = "key.pem";
  enforced_env = "true";
  bucket_size_env = "100";
  max_age_env = age;
  refill_env = "60";
  tls_skip_verify_flag = false;
}

abbrev started : String → String → Arke Bool
started cert age = configure (settings cert age) (on_port (pos 50051))

started_lem : (cert age : String) → run_server (settings cert age) ≡ some (started cert age)
unfolding run_server default_arke_server
started_lem cert age = refl

limited : is_some (started "cert.pem" "300").ratelimiter ≡ true
unfolding configure on_port build with_prometheus with_cert_key_path with_cert_file_path
    with_tls_skip_verify get_rate_limit_parameters parameters with_rate_limit invalid limited_by
    new_manager atoi seconds
limited = refl

run_server-middleware_example :
    let a = started "cert.pem" "300" in
    (is_some a.ratelimiter ≡ wants_limiter (settings "cert.pem" "300"))
    × (a.unary ≡ middleware a.ratelimiter)
    × (a.stream ≡ middleware a.ratelimiter)
    × (a.server ≡ some (options_with a.unary a.stream))
run_server-middleware_example =
    run_server-middleware (settings "cert.pem" "300") (started "cert.pem" "300")
      (started_lem "cert.pem" "300")

run_server-age_wraps_example : (started "cert.pem" "10000000000").ratelimiter ≡ none
unfolding atoi
run_server-age_wraps_example =
    run_server-age_wraps (settings "cert.pem" "10000000000") (started "cert.pem" "10000000000")
      10000000000 (started_lem "cert.pem" "10000000000") refl (omega arith) (omega arith)

abbrev open_port : ℤ → Option Failure
open_port p = none

abbrev bad_keys : String → String → Option String
bad_keys cert key = some "no PEM data"

abbrev broken : Stop
broken = returned (some (other "broken"))

abbrev outcome : Option Listener × Option Failure
outcome = serve open_port bad_keys broken (started "cert.pem" "300")

serve_lem_example :
    ((x : Failure) → open_port (started "cert.pem" "300").port ≡ some x → outcome ≡ (none, some x))
    × (open_port (started "cert.pem" "300").port ≡ none
        → (outcome.0 ≡ some with_tls ↔ Secure bad_keys (started "cert.pem" "300"))
          × ((check_err outcome.1 ≡ true) ↔ ((x : String) × (broken ≡ returned (some (other x))))))
serve_lem_example = serve_lem open_port bad_keys broken (started "cert.pem" "300")

serve-plain_on_bad_keys_example :
    serve open_port bad_keys cancelled (started "cert.pem" "300") ≡ (some plain, none)
unfolding configure on_port build with_prometheus with_cert_key_path with_cert_file_path
    with_tls_skip_verify get_rate_limit_parameters parameters with_rate_limit invalid limited_by
    new_manager atoi seconds
serve-plain_on_bad_keys_example =
    serve-plain_on_bad_keys open_port bad_keys (started "cert.pem" "300") "no PEM data" refl refl
      refl refl
