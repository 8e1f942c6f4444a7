-- ===== src/RateLimiter/Defs.antt =====
-- ClientLimitManager of internal/server/ratelimiter/ratelimiter.go. Times are in seconds.
use arke.Common.{
  ℕ, ◌-◌, String, Bool, ◌&&◌, ◌||◌, ◌/◌, ◌^◌, not, Option, none, some, List, [], ◌∷◌, Fallible, ok,
  err, ltb, if◌then◌else◌,
}
use arke.Common.Int.{ℤ, pos, pos_part, leb_ℤ}
use arke.ConcurrentMap.{ConcurrentMap, new_concurrent_map, add, delete, get, get_list}
use arke.Identity.{Context, get_client_identifier}

pub record Buckets : Type 1 where
  pub Bucket : Type 0
  pub fresh : Bucket
  pub allow : ℕ → Bucket → Bool × Bucket

pub record ClientLimiter (B : Type 0) : Type 0 where
  pub bucket : B
  pub last_time : ℕ

pub record Manager (B : Type 0) : Type 0 where
  pub clients : ConcurrentMap (ClientLimiter B)
  pub max_age : ℕ
  pub enforced : Bool

-- The bucket's size and its refill interval, which must be positive, belong to `fresh` and `allow`. The
-- intervals are in nanoseconds; ages are compared in whole seconds.
unfoldable pub new_manager : {B : Type 0} → ℤ → ℤ → ℤ → Bool → Fallible (Manager B)
new_manager size refill max_age enforced =
    if leb_ℤ size (pos 0) || (leb_ℤ refill (pos 0) || leb_ℤ max_age (pos 0))
    then err "invalid rate limit parameters"
    else ok (record {
      clients = new_concurrent_map;
      max_age = pos_part max_age / 10 ^ 9;
      enforced = enforced;
    })

abbrev pub too_many : String
too_many = "client has made too many requests - rate limiting enforced"

module _ (b : Buckets) where
  open b use {Bucket, fresh, allow}

  unfoldable pub bucket_of : Option (ClientLimiter Bucket) → Bucket
  bucket_of none = fresh
  bucket_of (some c) = c.bucket

  -- One token of a client's bucket.
  unfoldable pub take_token : ℕ → Option (ClientLimiter Bucket) → Bool × ClientLimiter Bucket
  unfolding bucket_of
  take_token now c =
      let (allowed, k) = allow now (bucket_of c) in
      (allowed, record { bucket = k; last_time = now })

  -- The error of Limit for a client, whose limiter is made on its first request.
  unfoldable pub limit_client : ℕ → String → Manager Bucket → Option String × Manager Bucket
  unfolding take_token
  limit_client now id m =
      let (allowed, c) = take_token now (get m.clients id) in
      (
        if not allowed && m.enforced then some too_many else none,
        record m { clients = add m.clients id c },
      )

  -- Without an identifier nothing is limited if limits are enforced; otherwise all such requests
  -- share the empty identifier.
  unfoldable pub limit :
      ℕ → Context → ConcurrentMap String → Manager Bucket → Option String × Manager Bucket
  unfolding limit_client
  limit now ctx identifiers m = elim (get_client_identifier ctx identifiers) [
    | ok id ↦ limit_client now id m
    | err e ↦ if m.enforced then (none, m) else limit_client now "" m
  ]

  abbrev pub is_stale : ℕ → Manager Bucket → ClientLimiter Bucket → Bool
  is_stale now m c = ltb m.max_age (now - c.last_time)

  cull_found : ℕ → String → Option (ClientLimiter Bucket) → Manager Bucket → Manager Bucket
  cull_found now id none m = m
  cull_found now id (some c) m =
      if is_stale now m c then record m { clients = delete m.clients id } else m

  unfoldable pub cull_each : ℕ → List String → Manager Bucket → Manager Bucket
  unfolding cull_found
  cull_each now [] m = m
  cull_each now (id ∷ ids) m = cull_each now ids (cull_found now id (get m.clients id) m)

  unfoldable pub cull_stale_clients : ℕ → Manager Bucket → Manager Bucket
  unfolding cull_each
  cull_stale_clients now m = cull_each now (get_list m.clients) m
