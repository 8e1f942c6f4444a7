-- ===== src/RateLimiter/Examples.antt =====
-- Buckets of one token that are never refilled, for the theorem on clients.
use arke.Common.{ℕ, String, ◌≡◌, Bool, true, false, List, [], ◌∷◌}
use arke.ConcurrentMap.{new_concurrent_map, get}
use arke.RateLimiter.Defs.{Buckets, Manager}
use arke.RateLimiter.Buckets.{limit_all, answers_of, times_of, alone, limit_all-alone}

abbrev one_token : Buckets
one_token = record { Bucket = Bool; fresh = true; allow = λ now k. (k, false) }

abbrev manager : Manager Bool
manager = record { clients = new_concurrent_map; max_age = 60; enforced = true }

abbrev requests : List (ℕ × String)
requests = (1, "a") ∷ (2, "b") ∷ (3, "a") ∷ []

limit_all-alone_example :
    answers_of one_token "b" (limit_all one_token requests manager).0
    ≡ alone one_token true (times_of one_token "b" requests) (get manager.clients "b")
limit_all-alone_example = limit_all-alone one_token requests manager "b"
