-- ===== src/RateLimiter/Buckets.antt =====
-- No client of internal/server/ratelimiter/ratelimiter.go uses up the tokens of another.
use arke.Common.{
  ℕ, String, ◌≡◌, refl, Bool, ◌&&◌, not, Option, none, some, List, [], ◌∷◌, arith, str_eq, eq_iff,
  if◌then◌else◌,
}
use arke.ConcurrentMap.{get, get-add}
use arke.RateLimiter.Defs.{Buckets, ClientLimiter, Manager, take_token, limit_client, too_many}

module _ (b : Buckets) where
  open b use {Bucket, fresh, allow}

  -- The answers of Limit to the requests of all clients, each with its time and identifier.
  unfoldable pub limit_all :
      List (ℕ × String) → Manager Bucket → List (String × Option String) × Manager Bucket
  limit_all [] m = ([], m)
  limit_all ((now, id) ∷ requests) m =
      let (e, m') = limit_client b now id m in
      let (es, m'') = limit_all requests m' in ((id, e) ∷ es, m'')

  -- The answers that one client gets.
  abbrev pub answers_of : String → List (String × Option String) → List (Option String)
  answers_of j [] = []
  answers_of j ((id, e) ∷ l) = if str_eq id j then e ∷ answers_of j l else answers_of j l

  -- The times of one client's requests.
  abbrev pub times_of : String → List (ℕ × String) → List ℕ
  times_of j [] = []
  times_of j ((now, id) ∷ l) = if str_eq id j then now ∷ times_of j l else times_of j l

  -- A bucket of its own, used at these times.
  abbrev pub alone : Bool → List ℕ → Option (ClientLimiter Bucket) → List (Option String)
  alone enforced [] c = []
  alone enforced (now ∷ times) c =
      let (allowed, c') = take_token b now c in
      (if not allowed && enforced then some too_many else none) ∷ alone enforced times (some c')

  -- Whatever other clients ask for in between, the answers to a client's requests are those of a
  -- bucket that it alone uses at the same times.
  pub limit_all-alone :
      (requests : List (ℕ × String)) (m : Manager Bucket) (j : String)
      → answers_of j (limit_all requests m).0
        ≡ alone m.enforced (times_of j requests) (get m.clients j)
  unfolding limit_all limit_client
  limit_all-alone [] m j = refl
  limit_all-alone ((now, id) ∷ requests) m j =
      let c = (take_token b now (get m.clients id)).1 in
      let rest = limit_all-alone requests (limit_client b now id m).1 j in
      ground (arith, rest, get-add m.clients id c j, eq_iff id j)
