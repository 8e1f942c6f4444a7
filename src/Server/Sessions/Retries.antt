-- ===== src/Server/Sessions/Retries.antt =====
-- How often connecting calls the provider in internal/server/server.go, and which attempt decides.
use arke.Common.{
  ◌⊎◌, inl, inr, Bool-cases, ℕ, zero, suc, ◌<◌, ◌≡◌, String, Bool, true, false, Option, none, ok,
  arith,
}
use arke.Common.Int.{ℤ, pos_part, pos, ◌≤ℤ◌, pos_part_of_nonpos}
use arke.Api.{Error, ConnectionConfiguration}
use arke.Identity.{Context, get_client_addr}
use arke.Server.Backend.{Backend}
use arke.Server.Sessions.Defs.{
  Server, no_error, connect_rounds, connect_client, broker_connect, client_exists, identify,
}
use arke.Server.Sessions.Laws.{broker_connect_success, identify-known}

module _ (b : Backend) (id : String) (cf : ConnectionConfiguration) (skip : Bool) where
  open b use {P, connect}

  -- The provider after `k` attempts, whatever their outcome, and the outcome of the attempt after.
  unfoldable pub after : ℕ → P → P
  after zero p = p
  after (suc k) p = after k (connect id cf skip p).1

  unfoldable pub attempt : ℕ → P → Option Error
  unfolding after
  attempt k p = (connect id cf skip (after k p)).0

  -- With `n` attempts allowed, where the attempts before number `k` fail, and `k` either succeeds or is
  -- the last: the provider is called `k + 1` times, and the outcome is that of attempt `k`.
  connect_rounds_stop :
      (k n : ℕ) (last : Option Error) (p : P)
      → k < n
      → ((j : ℕ) → j < k → no_error (attempt j p) ≡ false)
      → (no_error (attempt k p) ≡ true) ⊎ (n ≡ suc k)
      → connect_rounds b n id cf skip last p ≡ (attempt k p, after (suc k) p)
  unfolding connect_rounds attempt
  connect_rounds_stop k zero last p h before now = elim h [ ]
  connect_rounds_stop zero (suc n) last p h before (inl now) = rw now
  connect_rounds_stop zero (suc n) last p h before (inr only) =
      let none_left : n ≡ 0 = omega arith in
      elim (Bool-cases (no_error (connect id cf skip p).0)) [
        | inl now ↦ rw now
        | inr failed ↦ rw (failed, none_left)
      ]
  connect_rounds_stop (suc k) (suc n) last p h before now =
      let failed = before 0 (omega arith) in
      let rest =
        connect_rounds_stop k n (attempt 0 p) (after 1 p) (omega arith)
          (λ j q. before (suc j) (omega arith)) (pred_last now) in
      rw failed rest
    where
      pred_last : {A : Type 0} → A ⊎ (suc n ≡ suc (suc k)) → A ⊎ (n ≡ suc k)
      pred_last (inl a) = inl a
      pred_last (inr e) = inr (omega arith)

module _ (b : Backend) (missing : String → Option String) (hash8 : String → String) where
  open b use {P}

  -- With a limit of zero attempts, or less, a client that has an address is reported as connected and
  -- is registered, although the provider has not been called.
  broker_connect_no_attempts :
      (n : ℤ) (ctx : Context) (addr : String) (cf : ConnectionConfiguration) (skip : Bool)
      (s : Server P)
      → n ≤ℤ pos 0
      → missing cf.provider ≡ none
      → get_client_addr ctx ≡ ok addr
      → let (resp, e, s') = broker_connect b missing hash8 n ctx cf skip s in
        (resp.success ≡ true)
        × (e ≡ none)
        × (client_exists ctx s' ≡ true)
        × (s'.provider ≡ s.provider)
  unfolding broker_connect connect_client connect_rounds
  broker_connect_no_attempts n ctx addr cf skip s low known e =
      let (id, named, found, same, _) = identify-known hash8 ctx addr cf s e in
      let s' = (identify hash8 ctx addr cf s).1 in
      let none_left : pos_part n ≡ 0 = pos_part_of_nonpos n low in
      let success = broker_connect_success b missing hash8 n ctx cf skip s known in
      (ground arith, ground arith, ground (arith, success), ground arith)
