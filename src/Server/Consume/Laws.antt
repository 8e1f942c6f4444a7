-- ===== src/Server/Consume/Laws.antt =====
-- What one stream of Consume in internal/server/server.go subscribes to.
use arke.Common.{
  ℕ, ◌+◌, ◌≤◌, String, ◌≡◌, refl, true, false, Option, none, some, List, [], ◌∷◌, ◌++◌, is_some,
  All, arith, Bool-cases, inl, inr, if◌then◌else◌, eq_iff,
}
use arke.Common.Int.{pos, ◌≤ℤ◌}
use arke.ConcurrentMap.{lookup, lookup-insert}
use arke.Api.{Source}
use arke.Server.Consume.Defs.{
  set_source_defaults, unsupported, Event, client_gone, no_message, recv_failed, recv_source,
  recv_consumed, stopped, Effect, sends_error, subscribes, handles, Consumer, Progress, goes_on,
  returns, consume_event, consume, new_consumer,
}

-- A source as the provider may rely on it: at least one message of prefetch, an expiry on every
-- AutoDelete source, and only options that the provider supports.
pub record Subscribable (valid : List String) (s : Source) : Type 0 where
  pub prefetches : pos 1 ≤ℤ s.prefetch_count
  pub expires : s.auto_delete ≡ true → is_some (lookup "Expires" s.options) ≡ true
  pub supported : unsupported valid s.options ≡ []

set_source_defaults-Subscribable :
    (valid : List String) (s : Source)
    → unsupported valid (set_source_defaults s).options ≡ []
    → Subscribable valid (set_source_defaults s)
unfolding set_source_defaults
set_source_defaults-Subscribable valid s h = record {
  prefetches = ground arith;
  expires = λ a.
      ground
        (arith, lookup-insert "Expires" "Expires" "300000" s.options, eq_iff "Expires" "Expires");
  supported = h;
}

abbrev one_if_subscribes : Effect → ℕ
one_if_subscribes (subscribes _) = 1
one_if_subscribes _ = 0

abbrev pub subscriptions : List Effect → ℕ
subscriptions [] = 0
subscriptions (e ∷ es) = one_if_subscribes e + subscriptions es

abbrev pub IfSource : (Source → Type 0) → Option Source → Type 0
IfSource P none = Unit
IfSource P (some s) = P s

-- The source that the provider is asked to subscribe to is as the provider expects.
abbrev pub Sound : List String → Effect → Type 0
Sound valid (sends_error _) = Unit
Sound valid (subscribes s) = Subscribable valid s
Sound valid (handles _) = Unit

subscriptions-append :
    (xs ys : List Effect) → subscriptions (xs ++ ys) ≡ subscriptions xs + subscriptions ys
subscriptions-append [] ys = omega arith
subscriptions-append (x ∷ xs) ys = omega (arith, subscriptions-append xs ys)

All-append {ℓ κ} :
    {A : Type ℓ} (P : A → Type κ) (xs ys : List A) → All P xs → All P ys → All P (xs ++ ys)
All-append P [] ys h k = k
All-append P (x ∷ xs) ys h k = (h.0, All-append P xs ys h.1 k)

abbrev busy : Consumer → ℕ
busy c = if c.subscribing then 1 else 0

-- If the loop goes on, the new subscriptions are counted in its state, whose source is sound.
abbrev Kept : List String → Consumer → List Effect → Progress → Type 0
Kept valid c es (goes_on d) =
    (subscriptions es + busy c ≡ busy d) × IfSource (Subscribable valid) d.source
Kept valid c es (returns _) = Unit

-- What the events so far leave, from the state c.
record After (valid : List String) (c : Consumer) (p : Progress) (es : List Effect) : Type 0 where
  sound : All (Sound valid) es
  at_most : subscriptions es + busy c ≤ 1
  kept : Kept valid c es p

module _ (valid : List String) where
  After-source :
      (s : Source) (c : Consumer)
      → c.subscribing ≡ false
      → let (p, es) = consume_event valid (recv_source s) c in After valid c p es
  unfolding consume_event
  After-source s c idle = go (unsupported valid (set_source_defaults s).options) refl
    where
      go :
          (l : List String)
          → unsupported valid (set_source_defaults s).options ≡ l
          → let (p, es) = consume_event valid (recv_source s) c in After valid c p es
      go [] h =
          let good = set_source_defaults-Subscribable valid s h in
          rw (idle, h)
            (record { sound = (good, tt); at_most = ground arith; kept = (ground arith, good) })
      go (o ∷ os) h = rw (idle, h) (record { sound = (tt, tt); at_most = ground arith; kept = tt })

  After-event :
      (e : Event) (c : Consumer)
      → IfSource (Subscribable valid) c.source
      → let (p, es) = consume_event valid e c in After valid c p es
  unfolding consume_event
  After-event client_gone c g = record { sound = tt; at_most = ground arith; kept = tt }
  After-event no_message c g = record {
    sound = tt;
    at_most = ground arith;
    kept = (omega arith, g);
  }
  After-event (recv_failed e) c g = record { sound = tt; at_most = ground arith; kept = tt }
  After-event (recv_source s) c g = elim (Bool-cases c.subscribing) [
    | inl h ↦ rw h (record { sound = (tt, tt); at_most = ground arith; kept = (ground arith, g) })
    | inr h ↦ After-source s c h
  ]
  After-event (recv_consumed m) c g = record {
    sound = (tt, tt);
    at_most = ground arith;
    kept = (omega arith, g);
  }
  After-event (stopped e) c g = record { sound = tt; at_most = ground arith; kept = tt }

  Kept-append :
      (c d : Consumer) (es fs : List Effect) (q : Progress)
      → subscriptions es + busy c ≡ busy d
      → Kept valid d fs q
      → Kept valid c (es ++ fs) q
  Kept-append c d es fs (returns r) h k = tt
  Kept-append c d es fs (goes_on d') h k = (omega (arith, subscriptions-append es fs, h, k.0), k.1)

  After-events :
      (events : List Event) (c : Consumer)
      → IfSource (Subscribable valid) c.source
      → let (p, es) = consume valid events c in After valid c p es
  unfolding consume
  After-events [] c g = record { sound = tt; at_most = ground arith; kept = (omega arith, g) }
  After-events (e ∷ events) c g =
      go (consume_event valid e c).0 refl (After-event e c g) (After-events events)
    where
      go :
          (p : Progress)
          → (consume_event valid e c).0 ≡ p
          → After valid c p (consume_event valid e c).1
          → ((d : Consumer)
              → IfSource (Subscribable valid) d.source
              → let (q, fs) = consume valid events d in After valid d q fs)
          → let (q, fs) = consume valid (e ∷ events) c in After valid c q fs
      go (returns r) h a ih =
          rw (consume, h) (record { sound = a.sound; at_most = a.at_most; kept = tt })
      go (goes_on d) h a ih =
          let rest = ih d a.kept.1 in
          let es = (consume_event valid e c).1 in
          let q = (consume valid events d).0 in
          let fs = (consume valid events d).1 in
          let total = subscriptions-append es fs in
          rw (consume, h)
            (record {
              sound = All-append (Sound valid) es fs a.sound rest.sound;
              at_most = omega (arith, total, a.kept.0, rest.at_most);
              kept = Kept-append c d es fs q a.kept.0 rest.kept;
            })

-- Whatever a client sends on a stream, and in whatever order: the provider is asked at most once to
-- subscribe; the source that it is asked for has at least one message of prefetch, an expiry if it is
-- AutoDelete, and only options that the provider supports.
pub consume-Sound :
    (valid : List String) (events : List Event)
    → let (p, effects) = consume valid events new_consumer in
      (subscriptions effects ≤ 1) × All (Sound valid) effects
consume-Sound valid events =
    let a = After-events valid events new_consumer tt in (omega (arith, a.at_most), a.sound)
