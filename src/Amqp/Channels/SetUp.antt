-- ===== src/Amqp/Channels/SetUp.antt =====
-- What an operation on a channel of internal/provider/connectors/amqp091/amqp091shim.go finds: whatever
-- channels the broker has closed before, the one that it uses is set up.
use arke.Common.{
  ℕ, ◌≡◌, refl, ap, subst, sym, ◌∙◌, Bool, true, false, ◌||◌, none, [], ◌∷◌, Fallible, ok, err,
  arith, ◌==◌, Bool-cases, inl, inr, ◌⊎◌,
}
use arke.Common.Int.{ℤ, pos, ltb_ℤ}
use arke.Amqp.Channels.Defs.{
  Operation, Call, opens, asks, confirms, qos, operates, Log, Library, Channel, answered, Result,
  new_channel, set_qos, adopt, ensure_channel, set_prefetch, operate, then_operate,
}

-- Whether a channel of the library has been set to confirm.
abbrev pub confirms_on : ℕ → Log → Bool
confirms_on k [] = false
confirms_on k (confirms j ∷ log) = j == k || confirms_on k log
confirms_on k (opens ∷ log) = confirms_on k log
confirms_on k (asks j ∷ log) = confirms_on k log
confirms_on k (qos j n ∷ log) = confirms_on k log
confirms_on k (operates j o ∷ log) = confirms_on k log

confirms_on-cons :
    (k : ℕ) (c : Call) (log : Log) → confirms_on k log ≡ true → confirms_on k (c ∷ log) ≡ true
confirms_on-cons k opens log h = h
confirms_on-cons k (asks j) log h = h
confirms_on-cons k (confirms j) log h = ground (arith, h)
confirms_on-cons k (qos j n) log h = h
confirms_on-cons k (operates j o) log h = h

module _ (l : Library) where
  confirms_on-new_channel :
      (confirm : Bool) (log : Log) (r : Fallible Channel) (log' : Log)
      → new_channel l confirm log ≡ (r, log')
      → (k : ℕ) → confirms_on k log ≡ true
      → confirms_on k log' ≡ true
  unfolding new_channel
  confirms_on-new_channel true log r log' h k c = ground (arith, h, c)
  confirms_on-new_channel false log r log' h k c = ground (arith, h, c)

  abbrev pub Confirming : Channel → Log → Type 0
  Confirming ch log = ch.confirm ≡ true → confirms_on ch.channel log ≡ true

  new_channel-Confirming :
      (confirm : Bool) (log : Log) (ch : Channel) (log' : Log)
      → new_channel l confirm log ≡ (ok ch, log')
      → Confirming ch log' × (ch.confirm ≡ confirm)
  unfolding new_channel
  new_channel-Confirming true log ch log' h = (λ c. ground (arith, h), ground (arith, h))
  new_channel-Confirming false log ch log' h = (λ c. ground (arith, h, c), ground (arith, h))

  -- What ensureChannel comes to, an error included.
  record Ensured (ch : Channel) (r : Fallible (Unit {0})) (ch' : Channel) (log : Log) : Type 0 where
    kept_prefetch : ch'.prefetch ≡ ch.prefetch
    kept_confirm : ch'.confirm ≡ ch.confirm
    confirming : Confirming ch' log
    limited :
        r ≡ ok tt
        → ltb_ℤ (pos 0) ch.prefetch ≡ true
        → (before : Log) × (log ≡ qos ch'.channel ch.prefetch ∷ before)
          × (l.answer before (qos ch'.channel ch.prefetch) ≡ none)

  set_qos-Ensured :
      (ch : Channel) (log : Log)
      → Confirming ch log
      → let (r, ch', log') = set_qos l ch log in Ensured ch r ch' log'
  unfolding set_qos
  set_qos-Ensured ch log c = elim (Bool-cases (ltb_ℤ (pos 0) ch.prefetch)) [
    | inr unlimited ↦ rw unlimited (record {
      kept_prefetch = refl;
      kept_confirm = refl;
      confirming = c;
      limited = λ done limit. absurd (ground (arith, unlimited, limit));
    })
    | inl limit ↦ rw limit (record {
      kept_prefetch = refl;
      kept_confirm = refl;
      confirming = λ h. c h;
      limited = λ done _. (log, refl, ground (arith, done));
    })
  ]

  ensure_channel-Ensured :
      (ch : Channel) (log : Log)
      → Confirming ch log
      → let (r, ch', log') = ensure_channel l ch log in Ensured ch r ch' log'
  unfolding ensure_channel adopt
  ensure_channel-Ensured ch log c = elim (Bool-cases (l.is_closed log ch.channel)) [
    | inr open_still ↦ rw open_still (set_qos-Ensured ch (asks ch.channel ∷ log) c)
    | inl closed ↦ rw closed (adopts (new_channel l ch.confirm (asks ch.channel ∷ log)) refl)
  ]
    where
      adopts :
          (n : Fallible Channel × Log)
          → new_channel l ch.confirm (asks ch.channel ∷ log) ≡ n
          → let (r, ch', log') = adopt l ch n in Ensured ch r ch' log'
      adopts (err t, log') e = record {
        kept_prefetch = refl;
        kept_confirm = refl;
        confirming = λ h.
            confirms_on-new_channel ch.confirm (asks ch.channel ∷ log) (err t) log' e ch.channel
              (c h);
        limited = λ done _. absurd (cc done);
      }
      adopts (ok new, log') e =
          let (confirming, same) =
            new_channel-Confirming ch.confirm (asks ch.channel ∷ log) new log' e in
          let q =
            set_qos-Ensured (record ch { channel = new.channel }) log'
              (λ h. confirming (same ∙ h)) in
          record {
            kept_prefetch = q.kept_prefetch;
            kept_confirm = q.kept_confirm;
            confirming = q.confirming;
            limited = q.limited;
          }

  -- One channel in use: it has been made by NewChannel, and all calls on the library since are its
  -- operations, changes of its prefetch, or calls on other channels.
  pub data Reach (confirm : Bool) : Channel → Log → Type 0 where
    made :
        (log : Log) {log' : Log} {ch : Channel}
        → new_channel l confirm log ≡ (ok ch, log')
        → Reach confirm ch log'
    operated :
        {ch ch' : Channel} {log log' : Log} (o : Operation) (r : Fallible (Unit {0}))
        → Reach confirm ch log
        → operate l o ch log ≡ (r, ch', log')
        → Reach confirm ch' log'
    limits :
        {ch ch' : Channel} {log log' : Log} (n : ℤ) (r : Fallible (Unit {0}))
        → Reach confirm ch log
        → set_prefetch l n ch log ≡ (r, ch', log')
        → Reach confirm ch' log'
    elsewhere :
        {ch : Channel} {log : Log} (c : Call) → Reach confirm ch log → Reach confirm ch (c ∷ log)

  -- What an operation comes to, from what ensureChannel came to before it.
  Operated : Operation → Channel → Result → Result → Type 0
  Operated o ch (e, ch1, log1) (r, ch', log') =
      (ch' ≡ ch1)
      × (((log' ≡ log1) × (r ≡ e) × (e ≡ ok tt → ⊥))
          ⊎ ((e ≡ ok tt)
              × (log' ≡ operates ch1.channel o ∷ log1)
              × (r ≡ answered (l.answer log1 (operates ch1.channel o)))))

  operate-Operated :
      (o : Operation) (ch : Channel) (log : Log)
      → Operated o ch (ensure_channel l ch log) (operate l o ch log)
  unfolding operate then_operate Operated
  operate-Operated o ch log = go (ensure_channel l ch log)
    where
      go : (q : Result) → Operated o ch q (then_operate l o q)
      go (err e, ch1, log1) = (refl, inl (refl, refl, λ h. cc h))
      go (ok _, ch1, log1) = (refl, inr (refl, refl, refl))

  Operated-Confirming :
      (o : Operation) (ch : Channel) (q r : Result)
      → Operated o ch q r
      → Confirming q.1 q.2
      → Confirming r.1 r.2 × (r.1.confirm ≡ q.1.confirm)
  unfolding Operated
  Operated-Confirming o ch (e, ch1, log1) (r, ch', log') (same, how) c = (
    λ h. ground (arith, same, how, h, c (ap (λ x. x.confirm) (sym same) ∙ h)),
    ap (λ x. x.confirm) same,
  )

  -- The channel is set up in whatever state it is reached.
  pub Reach-Confirming :
      {confirm : Bool} {ch : Channel} {log : Log}
      → Reach confirm ch log
      → Confirming ch log × (ch.confirm ≡ confirm)
  unfolding set_prefetch
  Reach-Confirming {confirm} (made log {log'} {ch} e) = new_channel-Confirming confirm log ch log' e
  Reach-Confirming (elsewhere {ch} {log} c reach) =
      let (before, same) = Reach-Confirming reach in
      (λ h. confirms_on-cons ch.channel c log (before h), same)
  Reach-Confirming {confirm} (limits {ch} {ch'} {log} {log'} n r reach e) =
      let (before, same) = Reach-Confirming reach in
      let q = ensure_channel-Ensured (record ch { prefetch = n }) log before in
      subst (λ (x : Result). Confirming x.1 x.2 × (x.1.confirm ≡ confirm)) e
        (q.confirming, q.kept_confirm ∙ same)
  Reach-Confirming {confirm} (operated {ch} {ch'} {log} {log'} o r reach e) =
      let (before, same) = Reach-Confirming reach in
      let q = ensure_channel-Ensured ch log before in
      let (after, kept) =
        Operated-Confirming o ch (ensure_channel l ch log) (operate l o ch log)
          (operate-Operated o ch log) q.confirming in
      subst (λ (x : Result). Confirming x.1 x.2 × (x.1.confirm ≡ confirm)) e
        (after, kept ∙ q.kept_confirm ∙ same)

  -- The log ends with an operation that was accepted, on a channel that is set up.
  abbrev pub Configured : Operation → Bool → Channel → Channel × Log → Type 0
  Configured o confirm ch (ch', log') =
      (before : Log) × (log' ≡ operates ch'.channel o ∷ before)
      × (l.answer before (operates ch'.channel o) ≡ none)
      × (confirm ≡ true → confirms_on ch'.channel before ≡ true)
      × (ltb_ℤ (pos 0) ch.prefetch ≡ true
          → (older : Log) × (before ≡ qos ch'.channel ch.prefetch ∷ older)
            × (l.answer older (qos ch'.channel ch.prefetch) ≡ none))
      × (ch'.prefetch ≡ ch.prefetch)
      × (ch'.confirm ≡ confirm)

  -- Whatever was done before on a channel, and whichever channels of the library were closed since: an
  -- operation that succeeds is the last call, and the library accepted it, on a channel that has been
  -- set to confirm if the channel was made so; and directly before, the library accepted the channel's
  -- prefetch, if that is positive. The prefetch and the mode stay.
  pub operate-Configured :
      {confirm : Bool} {ch ch' : Channel} {log log' : Log} (o : Operation)
      → Reach confirm ch log
      → operate l o ch log ≡ (ok tt, ch', log')
      → Configured o confirm ch (ch', log')
  unfolding operate then_operate
  operate-Configured {confirm} {ch} {ch'} {log} {log'} o reach e = go (ensure_channel l ch log) refl
    where
      go : (q : Result) → ensure_channel l ch log ≡ q → Configured o confirm ch (ch', log')
      go (err t, ch1, log1) eq = absurd (ground (arith, eq, e))
      go (ok _, ch1, log1) eq =
          let (before, same) = Reach-Confirming reach in
          let k =
            subst (λ (x : Result). Ensured ch x.0 x.1 x.2) eq
              (ensure_channel-Ensured ch log before) in
          let operated : then_operate l o (ok tt, ch1, log1) ≡ (ok tt, ch', log') =
            ap (then_operate l o) (sym eq) ∙ e in
          subst (λ (x : Channel × Log). Configured o confirm ch x)
            (ap (λ (x : Result). (x.1, x.2)) operated)
            (
              log1,
              refl,
              ground (arith, operated),
              (λ h. k.confirming (k.kept_confirm ∙ same ∙ h)),
              k.limited refl,
              k.kept_prefetch,
              k.kept_confirm ∙ same,
            )
