-- ===== src/Amqp/Channels/Publishes.antt =====
-- What it takes for Publish on a channel of internal/provider/connectors/amqp091/amqp091shim.go to
-- succeed.
use arke.Amqp.Headers.{Table}
use arke.Amqp.Wire.{Properties}
use arke.Common.{
  String, ◌≢◌, ℕ, ◌≡◌, ap, sym, ◌∙◌, Bool, false, some, List, ok, err, arith, if◌then◌else◌,
  Bool-cases, inl, inr, ◌⊎◌,
}
use arke.Amqp.Channels.Defs.{
  Operation, Log, Library, Channel, Result, operate, publish, publish_deferred, publish_on,
  confirmed,
}
use arke.Amqp.Channels.SetUp.{Reach, Reach-Confirming, Configured, operate-Configured}

module _ (l : Library) where
  -- How a channel publishes.
  abbrev pub publication : Bool → String → String → Properties → Table → List ℕ → Operation
  publication confirm address subject p headers body =
      if confirm
      then publish_deferred address subject p headers body
      else publish address subject p headers body

  confirmed-ok :
      (q : Result) (ch' : Channel) (log' : Log)
      → confirmed l q ≡ (ok tt, ch', log')
      → (q ≡ (ok tt, ch', log')) × (l.confirmation log' ≢ some false)
  unfolding confirmed
  confirmed-ok (err t, ch1, log1) ch' log' h = absurd (cc h)
  confirmed-ok (ok _, ch1, log1) ch' log' h = (ground (arith, h), λ f. ground (arith, h, f))

  publish_on-operate :
      (address subject : String) (p : Properties) (headers : Table) (body : List ℕ) (ch : Channel)
      (log : Log) (ch' : Channel) (log' : Log)
      → publish_on l address subject p headers body ch log ≡ (ok tt, ch', log')
      → (operate l (publication ch.confirm address subject p headers body) ch log
          ≡ (ok tt, ch', log'))
        × ((ch.confirm ≡ false) ⊎ (l.confirmation log' ≢ some false))
  unfolding publish_on
  publish_on-operate address subject p headers body ch log ch' log' e =
      elim (Bool-cases ch.confirm) [
        | inr plain ↦ (ground (arith, plain, e), inl plain)
        | inl deferred ↦
            let (done, waited) =
              confirmed-ok (operate l (publish_deferred address subject p headers body) ch log) ch'
                log' (ground (arith, deferred, e)) in
            (ground (arith, deferred, done), inr waited)
      ]

  -- A message that Publish reports as sent was taken by the library, last, on a channel that is set up:
  -- with the prefetch, and on a channel made to confirm, set to confirm. There the library has either
  -- given nothing to wait for, or the broker has confirmed the message.
  publish_on-Configured :
      {confirm : Bool} {ch ch' : Channel} {log log' : Log} (address subject : String)
      (p : Properties) (headers : Table) (body : List ℕ)
      → Reach l confirm ch log
      → publish_on l address subject p headers body ch log ≡ (ok tt, ch', log')
      → Configured l (publication confirm address subject p headers body) confirm ch (ch', log')
        × ((confirm ≡ false) ⊎ (l.confirmation log' ≢ some false))
  publish_on-Configured {confirm} {ch} {ch'} {log} {log'} address subject p headers body reach e =
      let same = (Reach-Confirming l reach).1 in
      let (done, waited) = publish_on-operate address subject p headers body ch log ch' log' e in
      (
        operate-Configured l (publication confirm address subject p headers body) reach (
            ap (λ c. operate l (publication c address subject p headers body) ch log) (sym same)
            ∙ done),
        ground (arith, same, waited),
      )
