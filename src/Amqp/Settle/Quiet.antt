-- ===== src/Amqp/Settle/Quiet.antt =====
-- Declaring exchanges, queues and bindings settles no message: it leaves the messages in hand alone
-- and says neither an acknowledgement nor a rejection.
use arke.Common.{
  ℕ, ◌+◌, String, ◌≡◌, refl, ◌∙◌, Bool, true, false, List, [], ◌∷◌, ◌++◌, map, Fallible, ok, err,
  is_some, arith, ◌==◌, if◌then◌else◌,
}
use arke.Common.Text.{contains_text}
use arke.ConcurrentMap.{get}
use arke.Api.{AddressNode, Source}
use arke.Amqp.Wire.{Command, Log, Broker, Binding}
use arke.Amqp.Client.{Client, Action, Done, ◌>>=◌, ◌>>◌, pure, modify, of_fallible, ignoring, say}
use arke.Amqp.Declare.{
  declare_exchange, exchange_unless_known, unless_known, know_exchange, bind_subjects,
  declare_queue, declare_binding, cleanup_bindings, bindings_of, binding_subjects, Matches,
  subject_bindings, match_headers_list, address_name,
}
use arke.Amqp.Declare.Bindings.{said, deletions, say_all-said, cleanup-said}

-- The acknowledgements and rejections of one delivery.
abbrev pub settles_by : ℕ → Command → ℕ
settles_by t (Command.basic_ack u) = if t == u then 1 else 0
settles_by t (Command.basic_nack u _) = if t == u then 1 else 0
settles_by t _ = 0

abbrev pub settles : ℕ → Log → ℕ
settles t [] = 0
settles t (c ∷ log) = settles_by t c + settles t log

module _ (t : ℕ) where
  pub record Keeps (c d : Client) : Type 0 where
    pub log_kept : settles t d.log ≡ settles t c.log
    pub active_kept : d.active_messages ≡ c.active_messages

  -- An action that settles nothing, whether it fails or not.
  abbrev pub Quiet : {A : Type 0} → Action A → Type 0
  Quiet m = (c : Client) → Keeps c (m c).1

  Keeps-trans : {c d e : Client} → Keeps c d → Keeps d e → Keeps c e
  Keeps-trans k l = record {
    log_kept = l.log_kept ∙ k.log_kept;
    active_kept = l.active_kept ∙ k.active_kept;
  }

  Quiet-bind :
      {A B : Type 0} (m : Action A) (f : A → Action B)
      → Quiet m
      → ((a : A) → Quiet (f a))
      → Quiet (m >>= f)
  Quiet-bind {A} {B} m f q r c = go (m c).0 (m c).1 (q c)
    where
      go :
          (x : Fallible A) (c' : Client)
          → Keeps c c'
          → Keeps c (◌>>=◌ {A = A} {B = B} (λ _. (x, c')) f c).1
      go (ok a) c' k = Keeps-trans k (r a c')
      go (err e) c' k = k

  pub Quiet-then : {A B : Type 0} (m : Action A) (k : Action B) → Quiet m → Quiet k → Quiet (m >> k)
  Quiet-then m k q r = Quiet-bind m (λ _. k) q (λ _. r)

  pub Quiet-pure : {A : Type 0} (a : A) → Quiet (pure a)
  Quiet-pure a c = record { log_kept = refl; active_kept = refl }

  pub Quiet-ignoring : (m : Done) → Quiet m → Quiet (ignoring m)
  Quiet-ignoring m q = q

  Quiet-fallible : {A : Type 0} (r : Fallible A) → Quiet (of_fallible r)
  Quiet-fallible r c = record { log_kept = refl; active_kept = refl }

  pub Quiet-unless :
      (test : Bool) (m : Done) → Quiet m → Quiet (λ c. if test then (ok tt, c) else m c)
  Quiet-unless true m q c = record { log_kept = refl; active_kept = refl }
  Quiet-unless false m q c = q c

  Quiet-know : (name : String) → Quiet (modify (know_exchange name))
  Quiet-know name c = record { log_kept = refl; active_kept = refl }

  settles-append : (cs ds : Log) → settles t (cs ++ ds) ≡ settles t cs + settles t ds
  settles-append [] ds = omega arith
  settles-append (c ∷ cs) ds = omega (arith, settles-append cs ds)

  settles-said :
      (cs : List Command) (log : Log) → settles t (said cs log) ≡ settles t cs + settles t log
  settles-said [] log = omega arith
  settles-said (c ∷ cs) log = omega (arith, settles-said cs (c ∷ log))

  settles-queue_binds :
      (s : Source) (subject : String) (ms : List Matches)
      → settles t (map (λ m. Command.queue_bind s.name subject (address_name s) m) ms) ≡ 0
  settles-queue_binds s subject [] = refl
  settles-queue_binds s subject (m ∷ ms) = omega (arith, settles-queue_binds s subject ms)

  settles-subject_bindings :
      (s : Source) (subject : String) (ms : List Matches)
      → settles t (subject_bindings s subject ms) ≡ 0
  unfolding subject_bindings
  settles-subject_bindings s subject [] = refl
  settles-subject_bindings s subject (m ∷ ms) = settles-queue_binds s subject (m ∷ ms)

  settles-bindings_of :
      (s : Source) (subjects : List String) → settles t (bindings_of s subjects) ≡ 0
  unfolding bindings_of
  settles-bindings_of s [] = refl
  settles-bindings_of s (x ∷ xs) = omega (
    arith,
    settles-append (subject_bindings s x (match_headers_list s)) (bindings_of s xs),
    settles-subject_bindings s x (match_headers_list s),
    settles-bindings_of s xs,
  )

  settles-deletions :
      (s : Source) (subjects : List String) (ks : List Binding)
      → settles t (deletions s subjects ks) ≡ 0
  unfolding deletions
  settles-deletions s subjects [] = refl
  settles-deletions s subjects (k ∷ ks) = ground (arith, settles-deletions s subjects ks)

  module _ (b : Broker) where
    pub Quiet-say : (x : Command) → settles_by t x ≡ 0 → Quiet (say b x)
    Quiet-say x h c = record { log_kept = omega arith; active_kept = refl }

    Quiet-exchange_unless_known : (a : AddressNode) → Quiet (exchange_unless_known b a)
    unfolding exchange_unless_known
    Quiet-exchange_unless_known a c = record { log_kept = ground arith; active_kept = ground arith }

    Quiet-bind_subjects :
        (name parent : String) (ss : List String) → Quiet (bind_subjects b name parent ss)
    unfolding bind_subjects
    Quiet-bind_subjects name parent [] = Quiet-pure tt
    Quiet-bind_subjects name parent (s ∷ ss) =
        Quiet-then (say b (Command.exchange_bind name s parent)) (bind_subjects b name parent ss)
          (Quiet-say (Command.exchange_bind name s parent) refl)
          (Quiet-bind_subjects name parent ss)

    Quiet-unless_known : (p : AddressNode) (m : Done) → Quiet m → Quiet (unless_known b p m)
    unfolding unless_known
    Quiet-unless_known p m q c =
        Quiet-unless (is_some (get c.known_exchanges p.name))
          (ignoring m >> modify (know_exchange p.name))
          (Quiet-then (ignoring m) (modify (know_exchange p.name)) q (Quiet-know p.name)) c

    pub Quiet-declare_exchange :
        (a : AddressNode) (ps : List AddressNode) → Quiet (declare_exchange b a ps)
    unfolding declare_exchange
    Quiet-declare_exchange a [] c =
        Quiet-unless (contains_text a.name "amq.")
          (say b Command.standby_channel >> exchange_unless_known b a)
          (Quiet-then (say b Command.standby_channel) (exchange_unless_known b a)
            (Quiet-say Command.standby_channel refl) (Quiet-exchange_unless_known a))
          c
    Quiet-declare_exchange a (p ∷ ps) c =
        let parents : Done = unless_known b p (declare_exchange b p ps) in
        let binds : Done = bind_subjects b a.name p.name a.subjects in
        let known : Done = exchange_unless_known b a in
        let above = Quiet-unless_known p (declare_exchange b p ps) (Quiet-declare_exchange p ps) in
        let bound = Quiet-then parents binds above (Quiet-bind_subjects a.name p.name a.subjects) in
        let rest = Quiet-then known (parents >> binds) (Quiet-exchange_unless_known a) bound in
        Quiet-unless (contains_text a.name "amq.")
          (say b Command.standby_channel >> (known >> (parents >> binds)))
          (Quiet-then (say b Command.standby_channel) (known >> (parents >> binds))
            (Quiet-say Command.standby_channel refl) rest)
          c

    pub Quiet-declare_queue : (s : Source) (force : Bool) → Quiet (declare_queue b s force)
    unfolding declare_queue
    Quiet-declare_queue s force c = record { log_kept = ground arith; active_kept = ground arith }

    pub Quiet-declare_binding : (s : Source) (force : Bool) → Quiet (declare_binding b s force)
    unfolding declare_binding cleanup_bindings
    Quiet-declare_binding s force c =
        let subjects = binding_subjects s in
        let open_c = record c { log = Command.standby_channel ∷ c.log } in
        let bound = said (bindings_of s subjects) open_c.log in
        let listed = b.bindings bound (address_name s) s.name in
        let binds = say_all-said b (bindings_of s subjects) open_c in
        let cleaned = cleanup-said b s subjects listed (record c { log = bound }) in
        record {
          log_kept = ground (
            arith,
            binds,
            cleaned,
            settles-said (deletions s subjects listed) bound,
            settles-said (bindings_of s subjects) open_c.log,
            settles-bindings_of s subjects,
            settles-deletions s subjects listed,
          );
          active_kept = ground (arith, binds, cleaned);
        }
