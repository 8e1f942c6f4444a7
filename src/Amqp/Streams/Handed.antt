-- ===== src/Amqp/Streams/Handed.antt =====
-- What two calls of GetPublisher in internal/provider/connectors/amqp091/streamshim.go hand out, the first
-- of which makes the pool.
use arke.Common.{
  zero, suc, true, ℕ, ◌+◌, ◌-◌, ◌<◌, ◌≤◌, ◌^◌, String, Bool, false, Option, none, some, ◌≡◌, refl,
  ap, ◌∙◌, arith, if◌then◌else◌, ◌||◌, ◌==◌, str_eq,
}
use arke.ConcurrentMap.{get, add, get-add_self}
use arke.BlockingPool.{new_blocking_pool, Ending}
use arke.Amqp.Streams.Publishers.{StreamPublisher, Pool, gen_publisher_key, pool_for, new_pool}
use arke.Amqp.Streams.Pooled.{
  Alone, StreamConnection, new_publisher, get_publisher, close_publishers, take_from, put_back,
}
use arke.Amqp.Streams.Tries.{idle, first_made, turns, outcome, turns_le, turns-pos, tries_lem}

abbrev pub slots_for : String → ℕ
slots_for publisher = if str_eq publisher "" then 10 else 1

module _ {P : Type 0} where
  abbrev pub made_by :
      String → String → Bool → StreamConnection P → (ℕ → Option P) → ℕ → Option (StreamPublisher P)
  made_by stream publisher confirm sc producers i =
      new_publisher sc.client_disconnect stream publisher confirm (producers i)

  -- A pool of which nobody has put anything back.
  abbrev untouched : String → String → Bool → ℕ → ℕ → Bool → Pool P
  untouched stream publisher confirm taken limit cancelled = record {
    stream = stream;
    publisher = publisher;
    confirm = confirm;
    slots = idle taken limit cancelled;
  }

  take_from_lem :
      (stream publisher key : String) (confirm : Bool) (taken free extra limit : ℕ) (before : Bool)
      (producers : ℕ → Option P) (take_item : Bool) (sc : StreamConnection P)
      → 10 ≡ free + extra
      → taken + free ≡ limit
      → limit < 2 ^ 31
      → let pool = untouched stream publisher confirm taken limit before in
        let made = made_by stream publisher confirm sc producers in
        take_from key pool producers take_item sc ≡ (
          put_back sc key pool (idle (taken + turns free made 0) limit sc.cancelled),
          outcome (first_made free made 0) (extra == 0 || sc.cancelled),
        )
  unfolding take_from
  take_from_lem stream publisher key confirm taken free extra limit before producers take_item sc
        ten all small =
      let made = made_by stream publisher confirm sc producers in
      let pool = untouched stream publisher confirm taken limit before in
      ap (λ r. (put_back sc key pool r.0, r.1))
        (tries_lem free 10 extra made take_item 0 taken limit sc.cancelled ten all small)

  first_use :
      (stream publisher : String) (confirm : Bool) (producers : ℕ → Option P) (take_item : Bool)
      (sc : StreamConnection P)
      → get sc.publishers (gen_publisher_key stream publisher confirm) ≡ none
      → let k = gen_publisher_key stream publisher confirm in
        let pool = new_pool stream publisher confirm in
        get_publisher stream publisher confirm producers take_item sc
        ≡ take_from k pool producers take_item (record sc { publishers = add sc.publishers k pool })
  unfolding get_publisher pool_for
  first_use stream publisher confirm producers take_item sc fresh = ground (arith, fresh)

  pub later_use :
      (stream publisher : String) (confirm : Bool) (producers : ℕ → Option P) (take_item : Bool)
      (sc : StreamConnection P) (pool : Pool P)
      → get sc.publishers (gen_publisher_key stream publisher confirm) ≡ some pool
      → get_publisher stream publisher confirm producers take_item sc
        ≡ take_from (gen_publisher_key stream publisher confirm) pool producers take_item sc
  unfolding get_publisher pool_for
  later_use stream publisher confirm producers take_item sc pool found = ground (arith, found)

  -- A first call of GetPublisher for a stream and a publisher returns the publisher that is made first,
  -- but it has ten turns without a publisher name and one turn with a name. When none is made, the
  -- call without a name returns nil; that with a name blocks in its second turn, until the context is
  -- done. A second call, before anything is put back, has only the turns that the first one left, and
  -- blocks after them until the context is done: a turn that failed takes a publisher away for good.
  pub get_publisher_twice :
      (stream publisher : String) (confirm : Bool) (producers producers' : ℕ → Option P)
      (take_item : Bool) (sc : StreamConnection P)
      → get sc.publishers (gen_publisher_key stream publisher confirm) ≡ none
      → let (sc', first) = get_publisher stream publisher confirm producers take_item sc in
        let limit = slots_for publisher in
        let made = made_by stream publisher confirm sc producers in
        let made' = made_by stream publisher confirm sc producers' in
        (first ≡ outcome (first_made limit made 0) (str_eq publisher "" || sc.cancelled))
        × ((get_publisher stream publisher confirm producers' take_item sc').1
            ≡ outcome (first_made (limit - turns limit made 0) made' 0) sc.cancelled)
  unfolding new_pool new_blocking_pool
  get_publisher_twice stream publisher confirm producers producers' take_item sc fresh =
      let k = gen_publisher_key stream publisher confirm in
      let limit = slots_for publisher in
      let made = made_by stream publisher confirm sc producers in
      let made' = made_by stream publisher confirm sc producers' in
      let used = turns limit made 0 in
      let pool : Pool P = new_pool stream publisher confirm in
      let after : Pool P = untouched stream publisher confirm used limit sc.cancelled in
      let opened : StreamConnection P = record sc { publishers = add sc.publishers k pool } in
      let sc' : StreamConnection P = put_back opened k pool (idle used limit sc.cancelled) in
      let few : limit ≤ 10 = ground arith in
      let some_slot : 0 < limit = ground arith in
      let within = turns_le limit made 0 in
      let begun = turns-pos limit made 0 some_slot in
      let first =
        first_use stream publisher confirm producers take_item sc fresh
        ∙ take_from_lem stream publisher k confirm 0 limit (10 - limit) limit false producers
            take_item opened (omega arith) (omega arith) (omega arith) in
      let found : get sc'.publishers k ≡ some after = get-add_self opened.publishers k after in
      let second =
        later_use stream publisher confirm producers' take_item sc' after found
        ∙ take_from_lem stream publisher k confirm used (limit - used) (10 - (limit - used)) limit
            sc.cancelled producers' take_item sc' (omega arith) (omega arith) (omega arith) in
      let all_ten : (10 - limit == 0) ≡ str_eq publisher "" = ground arith in
      let not_all : (10 - (limit - used) == 0) ≡ false = ground (arith, few, within, begun) in
      let from_none : 0 + used ≡ used = omega arith in
      (
        ap (λ r. r.1) first
            ∙ ap (λ t. outcome (first_made limit made 0) (t || sc.cancelled)) all_ten,
        ap (λ r. (get_publisher stream publisher confirm producers' take_item r.0).1) first
            ∙ ap
                (λ n.
                  (get_publisher stream publisher confirm producers' take_item
                    (put_back opened k pool (idle n limit sc.cancelled))).1)
                from_none
            ∙ ap (λ r. r.1) second
            ∙ ap (λ t. outcome (first_made (limit - used) made' 0) (t || sc.cancelled)) not_all,
      )

  nothing_made :
      (stream publisher : String) (confirm : Bool) (producer : Option P) (sc : StreamConnection P)
      → sc.client_disconnect ≡ true
      → new_publisher sc.client_disconnect stream publisher confirm producer ≡ none
  unfolding new_publisher
  nothing_made stream publisher confirm none sc gone = refl
  nothing_made stream publisher confirm (some p) sc gone = ground (arith, gone)

  never_made :
      (stream publisher : String) (confirm : Bool) (sc : StreamConnection P)
      (producers : ℕ → Option P) (n i : ℕ)
      → sc.client_disconnect ≡ true
      → first_made n (made_by stream publisher confirm sc producers) i ≡ none
  unfolding first_made
  never_made stream publisher confirm sc producers zero i gone = refl
  never_made stream publisher confirm sc producers (suc n) i gone =
      let rest = never_made stream publisher confirm sc producers n (suc i) gone in
      let none_now : made_by stream publisher confirm sc producers i ≡ none =
        nothing_made stream publisher confirm (producers i) sc gone in
      ground (arith, none_now, rest)

  -- After Close, GetPublisher makes no publisher and does not block.
  get_publisher-close :
      (stream publisher : String) (confirm : Bool) (producers : ℕ → Option P) (take_item : Bool)
      (sc : StreamConnection P)
      → get sc.publishers (gen_publisher_key stream publisher confirm) ≡ none
      → (get_publisher stream publisher confirm producers take_item (close_publishers sc)).1
        ≡ Alone.finished Ending.got_nil
  unfolding close_publishers outcome
  get_publisher-close stream publisher confirm producers take_item sc fresh =
      let closed = close_publishers sc in
      let none_made =
        never_made stream publisher confirm closed producers (slots_for publisher) 0 refl in
      let twice =
        get_publisher_twice stream publisher confirm producers producers take_item closed fresh in
      twice.0 ∙ ap (λ m. outcome m (str_eq publisher "" || true)) none_made ∙ ground arith
