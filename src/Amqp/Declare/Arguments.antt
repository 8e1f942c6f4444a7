-- ===== src/Amqp/Declare/Arguments.antt =====
-- Which sources declareQueue of internal/provider/connectors/amqp091/amqp091.go accepts, and when the
-- queue expires.
use arke.Common.{
  String, ◌≡◌, refl, ◌↔◌, Bool, true, false, ◌||◌, List, [], ◌∷◌, is_some, eq_iff, Fallible, ok,
  err, All, ◌⊎◌, inl, inr, arith,
}
use arke.Common.Text.{atoi}
use arke.ConcurrentMap.{lookup, lookup-insert}
use arke.Api.{Source}
use arke.Amqp.Headers.{Table, HeaderValue}
use arke.Amqp.Names.{source_type_to_amqp_type}
use arke.Amqp.Declare.Queue.{option_arg, option_args, queue_args}

-- An option that a queue may have: an integer as MessageTTL or Expires, or any text as
-- DeadLetterAddress or DeadLetterSubject.
abbrev pub IsQueueOption : String × String → Type 0
IsQueueOption (option, value) =
    (((option ≡ "MessageTTL") ⊎ (option ≡ "Expires")) × (is_some (atoi value) ≡ true))
    ⊎ (option ≡ "DeadLetterAddress")
    ⊎ (option ≡ "DeadLetterSubject")

abbrev pub is_ok : {A : Type 0} → Fallible A → Bool
is_ok (ok _) = true
is_ok (err _) = false

module _ (option value : String) (args : Table) where
  option_arg-IsQueueOption :
      is_ok (option_arg option value args) ≡ true → IsQueueOption (option, value)
  unfolding option_arg
  option_arg-IsQueueOption h = ground (
    arith,
    eq_iff option "MessageTTL",
    eq_iff option "Expires",
    eq_iff option "DeadLetterAddress",
    eq_iff option "DeadLetterSubject",
  )

  IsQueueOption-option_arg :
      IsQueueOption (option, value) → is_ok (option_arg option value args) ≡ true
  unfolding option_arg
  IsQueueOption-option_arg (inl (inl e, n)) = rw e (ground arith)
  IsQueueOption-option_arg (inl (inr e, n)) = rw e (ground arith)
  IsQueueOption-option_arg (inr (inl e)) = rw e refl
  IsQueueOption-option_arg (inr (inr e)) = rw e refl

-- The options are accepted exactly if each of them is one that a queue may have.
option_args_iff :
    (options : List (String × String)) (args : Table)
    → (is_ok (option_args options args) ≡ true) ↔ All IsQueueOption options
unfolding option_args
option_args_iff [] args = (λ h. tt, λ h. refl)
option_args_iff ((o, v) ∷ options) args = split (option_arg o v args) refl (option_args_iff options)
  where
    split :
        (r : Fallible Table)
        → option_arg o v args ≡ r
        → ((args' : Table) → (is_ok (option_args options args') ≡ true) ↔ All IsQueueOption options)
        → (is_ok (option_args ((o, v) ∷ options) args) ≡ true)
          ↔ All IsQueueOption ((o, v) ∷ options)
    split (err e) q ih = (λ h. cc, λ h. let fits = IsQueueOption-option_arg o v args h.0 in cc)
    split (ok args') q ih = (
      λ h. (option_arg-IsQueueOption o v args (ground arith), (ih args').0 (ground arith)),
      λ h. let rest = (ih args').1 h.1 in ground arith,
    )

-- A queue is declared exactly if the source has a queue's type and each of its options is one that a
-- queue may have; the order of the options does not matter for that.
queue_args_iff :
    (s : Source)
    → (is_ok (queue_args s) ≡ true)
      ↔ ((is_ok (source_type_to_amqp_type s) ≡ true) × All IsQueueOption s.options)
unfolding queue_args
queue_args_iff s = split (source_type_to_amqp_type s) refl
  where
    split :
        (r : Fallible String)
        → source_type_to_amqp_type s ≡ r
        → (is_ok (queue_args s) ≡ true)
          ↔ ((is_ok (source_type_to_amqp_type s) ≡ true) × All IsQueueOption s.options)
    split (err e) q = (λ h. ground arith, λ h. ground arith)
    split (ok kind) q =
        let iff = option_args_iff s.options (("x-queue-type", HeaderValue.text kind) ∷ []) in
        (λ h. (ground arith, iff.0 (ground arith)), λ h. let good = iff.1 h.1 in ground arith)

-- Every AutoDelete or Exclusive source is declared with an expiry: its own, or else five minutes.
pub queue_args_expire :
    (s : Source) (args : Table)
    → queue_args s ≡ ok args
    → (s.auto_delete || s.exclusive) ≡ true
    → is_some (lookup "x-expires" args) ≡ true
unfolding queue_args
queue_args_expire s args h e =
    grind (arith, lookup-insert {V = HeaderValue} "x-expires" "x-expires")
