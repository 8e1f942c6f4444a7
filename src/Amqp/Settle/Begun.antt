-- ===== src/Amqp/Settle/Begun.antt =====
-- Messages in hand while calls of Ack, Nack, Retry and DeadLetter of internal/provider/connectors/amqp091/
-- amqp091.go have settled some of them and have still to delete these from the map.
use arke.Common.{
  ℕ, ◌+◌, ◌≤◌, String, ◌≡◌, true, false, some, List, [], ◌∷◌, str_eq, eq_iff, arith, refl, ap, sym,
  ◌∙◌, if◌then◌else◌, Bool-cases, inl, inr,
}
use arke.ConcurrentMap.{lookup, insert, erase, contains}
use arke.Amqp.Client.{Active}

abbrev pub remove : String → List String → List String
remove k [] = []
remove k (j ∷ l) = if str_eq j k then remove k l else j ∷ remove k l

-- The sum of f over the messages whose settling has not begun.
abbrev pub still : (Active → ℕ) → List String → List (String × Active) → ℕ
still f begun [] = 0
still f begun ((k, m) ∷ l) = (if contains k begun then 0 else f m) + still f begun l

str_eq_sym : (a b : String) → str_eq a b ≡ str_eq b a
str_eq_sym a b = elim (Bool-cases (str_eq a b)) [
  | inl same ↦ same ∙ sym ((eq_iff b a).1 (sym ((eq_iff a b).0 same)))
  | inr other ↦ elim (Bool-cases (str_eq b a)) [
    | inl same ↦ (eq_iff a b).1 (sym ((eq_iff b a).0 same)) ∙ sym same
    | inr too ↦ other ∙ sym too
  ]
]

some_inj : {A : Type 0} {a b : A} → some a ≡ some b → a ≡ b
some_inj h = cc h

module _ (f : Active → ℕ) where
  pub still-insert :
      (begun : List String) (k : String) (m : Active) (l : List (String × Active))
      → still f begun (insert k m l) ≤ f m + still f begun l
  still-insert begun k m [] = ground arith
  still-insert begun k m ((j, w) ∷ l) = ground (arith, still-insert begun k m l)

  pub still-cons :
      (k : String) (begun : List String) (l : List (String × Active))
      → still f (k ∷ begun) l ≤ still f begun l
  still-cons k begun [] = omega arith
  still-cons k begun ((j, w) ∷ l) = ground (arith, still-cons k begun l)

  pub still-begin :
      (k : String) (m : Active) (begun : List String) (l : List (String × Active))
      → contains k begun ≡ false
      → lookup k l ≡ some m
      → still f (k ∷ begun) l + f m ≤ still f begun l
  still-begin k m begun [] out found = ground (arith, found)
  still-begin k m begun ((j, w) ∷ l) out found = elim (Bool-cases (str_eq j k)) [
    | inl same ↦
        let key : j ≡ k = (eq_iff j k).0 same in
        let back : str_eq k j ≡ true = (eq_iff k j).1 (sym key) in
        let unbegun : contains j begun ≡ false = ap (λ x. contains x begun) key ∙ out in
        let value : some w ≡ some m = ground (arith, same, found) in
        let value_of : f w ≡ f m = ap f (some_inj value) in
        ground (arith, back, unbegun, value_of, still-cons k begun l)
    | inr other ↦ ground (arith, still-begin k m begun l out (ground (arith, other, found)))
  ]

  contains-remove :
      (j k : String) (begun : List String)
      → str_eq j k ≡ false
      → contains j (remove k begun) ≡ contains j begun
  contains-remove j k [] ne = refl
  contains-remove j k (i ∷ l) ne = elim (Bool-cases (str_eq i k)) [
    | inl same ↦
        let other : str_eq i j ≡ false =
          ap (λ x. str_eq x j) ((eq_iff i k).0 same) ∙ (str_eq_sym k j ∙ ne) in
        ground (arith, same, other, contains-remove j k l ne)
    | inr kept ↦ ground (arith, kept, contains-remove j k l ne)
  ]

  pub still-end :
      (k : String) (begun : List String) (l : List (String × Active))
      → still f (remove k begun) (erase k l) ≤ still f begun l
  still-end k begun [] = omega arith
  still-end k begun ((j, w) ∷ l) = elim (Bool-cases (str_eq j k)) [
    | inl same ↦ ground (arith, same, still-end k begun l)
    | inr other ↦ ground (arith, other, still-end k begun l, contains-remove j k begun other)
  ]
