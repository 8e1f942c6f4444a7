-- ===== src/Server/Health/Registered.antt =====
-- What the map of notifiers of internal/server/server.go holds in every reachable state.
use arke.Common.{
  ℕ, String, ◌≡◌, refl, ap, subst, sym, ◌∙◌, ◌↔◌, ◌≢◌, Bool, true, false, Option, none, some, List,
  [], ◌∷◌, arith, str_eq, eq_iff, ◌==◌,
}
use arke.ConcurrentMap.{new_concurrent_map, add, get, delete_if_equal, get-add, lookup-erase}
use arke.Server.Health.Defs.{
  Code, Pc, absent, made, greeting, serving, leaving, closing, ended, Monitor, idle, listing,
  sending, Health, Action, arrives, registers, greets, answers, context_done, unregisters, closes,
  Turn, receives, looks_up, hands_over, set_call, act, hand, turn, Move, call, monitors, step, run,
  new_health,
}

-- A call that has registered for an address and has not looked at the map again.
abbrev pub registered_at : String → Pc → Bool
registered_at a absent = false
registered_at a (made b) = false
registered_at a (greeting b) = str_eq b a
registered_at a (serving b) = str_eq b a
registered_at a (leaving b) = str_eq b a
registered_at a closing = false
registered_at a ended = false

Registered : Health → Type 0
Registered s =
    (a : String) (k : ℕ) → get s.notifiers a ≡ some k → registered_at a (s.calls k) ≡ true

module _ (k : ℕ) (s : Health) (i : Registered s) where
  -- Call k moves, and keeps its registration if it has one.
  moves-Registered :
      (p q : Pc)
      → s.calls k ≡ p
      → ((a : String) → registered_at a p ≡ true → registered_at a q ≡ true)
      → Registered (record s { calls = set_call k q s.calls })
  unfolding Registered
  moves-Registered p q e keeps a j f = ground (arith, e, f, i a j f, keeps a)

  registers-Registered :
      (addr : String)
      → s.calls k ≡ made addr
      → Registered (record s {
        notifiers = add s.notifiers addr k;
        calls = set_call k (greeting addr) s.calls;
      })
  unfolding Registered
  registers-Registered addr e a j f =
      ground (arith, e, f, get-add s.notifiers addr k a, eq_iff addr a, i a j, i a k)

  unregisters-Registered :
      (addr : String)
      → s.calls k ≡ leaving addr
      → Registered (record s {
        notifiers = (delete_if_equal ◌==◌ s.notifiers addr k).0;
        calls = set_call k closing s.calls;
      })
  unfolding Registered get delete_if_equal
  unregisters-Registered addr e a j f =
      ground (arith, e, f, lookup-erase addr a s.notifiers.items, eq_iff addr a, i a j, i a k)

some_inj : {A : Type 0} {a b : A} → some a ≡ some b → a ≡ b
some_inj h = cc h

act-Registered :
    (k : ℕ) (x : Action) (p : Pc) (s s' : Health)
    → s.calls k ≡ p
    → act k x p s ≡ some s'
    → Registered s
    → Registered s'
unfolding act Registered
act-Registered k (arrives addr) absent s s' e h i =
    subst Registered (some_inj h) (moves-Registered k s i absent (made addr) e (λ a r. cc r))
act-Registered k registers (made addr) s s' e h i =
    subst Registered (some_inj h) (registers-Registered k s i addr e)
act-Registered k (greets code true) (greeting addr) s s' e h i =
    subst Registered (some_inj h)
      (moves-Registered k s i (greeting addr) (serving addr) e (λ a r. r))
act-Registered k (greets code false) (greeting addr) s s' e h i =
    subst Registered (some_inj h)
      (moves-Registered k s i (greeting addr) (leaving addr) e (λ a r. r))
act-Registered k (answers code) (serving addr) s s' e h i = subst Registered (some_inj h) i
act-Registered k context_done (serving addr) s s' e h i =
    subst Registered (some_inj h)
      (moves-Registered k s i (serving addr) (leaving addr) e (λ a r. r))
act-Registered k unregisters (leaving addr) s s' e h i =
    subst Registered (some_inj h) (unregisters-Registered k s i addr e)
act-Registered k closes closing s s' e h i =
    subst Registered (some_inj h) (moves-Registered k s i closing ended e (λ a r. cc r))
act-Registered k x p s s' e h i = absurd (cc h)

hand-Registered :
    (code : Code) (k : ℕ) (rest : List String) (p : Pc) (s s' : Health)
    → hand code k rest p s ≡ some s'
    → Registered s
    → Registered s'
unfolding hand Registered
hand-Registered code k rest (serving addr) s s' h i = subst Registered (some_inj h) i
hand-Registered code k rest ended s s' h i = subst Registered (some_inj h) i
hand-Registered code k rest p s s' h i = absurd (cc h)

turn-Registered :
    (t : Turn) (m : Monitor) (s s' : Health) → turn t m s ≡ some s' → Registered s → Registered s'
unfolding turn Registered
turn-Registered (receives code) idle s s' h i = subst Registered (some_inj h) i
turn-Registered looks_up (listing code []) s s' h i = subst Registered (some_inj h) i
turn-Registered looks_up (listing code (addr ∷ rest)) s s' h i = subst Registered (some_inj h) i
turn-Registered hands_over (sending code k rest) s s' h i =
    hand-Registered code k rest (s.calls k) s s' h i
turn-Registered t m s s' h i = absurd (cc h)

step-Registered : (m : Move) (s s' : Health) → step m s ≡ some s' → Registered s → Registered s'
unfolding step
step-Registered (call k x) s s' h i = act-Registered k x (s.calls k) s s' refl h i
step-Registered (monitors t) s s' h i = turn-Registered t s.monitor s s' h i

run-Registered :
    (moves : List Move) (s s' : Health) → run moves s ≡ some s' → Registered s → Registered s'
unfolding run
run-Registered [] s s' h i = subst Registered (some_inj h) i
run-Registered (m ∷ moves) s s' h i = go (λ t. run-Registered moves t s') (step m s) refl
  where
    go :
        ((t : Health) → run moves t ≡ some s' → Registered t → Registered s')
        → (o : Option Health) → step m s ≡ o
        → Registered s'
    go later none e = absurd (ground (arith, e, h))
    go later (some t) e = later t (ground (arith, e, h)) (step-Registered m s t e i)

new_health-Registered : Registered new_health
unfolding Registered new_health get new_concurrent_map
new_health-Registered a k h = absurd (cc h)

unregisters-notifiers :
    (k : ℕ) (p : Pc) (s s' : Health)
    → act k unregisters p s ≡ some s'
    → (addr : String) × (p ≡ leaving addr)
      × (s'.notifiers ≡ (delete_if_equal ◌==◌ s.notifiers addr k).0)
unfolding act
unregisters-notifiers k (leaving addr) s s' h =
    (addr, refl, ap (λ x. x.notifiers) (sym (some_inj h)))
unregisters-notifiers k p s s' h = absurd (cc h)

delete_if_equal-own :
    (k : ℕ) (s : Health)
    → Registered s
    → (addr : String) → s.calls k ≡ leaving addr
    → (a : String) (j : ℕ)
    → (get (delete_if_equal ◌==◌ s.notifiers addr k).0 a ≡ some j)
      ↔ ((get s.notifiers a ≡ some j) × (j ≢ k))
unfolding Registered get delete_if_equal
delete_if_equal-own k s i addr e a j = (
  (λ f. (
    ground (arith, f, lookup-erase addr a s.notifiers.items),
    λ same. ground (arith, e, f, same, lookup-erase addr a s.notifiers.items, eq_iff addr a, i a j),
  )),
  λ (f, other). ground (arith, e, f, other, lookup-erase addr a s.notifiers.items, eq_iff addr a),
)

-- In every run of calls of Check and of the goroutine that passes codes on: a call that ends takes away
-- its own registration, if it still has it, and no other, so that a newer call for the same address
-- stays registered.
pub unregisters_own :
    (moves : List Move) (s s' : Health) (k : ℕ)
    → run moves new_health ≡ some s
    → step (call k unregisters) s ≡ some s'
    → (a : String) (j : ℕ)
    → (get s'.notifiers a ≡ some j) ↔ ((get s.notifiers a ≡ some j) × (j ≢ k))
unfolding step
unregisters_own moves s s' k reached h a j =
    let (addr, e, same) = unregisters-notifiers k (s.calls k) s s' h in
    let (shrinks, keeps) =
      delete_if_equal-own k s (run-Registered moves new_health s reached new_health-Registered) addr
        e a j in
    ((λ f. shrinks (ap (λ m. get m a) (sym same) ∙ f)), (λ f. ap (λ m. get m a) same ∙ keeps f))
