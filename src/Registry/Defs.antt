-- ===== src/Registry/Defs.antt =====
-- The functions of internal/provider/provider.go.
use Prim.Native.String.{◌++◌ as append}
use arke.Common.{ℕ, ◌+◌, String, Option, none, some, List, [], ◌∷◌, is_some, ◌==◌, if◌then◌else◌}
use arke.ConcurrentMap.{ConcurrentMap, add, get, get_list}

pub record Registry (F P : Type 0) : Type 0 where
  pub types : ConcurrentMap F  -- registeredProviderTypes
  pub providers : ConcurrentMap P  -- registeredProviders
  pub vault : ConcurrentMap ℕ  -- providerVault: the `done` of each providerOnce
  pub calls : ℕ  -- factory calls so far

pub data Answer (P : Type 0) : Type 0 where
  found : P → Answer P
  invalid : String → Answer P
  panics : Answer P

-- `strings.Join`
abbrev pub join : String → List String → String
join sep [] = ""
join sep (x ∷ []) = x
join sep (x ∷ y ∷ l) = append x (append sep (join sep (y ∷ l)))

module _ {F P : Type 0} where
  -- A nil factory is `none`.
  unfoldable pub register : String → Option F → Registry F P → Registry F P
  register name none r = r
  register name (some f) r =
      if is_some (get r.types name) then r else record r { types = add r.types name f }

  -- `providerOnce.Do`, with the `done` that it leaves.
  unfoldable pub once_do :
      ℕ → (Registry F P → Option P × Registry F P) → Registry F P → Option P × ℕ × Registry F P
  once_do done f r =
      let run = (let (p, r') = f r in let q : Option P × ℕ × Registry F P = (p, 1, r') in q) in
      if done == 1 then (none, done, r) else if done == 0 then run else (none, done, r)

  abbrev pub unregistered_text : Registry F P → String
  unregistered_text r =
      append "invalid provider name. Must be one of: " (join "," (get_list r.types))

  module _ (make : F → ℕ → Option P) where
    unfoldable pub call_factory : F → Registry F P → Option P × Registry F P
    call_factory f r = (make f r.calls, record r { calls = r.calls + 1 })

    -- The provider, which may be nil, and the error. The providerOnce is a new one on each call.
    unfoldable pub new_provider : String → Registry F P → Option P × Option String × Registry F P
    unfolding once_do call_factory
    new_provider name r = elim (get r.types name) [
      | none ↦ (none, some (unregistered_text r), r)
      | some f ↦
          let (p, done, r') = once_do 0 (call_factory f) r in
          (p, none, record r' { vault = add r'.vault name done })
    ]

    remember : String → Option P → Registry F P → Registry F P
    remember name none r = r
    remember name (some p) r = record r { providers = add r.providers name p }

    asserted : String → Registry F P → Answer P × Registry F P
    asserted name r = elim (get r.providers name) [ none ↦ (panics, r) | some p ↦ (found p, r) ]

    unfoldable pub get_provider : String → Registry F P → Answer P × Registry F P
    unfolding new_provider remember asserted
    get_provider name r =
        if is_some (get r.providers name)
        then asserted name r
        else (let (p, e, r') = new_provider name r in
            elim e [
              | none ↦ asserted name (remember name p r')
              | some m ↦ (invalid m, remember name p r')
            ])
