-- ===== src/Registry/Laws.antt =====
-- How often internal/provider/provider.go calls a factory, and which provider a caller gets.
use arke.Common.{
  ℕ, ◌+◌, String, ◌≡◌, Option, none, some, is_some, Option-cases, ◌⊎◌, inl, inr, arith, str_eq,
  eq_iff, if◌then◌else◌,
}
use arke.ConcurrentMap.{get, get-add, get-add_self}
use arke.Registry.Defs.{
  Registry, Answer, found, invalid, panics, register, once_do, unregistered_text, get_provider,
}

-- The first factory that is registered under a name stays, and a nil factory registers nothing.
pub get-register :
    {F P : Type 0} (name other : String) (f : Option F) (r : Registry F P)
    → get (register name f r).types other ≡ (
        if str_eq name other
        then (if is_some (get r.types name) then get r.types other else f)
        else get r.types other)
unfolding register
get-register name other none r = ground (arith, eq_iff name other)
get-register name other (some f) r = ground (arith, eq_iff name other, get-add r.types name f other)

-- What a caller gets from what the factory returned.
abbrev pub answer_of : {P : Type 0} → Option P → Answer P
answer_of none = panics
answer_of (some p) = found p

module _ {F P : Type 0} (make : F → ℕ → Option P) where
  get_provider_cached :
      (name : String) (r : Registry F P) (p : P)
      → get r.providers name ≡ some p
      → get_provider make name r ≡ (found p, r)
  unfolding get_provider
  get_provider_cached name r p e = rw e (ground arith)

  -- A provider that was found is cached.
  get_provider_caches :
      (name : String) (r : Registry F P) (p : P)
      → (get_provider make name r).0 ≡ found p
      → get (get_provider make name r).1.providers name ≡ some p
  unfolding get_provider once_do
  get_provider_caches name r p e = ground arith

  -- After a call of `GetProvider` that found a provider, every later call with that name finds the
  -- same one, calls no factory and changes nothing.
  get_provider_again :
      (name : String) (r : Registry F P) (p : P)
      → (get_provider make name r).0 ≡ found p
      → get_provider make name (get_provider make name r).1
        ≡ (found p, (get_provider make name r).1)
  get_provider_again name r p e = get_provider_cached name _ p (get_provider_caches name r p e)

  -- With no provider cached, `GetProvider` answers by the registered type: none registered is an
  -- error and calls no factory, a factory that makes a provider is called once and its provider
  -- returned, and a factory that returns nil ends in a panic.
  get_provider_new :
      (name : String) (r : Registry F P)
      → get r.providers name ≡ none
      → ((get r.types name ≡ none)
          × ((get_provider make name r).1 ≡ r)
          × ((get_provider make name r).0 ≡ invalid (unregistered_text r)))
        ⊎ ((f : F) × (get r.types name ≡ some f)
            × ((get_provider make name r).1.calls ≡ r.calls + 1)
            × ((get_provider make name r).0 ≡ answer_of (make f r.calls)))
  unfolding get_provider once_do
  get_provider_new name r e = elim (Option-cases (get r.types name)) [
    | inl unregistered ↦ inl (unregistered, ground arith, ground arith)
    | inr (f, h) ↦ inr (
      f,
      h,
      ground arith,
      elim (Option-cases (make f r.calls)) [
        | inl e' ↦ ground arith
        | inr (p, e') ↦ ground (arith, get-add_self r.providers name p)
      ],
    )
  ]
