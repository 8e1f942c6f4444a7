-- ===== src/Registry/Examples.antt =====
-- A registry of one factory, for the theorems on providers. A factory is a number, and it makes the
-- pair of that number and the number of the call.
use arke.Common.{ℕ, ◌≡◌, refl, Option, none, some}
use arke.ConcurrentMap.{new_concurrent_map, add, get}
use arke.Registry.Defs.{Registry, found, once_do, get_provider}

abbrev make : ℕ → ℕ → Option (ℕ × ℕ)
make f n = some (f, n)

abbrev started : Registry ℕ (ℕ × ℕ)
started = record {
  types = add new_concurrent_map "amqp091" 5;
  providers = new_concurrent_map;
  vault = new_concurrent_map;
  calls = 0;
}

finds : (get_provider make "amqp091" started).0 ≡ found (5, 0)
unfolding get_provider once_do get add new_concurrent_map
finds = refl

no_provider : get started.providers "amqp091" ≡ none
unfolding get new_concurrent_map
no_provider = refl

registered : get started.types "amqp091" ≡ some 5
unfolding get add new_concurrent_map
registered = refl
