-- ===== src/ProcessStats/Samples.antt =====
-- What rounds of MonitorProcessStats in internal/util/processMonitor_linux.go leave in the histories of
-- internal/util/metrics.go.
use mathlib.Core.List.{map-append}
use arke.Common.{
  ℕ, ◌-◌, ◌≡◌, refl, ap, sym, ◌∙◌, Option, none, some, List, [], ◌∷◌, ◌++◌, map, length, drop,
  arith,
}
use arke.Common.Int.{ℤ}
use arke.SafeBuffer.{SafeBuffer, new_safe_buffer, add, get_data}
use arke.SafeBuffer.Recent.{add_all, add_all-recent}
use arke.ProcessStats.Defs.{history_size, Monitor, new_monitor, add_samples}

-- All samples so far, one round after the other.
unfoldable pub add_all_samples : List (ℤ × ℕ) → Monitor → Option Monitor
add_all_samples [] m = some m
add_all_samples ((cpu, memory) ∷ rest) m = elim (add_samples cpu memory m) [
  | none ↦ none
  | some m' ↦ add_all_samples rest m'
]

abbrev pub cpu_of : ℤ × ℕ → ℤ
cpu_of s = s.0

abbrev pub memory_of : ℤ × ℕ → ℕ
memory_of s = s.1

add_all_samples-add_all :
    (samples : List (ℤ × ℕ)) (m : Monitor) (g : SafeBuffer ℤ) (h : SafeBuffer ℕ)
    → add_all (map cpu_of samples) m.cpu_history ≡ some g
    → add_all (map memory_of samples) m.memory_history ≡ some h
    → add_all_samples samples m ≡ some (record m { cpu_history = g; memory_history = h })
unfolding add_all add_samples add_all_samples
add_all_samples-add_all [] m g h p q = ground (arith, p, q)
add_all_samples-add_all ((cpu, memory) ∷ rest) m g h p q =
    go (λ m'. add_all_samples-add_all rest m' g h) (add cpu m.cpu_history)
      (add memory m.memory_history) refl refl
  where
    go :
        ((m' : Monitor)
          → add_all (map cpu_of rest) m'.cpu_history ≡ some g
          → add_all (map memory_of rest) m'.memory_history ≡ some h
          → add_all_samples rest m' ≡ some (record m' { cpu_history = g; memory_history = h }))
        → (o : Option (SafeBuffer ℤ)) (r : Option (SafeBuffer ℕ)) → add cpu m.cpu_history ≡ o
        → add memory m.memory_history ≡ r
        → add_all_samples ((cpu, memory) ∷ rest) m
          ≡ some (record m { cpu_history = g; memory_history = h })
    go again none r e f = absurd (ground (arith, e, p))
    go again (some g') none e f = absurd (ground (arith, f, q))
    go again (some g') (some h') e f =
        let m' : Monitor = record m { cpu_history = g'; memory_history = h' } in
        let p' : add_all (map cpu_of rest) g' ≡ some g = ground (arith, e, p) in
        let q' : add_all (map memory_of rest) h' ≡ some h = ground (arith, f, q) in
        ground (arith, e, f, again m' p' q')

-- The newest twelve of all values.
abbrev pub recent : {A : Type 0} → List A → List A
recent all = drop (length all - 12) all

-- From the start of the process, any number of rounds succeed, whatever they measure, and leave in the two
-- histories the newest twelve samples of the processor and of the memory, or all if there are fewer, in
-- the order in which they came.
pub add_all_samples-recent :
    (samples : List (ℤ × ℕ)) (s : ℤ × ℕ)
    → let all = samples ++ (s ∷ []) in
      (m : Monitor) × (add_all_samples all new_monitor ≡ some m)
      × (get_data m.cpu_history ≡ recent (map cpu_of all))
      × (get_data m.memory_history ≡ recent (map memory_of all))
unfolding new_monitor
add_all_samples-recent samples s =
    let (g, p, got, _) = add_all-recent 11 (map cpu_of samples) s.0 in
    let (h, q, held, _) = add_all-recent 11 (map memory_of samples) s.1 in
    let cpus = map-append cpu_of samples (s ∷ []) in
    let memories = map-append memory_of samples (s ∷ []) in
    (
      record new_monitor { cpu_history = g; memory_history = h },
      add_all_samples-add_all (samples ++ (s ∷ [])) new_monitor g h
          (ap (λ xs. add_all xs (new_safe_buffer history_size)) cpus ∙ p)
          (ap (λ xs. add_all xs (new_safe_buffer history_size)) memories ∙ q),
      got ∙ ap recent (sym cpus),
      held ∙ ap recent (sym memories),
    )
