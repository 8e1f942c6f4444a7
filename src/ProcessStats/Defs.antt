-- ===== src/ProcessStats/Defs.antt =====
-- internal/util/metrics.go and readCgroupLimits of cgroups.go. The availability, which the code works
-- out in floating point, is left out; limits are whole numbers, and -1 stands for an unknown one.
use arke.Common.{
  ℕ, ◌+◌, ◌-◌, ◌*◌, ◌/◌, String, ◌||◌, Option, none, some, ltb, str_eq, if◌then◌else◌,
}
use arke.Common.Int.{ℤ, pos, negsuc}
use arke.Common.Text.{atoi}
use arke.Common.Space.{trim_space, first_field}
use arke.SafeBuffer.{SafeBuffer, new_safe_buffer, add}

-- The last minute, with a sample every five seconds.
abbrev pub history_size : ℕ
history_size = 60 / 5

-- The variables of the package.
pub record Monitor : Type 0 where
  pub cpu_history : SafeBuffer ℤ
  pub memory_history : SafeBuffer ℕ
  pub max_memory : ℤ
  pub cpu_limit : ℤ

unfoldable pub new_monitor : Monitor
new_monitor = record {
  cpu_history = new_safe_buffer history_size;
  memory_history = new_safe_buffer history_size;
  max_memory = pos 0;
  cpu_limit = pos 0;
}

-- One round of MonitorProcessStats with what it has measured.
unfoldable pub add_samples : ℤ → ℕ → Monitor → Option Monitor
add_samples cpu memory m = elim (add memory m.memory_history) [
  | none ↦ none
  | some h ↦ elim (add cpu m.cpu_history) [
    | none ↦ none
    | some g ↦ some (record m { cpu_history = g; memory_history = h })
  ]
]

or_unknown : Option ℤ → ℤ
or_unknown none = negsuc 0
or_unknown (some n) = n

memory_limit : String → ℤ
unfolding or_unknown
memory_limit text = if str_eq text "max" then negsuc 0 else or_unknown (atoi text)

div_hundred : Option ℤ → ℤ
div_hundred none = negsuc 0
div_hundred (some (pos n)) = pos (n / 100)
div_hundred (some (negsuc n)) =
    if ltb (suc_of n / 100) 1 then pos 0 else negsuc (suc_of n / 100 - 1)
  where
    suc_of : ℕ → ℕ
    suc_of k = k + 1

quota_limit : ℕ → String → ℤ
unfolding div_hundred
quota_limit cpus field =
    if str_eq field "" || str_eq field "max" || str_eq field "-1"
    then pos (cpus * 1000)
    else div_hundred (atoi field)

-- What the two files say, none for a file that cannot be read, on a machine with that many processors.
unfoldable pub read_cgroup_limits : Option String → Option String → ℕ → Monitor → Monitor
unfolding memory_limit quota_limit
read_cgroup_limits memory quota cpus m = record m {
  max_memory = elim memory [ none ↦ m.max_memory | some t ↦ memory_limit (trim_space t) ];
  cpu_limit = elim quota [ none ↦ m.cpu_limit | some t ↦ quota_limit cpus (first_field t) ];
}
