-- ===== src/ProcessStats/Examples.antt =====
-- Three samples of a process, and two files of limits, for the theorem on samples.
use arke.Common.{ℕ, ◌≡◌, refl, none, some, List, [], ◌∷◌, ◌++◌}
use arke.Common.Int.{ℤ, pos, negsuc}
use arke.ProcessStats.Defs.{Monitor, new_monitor, read_cgroup_limits}
use arke.ProcessStats.Samples.{add_all_samples, add_all_samples-recent}
use arke.SafeBuffer.{get_data}
use arke.Common.Space.{trim_space, trim_left, trim_right, first_field, word, is_space}
use arke.Common.Text.{atoi}

-- Half a processor, and a limit of the memory in the second file only.
limits_read :
    ((read_cgroup_limits (some "max\n") (some "50000 100000\n") 4 new_monitor).cpu_limit ≡ pos 500)
    × ((read_cgroup_limits (some "max\n") (some "50000 100000\n") 4 new_monitor).max_memory
        ≡ negsuc 0)
    × ((read_cgroup_limits (some "1024\n") (some "max 100000\n") 4 new_monitor).cpu_limit
        ≡ pos 4000)
    × ((read_cgroup_limits (some "1024\n") none 4 new_monitor).max_memory ≡ pos 1024)
unfolding read_cgroup_limits trim_space trim_left trim_right first_field word is_space atoi
limits_read = (refl, refl, refl, refl)

abbrev samples : List (ℤ × ℕ)
samples = (pos 480, 100) ∷ (pos 490, 100) ∷ []

add_all_samples-recent_example :
    (m : Monitor) × (add_all_samples (samples ++ ((pos 500, 100) ∷ [])) new_monitor ≡ some m)
    × (get_data m.cpu_history ≡ pos 480 ∷ pos 490 ∷ pos 500 ∷ [])
    × (get_data m.memory_history ≡ 100 ∷ 100 ∷ 100 ∷ [])
add_all_samples-recent_example = add_all_samples-recent samples (pos 500, 100)
