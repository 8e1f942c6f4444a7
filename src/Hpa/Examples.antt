-- ===== src/Hpa/Examples.antt =====
-- An autoscaler that scales up twice, for the theorem on scaling.
use arke.Common.{◌≡◌, refl, true, false, List, [], ◌∷◌}
use arke.Common.Int.{negsuc}
use arke.Hpa.{
  WatchEvent, autoscaler, other_object, monitor_hpa, counts, all_rises, monitor_hpa-all_rises,
}

abbrev watched : List WatchEvent
watched =
    autoscaler "arke" false 1
    ∷ autoscaler "arke" true 1
    ∷ autoscaler "other" true 9
    ∷ autoscaler "arke" true 3
    ∷ autoscaler "arke" true 2
    ∷ autoscaler "arke" true 4
    ∷ other_object
    ∷ autoscaler "arke" true 8
    ∷ []

told_twice : monitor_hpa "arke" watched (negsuc 0) ≡ 3 ∷ 4 ∷ []
unfolding monitor_hpa
told_twice = refl

monitor_hpa-all_rises_example :
    monitor_hpa "arke" watched (negsuc 0) ≡ all_rises (counts "arke" watched)
monitor_hpa-all_rises_example = monitor_hpa-all_rises "arke" watched
