-- ===== src/Messages/Examples.antt =====
-- A catalogue of two messages.
use arke.Common.{◌≡◌, refl, String, none, some, List, [], ◌∷◌}
use arke.ConcurrentMap.{lookup}
use arke.Messages.Defs.{is_comment, new_properties_bundle}
use arke.Common.Space.{trim_left, is_space}
use arke.Messages.Printed.{
  printed, last_value, before_long, any_long, new_properties_bundle-printed,
}

abbrev catalogue : List (String × String)
catalogue = ("hello", " Hello = {0} ") ∷ (" bye ", "Bye") ∷ ("hello", "Hi") ∷ []

new_properties_bundle-printed_example :
    let (messages, failed) = new_properties_bundle none (some (printed catalogue)) in
    (lookup "hello" messages ≡ last_value "hello" (before_long catalogue))
    × (failed ≡ any_long catalogue)
unfolding trim_left is_space is_comment
new_properties_bundle-printed_example =
    new_properties_bundle-printed catalogue "hello"
      ((refl, refl, refl, refl), ((refl, refl, refl, refl), ((refl, refl, refl, refl), tt)))
