-- ===== src/Examples/Placements.antt =====
-- The inputs of a small pattern.
use forgeapi_homelab.Prelude.{
  String, ◌≡◌, refl, true, none, some, List, [], ◌∷◌, any, not, ◌&&◌, if◌then◌else◌,
}
use forgeapi_homelab.Refusals.{ok}
use forgeapi_homelab.Prelude.{is_some}
use forgeapi_homelab.Tenants.{Placement}
use forgeapi_homelab.Placements.{
  Values, Variable, Sizing, lookup, shape, candidates, sizes_for, hidden,
}
use forgeapi_homelab.Placements.Shapes.{is_called, shape-split}
use forgeapi_homelab.Examples.{web_team, test_environment}

abbrev here : Placement
here = record { unit = web_team; environment = test_environment }

abbrev nothing : String → Values
nothing text = []

abbrev input : String → Variable
input name = record { name = name; required = true; default = "null"; validations = []; other = "" }

abbrev inputs : List Variable
inputs = input "name" ∷ input "cores" ∷ input "environment" ∷ []

abbrev sizes : Sizing
sizes = ("small", ("test", ("cores", "2") ∷ []) ∷ []) ∷ []

abbrev given : Values
given = ("cores", "2") ∷ ("environment", "test") ∷ []

small-shape : shape nothing inputs here sizes (some "small") true ≡ ok (input "name" ∷ [], given)
unfolding shape lookup hidden
small-shape = refl

cores_injected :
    (lookup "cores" given ≡ (
      if any (is_called "cores") inputs
      then lookup "cores" (candidates nothing here (sizes_for sizes "test") (some "small"))
      else none))
    × (any (is_called "cores") (input "name" ∷ []) ≡ (
        any (is_called "cores") inputs
        && not (
            is_some
              (lookup "cores" (candidates nothing here (sizes_for sizes "test") (some "small"))))))
cores_injected =
    shape-split nothing inputs here sizes (some "small") true (input "name" ∷ []) given "cores"
      small-shape
