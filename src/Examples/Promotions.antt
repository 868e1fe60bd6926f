-- ===== src/Examples/Promotions.antt =====
-- The promotion of a small resource.
use forgeapi_homelab.Prelude.{◌≡◌, refl, true, none, some, [], ◌∷◌, any, str_mem}
use forgeapi_homelab.Refusals.{ok}
use forgeapi_homelab.Placements.{lookup}
use forgeapi_homelab.Promotions.{Source, Promote, Rebuilt, intent, is_supplied, key_count, carried}
use forgeapi_homelab.Promotions.Inputs.{intent-inputs}

abbrev in_test : Source
in_test = record {
  id = "res_1";
  pattern = "site";
  version = some "v1.0.0";
  commit = some "c1";
  business_unit = some "web";
  size = none;
  inputs = ("subnet", "test-net") ∷ ("name", "shop") ∷ [];
  references = "subnet" ∷ [];
  labels = [];
}

abbrev to_prod : Promote
to_prod = record {
  environment = "prod";
  business_unit = none;
  size = none;
  inputs = ("subnet", "prod-net") ∷ [];
  input_refs = [];
  labels = [];
}

abbrev in_prod : Rebuilt
in_prod = record {
  pattern = "site";
  version = some "v1.0.0";
  expected_commit = some "c1";
  business_unit = some "web";
  environment = some "prod";
  size = none;
  inputs = ("subnet", "prod-net") ∷ ("name", "shop") ∷ [];
  input_refs = [];
  labels = ("promoted_from", "res_1") ∷ [];
}

prod-intent : intent in_test to_prod ≡ ok in_prod
unfolding intent any str_mem lookup key_count carried
prod-intent = refl

own_subnet :
    (is_supplied to_prod "subnet" ≡ true)
    × (lookup "subnet" in_prod.inputs ≡ lookup "subnet" to_prod.inputs)
unfolding str_mem
own_subnet = intent-inputs in_test to_prod in_prod "subnet" prod-intent refl
