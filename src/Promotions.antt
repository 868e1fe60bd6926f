-- ===== src/Promotions.antt =====
-- The intent that a promotion submits (app/promotion.py: `rebuild_intent`, `intent`). The checks that
-- an intent's schema makes of its fields are outside.
pub mod Inputs
use forgeapi_homelab.Prelude.{
  ℕ, suc, String, Bool, true, false, Option, none, some, List, [], ◌∷◌, ◌++◌, ◌&&◌, ◌||◌, not, any,
  str_mem, str_eq, is_some, ltb, map, if◌then◌else◌,
}
use forgeapi_homelab.Refusals.{Result, ok, err, promotion_needs_refs, too_many_labels}
use forgeapi_homelab.Records.{InputRef}
use forgeapi_homelab.Placements.{Values, lookup}

-- What is read of the resource: `references` are the names in its `input_refs`.
pub record Source : Type 0 where
  pub id : String
  pub pattern : String
  pub version : Option String
  pub commit : Option String
  pub business_unit : Option String
  pub size : Option String
  pub inputs : Values
  pub references : List String
  pub labels : Values

pub record Promote : Type 0 where
  pub environment : String
  pub business_unit : Option String
  pub size : Option String
  pub inputs : Values
  pub input_refs : List InputRef
  pub labels : Values

pub record Rebuilt : Type 0 where
  pub pattern : String
  pub version : Option String
  pub expected_commit : Option String
  pub business_unit : Option String
  pub environment : Option String
  pub size : Option String
  pub inputs : Values
  pub input_refs : List InputRef
  pub labels : Values

-- `a or b` on texts.
abbrev pub text_or : Option String → Option String → Option String
text_or none other = other
text_or (some s) other = if str_eq s "" then other else some s

abbrev pub names_of : List InputRef → List String
names_of refs = map (λ (r : InputRef). r.name) refs

-- The inputs that the caller typed: those that a reference filled are dropped.
unfoldable pub carried : List String → Values → Values
unfolding str_mem
carried named [] = []
carried named ((k, v) ∷ inputs) =
    let rest = carried named inputs in if str_mem k named then rest else (k, v) ∷ rest

-- `len` of the merged mapping.
unfoldable pub key_count : Values → ℕ
unfolding lookup
key_count [] = 0
key_count ((k, v) ∷ rest) = let n = key_count rest in if is_some (lookup k rest) then n else suc n

-- `rebuild_intent` with the fields that `intent` gives; a later mapping's entry comes first.
unfoldable pub rebuild_intent : Source → Promote → Result Rebuilt
unfolding carried key_count
rebuild_intent source body =
    let labels = ("promoted_from", source.id) ∷ (body.labels ++ source.labels) in
    if ltb 16 (key_count labels)
    then err too_many_labels
    else ok (record {
      pattern = source.pattern;
      version = source.version;
      expected_commit = source.commit;
      business_unit = text_or body.business_unit source.business_unit;
      environment = some body.environment;
      size = text_or body.size source.size;
      inputs = body.inputs ++ carried (source.references ++ names_of body.input_refs) source.inputs;
      input_refs = body.input_refs;
      labels = labels;
    })

abbrev pub is_supplied : Promote → String → Bool
is_supplied body n = str_mem n (names_of body.input_refs) || is_some (lookup n body.inputs)

unfoldable pub intent : Source → Promote → Result Rebuilt
unfolding any str_mem lookup rebuild_intent
intent source body =
    if any (λ n. not (is_supplied body n)) source.references
    then err promotion_needs_refs
    else rebuild_intent source body
