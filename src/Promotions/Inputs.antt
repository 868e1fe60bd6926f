-- ===== src/Promotions/Inputs.antt =====
-- Which inputs a promotion carries to the other environment (app/promotion.py).
use forgeapi_homelab.Prelude.{
  String, Bool, true, false, none, some, List, [], ◌∷◌, ◌++◌, ◌≡◌, refl, sym, ap, ◌∙◌, arith, ◌||◌,
  not, any, str_mem, eq_iff, if◌then◌else◌, ltb,
}
use forgeapi_homelab.Refusals.{Result, Refusal, ok, err}
use forgeapi_homelab.Placements.{Values, lookup}
use forgeapi_homelab.Promotions.{
  Source, Promote, Rebuilt, carried, key_count, names_of, rebuild_intent, is_supplied, intent,
}

str_mem-append :
    (n : String) (xs ys : List String) → str_mem n (xs ++ ys) ≡ (str_mem n xs || str_mem n ys)
unfolding str_mem
str_mem-append n [] ys = refl
str_mem-append n (x ∷ xs) ys = ground (arith, str_mem-append n xs ys)

lookup-carried :
    (n : String) (named : List String) (inputs : Values)
    → lookup n (carried named inputs) ≡ (if str_mem n named then none else lookup n inputs)
unfolding lookup carried
lookup-carried n named [] = ground arith
lookup-carried n named ((k, v) ∷ inputs) = ground (arith, lookup-carried n named inputs, eq_iff k n)

lookup-append :
    (n : String) (xs ys : Values)
    → lookup n (xs ++ ys) ≡ elim (lookup n xs) [ none ↦ lookup n ys | some v ↦ some v ]
unfolding lookup
lookup-append n [] ys = refl
lookup-append n ((k, v) ∷ xs) ys = ground (arith, lookup-append n xs ys)

supplied_each :
    (body : Promote) (names : List String) (n : String)
    → any (λ m. not (is_supplied body m)) names ≡ false
    → str_mem n names ≡ true
    → is_supplied body n ≡ true
unfolding any str_mem
supplied_each body [] n h m = ground (arith, m)
supplied_each body (x ∷ xs) n h m =
    ground (arith, h, m, supplied_each body xs n, eq_iff x n, eq_iff n x)

-- A name that a reference of the source filled is never carried.
not_carried :
    (source : Source) (body : Promote) (n : String)
    → str_mem n source.references ≡ true
    → lookup n
        (body.inputs ++ carried (source.references ++ names_of body.input_refs) source.inputs)
      ≡ lookup n body.inputs
not_carried source body n m = ground (
  arith,
  m,
  lookup-append n body.inputs
      (carried (source.references ++ names_of body.input_refs) source.inputs),
  lookup-carried n (source.references ++ names_of body.input_refs) source.inputs,
  str_mem-append n source.references (names_of body.input_refs),
)

abbrev inputs_of : Result Rebuilt → Values
inputs_of (ok new) = new.inputs
inputs_of (err e) = []

supplied_if :
    (lacking : Bool) (e : Refusal) (m : Result Rebuilt) (new : Rebuilt)
    → (if lacking then err e else m) ≡ ok new
    → (lacking ≡ false) × (m ≡ ok new)
supplied_if true e m new h = cc
supplied_if false e m new h = (refl, h)

-- Where a promotion's intent is built, each input that the source took from a reference is supplied
-- by the request, as an input or as a reference, and what the new intent sets for it is what the
-- request set: the value copied in the source's environment never crosses.
pub intent-inputs :
    (source : Source) (body : Promote) (new : Rebuilt) (n : String)
    → intent source body ≡ ok new
    → str_mem n source.references ≡ true
    → (is_supplied body n ≡ true) × (lookup n new.inputs ≡ lookup n body.inputs)
unfolding intent rebuild_intent
intent-inputs source body new n e m =
    let (complete, built) = supplied_if _ _ (rebuild_intent source body) new e in
    let (small, made) =
      supplied_if
        (ltb 16 (key_count (("promoted_from", source.id) ∷ (body.labels ++ source.labels)))) _ _ new
        built in
    (
      supplied_each body source.references n complete m,
      ap (λ r. lookup n (inputs_of r)) (sym made) ∙ not_carried source body n m,
    )
