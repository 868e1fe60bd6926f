-- ===== src/TeamCheck/Impact.antt =====
-- What a document without error findings keeps (app/team_check.py, `impact_findings`).
use mathlib.Core.Bool.{false≢true}
use forgeapi_homelab.Prelude.{
  String, Bool, true, false, ◌≡◌, refl, sym, ap, subst, ◌∙◌, Option, none, some, List, [], ◌∷◌,
  ◌++◌, map, ◌&&◌, ◌||◌, not, any, select, str_eq, opt_str_eq, eq_iff, arith, Bool-cases, inl, inr,
  Option-cases, if◌then◌else◌,
}
use forgeapi_homelab.Records.{Resource}
use forgeapi_homelab.Tenants.{Environment, UnitSpec, environment_named}
use forgeapi_homelab.TeamCheck.{
  Finding, error, is_error, report, in_environment, is_environment, removed_findings, distinct,
  clouds_in, same_placement, moved_findings, kept_findings, placement_findings, impact_findings,
  Catalog,
}

pub any-append {ℓ} :
    {A : Type ℓ} (p : A → Bool) (xs ys : List A) → any p (xs ++ ys) ≡ (any p xs || any p ys)
unfolding any
any-append p [] ys = refl
any-append p (x ∷ xs) ys = ground (arith, any-append p xs ys)

-- Neither part of a list without errors has one.
pub no_errors-append :
    (xs ys : List Finding)
    → any is_error (xs ++ ys) ≡ false
    → (any is_error xs ≡ false) × (any is_error ys ≡ false)
no_errors-append xs ys h = ground (arith, h, any-append is_error xs ys)

unreported : (b : Bool) (code : String) → any is_error (report b error code) ≡ false → b ≡ false
unfolding any
unreported true code h = absurd (false≢true (sym h))
unreported false code h = refl

-- A resource of this environment and cloud.
abbrev pub lives_in : String → Option String → Resource → Bool
lives_in n c r = in_environment n r && opt_str_eq c r.resolved.cloud

named_first :
    (n : String) (x e : Environment) (xs : List Environment)
    → str_eq x.name n ≡ true
    → environment_named n (x ∷ xs) ≡ some e
    → (x ≡ e) × (x.name ≡ n)
unfolding environment_named
named_first n x e xs q h = (ground (arith, q, h), (eq_iff x.name n).0 q)

named_rest :
    (n : String) (x e : Environment) (xs : List Environment)
    → str_eq x.name n ≡ false
    → environment_named n (x ∷ xs) ≡ some e
    → environment_named n xs ≡ some e
unfolding environment_named
named_rest n x e xs q h = ground (arith, q, h)

abbrev is_named : Option Environment → Bool
is_named none = false
is_named (some e) = true

unnamed :
    (n : String) (es : List Environment)
    → environment_named n es ≡ none
    → is_environment es n ≡ false
unnamed n es q = ap is_named q

is_environment-named :
    (n : String) (es : List Environment)
    → is_environment es n ≡ true
    → (e : Environment) × (environment_named n es ≡ some e)
is_environment-named n es h = elim (Option-cases (environment_named n es)) [
  | inl q ↦ absurd (false≢true (sym (unnamed n es q) ∙ h))
  | inr p ↦ p
]

kept_or : (a b : Bool) → (not a && b) ≡ false → b ≡ true → a ≡ true
kept_or a b h k = ground (arith, h, k)

removed-kept :
    (n : String) (e : Environment) (old new : List Environment) (rs : List Resource)
    → environment_named n old ≡ some e
    → any (in_environment n) rs ≡ true
    → any is_error (removed_findings old new rs) ≡ false
    → is_environment new n ≡ true
unfolding removed_findings
removed-kept n e [] new rs f a h = unfold environment_named in cc
removed-kept n e (x ∷ xs) new rs f a h =
    let (here, there) =
      no_errors-append
        (report (not (is_environment new x.name) && any (in_environment x.name) rs) error
          "env_has_resources")
        (removed_findings xs new rs) h in
    elim (Bool-cases (str_eq x.name n)) [
      | inl q ↦
          let same = (named_first n x e xs q f).1 in
          kept_or (is_environment new n) _
            (subst (λ k. (not (is_environment new k) && any (in_environment k) rs) ≡ false) same
              (unreported _ "env_has_resources" here))
            a
      | inr q ↦ removed-kept n e xs new rs (named_rest n x e xs q f) a there
    ]

same_cloud : (c d : Option String) → opt_str_eq c d ≡ true → c ≡ d
same_cloud none none h = refl
same_cloud (some c) (some d) h = ap some ((eq_iff c d).0 h)
same_cloud none (some d) h = absurd (false≢true h)
same_cloud (some c) none h = absurd (false≢true h)

any-kept :
    (c d : Option String) (rest : List (Option String)) (b : Bool)
    → any (opt_str_eq d) rest ≡ b
    → (opt_str_eq c d || any (opt_str_eq c) rest) ≡ true
    → any (opt_str_eq c) (if b then rest else d ∷ rest) ≡ true
unfolding any
any-kept c d rest false e h = h
any-kept c d rest true e h = elim (Bool-cases (opt_str_eq c d)) [
  | inl q ↦ subst (λ k. any (opt_str_eq k) rest ≡ true) (sym (same_cloud c d q)) e
  | inr q ↦ ground (arith, q, h)
]

any-distinct :
    (c : Option String) (cs : List (Option String))
    → any (opt_str_eq c) cs ≡ true
    → any (opt_str_eq c) (distinct cs) ≡ true
unfolding any distinct
any-distinct c [] h = h
any-distinct c (d ∷ cs) h =
    any-kept c d (distinct cs) (any (opt_str_eq d) (distinct cs)) refl
      (ground (arith, h, any-distinct c cs))

moved-kept :
    (c : Option String) (cs : List (Option String)) (old new : Environment)
    → any (opt_str_eq c) cs ≡ true
    → any is_error (moved_findings cs old new) ≡ false
    → same_placement c old new ≡ true
unfolding any moved_findings
moved-kept c [] old new a h = absurd (false≢true a)
moved-kept c (d ∷ cs) old new a h =
    let (here, there) =
      no_errors-append
        (report (not (same_placement d old new)) error "placement_change_with_resources")
        (moved_findings cs old new) h in
    elim (Bool-cases (opt_str_eq c d)) [
      | inl q ↦
          subst (λ k. same_placement k old new ≡ true) (sym (same_cloud c d q))
            (kept_or (same_placement d old new) true
              (ground (arith, unreported _ "placement_change_with_resources" here)) refl)
      | inr q ↦ moved-kept c cs old new (ground (arith, a, q)) there
    ]

any-clouds :
    (n : String) (c : Option String) (rs : List Resource)
    → any (lives_in n c) rs ≡ true
    → any (opt_str_eq c) (map (λ (r : Resource). r.resolved.cloud) (select (in_environment n) rs))
      ≡ true
unfolding any select
any-clouds n c [] h = h
any-clouds n c (r ∷ rs) h = ground (arith, h, any-clouds n c rs)

any-environment :
    (n : String) (c : Option String) (rs : List Resource)
    → any (lives_in n c) rs ≡ true
    → any (in_environment n) rs ≡ true
unfolding any
any-environment n c [] h = h
any-environment n c (r ∷ rs) h = ground (arith, h, any-environment n c rs)

placement-kept :
    (n : String) (c : Option String) (e e' : Environment) (old new : List Environment)
    (rs : List Resource)
    → environment_named n old ≡ some e
    → environment_named n new ≡ some e'
    → any (lives_in n c) rs ≡ true
    → any is_error (placement_findings old new rs) ≡ false
    → same_placement c e e' ≡ true
unfolding placement_findings
placement-kept n c e e' [] new rs f g a h = unfold environment_named in cc
placement-kept n c e e' (x ∷ xs) new rs f g a h =
    let (here, there) =
      no_errors-append (kept_findings x (environment_named x.name new) rs)
        (placement_findings xs new rs) h in
    elim (Bool-cases (str_eq x.name n)) [
      | inl q ↦
          let (p, same) = named_first n x e xs q f in
          subst (λ y. same_placement c y e' ≡ true) p
            (moved-kept c (clouds_in x.name rs) x e'
              (subst (λ k. any (opt_str_eq c) (clouds_in k rs) ≡ true) (sym same)
                (any-distinct c _ (any-clouds n c rs a)))
              (ap (λ o. any is_error (kept_findings x o rs))
                  (sym g ∙ ap (λ k. environment_named k new) (sym same))
                ∙ here))
      | inr q ↦ placement-kept n c e e' xs new rs (named_rest n x e xs q f) g a there
    ]

-- Where the impact of a new document has no error, every environment that a resource is in stays, and
-- the place that the resource's cloud has in it stays the same.
pub impact-keeps :
    (catalog : Catalog) (old new : UnitSpec) (rs : List Resource) (n : String) (c : Option String)
    (e : Environment)
    → any is_error (impact_findings catalog old new rs) ≡ false
    → environment_named n old.environments ≡ some e
    → any (lives_in n c) rs ≡ true
    → (e' : Environment) × (environment_named n new.environments ≡ some e')
      × (same_placement c e e' ≡ true)
unfolding impact_findings
impact-keeps catalog old new rs n c e h f a =
    let (removed, rest) =
      no_errors-append (removed_findings old.environments new.environments rs) _ h in
    let (placed, rest') =
      no_errors-append (placement_findings old.environments new.environments rs) _ rest in
    let (e', g) = is_environment-named n new.environments (
      removed-kept n e old.environments new.environments rs f (any-environment n c rs a) removed) in
    (e', g, placement-kept n c e e' old.environments new.environments rs f g a placed)
