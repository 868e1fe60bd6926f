-- ===== src/TeamCheck.antt =====
-- What a change of a team's document touches (app/team_check.py: `impact_findings`, `counts`,
-- `_reserved`, `_group_sets`). A finding's message, team and path are texts for its reader and are
-- left out. Where the source sorts names, the order of the findings is the documents'.
pub mod Impact
use forgeapi_homelab.Prelude.{
  ℕ, ◌+◌, String, Bool, true, false, Option, none, some, List, [], ◌∷◌, ◌++◌, map, ◌==◌, ◌&&◌, ◌||◌,
  not, any, all, select, count, length, str_mem, str_eq, opt_eq, opt_str_eq, ltb, if◌then◌else◌,
}
use forgeapi_homelab.Records.{Resource, Money, amount}
use forgeapi_homelab.Tenants.{
  Environment, UnitSpec, TargetConfig, malformed, entries, environment_named, environment_groups,
  intersects,
}

pub data Level : Type 0 where
  error warning info : Level

pub record Finding : Type 0 where
  pub level : Level
  pub code : String

abbrev pub is_error : Finding → Bool
is_error f = elim f.level [ error ↦ true | _ ↦ false ]

abbrev pub is_warning : Finding → Bool
is_warning f = elim f.level [ warning ↦ true | _ ↦ false ]

unfoldable pub counts : List Finding → ℕ × ℕ
unfolding count
counts findings = (count is_error findings, count is_warning findings)

abbrev pub report : Bool → Level → String → List Finding
report true level code = record { level = level; code = code } ∷ []
report false level code = []

abbrev pub in_environment : String → Resource → Bool
in_environment env r = opt_str_eq r.resolved.environment (some env)

abbrev pub is_environment : List Environment → String → Bool
is_environment envs n = elim (environment_named n envs) [ none ↦ false | some e ↦ true ]

-- An environment that is gone while resources are in it.
unfoldable pub removed_findings : List Environment → List Environment → List Resource → List Finding
unfolding environment_named any
removed_findings [] new resources = []
removed_findings (e ∷ es) new resources =
    report (not (is_environment new e.name) && any (in_environment e.name) resources) error
      "env_has_resources"
    ++ removed_findings es new resources

unfoldable pub distinct : List (Option String) → List (Option String)
unfolding any
distinct [] = []
distinct (c ∷ cs) = let rest = distinct cs in if any (opt_str_eq c) rest then rest else c ∷ rest

abbrev pub clouds_in : String → List Resource → List (Option String)
clouds_in env resources =
    distinct (map (λ (r : Resource). r.resolved.cloud) (select (in_environment env) resources))

unfoldable pub target_of : String → List (String × TargetConfig) → Option TargetConfig
target_of cloud [] = none
target_of cloud ((c, t) ∷ ts) = if str_eq c cloud then some t else target_of cloud ts

-- `==` on mappings of texts: the same keys with the same values. A target that is no such mapping is
-- refused before, so that two of them are not told apart here.
unfoldable pub value_of : String → List (String × String) → Option String
value_of key [] = none
value_of key ((k, v) ∷ rest) = if str_eq k key then some v else value_of key rest

abbrev pub agree : List (String × String) → List (String × String) → Bool
agree xs ys = all (λ e. opt_str_eq (value_of e.0 ys) (value_of e.0 xs)) xs

abbrev pub config_eq : TargetConfig → TargetConfig → Bool
config_eq malformed malformed = true
config_eq (entries xs) (entries ys) = agree xs ys && agree ys xs
config_eq _ _ = false

-- Whether a resource of this cloud goes to the same place under both documents.
unfoldable pub same_placement : Option String → Environment → Environment → Bool
unfolding target_of value_of all
same_placement none old new = opt_str_eq old.subscription_id new.subscription_id
same_placement (some cloud) old new =
    opt_eq config_eq (target_of cloud old.targets) (target_of cloud new.targets)

unfoldable pub moved_findings : List (Option String) → Environment → Environment → List Finding
unfolding same_placement
moved_findings [] old new = []
moved_findings (c ∷ cs) old new =
    report (not (same_placement c old new)) error "placement_change_with_resources"
    ++ moved_findings cs old new

abbrev pub kept_findings : Environment → Option Environment → List Resource → List Finding
kept_findings old none resources = []
kept_findings old (some new) resources = moved_findings (clouds_in old.name resources) old new

-- The source sorts the clouds first, which raises TypeError where a resource without a cloud and one
-- with a cloud are in the same environment; that exception is not modelled.
unfoldable pub placement_findings :
    List Environment → List Environment → List Resource → List Finding
unfolding environment_named distinct select moved_findings
placement_findings [] new resources = []
placement_findings (e ∷ es) new resources =
    kept_findings e (environment_named e.name new) resources ++ placement_findings es new resources

abbrev pub uses_pattern : String → Resource → Bool
uses_pattern p r = str_eq r.resolved.pattern p

unfoldable pub pattern_findings : List String → List String → List Resource → List Finding
unfolding any str_mem
pattern_findings [] new resources = []
pattern_findings (p ∷ ps) new resources =
    report (not (str_mem p new) && any (uses_pattern p) resources) warning "pattern_in_use"
    ++ pattern_findings ps new resources

-- What `check_team` finds that needs the catalog of patterns, or the text of the document: its name,
-- unknown keys, malformed targets, unknown patterns. Both are outside of this model. `float_sum` is
-- Python's `sum` of a list of amounts, as in Config.
pub record Catalog : Type 0 where
  pub findings : String → UnitSpec → List (String × UnitSpec) → List Finding
  pub float_sum : List ℕ → Option ℕ

-- `_cost`: anything but a number counts as nothing; so does here a number that is negative or not
-- finite, which the ledger never stores.
abbrev pub cost_of : Money → ℕ
cost_of (amount n) = n
cost_of _ = 0

unfoldable pub costs_in : List Resource → String → List ℕ
costs_in [] env = []
costs_in (r ∷ rs) env =
    let rest = costs_in rs env in
    if in_environment env r then cost_of r.resolved.estimated_monthly_cost ∷ rest else rest

unfoldable pub reserved_for : Catalog → List Resource → String → Option ℕ
unfolding costs_in
reserved_for catalog resources env = catalog.float_sum (costs_in resources env)

abbrev pub below : Option ℕ → Option ℕ → Bool
below none reserved = false
below (some budget) none = true
below (some budget) (some reserved) = ltb budget reserved

unfoldable pub budget_findings : Catalog → List Environment → List Resource → List Finding
unfolding reserved_for
budget_findings catalog [] resources = []
budget_findings catalog (e ∷ es) resources =
    report (below e.budget_monthly (reserved_for catalog resources e.name)) warning
      "budget_below_reserved"
    ++ budget_findings catalog es resources

-- `len(set(old) - set(new))`.
unfoldable pub lost : List String → List String → ℕ
unfolding str_mem
lost [] new = 0
lost (g ∷ gs) new = (if str_mem g new || str_mem g gs then 0 else 1) + lost gs new

abbrev pub lost_in : Environment → Option Environment → ℕ
lost_in old none = 0
lost_in old (some new) = lost old.groups new.groups

unfoldable pub lost_grants : List Environment → List Environment → ℕ
unfolding environment_named lost
lost_grants [] new = 0
lost_grants (e ∷ es) new = lost_in e (environment_named e.name new) + lost_grants es new

unfoldable pub impact_findings : Catalog → UnitSpec → UnitSpec → List Resource → List Finding
unfolding removed_findings placement_findings pattern_findings budget_findings lost lost_grants
impact_findings catalog old new resources =
    removed_findings old.environments new.environments resources
    ++ (placement_findings old.environments new.environments resources
        ++ (pattern_findings old.patterns new.patterns resources
            ++ (budget_findings catalog new.environments resources
                ++ report
                    (not (
                      lost old.groups new.groups + lost_grants old.environments new.environments
                      == 0))
                    warning "access_removed")))

-- `_group_sets`, and the findings on a document alone that its types leave open.
abbrev pub all_groups : UnitSpec → List String
all_groups doc = doc.groups ++ environment_groups doc.environments

abbrev pub is_nil {ℓ} : {A : Type ℓ} → List A → Bool
is_nil [] = true
is_nil (x ∷ xs) = false

unfoldable pub overlap_findings : String → UnitSpec → List (String × UnitSpec) → List Finding
unfolding environment_groups intersects
overlap_findings name doc [] = []
overlap_findings name doc ((other, spec) ∷ others) =
    report (not (str_eq other name) && intersects (all_groups doc) (all_groups spec)) warning
      "groups_overlap"
    ++ overlap_findings name doc others

abbrev pub default_allowed : Option String → List String → Bool
default_allowed none allowed = true
default_allowed (some region) allowed = str_mem region allowed

abbrev pub impact_of : Catalog → Option UnitSpec → UnitSpec → List Resource → List Finding
impact_of catalog none doc resources = []
impact_of catalog (some previous) doc resources = impact_findings catalog previous doc resources

unfoldable pub check_team :
    Catalog
    → String
    → UnitSpec
    → Option UnitSpec
    → List (String × UnitSpec)
    → List Resource
    → List Finding
unfolding impact_findings overlap_findings environment_groups str_mem
check_team catalog name doc previous others resources =
    report (is_nil (all_groups doc)) error "no_groups"
    ++ (overlap_findings name doc others
        ++ (report (not (default_allowed doc.region_default doc.regions_allowed)) error
              "region_default_not_allowed"
            ++ (catalog.findings name doc others ++ impact_of catalog previous doc resources)))
