-- ===== src/TeamAdmin/Access.antt =====
-- What a write of a team leaves in order (app/team_admin.py).
use forgeapi_homelab.Prelude.{
  ℕ, String, true, false, ◌≡◌, ap, subst, ◌∙◌, Option, none, some, List, ◌++◌, any, not, arith,
}
use forgeapi_homelab.Refusals.{ok}
use forgeapi_homelab.Records.{Team}
use forgeapi_homelab.Tenants.{Environment, UnitSpec, environment_named}
use forgeapi_homelab.Config.{TenantsSource}
use forgeapi_homelab.Tx.{Tx, World, ◌>>=◌}
use forgeapi_homelab.Tx.Replies.{lift-returned, transaction-returned}
use forgeapi_homelab.Teams.{get_team, resources}
use forgeapi_homelab.TeamCheck.{
  Finding, is_error, Catalog, check_team, impact_findings, same_placement, impact_of, report,
  is_nil, all_groups, error, overlap_findings, default_allowed,
}
use forgeapi_homelab.TeamCheck.Impact.{lives_in, impact-keeps, no_errors-append}
use forgeapi_homelab.TeamAdmin.{
  Precondition, given_revision, stored_team, review, check_findings, change_in, replace_in, replace,
  guarded, require_db, others, previous_doc,
}

check_findings-ok :
    (findings : List Finding) (codes : List String) (u : Unit {0})
    → check_findings findings codes ≡ ok u
    → any is_error findings ≡ false
unfolding check_findings
check_findings-ok findings codes u e = ground (arith, e)

pub stored_team-ok :
    (number : Option ℕ) (row : Option Team) (t : Team)
    → stored_team number row ≡ ok t
    → (row ≡ some t) × (number ≡ some t.revision)
unfolding stored_team
stored_team-ok number none t e = cc
stored_team-ok none (some r) t e = ground (arith, e)
stored_team-ok (some n) (some r) t e = (ground (arith, e), ap some (ground (arith, e)))

last_clean :
    (a b c d e : List Finding)
    → any is_error (a ++ (b ++ (c ++ (d ++ e)))) ≡ false
    → any is_error e ≡ false
last_clean a b c d e h =
    let (x, p) = no_errors-append a (b ++ (c ++ (d ++ e))) h in
    let (y, q) = no_errors-append b (c ++ (d ++ e)) p in
    let (z, r) = no_errors-append c (d ++ e) q in (no_errors-append d e r).1

review-impact :
    (catalog : Catalog) (name : String) (doc : UnitSpec) (t : Team) (w : World)
    → any is_error (review catalog name doc (some t) w) ≡ false
    → any is_error (impact_findings catalog t.doc doc (resources name w)) ≡ false
unfolding review check_team
review-impact catalog name doc t w h =
    last_clean (report (is_nil (all_groups doc)) error "no_groups")
      (overlap_findings name doc (others name w.db.teams))
      (report (not (default_allowed doc.region_default doc.regions_allowed)) error
        "region_default_not_allowed")
      (catalog.findings name doc (others name w.db.teams))
      (impact_of catalog (previous_doc (some t)) doc (resources name w)) h

module _ (source : TenantsSource) (catalog : Catalog) (actor name : String) where
  guarded-returned :
      (if_match : Precondition) (body : Option ℕ → Tx (Option Team)) (w : World) (row : Option Team)
      → (guarded source catalog actor name if_match body w).0 ≡ ok row
      → (number : Option ℕ) × (given_revision if_match ≡ ok number) × ((body number w).0 ≡ ok row)
  unfolding guarded
  guarded-returned if_match body w row e =
      let (u, d, f) = lift-returned (require_db source) _ w row e in
      let (number, g, h) = lift-returned (given_revision if_match) _ w row f in
      (number, g, transaction-returned (body number) w row h)

  given-some :
      (if_match : Precondition) (number : Option ℕ)
      → given_revision if_match ≡ ok number
      → if_match ≡ some number
  unfolding given_revision
  given-some none number e = cc
  given-some (some n) number e = ap some (cc)

  replaced_from :
      (doc : UnitSpec) (reason : String) (codes : List String) (number : Option ℕ) (w : World)
      (t : Team) (row : Option Team)
      → get_team name w ≡ some t
      → (replace_in source catalog actor name doc reason codes number w).0 ≡ ok row
      → (number ≡ some t.revision)
        × (any is_error (impact_findings catalog t.doc doc (resources name w)) ≡ false)
  unfolding replace_in ◌>>=◌ change_in
  replaced_from doc reason codes number w t row f e =
      let (s, p, q) = lift-returned (stored_team number (get_team name w)) _ w row e in
      let (found, matches) = stored_team-ok number (get_team name w) s p in
      let (u, g, r) =
        lift-returned (check_findings (review catalog name doc (some s) w) codes) _ w row q in
      let same : s ≡ t = cc in
      (
        subst (λ (x : Team). number ≡ some x.revision) same matches,
        review-impact catalog name doc t w (
            subst (λ (x : Team). any is_error (review catalog name doc (some x) w) ≡ false) same
              (check_findings-ok (review catalog name doc (some s) w) codes u g)),
      )

  -- Where a team's document is replaced, `If-Match` named the stored revision, and for every
  -- environment of the stored document in which a resource of the team still is: the new document
  -- has the environment, and places the resource's cloud in it as before.
  pub replace_safe :
      (doc : UnitSpec) (reason : String) (codes : List String) (if_match : Precondition) (w : World)
      (t : Team) (row : Option Team) (n : String) (cloud : Option String) (e : Environment)
      → get_team name w ≡ some t
      → environment_named n t.doc.environments ≡ some e
      → any (lives_in n cloud) (resources name w) ≡ true
      → (replace source catalog actor name doc reason codes if_match w).0 ≡ ok row
      → (if_match ≡ some (some t.revision))
        × (e' : Environment) × (environment_named n doc.environments ≡ some e')
        × (same_placement cloud e e' ≡ true)
  unfolding replace
  replace_safe doc reason codes if_match w t row n cloud e f g a h =
      let (number, m, k) = guarded-returned if_match _ w row h in
      let (matches, clean) = replaced_from doc reason codes number w t row f k in
      let (e', there, same) =
        impact-keeps catalog t.doc doc (resources name w) n cloud e clean g a in
      (given-some if_match number m ∙ ap some matches, e', there, same)
