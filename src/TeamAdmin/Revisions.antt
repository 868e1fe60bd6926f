-- ===== src/TeamAdmin/Revisions.antt =====
-- A team and its revisions (app/team_admin.py, app/team_store.py).
use forgeapi_homelab.Prelude.{
  ℕ, ◌+◌, ◌≤◌, ◌<◌, String, true, false, ◌≡◌, refl, sym, ap, subst, ◌∙◌, Option, none, some, List,
  [], ◌∷◌, ◌++◌, ◌==◌, arith, str_eq, eq_iff, is_some, Bool-cases, inl, inr, if◌then◌else◌,
}
use forgeapi_homelab.Records.{Team, TeamRevision, TeamState}
use forgeapi_homelab.Tenants.{UnitSpec}
use forgeapi_homelab.Tx.{World, ◌>>=◌, event, raise_if}
use forgeapi_homelab.Ledger.Placement.{team_named}
use forgeapi_homelab.Teams.{
  find_revision, write, update_team, new_team, set_teams, insert_revision, next_number, is_revision,
}

-- The history of every team is in order: its revisions are numbered from 1 to the team's own number
-- without a gap, and the last of them holds the team's document and state. Without a row there is no
-- revision.
pub record IsRecorded (teams : List Team) (revisions : List TeamRevision) : Type 0 where
  pub current :
      (n : String) (t : Team)
      → team_named n teams ≡ some t
      → (r : TeamRevision) × (find_revision n t.revision revisions ≡ some r)
        × (r.doc ≡ t.doc)
        × (r.state ≡ t.state)
  pub gapless :
      (n : String) (t : Team) (k : ℕ)
      → team_named n teams ≡ some t
      → 0 < k
      → k ≤ t.revision
      → is_some (find_revision n k revisions) ≡ true
  pub latest :
      (n : String) (t : Team) (k : ℕ)
      → team_named n teams ≡ some t
      → t.revision < k
      → find_revision n k revisions ≡ none
  pub unnamed :
      (n : String) (k : ℕ) → team_named n teams ≡ none → find_revision n k revisions ≡ none

abbrev revised : ℕ → TeamState → UnitSpec → ℕ → String → Option Team → Option Team
revised number state doc at actor none = none
revised number state doc at actor (some t) =
    some (record t {
      revision = number;
      state = state;
      doc = doc;
      updated_at = at;
      updated_by = actor;
    })

team_named-update_team :
    (number : ℕ) (state : TeamState) (doc : UnitSpec) (at : ℕ) (actor name n : String)
    (ts : List Team)
    → team_named n (update_team number state doc at actor name ts) ≡ (
        if str_eq name n
        then revised number state doc at actor (team_named n ts)
        else team_named n ts)
unfolding team_named update_team
team_named-update_team number state doc at actor name n [] = ground arith
team_named-update_team number state doc at actor name n (t ∷ ts) = ground (
  arith,
  team_named-update_team number state doc at actor name n ts,
  eq_iff t.name name,
  eq_iff t.name n,
  eq_iff name n,
)

team_named-append :
    (n : String) (ts : List Team) (t : Team)
    → team_named n (ts ++ t ∷ []) ≡ elim (team_named n ts) [
      | none ↦ (if str_eq t.name n then some t else none)
      | some x ↦ some x
    ]
unfolding team_named
team_named-append n [] t = ground arith
team_named-append n (x ∷ ts) t = ground (arith, team_named-append n ts t)

find_revision-append :
    (n : String) (k : ℕ) (rs : List TeamRevision) (r : TeamRevision)
    → find_revision n k (rs ++ r ∷ []) ≡ elim (find_revision n k rs) [
      | none ↦ (if is_revision n k r then some r else none)
      | some x ↦ some x
    ]
unfolding find_revision
find_revision-append n k [] r = ground arith
find_revision-append n k (x ∷ rs) r = ground (arith, find_revision-append n k rs r)

module _ (actor name : String) (doc : UnitSpec) (state : TeamState) (reason action : String) where
  abbrev new_revision : Option Team → ℕ → TeamRevision
  new_revision previous at = record {
    name = name;
    revision = next_number previous;
    actor = actor;
    at = at;
    reason = reason;
    state = state;
    doc = doc;
    summary_action = action;
  }

  abbrev teams_after : Option Team → ℕ → List Team → List Team
  teams_after none at ts = ts ++ new_team name 1 state doc at actor ∷ []
  teams_after (some t) at ts = update_team (next_number (some t)) state doc at actor name ts

  write-tables :
      (previous : Option Team) (w : World)
      → team_named name w.db.teams ≡ previous
      → find_revision name (next_number previous) w.db.team_revisions ≡ none
      → ((write actor name doc state reason action previous w).1.db.teams
          ≡ teams_after previous w.clock w.db.teams)
        × ((write actor name doc state reason action previous w).1.db.team_revisions
            ≡ w.db.team_revisions ++ new_revision previous w.clock ∷ [])
  unfolding write ◌>>=◌ event set_teams insert_revision raise_if
  write-tables none w f g = (ground (arith, f, g), ground (arith, f, g))
  write-tables (some t) w f g = (ground (arith, f, g), ground (arith, f, g))

  -- The team's row after the write.
  team_after :
      (previous : Option Team) (at : ℕ) (ts : List Team)
      → team_named name ts ≡ previous
      → (t : Team) × (team_named name (teams_after previous at ts) ≡ some t)
        × (t.revision ≡ next_number previous)
        × (t.doc ≡ doc)
        × (t.state ≡ state)
  team_after none at ts f = (
    new_team name 1 state doc at actor,
    ground (
      arith,
      f,
      team_named-append name ts (new_team name 1 state doc at actor),
      eq_iff name name,
    ),
    refl,
    refl,
    refl,
  )
  team_after (some t) at ts f = (
    record t {
      revision = next_number (some t);
      state = state;
      doc = doc;
      updated_at = at;
      updated_by = actor;
    },
    ground (
      arith,
      f,
      team_named-update_team (next_number (some t)) state doc at actor name name ts,
      eq_iff name name,
    ),
    refl,
    refl,
    refl,
  )

  others_after :
      (previous : Option Team) (at : ℕ) (ts : List Team) (n : String)
      → str_eq name n ≡ false
      → team_named n (teams_after previous at ts) ≡ team_named n ts
  others_after none at ts n e =
      ground (arith, e, team_named-append n ts (new_team name 1 state doc at actor))
  others_after (some t) at ts n e =
      ground (arith, e, team_named-update_team (next_number (some t)) state doc at actor name n ts)

  -- The number of the new revision is not taken.
  fresh_number :
      (previous : Option Team) (ts : List Team) (rs : List TeamRevision)
      → IsRecorded ts rs
      → team_named name ts ≡ previous
      → find_revision name (next_number previous) rs ≡ none
  fresh_number none ts rs h f = h.unnamed name 1 f
  fresh_number (some t) ts rs h f = h.latest name t (t.revision + 1) f (omega arith)

  -- Every number up to the last one before the write has its revision.
  taken :
      (previous : Option Team) (ts : List Team) (rs : List TeamRevision) (k : ℕ)
      → IsRecorded ts rs
      → team_named name ts ≡ previous
      → 0 < k
      → k < next_number previous
      → is_some (find_revision name k rs) ≡ true
  taken none ts rs k h f p q = absurd (omega (arith, p, q))
  taken (some t) ts rs k h f p q = h.gapless name t k f p (omega (arith, q))

  untaken :
      (previous : Option Team) (ts : List Team) (rs : List TeamRevision) (k : ℕ)
      → IsRecorded ts rs
      → team_named name ts ≡ previous
      → next_number previous < k
      → find_revision name k rs ≡ none
  untaken none ts rs k h f q = h.unnamed name k f
  untaken (some t) ts rs k h f q = h.latest name t k f (omega (arith, q))

  module _ (previous : Option Team) (at : ℕ) (ts : List Team) (rs : List TeamRevision)
      (h : IsRecorded ts rs) (f : team_named name ts ≡ previous) where
    abbrev revisions_after : List TeamRevision
    revisions_after = rs ++ new_revision previous at ∷ []

    other_revision :
        (n : String) (k : ℕ)
        → str_eq name n ≡ false
        → find_revision n k revisions_after ≡ find_revision n k rs
    other_revision n k e = ground (arith, e, find_revision-append n k rs (new_revision previous at))

    own_revision :
        (k : ℕ)
        → find_revision name k revisions_after ≡ elim (find_revision name k rs) [
          | none ↦ (if next_number previous == k then some (new_revision previous at) else none)
          | some x ↦ some x
        ]
    own_revision k =
        ground (arith, find_revision-append name k rs (new_revision previous at), eq_iff name name)

    own_row :
        (t : Team)
        → team_named name (teams_after previous at ts) ≡ some t
        → (t.revision ≡ next_number previous) × (t.doc ≡ doc) × (t.state ≡ state)
    own_row t g =
        let (u, a, b, c, d) = team_after previous at ts f in
        let same : u ≡ t = cc in
        subst
          (λ (x : Team). (x.revision ≡ next_number previous) × (x.doc ≡ doc) × (x.state ≡ state))
          same (b, c, d)

    own_current :
        (t : Team)
        → team_named name (teams_after previous at ts) ≡ some t
        → (r : TeamRevision) × (find_revision name t.revision revisions_after ≡ some r)
          × (r.doc ≡ t.doc)
          × (r.state ≡ t.state)
    own_current t g =
        let (a, b, c) = own_row t g in
        (
          new_revision previous at,
          ground (arith, a, own_revision t.revision, fresh_number previous ts rs h f),
          sym b,
          sym c,
        )

    own_gapless :
        (t : Team) (k : ℕ)
        → team_named name (teams_after previous at ts) ≡ some t
        → 0 < k
        → k ≤ t.revision
        → is_some (find_revision name k revisions_after) ≡ true
    own_gapless t k g p q =
        let (a, b, c) = own_row t g in
        ground (arith, a, p, q, own_revision k, taken previous ts rs k h f p)

    own_latest :
        (t : Team) (k : ℕ)
        → team_named name (teams_after previous at ts) ≡ some t
        → t.revision < k
        → find_revision name k revisions_after ≡ none
    own_latest t k g q =
        let (a, b, c) = own_row t g in
        ground (arith, a, q, own_revision k, untaken previous ts rs k h f)

    as_own :
        (n : String) (t : Team)
        → str_eq name n ≡ true
        → team_named n (teams_after previous at ts) ≡ some t
        → team_named name (teams_after previous at ts) ≡ some t
    as_own n t e g =
        subst (λ m. team_named m (teams_after previous at ts) ≡ some t) (sym ((eq_iff name n).0 e))
          g

    not_unnamed :
        (n : String) → str_eq name n ≡ true → team_named n (teams_after previous at ts) ≡ none → ⊥
    not_unnamed n e g =
        let (u, a, b, c, d) = team_after previous at ts f in
        let here : team_named name (teams_after previous at ts) ≡ none =
          subst (λ m. team_named m (teams_after previous at ts) ≡ none) (sym ((eq_iff name n).0 e))
            g in
        cc

    -- The same for a team by name: the written one, or another, which is as before.
    revisions_after-IsRecorded : IsRecorded (teams_after previous at ts) revisions_after
    revisions_after-IsRecorded = record {
      current = λ n t g. elim (Bool-cases (str_eq name n)) [
        | inl e ↦
            let same = (eq_iff name n).0 e in
            subst
              (λ m.
                (r : TeamRevision) × (find_revision m t.revision revisions_after ≡ some r)
                × (r.doc ≡ t.doc)
                × (r.state ≡ t.state))
              same (own_current t (as_own n t e g))
        | inr e ↦
            let (r, a, b, c) = h.current n t (sym (others_after previous at ts n e) ∙ g) in
            (r, other_revision n t.revision e ∙ a, b, c)
      ];
      gapless = λ n t k g p q. elim (Bool-cases (str_eq name n)) [
        | inl e ↦
            subst (λ m. is_some (find_revision m k revisions_after) ≡ true) ((eq_iff name n).0 e)
              (own_gapless t k (as_own n t e g) p q)
        | inr e ↦
            ap is_some (other_revision n k e)
            ∙ h.gapless n t k (sym (others_after previous at ts n e) ∙ g) p q
      ];
      latest = λ n t k g q. elim (Bool-cases (str_eq name n)) [
        | inl e ↦
            subst (λ m. find_revision m k revisions_after ≡ none) ((eq_iff name n).0 e)
              (own_latest t k (as_own n t e g) q)
        | inr e ↦
            other_revision n k e ∙ h.latest n t k (sym (others_after previous at ts n e) ∙ g) q
      ];
      unnamed = λ n k g. elim (Bool-cases (str_eq name n)) [
        | inl e ↦ absurd (not_unnamed n e g)
        | inr e ↦ other_revision n k e ∙ h.unnamed n k (sym (others_after previous at ts n e) ∙ g)
      ];
    }

  pub write-IsRecorded :
      (previous : Option Team) (w : World)
      → IsRecorded w.db.teams w.db.team_revisions
      → team_named name w.db.teams ≡ previous
      → IsRecorded
          (write actor name doc state reason action previous w).1.db.teams
          (write actor name doc state reason action previous w).1.db.team_revisions
  write-IsRecorded previous w h f =
      let (a, b) =
        write-tables previous w f (fresh_number previous w.db.teams w.db.team_revisions h f) in
      subst
        (λ ts.
          IsRecorded ts (write actor name doc state reason action previous w).1.db.team_revisions)
        (sym a)
        (subst (λ rs. IsRecorded (teams_after previous w.clock w.db.teams) rs) (sym b)
          (revisions_after-IsRecorded previous w.clock w.db.teams w.db.team_revisions h f))

  -- The rows of the other teams stay.
  pub write-others :
      (previous : Option Team) (w : World) (n : String)
      → IsRecorded w.db.teams w.db.team_revisions
      → team_named name w.db.teams ≡ previous
      → str_eq name n ≡ false
      → team_named n (write actor name doc state reason action previous w).1.db.teams
        ≡ team_named n w.db.teams
  write-others previous w n h f d =
      let (a, b) =
        write-tables previous w f (fresh_number previous w.db.teams w.db.team_revisions h f) in
      ap (team_named n) a ∙ others_after previous w.clock w.db.teams n d
