-- ===== src/TeamAdmin/History.antt =====
-- The operators' writes, one after another (app/team_admin.py).
use forgeapi_homelab.Prelude.{true, false, ℕ, String, Bool, ◌≡◌, refl, Option, none, some, List}
use forgeapi_homelab.Refusals.{Result, Refusal, ok, err}
use forgeapi_homelab.Records.{Team, TeamState}
use forgeapi_homelab.Tenants.{UnitSpec}
use forgeapi_homelab.Config.{TenantsSource}
use forgeapi_homelab.Tx.{Tx, raise_if, World, lift, gets, transaction, ◌>>=◌}
use forgeapi_homelab.Teams.{get_team, write}
use forgeapi_homelab.TeamCheck.{Catalog}
use forgeapi_homelab.TeamAdmin.{
  Precondition, stored_team, absent, create_in, create, change_in, replace_in, replace, guarded,
  revert_in, revert, archive_in, archive, unarchive_in, unarchive,
}
use forgeapi_homelab.TeamAdmin.Access.{stored_team-ok}
use forgeapi_homelab.TeamCheck.{Finding}
use forgeapi_homelab.TeamAdmin.Import.{Parsed, Expected, import_in, import_teams}
use forgeapi_homelab.TeamAdmin.Imported.{InOrder, IsDistinct, plan-InOrder}
use forgeapi_homelab.TeamAdmin.Revisions.{write-IsRecorded}

-- A call leaves the teams in order.
record Leaves {A : Type 0} (w : World) (m : Tx A) : Type 0 where
  in_order : InOrder w → InOrder (m w).1

module _ {A B : Type 0} where
  Leaves-gets :
      (w : World) (g : World → A) (f : A → Tx B) → Leaves w (f (g w)) → Leaves w (gets g >>= f)
  unfolding ◌>>=◌
  Leaves-gets w g f k = record { in_order = k.in_order }

  Leaves-lift :
      (w : World) (r : Result A) (f : A → Tx B)
      → ((a : A) → r ≡ ok a → Leaves w (f a))
      → Leaves w (lift r >>= f)
  unfolding ◌>>=◌
  Leaves-lift w (ok a) f k = record { in_order = (k a refl).in_order }
  Leaves-lift w (err e) f k = record { in_order = λ h. h }

rolled_back :
    {A : Type 0} (w : World) (r : Result A × World)
    → InOrder w
    → InOrder r.1
    → InOrder (transaction (λ _. r) w).1
unfolding transaction
rolled_back w (ok a, v) h k = k
rolled_back w (err e, v) h k = h

Leaves-transaction : {A : Type 0} (w : World) (m : Tx A) → Leaves w m → Leaves w (transaction m)
unfolding transaction
Leaves-transaction w m k = record { in_order = λ h. rolled_back w (m w) h (k.in_order h) }

module _ (source : TenantsSource) (catalog : Catalog) (actor name : String) where
  Leaves-write :
      (w : World) (doc : UnitSpec) (state : TeamState) (reason action : String)
      (previous : Option Team)
      → get_team name w ≡ previous
      → Leaves w (write actor name doc state reason action previous)
  unfolding get_team
  Leaves-write w doc state reason action previous f = record {
    in_order = λ h. write-IsRecorded actor name doc state reason action previous w h f;
  }

  create-Leaves :
      (w : World) (doc : UnitSpec) (reason : String)
      → Leaves w (create source catalog actor name doc reason)
  unfolding create create_in
  create-Leaves w doc reason = Leaves-lift w _ _ λ u e. Leaves-transaction w _ (
      Leaves-gets w _ _ (
        Leaves-lift w _ _ λ v a. Leaves-gets w _ _ (
          Leaves-lift w _ _
            λ x c. Leaves-write w doc _ reason "create" none (absent-ok (get_team name w) v a))))
    where
      absent-ok : (row : Option Team) (u : Unit {0}) → absent row ≡ ok u → row ≡ none
      absent-ok none u e = refl
      absent-ok (some t) u e = cc

  guarded-Leaves :
      (w : World) (if_match : Precondition) (body : Option ℕ → Tx (Option Team))
      → ((number : Option ℕ) → Leaves w (body number))
      → Leaves w (guarded source catalog actor name if_match body)
  unfolding guarded
  guarded-Leaves w if_match body k =
      Leaves-lift w _ _ λ u e. Leaves-lift w _ _ λ number g. Leaves-transaction w _ (k number)

  -- Reading the stored row first, and going on with it.
  stored-Leaves :
      (w : World) (number : Option ℕ) (f : Team → Tx (Option Team))
      → ((t : Team) → get_team name w ≡ some t → Leaves w (f t))
      → Leaves w (gets (get_team name) >>= λ row. lift (stored_team number row) >>= f)
  stored-Leaves w number f k =
      Leaves-gets w _ _
        (Leaves-lift w _ _ λ t e. k t (stored_team-ok number (get_team name w) t e).0)

  change_in-Leaves :
      (w : World) (doc : UnitSpec) (reason : String) (codes : List String) (action : String)
      (t : Team)
      → get_team name w ≡ some t
      → Leaves w (change_in source catalog actor name doc reason codes action t)
  unfolding change_in
  change_in-Leaves w doc reason codes action t f = Leaves-gets w _ _ (
      Leaves-lift w _ _
        λ u a. Leaves-lift w _ _ λ v b. Leaves-write w doc t.state reason action (some t) f)

  replace-Leaves :
      (w : World) (doc : UnitSpec) (reason : String) (codes : List String) (if_match : Precondition)
      → Leaves w (replace source catalog actor name doc reason codes if_match)
  unfolding replace replace_in
  replace-Leaves w doc reason codes if_match =
      guarded-Leaves w if_match _
        λ number. stored-Leaves w number _ (change_in-Leaves w doc reason codes "update")

  revert-Leaves :
      (w : World) (target : ℕ) (reason : String) (codes : List String) (if_match : Precondition)
      → Leaves w (revert source catalog actor name target reason codes if_match)
  unfolding revert revert_in
  revert-Leaves w target reason codes if_match = guarded-Leaves w if_match _ λ number.
      stored-Leaves w number _ λ t f.
        Leaves-gets w _ _
          (Leaves-lift w _ _ λ doc e. change_in-Leaves w doc reason codes "revert" t f)

  archive-Leaves :
      (w : World) (reason : String) (force : Bool) (if_match : Precondition)
      → Leaves w (archive source catalog actor name reason force if_match)
  unfolding archive archive_in
  archive-Leaves w reason force if_match = guarded-Leaves w if_match _ λ number.
      stored-Leaves w number _ λ t f.
        Leaves-gets w _ _
          (Leaves-lift w _ _ λ u e. Leaves-write w t.doc _ reason "archive" (some t) f)

  unarchive-Leaves :
      (w : World) (reason : String) (if_match : Precondition)
      → Leaves w (unarchive source catalog actor name reason if_match)
  unfolding unarchive unarchive_in
  unarchive-Leaves w reason if_match = guarded-Leaves w if_match _ λ number.
      stored-Leaves w number _ λ t f. Leaves-lift w _ _ λ u e.
        Leaves-gets w _ _
          (Leaves-lift w _ _ λ v g. Leaves-write w t.doc _ reason "unarchive" (some t) f)

module _ {B : Type 0} where
  Leaves-guard :
      (w : World) (c : Bool) (e : Refusal) (f : Unit {0} → Tx B)
      → Leaves w (f tt)
      → Leaves w (raise_if c e >>= f)
  unfolding ◌>>=◌ raise_if
  Leaves-guard w true e f k = record { in_order = λ h. h }
  Leaves-guard w false e f k = record { in_order = k.in_order }

import_teams-Leaves :
    (source : TenantsSource) (catalog : Catalog) (actor reason : String) (w : World)
    (units : List Parsed) (found : List Finding) (expected : Expected) (codes : List String)
    → IsDistinct units
    → Leaves w (import_teams source catalog actor reason units found expected codes)
unfolding import_teams import_in
import_teams-Leaves source catalog actor reason w units found expected codes d =
    Leaves-lift w _ _ λ u e. Leaves-guard w _ _ _ (
      Leaves-transaction w _ (
        Leaves-gets w _ _ (
          Leaves-lift w _ _ λ a b.
            Leaves-lift w _ _
              λ x y. record { in_order = plan-InOrder catalog actor reason units w d })))

-- One write of an operator, by its method. A parsed file names each team once.
pub data AdminCall (source : TenantsSource) (catalog : Catalog) (w : World) : World → Type 0 where
  call_create :
      (actor name : String) (doc : UnitSpec) (reason : String)
      → AdminCall source catalog w (create source catalog actor name doc reason w).1
  call_replace :
      (actor name : String) (doc : UnitSpec) (reason : String) (codes : List String)
      (if_match : Precondition)
      → AdminCall source catalog w (replace source catalog actor name doc reason codes if_match w).1
  call_revert :
      (actor name : String) (target : ℕ) (reason : String) (codes : List String)
      (if_match : Precondition)
      → AdminCall source catalog w
          (revert source catalog actor name target reason codes if_match w).1
  call_archive :
      (actor name reason : String) (force : Bool) (if_match : Precondition)
      → AdminCall source catalog w (archive source catalog actor name reason force if_match w).1
  call_unarchive :
      (actor name reason : String) (if_match : Precondition)
      → AdminCall source catalog w (unarchive source catalog actor name reason if_match w).1
  call_import :
      (actor reason : String) (units : List Parsed) (found : List Finding) (expected : Expected)
      (codes : List String)
      → IsDistinct units
      → AdminCall source catalog w
          (import_teams source catalog actor reason units found expected codes w).1

pub data Administered (source : TenantsSource) (catalog : Catalog) (u : World)
    : World → Type 0 where
  no_call : Administered source catalog u u
  then_call :
      {v w : World}
      → Administered source catalog u v
      → AdminCall source catalog v w
      → Administered source catalog u w

module _ (source : TenantsSource) (catalog : Catalog) where
  AdminCall-InOrder : {u v : World} → InOrder u → AdminCall source catalog u v → InOrder v
  AdminCall-InOrder {u} h (call_create actor name doc reason) =
      (create-Leaves source catalog actor name u doc reason).in_order h
  AdminCall-InOrder {u} h (call_replace actor name doc reason codes if_match) =
      (replace-Leaves source catalog actor name u doc reason codes if_match).in_order h
  AdminCall-InOrder {u} h (call_revert actor name target reason codes if_match) =
      (revert-Leaves source catalog actor name u target reason codes if_match).in_order h
  AdminCall-InOrder {u} h (call_archive actor name reason force if_match) =
      (archive-Leaves source catalog actor name u reason force if_match).in_order h
  AdminCall-InOrder {u} h (call_unarchive actor name reason if_match) =
      (unarchive-Leaves source catalog actor name u reason if_match).in_order h
  AdminCall-InOrder {u} h (call_import actor reason units found expected codes d) =
      (import_teams-Leaves source catalog actor reason u units found expected codes d).in_order h

  -- Any sequence of writes of any operators keeps the history of every team in order: its revisions
  -- are numbered without a gap up to the team's own number, and the last of them is the team's
  -- current document and state. This holds whatever the catalog finds and whichever writes are
  -- refused.
  pub Administered-InOrder : {u w : World} → InOrder u → Administered source catalog u w → InOrder w
  Administered-InOrder h no_call = h
  Administered-InOrder h (then_call r c) = AdminCall-InOrder (Administered-InOrder h r) c
