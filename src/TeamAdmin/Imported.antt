-- ===== src/TeamAdmin/Imported.antt =====
-- An import writes each of its teams once (app/team_admin.py, `import_teams`).
use forgeapi_homelab.Prelude.{
  String, Bool, true, false, Option, List, [], ◌∷◌, ◌≡◌, refl, ◌∙◌, map, All, str_eq, if◌then◌else◌,
}
use forgeapi_homelab.Refusals.{Result, ok, err}
use forgeapi_homelab.Tx.{Tx, World, pure, ◌>>=◌, ◌>>◌}
use forgeapi_homelab.Records.{Team}
use forgeapi_homelab.Ledger.Placement.{team_named}
use forgeapi_homelab.Teams.{get_team, write}
use forgeapi_homelab.TeamCheck.{Catalog}
use forgeapi_homelab.TeamAdmin.Import.{
  Parsed, Entry, entry_for, final_docs, plan_import, is_changing, write_entry, write_each,
  state_after,
}
use forgeapi_homelab.TeamAdmin.Revisions.{IsRecorded, write-IsRecorded, write-others}

abbrev pub InOrder : World → Type 0
InOrder w = IsRecorded w.db.teams w.db.team_revisions

-- Each name once, as in a mapping.
abbrev pub NoneNamed : String → List Parsed → Type 0
NoneNamed n units = All (λ (u : Parsed). str_eq n u.0 ≡ false) units

abbrev pub IsDistinct : List Parsed → Type 0
IsDistinct [] = Unit
IsDistinct (u ∷ units) = NoneNamed u.0 units × IsDistinct units

abbrev parsed_of : List Entry → List Parsed
parsed_of es = map (λ (e : Entry). (e.name, e.doc)) es

-- The rows that the plan was made from are still the stored ones.
abbrev Current : World → List Entry → Type 0
Current w es = All (λ (e : Entry). team_named e.name w.db.teams ≡ e.stored) es

module _ (actor reason : String) where
  -- One entry's write keeps the order, and the rows of the other teams.
  record Written (e : Entry) (w v : World) : Type 0 where
    in_order : InOrder v
    others :
        (n : String) → str_eq e.name n ≡ false → team_named n v.db.teams ≡ team_named n w.db.teams

  same_world :
      (e : Entry) (w v : World)
      → Written e w v
      → (r : Result (Option Team)) → Written e w (((λ _. (r, v)) >> pure tt) w).1
  unfolding ◌>>=◌
  same_world e w v h (ok t) = record { in_order = h.in_order; others = h.others }
  same_world e w v h (err x) = record { in_order = h.in_order; others = h.others }

  write_entry-Written :
      (e : Entry) (b : Bool) (w : World)
      → InOrder w
      → team_named e.name w.db.teams ≡ e.stored
      → Written e w
          ((if b
              then write actor e.name e.doc (state_after e.stored) reason "import" e.stored
                >> pure tt
              else pure tt)
            w).1
  unfolding ◌>>=◌
  write_entry-Written e true w h f =
      same_world e w (write actor e.name e.doc (state_after e.stored) reason "import" e.stored w).1
        (record {
          in_order =
              write-IsRecorded actor e.name e.doc (state_after e.stored) reason "import" e.stored w
                h f;
          others = λ n d.
              write-others actor e.name e.doc (state_after e.stored) reason "import" e.stored w n h
                f d;
        })
        (write actor e.name e.doc (state_after e.stored) reason "import" e.stored w).0
  write_entry-Written e false w h f = record { in_order = h; others = λ n d. refl }

  Written-Current :
      (e : Entry) (w v : World) (es : List Entry)
      → Written e w v
      → NoneNamed e.name (parsed_of es)
      → Current w es
      → Current v es
  Written-Current e w v [] h d c = tt
  Written-Current e w v (x ∷ es) h d c =
      (h.others x.name d.0 ∙ c.0, Written-Current e w v es h d.1 c.1)

  then_InOrder :
      (w : World) (r : Result (Unit {0}) × World) (m : Tx (Unit {0}))
      → InOrder r.1
      → InOrder (m r.1).1
      → InOrder (((λ _. r) >> m) w).1
  unfolding ◌>>=◌
  then_InOrder w (ok u, v) m h k = k
  then_InOrder w (err x, v) m h k = h

  pub write_each-InOrder :
      (es : List Entry) (w : World)
      → IsDistinct (parsed_of es)
      → Current w es
      → InOrder w
      → InOrder (write_each actor reason es w).1
  unfolding write_each ◌>>=◌
  write_each-InOrder [] w d c h = h
  write_each-InOrder (e ∷ es) w d c h =
      let written = write_entry-Written e (is_changing e) w h c.0 in
      then_InOrder w (write_entry actor reason e w) (write_each actor reason es) written.in_order (
        write_each-InOrder es (write_entry actor reason e w).1 d.1
          (Written-Current e w (write_entry actor reason e w).1 es written d.0 c.1)
          written.in_order)

-- The plan lists the units in their order, each with its stored row.
planned-Current :
    (catalog : Catalog) (final units : List Parsed) (w : World)
    → Current w (map (entry_for catalog final w) units)
unfolding get_team
planned-Current catalog final [] w = tt
planned-Current catalog final ((n, doc) ∷ units) w = (refl, planned-Current catalog final units w)

planned-NoneNamed :
    (catalog : Catalog) (final units : List Parsed) (w : World) (n : String)
    → NoneNamed n units
    → NoneNamed n (parsed_of (map (entry_for catalog final w) units))
planned-NoneNamed catalog final [] w n d = tt
planned-NoneNamed catalog final ((m, doc) ∷ units) w n d =
    (d.0, planned-NoneNamed catalog final units w n d.1)

planned-IsDistinct :
    (catalog : Catalog) (final units : List Parsed) (w : World)
    → IsDistinct units
    → IsDistinct (parsed_of (map (entry_for catalog final w) units))
planned-IsDistinct catalog final [] w d = tt
planned-IsDistinct catalog final ((n, doc) ∷ units) w d =
    (planned-NoneNamed catalog final units w n d.0, planned-IsDistinct catalog final units w d.1)

pub plan-InOrder :
    (catalog : Catalog) (actor reason : String) (units : List Parsed) (w : World)
    → IsDistinct units
    → InOrder w
    → InOrder (write_each actor reason (plan_import catalog units w) w).1
unfolding plan_import
plan-InOrder catalog actor reason units w d h =
    let final = final_docs units w.db.teams in
    write_each-InOrder actor reason (map (entry_for catalog final w) units) w
      (planned-IsDistinct catalog final units w d) (planned-Current catalog final units w) h
