-- ===== src/Shadow/Agreement.antt =====
-- The health that reads consult and the snapshot that the API shows are two programs over one state
-- (src/shadow/health.py and src/shadow/state_api.py).
use matryca_plumber.Prelude.{
  ◌≡◌, ◌≢◌, refl, Bool, true, false, not, Option, none, some, ◌==◌, length, arith, if◌then◌else◌,
  Bool-cases, Option-cases, inl, inr, option_beq,
}
use matryca_plumber.Prelude.Text.{Text, strip, text_eq}
use matryca_plumber.Prelude.Decimal.{str}
use matryca_plumber.Prelude.Dict.{Dict}
use matryca_plumber.Shadow.Database.{Db, QuarantineRow, shadow_schema_version}
use matryca_plumber.Shadow.Key
use matryca_plumber.Shadow.Meta.{get_meta}
use matryca_plumber.Shadow.Runtime.{is_shadow_bootstrapping}
use matryca_plumber.Shadow.Process.{Process, Surroundings, Opening}
use matryca_plumber.Shadow.SyncFailure.{is_shadow_sync_failed}
use matryca_plumber.Shadow.Health.{
  HealthState, Outcome, returns, shadow_meta_matches_page_rows, stripped_meta, count_health,
  database_health, opened_health, file_health, guarded_health, resolve_shadow_health,
}
use matryca_plumber.Shadow.StateApi.{
  StateResponse, database_state, opened_state, file_state, state_from_meta, snapshot_from_meta,
  with_read_profile, guarded_state, resolve_shadow_db_state_for_api, read_quarantined_count,
}

-- The recorded schema version has no white space around it, as `str` writes it.
abbrev pub HasTrimmedSchema : Db → Type 0
HasTrimmedSchema db = (raw : Text) → get_meta Key.schema_version db ≡ some raw → strip raw ≡ raw

returns_inj {ℓ} : {A : Type ℓ} {a b : A} → returns a ≡ returns b → a ≡ b
returns_inj h = cc

-- The state part of the snapshot of an open database.
shown_state : Db → HealthState
shown_state db =
    if not (stripped_meta Key.schema_version db == str shadow_schema_version)
    then HealthState.error
    else state_from_meta db (read_quarantined_count db.quarantined_pages)

state-database_state : (db : Db) → (database_state db).state ≡ shown_state db
unfolding database_state shown_state with_read_profile snapshot_from_meta
state-database_state db =
    elim (Bool-cases (stripped_meta Key.schema_version db == str shadow_schema_version)) [
      | inl e ↦ rw e
      | inr e ↦ rw e
    ]

schema_agrees :
    (db : Db)
    → HasTrimmedSchema db
    → (stripped_meta Key.schema_version db == str shadow_schema_version)
      ≡ option_beq (get_meta Key.schema_version db) (some (str shadow_schema_version))
schema_agrees db trimmed = elim (Option-cases (get_meta Key.schema_version db)) [
  | inl absent ↦ rw absent (unfold strip str in refl)
  | inr (raw, e) ↦ rw (e, trimmed raw e)
]

counted :
    (db : Db) (rows : Option (Dict Text QuarantineRow)) (h : HealthState)
    → count_health db rows ≡ returns h
    → (if not (
          shadow_meta_matches_page_rows
            (get_meta Key.indexed_page_count db)
            (get_meta Key.source_page_count db)
            (length db.pages)
            (read_quarantined_count rows))
        then HealthState.stale
        else HealthState.ready)
      ≡ h
unfolding count_health read_quarantined_count
counted db none h e = cc
counted db (some rows) h e = ground arith

-- On an open database: what `resolve_shadow_health` returns is the state that the snapshot shows.
database_agrees :
    (db : Db) (h : HealthState)
    → HasTrimmedSchema db
    → database_health db ≡ returns h
    → (database_state db).state ≡ h
unfolding shown_state database_health state_from_meta
database_agrees db h trimmed e =
    rw state-database_state
      (ground (arith, schema_agrees db trimmed, counted db db.quarantined_pages h))

opened_agrees :
    (opening : Opening) (message : Text) (db : Db) (h : HealthState)
    → HasTrimmedSchema db
    → opening ≢ Opening.refused
    → opened_health opening db ≡ returns h
    → (r : StateResponse) × (opened_state opening message db ≡ returns r) × (r.state ≡ h)
unfolding opened_health opened_state with_read_profile
opened_agrees Opening.granted message db h trimmed opens e =
    (database_state db, refl, database_agrees db h trimmed e)
opened_agrees Opening.unreadable message db h trimmed opens e = (_, refl, cc)
opened_agrees Opening.sqlite_refused message db h trimmed opens e = (_, refl, returns_inj e)
opened_agrees Opening.refused message db h trimmed opens e = absurd (opens refl)

file_agrees :
    (opening : Opening) (message : Text) (file : Option Db) (h : HealthState)
    → ((db : Db) → file ≡ some db → HasTrimmedSchema db)
    → opening ≢ Opening.refused
    → file_health opening file ≡ returns h
    → (r : StateResponse) × (file_state opening message file ≡ returns r) × (r.state ≡ h)
unfolding file_health file_state with_read_profile
file_agrees opening message none h trimmed opens e = (_, refl, returns_inj e)
file_agrees opening message (some db) h trimmed opens e =
    opened_agrees opening message db h (trimmed db refl) opens e

abbrev Shows : Outcome StateResponse → HealthState → Type 0
Shows o h = (r : StateResponse) × (o ≡ returns r) × (r.state ≡ h)

guards_agree :
    (enabled busy failed located : Bool) {file : Outcome HealthState}
    {shown : Outcome StateResponse} (h : HealthState)
    → (file ≡ returns h → Shows shown h)
    → guarded_health enabled busy failed located file ≡ returns h
    → Shows (guarded_state enabled busy failed located shown) h
unfolding guarded_health guarded_state with_read_profile
guards_agree false busy failed located h agree e = (_, refl, returns_inj e)
guards_agree true true failed located h agree e = (_, refl, returns_inj e)
guards_agree true false true located h agree e = (_, refl, returns_inj e)
guards_agree true false false false h agree e = (_, refl, returns_inj e)
guards_agree true false false true h agree e = agree e

-- If `resolve_shadow_health` returns a health, the API returns a snapshot with that state, for a
-- schema version with no white space around it and a database that is not refused for a reason
-- other than `sqlite3.Error`.
pub health-state_agree :
    (io : Surroundings) (message root : Text) (p : Process) (h : HealthState)
    → ((db : Db) → p.database ≡ some db → HasTrimmedSchema db)
    → io.query_only ≢ Opening.refused
    → resolve_shadow_health io root p ≡ returns h
    → (r : StateResponse) × (resolve_shadow_db_state_for_api io message root p ≡ returns r)
      × (r.state ≡ h)
unfolding resolve_shadow_health resolve_shadow_db_state_for_api
health-state_agree io message root p h trimmed opens =
    guards_agree io.shadow_db_enabled (is_shadow_bootstrapping root p.runtime)
      (is_shadow_sync_failed io root p) io.cache_located h
      (file_agrees io.query_only message p.database h trimmed opens)
