-- ===== src/Shadow/Health.antt =====
-- The effective health of the Shadow DB (src/shadow/health.py).
use matryca_plumber.Prelude.{
  ℕ, ◌+◌, Bool, false, not, Option, none, some, ◌==◌, option_beq, length, if◌then◌else◌, nat_eq,
}
use matryca_plumber.Prelude.Text.{Text, text, strip, lower, is_empty, text_eq}
use matryca_plumber.Prelude.Decimal.{int_of, str, clamp_zero}
use matryca_plumber.Prelude.Dict.{Dict}
use matryca_plumber.Shadow.Database.{Db, QuarantineRow, shadow_schema_version}
use matryca_plumber.Shadow.Key
use matryca_plumber.Shadow.Meta.{get_meta}
use matryca_plumber.Shadow.Quarantine.{text_or_empty}
use matryca_plumber.Shadow.Runtime.{is_shadow_bootstrapping}
use matryca_plumber.Shadow.Process.{Process, Surroundings, Opening}
use matryca_plumber.Shadow.SyncFailure.{is_shadow_sync_failed}

pub data HealthState : Type 0 where
  disabled bootstrapping ready stale error : HealthState

-- A result, or the `sqlite3.Error` or other exception that leaves the function.
pub data Outcome {ℓ} (A : Type ℓ) : Type ℓ where
  returns : A → Outcome A
  raises_sqlite : Outcome A
  raises_other : Outcome A

-- `_parse_meta_page_count`, and `_parse_non_negative_int` of state_api.py.
unfoldable pub parse_meta_page_count : Option Text → Option ℕ
parse_meta_page_count none = none
parse_meta_page_count (some raw) =
    if is_empty (strip raw)
    then none
    else elim (int_of (strip raw)) [ none ↦ none | some z ↦ some (clamp_zero z) ]

-- A count that is recorded and wrong.
abbrev pub disagrees : Option ℕ → ℕ → Bool
disagrees none n = false
disagrees (some m) n = not (m == n)

unfoldable pub shadow_meta_matches_page_rows : Option Text → Option Text → ℕ → ℕ → Bool
shadow_meta_matches_page_rows indexed_page_count source_page_count actual quarantined =
    if disagrees (parse_meta_page_count indexed_page_count) actual
    then false
    else not (disagrees (parse_meta_page_count source_page_count) (actual + quarantined))

-- `(get_meta(conn, key) or "").strip()`
abbrev pub stripped_meta : Text → Db → Text
stripped_meta key db = strip (text_or_empty (get_meta key db))

unfoldable pub full_sync_completed : Db → Bool
full_sync_completed db = lower (stripped_meta Key.last_full_sync_completed db) == text "true"

-- The comparison of the counts; `quarantined_page_count(conn)` raises if the table is missing.
unfoldable pub count_health : Db → Option (Dict Text QuarantineRow) → Outcome HealthState
count_health db none = raises_sqlite
count_health db (some rows) =
    if shadow_meta_matches_page_rows (get_meta Key.indexed_page_count db)
      (get_meta Key.source_page_count db) (length db.pages) (length rows)
    then returns ready
    else returns stale

-- The queries on an open connection.
unfoldable pub database_health : Db → Outcome HealthState
database_health db =
    if not (option_beq (get_meta Key.schema_version db) (some (str shadow_schema_version)))
    then returns error
    else if not (is_empty (stripped_meta Key.last_sync_error db))
    then returns error
    else if full_sync_completed db
    then count_health db db.quarantined_pages
    else returns stale

unfoldable pub opened_health : Opening → Db → Outcome HealthState
opened_health Opening.granted db = database_health db
opened_health Opening.unreadable db = raises_sqlite
opened_health Opening.sqlite_refused db = returns error
opened_health Opening.refused db = returns error

unfoldable pub file_health : Opening → Option Db → Outcome HealthState
file_health opening none = returns stale
file_health opening (some db) = opened_health opening db

-- The early returns, in the order of the source.
unfoldable pub guarded_health :
    (enabled bootstrapping_now sync_failed located : Bool)
    → Outcome HealthState
    → Outcome HealthState
guarded_health enabled bootstrapping_now sync_failed located file =
    if not enabled
    then returns disabled
    else if bootstrapping_now
    then returns bootstrapping
    else if sync_failed
    then returns error
    else if not located
    then returns error
    else file

unfoldable pub resolve_shadow_health : Surroundings → Text → Process → Outcome HealthState
resolve_shadow_health io root p =
    guarded_health io.shadow_db_enabled (is_shadow_bootstrapping root p.runtime)
      (is_shadow_sync_failed io root p) io.cache_located (file_health io.query_only p.database)
