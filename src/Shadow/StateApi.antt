-- ===== src/Shadow/StateApi.antt =====
-- The public snapshot of the Shadow DB (src/shadow/state_api.py).
use matryca_plumber.Prelude.{
  ℕ, ◌-◌, Bool, true, false, not, Option, none, some, ◌==◌, length, if◌then◌else◌, nat_eq,
}
use matryca_plumber.Prelude.Text.{Text, text, strip, is_empty, text_eq}
use matryca_plumber.Prelude.Decimal.{str}
use matryca_plumber.Prelude.Dict.{Dict}
use matryca_plumber.Shadow.Database.{Db, QuarantineRow, shadow_schema_version}
use matryca_plumber.Shadow.Key
use matryca_plumber.Shadow.Meta.{get_meta}
use matryca_plumber.Shadow.Runtime.{is_shadow_bootstrapping}
use matryca_plumber.Shadow.Process.{Process, Surroundings, Opening}
use matryca_plumber.Shadow.SyncFailure.{is_shadow_sync_failed, shadow_sync_failure_reason}
use matryca_plumber.Shadow.Console.{bounded_error_message}
use matryca_plumber.Shadow.Health.{
  HealthState, Outcome, returns, raises_other, parse_meta_page_count, shadow_meta_matches_page_rows,
  stripped_meta, full_sync_completed,
}

pub data NotReadyReason : Type 0 where
  not_bootstrapped bootstrap_in_progress database_unreadable : NotReadyReason
  schema_version_mismatch sync_error full_sync_incomplete : NotReadyReason
  page_count_mismatch cache_unavailable : NotReadyReason

-- `capabilities`, `profile` and `version` are constants; `producer_version` and `graph_id` come
-- from the installation.
pub record ReadProfile : Type 0 where
  pub generation : Option ℕ
  pub state : HealthState
  pub ready : Bool
  pub schema_compatible : Option Bool

pub record StateResponse : Type 0 where
  pub enabled : Bool
  pub state : HealthState
  pub last_full_sync_at : Option Text
  pub source_page_count : Option ℕ
  pub indexed_page_count : Option ℕ
  pub lag_pages : Option ℕ
  pub last_sync_error : Option Text
  pub not_ready_reason : Option NotReadyReason
  pub quarantined_page_count : ℕ
  pub read_profile : Option ReadProfile

-- The defaults of the model.
abbrev pub default_response : StateResponse
default_response = record {
  enabled = false;
  state = HealthState.disabled;
  last_full_sync_at = none;
  source_page_count = none;
  indexed_page_count = none;
  lag_pages = none;
  last_sync_error = none;
  not_ready_reason = none;
  quarantined_page_count = 0;
  read_profile = none;
}

abbrev pub is_ready : HealthState → Bool
is_ready HealthState.ready = true
is_ready _ = false

unfoldable pub not_ready_reason_from_meta : Db → ℕ → Option NotReadyReason
not_ready_reason_from_meta db quarantined =
    if not (is_empty (stripped_meta Key.last_sync_error db))
    then some sync_error
    else if not (full_sync_completed db)
    then some full_sync_incomplete
    else if not (
        shadow_meta_matches_page_rows (get_meta Key.indexed_page_count db)
          (get_meta Key.source_page_count db) (length db.pages) quarantined)
    then some page_count_mismatch
    else none

-- `meta` is `none` where the source passes no metadata.
schema_compatible_of : Option Text → Option Bool
schema_compatible_of none = none
schema_compatible_of (some raw) = some (strip raw == str shadow_schema_version)

abbrev meta_value : Text → Option Db → Option Text
meta_value key none = none
meta_value key (some db) = get_meta key db

unfoldable pub with_read_profile : StateResponse → Option Db → StateResponse
unfolding schema_compatible_of
with_read_profile snapshot meta = record snapshot {
  read_profile = some (record {
    generation = parse_meta_page_count (meta_value Key.generation meta);
    state = snapshot.state;
    ready = is_ready snapshot.state;
    schema_compatible = schema_compatible_of (meta_value Key.schema_version meta);
  });
}

unfoldable pub resolve_lag_pages : Option ℕ → Option ℕ → ℕ → Option ℕ
resolve_lag_pages (some source) (some indexed) quarantined = some (source - indexed - quarantined)
resolve_lag_pages _ _ quarantined = none

-- `COUNT(*)`, and 0 where the table does not exist.
unfoldable pub read_quarantined_count : Option (Dict Text QuarantineRow) → ℕ
read_quarantined_count none = 0
read_quarantined_count (some rows) = length rows

last_full_sync_at_of : Db → Option Text
last_full_sync_at_of db =
    let value = stripped_meta Key.last_full_sync_at db in
    if is_empty value then none else some value

unfoldable pub state_from_meta : Db → ℕ → HealthState
state_from_meta db quarantined =
    if not (is_empty (stripped_meta Key.last_sync_error db))
    then HealthState.error
    else if full_sync_completed db
    then (if not (
          shadow_meta_matches_page_rows (get_meta Key.indexed_page_count db)
            (get_meta Key.source_page_count db) (length db.pages) quarantined)
        then HealthState.stale
        else HealthState.ready)
    else HealthState.stale

unfoldable pub snapshot_from_meta :
    HealthState → Db → Option Text → Option NotReadyReason → ℕ → StateResponse
unfolding last_full_sync_at_of
snapshot_from_meta state db last_sync_error reason quarantined =
    let source = parse_meta_page_count (get_meta Key.source_page_count db) in
    let indexed = parse_meta_page_count (get_meta Key.indexed_page_count db) in
    record {
      enabled = true;
      state = state;
      last_full_sync_at = last_full_sync_at_of db;
      source_page_count = source;
      indexed_page_count = indexed;
      lag_pages = resolve_lag_pages source indexed quarantined;
      last_sync_error = last_sync_error;
      not_ready_reason = reason;
      quarantined_page_count = quarantined;
      read_profile = none;
    }

-- The `error` field: the bounded message in the state `error` alone.
shown_error : HealthState → Text → Option Text
shown_error HealthState.error message = bounded_error_message (some message)
shown_error _ message = none

unfoldable pub database_state : Db → StateResponse
unfolding shown_error
database_state db =
    let quarantined = read_quarantined_count db.quarantined_pages in
    if not (stripped_meta Key.schema_version db == str shadow_schema_version)
    then with_read_profile
        (snapshot_from_meta HealthState.error db (some (text "Shadow schema version mismatch"))
          (some schema_version_mismatch) quarantined)
        (some db)
    else (let state = state_from_meta db quarantined in
        with_read_profile
          (snapshot_from_meta state db (shown_error state (stripped_meta Key.last_sync_error db))
            (not_ready_reason_from_meta db quarantined) quarantined)
          (some db))

abbrev failed_response : HealthState → Option Text → NotReadyReason → StateResponse
failed_response state message reason =
    with_read_profile
      (record default_response {
        enabled = true;
        state = state;
        last_sync_error = message;
        not_ready_reason = some reason;
      })
      none

-- `sqlite_message` is the text of a `sqlite3.Error`.
unfoldable pub opened_state : Opening → Text → Db → Outcome StateResponse
opened_state Opening.granted sqlite_message db = returns (database_state db)
opened_state Opening.refused sqlite_message db = raises_other
opened_state _ sqlite_message db = returns (
    failed_response HealthState.error (bounded_error_message (some sqlite_message))
      database_unreadable)

unfoldable pub file_state : Opening → Text → Option Db → Outcome StateResponse
file_state opening sqlite_message none =
    returns (failed_response HealthState.stale none not_bootstrapped)
file_state opening sqlite_message (some db) = opened_state opening sqlite_message db

-- The early returns, in the order of the source.
unfoldable pub guarded_state :
    (enabled bootstrapping_now sync_failed located : Bool)
    → Outcome StateResponse
    → Outcome StateResponse
guarded_state enabled bootstrapping_now sync_failed located file =
    if not enabled
    then returns (with_read_profile default_response none)
    else if bootstrapping_now
    then returns (failed_response HealthState.bootstrapping none bootstrap_in_progress)
    else if sync_failed
    then returns (failed_response HealthState.error (some shadow_sync_failure_reason) sync_error)
    else if not located
    then returns (
        failed_response HealthState.error (some (text "External Shadow cache unavailable"))
          cache_unavailable)
    else file

unfoldable pub resolve_shadow_db_state_for_api :
    Surroundings → Text → Text → Process → Outcome StateResponse
resolve_shadow_db_state_for_api io sqlite_message root p =
    guarded_state io.shadow_db_enabled (is_shadow_bootstrapping root p.runtime)
      (is_shadow_sync_failed io root p) io.cache_located
      (file_state io.query_only sqlite_message p.database)
