-- ===== src/Daemon/Ledger.antt =====
-- The ledger of the daemon (src/agent/daemon_state.py). A time is a number of nanoseconds, where
-- the source has a float of seconds; the counters are not negative.
use matryca_plumber.Prelude.{
  ℕ, ◌+◌, ◌*◌, min, Bool, true, false, ◌&&◌, ◌||◌, not, Option, none, some, [], ◌∷◌, ◌==◌, ltb, leb,
  length, if◌then◌else◌, nat_eq,
}
use matryca_plumber.Prelude.Text.{Text, text, text_eq, is_empty}
use matryca_plumber.Prelude.Sort.{text_leb}
use matryca_plumber.Prelude.Dict
use matryca_plumber.Prelude.Dict.{Dict}
use matryca_plumber.Daemon.Json.{Json, null, string, second}
use matryca_plumber.Daemon.Journey.{JourneyDayLedger, new_day}

-- A status is read from JSON unchecked, so it may be any other text.
pub data FileStatus : Type 0 where
  processed skipped error pending lock_backoff : FileStatus
  unknown : Text → FileStatus

pub record FileState : Type 0 where
  pub mtime : ℕ
  pub processed_at : Text
  pub status : FileStatus
  pub error : Option Json
  pub lock_backoff_until : Option ℕ
  pub lock_backoff_interval : Option ℕ

pub data HarvestStatus : Type 0 where
  regex llm skipped error : HarvestStatus

pub record BootstrapRecentEntry : Type 0 where
  pub harvest : HarvestStatus
  pub processed_at : Text

-- `last_scan_at` and `last_file` are taken from JSON as they are; `null` is None.
pub record DaemonState : Type 0 where
  pub version : ℕ
  pub files : Dict Text FileState
  pub status : Text
  pub model : Text
  pub bootstrap_complete : Bool
  pub bootstrap_failed : Bool
  pub bootstrap_failed_reason : Option Text
  pub bootstrap_scanned : ℕ
  pub bootstrap_total : ℕ
  pub session_prompt_tokens : ℕ
  pub session_completion_tokens : ℕ
  pub current_cluster : Option Text
  pub current_cluster_files_total : ℕ
  pub current_cluster_files_done : ℕ
  pub phase2_cognitive_total : ℕ
  pub phase2_cognitive_done : ℕ
  pub phase2_vault_baseline_total : ℕ
  pub phase2_cluster_file_in_flight : Bool
  pub phase2_llm_turns : ℕ
  pub last_scan_at : Json
  pub last_file : Json
  pub ai_pages_created : ℕ
  pub ai_links_injected : ℕ
  pub ai_blocks_healed : ℕ
  pub hygiene_corrections : ℕ
  pub page_summaries_created : ℕ
  pub bootstrap_recent : Dict Text BootstrapRecentEntry
  pub journey_day : JourneyDayLedger

-- `DaemonState()`; `default_model` is `DEFAULT_LM_MODEL` (src/agent/plumber_config.py).
abbrev pub new_state : Text → DaemonState
new_state default_model = record {
  version = 1;
  files = [];
  status = text "idle";
  model = default_model;
  bootstrap_complete = false;
  bootstrap_failed = false;
  bootstrap_failed_reason = none;
  bootstrap_scanned = 0;
  bootstrap_total = 0;
  session_prompt_tokens = 0;
  session_completion_tokens = 0;
  current_cluster = none;
  current_cluster_files_total = 0;
  current_cluster_files_done = 0;
  phase2_cognitive_total = 0;
  phase2_cognitive_done = 0;
  phase2_vault_baseline_total = 0;
  phase2_cluster_file_in_flight = false;
  phase2_llm_turns = 0;
  last_scan_at = null;
  last_file = null;
  ai_pages_created = 0;
  ai_links_injected = 0;
  ai_blocks_healed = 0;
  hygiene_corrections = 0;
  page_summaries_created = 0;
  bootstrap_recent = [];
  journey_day = new_day [];
}

-- `_FILE_STATUS_PRIORITY.get(status, 0)`
abbrev pub priority : FileStatus → ℕ
priority processed = 5
priority error = 4
priority skipped = 3
priority lock_backoff = 2
priority pending = 1
priority (unknown _) = 0

abbrev pub is_processed : FileStatus → Bool
is_processed processed = true
is_processed _ = false

abbrev pub is_lock_backoff : FileStatus → Bool
is_lock_backoff lock_backoff = true
is_lock_backoff _ = false

abbrev pub is_error : FileStatus → Bool
is_error error = true
is_error _ = false

abbrev pub is_skipped : FileStatus → Bool
is_skipped skipped = true
is_skipped _ = false

abbrev pub bootstrap_recent_max : ℕ
bootstrap_recent_max = 30

-- The key of the least `processed_at`, the first of them; `best` is the least so far.
unfoldable pub oldest_from : Text × BootstrapRecentEntry → Dict Text BootstrapRecentEntry → Text
oldest_from best [] = best.0
oldest_from best (entry ∷ more) =
    let newer = oldest_from best more in
    let older = oldest_from entry more in
    if text_leb best.1.processed_at entry.1.processed_at then newer else older

unfoldable pub evict_oldest : Dict Text BootstrapRecentEntry → Dict Text BootstrapRecentEntry
evict_oldest [] = []
evict_oldest (entry ∷ more) = Dict.remove (oldest_from entry more) (entry ∷ more)

unfoldable pub upsert_bootstrap_recent : Text → Text → HarvestStatus → DaemonState → DaemonState
upsert_bootstrap_recent now path_key harvest state =
    let recent =
      Dict.insert path_key (record { harvest = harvest; processed_at = now })
        state.bootstrap_recent in
    record state {
      bootstrap_recent =
          if leb (length recent) bootstrap_recent_max then recent else evict_oldest recent;
    }

unfoldable pub record_bootstrap_harvest_impact : Option HarvestStatus → DaemonState → DaemonState
record_bootstrap_harvest_impact (some HarvestStatus.regex) state = record state {
  page_summaries_created = state.page_summaries_created + 1;
}
record_bootstrap_harvest_impact (some HarvestStatus.llm) state = record state {
  page_summaries_created = state.page_summaries_created + 1;
}
record_bootstrap_harvest_impact _ state = state

abbrev pub lock_backoff_initial : ℕ
lock_backoff_initial = 30 * second

abbrev pub lock_backoff_max : ℕ
lock_backoff_max = 300 * second

abbrev pub before : ℕ → Option ℕ → Bool
before now none = false
before now (some until) = ltb now until

unfoldable pub lock_backoff_active : ℕ → FileState → Bool
lock_backoff_active now rec =
    if not (is_lock_backoff rec.status) then false else before now rec.lock_backoff_until

-- `rec.lock_backoff_seconds or _LOCK_BACKOFF_INITIAL_S`: zero counts as none.
abbrev pub previous_interval : Option ℕ → ℕ
previous_interval none = lock_backoff_initial
previous_interval (some interval) = if interval == 0 then lock_backoff_initial else interval

unfoldable pub next_lock_backoff : Option FileState → ℕ
next_lock_backoff none = lock_backoff_initial
next_lock_backoff (some rec) =
    if not (is_lock_backoff rec.status)
    then lock_backoff_initial
    else min (previous_interval rec.lock_backoff_interval * 2) lock_backoff_max

abbrev pub prior_is_processed : Option FileState → Bool
prior_is_processed none = false
prior_is_processed (some rec) = is_processed rec.status

-- `now` is the clock and `stamp` the same time as an ISO text.
unfoldable pub record_page_lock_backoff :
    ℕ → Text → Text → ℕ → Text → Option FileState → DaemonState → DaemonState
record_page_lock_backoff now stamp key mtime message prior state =
    let interval = next_lock_backoff prior in
    if prior_is_processed prior then state else record state {
      files =
          Dict.insert key
            (record {
              mtime = mtime;
              processed_at = stamp;
              status = FileStatus.lock_backoff;
              error = some (string message);
              lock_backoff_until = some (now + interval);
              lock_backoff_interval = some interval;
            })
            state.files;
    }

unfoldable pub merge_file_state : FileState → FileState → FileState
merge_file_state existing incoming =
    if ltb (priority existing.status) (priority incoming.status)
    then incoming
    else if ltb (priority incoming.status) (priority existing.status)
    then existing
    else if ltb existing.mtime incoming.mtime
    then incoming
    else if ltb incoming.mtime existing.mtime
    then existing
    else if text_leb existing.processed_at incoming.processed_at
    then incoming
    else existing

-- What is at the key of a record that comes in: itself, or merged with the one before.
abbrev pub merged_with : Option FileState → FileState → FileState
merged_with none rec = rec
merged_with (some old) rec = merge_file_state old rec

abbrev pub is_some {ℓ} : {A : Type ℓ} → Option A → Bool
is_some none = false
is_some (some _) = true

-- The migration of the keys. `normalize` is `normalize_daemon_file_key` at the graph root
-- (src/graph/path_sandbox.py), which resolves paths on disk; it answers the empty text for a key
-- that it drops.
module _ (normalize : Text → Text) where
  unfoldable pub migrate :
      Dict Text FileState → Bool → Dict Text FileState → Dict Text FileState × Bool
  migrate migrated changed [] = (migrated, changed)
  migrate migrated changed ((key, rec) ∷ more) =
      let new_key = normalize key in
      let known = Dict.get new_key migrated in
      let dropped = migrate migrated true more in
      let kept =
        migrate (Dict.insert new_key (merged_with known rec) migrated)
          (if is_some known then true else if new_key == key then changed else true) more in
      if is_empty new_key then dropped else kept

  -- The state, and whether it changed.
  unfoldable pub normalize_daemon_state_file_keys : DaemonState → DaemonState × Bool
  normalize_daemon_state_file_keys state =
      let (migrated, changed) = migrate [] false state.files in
      (if changed then record state { files = migrated } else state, changed)

-- The legacy key is looked up if there is no entry at the first.
abbrev pub or_legacy : Option FileState → Option FileState → Option FileState
or_legacy (some rec) legacy = some rec
or_legacy none legacy = legacy

unfoldable pub lookup_file_state : Text → Text → DaemonState → Option FileState
lookup_file_state key legacy state =
    or_legacy (Dict.get key state.files) (Dict.get legacy state.files)

-- What the scan of the graph counts (src/graph/graph_analytics.py).
pub record GraphTotals : Type 0 where
  pub total_pages : ℕ
  pub total_links : ℕ
  pub total_blocks : ℕ
  pub catalog_summaries : ℕ

pub record TelemetryLedgerSnapshot : Type 0 where
  pub links : ℕ
  pub blocks : ℕ
  pub pages : ℕ
  pub summaries : ℕ
  pub healed : Bool

abbrev pub clamped : ℕ → ℕ → ℕ
clamped total counter = if ltb total counter then total else counter

-- The summaries are clamped only if the catalog has any.
abbrev pub summaries_exceed : ℕ → ℕ → Bool
summaries_exceed catalog summaries = ltb catalog summaries && ltb 0 catalog

unfoldable pub reconcile_telemetry_ledger :
    GraphTotals → (links blocks pages summaries : ℕ) → TelemetryLedgerSnapshot
reconcile_telemetry_ledger totals links blocks pages summaries = record {
  links = clamped totals.total_links links;
  blocks = clamped totals.total_blocks blocks;
  pages = clamped totals.total_pages pages;
  summaries =
      if summaries_exceed totals.catalog_summaries summaries
      then totals.catalog_summaries
      else summaries;
  healed =
      ltb totals.total_links links
      || ltb totals.total_blocks blocks
      || ltb totals.total_pages pages
      || summaries_exceed totals.catalog_summaries summaries;
}

-- The state, and whether it was healed.
unfoldable pub heal_daemon_state_ledger : GraphTotals → DaemonState → DaemonState × Bool
heal_daemon_state_ledger totals state =
    let snapshot =
      reconcile_telemetry_ledger totals state.ai_links_injected state.ai_blocks_healed
        state.ai_pages_created state.page_summaries_created in
    if not snapshot.healed then (state, false) else (
      record state {
        ai_links_injected = snapshot.links;
        ai_blocks_healed = snapshot.blocks;
        ai_pages_created = snapshot.pages;
        page_summaries_created = snapshot.summaries;
      },
      true,
    )
