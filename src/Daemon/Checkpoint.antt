-- ===== src/Daemon/Checkpoint.antt =====
-- The checkpoint as JSON: `DaemonState.to_json` and `DaemonState.from_json`
-- (src/agent/daemon_state.py).
use mathlib.Core.Option
use matryca_plumber.Prelude.{ℕ, Bool, Option, none, some, [], ◌∷◌, ◌==◌, if◌then◌else◌}
use matryca_plumber.Prelude.Text.{Text, text, text_eq}
use matryca_plumber.Prelude.Dict
use matryca_plumber.Prelude.Dict.{Dict}
use matryca_plumber.Daemon.Json.{
  Json, null, truth, number, decimal, string, object, Fields, end, field, Python, to_int, to_float,
  to_text, to_bool, get_or,
}
use matryca_plumber.Daemon.Journey.{journey_to_json, journey_from_json}
use matryca_plumber.Daemon.Ledger.{
  FileStatus, FileState, HarvestStatus, BootstrapRecentEntry, DaemonState,
}

abbrev pub status_text : FileStatus → Text
status_text FileStatus.processed = text "processed"
status_text FileStatus.skipped = text "skipped"
status_text FileStatus.error = text "error"
status_text FileStatus.pending = text "pending"
status_text FileStatus.lock_backoff = text "lock_backoff"
status_text (FileStatus.unknown s) = s

-- `cast(FileStatus, …)` checks nothing.
abbrev pub status_of : Text → FileStatus
status_of s =
    if s == text "processed"
    then FileStatus.processed
    else if s == text "skipped"
    then FileStatus.skipped
    else if s == text "error"
    then FileStatus.error
    else if s == text "pending"
    then FileStatus.pending
    else if s == text "lock_backoff"
    then FileStatus.lock_backoff
    else FileStatus.unknown s

abbrev pub harvest_text : HarvestStatus → Text
harvest_text HarvestStatus.regex = text "regex"
harvest_text HarvestStatus.llm = text "llm"
harvest_text HarvestStatus.skipped = text "skipped"
harvest_text HarvestStatus.error = text "error"

abbrev pub harvest_of : Text → Option HarvestStatus
harvest_of s =
    if s == text "regex"
    then some HarvestStatus.regex
    else if s == text "llm"
    then some HarvestStatus.llm
    else if s == text "skipped"
    then some HarvestStatus.skipped
    else if s == text "error"
    then some HarvestStatus.error
    else none

-- A value that may be None.
abbrev pub nullable {ℓ} : {A : Type ℓ} → (A → Json) → Option A → Json
nullable f none = null
nullable f (some a) = f a

abbrev pub file_to_json : FileState → Json
file_to_json rec = object (
    field (text "mtime") (decimal rec.mtime) (
      field (text "processed_at") (string rec.processed_at) (
        field (text "status") (string (status_text rec.status)) (
          field (text "error") (nullable (λ v. v) rec.error) (
            field (text "lock_backoff_until") (nullable decimal rec.lock_backoff_until) (
              field (text "lock_backoff_seconds") (nullable decimal rec.lock_backoff_interval)
                end))))))

unfoldable pub files_to_json : Dict Text FileState → Fields
files_to_json [] = end
files_to_json ((path, rec) ∷ more) = field path (file_to_json rec) (files_to_json more)

abbrev pub recent_to_json : BootstrapRecentEntry → Json
recent_to_json rec = object (
    field (text "harvest") (string (harvest_text rec.harvest))
      (field (text "processed_at") (string rec.processed_at) end))

unfoldable pub all_recent_to_json : Dict Text BootstrapRecentEntry → Fields
all_recent_to_json [] = end
all_recent_to_json ((path, rec) ∷ more) = field path (recent_to_json rec) (all_recent_to_json more)

unfoldable pub fields_to_json : DaemonState → Fields
fields_to_json state = field (text "version") (number state.version) (
    field (text "status") (string state.status) (
      field (text "model") (string state.model) (
        field (text "bootstrap_complete") (truth state.bootstrap_complete) (
          field (text "bootstrap_failed") (truth state.bootstrap_failed) (
            field (text "bootstrap_failed_reason") (nullable string state.bootstrap_failed_reason) (
              field (text "bootstrap_scanned") (number state.bootstrap_scanned) (
                field (text "bootstrap_total") (number state.bootstrap_total) (
                  field (text "session_prompt_tokens") (number state.session_prompt_tokens) (
                    field (text "session_completion_tokens")
                      (number state.session_completion_tokens)
                      (field (text "current_cluster") (nullable string state.current_cluster) (
                        field (text "current_cluster_files_total")
                          (number state.current_cluster_files_total)
                          (field (text "current_cluster_files_done")
                            (number state.current_cluster_files_done)
                            (field (text "phase2_cognitive_total")
                              (number state.phase2_cognitive_total)
                              (field (text "phase2_cognitive_done")
                                (number state.phase2_cognitive_done)
                                (field (text "phase2_vault_baseline_total")
                                  (number state.phase2_vault_baseline_total)
                                  (field (text "phase2_cluster_file_in_flight")
                                    (truth state.phase2_cluster_file_in_flight)
                                    (field (text "phase2_llm_turns") (number state.phase2_llm_turns)
                                      (field (text "last_scan_at") state.last_scan_at (
                                        field (text "last_file") state.last_file (
                                          field (text "ai_pages_created")
                                            (number state.ai_pages_created)
                                            (field (text "ai_links_injected")
                                              (number state.ai_links_injected)
                                              (field (text "ai_blocks_healed")
                                                (number state.ai_blocks_healed)
                                                (field (text "hygiene_corrections")
                                                  (number state.hygiene_corrections)
                                                  (field (text "page_summaries_created")
                                                    (number state.page_summaries_created)
                                                    (field (text "bootstrap_recent")
                                                      (object
                                                        (all_recent_to_json state.bootstrap_recent))
                                                      (field (text "journey_day")
                                                        (journey_to_json state.journey_day)
                                                        (field (text "files")
                                                          (object (files_to_json state.files))
                                                          end)))))))))))))))))))))))))))

unfoldable pub to_json : DaemonState → Json
unfolding fields_to_json
to_json state = object (fields_to_json state)

-- `rec.get(key)` with None for what is missing.
abbrev pub given : Json → Option Json
given null = none
given v = some v

-- `none` outside: the conversion raises.
abbrev pub float_or_none : Python → Json → Option (Option ℕ)
float_or_none py null = some none
float_or_none py v = Option.map some (to_float py v)

infixl 5 ◌>>=◌
abbrev pub ◌>>=◌ {ℓ κ} : {A : Type ℓ} {B : Type κ} → Option A → (A → Option B) → Option B
none >>= f = none
some a >>= f = f a

unfoldable pub file_from_json : Python → Fields → Option FileState
file_from_json py rec = do
  mtime ← to_float py (get_or (decimal 0) (text "mtime") rec)
  until ← float_or_none py (get_or null (text "lock_backoff_until") rec)
  interval ← float_or_none py (get_or null (text "lock_backoff_seconds") rec)
  some (record {
    mtime = mtime;
    processed_at = to_text py (get_or (string []) (text "processed_at") rec);
    status = status_of (to_text py (get_or (string (text "processed")) (text "status") rec));
    error = given (get_or null (text "error") rec);
    lock_backoff_until = until;
    lock_backoff_interval = interval;
  })

-- A record that is no object is passed over; one that does not convert raises.
unfoldable pub files_from_json :
    Python → Dict Text FileState → Fields → Option (Dict Text FileState)
files_from_json py files end = some files
files_from_json py files (field path (object rec) more) =
    file_from_json py rec >>= λ state. files_from_json py (Dict.insert path state files) more
files_from_json py files (field path v more) = files_from_json py files more

abbrev pub files_of : Python → Json → Option (Dict Text FileState)
files_of py (object raw) = files_from_json py [] raw
files_of py v = some []

abbrev pub recent_entry : Python → Fields → HarvestStatus → BootstrapRecentEntry
recent_entry py rec harvest = record {
  harvest = harvest;
  processed_at = to_text py (get_or (string []) (text "processed_at") rec);
}

abbrev pub with_recent :
    Text
    → Option BootstrapRecentEntry
    → Dict Text BootstrapRecentEntry
    → Dict Text BootstrapRecentEntry
with_recent path none recent = recent
with_recent path (some rec) recent = Dict.insert path rec recent

-- `_bootstrap_recent_from_json`: an entry with another harvest is passed over.
unfoldable pub recent_from_json :
    Python → Dict Text BootstrapRecentEntry → Fields → Dict Text BootstrapRecentEntry
recent_from_json py recent end = recent
recent_from_json py recent (field path (object rec) more) =
    let harvest = harvest_of (to_text py (get_or (string []) (text "harvest") rec)) in
    recent_from_json py (with_recent path (Option.map (recent_entry py rec) harvest) recent) more
recent_from_json py recent (field path v more) = recent_from_json py recent more

abbrev pub recent_of : Python → Json → Dict Text BootstrapRecentEntry
recent_of py (object raw) = recent_from_json py [] raw
recent_of py v = []

-- `str(v) if v not in (None, "") else None`
abbrev pub text_or_none : Python → Json → Option Text
text_or_none py null = none
text_or_none py (string []) = none
text_or_none py v = some (to_text py v)

abbrev int_field : Python → Text → ℕ → Fields → Option ℕ
int_field py key default payload = to_int py (get_or (number default) key payload)

abbrev bool_field : Text → Fields → Bool
bool_field key payload = to_bool (get_or (truth Bool.false) key payload)

-- `DaemonState.from_json`; `none` is the error that a conversion raises.
unfoldable pub from_json : Python → Text → Fields → Option DaemonState
from_json py default_model payload = do
  files ← files_of py (get_or (object end) (text "files") payload)
  version ← int_field py (text "version") 1 payload
  bootstrap_scanned ← int_field py (text "bootstrap_scanned") 0 payload
  bootstrap_total ← int_field py (text "bootstrap_total") 0 payload
  session_prompt_tokens ← int_field py (text "session_prompt_tokens") 0 payload
  session_completion_tokens ← int_field py (text "session_completion_tokens") 0 payload
  current_cluster_files_total ← int_field py (text "current_cluster_files_total") 0 payload
  current_cluster_files_done ← int_field py (text "current_cluster_files_done") 0 payload
  phase2_cognitive_total ← int_field py (text "phase2_cognitive_total") 0 payload
  phase2_cognitive_done ← int_field py (text "phase2_cognitive_done") 0 payload
  phase2_vault_baseline_total ← int_field py (text "phase2_vault_baseline_total") 0 payload
  phase2_llm_turns ← int_field py (text "phase2_llm_turns") 0 payload
  ai_pages_created ← int_field py (text "ai_pages_created") 0 payload
  ai_links_injected ← to_int py (
      get_or (get_or (number 0) (text "links_backpropagated") payload) (text "ai_links_injected")
        payload)
  ai_blocks_healed ←
      to_int py (
        get_or (get_or (number 0) (text "blocks_healed") payload) (text "ai_blocks_healed") payload)
  hygiene_corrections ← int_field py (text "hygiene_corrections") 0 payload
  page_summaries_created ← int_field py (text "page_summaries_created") 0 payload
  some (record {
    version = version;
    status = to_text py (get_or (string (text "idle")) (text "status") payload);
    model = to_text py (get_or (string (default_model)) (text "model") payload);
    bootstrap_complete = bool_field (text "bootstrap_complete") payload;
    bootstrap_failed = bool_field (text "bootstrap_failed") payload;
    bootstrap_failed_reason =
        text_or_none py (get_or null (text "bootstrap_failed_reason") payload);
    bootstrap_scanned = bootstrap_scanned;
    bootstrap_total = bootstrap_total;
    session_prompt_tokens = session_prompt_tokens;
    session_completion_tokens = session_completion_tokens;
    current_cluster = text_or_none py (get_or null (text "current_cluster") payload);
    current_cluster_files_total = current_cluster_files_total;
    current_cluster_files_done = current_cluster_files_done;
    phase2_cognitive_total = phase2_cognitive_total;
    phase2_cognitive_done = phase2_cognitive_done;
    phase2_vault_baseline_total = phase2_vault_baseline_total;
    phase2_cluster_file_in_flight = bool_field (text "phase2_cluster_file_in_flight") payload;
    phase2_llm_turns = phase2_llm_turns;
    last_scan_at = get_or null (text "last_scan_at") payload;
    last_file = get_or null (text "last_file") payload;
    ai_pages_created = ai_pages_created;
    ai_links_injected = ai_links_injected;
    ai_blocks_healed = ai_blocks_healed;
    hygiene_corrections = hygiene_corrections;
    page_summaries_created = page_summaries_created;
    bootstrap_recent = recent_of py (get_or null (text "bootstrap_recent") payload);
    journey_day = journey_from_json py (get_or null (text "journey_day") payload);
    files = files;
  })
