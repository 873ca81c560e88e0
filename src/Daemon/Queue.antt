-- ===== src/Daemon/Queue.antt =====
-- The selection of pending pages and the scan metrics (src/agent/daemon_page_queue.py), on what a
-- scan reads of each page. Times are as in the ledger, so the tolerance is 1000.
use matryca_plumber.Prelude.{
  ℕ, ◌+◌, Bool, true, false, ◌&&◌, ◌||◌, not, Option, none, some, List, [], ◌∷◌, ◌==◌, leb,
  if◌then◌else◌, nat_eq, contains, map,
}
use matryca_plumber.Prelude.Text.{Text, text, text_eq}
use matryca_plumber.Prelude.Dict.{Dict}
use matryca_plumber.Daemon.Ledger.{
  FileState, DaemonState, lookup_file_state, lock_backoff_active, is_processed, is_error,
  is_skipped,
}

-- A source path, as the scan finds it: its keys, its title, and what is read of the file.
pub record ScannedPage : Type 0 where
  pub key : Text
  pub legacy_key : Text
  pub title : Text
  pub is_journal : Bool
  pub mtime : ℕ
  -- Its content is blank or has malformed block references.
  pub is_terminal_skip : Bool
  pub has_semantic_index : Bool

abbrev pub generated_page_titles : List Text
generated_page_titles = text "Matryca Master Index" ∷ text "Matryca Graph Insights" ∷ []

abbrev pub is_generated : ScannedPage → Bool
is_generated page = contains generated_page_titles page.title

unfoldable pub mtime_matches : ℕ → ℕ → Bool
mtime_matches stored current =
    if stored == current then true else leb stored (current + 1000) && leb current (stored + 1000)

abbrev pub entry_of : DaemonState → ScannedPage → Option FileState
entry_of state page = lookup_file_state page.key page.legacy_key state

-- The last part of the decision, for an entry whose time matches.
unfoldable pub known_needs : ℕ → Bool → FileState → Bool
known_needs now has_semantic_index rec =
    if is_processed rec.status
    then false
    else if is_error rec.status
    then false
    else if lock_backoff_active now rec
    then false
    else if is_skipped rec.status
    then has_semantic_index
    else true

unfoldable pub entry_needs : ℕ → ScannedPage → Option FileState → Bool
entry_needs now page none = true
entry_needs now page (some rec) =
    if not (mtime_matches rec.mtime page.mtime)
    then true
    else if page.is_journal
    then false
    else known_needs now page.has_semantic_index rec

unfoldable pub page_needs_phase2_cognitive : ℕ → DaemonState → ScannedPage → Bool
page_needs_phase2_cognitive now state page =
    if is_generated page
    then false
    else if page.is_terminal_skip
    then false
    else entry_needs now page (entry_of state page)

-- The counts of `compute_phase2_progress_metrics`.
pub record ProgressMetrics : Type 0 where
  pub total : ℕ
  pub cognitive_done : ℕ
  pub cognitive_pending : ℕ
  pub terminal_skipped : ℕ

unfoldable pub is_done : ScannedPage → Option FileState → Bool
is_done page none = false
is_done page (some rec) = mtime_matches rec.mtime page.mtime && is_processed rec.status

-- How one path counts: not at all, or under one of the three.
pub data ProgressClass : Type 0 where
  not_counted counts_done counts_waiting counts_skipped : ProgressClass

unfoldable pub progress_class : ℕ → DaemonState → ScannedPage → ProgressClass
progress_class now state page =
    if is_generated page
    then not_counted
    else if page.is_journal
    then not_counted
    else if is_done page (entry_of state page)
    then counts_done
    else if page_needs_phase2_cognitive now state page
    then counts_waiting
    else counts_skipped

abbrev pub progressed : ProgressClass → ProgressMetrics → ProgressMetrics
progressed not_counted m = m
progressed counts_done m = record m { total = m.total + 1; cognitive_done = m.cognitive_done + 1 }
progressed counts_waiting m = record m {
  total = m.total + 1;
  cognitive_pending = m.cognitive_pending + 1;
}
progressed counts_skipped m = record m {
  total = m.total + 1;
  terminal_skipped = m.terminal_skipped + 1;
}

unfoldable pub compute_phase2_progress_metrics :
    ℕ → DaemonState → List ScannedPage → ProgressMetrics
compute_phase2_progress_metrics now state [] = record {
  total = 0;
  cognitive_done = 0;
  cognitive_pending = 0;
  terminal_skipped = 0;
}
compute_phase2_progress_metrics now state (page ∷ more) =
    progressed (progress_class now state page) (compute_phase2_progress_metrics now state more)

pub record ScanMetrics : Type 0 where
  pub total : ℕ
  pub processed : ℕ
  pub pending : ℕ

-- How one file counts: as processed, as pending, or as neither.
pub data ScanClass : Type 0 where
  counts_processed counts_pending counts_neither : ScanClass

unfoldable pub scan_class : ScannedPage → Option FileState → ScanClass
scan_class page none = counts_pending
scan_class page (some rec) =
    if not (mtime_matches rec.mtime page.mtime)
    then counts_pending
    else if is_processed rec.status
    then counts_processed
    else if is_skipped rec.status || is_error rec.status
    then counts_neither
    else counts_pending

abbrev pub counted : ScanClass → ScanMetrics → ScanMetrics
counted counts_processed m = record m { total = m.total + 1; processed = m.processed + 1 }
counted counts_pending m = record m { total = m.total + 1; pending = m.pending + 1 }
counted counts_neither m = record m { total = m.total + 1 }

unfoldable pub compute_scan_metrics : DaemonState → List ScannedPage → ScanMetrics
compute_scan_metrics state [] = record { total = 0; processed = 0; pending = 0 }
compute_scan_metrics state (page ∷ more) =
    counted (scan_class page (entry_of state page)) (compute_scan_metrics state more)

-- Whether a page is pending in the first phase.
unfoldable pub entry_pending : ℕ → ScannedPage → Option FileState → Bool
entry_pending now page none = true
entry_pending now page (some rec) =
    if not (mtime_matches rec.mtime page.mtime)
    then true
    else if is_processed rec.status || is_skipped rec.status
    then false
    else if is_error rec.status
    then false
    else not (lock_backoff_active now rec)

abbrev pub in_phase2 : DaemonState → Option Bool → Bool
in_phase2 state none = state.bootstrap_complete
in_phase2 state (some complete) = complete

unfoldable pub list_pending_files :
    ℕ → DaemonState → Option Bool → List ScannedPage → List ScannedPage
list_pending_files now state bootstrap_complete [] = []
list_pending_files now state bootstrap_complete (page ∷ more) =
    let rest = list_pending_files now state bootstrap_complete more in
    let chosen =
      if in_phase2 state bootstrap_complete
      then page_needs_phase2_cognitive now state page
      else entry_pending now page (entry_of state page) in
    if is_generated page then rest else if chosen then page ∷ rest else rest

-- The entries that stay, and how many went.
unfoldable pub without_errors : Dict Text FileState → Dict Text FileState × ℕ
without_errors [] = ([], 0)
without_errors ((key, rec) ∷ more) =
    let (kept, cleared) = without_errors more in
    if is_error rec.status then (kept, cleared + 1) else ((key, rec) ∷ kept, cleared)

unfoldable pub clear_phase1_error_backoff : DaemonState → DaemonState × ℕ
clear_phase1_error_backoff state =
    let (kept, cleared) = without_errors state.files in (record state { files = kept }, cleared)

unfoldable pub only_live : List Text → Dict Text FileState → Dict Text FileState × ℕ
only_live live [] = ([], 0)
only_live live ((key, rec) ∷ more) =
    let (kept, ghosts) = only_live live more in
    if contains live key then ((key, rec) ∷ kept, ghosts) else (kept, ghosts + 1)

unfoldable pub prune_stale_daemon_file_entries : List ScannedPage → DaemonState → DaemonState × ℕ
prune_stale_daemon_file_entries pages state =
    let (kept, ghosts) = only_live (map (λ page. page.key) pages) state.files in
    (record state { files = kept }, ghosts)
