-- ===== src/Daemon/Tests.antt =====
-- The theorems on the ledger and the queue at a small ledger.
use matryca_plumber.Prelude.{
  ℕ, ◌*◌, ◌^◌, ◌≡◌, ◌≤◌, ◌⊎◌, refl, min, true, false, not, none, some, List, [], ◌∷◌, ltb,
  if◌then◌else◌, ◌==◌,
}
use matryca_plumber.Prelude.Text.{Text, text, text_eq}
use matryca_plumber.Prelude.Dict
use matryca_plumber.Daemon.Ledger.{
  FileState, FileStatus, DaemonState, new_state, lock_backoff_initial, lock_backoff_max,
  next_lock_backoff, merge_file_state, normalize_daemon_state_file_keys, GraphTotals,
  heal_daemon_state_ledger, prior_is_processed,
}
use matryca_plumber.Daemon.Merge.{outranks, merge-greatest, heal-settles}
use matryca_plumber.Daemon.Migration.{Keeps, migration-Keeps}
use matryca_plumber.Daemon.Backoff.{failed_times, failures-double}
use matryca_plumber.Daemon.Queue.{ScannedPage}
use matryca_plumber.Daemon.Settled.{is_called_for, backed_off-called_later}

abbrev done_rec : FileState
done_rec = record {
  mtime = 5;
  processed_at = text "2026";
  status = FileStatus.processed;
  error = none;
  lock_backoff_until = none;
  lock_backoff_interval = none;
}

abbrev waiting_rec : FileState
waiting_rec = record done_rec {
  status = FileStatus.lock_backoff;
  lock_backoff_until = some 90;
  lock_backoff_interval = some 30;
}

abbrev state : DaemonState
state = record (new_state (text "m")) {
  files = (text "/g/a.md", done_rec) ∷ (text "b.md", waiting_rec) ∷ [];
  bootstrap_complete = true;
  ai_links_injected = 9;
  ai_blocks_healed = 1;
  ai_pages_created = 0;
  page_summaries_created = 4;
}

-- A key below the root loses the root, and others stay.
abbrev normalize : Text → Text
normalize key = if key == text "/g/a.md" then text "a.md" else key

abbrev page_a : ScannedPage
page_a = record {
  key = text "a.md";
  legacy_key = text "/g/a.md";
  title = text "a";
  is_journal = false;
  mtime = 5;
  is_terminal_skip = false;
  has_semantic_index = false;
}

abbrev page_b : ScannedPage
page_b = record page_a { key = text "b.md"; legacy_key = text "/g/b.md"; title = text "b" }

abbrev scanned : List ScannedPage
scanned = page_a ∷ page_b ∷ []

has_a : Dict.get (text "/g/a.md") state.files ≡ some done_rec
unfolding Dict.get
has_a = refl

has_b : Dict.get (text "b.md") state.files ≡ some waiting_rec
unfolding Dict.get
has_b = refl

migration-Keeps_example :
    Keeps (normalize_daemon_state_file_keys normalize state).0.files (text "a.md") done_rec
migration-Keeps_example = migration-Keeps normalize state (text "/g/a.md") done_rec has_a refl

merge-greatest_example :
    let merged = merge_file_state done_rec waiting_rec in
    ((merged ≡ done_rec) ⊎ (merged ≡ waiting_rec))
    × (outranks merged done_rec ≡ true)
    × (outranks merged waiting_rec ≡ true)
merge-greatest_example = merge-greatest done_rec waiting_rec

abbrev totals : GraphTotals
totals = record { total_pages = 3; total_links = 4; total_blocks = 8; catalog_summaries = 2 }

heal-settles_example :
    let healed = (heal_daemon_state_ledger totals state).0 in
    (healed.ai_links_injected ≤ 4)
    × (healed.ai_blocks_healed ≤ 8)
    × (healed.ai_pages_created ≤ 3)
    × (heal_daemon_state_ledger totals healed ≡ (healed, false))
heal-settles_example = heal-settles totals state

no_c : Dict.get (text "c.md") state.files ≡ none
unfolding Dict.get
no_c = refl

abbrev clock : ℕ → ℕ
clock n = n

abbrev stamp : ℕ → Text
stamp n = text "2026"

failures-double_example :
    let last =
      Dict.get
        (text "c.md")
        (failed_times clock stamp (text "c.md") 5 (text "held") 4 state).files in
    (next_lock_backoff last ≡ min (lock_backoff_initial * 2 ^ 4) lock_backoff_max)
    × (prior_is_processed last ≡ false)
failures-double_example = failures-double clock stamp (text "c.md") 5 (text "held") 4 state no_c

abbrev migrated : DaemonState
migrated = record state { files = (text "a.md", done_rec) ∷ [] }

has_migrated : Dict.get (text "a.md") migrated.files ≡ some done_rec
unfolding Dict.get
has_migrated = refl

backed_off-called_later_example : is_called_for 120 state none page_b ≡ not (ltb 120 90)
backed_off-called_later_example =
    backed_off-called_later 120 state page_b waiting_rec 90 has_b refl refl refl refl refl refl none
