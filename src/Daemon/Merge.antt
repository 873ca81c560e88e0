-- ===== src/Daemon/Merge.antt =====
-- Two records of one file, and the clamping of the counters.
use matryca_plumber.Prelude.{
  ◌≡◌, Bool, true, false, ◌&&◌, ◌||◌, ltb, leb, ◌≤◌, nat_eq, arith, ◌⊎◌, nat_beq,
}
use matryca_plumber.Daemon.Ledger.{
  FileState, priority, merge_file_state, GraphTotals, DaemonState, reconcile_telemetry_ledger,
  heal_daemon_state_ledger,
}

-- A record is at least as good: of a higher priority, or of the same and not older.
abbrev pub outranks : FileState → FileState → Bool
outranks r x =
    ltb (priority x.status) (priority r.status)
    || (nat_beq (priority x.status) (priority r.status) && leb x.mtime r.mtime)

pub outranks_refl : (r : FileState) → outranks r r ≡ true
outranks_refl r = ground arith

pub outranks_trans :
    (r s t : FileState) → outranks r s ≡ true → outranks s t ≡ true → outranks r t ≡ true
outranks_trans r s t h k = ground arith

-- The merge of two records of a file is one of them, and at least as good as both.
pub merge-greatest :
    (existing incoming : FileState)
    → let merged = merge_file_state existing incoming in
      ((merged ≡ existing) ⊎ (merged ≡ incoming))
      × (outranks merged existing ≡ true)
      × (outranks merged incoming ≡ true)
unfolding merge_file_state
merge-greatest existing incoming = ground arith

-- After a healing no counter of links, blocks or pages is above the total of the graph, and
-- another healing finds nothing to do.
pub heal-settles :
    (totals : GraphTotals) (state : DaemonState)
    → let healed = (heal_daemon_state_ledger totals state).0 in
      (healed.ai_links_injected ≤ totals.total_links)
      × (healed.ai_blocks_healed ≤ totals.total_blocks)
      × (healed.ai_pages_created ≤ totals.total_pages)
      × (heal_daemon_state_ledger totals healed ≡ (healed, false))
unfolding heal_daemon_state_ledger reconcile_telemetry_ledger
heal-settles totals state = ground arith
