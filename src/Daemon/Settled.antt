-- ===== src/Daemon/Settled.antt =====
-- Which pages the queue calls for, and the counts of the scan.
use matryca_plumber.Prelude.{
  ℕ, suc, ◌+◌, ◌≡◌, ◌≤◌, refl, ◌∙◌, Bool, true, false, ◌&&◌, not, Option, none, some, List, [], ◌∷◌,
  ◌==◌, ltb, length, if◌then◌else◌, nat_eq, contains, map, arith, Bool-cases, inl, inr, ==_refl,
  ==_iff, subst,
}
use matryca_plumber.Prelude.Text.{Text, text_eq}
use matryca_plumber.Prelude.Dict
use matryca_plumber.Prelude.Dict.{Dict}
use matryca_plumber.Daemon.Ledger.{
  FileState, FileStatus, DaemonState, lookup_file_state, lock_backoff_active,
}
use matryca_plumber.Daemon.Queue.{
  ScannedPage, is_generated, mtime_matches, entry_of, known_needs, entry_needs,
  page_needs_phase2_cognitive, ScanMetrics, ScanClass, scan_class, counted, compute_scan_metrics,
  in_phase2, counts_processed, counts_pending, counts_neither, entry_pending, only_live,
  prune_stale_daemon_file_entries,
}

abbrev IsScan : ℕ → ScanMetrics → Type 0
IsScan n m = (m.total ≡ n) × (m.processed + m.pending ≤ m.total)

counted-IsScan :
    (c : ScanClass) (n : ℕ) (m : ScanMetrics) → IsScan n m → IsScan (suc n) (counted c m)
counted-IsScan counts_processed n m h = (omega (arith, h.0), omega (arith, h.1))
counted-IsScan counts_pending n m h = (omega (arith, h.0), omega (arith, h.1))
counted-IsScan counts_neither n m h = (omega (arith, h.0), omega (arith, h.1))

-- The scan counts every file, and no file both as processed and as pending.
pub scan-bounds :
    (state : DaemonState) (pages : List ScannedPage)
    → let m = compute_scan_metrics state pages in
      (m.total ≡ length pages) × (m.processed + m.pending ≤ m.total)
unfolding compute_scan_metrics
scan-bounds state [] = (refl, omega arith)
scan-bounds state (page ∷ more) =
    counted-IsScan (scan_class page (entry_of state page)) (length more)
      (compute_scan_metrics state more) (scan-bounds state more)

-- What the phase calls for.
abbrev pub called_in : Bool → ℕ → DaemonState → ScannedPage → Bool
called_in true now state page = page_needs_phase2_cognitive now state page
called_in false now state page =
    not (is_generated page) && entry_pending now page (entry_of state page)

abbrev pub is_called_for : ℕ → DaemonState → Option Bool → ScannedPage → Bool
is_called_for now state phase page = called_in (in_phase2 state phase) now state page

entry-found :
    (state : DaemonState) (page : ScannedPage) (rec : FileState)
    → Dict.get page.key state.files ≡ some rec
    → entry_of state page ≡ some rec
unfolding lookup_file_state
entry-found state page rec has = simp has

always_false :
    (generated terminal journal : Bool)
    → (if generated then false else if terminal then false else if journal then false else false)
      ≡ false
always_false generated terminal journal = ground arith

-- A page whose entry is at its key, processed, and of the time of the file is called for in neither
-- phase.
pub processed-not_called :
    (now : ℕ) (state : DaemonState) (phase : Option Bool) (page : ScannedPage) (rec : FileState)
    → Dict.get page.key state.files ≡ some rec
    → rec.status ≡ FileStatus.processed
    → rec.mtime ≡ page.mtime
    → is_called_for now state phase page ≡ false
unfolding page_needs_phase2_cognitive entry_needs known_needs entry_pending mtime_matches
processed-not_called now state phase page rec has status same = processed_in (in_phase2 state phase)
  where
    refused :
        (r : FileState)
        → r.status ≡ FileStatus.processed
        → r.mtime ≡ page.mtime
        → (if is_generated page
            then false
            else if page.is_terminal_skip
            then false
            else entry_needs now page (some r))
          ≡ false
    refused r s m =
        simp (s, m, ==_refl page.mtime)
          (always_false (is_generated page) page.is_terminal_skip page.is_journal)

    refused_first :
        (r : FileState)
        → r.status ≡ FileStatus.processed
        → r.mtime ≡ page.mtime
        → entry_pending now page (some r) ≡ false
    refused_first r s m = simp (s, m, ==_refl page.mtime)

    never : (generated : Bool) → (not generated && false) ≡ false
    never generated = ground arith

    processed_in : (phase2 : Bool) → called_in phase2 now state page ≡ false
    processed_in true = simp (entry-found state page rec has) (refused rec status same)
    processed_in false =
        simp (entry-found state page rec has, refused_first rec status same)
          (never (is_generated page))

-- A page with a back-off entry at its key, of the time of the file, that is no journal, not
-- generated and sound, is called for in either phase exactly from the end of the back-off on.
pub backed_off-called_later :
    (now : ℕ) (state : DaemonState) (page : ScannedPage) (rec : FileState) (until : ℕ)
    → Dict.get page.key state.files ≡ some rec
    → rec.status ≡ FileStatus.lock_backoff
    → rec.lock_backoff_until ≡ some until
    → rec.mtime ≡ page.mtime
    → is_generated page ≡ false
    → page.is_terminal_skip ≡ false
    → page.is_journal ≡ false
    → (phase : Option Bool) → is_called_for now state phase page ≡ not (ltb now until)
unfolding page_needs_phase2_cognitive entry_needs known_needs entry_pending mtime_matches
    lock_backoff_active
backed_off-called_later now state page rec until has status time same plain sound paged phase =
    backed_in (in_phase2 state phase)
  where
    backed_in : (phase2 : Bool) → called_in phase2 now state page ≡ not (ltb now until)
    backed_in true =
        ground (arith, entry-found state page rec has, status, same, time, plain, sound, paged)
    backed_in false = ground (arith, entry-found state page rec has, status, same, time, plain)

pruned-get :
    (live : List Text) (d : Dict Text FileState) (key : Text)
    → Dict.get key (only_live live d).0 ≡ (if contains live key then Dict.get key d else none)
unfolding only_live Dict.get
pruned-get live [] key = ground arith
pruned-get live ((k, rec) ∷ more) key = elim (Bool-cases (k == key)) [
  | inl same ↦
      subst
        (λ j.
          Dict.get j (only_live live ((k, rec) ∷ more)).0
          ≡ (if contains live j then Dict.get j ((k, rec) ∷ more) else none))
        ((==_iff k key).0 same)
        (elim (Bool-cases (contains live k)) [
          | inl alive ↦ simp (alive, ==_refl k)
          | inr ghost ↦ simp ghost (pruned-get live more k ∙ simp ghost refl)
        ])
  | inr other ↦ elim (Bool-cases (contains live k)) [
    | inl alive ↦ simp (alive, other) (pruned-get live more key)
    | inr ghost ↦ simp (ghost, other) (pruned-get live more key)
  ]
]

-- Pruning keeps the entries of the pages of the scan and no other.
pub prune-get :
    (pages : List ScannedPage) (state : DaemonState) (key : Text)
    → Dict.get key (prune_stale_daemon_file_entries pages state).0.files
      ≡ (if contains (map (λ page. page.key) pages) key then Dict.get key state.files else none)
unfolding prune_stale_daemon_file_entries
prune-get pages state key = pruned-get (map (λ page. page.key) pages) state.files key
