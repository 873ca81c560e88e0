-- ===== src/Shadow/FailClosed.antt =====
-- What a failed write leaves behind: reads are refused, and the tables are those of before
-- (src/shadow/sync.py, src/shadow/bootstrap.py).
use matryca_plumber.Prelude.{
  ◌≡◌, ◌≢◌, refl, ◌∙◌, Bool, true, false, not, Option, none, some, List, [], arith, if◌then◌else◌,
  Bool-cases, nat_eq, inl, inr, ◌&&◌,
}
use matryca_plumber.Prelude.Text.{Text, text_eq}
use matryca_plumber.Graph.PagePath.{is_markdown}
use matryca_plumber.Shadow.Database.{Db, PageRow, BlockRow}
use matryca_plumber.Shadow.Meta.{set_meta, ensure-tables}
use matryca_plumber.Shadow.Runtime.{is_shadow_bootstrapping}
use matryca_plumber.Shadow.Process.{Process, Surroundings}
use matryca_plumber.Shadow.SyncFailure.{
  is_shadow_sync_failed, mark_shadow_sync_failed, mark_latches, mark_survives_restart, restart,
}
use matryca_plumber.Shadow.Health.{
  HealthState, ready, Outcome, returns, guarded_health, resolve_shadow_health,
}
use matryca_plumber.Shadow.Sync.{Graph, Result, ok, err}
use matryca_plumber.Shadow.Writer.{
  open_shadow_db, Raised, failure_message, record_shadow_sync_failure, sync_page_to_shadow,
  delete_shadow_page_by_file_path, recorded, committed, write_page, erase_page, persist_error,
  opened, with_quarantine_table, seeded,
}

-- A marked failure rules READY out, whatever the file says.
failed_is_not_ready :
    (enabled busy located : Bool) (file : Outcome HealthState)
    → guarded_health enabled busy true located file ≢ returns ready
unfolding guarded_health
failed_is_not_ready false busy located file = λ h. cc
failed_is_not_ready true false located file = λ h. cc
failed_is_not_ready true true located file = λ h. cc

-- What is persisted with a failure touches neither the process nor the marker.
persist-latched :
    (io later : Surroundings) (message root : Text) (p : Process)
    → is_shadow_sync_failed later root (persist_error io message p)
      ≡ is_shadow_sync_failed later root p
unfolding persist_error is_shadow_sync_failed
persist-latched io later message root p = ground arith

-- After a failure is recorded, health is not READY, whatever the surroundings were and are.
pub record-not_ready :
    (io later : Surroundings) (root message : Text) (p : Process)
    → resolve_shadow_health later root (record_shadow_sync_failure io root message p)
      ≢ returns ready
unfolding resolve_shadow_health record_shadow_sync_failure
record-not_ready io later root message p =
    simp (persist-latched, mark_latches) (failed_is_not_ready _ _ _ _)

recorded-not_ready :
    (io later : Surroundings) (root : Text) (e : Raised) (result : Process × Option Raised)
    → (recorded io root result).1 ≡ some e
    → resolve_shadow_health later root (recorded io root result).0 ≢ returns ready
unfolding recorded
recorded-not_ready io later root e (p, none) raises = cc
recorded-not_ready io later root e (p, some problem) raises = record-not_ready io later root _ p

abbrev ClosesIfRaised : Surroundings → Text → Process × Option Raised → Type 0
ClosesIfRaised later root result =
    (e : Raised) → result.1 ≡ some e → resolve_shadow_health later root result.0 ≢ returns ready

guards_close :
    (enabled markdown busy : Bool) (later : Surroundings) (root : Text) (p q : Process)
    (result : Process × Option Raised)
    → ClosesIfRaised later root result
    → ClosesIfRaised later root (
        if not enabled
        then (p, none)
        else if not markdown
        then (p, none)
        else if busy
        then (q, none)
        else result)
guards_close false markdown busy later root p q result closes e raises = cc
guards_close true false busy later root p q result closes e raises = cc
guards_close true true true later root p q result closes e raises = cc
guards_close true true false later root p q result closes e raises = closes e raises

-- If an incremental synchronisation raises, health is not READY, whatever the surroundings are
-- from then on.
pub sync-not_ready :
    (io later : Surroundings) (graph : Graph) (root rel : Text) (p : Process) (e : Raised)
    → (sync_page_to_shadow io graph root rel p).1 ≡ some e
    → resolve_shadow_health later root (sync_page_to_shadow io graph root rel p).0 ≢ returns ready
unfolding sync_page_to_shadow
sync-not_ready io later graph root rel p e raises =
    guards_close io.shadow_db_enabled (is_markdown rel) (is_shadow_bootstrapping root p.runtime)
      later root _ _ _ (λ e'. recorded-not_ready io later root e' (write_page io graph rel p)) e
      raises

-- If the deletion of a page raises, health is not READY, whatever the surroundings are from then
-- on.
pub delete-not_ready :
    (io later : Surroundings) (root rel : Text) (p : Process) (e : Raised)
    → (delete_shadow_page_by_file_path io root rel p).1 ≡ some e
    → resolve_shadow_health later root (delete_shadow_page_by_file_path io root rel p).0
      ≢ returns ready
unfolding delete_shadow_page_by_file_path
delete-not_ready io later root rel p e raises = elim (Bool-cases io.shadow_db_enabled) [
  | inl on ↦ simp on (recorded-not_ready io later root e (erase_page io rel p) (simp on at raises))
  | inr off ↦ cc (simp off at raises)
]

persist-restart :
    (io later : Surroundings) (message root : Text) (p : Process)
    → is_shadow_sync_failed later root (restart (persist_error io message p))
      ≡ is_shadow_sync_failed later root (restart p)
unfolding persist_error is_shadow_sync_failed
persist-restart io later message root p = ground arith

-- After a failure is recorded where the cache is located and the marker can be written, health is
-- not READY in a new process that locates the cache.
pub restart-not_ready :
    (io later : Surroundings) (root message : Text) (p : Process)
    → io.cache_located ≡ true
    → io.marker_writes ≡ true
    → later.cache_located ≡ true
    → resolve_shadow_health later root (restart (record_shadow_sync_failure io root message p))
      ≢ returns ready
unfolding resolve_shadow_health record_shadow_sync_failure
restart-not_ready io later root message p located writes found =
    simp (persist-restart, mark_survives_restart io later root p located writes found)
      (failed_is_not_ready _ _ _ _)

-- The rows of the tables on disk.
abbrev pub page_rows : Option Db → List PageRow
page_rows none = []
page_rows (some db) = db.pages

abbrev pub block_rows : Option Db → List BlockRow
block_rows none = []
block_rows (some db) = db.blocks

abbrev pub SameRows : Process → Process → Type 0
SameRows p q =
    (page_rows q.database ≡ page_rows p.database) × (block_rows q.database ≡ block_rows p.database)

-- Opening creates tables and no rows.
pub open-rows :
    (file : Option Db)
    → ((open_shadow_db file).pages ≡ page_rows file)
      × ((open_shadow_db file).blocks ≡ block_rows file)
unfolding open_shadow_db set_meta with_quarantine_table seeded
open-rows none = ground arith
open-rows (some db) = ground arith

persist-rows :
    (io : Surroundings) (message root : Text) (p : Process)
    → SameRows p (persist_error io message p)
unfolding persist_error set_meta
persist-rows io message root p =
    ground (arith, open-rows p.database, ensure-tables (open_shadow_db p.database))

committed-rows :
    (io : Surroundings) (r : Result (Bool × Db)) (p : Process) (e : Raised)
    → (committed io r (opened p)).1 ≡ some e
    → SameRows p (committed io r (opened p)).0
unfolding committed
committed-rows io (err e') p e raises = open-rows p.database
committed-rows io (ok (present, db)) p e raises = ground (arith, open-rows p.database)

abbrev pub KeepsIfRaised : Process → Process × Option Raised → Type 0
KeepsIfRaised p result = (e : Raised) → result.1 ≡ some e → SameRows p result.0

write-rows :
    (io : Surroundings) (graph : Graph) (rel : Text) (p : Process)
    → KeepsIfRaised p (write_page io graph rel p)
unfolding write_page
write-rows io graph rel p e raises = elim (Bool-cases (io.lock_taken && io.writer_opens)) [
  | inl had ↦ simp had (committed-rows io _ p e (simp had at raises))
  | inr not_had ↦ simp not_had (refl, refl)
]

recorded-rows :
    (io : Surroundings) (root : Text) (p : Process) (result : Process × Option Raised)
    → KeepsIfRaised p result
    → KeepsIfRaised p (recorded io root result)
unfolding recorded record_shadow_sync_failure mark_shadow_sync_failed
recorded-rows io root p (q, none) keeps e raises = cc
recorded-rows io root p (q, some problem) keeps e raises =
    let same = keeps problem refl in
    let noted =
      persist-rows io (failure_message problem) root (mark_shadow_sync_failed io root q) in
    (noted.0 ∙ same.0, noted.1 ∙ same.1)

-- If an incremental synchronisation raises, the page and block rows on disk are those of before.
pub sync-atomic :
    (io : Surroundings) (graph : Graph) (root rel : Text) (p : Process) (e : Raised)
    → (sync_page_to_shadow io graph root rel p).1 ≡ some e
    → SameRows p (sync_page_to_shadow io graph root rel p).0
unfolding sync_page_to_shadow
sync-atomic io graph root rel p e raises =
    guards_keep io.shadow_db_enabled (is_markdown rel) (is_shadow_bootstrapping root p.runtime) p _
      _ (recorded-rows io root p (write_page io graph rel p) (write-rows io graph rel p)) e raises
  where
    guards_keep :
        (enabled markdown busy : Bool) (p q : Process) (result : Process × Option Raised)
        → KeepsIfRaised p result
        → KeepsIfRaised p (
            if not enabled
            then (p, none)
            else if not markdown
            then (p, none)
            else if busy
            then (q, none)
            else result)
    guards_keep false markdown busy p q result keeps e raises = cc
    guards_keep true false busy p q result keeps e raises = cc
    guards_keep true true true p q result keeps e raises = cc
    guards_keep true true false p q result keeps e raises = keeps e raises
