-- ===== src/Shadow/SyncFailure.antt =====
-- The invalidation of failed synchronisation (src/shadow/sync_failure.py): a latch in the process,
-- and a marker file that outlives it.
use matryca_plumber.Prelude.{◌≡◌, Bool, true, false, ◌&&◌, ==_refl, arith, if◌then◌else◌}
use matryca_plumber.Prelude.Text.{Text, text, text_eq}
use matryca_plumber.Prelude.Sets.{contains-add, contains-discard}
use matryca_plumber.Shadow.Runtime.{
  initial, mark_shadow_generation_invalid, clear_shadow_generation_invalid,
  is_shadow_generation_invalid,
}
use matryca_plumber.Shadow.Process.{Process, Marker, Surroundings}

abbrev pub shadow_sync_failure_reason : Text
shadow_sync_failure_reason = text "incremental_sync_failed"

-- A marker that is a symlink is left, and counts as a marker.
written : Marker → Marker
written Marker.absent = Marker.regular
written Marker.regular = Marker.regular
written Marker.symlink = Marker.symlink

is_present : Marker → Bool
is_present Marker.absent = false
is_present _ = true

unfoldable pub mark_shadow_sync_failed : Surroundings → Text → Process → Process
unfolding written
mark_shadow_sync_failed io root p = record p {
  runtime = mark_shadow_generation_invalid root p.runtime;
  marker = if io.cache_located && io.marker_writes then written p.marker else p.marker;
}

-- The new state, and whether both the marker and the latch are gone.
unfoldable pub clear_shadow_sync_failed : Surroundings → Text → Process → Process × Bool
clear_shadow_sync_failed io root p =
    if io.cache_located && io.marker_unlinks
    then (
      record p { runtime = clear_shadow_generation_invalid root p.runtime; marker = Marker.absent },
      true,
    )
    else (p, false)

unfoldable pub is_shadow_sync_failed : Surroundings → Text → Process → Bool
unfolding is_present
is_shadow_sync_failed io root p =
    if is_shadow_generation_invalid root p.runtime
    then true
    else (if io.cache_located then is_present p.marker else false)

-- A new process has no latch, and finds the files of the old one.
abbrev pub restart : Process → Process
restart p = record p { runtime = initial }

-- After a failure is marked, reads are invalid in the process, whatever the surroundings answer
-- then and later.
pub mark_latches :
    (io later : Surroundings) (root : Text) (p : Process)
    → is_shadow_sync_failed later root (mark_shadow_sync_failed io root p) ≡ true
unfolding is_shadow_sync_failed mark_shadow_sync_failed mark_shadow_generation_invalid
    is_shadow_generation_invalid
mark_latches io later root p = simp (contains-add root root p.runtime.invalidated_roots, ==_refl)

-- A marker that could be written keeps reads invalid in a new process that can locate the cache.
pub mark_survives_restart :
    (io later : Surroundings) (root : Text) (p : Process)
    → io.cache_located ≡ true
    → io.marker_writes ≡ true
    → later.cache_located ≡ true
    → is_shadow_sync_failed later root (restart (mark_shadow_sync_failed io root p)) ≡ true
unfolding is_shadow_sync_failed mark_shadow_sync_failed is_shadow_generation_invalid
mark_survives_restart io later root p located writes found = ground arith

-- For a root whose reads are invalid: after clearing they are invalid exactly if it says `false`.
clear_reports :
    (io : Surroundings) (root : Text) (p : Process)
    → (is_shadow_sync_failed io root p ≡ true)
    → is_shadow_sync_failed io root (clear_shadow_sync_failed io root p).0
      ≡ (if (clear_shadow_sync_failed io root p).1 then false else true)
unfolding is_shadow_sync_failed clear_shadow_sync_failed clear_shadow_generation_invalid
    is_shadow_generation_invalid
clear_reports io root p failed =
    ground (arith, contains-discard root root p.runtime.invalidated_roots, ==_refl root)
