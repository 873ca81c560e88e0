-- ===== src/Daemon/Backoff.antt =====
-- The back-off of a page whose lock is held by another process.
use matryca_plumber.Prelude.{
  ℕ, zero, suc, ◌+◌, ◌*◌, ◌^◌, ◌≡◌, refl, min, false, Option, none, some, ltb, ◌≤◌, nat_eq, arith,
  ==_refl, ◌∙◌,
}
use native.Mathlib.Nat.{pow-succ'}
use matryca_plumber.Prelude.Text.{Text, text_eq}
use matryca_plumber.Prelude.Dict
use matryca_plumber.Daemon.Json.{string}
use matryca_plumber.Daemon.Ledger.{
  FileState, FileStatus, DaemonState, lock_backoff_initial, lock_backoff_max, lock_backoff_active,
  next_lock_backoff, record_page_lock_backoff, prior_is_processed,
}

next-positive : (prior : Option FileState) → 1 ≤ next_lock_backoff prior
unfolding next_lock_backoff
next-positive none = omega arith
next-positive (some rec) = ground arith

-- The record that a failure leaves, for a page that was not processed: the page backs off until
-- the next interval is over, and the interval after it is the double, up to the greatest.
pub record-backs_off :
    (now later : ℕ) (stamp key : Text) (mtime : ℕ) (message : Text) (prior : Option FileState)
    (state : DaemonState)
    → prior_is_processed prior ≡ false
    → (rec : FileState) × (Dict.get key
          (record_page_lock_backoff now stamp key mtime message prior state).files
        ≡ some rec)
      × (lock_backoff_active later rec ≡ ltb later (now + next_lock_backoff prior))
      × (next_lock_backoff (some rec) ≡ min (next_lock_backoff prior * 2) lock_backoff_max)
      × (prior_is_processed (some rec) ≡ false)
unfolding record_page_lock_backoff lock_backoff_active
record-backs_off now later stamp key mtime message prior state open_page = (
  _,
  simp (open_page, Dict.get-insert, ==_refl key),
  refl,
  doubled (next_lock_backoff prior) (next-positive prior),
  refl,
)
  where
    doubled :
        (interval : ℕ)
        → 1 ≤ interval
        → next_lock_backoff (
            some (record {
              mtime = mtime;
              processed_at = stamp;
              status = FileStatus.lock_backoff;
              error = some (string message);
              lock_backoff_until = some (now + interval);
              lock_backoff_interval = some interval;
            }))
          ≡ min (interval * 2) lock_backoff_max
    doubled interval positive = unfold next_lock_backoff in ground arith

-- A number of failures in a row, each with the entry that the one before left.
abbrev pub failed_times : (ℕ → ℕ) → (ℕ → Text) → Text → ℕ → Text → ℕ → DaemonState → DaemonState
failed_times clock stamp key mtime message zero state = state
failed_times clock stamp key mtime message (suc n) state =
    let last = failed_times clock stamp key mtime message n state in
    record_page_lock_backoff (clock n) (stamp n) key mtime message (Dict.get key last.files) last

-- After `n` failures in a row of a page with no entry before, the next interval is 30 seconds
-- doubled `n` times, and 300 seconds at most.
pub failures-double :
    (clock : ℕ → ℕ) (stamp : ℕ → Text) (key : Text) (mtime : ℕ) (message : Text) (n : ℕ)
    (state : DaemonState)
    → Dict.get key state.files ≡ none
    → let last = Dict.get key (failed_times clock stamp key mtime message n state).files in
      (next_lock_backoff last ≡ min (lock_backoff_initial * 2 ^ n) lock_backoff_max)
      × (prior_is_processed last ≡ false)
failures-double clock stamp key mtime message zero state new =
    simp new (unfold next_lock_backoff in refl, refl)
failures-double clock stamp key mtime message (suc n) state new =
    let last = failed_times clock stamp key mtime message n state in
    let (interval, open_page) = failures-double clock stamp key mtime message n state new in
    let (rec, has, active, next, still_open) =
      record-backs_off (clock n) 0 (stamp n) key mtime message (Dict.get key last.files) last
        open_page in
    simp has (next ∙ omega (arith, interval, pow-succ' 2 n), still_open)
