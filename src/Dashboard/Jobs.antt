-- ===== src/Dashboard/Jobs.antt =====
-- The one permit of the process (`_DashboardJobs` of src/agent/dashboard_job.py) and every way in
-- which readers, owner threads and the clock can take turns. `_wait_owner` looks at the state at
-- moments of its own choice: leaving is a step that its tests allow. Every job that was admitted
-- stays in the system, under a number of its own, with its reader and its owner thread; the permit
-- names one of them.
use matryca_plumber.Prelude.{
  ℕ, ◌+◌, ◌≡◌, Bool, true, false, not, ◌&&◌, ◌||◌, Option, none, some, [], ltb, leb, if◌then◌else◌,
  nat_eq,
}
use matryca_plumber.Dashboard.Protocol.{
  DashboardCode, dashboard_busy, dashboard_worker_failed, dashboard_cleanup_unverified,
  dashboard_timeout, DashboardOutcome, DashboardJobControl, new_control, begin_cleanup,
  finish_execution, request_cancel,
}
use matryca_plumber.Prelude.Dict
use matryca_plumber.Prelude.Dict.{Dict}

-- A thread that was never started is neither alive nor joined.
pub data OwnerThread : Type 0 where
  absent alive exited : OwnerThread

-- `waiting` says that the reader of the job has not left.
pub record OwnedJob : Type 0 where
  pub control : DashboardJobControl
  pub done : Bool
  pub thread : OwnerThread
  pub outcome : Option DashboardOutcome
  pub waiting : Bool

pub record System : Type 0 where
  pub now : ℕ
  pub active : Option ℕ
  pub poisoned : Bool
  pub jobs : Dict ℕ OwnedJob

abbrev pub initial : ℕ → System
initial now = record { now = now; active = none; poisoned = false; jobs = [] }

-- `_OwnedJob(DashboardJobControl(limits), …)`
abbrev pub new_job : ℕ → ℕ → ℕ → OwnedJob
new_job now execution cleanup = record {
  control = new_control now execution cleanup;
  done = false;
  thread = absent;
  outcome = none;
  waiting = true;
}

-- What a reader is told that finds the permit taken.
unfoldable pub refusal : Bool → DashboardOutcome
refusal poisoned = record {
  code = some (if poisoned then dashboard_cleanup_unverified else dashboard_busy);
  last_phase = none;
  elapsed = 0;
  cleanup_verified = false;
  markdown = none;
}

-- `_own`: the process returned an outcome, and logging it may still fail.
abbrev failed_code : Option DashboardCode → Option DashboardCode
failed_code none = some dashboard_worker_failed
failed_code (some code) = some code

abbrev failed_markdown : DashboardOutcome → Option DashboardCode → DashboardOutcome
failed_markdown outcome none = record outcome {
  code = some dashboard_worker_failed;
  markdown = none;
}
failed_markdown outcome (some code) = outcome

abbrev pub kept_outcome : Option DashboardOutcome → Option DashboardOutcome
kept_outcome none = none
kept_outcome (some outcome) = some (failed_markdown outcome outcome.code)

-- `finished` is what `run_dashboard_process` returned, `none` if it raised; `raised` that it or
-- the log raised.
unfoldable pub own : ℕ → Option DashboardOutcome → Bool → OwnedJob → OwnedJob
own now finished false job = record job { outcome = finished; done = true }
own now finished true job = record job {
  control = begin_cleanup now (some dashboard_worker_failed) job.control;
  outcome = kept_outcome finished;
  done = true;
}

abbrev pub is_alive : OwnerThread → Bool
is_alive alive = true
is_alive _ = false

abbrev pub is_started : OwnerThread → Bool
is_started absent = false
is_started _ = true

-- `read` waits only after the start of the thread, or its failure, which sets `done`.
abbrev pub is_launched : OwnedJob → Bool
is_launched job = is_started job.thread || job.done

abbrev pub before_deadline : ℕ → Option ℕ → Bool
before_deadline now none = false
before_deadline now (some deadline) = ltb now deadline

abbrev pub past_deadline : ℕ → Option ℕ → Bool
past_deadline now none = false
past_deadline now (some deadline) = leb deadline now

-- The returns of `_wait_owner`.
unfoldable pub may_leave : ℕ → OwnedJob → Bool
may_leave now job =
    (job.done && not (is_alive job.thread)) || past_deadline now job.control.cleanup_deadline

abbrev pub outcome_verified : Option DashboardOutcome → Bool
outcome_verified none = false
outcome_verified (some outcome) = outcome.cleanup_verified

-- `joined` and `verified` of `read`.
unfoldable pub is_verified : ℕ → OwnedJob → Bool
is_verified now job =
    job.done
    && is_started job.thread
    && not (is_alive job.thread)
    && before_deadline now job.control.cleanup_deadline
    && outcome_verified job.outcome

abbrev pub put : ℕ → OwnedJob → System → System
put id job s = record s { jobs = Dict.insert id job s.jobs }

-- The end of `read` under the lock.
unfoldable pub leave : ℕ → OwnedJob → System → System
unfolding is_verified
leave id job s =
    let left = put id (record job { waiting = false }) s in
    if is_verified s.now job then record left { active = none } else record left { poisoned = true }

-- What the reader returns, if it is not cancelled.
abbrev unverified_outcome : ℕ → Option DashboardOutcome → DashboardOutcome
unverified_outcome elapsed none = record {
  code = some dashboard_cleanup_unverified;
  last_phase = none;
  elapsed = elapsed;
  cleanup_verified = false;
  markdown = none;
}
unverified_outcome elapsed (some outcome) = record {
  code = some dashboard_cleanup_unverified;
  last_phase = outcome.last_phase;
  elapsed = elapsed;
  cleanup_verified = false;
  markdown = none;
}

abbrev verified_outcome : ℕ → Option DashboardOutcome → DashboardOutcome
verified_outcome elapsed none = unverified_outcome elapsed none
verified_outcome elapsed (some outcome) = outcome

unfoldable pub answer : ℕ → ℕ → OwnedJob → DashboardOutcome
unfolding is_verified
answer elapsed now job =
    if is_verified now job
    then verified_outcome elapsed job.outcome
    else unverified_outcome elapsed job.outcome

-- The steps. Those after `refuse` are of the job that has the number `id`, whether it is active or
-- not.
pub data Step : System → System → Type 0 where
  tick : (s : System) (later : ℕ) → Step s (record s { now = s.now + later })
  -- `read` that finds the permit free.
  admit :
      (s : System) (id execution cleanup : ℕ)
      → s.active ≡ none
      → Dict.get id s.jobs ≡ none
      → Step s (record (put id (new_job s.now execution cleanup) s) { active = some id })
  -- `read` that finds it taken, and answers `refusal`.
  refuse : (s : System) (id : ℕ) → s.active ≡ some id → Step s s
  start :
      (s : System) (id : ℕ) (job : OwnedJob)
      → Dict.get id s.jobs ≡ some job
      → job.waiting ≡ true
      → job.done ≡ false
      → job.thread ≡ absent
      → Step s (put id (record job { thread = alive }) s)
  start_fails :
      (s : System) (id : ℕ) (job : OwnedJob)
      → Dict.get id s.jobs ≡ some job
      → job.waiting ≡ true
      → job.done ≡ false
      → job.thread ≡ absent
      → Step s (put id (record job { control = request_cancel s.now job.control; done = true }) s)
  -- The owner thread: the process begins its cleanup or ends its execution, any number of times;
  -- then the end of `_own`, and of the thread.
  clean_up :
      (s : System) (id : ℕ) (job : OwnedJob) (reason : Option DashboardCode)
      → Dict.get id s.jobs ≡ some job
      → job.thread ≡ alive
      → job.done ≡ false
      → Step s (put id (record job { control = begin_cleanup s.now reason job.control }) s)
  end_execution :
      (s : System) (id : ℕ) (job : OwnedJob) (reason : Option DashboardCode)
      → Dict.get id s.jobs ≡ some job
      → job.thread ≡ alive
      → job.done ≡ false
      → Step s (put id (record job { control = finish_execution s.now reason job.control }) s)
  finish :
      (s : System) (id : ℕ) (job : OwnedJob) (finished : Option DashboardOutcome) (raised : Bool)
      → Dict.get id s.jobs ≡ some job
      → job.thread ≡ alive
      → job.done ≡ false
      → Step s (put id (own s.now finished raised job) s)
  exit :
      (s : System) (id : ℕ) (job : OwnedJob)
      → Dict.get id s.jobs ≡ some job
      → job.thread ≡ alive
      → job.done ≡ true
      → Step s (put id (record job { thread = exited }) s)
  -- The reader: the timeout in `_wait_owner`, a cancellation, and its end.
  time_out :
      (s : System) (id : ℕ) (job : OwnedJob)
      → Dict.get id s.jobs ≡ some job
      → job.waiting ≡ true
      → is_launched job ≡ true
      → leb job.control.execution_deadline s.now ≡ true
      → Step s (
          put id
            (record job { control = begin_cleanup s.now (some dashboard_timeout) job.control })
            s)
  cancel :
      (s : System) (id : ℕ) (job : OwnedJob)
      → Dict.get id s.jobs ≡ some job
      → job.waiting ≡ true
      → is_launched job ≡ true
      → Step s (put id (record job { control = request_cancel s.now job.control }) s)
  depart :
      (s : System) (id : ℕ) (job : OwnedJob)
      → Dict.get id s.jobs ≡ some job
      → job.waiting ≡ true
      → is_launched job ≡ true
      → may_leave s.now job ≡ true
      → Step s (leave id job s)

pub data Reach (s : System) : System → Type 0 where
  here : Reach s s
  next : {t u : System} → Reach s t → Step t u → Reach s u
