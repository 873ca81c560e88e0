-- ===== src/Dashboard/Protocol.antt =====
-- The outcome of a dashboard read and the phases that its worker reports
-- (src/agent/dashboard_protocol.py), and the deadline of its job (`DashboardJobControl` of
-- src/agent/dashboard_process.py). A time is a number of ticks.
use matryca_plumber.Prelude.{ℕ, ◌+◌, Bool, true, false, Option, none, some, leb, if◌then◌else◌}
use matryca_plumber.Prelude.Text.{Text}

pub data DashboardCode : Type 0 where
  dashboard_timeout dashboard_busy dashboard_worker_failed dashboard_protocol_error
        dashboard_output_overflow dashboard_cleanup_unverified dashboard_platform_unsupported :
      DashboardCode

pub data DashboardPhase : Type 0 where
  discover stat load_ast ids refs format complete : DashboardPhase

pub record DashboardOutcome : Type 0 where
  pub code : Option DashboardCode
  pub last_phase : Option DashboardPhase
  pub elapsed : ℕ
  pub cleanup_verified : Bool
  pub markdown : Option Text

-- What the caller is shown: the content, or the fixed fields of a failure.
pub data PublicText : Type 0 where
  content : Text → PublicText
  failure : DashboardCode → Option DashboardPhase → ℕ → Bool → PublicText

abbrev pub or_code : DashboardCode → Option DashboardCode → DashboardCode
or_code default none = default
or_code default (some code) = code

abbrev pub shown : DashboardOutcome → Option DashboardCode → Bool → Option Text → PublicText
shown outcome none true (some markdown) = content markdown
shown outcome code verified markdown =
    failure (or_code dashboard_cleanup_unverified code) outcome.last_phase outcome.elapsed verified

unfoldable pub public_text : DashboardOutcome → PublicText
public_text outcome = shown outcome outcome.code outcome.cleanup_verified outcome.markdown

pub record DashboardJobControl : Type 0 where
  pub execution_deadline : ℕ
  pub cleanup_time : ℕ
  pub cleanup_deadline : Option ℕ
  pub reason : Option DashboardCode
  pub cancelled : Bool

abbrev pub new_control : ℕ → ℕ → ℕ → DashboardJobControl
new_control now execution cleanup = record {
  execution_deadline = now + execution;
  cleanup_time = cleanup;
  cleanup_deadline = none;
  reason = none;
  cancelled = false;
}

abbrev with_deadline :
    ℕ → Option DashboardCode → Option ℕ → DashboardJobControl → DashboardJobControl
with_deadline now reason (some deadline) control = control
with_deadline now reason none control = record control {
  cleanup_deadline = some (now + control.cleanup_time);
  reason = reason;
}

unfoldable pub begin_cleanup : ℕ → Option DashboardCode → DashboardJobControl → DashboardJobControl
begin_cleanup now reason control = with_deadline now reason control.cleanup_deadline control

-- The control; its `reason` and `cleanup_deadline` are what the source returns.
unfoldable pub finish_execution :
    ℕ → Option DashboardCode → DashboardJobControl → DashboardJobControl
finish_execution now reason control =
    with_deadline now
      (if leb control.execution_deadline now then some dashboard_timeout else reason)
      control.cleanup_deadline control

unfoldable pub request_cancel : ℕ → DashboardJobControl → DashboardJobControl
unfolding begin_cleanup
request_cancel now control =
    let stopping = begin_cleanup now (some dashboard_worker_failed) control in
    record stopping { cancelled = true }

unfoldable pub stopped : ℕ → DashboardJobControl → DashboardJobControl × Bool
unfolding begin_cleanup
stopped now control =
    if leb control.execution_deadline now
    then (begin_cleanup now (some dashboard_timeout) control, true)
    else (control, control.cancelled)
