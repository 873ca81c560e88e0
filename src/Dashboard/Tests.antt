-- ===== src/Dashboard/Tests.antt =====
-- A read that is cancelled and left behind, and one that ends well.
use matryca_plumber.Prelude.{ℕ, ◌≡◌, ◌≢◌, refl, true, false, none, some, [], ◌∷◌, nat_eq}
use matryca_plumber.Prelude.Text.{text}
use matryca_plumber.Prelude.Dict
use matryca_plumber.Dashboard.Protocol.{
  dashboard_cleanup_unverified, DashboardOutcome, request_cancel, content, public_text,
  finish_execution,
}
use matryca_plumber.Dashboard.Jobs
use matryca_plumber.Dashboard.Jobs.{
  OwnedJob, System, initial, new_job, alive, exited, own, leave, put, refusal, answer, Step, tick,
  admit, start, end_execution, finish, exit, cancel, depart, Reach, here, next,
}
use matryca_plumber.Dashboard.Permit.{lost, Move, permit, Step-refines, lost_refuses}
use matryca_plumber.Dashboard.Owners.{one_owner}

abbrev fresh : OwnedJob
fresh = new_job 0 10 5

abbrev running : OwnedJob
running = record fresh { thread = alive }

abbrev cancelled : OwnedJob
cancelled = record running { control = request_cancel 0 running.control }

abbrev admitted : System
admitted = record (initial 0) { active = some 8; jobs = (8, fresh) ∷ [] }

abbrev started : System
started = record admitted { jobs = (8, running) ∷ [] }

abbrev late : System
late = record started { jobs = (8, cancelled) ∷ []; now = 5 }

started-Reach : Reach (initial 0) started
unfolding Dict.insert Dict.get
started-Reach =
    next (next here (admit (initial 0) 8 10 5 refl refl))
      (start admitted 8 fresh refl refl refl refl)

late-Reach : Reach (initial 0) late
unfolding Dict.insert Dict.get
late-Reach =
    next (next started-Reach (cancel started 8 running refl refl refl))
      (tick (record started { jobs = (8, cancelled) ∷ [] }) 5)

late_departs : Step late (leave 8 cancelled late)
unfolding Jobs.may_leave request_cancel Dict.get
late_departs = depart late 8 cancelled refl refl refl refl

abandoned_lost : permit (leave 8 cancelled late) ≡ lost 8
unfolding leave request_cancel
abandoned_lost = refl

abbrev good : DashboardOutcome
good = record {
  code = none;
  last_phase = none;
  elapsed = 3;
  cleanup_verified = true;
  markdown = some (text "page");
}

abbrev cleaning : OwnedJob
cleaning = record running { control = finish_execution 0 none running.control }

abbrev ended : OwnedJob
ended = own 0 (some good) false cleaning

abbrev closed : OwnedJob
closed = record ended { thread = exited }

abbrev with_job : OwnedJob → System
with_job job = record started { jobs = (8, job) ∷ [] }

closing-Reach : Reach (initial 0) (with_job closed)
unfolding own Dict.insert Dict.get finish_execution
closing-Reach =
    next
      (next (next started-Reach (end_execution started 8 running none refl refl refl))
        (finish (with_job cleaning) 8 cleaning (some good) false refl refl refl))
      (exit (with_job ended) 8 ended refl refl refl)

closing_departs : Step (with_job closed) (leave 8 closed (with_job closed))
unfolding Jobs.may_leave own finish_execution Dict.get
closing_departs = depart (with_job closed) 8 closed refl refl refl refl

answer_runs : public_text (answer 4 0 closed) ≡ content (text "page")
unfolding answer own public_text finish_execution
answer_runs = refl

Step-refines_example : Move (permit (with_job closed)) (permit (leave 8 closed (with_job closed)))
Step-refines_example = Step-refines closing-Reach closing_departs

lost_refuses_example :
    (permit (leave 8 cancelled late) ≡ lost 8)
    × ((leave 8 cancelled late).active ≢ none)
    × ((refusal (leave 8 cancelled late).poisoned).code ≡ some dashboard_cleanup_unverified)
lost_refuses_example = lost_refuses (next late-Reach late_departs) abandoned_lost here

one_owner_example : ◌≡◌ {A = ℕ} 8 8
unfolding Dict.get
one_owner_example = one_owner 8 8 cancelled cancelled late-Reach refl refl refl refl
