-- ===== src/Dashboard/Owners.antt =====
-- The invariant of the system of jobs: all but the active one are over.
use matryca_plumber.Prelude.{
  ℕ, ◌≡◌, ◌≢◌, ◌⊎◌, inl, inr, refl, sym, subst, ap, ◌∙◌, Bool, true, false, Option, none, some,
  some_inj, Bool-cases, ◌==◌, nat_eq, ==_iff, arith,
}
use matryca_plumber.Prelude.Dict
use matryca_plumber.Dashboard.Protocol.{DashboardOutcome}
use matryca_plumber.Dashboard.Jobs.{
  OwnedJob, System, initial, put, Step, tick, admit, refuse, start, start_fails, clean_up,
  end_execution, finish, exit, time_out, cancel, depart, Reach, here, next, OwnerThread, exited,
  alive, absent, is_alive, outcome_verified, is_verified, is_started, leave, own,
}

-- The owner of the job has ended, its cleanup is verified, and its reader has left.
pub record IsOver (job : OwnedJob) : Type 0 where
  pub done : job.done ≡ true
  pub ended : job.thread ≡ exited
  pub verified : outcome_verified job.outcome ≡ true
  pub left : job.waiting ≡ false

pub record IsSound (s : System) : Type 0 where
  pub held :
      (id : ℕ) (job : OwnedJob)
      → Dict.get id s.jobs ≡ some job
      → job.waiting ≡ true
      → s.poisoned ≡ false
  pub retained : s.poisoned ≡ true → s.active ≢ none
  pub current :
      (id : ℕ) (job : OwnedJob) → Dict.get id s.jobs ≡ some job → (s.active ≡ some id) ⊎ IsOver job

no_job : {job : OwnedJob} → ◌≡◌ {A = Option OwnedJob} none (some job) → ⊥
no_job h = cc h

not_none : {o : Option ℕ} {id : ℕ} → o ≡ some id → o ≡ none → ⊥
not_none h k = cc

pub kept : {b : Bool} → b ≡ false → b ≡ true → ⊥
kept h k = cc

not_exited : alive ≡ exited → ⊥
not_exited h = cc

initial-IsSound : (now : ℕ) → IsSound (initial now)
unfolding Dict.get
initial-IsSound now = record {
  held = λ id job h. absurd (no_job h);
  retained = λ h. cc;
  current = λ id job h. absurd (no_job h);
}

thread-exited : (t : OwnerThread) → is_started t ≡ true → is_alive t ≡ false → t ≡ exited
thread-exited absent h k = cc
thread-exited alive h k = cc
thread-exited exited h k = refl

verified-IsOver :
    (now : ℕ) (job : OwnedJob)
    → is_verified now job ≡ true
    → IsOver (record job { waiting = false })
unfolding is_verified
verified-IsOver now job h = record {
  done = ground arith;
  ended = thread-exited job.thread (ground arith) (ground arith);
  verified = ground arith;
  left = refl;
}

pub unpoisoned : (s : System) → s.active ≡ none → IsSound s → s.poisoned ≡ false
unpoisoned s h v = elim (Bool-cases s.poisoned) [
  | inl bad ↦ absurd (v.retained bad h)
  | inr good ↦ good
]

-- A job whose reader waits, or whose thread is alive, is the active one.
pub waiting-active :
    (s : System) (id : ℕ) (job : OwnedJob)
    → IsSound s
    → Dict.get id s.jobs ≡ some job
    → job.waiting ≡ true
    → s.active ≡ some id
waiting-active s id job v h w = elim (v.current id job h) [
  | inl active ↦ active
  | inr over ↦ absurd (kept over.left w)
]

alive-active :
    (s : System) (id : ℕ) (job : OwnedJob)
    → IsSound s
    → Dict.get id s.jobs ≡ some job
    → job.thread ≡ alive
    → s.active ≡ some id
alive-active s id job v h w = elim (v.current id job h) [
  | inl active ↦ active
  | inr over ↦ absurd (not_exited (sym w ∙ over.ended))
]

-- A job of the system after a job was put into it: that one, or one from before.
put-get :
    (s : System) (id k : ℕ) (later j : OwnedJob)
    → Dict.get k (put id later s).jobs ≡ some j
    → ((id ≡ k) × (later ≡ j)) ⊎ ((id ≢ k) × (Dict.get k s.jobs ≡ some j))
put-get s id k later j h = elim (Bool-cases (id == k)) [
  | inl same ↦
      let found : Dict.get k (put id later s).jobs ≡ some later =
        Dict.get-insert id k later s.jobs ∙ (simp same refl) in
      inl ((==_iff id k).0 same, some_inj (sym found ∙ h))
  | inr other ↦
      let passed : Dict.get k (put id later s).jobs ≡ Dict.get k s.jobs =
        Dict.get-insert id k later s.jobs ∙ (simp other refl) in
      inr (λ e. kept other ((==_iff id k).1 e), sym passed ∙ h)
]

-- The active job is replaced by another version of it.
renewed-IsSound :
    (s : System) (id : ℕ) (job later : OwnedJob)
    → IsSound s
    → Dict.get id s.jobs ≡ some job
    → s.active ≡ some id
    → later.waiting ≡ job.waiting
    → IsSound (put id later s)
renewed-IsSound s id job later v there active same = record {
  held = λ k j h w. elim (put-get s id k later j h) [
    | inl (e, f) ↦ v.held id job there (sym same ∙ ap (λ o. o.waiting) f ∙ w)
    | inr (apart, before) ↦ v.held k j before w
  ];
  retained = v.retained;
  current = λ k j h. elim (put-get s id k later j h) [
    | inl (e, f) ↦ inl (active ∙ ap some e)
    | inr (apart, before) ↦ v.current k j before
  ];
}

-- The other jobs than the active one are over.
others-IsOver :
    (s : System) (id k : ℕ) (j : OwnedJob)
    → IsSound s
    → s.active ≡ some id
    → Dict.get k s.jobs ≡ some j
    → (id ≡ k) ⊎ IsOver j
others-IsOver s id k j v active h = elim (v.current k j h) [
  | inl same ↦ inl (some_inj (sym active ∙ same))
  | inr over ↦ inr over
]

admitted-IsSound :
    (s : System) (id : ℕ) (job : OwnedJob)
    → IsSound s
    → s.active ≡ none
    → IsSound (record (put id job s) { active = some id })
admitted-IsSound s id job v unheld = record {
  held = λ k j h w. unpoisoned s unheld v;
  retained = λ h e. cc;
  current = λ k j h. elim (put-get s id k job j h) [
    | inl (e, f) ↦ inl (ap some e)
    | inr (apart, before) ↦ elim (v.current k j before) [
      | inl active ↦ absurd (not_none active unheld)
      | inr over ↦ inr over
    ]
  ];
}

-- The reader of the active job leaves, and keeps the permit or gives it back.
lost-IsSound :
    (s : System) (id : ℕ) (job : OwnedJob)
    → IsSound s
    → s.active ≡ some id
    → IsSound (record (put id (record job { waiting = false }) s) { poisoned = true })
lost-IsSound s id job v active = record {
  held = λ k j h w. elim (put-get s id k (record job { waiting = false }) j h) [
    | inl (e, f) ↦ absurd (kept (ap (λ o. o.waiting) (sym f)) w)
    | inr (apart, before) ↦ elim (others-IsOver s id k j v active before) [
      | inl e ↦ absurd (apart e)
      | inr over ↦ absurd (kept over.left w)
    ]
  ];
  retained = λ h e. not_none active e;
  current = λ k j h. elim (put-get s id k (record job { waiting = false }) j h) [
    | inl (e, f) ↦ inl (active ∙ ap some e)
    | inr (apart, before) ↦ v.current k j before
  ];
}

freed-IsSound :
    (s : System) (id : ℕ) (job : OwnedJob)
    → IsSound s
    → s.active ≡ some id
    → s.poisoned ≡ false
    → IsOver (record job { waiting = false })
    → IsSound (record (put id (record job { waiting = false }) s) { active = none })
freed-IsSound s id job v active good over = record {
  held = λ k j h w. good;
  retained = λ h. absurd (kept good h);
  current = λ k j h. elim (put-get s id k (record job { waiting = false }) j h) [
    | inl (e, f) ↦ inr (subst IsOver f over)
    | inr (apart, before) ↦ elim (others-IsOver s id k j v active before) [
      | inl e ↦ absurd (apart e)
      | inr ended ↦ inr ended
    ]
  ];
}

leave-IsSound :
    (s : System) (id : ℕ) (job : OwnedJob)
    → IsSound s
    → Dict.get id s.jobs ≡ some job
    → job.waiting ≡ true
    → IsSound (leave id job s)
unfolding leave
leave-IsSound s id job v there w = elim (Bool-cases (is_verified s.now job)) [
  | inl good ↦ simp good (
      freed-IsSound s id job v (waiting-active s id job v there w) (v.held id job there w)
        (verified-IsOver s.now job good))
  | inr bad ↦ simp bad (lost-IsSound s id job v (waiting-active s id job v there w))
]

own-waiting :
    (now : ℕ) (finished : Option DashboardOutcome) (raised : Bool) (job : OwnedJob)
    → (own now finished raised job).waiting ≡ job.waiting
unfolding own
own-waiting now finished true job = refl
own-waiting now finished false job = refl

pub Step-IsSound : {s t : System} → Step s t → IsSound s → IsSound t
Step-IsSound (tick s later) v = record { held = v.held; retained = v.retained; current = v.current }
Step-IsSound (admit s id execution cleanup unheld unused) v = admitted-IsSound s id _ v unheld
Step-IsSound (refuse s id a) v = v
Step-IsSound (start s id job h w d t) v =
    renewed-IsSound s id job _ v h (waiting-active s id job v h w) refl
Step-IsSound (start_fails s id job h w d t) v =
    renewed-IsSound s id job _ v h (waiting-active s id job v h w) refl
Step-IsSound (clean_up s id job reason h t d) v =
    renewed-IsSound s id job _ v h (alive-active s id job v h t) refl
Step-IsSound (end_execution s id job reason h t d) v =
    renewed-IsSound s id job _ v h (alive-active s id job v h t) refl
Step-IsSound (finish s id job finished raised h t d) v =
    renewed-IsSound s id job _ v h (alive-active s id job v h t)
      (own-waiting s.now finished raised job)
Step-IsSound (exit s id job h t d) v =
    renewed-IsSound s id job _ v h (alive-active s id job v h t) refl
Step-IsSound (time_out s id job h w l e) v =
    renewed-IsSound s id job _ v h (waiting-active s id job v h w) refl
Step-IsSound (cancel s id job h w l) v =
    renewed-IsSound s id job _ v h (waiting-active s id job v h w) refl
Step-IsSound (depart s id job h w l m) v = leave-IsSound s id job v h w

pub Reach-IsSound : {now : ℕ} {s : System} → Reach (initial now) s → IsSound s
Reach-IsSound {now} here = initial-IsSound now
Reach-IsSound (next r step) = Step-IsSound step (Reach-IsSound r)

-- Whatever was admitted, refused, cancelled or left behind before: two jobs whose owner threads are
-- alive are the same job.
pub one_owner :
    {now : ℕ} {s : System} (i j : ℕ) (a b : OwnedJob)
    → Reach (initial now) s
    → Dict.get i s.jobs ≡ some a
    → Dict.get j s.jobs ≡ some b
    → a.thread ≡ alive
    → b.thread ≡ alive
    → i ≡ j
one_owner {now} {s} i j a b r here_i here_j alive_i alive_j =
    let v = Reach-IsSound r in
    some_inj (sym (alive-active s i a v here_i alive_i) ∙ alive-active s j b v here_j alive_j)
