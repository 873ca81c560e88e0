-- ===== src/Dashboard/Permit.antt =====
-- The permit as readers see it: it is free, taken by a job, or lost for good. The system of jobs
-- refines it.
use matryca_plumber.Prelude.{
  ℕ, ◌≡◌, ◌≢◌, inl, inr, refl, Bool, true, false, Option, none, some, Bool-cases, nat_eq,
}
use matryca_plumber.Dashboard.Protocol.{dashboard_cleanup_unverified}
use matryca_plumber.Dashboard.Jobs.{
  OwnedJob, System, initial, Step, tick, admit, refuse, start, start_fails, clean_up, end_execution,
  finish, exit, time_out, cancel, depart, Reach, here, next, is_verified, leave, refusal,
}
use matryca_plumber.Dashboard.Owners.{
  IsSound, Step-IsSound, Reach-IsSound, waiting-active, unpoisoned,
}

pub data Permit : Type 0 where
  free : Permit
  taken lost : ℕ → Permit

-- A free permit is taken by a job, and a taken one is given back or lost by the same job.
pub data Move : Permit → Permit → Type 0 where
  stay : (p : Permit) → Move p p
  take : (id : ℕ) → Move free (taken id)
  give_back : (id : ℕ) → Move (taken id) free
  lose : (id : ℕ) → Move (taken id) (lost id)

abbrev pub held_permit : ℕ → Bool → Permit
held_permit id false = taken id
held_permit id true = lost id

abbrev pub permit_of : Option ℕ → Bool → Permit
permit_of none poisoned = free
permit_of (some id) poisoned = held_permit id poisoned

abbrev pub permit : System → Permit
permit s = permit_of s.active s.poisoned

leave-Move :
    (s : System) (id : ℕ) (job : OwnedJob)
    → s.active ≡ some id
    → s.poisoned ≡ false
    → Move (permit s) (permit (leave id job s))
unfolding leave
leave-Move s id job a p = elim (Bool-cases (is_verified s.now job)) [
  | inl good ↦ simp (good, a, p) (give_back id)
  | inr bad ↦ simp (bad, a, p) (lose id)
]

Step-Move : {s t : System} → Step s t → IsSound s → Move (permit s) (permit t)
Step-Move (tick s later) v = stay _
Step-Move (admit s id execution cleanup unheld unused) v =
    simp (unheld, unpoisoned s unheld v) (take id)
Step-Move (refuse s id a) v = stay _
Step-Move (start s id job h w d t) v = stay _
Step-Move (start_fails s id job h w d t) v = stay _
Step-Move (clean_up s id job reason h t d) v = stay _
Step-Move (end_execution s id job reason h t d) v = stay _
Step-Move (finish s id job finished raised h t d) v = stay _
Step-Move (exit s id job h t d) v = stay _
Step-Move (time_out s id job h w l e) v = stay _
Step-Move (cancel s id job h w l) v = stay _
Step-Move (depart s id job h w l m) v =
    leave-Move s id job (waiting-active s id job v h w) (v.held id job h w)

-- From the start of the process on, every step of readers, owner threads and the clock is a move
-- of the permit: a job takes it when it is free, the job that has it gives it back or loses it, and
-- nothing else.
pub Step-refines :
    {now : ℕ} {s t : System} → Reach (initial now) s → Step s t → Move (permit s) (permit t)
Step-refines r step = Step-Move step (Reach-IsSound r)

not_lost : {id : ℕ} → ◌≡◌ {A = Permit} free (lost id) → ⊥
not_lost h = cc h

not_taken : {id k : ℕ} → ◌≡◌ {A = Permit} (taken k) (lost id) → ⊥
not_taken h = cc h

lost-final : {p q : Permit} {id : ℕ} → Move p q → p ≡ lost id → q ≡ lost id
lost-final (stay p) h = h
lost-final (take k) h = absurd (not_lost h)
lost-final (give_back k) h = absurd (not_taken h)
lost-final (lose k) h = absurd (not_taken h)

later-lost :
    {s t : System} {id : ℕ}
    → Reach s t
    → IsSound s
    → permit s ≡ lost id
    → IsSound t × (permit t ≡ lost id)
later-lost here v h = (v, h)
later-lost (next r step) v h =
    let (w, k) = later-lost r v h in (Step-IsSound step w, lost-final (Step-Move step w) k)

lost-poisoned : (active : Option ℕ) (b : Bool) (id : ℕ) → permit_of active b ≡ lost id → b ≡ true
lost-poisoned none b id h = absurd (not_lost h)
lost-poisoned (some k) true id h = refl
lost-poisoned (some k) false id h = absurd (not_taken h)

-- Once a job has lost the permit it stays lost, whatever is called and however long: no read is
-- admitted, and each is told that the cleanup is unverified.
pub lost_refuses :
    {now : ℕ} {s t : System} {id : ℕ}
    → Reach (initial now) s
    → permit s ≡ lost id
    → Reach s t
    → (permit t ≡ lost id)
      × (t.active ≢ none)
      × ((refusal t.poisoned).code ≡ some dashboard_cleanup_unverified)
unfolding refusal
lost_refuses {now} {s} {t} {id} r h later =
    let (v, k) = later-lost later (Reach-IsSound r) h in
    let p : t.poisoned ≡ true = lost-poisoned t.active t.poisoned id k in
    (k, v.retained p, simp p refl)
