-- ===== src/Scheduler/Due.antt =====
-- Which jobs `TrySchedule` (backend/worker/scheduler.go) starts.
use cronjob.Base.{
  ℕ, ◌≡◌, ◌∙◌, ap, Bool, true, false, ◌&&◌, ◌||◌, Option, none, some, List, [], ◌∷◌, if◌then◌else◌,
  arith, Bool-cases, inl, inr, Text, text_eq, text_eq_iff, lookup, lookup-insert, length,
}
use cronjob.Base.Time.{Time}
use cronjob.Data.{Cron, JobSchedulePlan, key_of}
use cronjob.Scheduler.{Scheduler, is_due, nearer, try_run_job, schedule_loop, try_schedule}

abbrev is_some : Option ℕ → Bool
is_some none = false
is_some (some r) = true

or_false : (a : Bool) → a ≡ (a || false)
or_false a = ground arith

or_assoc : (a b c : Bool) → ((a || b) || c) ≡ (a || (b || c))
or_assoc a b c = ground arith

module _ {E : Type 0} where
  abbrev pub is_executing : Text → Scheduler E → Bool
  is_executing k s = is_some (lookup k s.job_executing_table)

  -- The table holds a due plan of a job with this key.
  abbrev pub has_due : Time → Text → List (Text × JobSchedulePlan E) → Bool
  has_due now k [] = false
  has_due now k ((_, plan) ∷ plans) =
      is_due now plan && text_eq (key_of plan.job) k || has_due now k plans

  is_executing-try_run_job :
      (now : Time) (plan : JobSchedulePlan E) (s : Scheduler E) (k : Text)
      → is_executing k (try_run_job now plan s) ≡ (is_executing k s || text_eq (key_of plan.job) k)
  unfolding try_run_job
  is_executing-try_run_job now plan s k = ground (
    arith,
    lookup-insert (key_of plan.job) k (length s.infos) s.job_executing_table,
    text_eq_iff (key_of plan.job) k,
  )

  lookup-try_run_job :
      (now : Time) (plan : JobSchedulePlan E) (s : Scheduler E) (k : Text) {r : ℕ}
      → lookup k s.job_executing_table ≡ some r
      → lookup k (try_run_job now plan s).job_executing_table ≡ some r
  unfolding try_run_job
  lookup-try_run_job now plan s k h = ground (
    arith,
    lookup-insert (key_of plan.job) k (length s.infos) s.job_executing_table,
    text_eq_iff (key_of plan.job) k,
  )

  -- A round of the loop: the job is tried if its plan is due.
  abbrev try_due : Time → Time → JobSchedulePlan E → Scheduler E → Scheduler E
  try_due now later plan s = if is_due now plan then try_run_job later plan s else s

  is_executing-try_due :
      (now later : Time) (plan : JobSchedulePlan E) (s : Scheduler E) (k : Text)
      → is_executing k (try_due now later plan s)
        ≡ (is_executing k s || is_due now plan && text_eq (key_of plan.job) k)
  is_executing-try_due now later plan s k = elim (Bool-cases (is_due now plan)) [
    | inl due ↦ rw due (is_executing-try_run_job later plan s k)
    | inr wait ↦ rw wait (or_false (is_executing k s))
  ]

  lookup-try_due :
      (now later : Time) (plan : JobSchedulePlan E) (s : Scheduler E) (k : Text) {r : ℕ}
      → lookup k s.job_executing_table ≡ some r
      → lookup k (try_due now later plan s).job_executing_table ≡ some r
  lookup-try_due now later plan s k h = elim (Bool-cases (is_due now plan)) [
    | inl due ↦ rw due (lookup-try_run_job later plan s k h)
    | inr wait ↦ rw wait h
  ]

module _ (cron : Cron) where
  open cron use {Expression, next}

  schedule_loop-starts :
      (now later : Time) (plans : List (Text × JobSchedulePlan Expression))
      (s : Scheduler Expression) (near : Option Time) (k : Text)
      → is_executing k (schedule_loop cron now later plans s near).1
        ≡ (is_executing k s || has_due now k plans)
  unfolding schedule_loop
  schedule_loop-starts now later [] s near k = ground arith
  schedule_loop-starts now later ((j, plan) ∷ plans) s near k =
      let t = if is_due now plan then next plan.expression now else plan.next_time in
      schedule_loop-starts now later plans (try_due now later plan s) (nearer t near) k
      ∙ ap (λ b. b || has_due now k plans) (is_executing-try_due now later plan s k)
      ∙ or_assoc (is_executing k s) _ (has_due now k plans)

  -- After `TrySchedule` exactly those jobs execute that did before, and those with a due plan.
  pub try_schedule_starts :
      (now later : Time) (s : Scheduler Expression) (k : Text)
      → is_executing k (try_schedule cron now later s).0
        ≡ (is_executing k s || has_due now k s.job_plan_table)
  unfolding try_schedule
  try_schedule_starts now later s k = schedule_loop-starts now later s.job_plan_table s none k

  schedule_loop-keeps :
      (now later : Time) (plans : List (Text × JobSchedulePlan Expression))
      (s : Scheduler Expression) (near : Option Time) (k : Text) {r : ℕ}
      → lookup k s.job_executing_table ≡ some r
      → lookup k (schedule_loop cron now later plans s near).1.job_executing_table ≡ some r
  unfolding schedule_loop
  schedule_loop-keeps now later [] s near k h = h
  schedule_loop-keeps now later ((j, plan) ∷ plans) s near k h =
      let t = if is_due now plan then next plan.expression now else plan.next_time in
      schedule_loop-keeps now later plans (try_due now later plan s) (nearer t near) k
        (lookup-try_due now later plan s k h)

  -- A job that executes keeps its execution info: `TrySchedule` does not start it again.
  pub try_schedule_keeps :
      (now later : Time) (s : Scheduler Expression) (k : Text) {r : ℕ}
      → lookup k s.job_executing_table ≡ some r
      → lookup k (try_schedule cron now later s).0.job_executing_table ≡ some r
  unfolding try_schedule
  try_schedule_keeps now later s k h = schedule_loop-keeps now later s.job_plan_table s none k h
