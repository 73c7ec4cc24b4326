-- ===== src/Scheduler/Expired.antt =====
-- Plans whose expression has no instant left (backend/worker/scheduler.go, datamodels/job.go): their
-- next time is the zero time, which lies before every now.
use cronjob.Base.{
  ◌-◌, ◌<◌, ◌≡◌, refl, ◌∙◌, subst, inl, inr, Bool, true, ◌||◌, Option, none, some, List, [], ◌∷◌,
  arith, Text, text_eq, text_eq_refl, lookup, Bool-cases, min,
}
use cronjob.Base.Int.{negsuc}
use cronjob.Base.Time.{Time, zero_time, max_int64}
use cronjob.Data.{Cron, EventType, JobEtcd, JobSchedulePlan, key_of, to_job_execute_plan}
use cronjob.Scheduler.{
  Scheduler, is_due, schedule_after, handle_job_event, schedule_loop, try_schedule,
}
use cronjob.Scheduler.Wake.{AtMost, new_time, nearest-lookup}
use cronjob.Scheduler.Table.{lookup-handle_job_event}
use cronjob.Scheduler.Due.{is_executing, has_due, try_schedule_starts}

or_true : (a : Bool) → (a || true) ≡ true
or_true a = ground arith

has_due-lookup :
    {E : Type 0} (now : Time) (k : Text) (plans : List (Text × JobSchedulePlan E))
    (plan : JobSchedulePlan E)
    → lookup k plans ≡ some plan
    → is_due now plan ≡ true
    → has_due now (key_of plan.job) plans ≡ true
unfolding lookup
has_due-lookup now k [] plan h due = cc
has_due-lookup now k ((j, p) ∷ plans) plan h due = elim (Bool-cases (text_eq j k)) [
  | inl same ↦
      let e : some p ≡ some plan = rw same at h in
      let e' : p ≡ plan = cc e in rw e' (rw (due, text_eq_refl (key_of plan.job)) refl)
  | inr other ↦ ground (arith, has_due-lookup now k plans plan (rw other at h) due)
]

zero-is_due :
    {E : Type 0} (now : Time) (plan : JobSchedulePlan E)
    → plan.next_time ≡ zero_time
    → is_due now plan ≡ true
zero-is_due now plan e = ground arith

-- At most the zero time ahead: the wait is over before it begins.
schedule_after-zero :
    (now : Time) (near : Option Time)
    → 0 < now
    → AtMost near zero_time
    → schedule_after now near ≡ negsuc (min (now - 1) max_int64)
unfolding schedule_after
schedule_after-zero now none pos_now a = elim a [ ]
schedule_after-zero now (some n) pos_now a = ground arith

module _ (cron : Cron) where
  open cron use {Expression, parse, next}

  starts_due :
      (now later : Time) (s : Scheduler Expression) (k : Text)
      → has_due now k s.job_plan_table ≡ true
      → is_executing k (try_schedule cron now later s).0 ≡ true
  starts_due now later s k due =
      try_schedule_starts cron now later s k ∙ (rw due (or_true (is_executing k s)))

  -- A plan that stands at the zero time, and whose expression has no instant after now, is started
  -- unless its job executes, and `TrySchedule` asks to be called again after a negative time.
  overdue :
      (now later : Time) (s : Scheduler Expression) (k : Text) (plan : JobSchedulePlan Expression)
      → 0 < now
      → lookup k s.job_plan_table ≡ some plan
      → plan.next_time ≡ zero_time
      → next plan.expression now ≡ zero_time
      → (is_executing (key_of plan.job) (try_schedule cron now later s).0 ≡ true)
        × ((try_schedule cron now later s).1 ≡ negsuc (min (now - 1) max_int64))
  unfolding try_schedule
  overdue now later s k plan pos_now there zero_next no_next =
      let near = (schedule_loop cron now later s.job_plan_table s none).2 in
      let at_zero : new_time cron now plan ≡ zero_time = ground arith in
      (
        starts_due now later s (key_of plan.job)
            (has_due-lookup now k s.job_plan_table plan there (zero-is_due now plan zero_next)),
        schedule_after-zero now near pos_now (
            subst (AtMost near) at_zero
              (nearest-lookup cron now later s.job_plan_table s none k plan there)),
      )

  planned_now :
      (now : Time) (job : JobEtcd) (e : Expression) (s : Scheduler Expression)
      → job.is_active ≡ true
      → parse job.time ≡ some e
      → lookup
          (key_of job)
          (handle_job_event cron now (record { event = EventType.put; job = job }) s).job_plan_table
        ≡ some (record { job = job; expression = e; next_time = next e now })
  unfolding to_job_execute_plan
  planned_now now job e s active parsed =
      lookup-handle_job_event cron now (record { event = EventType.put; job = job }) s (key_of job)
      ∙ ground (arith, text_eq_refl (key_of job))

  -- An active job whose time is readable but has no instant left, then and at the next turn, is
  -- started at once by the `TrySchedule` that follows its event, if its clock is past the zero time,
  -- and the timer is set to a negative time.
  pub expired_job_starts :
      (now now' later : Time) (job : JobEtcd) (e : Expression) (s : Scheduler Expression)
      → 0 < now'
      → job.is_active ≡ true
      → parse job.time ≡ some e
      → next e now ≡ zero_time
      → next e now' ≡ zero_time
      → let s' = handle_job_event cron now (record { event = EventType.put; job = job }) s in
        (is_executing (key_of job) (try_schedule cron now' later s').0 ≡ true)
        × ((try_schedule cron now' later s').1 ≡ negsuc (min (now' - 1) max_int64))
  expired_job_starts now now' later job e s pos_now active parsed none_left none_left' =
      let s' = handle_job_event cron now (record { event = EventType.put; job = job }) s in
      let plan : JobSchedulePlan Expression = record {
        job = job;
        expression = e;
        next_time = next e now;
      } in
      overdue now' later s' (key_of job) plan pos_now (planned_now now job e s active parsed)
        none_left none_left'
