-- ===== src/Scheduler.antt =====
-- The scheduler of a worker (backend/worker/scheduler.go). Plans and execution infos are shared by
-- pointers: an info is an index into `infos`, the plans are reached through the table alone. The
-- goroutines that `ExecuteJob` starts are listed by the info that they work on, and the channel of
-- results by the infos of the results that wait in it.
pub mod Table
pub mod Wake
pub mod Due
pub mod System
mod Jobs
mod Exclusive
mod Preserved
pub mod Runs
pub mod Stuck
pub mod Expired
pub mod Kill
mod Tests
use cronjob.Base.{
  ℕ, zero, suc, ◌+◌, Bool, true, false, ◌||◌, Option, none, some, List, [], ◌∷◌, ◌++◌, ltb, ◌==◌,
  length, get_elem?, set, if◌then◌else◌, Text, codes, Assoc, lookup, insert, delete,
}
use cronjob.Base.Int.{ℤ, pos, ltb_ℤ}
use cronjob.Base.Time.{Time, second, minute, sub_time}
use cronjob.Data.{
  Cron, JobEtcd, EventType, JobEvent, JobSchedulePlan, JobExecuteInfo, JobExecuteResult, key_of,
  cancel_with, to_job_execute_plan, build_job_execute_info,
}

pub record Scheduler (E : Type 0) : Type 0 where
  pub job_plan_table : Assoc (JobSchedulePlan E)
  pub job_executing_table : Assoc ℕ
  pub infos : List JobExecuteInfo
  pub goroutines : List ℕ
  pub job_result_chan : List JobExecuteResult
  pub is_stoped : Bool

-- `NewScheduler`
unfoldable pub new_scheduler : {E : Type 0} → Scheduler E
new_scheduler = record {
  job_plan_table = [];
  job_executing_table = [];
  infos = [];
  goroutines = [];
  job_result_chan = [];
  is_stoped = false;
}

-- `info.Status = status; info.ExceteCancelFun()`, through the pointer.
unfoldable pub cancel_at : Text → ℕ → List JobExecuteInfo → List JobExecuteInfo
unfolding cancel_with
cancel_at status zero [] = []
cancel_at status (suc r) [] = []
cancel_at status zero (i ∷ is) = cancel_with status i ∷ is
cancel_at status (suc r) (i ∷ is) = i ∷ cancel_at status r is

-- `if nearTime == nil || t.Before(*nearTime) { nearTime = &t }`
unfoldable pub nearer : Time → Option Time → Option Time
nearer t none = some t
nearer t (some u) = if ltb t u then some t else some u

-- What follows the loop: the time to the nearest plan, at most a minute.
unfoldable pub schedule_after : Time → Option Time → ℤ
unfolding sub_time
schedule_after now none = pos second
schedule_after now (some near) =
    let d = sub_time near now in if ltb_ℤ (pos minute) d then pos minute else d

module _ {E : Type 0} where
  -- `TryRunJob`: a job that is executing is passed over. `now` is read by `BuildJobExecuteInfo`.
  unfoldable pub try_run_job : Time → JobSchedulePlan E → Scheduler E → Scheduler E
  unfolding build_job_execute_info
  try_run_job now plan s = elim (lookup (key_of plan.job) s.job_executing_table) [
    | some r ↦ s
    | none ↦ record s {
      infos = s.infos ++ build_job_execute_info plan now ∷ [];
      job_executing_table = insert (key_of plan.job) (length s.infos) s.job_executing_table;
      goroutines = length s.infos ∷ s.goroutines;
    }
  ]

  -- `HandlerJobExecuteResult`: the execution is over; the result is posted to the master if the
  -- job was executed, and what the master answers is only logged.
  unfoldable pub handle_job_execute_result :
      JobExecuteResult → Scheduler E → Scheduler E × Option JobExecuteResult
  handle_job_execute_result result s = elim (get_elem? s.infos result.execute_info) [
    | none ↦ (s, none)
    | some info ↦ (
      record s { job_executing_table = delete (key_of info.job) s.job_executing_table },
      if result.is_executed then some result else none,
    )
  ]

  -- The `kill` case of `handleJobEvent`.
  unfoldable pub kill_job : Text → Scheduler E → Scheduler E
  unfolding cancel_at
  kill_job key s = elim (lookup key s.job_executing_table) [
    | none ↦ s
    | some r ↦ record s { infos = cancel_at (codes "kill") r s.infos }
  ]

  -- Go deletes a key that is there and a key that is not alike.
  unfoldable pub delete_plan : Text → Scheduler E → Scheduler E
  delete_plan key s = record s { job_plan_table = delete key s.job_plan_table }

  -- Before(now) or Equal(now)
  abbrev pub is_due : Time → JobSchedulePlan E → Bool
  is_due now plan = ltb plan.next_time now || plan.next_time == now

module _ (cron : Cron) where
  open cron use {Expression, next}

  abbrev pub put_plan :
      JobEtcd → Option (JobSchedulePlan Expression) → Scheduler Expression → Scheduler Expression
  put_plan job none s = s
  put_plan job (some plan) s =
      if job.is_active
      then record s { job_plan_table = insert (key_of job) plan s.job_plan_table }
      else delete_plan (key_of job) s

  -- The `switch` of `handleJobEvent`.
  unfoldable pub dispatch_event :
      Time → EventType → JobEtcd → Scheduler Expression → Scheduler Expression
  unfolding kill_job delete_plan to_job_execute_plan
  dispatch_event now EventType.put job s = put_plan job (to_job_execute_plan cron job now) s
  dispatch_event now EventType.delete job s = delete_plan (key_of job) s
  dispatch_event now EventType.kill job s = kill_job (key_of job) s

  unfoldable pub handle_job_event : Time → JobEvent → Scheduler Expression → Scheduler Expression
  unfolding dispatch_event
  handle_job_event now e s = dispatch_event now e.event e.job s

  -- The loop of `TrySchedule` over the plan table: the entries with their new times, the scheduler,
  -- and the nearest time. `later` is the clock of `BuildJobExecuteInfo`.
  unfoldable pub schedule_loop :
      Time
      → Time
      → List (Text × JobSchedulePlan Expression)
      → Scheduler Expression
      → Option Time
      → List (Text × JobSchedulePlan Expression) × Scheduler Expression × Option Time
  unfolding try_run_job nearer
  schedule_loop now later [] s near = ([], s, near)
  schedule_loop now later ((k, plan) ∷ plans) s near =
      let due = is_due now plan in
      let s' = if due then try_run_job later plan s else s in
      let plan' = record plan {
        next_time = if due then next plan.expression now else plan.next_time;
      } in
      let (plans', s'', near') = schedule_loop now later plans s' (nearer plan'.next_time near) in
      ((k, plan') ∷ plans', s'', near')

  abbrev store_plans :
      List (Text × JobSchedulePlan Expression) × Scheduler Expression × Option Time
      → Scheduler Expression × Option Time
  store_plans (plans, s, near) = (record s { job_plan_table = plans }, near)

  -- `TrySchedule`: the new state, and the time after which it is to be called again.
  unfoldable pub try_schedule : Time → Time → Scheduler Expression → Scheduler Expression × ℤ
  unfolding schedule_loop schedule_after
  try_schedule now later s =
      let (s', near) = store_plans (schedule_loop now later s.job_plan_table s none) in
      (s', schedule_after now near)
