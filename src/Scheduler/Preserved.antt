-- ===== src/Scheduler/Preserved.antt =====
-- What the operations of the scheduler keep, the schedules of a worker keep
-- (backend/worker/scheduler.go).
use cronjob.Base.{
  ℕ, ◌+◌, ◌≤◌, ◌<◌, ◌≡◌, refl, inl, inr, true, false, Option, none, some, List, [], ◌∷◌, ◌==◌,
  if◌then◌else◌, arith, Text, codes, lookup, insert, Bool-cases, ltb, ltb→lt, Option-cases,
  get_elem?,
}
use cronjob.Base.Time.{Time}
use cronjob.Data.{
  Cron, JobEtcd, EventType, JobEvent, JobExecuteResult, JobSchedulePlan, key_of,
  to_job_execute_plan,
}
use cronjob.Executor.{Environment, execute_job}
use cronjob.Executor.Pointer.{job-execute_job, execute_info-execute_job}
use cronjob.Scheduler.{
  Scheduler, try_run_job, kill_job, cancel_at, delete_plan, put_plan, is_due, nearer,
  dispatch_event, handle_job_event, schedule_loop, try_schedule,
}
use cronjob.Scheduler.System.{
  count, remove, cancel_all, push, end_goroutine, end_found, consume, Action, received, expired,
  ended, consumed, stopped, stop, System, end_turn, step, run,
}
use cronjob.Scheduler.Jobs.{
  job_at, job_at-cancel_at, job_at-cancel_all, job_at-stop_all, job_at-set, count-remove, refs,
  count-refs_snoc, live,
}

count-push :
    (q ref : ℕ) (o : Option JobExecuteResult) (chan : List JobExecuteResult)
    → ((r : JobExecuteResult) → o ≡ some r → r.execute_info ≡ ref)
    → count q (refs (push o chan)) ≤ count q (refs chan) + (if ref == q then 1 else 0)
count-push q ref none chan h = omega arith
count-push q ref (some r) chan h = ground (arith, count-refs_snoc q chan r, h r refl)

-- A goroutine that ends is no longer counted; its result is.
pub count_moved :
    (q ref : ℕ) (gs : List ℕ) (o : Option JobExecuteResult) (chan : List JobExecuteResult)
    → ((r : JobExecuteResult) → o ≡ some r → r.execute_info ≡ ref)
    → 0 < count ref gs
    → count q (remove ref gs) + count q (refs (push o chan)) ≤ count q gs + count q (refs chan)
count_moved q ref gs o chan h pos = ground (arith, count-push q ref o chan h, count-remove q ref gs)

-- A property of the executing table, the jobs of the infos and the live executions that survives a
-- run of `TryRunJob` and the handling of a result.
pub record Preserved {E : Type 0} (P : Scheduler E → Type 0) : Type 0 where
  pub same :
      (s s' : Scheduler E)
      → P s
      → s'.job_executing_table ≡ s.job_executing_table
      → ((r : ℕ) → job_at r s'.infos ≡ job_at r s.infos)
      → ((r : ℕ) → live r s' ≤ live r s)
      → P s'
  pub tried :
      (now : Time) (plan : JobSchedulePlan E) (s : Scheduler E) → P s → P (try_run_job now plan s)
  pub consumes :
      (chan : List JobExecuteResult) (w : System E)
      → w.scheduler.job_result_chan ≡ chan
      → P w.scheduler
      → P (consume chan w).scheduler

module _ {E : Type 0} (P : Scheduler E → Type 0) (keep : Preserved P) where
  pub kill_job-Preserved : (k : Text) (s : Scheduler E) → P s → P (kill_job k s)
  unfolding kill_job
  kill_job-Preserved k s x = elim (Option-cases (lookup k s.job_executing_table)) [
    | inl free ↦ rw (free, kill_job) x
    | inr (q, busy) ↦
        rw (busy, kill_job)
          (keep.same s (record s { infos = cancel_at (codes "kill") q s.infos }) x refl
            (λ r. job_at-cancel_at r q (codes "kill") s.infos) (λ r. omega arith))
  ]

  pub end_turn-Preserved : (s : Scheduler E) (w : System E) → P s → P (end_turn s w).scheduler
  unfolding end_turn
  end_turn-Preserved s w x =
      elim s.is_stoped
        as (λ b.
          P
            (if b
              then record w {
                scheduler = record s { infos = cancel_all s.job_executing_table s.infos };
                looping = false;
              }
              else record w { scheduler = s }).scheduler) [
                | true ↦
                    keep.same s (record s { infos = cancel_all s.job_executing_table s.infos }) x
                      refl (λ r. job_at-cancel_all r s.job_executing_table s.infos)
                      (λ r. omega arith)
                | false ↦ x
              ]

  pub end_found-Preserved :
      (ref : ℕ) (env : Environment) (s : Scheduler E)
      → P s
      → 0 < count ref s.goroutines
      → P (end_found ref env (get_elem? s.infos ref) s)
  unfolding end_goroutine
  end_found-Preserved ref env s x pos = elim (Option-cases (get_elem? s.infos ref)) [
    | inl none_there ↦ rw none_there x
    | inr (info, at) ↦ rw at (
        keep.same s (end_goroutine ref env info s) x refl
          (λ r.
            job_at-set r ref info (execute_job env ref info).info s.infos at
              (job-execute_job env ref info))
          (λ r.
            count_moved r ref s.goroutines (execute_job env ref info).result s.job_result_chan
              (execute_info-execute_job env ref info) pos))
  ]

module _ (cron : Cron) (P : Scheduler cron.Expression → Type 0) (keep : Preserved P) where
  open cron use {Expression, next}

  delete_plan-Preserved : (k : Text) (s : Scheduler Expression) → P s → P (delete_plan k s)
  unfolding delete_plan
  delete_plan-Preserved k s x = keep.same s (delete_plan k s) x refl (λ r. refl) (λ r. omega arith)

  put_plan-Preserved :
      (job : JobEtcd) (o : Option (JobSchedulePlan Expression)) (s : Scheduler Expression)
      → P s
      → P (put_plan cron job o s)
  put_plan-Preserved job none s x = x
  put_plan-Preserved job (some plan) s x =
      let s' = record s { job_plan_table = insert (key_of job) plan s.job_plan_table } in
      elim job.is_active as (λ b. P (if b then s' else delete_plan (key_of job) s)) [
        | true ↦ keep.same s s' x refl (λ r. refl) (λ r. omega arith)
        | false ↦ delete_plan-Preserved (key_of job) s x
      ]

  dispatch_event-Preserved :
      (now : Time) (t : EventType) (job : JobEtcd) (s : Scheduler Expression)
      → P s
      → P (dispatch_event cron now t job s)
  unfolding dispatch_event
  dispatch_event-Preserved now EventType.put job s x =
      put_plan-Preserved job (to_job_execute_plan cron job now) s x
  dispatch_event-Preserved now EventType.delete job s x = delete_plan-Preserved (key_of job) s x
  dispatch_event-Preserved now EventType.kill job s x = kill_job-Preserved P keep (key_of job) s x

  handle_job_event-Preserved :
      (now : Time) (e : JobEvent) (s : Scheduler Expression)
      → P s
      → P (handle_job_event cron now e s)
  unfolding handle_job_event
  handle_job_event-Preserved now e s x = dispatch_event-Preserved now e.event e.job s x

  schedule_loop-Preserved :
      (now later : Time) (plans : List (Text × JobSchedulePlan Expression))
      (s : Scheduler Expression) (near : Option Time)
      → P s
      → P (schedule_loop cron now later plans s near).1
  unfolding schedule_loop
  schedule_loop-Preserved now later [] s near x = x
  schedule_loop-Preserved now later ((k, plan) ∷ plans) s near x =
      let due = is_due now plan in
      let t = if due then next plan.expression now else plan.next_time in
      schedule_loop-Preserved now later plans (if due then try_run_job later plan s else s)
        (nearer t near)
        (elim due as (λ b. P (if b then try_run_job later plan s else s)) [
          | true ↦ keep.tried later plan s x
          | false ↦ x
        ])

  try_schedule-Preserved :
      (now later : Time) (s : Scheduler Expression) → P s → P (try_schedule cron now later s).0
  unfolding try_schedule
  try_schedule-Preserved now later s x =
      let s' = (schedule_loop cron now later s.job_plan_table s none).1 in
      keep.same s' (try_schedule cron now later s).0
        (schedule_loop-Preserved now later s.job_plan_table s none x) refl (λ r. refl)
        (λ r. omega arith)

  step-Preserved :
      (a : Action) (w : System Expression) → P w.scheduler → P (step cron a w).scheduler
  unfolding step stop
  step-Preserved (received now later e) w x =
      elim w.looping
        as (λ b.
          P
            (if b
              then end_turn
                  (try_schedule cron now later (handle_job_event cron now e w.scheduler)).0 w
              else w).scheduler) [
                | true ↦ end_turn-Preserved P keep _ w (
                    try_schedule-Preserved now later _
                      (handle_job_event-Preserved now e w.scheduler x))
                | false ↦ x
              ]
  step-Preserved (expired now later) w x =
      elim w.looping
        as (λ b.
          P (if b then end_turn (try_schedule cron now later w.scheduler).0 w else w).scheduler) [
            | true ↦ end_turn-Preserved P keep _ w (try_schedule-Preserved now later w.scheduler x)
            | false ↦ x
          ]
  step-Preserved (ended ref env) w x =
      elim (Bool-cases (ltb 0 (count ref w.scheduler.goroutines))) [
        | inl runs ↦ rw runs (end_found-Preserved P keep ref env w.scheduler x (ltb→lt _ _ runs))
        | inr over ↦ rw over x
      ]
  step-Preserved consumed w x = keep.consumes w.scheduler.job_result_chan w refl x
  step-Preserved stopped w x =
      keep.same w.scheduler (stop w.scheduler) x refl
        (λ r. job_at-stop_all r w.scheduler.job_executing_table w.scheduler.infos)
        (λ r. omega arith)

  pub run-Preserved :
      (actions : List Action) (w : System Expression)
      → P w.scheduler
      → P (run cron actions w).scheduler
  unfolding run
  run-Preserved [] w x = x
  run-Preserved (a ∷ actions) w x = run-Preserved actions (step cron a w) (step-Preserved a w x)
