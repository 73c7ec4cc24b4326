-- ===== src/Scheduler/Table.antt =====
-- The plan table under the events of jobs (backend/worker/scheduler.go, `handleJobEvent`).
use cronjob.Base.{
  ◌≡◌, Option, none, some, if◌then◌else◌, arith, Text, text_eq, lookup, lookup-insert,
  lookup-delete,
}
use cronjob.Base.Time.{Time}
use cronjob.Data.{Cron, JobEtcd, EventType, JobEvent, JobSchedulePlan, key_of, to_job_execute_plan}
use cronjob.Scheduler.{Scheduler, handle_job_event, delete_plan, put_plan}

module _ (cron : Cron) where
  open cron use {Expression}

  -- What an event leaves under its job's key: an active job with a readable time is planned from
  -- now on, an inactive or a deleted one is not planned, and anything else changes nothing.
  abbrev pub planned :
      Time → JobEvent → Option (JobSchedulePlan Expression) → Option (JobSchedulePlan Expression)
  planned now e old = elim e.event [
    | EventType.put ↦ elim (to_job_execute_plan cron e.job now) [
      | none ↦ old
      | some plan ↦ if e.job.is_active then some plan else none
    ]
    | EventType.delete ↦ none
    | EventType.kill ↦ old
  ]

  lookup-put_plan :
      (job : JobEtcd) (o : Option (JobSchedulePlan Expression)) (s : Scheduler Expression)
      (k : Text)
      → lookup k (put_plan cron job o s).job_plan_table ≡ (
          if text_eq (key_of job) k
          then elim o [
            | none ↦ lookup k s.job_plan_table
            | some plan ↦ if job.is_active then some plan else none
          ]
          else lookup k s.job_plan_table)
  unfolding delete_plan
  lookup-put_plan job none s k = ground arith
  lookup-put_plan job (some plan) s k = ground (
    arith,
    lookup-insert (key_of job) k plan s.job_plan_table,
    lookup-delete (key_of job) k s.job_plan_table,
  )

  -- After an event the key of its job holds what `planned` says, and every other key what it held.
  pub lookup-handle_job_event :
      (now : Time) (e : JobEvent) (s : Scheduler Expression) (k : Text)
      → lookup k (handle_job_event cron now e s).job_plan_table ≡ (
          if text_eq (key_of e.job) k
          then planned now e (lookup k s.job_plan_table)
          else lookup k s.job_plan_table)
  unfolding handle_job_event
  lookup-handle_job_event now e s k = ground (
    arith,
    lookup-delete (key_of e.job) k s.job_plan_table,
    lookup-put_plan e.job (to_job_execute_plan cron e.job now) s k,
  )
