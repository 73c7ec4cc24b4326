-- ===== src/Data.antt =====
-- The data of jobs and their executions (backend/common/datamodels/job.go, jobExecute.go), the cron
-- expressions that they name, and the building of plans (backend/common/job.go).
mod Tests
use cronjob.Base.{
  ℕ, ◌<◌, ◌≡◌, ◌⊎◌, Bool, true, false, Option, none, some, ◌++◌, Text, codes, decimal, cut_unique,
  Above-decimal, decimal-injective, arith, [],
}
use cronjob.Base.Int.{ℤ}
use cronjob.Base.Time.{Time, zero_time}

-- The package cronexpr: `Next` gives the closest instant after the one it is given, or the zero
-- time if none matches.
pub record Cron : Type 1 where
  pub Expression : Type 0
  pub parse : Text → Option Expression
  pub next : Expression → Time → Time
  pub next_later : (e : Expression) (t : Time) → (next e t ≡ zero_time) ⊎ (t < next e t)

-- `JobEtcd`: the job as the master publishes it.
pub record JobEtcd : Type 0 where
  pub id : ℕ
  pub created_at : Time
  pub category : Text
  pub name : Text
  pub time : Text
  pub command : Text
  pub description : Text
  pub is_active : Bool
  pub save_output : Bool
  pub timeout : ℤ

-- `JOB_EVENT_PUT`, `JOB_EVENT_DELETE`, `JOB_EVENT_KILL`
pub data EventType : Type 0 where
  put delete kill : EventType

pub record JobEvent : Type 0 where
  pub event : EventType
  pub job : JobEtcd

pub record JobSchedulePlan (E : Type 0) : Type 0 where
  pub job : JobEtcd
  pub expression : E
  pub next_time : Time

-- `JobExecuteInfo`, with its context reduced to the question whether it was cancelled.
pub record JobExecuteInfo : Type 0 where
  pub job : JobEtcd
  pub job_execute_id : ℕ
  pub plan_time : Time
  pub execute_time : Time
  pub cancelled : Bool
  pub status : Text

-- `info.Status = status; info.ExceteCancelFun()`
unfoldable pub cancel_with : Text → JobExecuteInfo → JobExecuteInfo
cancel_with status info = record info { status = status; cancelled = true }

-- `JobExecuteResult`; the execution info is a pointer, here its index among the scheduler's infos.
pub record JobExecuteResult : Type 0 where
  pub execute_id : ℕ
  pub execute_info : ℕ
  pub is_executed : Bool
  pub output : Text
  pub error : Text
  pub start_time : Time
  pub end_time : Time
  pub status : Text

-- `JobExecute`: the record of an execution on the master.
pub record JobExecute : Type 0 where
  pub id : ℕ
  pub worker : Text
  pub category : Text
  pub name : Text
  pub job_id : ℕ
  pub command : Text
  pub status : Text
  pub plan_time : Time
  pub schedule_time : Time
  pub start_time : Time
  pub end_time : Time
  pub log_id : Text

-- `fmt.Sprintf("%s-%d", category, id)`: the key of a job in the tables of the scheduler.
unfoldable pub job_key : Text → ℕ → Text
job_key category id = category ++ (codes "-" ++ decimal id)

abbrev pub key_of : JobEtcd → Text
key_of job = job_key job.category job.id

-- Two jobs have the same key only if they have the same category and the same ID, although a
-- category may have dashes in its name.
pub job_key-injective : (c c' : Text) (i i' : ℕ) → job_key c i ≡ job_key c' i' → (c ≡ c') × (i ≡ i')
unfolding job_key
job_key-injective c c' i i' e =
    let (same, ids) =
      cut_unique 48 45 c c' (decimal i) (decimal i') (omega arith) (Above-decimal i)
        (Above-decimal i') e in
    (same, decimal-injective i i' ids)

module _ (cron : Cron) where
  open cron use {Expression, parse, next}

  abbrev pub plan_with : JobEtcd → Time → Option Expression → Option (JobSchedulePlan Expression)
  plan_with job now none = none
  plan_with job now (some e) = some (record { job = job; expression = e; next_time = next e now })

  -- `ToJobExecutePlan`; `none` is the error of a time that cannot be parsed.
  unfoldable pub to_job_execute_plan : JobEtcd → Time → Option (JobSchedulePlan Expression)
  to_job_execute_plan job now = plan_with job now (parse job.time)

-- `BuildJobExecuteInfo`
unfoldable pub build_job_execute_info : {E : Type 0} → JobSchedulePlan E → Time → JobExecuteInfo
build_job_execute_info plan now = record {
  job = plan.job;
  job_execute_id = 0;
  plan_time = plan.next_time;
  execute_time = now;
  cancelled = false;
  status = [];
}
