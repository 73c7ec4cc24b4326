-- ===== src/Scheduler/Tests.antt =====
-- The scheduler of a worker (backend/worker/scheduler.go) on concrete plans and schedules.
use cronjob.Base.{
  ℕ, suc, ◌+◌, ◌<◌, ◌≡◌, refl, inr, true, false, Option, none, some, List, [], ◌∷◌, arith, Text,
  codes, text_eq, decimal, lookup, insert, ◌≤◌, ◌||◌, All,
}
use cronjob.Base.Int.{pos}
use cronjob.Base.Time.{minute}
use cronjob.Data.{Cron, JobEtcd, EventType, JobEvent, JobExecuteInfo, job_key}
use cronjob.Executor.{Environment, err, no_response}
use cronjob.Scheduler.{Scheduler, new_scheduler, try_schedule}
use cronjob.Scheduler.System.{Action, received, expired, initial, run}
use cronjob.Scheduler.Runs.{no_job_twice}
use cronjob.Scheduler.Stuck.{never_executes_again}
use cronjob.Scheduler.Wake.{try_schedule_wakes}
use cronjob.Scheduler.Due.{is_executing, has_due, try_schedule_starts}

-- Expressions that name an interval: every `n + 1` nanoseconds. An empty text is no expression.
abbrev interval : Text → Option ℕ
interval [] = none
interval (n ∷ ns) = some n

abbrev every : Cron
every = record {
  Expression = ℕ;
  parse = interval;
  next = λ n t. t + suc n;
  next_later = λ n t. inr (omega arith);
}

abbrev job : ℕ → JobEtcd
job id = record {
  id = id;
  created_at = 1;
  category = codes "default";
  name = codes "backup";
  time = 4 ∷ [];
  command = codes "date";
  description = [];
  is_active = true;
  save_output = true;
  timeout = pos 0;
}

abbrev put : ℕ → JobEvent
put id = record { event = EventType.put; job = job id }

-- Two jobs are published and become due at the instants 15 and 17.
abbrev two_due : List Action
two_due = received 10 10 (put 1) ∷ received 12 12 (put 2) ∷ expired 20 20 ∷ []

no_job_twice_example : ¬ (((job 1).category ≡ (job 2).category) × ((job 1).id ≡ (job 2).id))
unfolding run insert new_scheduler text_eq job_key decimal lookup
no_job_twice_example =
    no_job_twice every two_due 0 1 (omega arith) (omega arith) (omega arith) refl refl

-- The master cannot be reached.
abbrev no_master : Environment
no_master = record {
  worker = codes "worker";
  lock_error = none;
  post_reply = no_response (codes "refused");
  decode = λ t. err t;
  before = [];
  during = [];
  output = [];
  command_error = none;
  clock_start = 21;
  clock_end = 22;
}

-- The info of the first job after `two_due`.
abbrev first_info : JobExecuteInfo
first_info = record {
  job = job 1;
  job_execute_id = 0;
  plan_time = 15;
  execute_time = 20;
  cancelled = false;
  status = [];
}

-- Another job is published, and all three are due.
abbrev three_due : List Action
three_due = received 30 30 (put 3) ∷ expired 60 60 ∷ []

never_executes_again_example : ¬ (((job 3).category ≡ (job 1).category) × ((job 3).id ≡ (job 1).id))
unfolding run insert new_scheduler text_eq job_key decimal lookup
never_executes_again_example =
    never_executes_again every two_due 0 no_master first_info (omega arith) refl refl three_due 2
      (omega arith) refl

-- The scheduler with two plans that are due at 20.
abbrev planned_two : Scheduler ℕ
planned_two = (run every (received 10 10 (put 1) ∷ received 12 12 (put 2) ∷ []) initial).scheduler

try_schedule_wakes_example :
    let (s', d) = try_schedule every 20 20 planned_two in
    (k : ℕ) × (d ≡ pos k)
    × (0 < k)
    × (k ≤ minute)
    × All (λ e. (20 < e.1.next_time) × (20 + k ≤ e.1.next_time)) s'.job_plan_table
unfolding run insert new_scheduler text_eq job_key decimal lookup
try_schedule_wakes_example =
    try_schedule_wakes every 20 20 planned_two (omega arith, (omega arith, tt))

try_schedule_starts_example :
    is_executing (job_key (codes "default") 1) (try_schedule every 20 20 planned_two).0 ≡ (
      is_executing (job_key (codes "default") 1) planned_two
      || has_due 20 (job_key (codes "default") 1) planned_two.job_plan_table)
try_schedule_starts_example =
    try_schedule_starts every 20 20 planned_two (job_key (codes "default") 1)
