-- ===== src/Executor.antt =====
-- The executor of a worker (backend/worker/executor.go). What the goroutine of `ExecuteJob` meets,
-- the answers of the lock, of the master and of the shell, is its argument; what it does is its value.
pub mod Pointer
pub mod Started
pub mod Branches
mod Tests
use cronjob.Base.{
  ℕ, zero, suc, ◌+◌, Bool, true, false, Option, none, some, List, [], ◌∷◌, ltb, if◌then◌else◌, Text,
  codes, ◌++◌, decimal, ◌⊎◌, inl, inr, not,
}
use cronjob.Base.Int.{ℤ, pos, ltb_ℤ}
use cronjob.Base.Time.{Time, zero_time}
use cronjob.Data.{JobEtcd, JobExecuteInfo, JobExecuteResult, JobExecute, cancel_with}

-- An answer of the package grequests: no response, or its `Ok` flag and its bytes.
pub data Reply : Type 0 where
  no_response : Text → Reply
  response : Bool → Text → Reply

-- A value or a Go error.
pub data Result {ℓ} (A : Type ℓ) : Type ℓ where
  ok : A → Result A
  err : Text → Result A

-- The answers of `PostJobExecuteToMaster` and its three siblings, with `decode` for `response.JSON`.
unfoldable pub read_reply {ℓ} : {A : Type ℓ} → (Text → Result A) → Reply → Result A
read_reply decode (no_response e) = err e
read_reply decode (response true bytes) = decode bytes
read_reply decode (response false bytes) = err bytes

-- What may happen before and while the command runs: a message on `NeedKillChan`, the timer of the
-- timeout, a kill event that the scheduler handles or the end of its loop, and `Worker.Stop`, which
-- cancels and leaves the status.
pub data Interrupt : Type 0 where
  need_kill : Bool → Interrupt
  timer_fired : Interrupt
  kill_event : Interrupt
  worker_stop : Interrupt

-- The info, and whether the two goroutines that wait for a message and for the timer still do.
pub record Running : Type 0 where
  pub info : JobExecuteInfo
  pub listening : Bool
  pub timing : Bool

unfoldable pub interrupt : Interrupt → Running → Running
unfolding cancel_with
interrupt (need_kill b) r =
    if r.listening
    then record r {
      info = if b then cancel_with (codes "kill") r.info else r.info;
      listening = false;
    }
    else r
interrupt timer_fired r =
    if r.timing then record r { info = cancel_with (codes "timeout") r.info; timing = false } else r
interrupt kill_event r = record r { info = cancel_with (codes "kill") r.info }
interrupt worker_stop r = record r { info = record r.info { cancelled = true } }

unfoldable pub interrupts : List Interrupt → Running → Running
unfolding interrupt
interrupts [] r = r
interrupts (i ∷ is) r = interrupts is (interrupt i r)

pub record Environment : Type 0 where
  pub worker : Text
  pub lock_error : Option Text  -- what `TryLock` returns
  pub post_reply : Reply  -- to the post of the execution
  pub decode : Text → Result JobExecute
  pub before : List Interrupt  -- until the command would start
  pub during : List Interrupt  -- until it has ended
  pub output : Text
  pub command_error : Option Text
  pub clock_start : Time
  pub clock_end : Time

-- What the goroutine has done when it ends.
pub record Outcome : Type 0 where
  pub info : JobExecuteInfo
  pub locked : Bool
  pub unlocked : Bool
  pub posted : Option JobExecute
  pub ran : Bool
  pub result : Option JobExecuteResult

abbrev pub error_text : Option Text → Text
error_text none = []
error_text (some e) = e

-- `jobs/<category>/<id>`
unfoldable pub job_lock_name : JobEtcd → Text
job_lock_name job = codes "jobs/" ++ (job.category ++ (codes "/" ++ decimal job.id))

unfoldable pub new_job_execute : Environment → JobExecuteInfo → JobExecute
new_job_execute env info = record {
  id = 0;
  worker = env.worker;
  category = info.job.category;
  name = info.job.name;
  job_id = info.job.id;
  command = info.job.command;
  status = codes "start";
  plan_time = info.plan_time;
  schedule_time = info.execute_time;
  start_time = env.clock_start;
  end_time = zero_time;
  log_id = [];
}

-- Where the goroutines that wait for a message and for the timer have been started.
abbrev pub waiting : JobExecuteInfo → Running
waiting info = record { info = info; listening = true; timing = ltb_ℤ (pos 0) info.job.timeout }

-- The command, under the lock; `ref` is the pointer to `info`. A command whose context is done is not
-- started; the result is the same but for its output and error, which the environment has.
unfoldable pub run_command : Environment → ℕ → JobExecuteInfo → JobExecute → Outcome
unfolding interrupts
run_command env ref info sent =
    let start = interrupts env.before (waiting info) in
    let r = interrupts env.during start in
    record {
      info = r.info;
      locked = true;
      unlocked = true;
      posted = some sent;
      ran = not start.info.cancelled;
      result = some (record {
        execute_id = r.info.job_execute_id;
        execute_info = ref;
        is_executed = true;
        output = if info.job.save_output then env.output else codes "Don't save output";
        error = error_text env.command_error;
        start_time = env.clock_start;
        end_time = env.clock_end;
        status = r.info.status;
      });
    }

-- After the lock: the execution is posted to the master; an error ends the goroutine.
unfoldable pub post_and_run : Environment → ℕ → JobExecuteInfo → Outcome
unfolding run_command read_reply new_job_execute
post_and_run env ref info =
    let sent = new_job_execute env info in
    elim (read_reply env.decode env.post_reply) [
      | err e ↦ record {
        info = info;
        locked = true;
        unlocked = true;
        posted = some sent;
        ran = false;
        result = none;
      }
      | ok job_execute ↦ run_command env ref (record info { job_execute_id = job_execute.id }) sent
    ]

unfoldable pub lock_and_run : Environment → ℕ → JobExecuteInfo → Outcome
unfolding post_and_run
lock_and_run env ref info = elim env.lock_error [
  | none ↦ post_and_run env ref info
  | some e ↦ record {
    info = info;
    locked = false;
    unlocked = false;
    posted = none;
    ran = false;
    result = some (record {
      execute_id = 0;
      execute_info = ref;
      is_executed = false;
      output = [];
      error = e;
      start_time = env.clock_start;
      end_time = env.clock_end;
      status = [];
    });
  }
]

-- The goroutine of `ExecuteJob`.
unfoldable pub execute_job : Environment → ℕ → JobExecuteInfo → Outcome
unfolding lock_and_run
execute_job env ref info = if info.job.is_active then lock_and_run env ref info else record {
  info = info;
  locked = false;
  unlocked = false;
  posted = none;
  ran = false;
  result = none;
}
