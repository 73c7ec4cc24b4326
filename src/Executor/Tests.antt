-- ===== src/Executor/Tests.antt =====
-- The goroutine of `ExecuteJob` (backend/worker/executor.go) in a concrete environment.
use cronjob.Base.{true, false, none, some, [], ◌∷◌, codes, Text}
use cronjob.Base.Int.{pos}
use cronjob.Data.{JobEtcd, JobExecuteInfo, JobExecuteResult, JobExecute}
use cronjob.Executor.{response, Result, ok, Environment, timer_fired, need_kill, execute_job}
use cronjob.Executor.Branches.{IsSound, execute_job-IsSound}

abbrev job : JobEtcd
job = record {
  id = 7;
  created_at = 1;
  category = codes "default";
  name = codes "backup";
  time = codes "* * * * *";
  command = codes "sleep 100";
  description = [];
  is_active = true;
  save_output = true;
  timeout = pos 10;
}

abbrev info : JobExecuteInfo
info = record {
  job = job;
  job_execute_id = 0;
  plan_time = 5;
  execute_time = 6;
  cancelled = false;
  status = [];
}

abbrev accepted_execution : Text → Result JobExecute
accepted_execution t = ok (record {
  id = 31;
  worker = codes "worker";
  category = codes "default";
  name = codes "backup";
  job_id = 7;
  command = codes "sleep 100";
  status = codes "start";
  plan_time = 5;
  schedule_time = 6;
  start_time = 7;
  end_time = 0;
  log_id = [];
})

-- The command runs past its timeout.
abbrev timing_out : Environment
timing_out = record {
  worker = codes "worker";
  lock_error = none;
  post_reply = response true (codes "{}");
  decode = accepted_execution;
  before = [];
  during = timer_fired ∷ need_kill false ∷ [];
  output = [];
  command_error = some (codes "signal: killed");
  clock_start = 7;
  clock_end = 18;
}

execute_job-IsSound_example : IsSound timing_out info (execute_job timing_out 3 info)
execute_job-IsSound_example = execute_job-IsSound timing_out 3 info

-- Its result.
abbrev timed_out : JobExecuteResult
timed_out = record {
  execute_id = 31;
  execute_info = 3;
  is_executed = true;
  output = [];
  error = codes "signal: killed";
  start_time = 7;
  end_time = 18;
  status = codes "timeout";
}
