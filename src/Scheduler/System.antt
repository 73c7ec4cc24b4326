-- ===== src/Scheduler/System.antt =====
-- The scheduler with its goroutines (backend/worker/scheduler.go: `ScheduleLoop`,
-- `comsumeJobExecuteResultsLoop`; backend/worker/app.go: `Stop`). An action is one turn of one of the
-- three loops, or the end of a goroutine of `ExecuteJob`; a schedule is any list of actions. The
-- channel of results holds at most 500, past which a goroutine waits before its end; no schedule is
-- lost by letting it end at once.
use cronjob.Base.{
  ℕ, zero, suc, Bool, true, false, Option, none, some, List, [], ◌∷◌, ◌++◌, ◌==◌, ltb,
  if◌then◌else◌, codes, get_elem?, set, Assoc,
}
use cronjob.Base.Time.{Time}
use cronjob.Data.{Cron, JobEvent, JobExecuteInfo, JobExecuteResult}
use cronjob.Executor.{Environment, execute_job}
use cronjob.Scheduler.{
  Scheduler, new_scheduler, cancel_at, handle_job_event, handle_job_execute_result, try_schedule,
}

abbrev pub count : ℕ → List ℕ → ℕ
count r [] = 0
count r (x ∷ xs) = let n = count r xs in if x == r then suc n else n

abbrev pub remove : ℕ → List ℕ → List ℕ
remove r [] = []
remove r (x ∷ xs) = let rest = remove r xs in if x == r then xs else x ∷ rest

pub data Action : Type 0 where
  -- an event is received, or the timer expires; the second time is read by `BuildJobExecuteInfo`
  received : Time → Time → JobEvent → Action
  expired : Time → Time → Action
  -- The goroutine of this info ends. What cancelled the info earlier in the schedule counts as before
  -- its command, whenever the command was started; a schedule does not look at that.
  ended : ℕ → Environment → Action
  -- a result is consumed
  consumed : Action
  -- `Worker.Stop`
  stopped : Action

pub record System (E : Type 0) : Type 0 where
  pub scheduler : Scheduler E
  pub looping : Bool
  pub posted : List JobExecuteResult

abbrev pub initial : {E : Type 0} → System E
initial = record { scheduler = new_scheduler; looping = true; posted = [] }

-- When the loop is left, all executions are cancelled.
unfoldable pub cancel_all : Assoc ℕ → List JobExecuteInfo → List JobExecuteInfo
unfolding cancel_at
cancel_all [] infos = infos
cancel_all ((k, r) ∷ table) infos = cancel_all table (cancel_at (codes "kill") r infos)

-- `Stop` cancels all executions too, and leaves their status.
unfoldable pub stop_at : ℕ → List JobExecuteInfo → List JobExecuteInfo
stop_at r [] = []
stop_at zero (i ∷ is) = record i { cancelled = true } ∷ is
stop_at (suc r) (i ∷ is) = i ∷ stop_at r is

unfoldable pub stop_all : Assoc ℕ → List JobExecuteInfo → List JobExecuteInfo
unfolding stop_at
stop_all [] infos = infos
stop_all ((k, r) ∷ table) infos = stop_all table (stop_at r infos)

abbrev pub push : Option JobExecuteResult → List JobExecuteResult → List JobExecuteResult
push none chan = chan
push (some r) chan = chan ++ r ∷ []

module _ {E : Type 0} where
  -- The end of a turn of `ScheduleLoop`.
  unfoldable pub end_turn : Scheduler E → System E → System E
  unfolding cancel_all
  end_turn s w =
      if s.is_stoped
      then record w {
        scheduler = record s { infos = cancel_all s.job_executing_table s.infos };
        looping = false;
      }
      else record w { scheduler = s }

  unfoldable pub end_goroutine : ℕ → Environment → JobExecuteInfo → Scheduler E → Scheduler E
  unfolding execute_job
  end_goroutine ref env info s =
      let o = execute_job env ref info in
      record s {
        infos = set s.infos ref o.info;
        goroutines = remove ref s.goroutines;
        job_result_chan = push o.result s.job_result_chan;
      }

  abbrev pub end_found : ℕ → Environment → Option JobExecuteInfo → Scheduler E → Scheduler E
  end_found ref env none s = s
  end_found ref env (some info) s = end_goroutine ref env info s

  unfoldable pub consume : List JobExecuteResult → System E → System E
  unfolding handle_job_execute_result
  consume [] w = w
  consume (r ∷ rest) w =
      let (s, post) = handle_job_execute_result r (record w.scheduler { job_result_chan = rest }) in
      record w { scheduler = s; posted = push post w.posted }

  -- `Worker.Stop`, the part that concerns the scheduler.
  unfoldable pub stop : Scheduler E → Scheduler E
  unfolding stop_all
  stop s = record s { is_stoped = true; infos = stop_all s.job_executing_table s.infos }

module _ (cron : Cron) where
  open cron use {Expression}

  unfoldable pub step : Action → System Expression → System Expression
  unfolding handle_job_event try_schedule end_turn end_goroutine consume stop
  step (received now later e) w =
      if w.looping
      then end_turn (try_schedule cron now later (handle_job_event cron now e w.scheduler)).0 w
      else w
  step (expired now later) w =
      if w.looping then end_turn (try_schedule cron now later w.scheduler).0 w else w
  step (ended ref env) w =
      if ltb 0 (count ref w.scheduler.goroutines)
      then record w { scheduler = end_found ref env (get_elem? w.scheduler.infos ref) w.scheduler }
      else w
  step consumed w = consume w.scheduler.job_result_chan w
  step stopped w = record w { scheduler = stop w.scheduler }

  unfoldable pub run : List Action → System Expression → System Expression
  unfolding step
  run [] w = w
  run (a ∷ actions) w = run actions (step a w)
