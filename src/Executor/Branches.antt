-- ===== src/Executor/Branches.antt =====
-- What the goroutine of `ExecuteJob` (backend/worker/executor.go) does on each of its branches.
use cronjob.Base.{
  ℕ, ◌≡◌, ◌⊎◌, Bool, true, false, not, ◌&&◌, ◌||◌, Option, none, some, List, [], ◌∷◌, arith, Text,
  codes,
}
use cronjob.Base.Int.{pos, ltb_ℤ}
use cronjob.Data.{JobExecuteInfo, JobExecuteResult}
use cronjob.Executor.{
  Interrupt, need_kill, timer_fired, kill_event, worker_stop, waiting, Running, interrupts,
  Environment, Outcome, execute_job,
}
use cronjob.Executor.Started.{accepted, is_done, ran-execute_job}

abbrev pub has {ℓ} : {A : Type ℓ} → Option A → Bool
has none = false
has (some a) = true

-- What is expected of an outcome.
pub record IsSound (env : Environment) (info : JobExecuteInfo) (o : Outcome) : Type 0 where
  pub released : o.unlocked ≡ o.locked
  pub taken : o.locked ≡ (info.job.is_active && not (has env.lock_error))
  pub executed : o.ran ≡ (o.locked && (accepted env && not (is_done env info)))
  pub pushed : has o.result ≡ (info.job.is_active && (has env.lock_error || accepted env))
  pub told : (r : JobExecuteResult) → o.result ≡ some r → r.is_executed ≡ o.locked

-- On every branch of the goroutine its outcome is sound: the lock is released exactly if it was
-- taken, the command is started exactly if the job is active, the lock was taken, the master accepted
-- the execution and the context was not cancelled before, and a result is pushed exactly if the job is
-- active and the lock was refused or the master accepted, which of the two the result says.
pub execute_job-IsSound :
    (env : Environment) (ref : ℕ) (info : JobExecuteInfo)
    → IsSound env info (execute_job env ref info)
unfolding execute_job
execute_job-IsSound env ref info =
    let executed_so = ran-execute_job env ref info in
    record {
      released = ground arith;
      taken = ground arith;
      executed = executed_so;
      pushed = ground arith;
      told = λ r e. ground arith;
    }

-- The worker is stopped among these.
abbrev pub has_stop : List Interrupt → Bool
has_stop [] = false
has_stop (worker_stop ∷ is) = true
has_stop (need_kill b ∷ is) = has_stop is
has_stop (timer_fired ∷ is) = has_stop is
has_stop (kill_event ∷ is) = has_stop is

-- Interrupts and the status that is reported; a stop of the worker leaves no status.
abbrev IsMarked : Bool → JobExecuteInfo → Type 0
IsMarked stops i =
    ((i.status ≡ []) × (i.cancelled ≡ true → stops ≡ true))
    ⊎ ((i.cancelled ≡ true) × ((i.status ≡ codes "kill") ⊎ (i.status ≡ codes "timeout")))

-- With no timer, nothing but a kill is reported.
abbrev NoTimeout : Running → Type 0
NoTimeout r = (r.timing ≡ false) × ((r.info.status ≡ []) ⊎ (r.info.status ≡ codes "kill"))

abbrev IsTimed : JobExecuteInfo → Type 0
IsTimed info = ltb_ℤ (pos 0) info.job.timeout ≡ true

-- The status is empty, and if the context was cancelled the worker was stopped; or it says why the
-- context was cancelled.
abbrev pub IsReported : Environment → JobExecuteInfo → JobExecuteInfo → Text → Type 0
IsReported env info last status =
    ((status ≡ []) × (last.cancelled ≡ true → (has_stop env.before || has_stop env.during) ≡ true))
    ⊎ ((last.cancelled ≡ true)
        × ((status ≡ codes "kill") ⊎ ((status ≡ codes "timeout") × IsTimed info)))

module _ (env : Environment) (ref : ℕ) (info : JobExecuteInfo)
    (unmarked : (info.cancelled ≡ false) × (info.status ≡ [])) where
  finished : ℕ → Running
  unfolding interrupts
  finished id =
      interrupts env.during (interrupts env.before (waiting (record info { job_execute_id = id })))

  abbrev Told : Outcome → Type 0
  Told o =
      (r : JobExecuteResult)
      → o.result ≡ some r
      → r.is_executed ≡ true
      → IsReported env info o.info r.status
