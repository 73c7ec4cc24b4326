-- ===== src/Executor/Started.antt =====
-- Whether the goroutine of `ExecuteJob` (backend/worker/executor.go) starts its command.
use cronjob.Base.{ℕ, ◌≡◌, inl, inr, Bool, true, false, not, ◌&&◌, List, [], ◌∷◌, refl, ap, arith}
use cronjob.Data.{JobExecuteInfo}
use cronjob.Executor.Pointer.{Result-cases}
use cronjob.Executor.{
  Result, ok, err, read_reply, Interrupt, need_kill, timer_fired, kill_event, worker_stop, waiting,
  Running, interrupt, interrupts, Environment, run_command, post_and_run, lock_and_run, execute_job,
}

abbrev pub is_ok {ℓ} : {A : Type ℓ} → Result A → Bool
is_ok (ok a) = true
is_ok (err e) = false

abbrev pub accepted : Environment → Bool
accepted env = is_ok (read_reply env.decode env.post_reply)

-- The context of the command is cancelled before the command would start.
unfoldable pub is_done : Environment → JobExecuteInfo → Bool
unfolding interrupts
is_done env info = (interrupts env.before (waiting info)).info.cancelled

-- Two runs that an interrupt cannot tell apart.
abbrev IsAlike : Running → Running → Type 0
IsAlike r r' =
    (r.listening ≡ r'.listening) × ((r.timing ≡ r'.timing) × (r.info.cancelled ≡ r'.info.cancelled))

IsAlike-interrupt :
    (i : Interrupt) (r r' : Running) → IsAlike r r' → IsAlike (interrupt i r) (interrupt i r')
unfolding interrupt
IsAlike-interrupt (need_kill b) r r' x = ground arith
IsAlike-interrupt timer_fired r r' x = ground arith
IsAlike-interrupt kill_event r r' x = (x.0, (x.1.0, refl))
IsAlike-interrupt worker_stop r r' x = (x.0, (x.1.0, refl))

IsAlike-interrupts :
    (is : List Interrupt) (r r' : Running)
    → IsAlike r r'
    → IsAlike (interrupts is r) (interrupts is r')
unfolding interrupts
IsAlike-interrupts [] r r' x = x
IsAlike-interrupts (i ∷ is) r r' x =
    IsAlike-interrupts is (interrupt i r) (interrupt i r') (IsAlike-interrupt i r r' x)

-- The ID of the execution does not matter.
is_done-id :
    (env : Environment) (info : JobExecuteInfo) (id : ℕ)
    → (interrupts env.before (waiting (record info { job_execute_id = id }))).info.cancelled
      ≡ is_done env info
unfolding is_done
is_done-id env info id =
    (IsAlike-interrupts env.before (waiting (record info { job_execute_id = id })) (waiting info)
      (refl, (refl, refl))).1.1

ran-post_and_run :
    (env : Environment) (ref : ℕ) (info : JobExecuteInfo)
    → ((post_and_run env ref info).locked ≡ true)
      × ((post_and_run env ref info).ran ≡ (accepted env && not (is_done env info)))
unfolding post_and_run run_command is_done
ran-post_and_run env ref info = elim (Result-cases (read_reply env.decode env.post_reply)) [
  | inl (j, found) ↦ rw (found, post_and_run) (refl, ap not (is_done-id env info j.id))
  | inr (e, bad) ↦ rw (bad, post_and_run) (refl, refl)
]

pub ran-execute_job :
    (env : Environment) (ref : ℕ) (info : JobExecuteInfo)
    → (execute_job env ref info).ran
      ≡ ((execute_job env ref info).locked && (accepted env && not (is_done env info)))
unfolding execute_job lock_and_run
ran-execute_job env ref info = ground (arith, ran-post_and_run env ref info)
