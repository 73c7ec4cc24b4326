-- ===== src/Executor/Pointer.antt =====
-- What the goroutine of `ExecuteJob` (backend/worker/executor.go) leaves as it was: the job of its
-- info, and the pointer to the info, which its result holds.
use cronjob.Base.{ℕ, ◌≡◌, refl, ◌∙◌, ◌⊎◌, inl, inr, some, List, [], ◌∷◌, arith, Text}
use cronjob.Data.{JobExecuteInfo, JobExecuteResult, JobExecute}
use cronjob.Executor.{
  Result, ok, err, read_reply, Interrupt, need_kill, timer_fired, kill_event, worker_stop, Running,
  interrupt, interrupts, Environment, Outcome, run_command, post_and_run, lock_and_run, execute_job,
  new_job_execute,
}

pub Result-cases {ℓ} :
    {A : Type ℓ} (x : Result A) → ((a : A) × (x ≡ ok a)) ⊎ ((e : Text) × (x ≡ err e))
Result-cases (ok a) = inl (a, refl)
Result-cases (err e) = inr (e, refl)

job-interrupt : (i : Interrupt) (r : Running) → (interrupt i r).info.job ≡ r.info.job
unfolding interrupt
job-interrupt (need_kill b) r = ground arith
job-interrupt timer_fired r = ground arith
job-interrupt kill_event r = refl
job-interrupt worker_stop r = refl

job-interrupts : (is : List Interrupt) (r : Running) → (interrupts is r).info.job ≡ r.info.job
unfolding interrupts
job-interrupts [] r = refl
job-interrupts (i ∷ is) r = job-interrupts is (interrupt i r) ∙ job-interrupt i r

module _ (env : Environment) (ref : ℕ) (info : JobExecuteInfo) where
  KeepsPointer : Outcome → Type 0
  KeepsPointer o =
      (o.info.job ≡ info.job) × ((r : JobExecuteResult) → o.result ≡ some r → r.execute_info ≡ ref)

  run_command-KeepsPointer :
      (id : ℕ) (sent : JobExecute)
      → KeepsPointer (run_command env ref (record info { job_execute_id = id }) sent)
  unfolding run_command KeepsPointer
  run_command-KeepsPointer id sent =
      (job-interrupts env.during _ ∙ job-interrupts env.before _, λ r e. ground arith)

  post_and_run-KeepsPointer : KeepsPointer (post_and_run env ref info)
  unfolding post_and_run KeepsPointer
  post_and_run-KeepsPointer = elim (Result-cases (read_reply env.decode env.post_reply)) [
    | inl (j, found) ↦
        rw (found, post_and_run) (run_command-KeepsPointer j.id (new_job_execute env info))
    | inr (x, failed) ↦ rw (failed, post_and_run) (refl, λ r e. cc)
  ]

  lock_and_run-KeepsPointer : KeepsPointer (lock_and_run env ref info)
  unfolding lock_and_run KeepsPointer
  lock_and_run-KeepsPointer = (
    ground (arith, post_and_run-KeepsPointer.0),
    λ r e. ground (arith, post_and_run-KeepsPointer.1 r),
  )

  pub job-execute_job : (execute_job env ref info).info.job ≡ info.job
  unfolding execute_job KeepsPointer
  job-execute_job = ground (arith, lock_and_run-KeepsPointer.0)

  pub execute_info-execute_job :
      (r : JobExecuteResult) → (execute_job env ref info).result ≡ some r → r.execute_info ≡ ref
  unfolding execute_job KeepsPointer
  execute_info-execute_job r e = ground (arith, lock_and_run-KeepsPointer.1 r)
