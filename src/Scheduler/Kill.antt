-- ===== src/Scheduler/Kill.antt =====
-- Killing an executing job (backend/worker/scheduler.go, the kill case of `handleJobEvent`).
use cronjob.Base.{
  ℕ, zero, suc, ◌≡◌, refl, inl, inr, Option-cases, Option, none, some, List, [], ◌∷◌, ◌==◌,
  if◌then◌else◌, arith, Text, codes, get_elem?, lookup,
}
use cronjob.Base.Time.{Time}
use cronjob.Data.{Cron, EventType, JobEtcd, JobExecuteInfo, key_of, cancel_with}
use cronjob.Scheduler.{Scheduler, cancel_at, kill_job, handle_job_event}

abbrev cancelled_info : Option JobExecuteInfo → Option JobExecuteInfo
cancelled_info none = none
cancelled_info (some i) = some (cancel_with (codes "kill") i)

get_elem?-cancel_at :
    (r q : ℕ) (infos : List JobExecuteInfo)
    → get_elem? (cancel_at (codes "kill") r infos) q
      ≡ (if r == q then cancelled_info (get_elem? infos q) else get_elem? infos q)
unfolding cancel_at
get_elem?-cancel_at zero q [] = ground arith
get_elem?-cancel_at (suc r) q [] = ground arith
get_elem?-cancel_at zero zero (i ∷ is) = ground arith
get_elem?-cancel_at zero (suc q) (i ∷ is) = ground arith
get_elem?-cancel_at (suc r) zero (i ∷ is) = ground arith
get_elem?-cancel_at (suc r) (suc q) (i ∷ is) = ground (arith, get_elem?-cancel_at r q is)

-- The execution that the job's key points to.
abbrev pub killed_at : Option ℕ → ℕ → Option JobExecuteInfo → Option JobExecuteInfo
killed_at none q info = info
killed_at (some r) q info = if r == q then cancelled_info info else info

module _ {E : Type 0} where
  infos-kill_job :
      (k : Text) (s : Scheduler E) (q : ℕ)
      → get_elem? (kill_job k s).infos q
        ≡ killed_at (lookup k s.job_executing_table) q (get_elem? s.infos q)
  unfolding kill_job
  infos-kill_job k s q = elim (Option-cases (lookup k s.job_executing_table)) [
    | inl free ↦ rw (free, kill_job) refl
    | inr (r, busy) ↦ rw (busy, kill_job) (get_elem?-cancel_at r q s.infos)
  ]

module _ (cron : Cron) where
  open cron use {Expression}

  -- A kill event marks and cancels the one execution that its job's key points to, if there is one,
  -- and leaves every other execution, the goroutines and both tables as they were.
  pub handle_kill :
      (now : Time) (job : JobEtcd) (s : Scheduler Expression)
      → let s' = handle_job_event cron now (record { event = EventType.kill; job = job }) s in
        ((q : ℕ)
          → get_elem? s'.infos q
            ≡ killed_at (lookup (key_of job) s.job_executing_table) q (get_elem? s.infos q))
        × (s'.job_executing_table ≡ s.job_executing_table)
        × (s'.job_plan_table ≡ s.job_plan_table)
        × (s'.goroutines ≡ s.goroutines)
  unfolding handle_job_event
  handle_kill now job s = (infos-kill_job (key_of job) s, ground arith, ground arith, ground arith)
