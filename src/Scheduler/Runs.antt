-- ===== src/Scheduler/Runs.antt =====
-- The schedules of a worker from its start (backend/worker/scheduler.go).
use cronjob.Base.{ℕ, ◌<◌, ◌≡◌, ◌≢◌, sym, ap, ◌∙◌, some, List, lookup}
use cronjob.Data.{Cron, JobEtcd, key_of}
use cronjob.Scheduler.{Scheduler}
use cronjob.Scheduler.System.{Action, initial, run}
use cronjob.Scheduler.Jobs.{job_at, live}
use cronjob.Scheduler.Preserved.{run-Preserved}
use cronjob.Scheduler.Exclusive.{IsExclusive, IsExclusive-new, IsExclusive-Preserved}

module _ (cron : Cron) where
  open cron use {Expression}

  -- The scheduler after a schedule of actions.
  abbrev pub after : List Action → Scheduler Expression
  after actions = (run cron actions initial).scheduler

  pub IsExclusive-after : (actions : List Action) → IsExclusive (after actions)
  IsExclusive-after actions =
      run-Preserved cron IsExclusive IsExclusive-Preserved actions initial IsExclusive-new

  -- Under every schedule from the start, two different executions that are not over yet (the
  -- goroutine runs, or its result waits to be handled) are of jobs that differ in category or ID.
  pub no_job_twice :
      (actions : List Action) (q r : ℕ) {i j : JobEtcd}
      → q ≢ r
      → 0 < live q (after actions)
      → 0 < live r (after actions)
      → job_at q (after actions).infos ≡ some i
      → job_at r (after actions).infos ≡ some j
      → ¬ ((i.category ≡ j.category) × (i.id ≡ j.id))
  no_job_twice actions q r {i} {j} ne lq lr at_q at_r same =
      let x = IsExclusive-after actions in
      let oq = x.holds q lq in
      let or = x.holds r lr in
      let iq : some i ≡ some oq.job = sym at_q ∙ oq.at in
      let jr : some j ≡ some or.job = sym at_r ∙ or.at in
      let keys : key_of oq.job ≡ key_of or.job = cc (iq, jr, same.0, same.1) in
      let refs : some q ≡ some r =
        sym oq.held ∙ ap (λ k. lookup k (after actions).job_executing_table) keys ∙ or.held in
      ne (cc refs)
