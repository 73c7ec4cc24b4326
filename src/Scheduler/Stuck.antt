-- ===== src/Scheduler/Stuck.antt =====
-- A job whose goroutine ended with no result (backend/worker/scheduler.go, backend/worker/executor.go)
-- and its place in the executing table.
use cronjob.Base.{
  ℕ, ◌≤◌, ◌<◌, ◌≡◌, ◌≢◌, ◌&&◌, ◌||◌, refl, ap, sym, ◌∙◌, inl, inr, false, none, some, List, [], ◌∷◌,
  arith, text_eq_iff, length, lookup, lookup-insert, lookup-delete, lt→ltb, Option-cases, get_elem?,
}
use cronjob.Base.Time.{Time}
use cronjob.Data.{
  Cron, JobEtcd, JobSchedulePlan, JobExecuteInfo, JobExecuteResult, key_of, build_job_execute_info,
}
use cronjob.Executor.{Environment, execute_job}
use cronjob.Executor.Pointer.{job-execute_job, execute_info-execute_job}
use cronjob.Executor.Branches.{has, execute_job-IsSound}
use cronjob.Executor.Started.{accepted}
use cronjob.Scheduler.{Scheduler, try_run_job, handle_job_execute_result}
use cronjob.Scheduler.System.{
  System, Action, ended, count, consume, end_goroutine, run, step, initial,
}
use cronjob.Scheduler.Jobs.{
  job_of, job_at, job_at-append_old, job_at-length, job_at-set, count-remove, live,
}
use cronjob.Scheduler.Preserved.{Preserved, run-Preserved, count_moved}
use cronjob.Scheduler.Exclusive.{IsExclusive, IsExclusive-Preserved, popped, live-popped, own}
use cronjob.Scheduler.Runs.{after, IsExclusive-after}

module _ {E : Type 0} (r : ℕ) (job : JobEtcd) where
  -- The place of `job`, the job of info `r`, is taken by an execution that is over.
  record IsLost (s : Scheduler E) : Type 0 where
    exclusive : IsExclusive s
    at : job_at r s.infos ≡ some job
    held : lookup (key_of job) s.job_executing_table ≡ some r
    over : live r s ≡ 0

  IsLost-same :
      (s s' : Scheduler E)
      → IsLost s
      → s'.job_executing_table ≡ s.job_executing_table
      → ((q : ℕ) → job_at q s'.infos ≡ job_at q s.infos)
      → ((q : ℕ) → live q s' ≤ live q s)
      → IsLost s'
  IsLost-same s s' x table jobs fewer = record {
    exclusive = IsExclusive-Preserved.same s s' x.exclusive table jobs fewer;
    at = jobs r ∙ x.at;
    held = ap (lookup (key_of job)) table ∙ x.held;
    over = omega (arith, fewer r, x.over);
  }

  -- The new info is another one, since `r` is in use.
  length-other : (s : Scheduler E) → IsLost s → length s.infos ≢ r
  length-other s x e =
      let free : job_at r s.infos ≡ none =
        ap (λ q. job_at q s.infos) (sym e) ∙ job_at-length s.infos in
      cc (free, x.at)

  IsLost-try_run_job :
      (now : Time) (plan : JobSchedulePlan E) (s : Scheduler E)
      → IsLost s
      → IsLost (try_run_job now plan s)
  unfolding try_run_job
  IsLost-try_run_job now plan s x =
      let kept = IsExclusive-Preserved.tried now plan s x.exclusive in
      elim (Option-cases (lookup (key_of plan.job) s.job_executing_table)) [
        | inl free ↦
            rw (free, try_run_job)
              (record {
                exclusive = rw (free, try_run_job) at kept;
                at = job_at-append_old r s.infos (build_job_execute_info plan now) x.at;
                held = ground (
                  arith,
                  x.held,
                  free,
                  lookup-insert (key_of plan.job) (key_of job) (length s.infos)
                      s.job_executing_table,
                  text_eq_iff (key_of plan.job) (key_of job),
                );
                over = ground (arith, x.over, length-other s x);
              })
        | inr (q, busy) ↦ rw (busy, try_run_job) x
      ]

  IsLost-consume :
      (chan : List JobExecuteResult) (w : System E)
      → w.scheduler.job_result_chan ≡ chan
      → IsLost w.scheduler
      → IsLost (consume chan w).scheduler
  unfolding consume popped
  IsLost-consume [] w e x = x
  IsLost-consume (a ∷ rest) w e x =
      let s = w.scheduler in
      let kept = IsExclusive-Preserved.consumes (a ∷ rest) w e x.exclusive in
      elim (Option-cases (get_elem? s.infos a.execute_info)) [
        | inl none_there ↦
            rw (none_there, handle_job_execute_result)
              (IsLost-same s (popped s x.exclusive a rest e) x refl (λ q. refl)
                (λ q. omega (arith, live-popped s x.exclusive a rest e q)))
        | inr (info, there) ↦
            rw (there, handle_job_execute_result)
              (record {
                exclusive = rw (there, handle_job_execute_result) at kept;
                at = x.at;
                held = ground (
                  arith,
                  x.held,
                  own s x.exclusive a rest e info there,
                  lookup-delete (key_of info.job) (key_of job) s.job_executing_table,
                  text_eq_iff (key_of info.job) (key_of job),
                  live-popped s x.exclusive a rest e r,
                  x.over,
                );
                over = omega (arith, live-popped s x.exclusive a rest e r, x.over);
              })
      ]

  IsLost-Preserved : Preserved IsLost
  IsLost-Preserved = record {
    same = IsLost-same;
    tried = IsLost-try_run_job;
    consumes = IsLost-consume;
  }

  IsLost-ended :
      (env : Environment) (w : System E) (info : JobExecuteInfo)
      → IsExclusive w.scheduler
      → 0 < count r w.scheduler.goroutines
      → get_elem? w.scheduler.infos r ≡ some info
      → info.job ≡ job
      → (execute_job env r info).result ≡ none
      → IsLost (end_goroutine r env info w.scheduler)
  unfolding end_goroutine
  IsLost-ended env w info x runs at same empty =
      let s = w.scheduler in
      let h = x.holds r (omega (arith, runs)) in
      let own_job : job_at r s.infos ≡ some job = ap job_of at ∙ ap some same in
      let jobs = λ (q : ℕ).
        job_at-set q r info (execute_job env r info).info s.infos at (job-execute_job env r info) in
      record {
        exclusive = IsExclusive-Preserved.same s (end_goroutine r env info s) x refl jobs (λ q.
            count_moved q r s.goroutines (execute_job env r info).result s.job_result_chan
              (execute_info-execute_job env r info) runs);
        at = jobs r ∙ own_job;
        held = cc (h.held, h.at, own_job);
        over = rw empty (ground (arith, count-remove r r s.goroutines, x.once r, runs));
      }

module _ (cron : Cron) where
  open cron use {Expression}

  IsLost-step :
      (before : List Action) (ref : ℕ) (env : Environment) (info : JobExecuteInfo)
      → 0 < count ref (after cron before).goroutines
      → get_elem? (after cron before).infos ref ≡ some info
      → (execute_job env ref info).result ≡ none
      → IsLost ref info.job (step cron (ended ref env) (run cron before initial)).scheduler
  unfolding step
  IsLost-step before ref env info runs at empty = rw (lt→ltb _ _ runs) (
      rw at (
        IsLost-ended ref info.job env (run cron before initial) info (IsExclusive-after cron before)
          runs at refl empty))

  no_result :
      (env : Environment) (ref : ℕ) (info : JobExecuteInfo)
      → (info.job.is_active && (has env.lock_error || accepted env)) ≡ false
      → (execute_job env ref info).result ≡ none
  no_result env ref info h =
      let x = execute_job-IsSound env ref info in
      elim (Option-cases (execute_job env ref info).result) [
        | inl empty ↦ empty
        | inr (r, e) ↦ absurd (ground (arith, x.taken, x.executed, x.pushed, e, h))
      ]

  -- If a goroutine ends whose job is not active, or that took the lock while the master did not
  -- accept the execution, then no further schedule of the worker has an execution that is not over yet
  -- of a job with the same category and ID.
  pub never_executes_again :
      (before : List Action) (ref : ℕ) (env : Environment) (info : JobExecuteInfo)
      (runs : 0 < count ref (after cron before).goroutines)
      (at : get_elem? (after cron before).infos ref ≡ some info)
      (empty : (info.job.is_active && (has env.lock_error || accepted env)) ≡ false)
      (later : List Action) (q : ℕ) {j : JobEtcd}
      → let s = (run cron (ended ref env ∷ later) (run cron before initial)).scheduler in
        0 < live q s
        → job_at q s.infos ≡ some j
        → ¬ ((j.category ≡ info.job.category) × (j.id ≡ info.job.id))
  unfolding run
  never_executes_again before ref env info runs at empty later q {j} lq at_q same =
      let w = step cron (ended ref env) (run cron before initial) in
      let first = IsLost-step before ref env info runs at (no_result env ref info empty) in
      let x : IsLost ref info.job (run cron later w).scheduler =
        run-Preserved cron (IsLost ref info.job) (IsLost-Preserved ref info.job) later w first in
      let s = (run cron later w).scheduler in
      let o = x.exclusive.holds q lq in
      let keys : key_of o.job ≡ key_of info.job =
        (let jobs : some j ≡ some o.job = sym at_q ∙ o.at in cc (jobs, same.0, same.1)) in
      let refs : some q ≡ some ref =
        sym o.held ∙ ap (λ k. lookup k s.job_executing_table) keys ∙ x.held in
      let here : q ≡ ref = cc refs in
      let none_live : live q s ≡ 0 = ap (λ p. live p s) here ∙ x.over in
      omega (arith, lq, none_live)
