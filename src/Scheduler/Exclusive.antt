-- ===== src/Scheduler/Exclusive.antt =====
-- The executions of a worker and the places that they hold in the executing table
-- (backend/worker/scheduler.go).
use cronjob.Base.{
  ℕ, ◌+◌, ◌≤◌, ◌≡◌, refl, ap, sym, ◌∙◌, subst, inl, inr, none, some, List, [], ◌∷◌, ◌++◌, ◌==◌,
  arith, text_eq_iff, length, lookup, insert, delete, lookup-insert, lookup-delete, Bool-cases,
  text_eq_refl, ltb, ltb→lt, not-ltb→le, ==_iff, Option-cases, get_elem?, if◌then◌else◌,
}
use cronjob.Base.Time.{Time}
use cronjob.Data.{
  JobEtcd, JobSchedulePlan, JobExecuteInfo, JobExecuteResult, key_of, build_job_execute_info,
}
use cronjob.Scheduler.{Scheduler, new_scheduler, try_run_job, handle_job_execute_result}
use cronjob.Scheduler.System.{System, consume}
use cronjob.Scheduler.Jobs.{
  job_of, job_at, job_at-append_old, job_at-append_new, job_at-length, live,
}
use cronjob.Scheduler.Preserved.{Preserved}

module _ {E : Type 0} where
  -- The job of a live execution holds the place in the executing table.
  pub record Holds (r : ℕ) (s : Scheduler E) : Type 0 where
    pub job : JobEtcd
    pub at : job_at r s.infos ≡ some job
    pub held : lookup (key_of job) s.job_executing_table ≡ some r

  pub record IsExclusive (s : Scheduler E) : Type 0 where
    pub once : (r : ℕ) → live r s ≤ 1
    pub holds : (r : ℕ) → 1 ≤ live r s → Holds r s

  pub IsExclusive-new : IsExclusive (new_scheduler {E = E})
  unfolding new_scheduler
  IsExclusive-new = record { once = λ r. omega arith; holds = λ r h. absurd (omega arith) }

  -- A new state with the same table, the same jobs and no new execution.
  pub IsExclusive-same :
      (s s' : Scheduler E)
      → IsExclusive s
      → s'.job_executing_table ≡ s.job_executing_table
      → ((r : ℕ) → job_at r s'.infos ≡ job_at r s.infos)
      → ((r : ℕ) → live r s' ≤ live r s)
      → IsExclusive s'
  IsExclusive-same s s' x table jobs fewer = record {
    once = λ r. omega (arith, fewer r, x.once r);
    holds = λ r h.
        let o = x.holds r (omega (arith, fewer r)) in
        record {
          job = o.job;
          at = jobs r ∙ o.at;
          held = ap (lookup (key_of o.job)) table ∙ o.held;
        };
  }

  module _ (now : Time) (plan : JobSchedulePlan E) (s : Scheduler E) (x : IsExclusive s)
      (free : lookup (key_of plan.job) s.job_executing_table ≡ none) where
    started : Scheduler E
    started = record s {
      infos = s.infos ++ build_job_execute_info plan now ∷ [];
      job_executing_table = insert (key_of plan.job) (length s.infos) s.job_executing_table;
      goroutines = length s.infos ∷ s.goroutines;
    }

    -- The new pointer is not in use.
    fresh : live (length s.infos) s ≡ 0
    fresh = elim (Bool-cases (ltb 0 (live (length s.infos) s))) [
      | inl used ↦ cc ((x.holds (length s.infos) (ltb→lt _ _ used)).at, job_at-length s.infos)
      | inr free ↦ omega (arith, not-ltb→le 0 (live (length s.infos) s) free)
    ]

    Holds-old : (r : ℕ) → Holds r s → Holds r started
    unfolding started
    Holds-old r o = record {
      job = o.job;
      at = job_at-append_old r s.infos (build_job_execute_info plan now) o.at;
      held = ground (
        arith,
        o.held,
        lookup-insert (key_of plan.job) (key_of o.job) (length s.infos) s.job_executing_table,
        text_eq_iff (key_of plan.job) (key_of o.job),
      );
    }

    Holds-new : Holds (length s.infos) started
    unfolding started build_job_execute_info
    Holds-new = record {
      job = plan.job;
      at = job_at-append_new s.infos (build_job_execute_info plan now);
      held = rw lookup-insert (rw (text_eq_refl (key_of plan.job)));
    }

    IsExclusive-started : IsExclusive started
    unfolding started
    IsExclusive-started = record {
      once = λ r. ground (arith, fresh, x.once r);
      holds = λ r h. elim (Bool-cases (length s.infos == r)) [
        | inl new ↦ subst (λ q. Holds q started) ((==_iff _ _).0 new) Holds-new
        | inr old ↦ Holds-old r (x.holds r (rw old at h))
      ];
    }

  pub IsExclusive-try_run_job :
      (now : Time) (plan : JobSchedulePlan E) (s : Scheduler E)
      → IsExclusive s
      → IsExclusive (try_run_job now plan s)
  unfolding try_run_job
  IsExclusive-try_run_job now plan s x =
      elim (Option-cases (lookup (key_of plan.job) s.job_executing_table)) [
        | inl free ↦
            rw (free, try_run_job) (unfold started in IsExclusive-started now plan s x free)
        | inr (r, busy) ↦ rw (busy, try_run_job) x
      ]

  -- The result at the head of the channel is handled: its job's key is free again.
  module _ (s : Scheduler E) (x : IsExclusive s) (r : JobExecuteResult)
      (rest : List JobExecuteResult) (head : s.job_result_chan ≡ r ∷ rest) where
    unfoldable pub popped : Scheduler E
    popped = record s { job_result_chan = rest }

    pub live-popped : (q : ℕ) → live q s ≡ live q popped + (if r.execute_info == q then 1 else 0)
    unfolding popped
    live-popped q = rw head (ground arith)

    IsExclusive-popped : IsExclusive popped
    unfolding popped
    IsExclusive-popped =
        IsExclusive-same s popped x refl (λ q. refl) (λ q. omega (arith, live-popped q))

    module _ (info : JobExecuteInfo) (at : get_elem? s.infos r.execute_info ≡ some info) where
      freed : Scheduler E
      freed = record s {
        job_result_chan = rest;
        job_executing_table = delete (key_of info.job) s.job_executing_table;
      }

      pub own : lookup (key_of info.job) s.job_executing_table ≡ some r.execute_info
      unfolding popped
      own =
          let o = x.holds r.execute_info (ground (arith, live-popped r.execute_info)) in
          let same : some info.job ≡ some o.job = ap job_of (sym at) ∙ o.at in cc (o.held, same)

      IsExclusive-freed : IsExclusive freed
      unfolding freed popped
      IsExclusive-freed = record {
        once = IsExclusive-popped.once;
        holds = λ q h.
            let o = x.holds q (omega (arith, live-popped q)) in
            record {
              job = o.job;
              at = o.at;
              held = ground (
                arith,
                o.held,
                own,
                lookup-delete (key_of info.job) (key_of o.job) s.job_executing_table,
                text_eq_iff (key_of info.job) (key_of o.job),
                live-popped q,
                x.once q,
              );
            };
      }

  IsExclusive-consume :
      (chan : List JobExecuteResult) (w : System E)
      → w.scheduler.job_result_chan ≡ chan
      → IsExclusive w.scheduler
      → IsExclusive (consume chan w).scheduler
  unfolding consume popped freed
  IsExclusive-consume [] w e x = x
  IsExclusive-consume (r ∷ rest) w e x =
      elim (Option-cases (get_elem? w.scheduler.infos r.execute_info)) [
        | inl none_there ↦
            rw (none_there, handle_job_execute_result) (IsExclusive-popped w.scheduler x r rest e)
        | inr (info, at) ↦
            rw (at, handle_job_execute_result) (IsExclusive-freed w.scheduler x r rest e info at)
      ]

  pub IsExclusive-Preserved : Preserved IsExclusive
  IsExclusive-Preserved = record {
    same = IsExclusive-same;
    tried = IsExclusive-try_run_job;
    consumes = IsExclusive-consume;
  }
