-- ===== src/Push/Follow.antt =====
-- The plan table of a worker and the jobs in etcd (backend/master/sockets/watchJobs.go, app.go,
-- backend/worker/socket.go, backend/worker/scheduler.go).
use cronjob.Base.{
  ℕ, suc, ◌≡◌, ap, subst, ◌∙◌, sym, inl, inr, Bool-cases, Option, none, some, List, [], ◌∷◌, ◌++◌,
  Text, codes, text_eq, text_eq_iff, arith, Assoc, lookup, insert, delete, lookup-insert,
  lookup-delete, All, decimal, cut_unique, Above-decimal, decimal-injective, if◌then◌else◌,
}
use cronjob.Base.Time.{Time}
use cronjob.Data.{
  Cron, JobEtcd, EventType, JobEvent, JobSchedulePlan, job_key, job_key-injective,
  to_job_execute_plan,
}
use cronjob.Scheduler.{Scheduler, handle_job_event}
use cronjob.Scheduler.Table.{lookup-handle_job_event}
use cronjob.Packet.{Bytes}
use cronjob.Push.{Json, WatchEvent, pushed, job_turn, watch_job, reade_loop}
use cronjob.Push.Delivery.{Fits, to_client, event_of, pushed_events, worker_receives_events}

-- `ETCD_JOBS_DIR`, the category and the ID: the key under which the master stores a job.
abbrev pub etcd_key : Text → ℕ → Text
etcd_key category id = codes "/crontab/jobs/" ++ (category ++ (codes "/" ++ decimal id))

etcd_key-injective :
    (c c' : Text) (i i' : ℕ)
    → c ++ (codes "/" ++ decimal i) ≡ c' ++ (codes "/" ++ decimal i')
    → (c ≡ c') × (i ≡ i')
etcd_key-injective c c' i i' e =
    let (same, ids) =
      cut_unique 48 47 c c' (decimal i) (decimal i') (omega arith) (Above-decimal i)
        (Above-decimal i') e in
    (same, decimal-injective i i' ids)

-- The two kinds of keys tell the same jobs apart.
same_test :
    (c c' : Text) (i i' : ℕ)
    → text_eq (etcd_key c i) (etcd_key c' i') ≡ text_eq (job_key c i) (job_key c' i')
unfolding text_eq
same_test c c' i i' =
    let e = c ++ (codes "/" ++ decimal i) in
    let e' = c' ++ (codes "/" ++ decimal i') in
    elim (Bool-cases (text_eq (job_key c i) (job_key c' i'))) [
      | inl same ↦
          let (cs, is) = job_key-injective c c' i i' ((text_eq_iff _ _).0 same) in
          let es : e ≡ e' = cc (cs, is) in (text_eq_iff e e').1 es ∙ sym same
      | inr other ↦ elim (Bool-cases (text_eq e e')) [
        | inl same ↦
            let (cs, is) = etcd_key-injective c c' i i' ((text_eq_iff e e').0 same) in
            let js : job_key c i ≡ job_key c' i' = cc (cs, is) in
            absurd (cc (other, (text_eq_iff _ _).1 js))
        | inr different ↦ different ∙ sym other
      ]
    ]

-- The keys and values in etcd after an event.
abbrev pub stored : WatchEvent → Assoc Bytes → Assoc Bytes
stored (WatchEvent.put key value) store = insert key value store
stored (WatchEvent.delete key prev) store = delete key store

abbrev pub stored_all : List WatchEvent → Assoc Bytes → Assoc Bytes
stored_all [] store = store
stored_all (e ∷ es) store = stored_all es (stored e store)

module _ (cron : Cron) (json : Json) where
  open cron use {Expression, parse}
  open json use {decode_job}

  -- The scheduler handles events, at the times of a clock.
  unfoldable pub handle_all :
      (ℕ → Time) → List JobEvent → Scheduler Expression → Scheduler Expression
  unfolding handle_job_event
  handle_all clock [] s = s
  handle_all clock (e ∷ es) s =
      handle_all (λ n. clock (suc n)) es (handle_job_event cron (clock 0) e s)

  abbrev pub job_planned : Option (JobSchedulePlan Expression) → Option JobEtcd
  job_planned none = none
  job_planned (some plan) = some plan.job

  abbrev pub if_active : Option JobEtcd → Option JobEtcd
  if_active none = none
  if_active (some job) = if job.is_active then some job else none

  abbrev pub active_job : Option Bytes → Option JobEtcd
  active_job none = none
  active_job (some value) = if_active (decode_job value)

  -- Each category and ID has a plan exactly if etcd holds an active job for it, and then for that job.
  abbrev pub IsFollowing : Scheduler Expression → Assoc Bytes → Type 0
  IsFollowing s store =
      (c : Text) (i : ℕ)
      → job_planned (lookup (job_key c i) s.job_plan_table)
        ≡ active_job (lookup (etcd_key c i) store)

  -- The value is a job, under the key that the master gives it, whose time can be parsed.
  pub record IsJob (key : Text) (value : Bytes) : Type 0 where
    pub job : JobEtcd
    pub decoded : decode_job value ≡ some job
    pub keyed : key ≡ etcd_key job.category job.id
    pub expression : Expression
    pub parsed : parse job.time ≡ some expression

  -- A put of a job, or the deletion of one whose old value is known.
  abbrev pub IsJobEvent : WatchEvent → Type 0
  IsJobEvent (WatchEvent.put key value) = IsJob key value
  IsJobEvent (WatchEvent.delete key none) = ⊥
  IsJobEvent (WatchEvent.delete key (some value)) = IsJob key value

  IsFollowing-put :
      (now : Time) (key : Text) (value : Bytes) (s : Scheduler Expression) (store : Assoc Bytes)
      (x : IsJob key value)
      → IsFollowing s store
      → IsFollowing
          (handle_job_event cron now (record { event = EventType.put; job = x.job }) s)
          (insert key value store)
  unfolding to_job_execute_plan
  IsFollowing-put now key value s store x follows c i = ground (
    arith,
    lookup-handle_job_event cron now (record { event = EventType.put; job = x.job }) s
        (job_key c i),
    lookup-insert key (etcd_key c i) value store,
    ap (λ k. text_eq k (etcd_key c i)) x.keyed,
    same_test x.job.category c x.job.id i,
    x.decoded,
    x.parsed,
    follows c i,
  )

  IsFollowing-delete :
      (now : Time) (key : Text) (value : Bytes) (s : Scheduler Expression) (store : Assoc Bytes)
      (x : IsJob key value)
      → IsFollowing s store
      → IsFollowing
          (handle_job_event cron now (record { event = EventType.delete; job = x.job }) s)
          (delete key store)
  IsFollowing-delete now key value s store x follows c i = ground (
    arith,
    lookup-handle_job_event cron now (record { event = EventType.delete; job = x.job }) s
        (job_key c i),
    lookup-delete key (etcd_key c i) store,
    ap (λ k. text_eq k (etcd_key c i)) x.keyed,
    same_test x.job.category c x.job.id i,
    follows c i,
  )

  watch_job-IsJob :
      (t : EventType) (key : Text) (value : Bytes) (x : IsJob key value)
      → job_turn json t (decode_job value) ≡ pushed (record { event = t; job = x.job })
  watch_job-IsJob t key value x = ap (job_turn json t) x.decoded

  IsFollowing-pushed_events :
      (clock : ℕ → Time) (es : List WatchEvent) (s : Scheduler Expression) (store : Assoc Bytes)
      → All IsJobEvent es
      → IsFollowing s store
      → IsFollowing
          (handle_all clock (pushed_events json (watch_job json) es) s)
          (stored_all es store)
  unfolding handle_all watch_job
  IsFollowing-pushed_events clock [] s store x follows = follows
  IsFollowing-pushed_events clock (WatchEvent.put key value ∷ es) s store (x, xs) follows =
      let rest = pushed_events json (watch_job json) es in
      subst
        (λ t.
          IsFollowing (handle_all clock (event_of json t rest) s)
            (stored_all es (insert key value store)))
        (sym (watch_job-IsJob EventType.put key value x))
        (IsFollowing-pushed_events (λ n. clock (suc n)) es
          (handle_job_event cron (clock 0) (record { event = EventType.put; job = x.job }) s)
          (insert key value store) xs (IsFollowing-put (clock 0) key value s store x follows))
  IsFollowing-pushed_events clock (WatchEvent.delete key none ∷ es) s store (x, xs) follows =
      absurd x
  IsFollowing-pushed_events clock (WatchEvent.delete key (some value) ∷ es) s store (x, xs)
        follows =
      let rest = pushed_events json (watch_job json) es in
      subst
        (λ t.
          IsFollowing (handle_all clock (event_of json t rest) s)
            (stored_all es (delete key store)))
        (sym (watch_job-IsJob EventType.delete key value x))
        (IsFollowing-pushed_events (λ n. clock (suc n)) es
          (handle_job_event cron (clock 0) (record { event = EventType.delete; job = x.job }) s)
          (delete key store) xs (IsFollowing-delete (clock 0) key value s store x follows))

  -- If the plan table of a connected worker agrees with etcd, and then jobs are put and deleted in
  -- etcd under the keys of the master, with times that can be parsed, known old values and messages of
  -- 1 to 65535 bytes, each one message of the socket, then it agrees with etcd after the worker has
  -- handled all that the master sent.
  pub plan_table_follows_etcd :
      (client : Text) (clock : ℕ → Time) (spares : ℕ → Bytes) (es : List WatchEvent)
      (s : Scheduler Expression) (store : Assoc Bytes)
      → All IsJobEvent es
      → All (Fits json) (pushed_events json (watch_job json) es)
      → IsFollowing s store
      → IsFollowing
          (handle_all clock (reade_loop json spares (to_client json client es (watch_job json))) s)
          (stored_all es store)
  plan_table_follows_etcd client clock spares es s store x fit follows =
      rw (worker_receives_events json (watch_job json) client spares es fit)
        (IsFollowing-pushed_events clock es s store x follows)
