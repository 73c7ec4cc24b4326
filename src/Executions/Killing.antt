-- ===== src/Executions/Killing.antt =====
-- Killing an execution (backend/common/repositories/jobExecute.go, `KillByID`): through etcd to the
-- worker, and after the end of the execution.
use cronjob.Base.{
  ℕ, ◌≡◌, refl, ap, ◌∙◌, Bool, true, false, ◌∷◌, ◌++◌, [], Option, some, leb, length, if_true,
  if_false, Text, codes, lookup, get_elem?,
}
use cronjob.Base.Int.{ℤ}
use cronjob.Base.Time.{Time}
use cronjob.Data.{Cron, JobExecute, JobExecuteInfo, job_key, cancel_with}
use cronjob.Executor.{Result, ok, err}
use cronjob.Packet.{Bytes}
use cronjob.MasterLock.{trim_space}
use cronjob.Scheduler.{Scheduler}
use cronjob.Push.{Json, JobKill, WatchEvent, kill_event, watch_kill, reade_loop}
use cronjob.Push.Delivery.{Fits, to_client}
use cronjob.Push.Follow.{handle_all}
use cronjob.Push.Kill.{put_kill_cancels}
use cronjob.Database.{Table}
use cronjob.KeyStore.{Kv}
use cronjob.Kills.{kill_etcd_key}
use cronjob.Kills.Ended.{kill_etcd_key-trimmed, kill_etcd_key-full}
use cronjob.Executions.{
  schema, Mongo, World, kill_of, get, may_be_killed, put_answered, put_key_value, kill_got,
  kill_by_id,
}

module _ (table : Table schema) (mongo : Mongo) (kv : Kv) (encode : JobKill → Bytes) where
  open table use {row, update}
  open kv use {value, put, put_ok}

  abbrev W : Type 0
  W = World table.State mongo.State kv.State

  pub kill_got-refused :
      (x : Result JobExecute) (r : JobExecute) (w : W)
      → x ≡ ok r
      → may_be_killed r.status ≡ false
      → (kill_got table mongo kv encode x w).1 ≡ w
        × ((kill_got table mongo kv encode x w).0
            ≡ err (codes "当前执行的状态是" ++ (r.status ++ codes "，不可kill了")))
  kill_got-refused (ok q) r w e over =
      let same : q ≡ r = cc e in
      let over' : may_be_killed q.status ≡ false =
        ap (λ (p : JobExecute). may_be_killed p.status) same ∙ over in
      let refused = if_false (may_be_killed q.status) _ _ over' in
      (
        ap (λ (v : Result Bool × W). v.1) refused,
        ap (λ (v : Result Bool × W). v.0) refused
            ∙ ap
                (λ (p : JobExecute).
                  let v : Result Bool = err (codes "当前执行的状态是" ++ (p.status ++ codes "，不可kill了")) in
                  v)
                same,
      )
  kill_got-refused (err t) r w e over = absurd (cc e)

  kill_got-allowed :
      (x : Result JobExecute) (r : JobExecute) (w : W)
      → x ≡ ok r
      → may_be_killed r.status ≡ true
      → kill_got table mongo kv encode x w
        ≡ put_key_value table mongo kv encode
            (kill_etcd_key r.category r.job_id)
            (encode (kill_of r))
            w
  kill_got-allowed (ok q) r w e allowed =
      let same : q ≡ r = cc e in
      let allowed' : may_be_killed q.status ≡ true =
        ap (λ (p : JobExecute). may_be_killed p.status) same ∙ allowed in
      if_true (may_be_killed q.status) _ _ allowed'
      ∙ ap
          (λ (p : JobExecute).
            put_key_value table mongo kv encode (kill_etcd_key p.category p.job_id)
              (encode (kill_of p)) w)
          same
  kill_got-allowed (err t) r w e allowed = absurd (cc e)

  put_answered-ok :
      (x : Result (Option Bytes) × kv.State) (w : W) (p : Option Bytes)
      → x.0 ≡ ok p
      → put_answered table mongo kv encode x w ≡ (ok true, record w { etcd = x.1 })
  put_answered-ok (ok q, s) w p e = refl
  put_answered-ok (err t, s) w p e = absurd (cc e)

  -- A kill that etcd takes.
  pub kill_by_id-puts :
      (id : ℤ) (r : JobExecute) (w : W) (p : Option Bytes)
      → get table mongo kv encode id w ≡ ok r
      → may_be_killed r.status ≡ true
      → trim_space (encode (kill_of r)) ≡ encode (kill_of r)
      → leb (length (encode (kill_of r))) 0 ≡ false
      → (put (kill_etcd_key r.category r.job_id) (encode (kill_of r)) w.etcd).0 ≡ ok p
      → kill_by_id table mongo kv encode id w ≡ (
        ok true,
        record w { etcd = (put (kill_etcd_key r.category r.job_id) (encode (kill_of r)) w.etcd).1 },
      )
  unfolding kill_by_id put_key_value
  kill_by_id-puts id r w p got allowed trimmed full taken =
      kill_got-allowed (get table mongo kv encode id w) r w got allowed
      ∙ rw
          (
            kill_etcd_key-trimmed r.category r.job_id,
            kill_etcd_key-full r.category r.job_id,
            trimmed,
            full,
          )
          (put_answered-ok _ w p taken)

  -- When an execution is read whose status is one that may be killed, and etcd takes the write of
  -- its kill, whose encoding has no white space at its ends and is read back on the master: the
  -- kill is answered with success, etcd holds it under the key of the category and job, and when
  -- its event has been pushed in a message of 1 to 65535 bytes, a connected worker on which that
  -- job executes cancels the context of that execution and marks it with `kill`, whichever
  -- execution of the job it is.
  pub kill_by_id_cancels :
      (cron : Cron) (json : Json) (id : ℤ) (r : JobExecute) (w : W) (p : Option Bytes)
      (client : Text) (clock : ℕ → Time) (spares : ℕ → Bytes) (s : Scheduler cron.Expression)
      (i : ℕ) (info : JobExecuteInfo)
      → get table mongo kv encode id w ≡ ok r
      → may_be_killed r.status ≡ true
      → trim_space (encode (kill_of r)) ≡ encode (kill_of r)
      → leb (length (encode (kill_of r))) 0 ≡ false
      → (put (kill_etcd_key r.category r.job_id) (encode (kill_of r)) w.etcd).0 ≡ ok p
      → json.decode_kill (encode (kill_of r)) ≡ some (kill_of r)
      → Fits json (kill_event (kill_of r))
      → lookup (job_key r.category r.job_id) s.job_executing_table ≡ some i
      → get_elem? s.infos i ≡ some info
      → ((kill_by_id table mongo kv encode id w).0 ≡ ok true)
        × (value (kill_etcd_key r.category r.job_id) (kill_by_id table mongo kv encode id w).1.etcd
            ≡ some (encode (kill_of r)))
        × (get_elem?
              (handle_all cron json clock
                (reade_loop json spares (
                  to_client json client
                    (WatchEvent.put (kill_etcd_key r.category r.job_id) (encode (kill_of r)) ∷ [])
                    (watch_kill json)))
                s).infos
              i
            ≡ some (cancel_with (codes "kill") info))
  kill_by_id_cancels cron json id r w p client clock spares s i info got allowed trimmed full taken
        decoded fits busy at =
      let key = kill_etcd_key r.category r.job_id in
      let puts = kill_by_id-puts id r w p got allowed trimmed full taken in
      (
        ap (λ (v : Result Bool × W). v.0) puts,
        ap (λ (v : Result Bool × W). value key v.1.etcd) puts
            ∙ (put_ok key (encode (kill_of r)) w.etcd p taken).1,
        put_kill_cancels cron json client key (encode (kill_of r)) (kill_of r) clock spares s i info
            decoded fits busy at,
      )
