-- ===== src/Executions/Over.antt =====
-- Killing an execution after its end (backend/common/repositories/jobExecute.go, `SaveExecuteLog`,
-- `KillByID`).
use cronjob.Base.{
  ◌≡◌, ◌⊎◌, refl, sym, ap, subst, ◌∙◌, Bool, true, false, Bool-cases, inl, inr, if◌then◌else◌, ◌++◌,
  [], Option, none, some, leb, length, Text, codes, text_eq,
}
use cronjob.Base.Int.{pos}
use cronjob.Base.Time.{Time}
use cronjob.Data.{JobExecute, JobExecuteResult}
use cronjob.Executor.{Result, ok, err}
use cronjob.Packet.{Bytes}
use cronjob.MasterLock.{trim_space}
use cronjob.Push.{JobKill}
use cronjob.Database.{Table}
use cronjob.KeyStore.{Kv}
use cronjob.Kills.{kill_etcd_key}
use cronjob.Executions.{
  schema, final_status, log_of, log_fields, Mongo, World, kill_of, get, may_be_killed, kill_by_id,
  record_log, save_execute_log,
}
use cronjob.Executions.Recorded.{IsGorm, get-row, save_execute_log_records}
use cronjob.Executions.Killing.{kill_got-refused, kill_by_id-puts}

module _ (table : Table schema) (mongo : Mongo) (kv : Kv) (encode : JobKill → Bytes) where
  open table use {row, update}
  open kv use {value, put, put_ok}

  abbrev W : Type 0
  W = World table.State mongo.State kv.State

  -- The statuses with which a worker reports a result.
  abbrev pub IsReportedStatus : Text → Type 0
  IsReportedStatus status = (status ≡ []) ⊎ ((status ≡ codes "kill") ⊎ (status ≡ codes "timeout"))

  -- That the status that is chosen for a reported status and an error is of no running execution.
  abbrev IsOver : Text → Text → Type 0
  IsOver error status =
      may_be_killed (
        if leb (length status) 0
        then (if leb (length error) 0 then codes "done" else codes "error")
        else status)
      ≡ false

  IsOver-reported : (status error : Text) → IsReportedStatus status → IsOver error status
  unfolding may_be_killed text_eq
  IsOver-reported status error (inl e) =
      subst (IsOver error) (sym e)
        (elim (Bool-cases (leb (length error) 0)) [ inl d ↦ rw d refl | inr f ↦ rw f refl ])
  IsOver-reported status error (inr (inl e)) = subst (IsOver error) (sym e) refl
  IsOver-reported status error (inr (inr e)) = subst (IsOver error) (sym e) refl

  final_status-over :
      (r : JobExecuteResult) → IsReportedStatus r.status → may_be_killed (final_status r) ≡ false
  unfolding final_status
  final_status-over r h = IsOver-reported r.status r.error h

  some_status :
      (a b : JobExecute) → ◌≡◌ {A = Option JobExecute} (some a) (some b) → a.status ≡ b.status
  some_status a b e = ap (λ (q : JobExecute). q.status) (let same : a ≡ b = cc e in same)

  pair_eq : {x y : Result Bool} {v u : W} → v ≡ u → x ≡ y → ◌≡◌ {A = Result Bool × W} (x, v) (y, u)
  pair_eq e f = rw (e, f) refl

  record_log-err :
      (x : Result Text × mongo.State) (r : JobExecuteResult) (now : Time) (w : W) (e : Text)
      → x.0 ≡ err e
      → record_log table mongo kv encode x r now w ≡ (ok none, record w { mongo = x.1 })
  record_log-err (err t, m) r now w e h = refl
  record_log-err (ok i, m) r now w e h = absurd (cc h)

  -- After an execution that a worker has reported is recorded, killing it is refused with its status,
  -- and changes nothing, if the execution can be read again.
  pub recorded_is_not_killed :
      (gorm : IsGorm table) (r : JobExecuteResult) (now : Time) (w : W) (log_id : Text)
      (full again : JobExecute)
      → get table mongo kv encode (pos r.execute_id) w ≡ ok full
      → (mongo.insert_one (log_of r) w.mongo).0 ≡ ok log_id
      → (update full (log_fields log_id (final_status r) now) w.db).0 ≡ none
      → IsReportedStatus r.status
      → get table mongo kv encode
          (pos r.execute_id)
          (save_execute_log table mongo kv encode r now w).1
        ≡ ok again
      → kill_by_id table mongo kv encode
          (pos r.execute_id)
          (save_execute_log table mongo kv encode r now w).1
        ≡ (
          err (codes "当前执行的状态是" ++ (final_status r ++ codes "，不可kill了")),
          (save_execute_log table mongo kv encode r now w).1,
        )
  unfolding kill_by_id
  recorded_is_not_killed gorm r now w log_id full again got inserted taken reported read =
      let v = (save_execute_log table mongo kv encode r now w).1 in
      let recorded =
        save_execute_log_records table mongo kv encode gorm r now w log_id full got inserted
          taken in
      let stored : row r.execute_id v.db ≡ some again =
        (get-row table mongo kv encode r.execute_id v again read).0 in
      let status : again.status ≡ final_status r = some_status again _ (sym stored ∙ recorded.1) in
      let over : may_be_killed again.status ≡ false =
        ap may_be_killed status ∙ final_status-over r reported in
      let refused =
        kill_got-refused table mongo kv encode (get table mongo kv encode (pos r.execute_id) v)
          again v read over in
      pair_eq refused.0 (
        refused.1
        ∙ ap (λ t. let e : Result Bool = err (codes "当前执行的状态是" ++ (t ++ codes "，不可kill了")) in e)
            status)

  -- When the execution of a result is read, its status being one that may be killed, and MongoDB does
  -- not take the log of the result: the database stays as it was and no error is answered, and if etcd
  -- takes the write of a kill, whose encoding is not empty and has no white space at its ends, killing
  -- the execution that has ended still puts a kill of its job into etcd.
  pub lost_log_leaves_killable :
      (r : JobExecuteResult) (now : Time) (w : W) (e : Text) (full : JobExecute) (p : Option Bytes)
      → get table mongo kv encode (pos r.execute_id) w ≡ ok full
      → may_be_killed full.status ≡ true
      → trim_space (encode (kill_of full)) ≡ encode (kill_of full)
      → leb (length (encode (kill_of full))) 0 ≡ false
      → (put (kill_etcd_key full.category full.job_id) (encode (kill_of full)) w.etcd).0 ≡ ok p
      → (mongo.insert_one (log_of r) w.mongo).0 ≡ err e
      → ((save_execute_log table mongo kv encode r now w).0 ≡ ok none)
        × ((save_execute_log table mongo kv encode r now w).1.db ≡ w.db)
        × (value
              (kill_etcd_key full.category full.job_id)
              (kill_by_id table mongo kv encode
                (pos r.execute_id)
                (save_execute_log table mongo kv encode r now w).1).1.etcd
            ≡ some (encode (kill_of full)))
  unfolding save_execute_log
  lost_log_leaves_killable r now w e full p got going trimmed filled taken lost =
      let w' : W = record w { mongo = (mongo.insert_one (log_of r) w.mongo).1 } in
      let key = kill_etcd_key full.category full.job_id in
      let steps : save_execute_log table mongo kv encode r now w ≡ (ok none, w') =
        record_log-err (mongo.insert_one (log_of r) w.mongo) r now w e lost in
      let puts =
        kill_by_id-puts table mongo kv encode (pos r.execute_id) full w' p got going trimmed filled
          taken in
      (
        ap (λ (v : Result (Option JobExecute) × W). v.0) steps,
        ap (λ (v : Result (Option JobExecute) × W). v.1.db) steps,
        ap
              (λ (v : Result (Option JobExecute) × W).
                value key (kill_by_id table mongo kv encode (pos r.execute_id) v.1).1.etcd)
              steps
            ∙ ap (λ (v : Result Bool × W). value key v.1.etcd) puts
            ∙ (put_ok key (encode (kill_of full)) w.etcd p taken).1,
      )
