-- ===== src/Executions.antt =====
-- The executions that the master keeps in the database, with their logs in MongoDB, and their killing
-- through etcd (backend/common/repositories/jobExecute.go). Every operation takes the states of the
-- three and returns them.
pub mod Recorded
pub mod Killing
pub mod Over
mod Tests
use cronjob.Base.{
  ℕ, ◌≡◌, Bool, true, false, ◌||◌, not, Option, none, some, List, [], ◌∷◌, ◌++◌, ◌==◌, ltb, leb,
  length, if◌then◌else◌, Text, codes, text_eq,
}
use cronjob.Base.Int.{ℤ, pos, leb_ℤ}
use cronjob.Base.Time.{Time}
use cronjob.Data.{JobExecute, JobExecuteResult}
use cronjob.Executor.{Result, ok, err}
use cronjob.Packet.{Bytes}
use cronjob.Push.{JobKill}
use cronjob.MasterLock.{trim_space}
use cronjob.Database.{Value, Fields, drop_id_keys, Schema, Table}
use cronjob.KeyStore.{Kv}
use cronjob.Kills.{kill_etcd_key}

abbrev pub schema : Schema JobExecute
schema = record { id_of = λ r. r.id; stamped = λ n t r. record r { id = n } }

pub record JobExecuteLog : Type 0 where
  pub job_execute_id : ℕ
  pub output : Text
  pub error : Text
  pub success : Bool

-- The status that is written for a result: its own, and else whether it has an error.
unfoldable pub final_status : JobExecuteResult → Text
final_status r =
    if leb (length r.status) 0
    then (if leb (length r.error) 0 then codes "done" else codes "error")
    else r.status

unfoldable pub log_of : JobExecuteResult → JobExecuteLog
log_of r = record {
  job_execute_id = r.execute_id;
  output = r.output;
  error = r.error;
  success = leb (length r.error) 0;
}

-- The fields of the update at the end of an execution.
abbrev pub log_fields : Text → Text → Time → Fields
log_fields log_id status now =
    (codes "log_id", Value.text log_id)
    ∷ (codes "status", Value.text status)
    ∷ (codes "EndTime", Value.time now)
    ∷ []

-- `Collection.InsertOne`: the ID that the log gets, in hexadecimal digits. `logs` observes the state.
pub record Mongo : Type 1 where
  pub State : Type 0
  pub log_at : Text → State → Option JobExecuteLog
  pub insert_one : JobExecuteLog → State → Result Text × State
  pub insert_ok :
      (log : JobExecuteLog) (s : State) (id : Text)
      → (insert_one log s).0 ≡ ok id
      → log_at id (insert_one log s).1 ≡ some log

-- The states of the table, of MongoDB and of etcd.
pub record World (D M E : Type 0) : Type 0 where
  pub db : D
  pub mongo : M
  pub etcd : E

-- The kill of the job of an execution, as it is written to etcd: the fields that are read there.
abbrev pub kill_of : JobExecute → JobKill
kill_of r = record { category = r.category; job_id = r.job_id }

-- The statuses of an execution that may be killed.
unfoldable pub may_be_killed : Text → Bool
unfolding text_eq
may_be_killed status =
    text_eq status (codes "start")
    || text_eq status (codes "todo")
    || text_eq status (codes "doding")

-- An execution without an ID is not found.
abbrev pub with_id : Result JobExecute → Result JobExecute
with_id (err e) = err e
with_id (ok r) = if ltb 0 r.id then ok r else err (codes "404 not fount")

module _ (table : Table schema) (mongo : Mongo) (kv : Kv) (encode : JobKill → Bytes) where
  open table use {first, assign, update}

  abbrev pub W : Type 0
  W = World table.State mongo.State kv.State

  abbrev created : Result JobExecute × table.State → W → Result JobExecute × W
  created (r, d) w = (r, record w { db = d })

  -- `Create`
  unfoldable pub create : JobExecute → W → Result JobExecute × W
  create r w =
      if ltb 0 r.id then (err (codes "不可创建设置了ID的对象"), w) else created (table.create r w.db) w

  -- `Get`, of all fields
  unfoldable pub get : ℤ → W → Result JobExecute
  get id w = with_id (first (λ r. r) id w.db)

  abbrev pub updated : Option Text × table.State → JobExecute → W → Result JobExecute × W
  updated (some e, d) r w = (err e, record w { db = d })
  updated (none, d) r w = (ok r, record w { db = d })

  -- `Update`
  unfoldable pub update_execute : JobExecute → Fields → W → Result JobExecute × W
  unfolding drop_id_keys
  update_execute r fields w =
      if r.id == 0
      then (err (codes "传入ID为0，会更新全部数据"), w)
      else (let kept = drop_id_keys fields in updated (update r kept w.db) (assign kept r) w)

  abbrev pub update_got : Result JobExecute → Fields → W → Result JobExecute × W
  update_got (err e) fields w = (err e, w)
  update_got (ok r) fields w = update_execute r fields w

  -- `UpdateByID`
  unfoldable pub update_by_id : ℤ → Fields → W → Result JobExecute × W
  unfolding get update_execute
  update_by_id id fields w =
      if leb_ℤ id (pos 0)
      then (err (codes "传入的ID为0，会更新全部数据"), w)
      else update_got (get id w) fields w

  abbrev some_execute : Result JobExecute × W → Result (Option JobExecute) × W
  some_execute (ok r, w) = (ok (some r), w)
  some_execute (err e, w) = (err e, w)

  -- An error of MongoDB is only logged: neither an execution nor an error is returned.
  abbrev pub record_log :
      Result Text × mongo.State → JobExecuteResult → Time → W → Result (Option JobExecute) × W
  record_log (err e, m) r now w = (ok none, record w { mongo = m })
  record_log (ok id, m) r now w = some_execute (
      update_by_id (pos r.execute_id) (log_fields id (final_status r) now) (record w { mongo = m }))

  -- `SaveExecuteLog`
  unfoldable pub save_execute_log : JobExecuteResult → Time → W → Result (Option JobExecute) × W
  unfolding final_status log_of update_by_id
  save_execute_log r now w = record_log (mongo.insert_one (log_of r) w.mongo) r now w

  abbrev pub put_answered : Result (Option Bytes) × kv.State → W → Result Bool × W
  put_answered (err e, s) w = (err e, record w { etcd = s })
  put_answered (ok p, s) w = (ok true, record w { etcd = s })

  -- `PutKeyValue`
  unfoldable pub put_key_value : Text → Bytes → W → Result Bool × W
  unfolding trim_space
  put_key_value key value w =
      let key' = trim_space key in
      let value' = trim_space value in
      if leb (length key') 0
      then (err (codes "etcdKey不可为空"), w)
      else if leb (length value') 0
      then (err (codes "传入的etcdValue不可为空"), w)
      else put_answered (kv.put key' value' w.etcd) w

  abbrev pub kill_got : Result JobExecute → W → Result Bool × W
  kill_got (err e) w = (err e, w)
  kill_got (ok r) w =
      if may_be_killed r.status
      then put_key_value (kill_etcd_key r.category r.job_id) (encode (kill_of r)) w
      else (err (codes "当前执行的状态是" ++ (r.status ++ codes "，不可kill了")), w)

  -- `KillByID`
  unfoldable pub kill_by_id : ℤ → W → Result Bool × W
  unfolding get may_be_killed put_key_value kill_etcd_key
  kill_by_id id w = kill_got (get id w) w
