-- ===== src/Executions/Tests.antt =====
-- Executions (backend/common/repositories/jobExecute.go) in concrete stores.
use cronjob.Base.{
  ℕ, ◌≡◌, ◌∙◌, refl, inl, true, none, some, [], ◌∷◌, ◌++◌, Text, codes, decimal, text_eq,
  text_eq_refl, if◌then◌else◌, Assoc, lookup, insert, delete, lookup-insert, arith, length,
  get_elem?,
}
use cronjob.Base.Int.{pos}
use cronjob.Base.Time.{Time}
use cronjob.Data.{JobExecute, JobExecuteResult, job_key, cancel_with}
use cronjob.Executor.{Result, ok, err}
use cronjob.Packet.{Bytes}
use cronjob.MasterLock.{trim_space}
use cronjob.Database.{Value, Fields, Table}
use cronjob.Database.Concrete.{database}
use cronjob.KeyStore.Concrete.{store}
use cronjob.Kills.{kill_etcd_key}
use cronjob.Push.{JobKill, WatchEvent, watch_kill, reade_loop}
use cronjob.Push.Delivery.{to_client}
use cronjob.Push.Follow.{handle_all}
use cronjob.Push.Concrete.{coded, every, executing, running, put_text}
use cronjob.Executions.{
  schema, JobExecuteLog, final_status, Mongo, World, kill_of, get, may_be_killed, kill_by_id,
  save_execute_log,
}
use cronjob.Executions.Recorded.{IsGorm}
use cronjob.Executions.Killing.{kill_by_id_cancels}
use cronjob.Executions.Over.{recorded_is_not_killed, lost_log_leaves_killable}

-- gorm on the fields that are used.
abbrev set_field : Text → Value → JobExecute → JobExecute
set_field name (Value.text t) r =
    if text_eq name (codes "log_id") then record r { log_id = t } else record r { status = t }
set_field name (Value.time t) r = record r { end_time = t }
set_field name (Value.flag b) r = r
set_field name (Value.number z) r = r

abbrev assign_fields : Fields → JobExecute → JobExecute
assign_fields [] r = r
assign_fields ((name, v) ∷ f) r = assign_fields f (set_field name v r)

id-set_field : (name : Text) (v : Value) (r : JobExecute) → (set_field name v r).id ≡ r.id
id-set_field name (Value.text t) r = ground arith
id-set_field name (Value.time t) r = refl
id-set_field name (Value.flag b) r = refl
id-set_field name (Value.number z) r = refl

pub id-assign_fields : (f : Fields) (r : JobExecute) → (assign_fields f r).id ≡ r.id
id-assign_fields [] r = refl
id-assign_fields ((name, v) ∷ f) r = id-assign_fields f (set_field name v r) ∙ id-set_field name v r

pub id-stamped : (n : ℕ) (t : Time) (r : JobExecute) → (schema.stamped n t r).id ≡ n
id-stamped n t r = refl

pub stamped-assign_fields :
    (f : Fields) (n : ℕ) (t : Time) (r : JobExecute)
    → schema.stamped n t (assign_fields f (schema.stamped n t r))
      ≡ assign_fields f (schema.stamped n t r)
stamped-assign_fields f n t r = let same = id-assign_fields f (schema.stamped n t r) in ground arith

abbrev table : Table schema
table = database schema assign_fields id-stamped stamped-assign_fields id-assign_fields

gorm : IsGorm table
unfolding text_eq
gorm = record { assign_log = λ log_id status now r. refl }

-- MongoDB with numbered logs, and one that is not there.
pub logged :
    (log : JobExecuteLog) (s : Assoc JobExecuteLog) (id : Text)
    → ◌≡◌ {A = Result Text} (ok (decimal (length s))) (ok id)
    → lookup id (insert (decimal (length s)) log s) ≡ some log
logged log s id e =
    let same : decimal (length s) ≡ id = cc e in rw (same, lookup-insert, text_eq_refl) refl

abbrev numbered : Mongo
numbered = record {
  State = Assoc JobExecuteLog;
  log_at = lookup;
  insert_one = λ log s. (ok (decimal (length s)), insert (decimal (length s)) log s);
  insert_ok = logged;
}

pub not_logged :
    (log : JobExecuteLog) (s : Assoc JobExecuteLog) (id : Text)
    → ◌≡◌ {A = Result Text} (err (codes "no server")) (ok id)
    → lookup id s ≡ some log
not_logged log s id e = absurd (cc e)

abbrev down : Mongo
down = record {
  State = Assoc JobExecuteLog;
  log_at = lookup;
  insert_one = λ log s. (err (codes "no server"), s);
  insert_ok = not_logged;
}

abbrev execution : JobExecute
execution = record {
  id = 1;
  worker = codes "w";
  category = codes "ops";
  name = codes "x";
  job_id = 1;
  command = codes "ls";
  status = codes "start";
  plan_time = 5;
  schedule_time = 6;
  start_time = 6;
  end_time = 0;
  log_id = [];
}

abbrev result : JobExecuteResult
result = record {
  execute_id = 1;
  execute_info = 0;
  is_executed = true;
  output = codes "a";
  error = [];
  start_time = 6;
  end_time = 7;
  status = [];
}

abbrev started : World table.State (Assoc JobExecuteLog) store.State
started = record { db = (1, λ n. (0, execution)); mongo = []; etcd = [] }

abbrev encode : JobKill → Bytes
encode k = put_text k.category (k.job_id ∷ [])

recorded_is_not_killed_example :
    let w = (save_execute_log table numbered store encode result 9 started).1 in
    kill_by_id table numbered store encode (pos 1) w
    ≡ (err (codes "当前执行的状态是" ++ (codes "done" ++ codes "，不可kill了")), w)
unfolding get final_status decimal save_execute_log text_eq lookup insert delete
recorded_is_not_killed_example =
    recorded_is_not_killed table numbered store encode gorm result 9 started (codes "0") execution
      (record execution { log_id = codes "0"; status = codes "done"; end_time = 9 }) refl refl refl
      (inl refl) refl

lost_log_leaves_killable_example :
    let w = (save_execute_log table down store encode result 9 started).1 in
    ((save_execute_log table down store encode result 9 started).0 ≡ ok none)
    × (w.db ≡ started.db)
    × (lookup (kill_etcd_key (codes "ops") 1) (kill_by_id table down store encode (pos 1) w).1.etcd
        ≡ some (encode (kill_of execution)))
unfolding get may_be_killed trim_space lookup
lost_log_leaves_killable_example =
    lost_log_leaves_killable table down store encode result 9 started (codes "no server") execution
      none refl refl refl refl refl refl

kill_by_id_cancels_example :
    ((kill_by_id table numbered store encode (pos 1) started).0 ≡ ok true)
    × (lookup
          (kill_etcd_key (codes "ops") 1)
          (kill_by_id table numbered store encode (pos 1) started).1.etcd
        ≡ some (encode (kill_of execution)))
    × (get_elem?
          (handle_all every coded
            (λ n. n)
            (reade_loop coded
              (λ n. [])
              (to_client coded
                (codes "worker")
                (WatchEvent.put (kill_etcd_key (codes "ops") 1) (encode (kill_of execution)) ∷ [])
                (watch_kill coded)))
            executing).infos
          0
        ≡ some (cancel_with (codes "kill") running))
unfolding get may_be_killed trim_space lookup job_key decimal text_eq
kill_by_id_cancels_example =
    kill_by_id_cancels table numbered store encode every coded (pos 1) execution started none
      (codes "worker") (λ n. n) (λ n. []) executing 0 running refl refl refl refl refl refl
      (ground arith) refl refl
