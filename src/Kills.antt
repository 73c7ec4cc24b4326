-- ===== src/Kills.antt =====
-- The kills that the master keeps in the database and in etcd (backend/common/repositories/kill.go,
-- killEtcd.go, backend/common/datamodels/kill.go). Every operation takes the states of both and
-- returns them; an operation that is given a pointer to a kill returns what it points to.
pub mod Laws
pub mod Rows
pub mod Synced
pub mod Ended
pub mod Single
pub mod WrongKey
mod Tests
use cronjob.Base.{
  ℕ, ◌≡◌, Bool, true, false, ◌&&◌, not, Option, none, some, List, [], ◌∷◌, ◌++◌, ◌==◌, ltb, leb,
  length, if◌then◌else◌, Text, codes, decimal,
}
use cronjob.Base.Int.{ℤ, pos, leb_ℤ}
use cronjob.Base.Time.{Time}
use cronjob.Executor.{Result, ok, err}
use cronjob.Packet.{Bytes}
use cronjob.MasterLock.{trim_space}
use cronjob.Database.{Value, Fields, drop_id_keys, Schema, Table}
use cronjob.KeyStore.{
  Kv, Found, found, not_found, get_failed, Saved, saved, invalid, missing, already_there, failed,
  answer, save_over, delete_from_etcd,
}

pub record JobKill : Type 0 where
  pub id : ℕ
  pub created_at : Time
  pub etcd_key : Text
  pub category : Text
  pub job_id : ℕ
  pub killed : Bool
  pub finished_at : Option Time
  pub result : Text

pub record KillEtcd : Type 0 where
  pub id : ℕ
  pub created_at : Time
  pub category : Text
  pub job_id : ℕ
  pub killed : Bool

unfoldable pub to_etcd_data_struct : JobKill → KillEtcd
to_etcd_data_struct k = record {
  id = k.id;
  created_at = k.created_at;
  category = k.category;
  job_id = k.job_id;
  killed = k.killed;
}

abbrev pub schema : Schema JobKill
schema = record { id_of = λ k. k.id; stamped = λ n t k. record k { id = n; created_at = t } }

-- `ETCD_JOB_KILL_DIR`
abbrev pub kill_dir : Text
kill_dir = codes "/crontab/kill/"

-- `/crontab/kill/<category>/<id>`
unfoldable pub kill_etcd_key : Text → ℕ → Text
kill_etcd_key category id = kill_dir ++ (category ++ (codes "/" ++ decimal id))

-- The rows of unfinished kills of a job.
abbrev pub is_unfinished : ℕ → JobKill → Bool
is_unfinished job_id k = k.job_id == job_id && not k.killed

-- `infoFields` has all columns but the key in etcd.
abbrev pub info_fields : JobKill → JobKill
info_fields k = record k { etcd_key = [] }

-- `Select("id, category, job_id")`
abbrev pub short_fields : JobKill → JobKill
short_fields k = record {
  id = k.id;
  created_at = 0;
  etcd_key = [];
  category = k.category;
  job_id = k.job_id;
  killed = false;
  finished_at = none;
  result = [];
}

-- The fields of an update of the key, and of the end of a kill.
abbrev pub key_fields : Text → Fields
key_fields key = (codes "EtcdKey", Value.text key) ∷ []

abbrev pub end_fields : Time → Fields
end_fields now = (codes "FinishedAt", Value.time now) ∷ (codes "Killed", Value.flag true) ∷ []

-- The states of the table and of etcd.
pub record World (D E : Type 0) : Type 0 where
  pub db : D
  pub etcd : E

module _ (table : Table schema) (kv : Kv) (decode : Bytes → Result KillEtcd)
    (encode : KillEtcd → Bytes) where
  open table use {first, first_where, create, assign, update, update_row}

  abbrev pub W : Type 0
  W = World table.State kv.State

  -- `getJobKillFromEtcd`
  unfoldable pub get_job_kill_from_etcd : Text → ℕ → kv.State → Found KillEtcd
  unfolding trim_space kill_etcd_key
  get_job_kill_from_etcd category id s =
      let name = trim_space category in
      if leb (length name) 0
      then get_failed (codes "传入的分类不可为空")
      else if id == 0
      then get_failed (codes "传入的ID不可小于1")
      else answer kv decode encode (kv.get (kill_etcd_key name id) s)

  -- A kill that has no key yet gets it, in memory and in the database.
  abbrev pub keep_key_if : Bool → JobKill → W → JobKill × W
  keep_key_if false k w = (k, w)
  keep_key_if true k w =
      let key = kill_etcd_key k.category k.job_id in
      let with_key : JobKill = record k { etcd_key = key } in
      (with_key, record w { db = (update with_key (key_fields key) w.db).1 })

  abbrev pub keep_key : JobKill → W → JobKill × W
  keep_key k w = keep_key_if (leb (length k.etcd_key) 0) k w

  -- The kill that is there is looked up under the ID of the kill, and written under the ID of the job.
  abbrev pub save_kept : Bool → JobKill × W → Saved KillEtcd × kv.State
  save_kept is_create (k, w) =
      save_over kv decode encode is_create (get_job_kill_from_etcd k.category k.id w.etcd)
        (kill_etcd_key k.category k.job_id) (to_etcd_data_struct k) w.etcd

  abbrev pub with_etcd : JobKill × W → Saved KillEtcd × kv.State → Saved KillEtcd × JobKill × W
  with_etcd (k, w) (r, s) = (r, k, record w { etcd = s })

  abbrev pub save_named : Bool → JobKill × W → Saved KillEtcd × JobKill × W
  save_named is_create kw = with_etcd kw (save_kept is_create kw)

  -- `saveJobkillToEtcd`
  unfoldable pub save_jobkill_to_etcd : Bool → JobKill → W → Saved KillEtcd × JobKill × W
  unfolding get_job_kill_from_etcd kill_etcd_key to_etcd_data_struct
  save_jobkill_to_etcd is_create k w =
      if k.job_id == 0
      then (invalid (codes "JobKill的Job ID不能为空"), k, w)
      else if leb (length k.category) 0
      then (invalid (codes "job Kill的Category不可为空"), k, w)
      else save_named is_create (keep_key k w)

  -- `deleteJobKillFromEtcd`
  unfoldable pub delete_job_kill_from_etcd : JobKill → W → Result Bool × W
  unfolding delete_from_etcd kill_etcd_key
  delete_job_kill_from_etcd k w =
      let key =
        if leb (length k.etcd_key) 0 then kill_etcd_key k.category k.job_id else k.etcd_key in
      let (r, s) = delete_from_etcd kv kill_dir key w.etcd in (r, record w { etcd = s })

  -- `Get`
  unfoldable pub get : ℤ → W → Result JobKill
  get id w = first info_fields id w.db

  -- A saved kill that is not killed is published in etcd, whatever comes of it.
  abbrev pub publish_unless : Bool → JobKill → W → JobKill × W
  publish_unless true k w = (k, w)
  publish_unless false k w = let (r, k', w') = save_jobkill_to_etcd true k w in (k', w')

  abbrev pub publish : JobKill → W → JobKill × W
  publish k w = publish_unless k.killed k w

  abbrev pub created : Result JobKill × table.State → W → Result JobKill × W
  created (err e, d) w = (err e, record w { db = d })
  created (ok k, d) w = let (k', w') = publish k (record w { db = d }) in (ok k', w')

  -- The unfinished kill of the job is already in the database: what becomes of etcd.
  abbrev pub trigger_again : Found KillEtcd → JobKill → W → W
  trigger_again not_found k w = (publish k w).1
  trigger_again (found prev) k w = let (r, k', w') = save_jobkill_to_etcd false k w in w'
  trigger_again (get_failed e) k w = w

  abbrev pub exists_text : ℕ → ℕ → Text
  exists_text job_id id =
      codes "jobID="
      ++ (decimal job_id ++ (codes "，已经存在未完成的jobKill(ID:" ++ (decimal id ++ codes ")")))

  abbrev pub save_unless : Result JobKill → JobKill → W → Result JobKill × W
  save_unless (err e) k w = created (create k w.db) w
  save_unless (ok old) k w =
      if ltb 0 old.id
      then (
        err (exists_text k.job_id old.id),
        trigger_again (get_job_kill_from_etcd old.category old.job_id w.etcd) k w,
      )
      else created (create k w.db) w

  abbrev pub saved_row : Option Text × table.State → JobKill → W → Result JobKill × W
  saved_row (some e, d) k w = (err e, record w { db = d })
  saved_row (none, d) k w =
      if k.killed
      then (let (r, w') = delete_job_kill_from_etcd k (record w { db = d }) in (ok k, w'))
      else (ok k, record w { db = d })

  -- `Save`
  unfoldable pub save : JobKill → W → Result JobKill × W
  unfolding get_job_kill_from_etcd save_jobkill_to_etcd delete_job_kill_from_etcd
  save k w =
      if ltb 0 k.id
      then saved_row (update_row k w.db) k w
      else save_unless (first_where short_fields (is_unfinished k.job_id) w.db) k w

  -- After the update of an object that is not in etcd it is created there.
  abbrev pub created_instead : Saved KillEtcd × JobKill × W → JobKill × W
  created_instead (missing, k, w) = let (r, k', w') = save_jobkill_to_etcd true k w in (k', w')
  created_instead (saved prev, k, w) = (k, w)
  created_instead (invalid e, k, w) = (k, w)
  created_instead (already_there prev, k, w) = (k, w)
  created_instead (failed e, k, w) = (k, w)

  abbrev pub sync_if : Bool → JobKill → W → Result JobKill × W
  sync_if true k w = (ok k, (delete_job_kill_from_etcd k w).1)
  sync_if false k w = let (k', w') = created_instead (save_jobkill_to_etcd false k w) in (ok k', w')

  abbrev pub sync_etcd : JobKill → W → Result JobKill × W
  sync_etcd k w = sync_if k.killed k w

  abbrev pub updated : Option Text × table.State → JobKill → W → Result JobKill × W
  updated (some e, d) k w = (err e, record w { db = d })
  updated (none, d) k w = sync_etcd k (record w { db = d })

  -- `Update`
  unfoldable pub update_kill : JobKill → Fields → W → Result JobKill × W
  unfolding save_jobkill_to_etcd delete_job_kill_from_etcd drop_id_keys
  update_kill k fields w =
      if k.id == 0
      then (err (codes "传入ID为0，会更新全部数据"), w)
      else (let kept = drop_id_keys fields in updated (update k kept w.db) (assign kept k) w)

  abbrev pub update_got : Result JobKill → Fields → W → Result JobKill × W
  update_got (err e) fields w = (err e, w)
  update_got (ok k) fields w = update_kill k fields w

  -- `UpdateByID`
  unfoldable pub update_by_id : ℤ → Fields → W → Result JobKill × W
  unfolding get update_kill
  update_by_id id fields w =
      if leb_ℤ id (pos 0)
      then (err (codes "传入的ID为0，会更新全部数据"), w)
      else update_got (get id w) fields w

  abbrev pub finish_got : Result JobKill → Time → W → Result JobKill × W
  finish_got (err e) now w = (err e, w)
  finish_got (ok k) now w =
      if k.killed then (err (codes "当前JobKill已经是Killed"), w) else update_kill k (end_fields now) w

  -- `SetFinishedByID`
  unfoldable pub set_finished_by_id : ℤ → Time → W → Result JobKill × W
  unfolding get update_kill
  set_finished_by_id id now w = finish_got (get id w) now w
