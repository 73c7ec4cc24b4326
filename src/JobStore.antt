-- ===== src/JobStore.antt =====
-- What the master keeps of a job in etcd, its key, and the reading of it
-- (backend/common/repositories/jobEtcd.go, backend/common/datamodels/job.go), over an interface to the
-- keys and values of etcd and to encoding/json. Jobs has the saving, with its calls of the database.
use cronjob.Base.{ℕ, Bool, Option, ◌++◌, ◌==◌, leb, length, if◌then◌else◌, Text, codes, decimal}
use cronjob.Base.Int.{ℤ}
use cronjob.Base.Time.{Time}
use cronjob.Data.{JobEtcd}
use cronjob.Executor.{Result}
use cronjob.Packet.{Bytes}
use cronjob.MasterLock.{trim_space}
use cronjob.KeyStore.{Kv, Found, get_failed, answer}

pub record Category : Type 0 where
  pub id : ℕ
  pub name : Text

-- `Job`, with its category loaded.
pub record Job : Type 0 where
  pub id : ℕ
  pub created_at : Time
  pub category : Option Category
  pub name : Text
  pub time : Text
  pub command : Text
  pub description : Text
  pub is_active : Bool
  pub save_output : Bool
  pub timeout : ℤ

-- `ToEtcdStruct`
unfoldable pub to_etcd_struct : Job → Category → JobEtcd
to_etcd_struct job category = record {
  id = job.id;
  created_at = job.created_at;
  category = category.name;
  name = job.name;
  time = job.time;
  command = job.command;
  description = job.description;
  is_active = job.is_active;
  save_output = job.save_output;
  timeout = job.timeout;
}

-- `/crontab/jobs/<category>/<id>`
unfoldable pub job_etcd_key : Text → ℕ → Text
job_etcd_key category id = codes "/crontab/jobs/" ++ (category ++ (codes "/" ++ decimal id))

module _ (kv : Kv) (decode : Bytes → Result JobEtcd) (encode : JobEtcd → Bytes) where
  open kv use {State, get}

  -- `getJobFromEtcd`
  unfoldable pub get_job_from_etcd : Text → ℕ → State → Found JobEtcd
  unfolding trim_space job_etcd_key
  get_job_from_etcd category id s =
      let name = trim_space category in
      if leb (length name) 0
      then get_failed (codes "传入的分类不可为空")
      else if id == 0
      then get_failed (codes "传入的ID不可小于1")
      else answer kv decode encode (get (job_etcd_key name id) s)
