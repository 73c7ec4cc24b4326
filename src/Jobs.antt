-- ===== src/Jobs.antt =====
-- The jobs that the master keeps in the database and in etcd (backend/common/repositories/job.go, and
-- saveJobToEtcd of jobEtcd.go with its calls of the database). Every operation takes the states of the
-- two tables and of etcd and returns them.
pub mod Published
pub mod Deleted
pub mod Kept
pub mod Concrete
mod Tests
use cronjob.Base.{
  ℕ, zero, suc, ◌≡◌, Bool, true, false, ◌||◌, ◌&&◌, Option, none, some, List, [], ◌∷◌, ◌++◌, ◌==◌,
  ltb, leb, length, if◌then◌else◌, Text, codes, decimal, text_eq,
}
use cronjob.Base.Int.{ℤ, pos, leb_ℤ}
use cronjob.Base.Time.{Time}
use cronjob.Data.{JobEtcd}
use cronjob.Executor.{Result, ok, err}
use cronjob.Packet.{Bytes}
use cronjob.Database.{Value, Fields, drop_id_keys, Schema, Table}
use cronjob.KeyStore.{Kv, Found, Saved, saved, invalid, missing, already_there, failed, save_over}
use cronjob.JobStore.{Category, Job, to_etcd_struct, job_etcd_key, get_job_from_etcd}
use cronjob.Categories

-- `Job`, with its category if it is loaded.
pub record JobRow : Type 0 where
  pub id : ℕ
  pub created_at : Time
  pub etcd_key : Text
  pub category : Option Category
  pub category_id : ℕ
  pub name : Text
  pub time : Text
  pub command : Text
  pub description : Text
  pub is_active : Bool
  pub save_output : Bool
  pub timeout : ℤ

-- When it creates a job, gorm also writes the ID of its category, if that is loaded. A category without
-- an ID, which gorm would create, is given to it nowhere.
abbrev pub foreign_key : Option Category → ℕ → ℕ
foreign_key none n = n
foreign_key (some c) n = if c.id == 0 then n else c.id

abbrev pub schema : Schema JobRow
schema = record {
  id_of = λ j. j.id;
  stamped = λ n t j. record j {
    id = n;
    created_at = t;
    category_id = foreign_key j.category j.category_id;
  };
}

-- The fields of a job that etcd is given.
abbrev pub job_of : JobRow → Job
job_of j = record {
  id = j.id;
  created_at = j.created_at;
  category = j.category;
  name = j.name;
  time = j.time;
  command = j.command;
  description = j.description;
  is_active = j.is_active;
  save_output = j.save_output;
  timeout = j.timeout;
}

abbrev pub short_category : Categories.Category → Category
short_category c = record { id = c.id; name = c.name }

-- The category that is made if there is no default one.
abbrev pub default_category : Categories.Category
default_category = record {
  id = 0;
  created_at = 0;
  etcd_key = [];
  name = codes "default";
  description = [];
  check_cmd = codes "which bash";
  setup_cmd = codes "echo `date`";
  tear_down_cmd = codes "echo `date`";
  is_active = true;
}

abbrev pub key_fields : Text → Fields
key_fields key = (codes "EtcdKey", Value.text key) ∷ []

abbrev pub inactive_fields : Fields
inactive_fields = (codes "IsActive", Value.flag false) ∷ []

-- The states of the tables of jobs and of categories, and of etcd.
pub record World (D C E : Type 0) : Type 0 where
  pub db : D
  pub categories : C
  pub etcd : E

module _ (table : Table schema) (category_table : Table Categories.schema) (kv : Kv)
    (decode : Bytes → Result JobEtcd) (encode : JobEtcd → Bytes)
    (decode_category : Bytes → Result Categories.Category)
    (encode_category : Categories.Category → Bytes) where
  open table use {first, create, assign, update, update_row}

  abbrev pub W : Type 0
  W = World table.State category_table.State kv.State

  abbrev pub found_row : Result JobRow → Result JobRow
  found_row (ok j) = if ltb 0 j.id then ok j else err (codes "404 not fount")
  found_row (err e) = err (codes "404 not fount")

  -- `Get` and `GetWithCategory`
  unfoldable pub get : ℤ → W → Result JobRow
  get id w = found_row (first (λ j. j) id w.db)

  abbrev found_category : Result Categories.Category → Result Category
  found_category (ok c) = if ltb 0 c.id then ok (short_category c) else err (codes "404 not fount")
  found_category (err e) = err (codes "404 not fount")

  -- `GetByIdOrName` of the decimal digits of an ID
  unfoldable pub get_category_by_id : ℕ → W → Result Category
  get_category_by_id id w = found_category (
      category_table.first_where (λ c. c) (λ c. c.id == id || text_eq c.name (decimal id))
        w.categories)

  abbrev made_category :
      Result Categories.Category × Categories.World category_table.State kv.State
      → W
      → Result Category × W
  made_category (ok c, v) w = (ok (short_category c), record w { categories = v.db; etcd = v.etcd })
  made_category (err e, v) w = (err e, record w { categories = v.db; etcd = v.etcd })

  abbrev default_or_made : Result Category → W → Result Category × W
  default_or_made (ok c) w = (ok c, w)
  default_or_made (err e) w =
      made_category
        (Categories.save category_table kv decode_category encode_category default_category
          (record { db = w.categories; etcd = w.etcd }))
        w

  -- `getOrCreateDefaultCategory`
  unfoldable pub get_or_create_default_category : W → Result Category × W
  unfolding text_eq
  get_or_create_default_category w =
      default_or_made
        (found_category (
          category_table.first_where (λ c. c) (λ c. text_eq c.name (codes "default")) w.categories))
        w

  -- A job that has no key yet gets it, in memory and in the database.
  abbrev pub keep_key_if : Bool → Text → JobRow → W → JobRow × W
  keep_key_if false key j w = (j, w)
  keep_key_if true key j w =
      let with_key : JobRow = record j { etcd_key = key } in
      (with_key, record w { db = (update with_key (key_fields key) w.db).1 })

  abbrev pub with_etcd : JobRow × W → Saved JobEtcd × kv.State → Saved JobEtcd × JobRow × W
  with_etcd (j, w) (r, s) = (r, j, record w { etcd = s })

  abbrev pub save_kept : Bool → Category → JobRow × W → Saved JobEtcd × JobRow × W
  save_kept is_create c (j, w) =
      with_etcd (j, w)
        (save_over kv decode encode is_create
          (get_job_from_etcd kv decode encode c.name j.id w.etcd) (job_etcd_key c.name j.id)
          (to_etcd_struct (job_of j) c) w.etcd)

  -- From the key of the job on.
  abbrev pub save_in : Bool → Category → JobRow → W → Saved JobEtcd × JobRow × W
  save_in is_create c j w =
      save_kept is_create c (keep_key_if (leb (length j.etcd_key) 0) (job_etcd_key c.name j.id) j w)

  -- A job without the ID of its category gets the default one and is saved again.
  abbrev pub save_default :
      (JobRow → W → JobRow × W) → Bool → JobRow → Result Category × W → Saved JobEtcd × JobRow × W
  save_default again is_create j (err e, w) = (failed e, j, w)
  save_default again is_create j (ok c, w) =
      let (j', w') = again (record j { category = some c }) w in save_in is_create c j' w'

  abbrev pub save_categorised :
      (JobRow → W → JobRow × W) → Bool → Option Category → JobRow → W → Saved JobEtcd × JobRow × W
  save_categorised again is_create none j w = (invalid (codes "job的分类为空"), j, w)
  save_categorised again is_create (some c) j w =
      if leb (length c.name) 0 || c.id == 0
      then (invalid (codes "job的分类为空"), j, w)
      else if j.category_id == 0
      then save_default again is_create j (get_or_create_default_category w)
      else save_in is_create c j w

  -- The job is read with its category, and what is read is saved; what the caller has stays.
  abbrev pub save_loaded :
      (JobRow → W → JobRow × W) → Bool → Result JobRow → JobRow → W → Saved JobEtcd × JobRow × W
  save_loaded again is_create (err e) j w = (missing, j, w)
  save_loaded again is_create (ok q) j w =
      let (r, q', w') = save_categorised again is_create q.category q w in (r, j, w')

  abbrev pub save_given :
      (JobRow → W → JobRow × W) → Bool → Option Category → JobRow → W → Saved JobEtcd × JobRow × W
  save_given again is_create none j w = save_loaded again is_create (get (pos j.id) w) j w
  save_given again is_create (some c) j w = save_categorised again is_create (some c) j w

  -- `saveJobToEtcd`, with what `Save` does to a job that is given the default category.
  unfoldable pub save_job_to_etcd :
      (JobRow → W → JobRow × W) → Bool → JobRow → W → Saved JobEtcd × JobRow × W
  unfolding get get_or_create_default_category job_etcd_key to_etcd_struct get_job_from_etcd
  save_job_to_etcd again is_create j w =
      if leb (length j.name) 0
      then (invalid (codes "Job的Name不能为空"), j, w)
      else save_given again is_create j.category j w

  -- After the update of an object that is not in etcd it is created there.
  abbrev pub created_instead : (JobRow → W → JobRow × W) → Saved JobEtcd × JobRow × W → JobRow × W
  created_instead again (missing, j, w) =
      let (r, j', w') = save_job_to_etcd again true j w in (j', w')
  created_instead again (saved prev, j, w) = (j, w)
  created_instead again (invalid e, j, w) = (j, w)
  created_instead again (already_there prev, j, w) = (j, w)
  created_instead again (failed e, j, w) = (j, w)

  abbrev pub sync_etcd : (JobRow → W → JobRow × W) → JobRow → W → JobRow × W
  sync_etcd again j w = created_instead again (save_job_to_etcd again false j w)

  abbrev located : Result Category → JobRow → JobRow
  located (err e) j = j
  located (ok c) j = record j { category = some c; etcd_key = job_etcd_key c.name j.id }

  -- A job without a key is given its category and its key.
  abbrev locate : JobRow → W → JobRow
  locate j w =
      if leb (length j.etcd_key) 0 && ltb 0 j.category_id
      then located (get_category_by_id j.category_id w) j
      else j

  abbrev saved_row :
      (JobRow → W → JobRow × W) → Option Text × table.State → JobRow → W → Result JobRow × W
  saved_row again (some e, d) j w = (err e, record w { db = d })
  saved_row again (none, d) j w =
      let (j', w') = sync_etcd again j (record w { db = d }) in (ok j', w')

  -- The key of what was saved in etcd is written back.
  abbrev write_back : Saved JobEtcd × JobRow × W → Result JobRow × W
  write_back (saved prev, j, w) =
      if ltb 0 prev.id
      then (
        ok (record j { etcd_key = job_etcd_key prev.category prev.id }),
        record w { db = (update j (key_fields (job_etcd_key prev.category prev.id)) w.db).1 },
      )
      else (ok j, w)
  write_back (invalid e, j, w) = (ok j, w)
  write_back (missing, j, w) = (ok j, w)
  write_back (already_there prev, j, w) = (ok j, w)
  write_back (failed e, j, w) = (ok j, w)

  abbrev created_row :
      (JobRow → W → JobRow × W) → Result JobRow × table.State → W → Result JobRow × W
  created_row again (err e, d) w = (err e, record w { db = d })
  created_row again (ok j, d) w = write_back (save_job_to_etcd again true j (record w { db = d }))

  abbrev save_step : (JobRow → W → JobRow × W) → JobRow → W → Result JobRow × W
  save_step again j w =
      if ltb 0 j.id
      then (let j' = locate j w in saved_row again (update_row j' w.db) j' w)
      else created_row again (create j w.db) w

  -- What `Save` leaves of the job that it is given a pointer to.
  abbrev pub kept_row : JobRow → Result JobRow × W → JobRow × W
  kept_row j (ok j', w) = (j', w)
  kept_row j (err e, w) = (j, w)

  -- `Save`; the fuel bounds how often it calls itself for a job without the ID of its category.
  unfoldable pub save : ℕ → JobRow → W → Result JobRow × W
  unfolding save_job_to_etcd get_category_by_id
  save zero j w = (err (codes "stack overflow"), w)
  save (suc fuel) j w = save_step (λ q v. kept_row q (save fuel q v)) j w

  abbrev pub updated :
      (JobRow → W → JobRow × W) → Option Text × table.State → JobRow → W → Result JobRow × W
  updated again (some e, d) j w = (err e, record w { db = d })
  updated again (none, d) j w =
      let (j', w') = sync_etcd again j (record w { db = d }) in (ok j', w')

  -- `Update`. gorm also saves the category that is loaded, as it was read; its row is left out.
  unfoldable pub update_job : ℕ → JobRow → Fields → W → Result JobRow × W
  unfolding save_job_to_etcd drop_id_keys save
  update_job fuel j fields w =
      if j.id == 0
      then (err (codes "传入ID为0，会更新全部数据"), w)
      else (let kept = drop_id_keys fields in
          updated (λ q v. kept_row q (save fuel q v)) (update j kept w.db) (assign kept j) w)

  abbrev synced_got : ℕ → Result JobRow → W → Result JobRow × W
  synced_got fuel (err e) w = (err e, w)
  synced_got fuel (ok j) w =
      let (j', w') = sync_etcd (λ q v. kept_row q (save fuel q v)) j w in (ok j', w')

  abbrev updated_where : ℕ → Option Text × table.State → ℤ → W → Result JobRow × W
  updated_where fuel (some e, d) id w = (err e, record w { db = d })
  updated_where fuel (none, d) id w =
      let w' : W = record w { db = d } in synced_got fuel (get id w') w'

  -- `UpdateByID`
  unfoldable pub update_by_id : ℕ → ℤ → Fields → W → Result JobRow × W
  unfolding save_job_to_etcd get save
  update_by_id fuel id fields w =
      if leb_ℤ id (pos 0)
      then (err (codes "传入的ID为0，会更新全部数据"), w)
      else updated_where fuel (table.update_where id fields w.db) id w

  abbrev pub delete_answered : Result JobRow × W → Bool × W
  delete_answered (ok j, w) = (true, w)
  delete_answered (err e, w) = (false, w)

  -- `Delete`: true is no error
  unfoldable pub delete_job : ℕ → JobRow → W → Bool × W
  unfolding update_job
  delete_job fuel j w =
      if j.is_active
      then delete_answered (update_job fuel (record j { is_active = false }) inactive_fields w)
      else (true, w)
