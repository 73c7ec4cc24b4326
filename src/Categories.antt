-- ===== src/Categories.antt =====
-- The categories of jobs that the master keeps in the database and in etcd
-- (backend/common/repositories/category.go, categoryEtcd.go, backend/common/datamodels/category.go).
-- Every operation takes the states of both and returns them.
pub mod Saving
pub mod Deleted
pub mod Concrete
mod Tests
use cronjob.Base.{
  ℕ, ◌≡◌, Bool, true, false, Option, none, some, List, [], ◌∷◌, ◌++◌, ◌==◌, ltb, leb, length,
  if◌then◌else◌, Text, codes,
}
use cronjob.Base.Int.{ℤ, pos, leb_ℤ}
use cronjob.Base.Time.{Time}
use cronjob.Executor.{Result, ok, err}
use cronjob.Packet.{Bytes}
use cronjob.MasterLock.{trim_space}
use cronjob.Database.{Value, Fields, drop_id_keys, Schema, Table}
use cronjob.KeyStore.{
  Kv, Found, found, not_found, get_failed, Saved, saved, invalid, missing, already_there, failed,
  answer, save_over,
}

pub record Category : Type 0 where
  pub id : ℕ
  pub created_at : Time
  pub etcd_key : Text
  pub name : Text
  pub description : Text
  pub check_cmd : Text
  pub setup_cmd : Text
  pub tear_down_cmd : Text
  pub is_active : Bool

abbrev pub schema : Schema Category
schema = record { id_of = λ c. c.id; stamped = λ n t c. record c { id = n; created_at = t } }

-- `ETCD_JOBS_CATEGORY_DIR` and the name
unfoldable pub category_etcd_key : Text → Text
category_etcd_key name = codes "/crontab/categories/" ++ name

abbrev pub with_key : Category → Category
with_key c = record c { etcd_key = category_etcd_key c.name }

abbrev pub key_fields : Text → Fields
key_fields key = (codes "etcd_key", Value.text key) ∷ []

abbrev pub inactive_fields : Fields
inactive_fields = (codes "IsActive", Value.flag false) ∷ []

-- The states of the table and of etcd.
pub record World (D E : Type 0) : Type 0 where
  pub db : D
  pub etcd : E

module _ (table : Table schema) (kv : Kv) (decode : Bytes → Result Category)
    (encode : Category → Bytes) where
  open table use {first, create, assign, update, update_row}

  abbrev pub W : Type 0
  W = World table.State kv.State

  abbrev pub found_with_key : Text → Found Category → Found Category
  found_with_key key (found c) = found (record c { etcd_key = key })
  found_with_key key not_found = not_found
  found_with_key key (get_failed e) = get_failed e

  -- `getCategoryFromEtcd`
  unfoldable pub get_category_from_etcd : Text → kv.State → Found Category
  unfolding trim_space category_etcd_key
  get_category_from_etcd name s =
      let name' = trim_space name in
      let key = category_etcd_key name' in
      if leb (length name') 0
      then get_failed (codes "传入的category为空")
      else found_with_key key (answer kv decode encode (kv.get key s))

  abbrev pub with_id : Category → Result Category
  with_id c = if ltb 0 c.id then ok c else err (codes "404 not fount")

  abbrev pub found_row : Result Category → Result Category
  found_row (ok c) = with_id c
  found_row (err e) = err (codes "404 not fount")

  -- `Get`, of all fields
  unfoldable pub get : ℤ → W → Result Category
  get id w = found_row (first (λ c. c) id w.db)

  abbrev pub updated : Option Text × table.State → Category → W → Result Category × W
  updated (some e, d) c w = (err e, record w { db = d })
  updated (none, d) c w = (ok c, record w { db = d })

  -- `Update`
  unfoldable pub update_category : Category → Fields → W → Result Category × W
  unfolding drop_id_keys
  update_category c fields w =
      if c.id == 0
      then (err (codes "传入ID为0，会更新全部数据"), w)
      else (let kept = drop_id_keys fields in updated (update c kept w.db) (assign kept c) w)

  -- After a write the key is written back, whatever comes of it.
  abbrev pub write_back : Category → W → Saved Category × kv.State → Saved Category × W
  write_back c w (saved prev, s) =
      (saved prev, (update_category c (key_fields c.etcd_key) (record w { etcd = s })).1)
  write_back c w (invalid e, s) = (invalid e, record w { etcd = s })
  write_back c w (missing, s) = (missing, record w { etcd = s })
  write_back c w (already_there prev, s) = (already_there prev, record w { etcd = s })
  write_back c w (failed e, s) = (failed e, record w { etcd = s })

  -- `saveCategoryToEtcd`; the category keeps its key.
  unfoldable pub save_category_to_etcd : Bool → Category → W → Saved Category × W
  unfolding get_category_from_etcd category_etcd_key update_category
  save_category_to_etcd is_create c w =
      if leb (length c.name) 0
      then (invalid (codes "Category的Name不能为空"), w)
      else write_back (with_key c) w (
          save_over kv decode encode is_create (get_category_from_etcd c.name w.etcd)
            (category_etcd_key c.name) (with_key c) w.etcd)

  -- After the update of an object that is not in etcd it is created there.
  abbrev pub created_instead : Category → Saved Category × W → W
  created_instead c (missing, w) = (save_category_to_etcd true c w).1
  created_instead c (saved prev, w) = w
  created_instead c (invalid e, w) = w
  created_instead c (already_there prev, w) = w
  created_instead c (failed e, w) = w

  -- `saveCategoryToEtcd` sets the key of a category that has a name.
  abbrev pub keyed : Category → Category
  keyed c = if leb (length c.name) 0 then c else with_key c

  abbrev pub saved_row : Option Text × table.State → Category → W → Result Category × W
  saved_row (some e, d) c w = (err e, record w { db = d })
  saved_row (none, d) c w =
      (ok (keyed c), created_instead c (save_category_to_etcd false c (record w { db = d })))

  abbrev pub created : Result Category × table.State → W → Result Category × W
  created (err e, d) w = (err e, record w { db = d })
  created (ok c, d) w = (ok (keyed c), (save_category_to_etcd true c (record w { db = d })).1)

  -- `Save`
  unfoldable pub save : Category → W → Result Category × W
  unfolding save_category_to_etcd
  save c w =
      if ltb 0 c.id
      then saved_row (update_row c w.db) c w
      else if leb (length c.name) 0
      then (err (codes "name不可为空"), w)
      else created (create c w.db) w

  -- `Delete`: true is no error
  abbrev pub delete_answered : Result Category × W → Bool × W
  delete_answered (ok c, w) = (true, w)
  delete_answered (err e, w) = (false, w)

  unfoldable pub delete_category : Category → W → Bool × W
  unfolding update_category
  delete_category c w =
      if c.is_active
      then delete_answered (update_category (record c { is_active = false }) inactive_fields w)
      else (true, w)

  -- `UpdateByID`
  abbrev updated_at : Option Text × table.State → ℤ → W → Result Category × W
  updated_at (some e, d) id w = (err e, record w { db = d })
  updated_at (none, d) id w = (get id (record w { db = d }), record w { db = d })

  unfoldable pub update_by_id : ℤ → Fields → W → Result Category × W
  unfolding get
  update_by_id id fields w =
      if leb_ℤ id (pos 0)
      then (err (codes "传入的ID为0，会更新全部数据"), w)
      else updated_at (table.update_where id fields w.db) id w
