-- ===== src/CategoryWeb.antt =====
-- The requests to the master to read, make, change and delete a category
-- (backend/master/web/controllers/category.go, through backend/master/web/services/category.go, which
-- passes everything on to backend/common/repositories/category.go).
pub mod Published
mod Tests
use cronjob.Base.{
  ℕ, Bool, true, false, ◌||◌, Option, none, some, [], ◌∷◌, ◌++◌, ltb, if◌then◌else◌, Text, codes,
  text_eq,
}
use cronjob.Executor.{Result, ok, err}
use cronjob.Packet.{Bytes}
use cronjob.MasterLock.{trim_space}
use cronjob.Database.{Table}
use cronjob.KeyStore.{Kv}
use cronjob.Categories.{Category, schema, World, found_row, save, delete_category}
use cronjob.JobWeb.{Form, form_value, flag_text, flag_value, Response}

-- The category of the form of a new one.
abbrev pub new_category : Form → Category
new_category form = record {
  id = 0;
  created_at = 0;
  etcd_key = [];
  name = trim_space (form_value form (codes "name"));
  description = form_value form (codes "description");
  check_cmd = form_value form (codes "check_cmd");
  setup_cmd = form_value form (codes "setup_cmd");
  tear_down_cmd = form_value form (codes "tear_down_cmd");
  is_active = flag_value (form_value form (codes "is_active"));
}

-- What a PUT sets, the texts and the flag that are missing too.
abbrev pub with_form : Category → Form → Category
with_form c form = record c {
  is_active = flag_value (flag_text form (codes "is_active"));
  check_cmd = form_value form (codes "check_cmd");
  setup_cmd = form_value form (codes "setup_cmd");
  tear_down_cmd = form_value form (codes "tear_down_cmd");
  description = form_value form (codes "description");
}

-- `matches` is how MySQL compares an ID or a name with a text.
module _ (table : Table schema) (kv : Kv) (decode : Bytes → Result Category)
    (encode : Category → Bytes) (matches : Text → Category → Bool) where
  open table use {first_where}

  abbrev W : Type 0
  W = World table.State kv.State

  -- `GetByName`
  unfoldable pub get_by_name : Text → W → Result Category
  unfolding text_eq
  get_by_name name w =
      found_row table kv decode encode (first_where (λ c. c) (λ c. text_eq c.name name) w.db)

  -- `GetByIdOrName`
  unfoldable pub get_by_id_or_name : Text → W → Result Category
  get_by_id_or_name id_or_name w =
      found_row table kv decode encode (first_where (λ c. c) (matches id_or_name) w.db)

  abbrev pub create_unless : Result Category → Form → W → Result Category × W
  create_unless (err e) form w = save table kv decode encode (new_category form) w
  create_unless (ok c) form w = (err (codes "分类已经存在"), w)

  -- `PostCreate` of a form; a category in JSON is saved as it is.
  unfoldable pub post_create : Form → W → Result Category × W
  unfolding get_by_name save text_eq trim_space
  post_create form w =
      let name = trim_space (form_value form (codes "name")) in
      if text_eq name (codes "list")
      then (err (codes "不可创建名字为list的分类"), w)
      else create_unless (get_by_name name w) form w

  abbrev pub put_got : Result Category → Form → W → Result Category × W
  put_got (err e) form w = (err e, w)
  put_got (ok c) form w =
      let name = trim_space (form_value form (codes "name")) in
      if ltb 0 c.id
      then (if text_eq name []
          then (err (codes "传递的name值为空"), w)
          else if text_eq name c.name
          then save table kv decode encode (with_form c form) w
          else (err (codes "传递的name=" ++ (name ++ (codes ", 而当前修改的分类的name是" ++ c.name))), w))
      else (err (codes "404 not fount"), w)

  -- `PutBy`
  unfoldable pub put_by : Text → Form → W → Result Category × W
  unfolding get_by_id_or_name save text_eq trim_space
  put_by id_or_name form w = put_got (get_by_id_or_name id_or_name w) form w

  abbrev pub deleted : Bool × W → Response × W
  deleted (true, w) = (record { code = 204; error = false }, w)
  deleted (false, w) = (record { code = 400; error = true }, w)

  abbrev pub delete_got : Result Category → W → Response × W
  delete_got (err e) w = (record { code = 400; error = true }, w)
  delete_got (ok c) w =
      if ltb 0 c.id
      then deleted (delete_category table kv decode encode c w)
      else (record { code = 400; error = false }, w)

  -- `DeleteBy`
  unfoldable pub delete_by : Text → W → Response × W
  unfolding get_by_id_or_name delete_category
  delete_by id_or_name w = delete_got (get_by_id_or_name id_or_name w) w
