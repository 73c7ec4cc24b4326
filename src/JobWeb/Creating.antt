-- ===== src/JobWeb/Creating.antt =====
-- The request to the master to make a job (backend/master/web/controllers/job.go, `PostCreate`).
use cronjob.Base.{ℕ, Bool, Option, none, some, [], ◌++◌, ltb, if◌then◌else◌, Text, codes, text_eq}
use cronjob.Base.Int.{ℤ}
use cronjob.Base.Time.{zero_time}
use cronjob.Data.{JobEtcd}
use cronjob.Executor.{Result, ok, err}
use cronjob.Packet.{Bytes}
use cronjob.MasterLock.{trim_space}
use cronjob.Database.{Table}
use cronjob.KeyStore.{Kv}
use cronjob.Categories
use cronjob.Jobs.{JobRow, schema, short_category, World, save, get_or_create_default_category}
use cronjob.JobStore.{Category}
use cronjob.JobWeb.{Form, form_value, flag_text, flag_value, atoi}

-- `ctx.FormValueDefault`
abbrev pub text_or : Text → Option Text → Text
text_or default none = default
text_or default (some t) = t

-- The name of a job that is given none.
abbrev pub name_or : Text → Text → Text → Text
name_or now category name =
    if text_eq name [] then codes "Job:" ++ (category ++ (codes "-" ++ now)) else name

-- The job of the form; `now` is the time as `20060102150405`.
unfoldable pub new_job : Text → Form → Category → ℤ → JobRow
unfolding trim_space text_eq
new_job now form c timeout = record {
  id = 0;
  created_at = zero_time;
  etcd_key = [];
  category = some c;
  category_id = 0;
  name =
      name_or now (trim_space (form_value form (codes "category")))
        (trim_space (form_value form (codes "name")));
  time = form_value form (codes "time");
  command = form_value form (codes "command");
  description = form_value form (codes "description");
  is_active = flag_value (flag_text form (codes "is_active"));
  save_output = flag_value (flag_text form (codes "save_output"));
  timeout = timeout;
}

-- `matches` is how MySQL compares an ID or a name with a text, `quote` is `strconv.Quote`.
module _ (table : Table schema) (category_table : Table Categories.schema) (kv : Kv)
    (decode : Bytes → Result JobEtcd) (encode : JobEtcd → Bytes)
    (decode_category : Bytes → Result Categories.Category)
    (encode_category : Categories.Category → Bytes) (matches : Text → Categories.Category → Bool)
    (quote : Text → Text) where
  abbrev W : Type 0
  W = World table.State category_table.State kv.State

  abbrev pub category_row : Result Categories.Category → Result Category
  category_row (ok c) = if ltb 0 c.id then ok (short_category c) else err (codes "404 not fount")
  category_row (err e) = err (codes "404 not fount")

  -- `GetCategoryByIDOrName`
  unfoldable pub get_category_by_id_or_name : Text → W → Result Category × W
  unfolding get_or_create_default_category text_eq
  get_category_by_id_or_name id_or_name w =
      if text_eq id_or_name (codes "default")
      then get_or_create_default_category table category_table kv decode encode decode_category
          encode_category w
      else (category_row (category_table.first_where (λ c. c) (matches id_or_name) w.categories), w)

  abbrev pub create_in : Text → ℕ → Form → ℤ → Result Category × W → Result JobRow × W
  create_in now fuel form timeout (err e, w) = (
    err (codes "分类(" ++ (trim_space (form_value form (codes "category")) ++ (codes "): " ++ e))),
    w,
  )
  create_in now fuel form timeout (ok c, w) =
      save table category_table kv decode encode decode_category encode_category fuel
        (new_job now form c timeout) w

  abbrev pub create_with : Text → ℕ → Form → Result ℤ → W → Result JobRow × W
  create_with now fuel form (err e) w = (err e, w)
  create_with now fuel form (ok timeout) w =
      let category = trim_space (form_value form (codes "category")) in
      if text_eq category []
      then (err (codes "category不可为空"), w)
      else create_in now fuel form timeout (get_category_by_id_or_name category w)

  -- `PostCreate`
  unfoldable pub post_create : Text → ℕ → Form → W → Result JobRow × W
  unfolding atoi save new_job get_category_by_id_or_name trim_space text_eq
  post_create now fuel form w =
      let timeout = text_or (codes "0") (form (codes "timeout")) in
      create_with now fuel form (atoi (quote timeout) timeout) w
