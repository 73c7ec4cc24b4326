-- ===== src/JobWeb/Published.antt =====
-- What a PUT on a job makes of etcd (backend/master/web/controllers/job.go, `PutBy`,
-- backend/common/repositories/job.go).
use cronjob.Base.{ℕ, ◌≡◌, ap, subst, ◌∙◌, false, ◌==◌, Option, none, some, Text, codes}
use cronjob.Base.Int.{ℤ}
use cronjob.Data.{JobEtcd}
use cronjob.Executor.{Result, ok}
use cronjob.Packet.{Bytes}
use cronjob.Database.{Fields, drop_id_keys, Table}
use cronjob.KeyStore.{Kv}
use cronjob.JobStore.{Category, to_etcd_struct, job_etcd_key}
use cronjob.Categories
use cronjob.Jobs.{JobRow, schema, job_of, World, get, update_job}
use cronjob.Jobs.Published.{IsProper, update_publishes}
use cronjob.JobWeb.{Form, form_value, timeout_field, update_fields, update_with, put_got, put_by}
use cronjob.JobWeb.Given.{with_form}
use cronjob.JobWeb.Changed.{IsGorm, update_fields-with_form}

module _ (table : Table schema) (gorm : IsGorm table) (quote : Text → Text)
    (category_table : Table Categories.schema) (kv : Kv) (decode : Bytes → Result JobEtcd)
    (encode : JobEtcd → Bytes) (decode_category : Bytes → Result Categories.Category)
    (encode_category : Categories.Category → Bytes) where
  open kv use {value, put}

  abbrev W : Type 0
  W = World table.State category_table.State kv.State

  -- A PUT on a job that is read, whose timeout is empty or a number, and whose update the database
  -- takes, puts the job with everything that the form gives, and the rest as it was, under the key of
  -- its category and ID into etcd, whatever was there, if etcd takes the write, gorm finds fields by
  -- their names, and the job has an ID, a name, the ID of its category and that category loaded.
  pub put_by_publishes :
      (fuel : ℕ) (id : ℤ) (c : Category) (j : JobRow) (form : Form) (timeout : Fields) (w : W)
      (p : Option Bytes)
      → get table category_table kv decode encode decode_category encode_category id w ≡ ok j
      → timeout_field quote (form_value form (codes "timeout")) ≡ ok timeout
      → (j.id == 0) ≡ false
      → (table.update j (drop_id_keys (update_fields j form timeout)) w.db).0 ≡ none
      → IsProper c (with_form quote j form)
      → (put
          (job_etcd_key c.name j.id)
          (encode (to_etcd_struct (job_of (with_form quote j form)) c))
          w.etcd).0
        ≡ ok p
      → value
          (job_etcd_key c.name j.id)
          (put_by table category_table kv decode encode decode_category encode_category quote fuel
            id form w).1.etcd
        ≡ some (encode (to_etcd_struct (job_of (with_form quote j form)) c))
  unfolding put_by
  put_by_publishes fuel id c j form timeout w p got read given taken proper written =
      let fields = update_fields j form timeout in
      let key = job_etcd_key c.name j.id in
      ap
        (λ r.
          value key
            (put_got table category_table kv decode encode decode_category encode_category quote
              fuel r form w).1.etcd)
        got
      ∙ ap
          (λ r.
            value key
              (update_with table category_table kv decode encode decode_category encode_category
                fuel j form r w).1.etcd)
          read
      ∙ subst
          (λ q.
            IsProper c q
            → (put (job_etcd_key c.name q.id) (encode (to_etcd_struct (job_of q) c)) w.etcd).0
              ≡ ok p
            → value (job_etcd_key c.name q.id)
                (update_job table category_table kv decode encode decode_category encode_category
                  fuel j fields w).1.etcd
              ≡ some (encode (to_etcd_struct (job_of q) c)))
          (update_fields-with_form table gorm quote j form timeout read)
          (update_publishes table category_table kv decode encode decode_category encode_category
            fuel c j fields w p given taken)
          proper written
