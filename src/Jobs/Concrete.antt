-- ===== src/Jobs/Concrete.antt =====
-- Concrete tables of jobs and categories and a concrete etcd (behind
-- backend/common/repositories/job.go).
use cronjob.Base.{
  ℕ, Bool, ◌≡◌, ◌∙◌, refl, true, Option, none, some, [], ◌∷◌, Text, codes, text_eq, if◌then◌else◌,
  arith,
}
use cronjob.Base.Int.{ℤ, pos}
use cronjob.Base.Time.{Time}
use cronjob.Data.{JobEtcd}
use cronjob.Executor.{Result, ok, err}
use cronjob.Packet.{Bytes}
use cronjob.Push.Concrete.{decode_job}
use cronjob.Database.{Value, Fields, Table}
use cronjob.Database.Concrete.{database}
use cronjob.KeyStore.Concrete.{store}
use cronjob.JobStore.{Category}
use cronjob.Categories.Concrete as CategoryRows
use cronjob.Jobs.{JobRow, schema, World}

-- gorm on the fields of a job.
abbrev set_text : Text → Text → JobRow → JobRow
set_text name t j =
    if text_eq name (codes "EtcdKey")
    then record j { etcd_key = t }
    else if text_eq name (codes "Name")
    then record j { name = t }
    else if text_eq name (codes "Time")
    then record j { time = t }
    else if text_eq name (codes "Command")
    then record j { command = t }
    else if text_eq name (codes "Description")
    then record j { description = t }
    else j

abbrev set_flag : Text → Bool → JobRow → JobRow
set_flag name b j =
    if text_eq name (codes "IsActive")
    then record j { is_active = b }
    else if text_eq name (codes "SaveOutput")
    then record j { save_output = b }
    else j

abbrev set_number : Text → ℤ → JobRow → JobRow
set_number name z j = if text_eq name (codes "Timeout") then record j { timeout = z } else j

abbrev set_field : Text → Value → JobRow → JobRow
set_field name (Value.text t) j = set_text name t j
set_field name (Value.flag b) j = set_flag name b j
set_field name (Value.time t) j = j
set_field name (Value.number z) j = set_number name z j

abbrev assign_fields : Fields → JobRow → JobRow
assign_fields [] j = j
assign_fields ((name, v) ∷ f) j = assign_fields f (set_field name v j)

set_field_keeps :
    (name : Text) (v : Value) (j : JobRow)
    → ((set_field name v j).id ≡ j.id)
      × ((set_field name v j).created_at ≡ j.created_at)
      × ((set_field name v j).category ≡ j.category)
      × ((set_field name v j).category_id ≡ j.category_id)
set_field_keeps name (Value.text t) j = ground arith
set_field_keeps name (Value.flag b) j = ground arith
set_field_keeps name (Value.time t) j = (refl, refl, refl, refl)
set_field_keeps name (Value.number z) j = ground arith

assign_fields_keeps :
    (f : Fields) (j : JobRow)
    → ((assign_fields f j).id ≡ j.id)
      × ((assign_fields f j).created_at ≡ j.created_at)
      × ((assign_fields f j).category ≡ j.category)
      × ((assign_fields f j).category_id ≡ j.category_id)
assign_fields_keeps [] j = (refl, refl, refl, refl)
assign_fields_keeps ((name, v) ∷ f) j =
    let rest = assign_fields_keeps f (set_field name v j) in
    let one = set_field_keeps name v j in
    (rest.0 ∙ one.0, rest.1 ∙ one.1, rest.2 ∙ one.2, rest.3 ∙ one.3)

pub id-assign_fields : (f : Fields) (j : JobRow) → (assign_fields f j).id ≡ j.id
id-assign_fields f j = (assign_fields_keeps f j).0

pub id-stamped : (n : ℕ) (t : Time) (j : JobRow) → (schema.stamped n t j).id ≡ n
id-stamped n t j = refl

pub stamped-assign_fields :
    (f : Fields) (n : ℕ) (t : Time) (j : JobRow)
    → schema.stamped n t (assign_fields f (schema.stamped n t j))
      ≡ assign_fields f (schema.stamped n t j)
stamped-assign_fields f n t j =
    let same = assign_fields_keeps f (schema.stamped n t j) in ground arith

abbrev pub table : Table schema
table = database schema assign_fields id-stamped stamped-assign_fields id-assign_fields

abbrev read_job : Option JobEtcd → Result JobEtcd
read_job none = err (codes "unexpected end")
read_job (some job) = ok job

abbrev pub decode : Bytes → Result JobEtcd
decode bytes = read_job (decode_job bytes)

abbrev pub ops : Category
ops = record { id = 3; name = codes "ops" }

abbrev pub backup : JobRow
backup = record {
  id = 1;
  created_at = 0;
  etcd_key = codes "/crontab/jobs/ops/1";
  category = some ops;
  category_id = 3;
  name = codes "backup";
  time = 5 ∷ [];
  command = codes "date";
  description = [];
  is_active = true;
  save_output = true;
  timeout = pos 0;
}

abbrev pub backup_rows : World table.State CategoryRows.table.State store.State
backup_rows = record {
  db = (1, λ n. (0, backup));
  categories = (0, λ n. (0, CategoryRows.ops));
  etcd = [];
}
