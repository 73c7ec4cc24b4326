-- ===== src/JobWeb/Tests.antt =====
-- A PUT on a job (backend/master/web/controllers/job.go) with a form, in concrete tables and a concrete
-- etcd.
use cronjob.Base.{
  ◌≡◌, refl, none, some, [], ◌∷◌, Text, codes, text_eq, if◌then◌else◌, lookup, delete,
}
use cronjob.Base.Int.{pos, negsuc}
use cronjob.Executor.{ok}
use cronjob.MasterLock.{trim_space}
use cronjob.Push.Concrete.{encode_job}
use cronjob.Database.{Value, drop_id_keys}
use cronjob.KeyStore.Concrete.{store}
use cronjob.JobStore.{to_etcd_struct, job_etcd_key}
use cronjob.Categories.Concrete as CategoryRows
use cronjob.Jobs.{JobRow, job_of, get}
use cronjob.Jobs.Concrete.{table, decode, ops, backup, backup_rows}
use cronjob.JobWeb.{Form, atoi, to_lower, timeout_field, update_fields, put_by}
use cronjob.JobWeb.Given.{with_form}
use cronjob.JobWeb.Changed.{IsGorm, update_fields-with_form}
use cronjob.JobWeb.Published.{put_by_publishes}

minus_five : atoi [] (codes "-5") ≡ ok (negsuc 4)
unfolding atoi
minus_five = refl

gorm : IsGorm table
unfolding text_eq
gorm = record {
  none_set = λ j. refl;
  set_is_active = λ b f j. refl;
  set_save_output = λ b f j. refl;
  set_name = λ t f j. refl;
  set_time = λ t f j. refl;
  set_command = λ t f j. refl;
  set_description = λ t f j. refl;
  set_timeout = λ z f j. refl;
}

-- A new command and timeout, and the name that the job has.
abbrev form : Form
form name =
    if text_eq name (codes "command")
    then some (codes "ls")
    else if text_eq name (codes "timeout")
    then some (codes "60")
    else if text_eq name (codes "name")
    then some (codes " backup ")
    else none

abbrev quote : Text → Text
quote t = 34 ∷ t

abbrev backup' : JobRow
backup' = record backup { command = codes "ls"; timeout = pos 60 }

changed : with_form quote backup form ≡ backup'
unfolding text_eq trim_space atoi to_lower
changed = refl

update_fields-with_form_example :
    table.assign
      (drop_id_keys (update_fields backup form ((codes "Timeout", Value.number (pos 60)) ∷ [])))
      backup
    ≡ with_form quote backup form
unfolding timeout_field text_eq atoi
update_fields-with_form_example =
    update_fields-with_form table gorm quote backup form
      ((codes "Timeout", Value.number (pos 60)) ∷ []) refl

put_by_publishes_example :
    lookup
      (job_etcd_key (codes "ops") 1)
      (put_by table CategoryRows.table store decode encode_job CategoryRows.decode
        CategoryRows.encode quote 1
        (pos 1)
        form
        backup_rows).1.etcd
    ≡ some (encode_job (to_etcd_struct (job_of (with_form quote backup form)) ops))
unfolding get timeout_field text_eq atoi trim_space to_lower lookup drop_id_keys delete
put_by_publishes_example =
    put_by_publishes table gorm quote CategoryRows.table store decode encode_job CategoryRows.decode
      CategoryRows.encode 1 (pos 1) ops backup form ((codes "Timeout", Value.number (pos 60)) ∷ [])
      backup_rows none refl refl refl refl
      (record { named = refl; loaded = refl; category_ok = refl; categorised = refl }) refl
