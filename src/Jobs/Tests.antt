-- ===== src/Jobs/Tests.antt =====
-- Jobs (backend/common/repositories/job.go) in concrete tables and a concrete etcd.
use cronjob.Base.{
  ℕ, ◌≡◌, refl, true, false, none, some, [], ◌∷◌, codes, text_eq, lookup, delete, arith,
}
use cronjob.Data.{JobEtcd, job_key}
use cronjob.Scheduler.{Scheduler}
use cronjob.Push.{WatchEvent, watch_job, reade_loop}
use cronjob.Push.Delivery.{to_client}
use cronjob.Push.Follow.{handle_all}
use cronjob.Push.Concrete.{coded, every, encode_job, job_back}
use cronjob.Database.{Value, drop_id_keys}
use cronjob.KeyStore.Concrete.{store}
use cronjob.JobStore.{to_etcd_struct, job_etcd_key}
use cronjob.Categories.Concrete as CategoryRows
use cronjob.Jobs.{JobRow, World, job_of, update_job, delete_job, save_job_to_etcd}
use cronjob.KeyStore.{Saved}
use cronjob.KeyStore.Saving.{IsKept}
use cronjob.Jobs.Kept.{save_keeps}
use cronjob.Jobs.Published.{IsProper, update_publishes}
use cronjob.Jobs.Deleted.{IsGorm, delete_job_unplans}
use cronjob.Jobs.Concrete.{table, decode, ops, backup, backup_rows}

gorm : IsGorm table
unfolding text_eq
gorm = record { assign_inactive = λ j. refl }

proper : IsProper ops (record backup { is_active = false })
proper = record { named = refl; loaded = refl; category_ok = refl; categorised = refl }

changed : IsProper ops (record backup { command = codes "ls" })
changed = record { named = refl; loaded = refl; category_ok = refl; categorised = refl }

-- A worker that has planned the job.
abbrev planning : Scheduler ℕ
planning = record {
  job_plan_table =
      (
        codes "ops-1",
        record { job = to_etcd_struct (job_of backup) ops; expression = 1; next_time = 60 },
      )
      ∷ [];
  job_executing_table = [];
  infos = [];
  goroutines = [];
  job_result_chan = [];
  is_stoped = false;
}

update_publishes_example :
    lookup
      (job_etcd_key (codes "ops") 1)
      (update_job table CategoryRows.table store decode encode_job CategoryRows.decode
        CategoryRows.encode 1 backup
        ((codes "Command", Value.text (codes "ls")) ∷ [])
        backup_rows).1.etcd
    ≡ some (encode_job (to_etcd_struct (job_of (record backup { command = codes "ls" })) ops))
unfolding drop_id_keys delete text_eq lookup
update_publishes_example =
    update_publishes table CategoryRows.table store decode encode_job CategoryRows.decode
      CategoryRows.encode 1 ops backup ((codes "Command", Value.text (codes "ls")) ∷ []) backup_rows
      none refl refl changed refl

delete_job_unplans_example :
    ((delete_job table CategoryRows.table store decode encode_job CategoryRows.decode
        CategoryRows.encode 1 backup backup_rows).0
      ≡ true)
    × (lookup
          (job_etcd_key (codes "ops") 1)
          (delete_job table CategoryRows.table store decode encode_job CategoryRows.decode
            CategoryRows.encode 1 backup backup_rows).1.etcd
        ≡ some (encode_job (to_etcd_struct (job_of (record backup { is_active = false })) ops)))
    × (lookup
          (job_key (codes "ops") 1)
          (handle_all every coded
            (λ n. n)
            (reade_loop coded
              (λ n. [])
              (to_client coded
                (codes "worker")
                (WatchEvent.put
                    (job_etcd_key (codes "ops") 1)
                    (encode_job (to_etcd_struct (job_of (record backup { is_active = false })) ops))
                  ∷ [])
                (watch_job coded)))
            planning).job_plan_table
        ≡ none)
unfolding lookup to_etcd_struct
delete_job_unplans_example =
    delete_job_unplans table CategoryRows.table store decode encode_job CategoryRows.decode
      CategoryRows.encode gorm 1 ops backup backup_rows none refl (omega arith) proper refl refl
      every coded (codes "worker") (λ n. n) (λ n. []) planning 1
      (job_back (to_etcd_struct (job_of (record backup { is_active = false })) ops)) refl
      (ground arith)

-- The first save of a job.
abbrev first_save : Saved JobEtcd × JobRow × World table.State CategoryRows.table.State store.State
first_save =
    save_job_to_etcd table CategoryRows.table store decode encode_job CategoryRows.decode
      CategoryRows.encode (λ j w. (j, w)) true backup backup_rows

save_keeps_example :
    IsKept store decode encode_job
      (job_etcd_key (codes "ops") 1)
      (to_etcd_struct (job_of backup) ops)
      []
      (first_save.0, first_save.2.etcd)
save_keeps_example =
    save_keeps table CategoryRows.table store decode encode_job CategoryRows.decode
      CategoryRows.encode (λ j w. (j, w)) true ops backup backup_rows refl refl
