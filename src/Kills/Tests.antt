-- ===== src/Kills/Tests.antt =====
-- Kills (backend/common/repositories/kill.go, killEtcd.go) in a concrete database and a concrete etcd.
use cronjob.Base.{
  ℕ, ◌+◌, ◌≡◌, ◌∙◌, refl, inl, true, false, none, some, [], ◌∷◌, Text, codes, decimal, text_eq,
  if◌then◌else◌, Assoc, lookup, delete, arith, ◌==◌,
}
use cronjob.Base.Int.{pos}
use cronjob.Base.Time.{Time}
use cronjob.Executor.{Result, ok, err}
use cronjob.Packet.{Bytes}
use cronjob.Database.{Value, Fields, drop_id_keys, Table}
use cronjob.Database.Concrete.{database}
use cronjob.KeyStore.Concrete.{store}
use cronjob.Kills.{
  JobKill, KillEtcd, schema, World, kill_etcd_key, to_etcd_data_struct, save, update_kill, get,
  set_finished_by_id,
}
use cronjob.Kills.Laws.{IsGorm}
use cronjob.Kills.Rows.{update_only_own_row}
use cronjob.Kills.Synced.{update_reaches_etcd}
use cronjob.Kills.Ended.{set_finished_ends}
use cronjob.Kills.Single.{IsSingle, save-IsSingle}

-- gorm on the fields that are used.
abbrev set_field : Text → Value → JobKill → JobKill
set_field name (Value.text t) k =
    if text_eq name (codes "EtcdKey") then record k { etcd_key = t } else record k { result = t }
set_field name (Value.flag b) k =
    if text_eq name (codes "Killed") then record k { killed = b } else k
set_field name (Value.time t) k =
    if text_eq name (codes "FinishedAt") then record k { finished_at = some t } else k
set_field name (Value.number z) k = k

abbrev assign_fields : Fields → JobKill → JobKill
assign_fields [] k = k
assign_fields ((name, v) ∷ f) k = assign_fields f (set_field name v k)

set_field_keeps :
    (name : Text) (v : Value) (k : JobKill)
    → ((set_field name v k).id ≡ k.id) × ((set_field name v k).created_at ≡ k.created_at)
set_field_keeps name (Value.text t) k = ground arith
set_field_keeps name (Value.flag b) k = ground arith
set_field_keeps name (Value.time t) k = ground arith
set_field_keeps name (Value.number z) k = (refl, refl)

assign_fields_keeps :
    (f : Fields) (k : JobKill)
    → ((assign_fields f k).id ≡ k.id) × ((assign_fields f k).created_at ≡ k.created_at)
assign_fields_keeps [] k = (refl, refl)
assign_fields_keeps ((name, v) ∷ f) k =
    let rest = assign_fields_keeps f (set_field name v k) in
    let one = set_field_keeps name v k in (rest.0 ∙ one.0, rest.1 ∙ one.1)

pub id-assign_fields : (f : Fields) (k : JobKill) → (assign_fields f k).id ≡ k.id
id-assign_fields f k = (assign_fields_keeps f k).0

pub id-stamped : (n : ℕ) (t : Time) (k : JobKill) → (schema.stamped n t k).id ≡ n
id-stamped n t k = refl

pub stamped-assign_fields :
    (f : Fields) (n : ℕ) (t : Time) (k : JobKill)
    → schema.stamped n t (assign_fields f (schema.stamped n t k))
      ≡ assign_fields f (schema.stamped n t k)
stamped-assign_fields f n t k =
    let same = assign_fields_keeps f (schema.stamped n t k) in ground arith

abbrev table : Table schema
table = database schema assign_fields id-stamped stamped-assign_fields id-assign_fields

gorm : IsGorm table
unfolding text_eq
gorm = record { assign_key = λ key k. refl; assign_end = λ now k. refl }

abbrev encode : KillEtcd → Bytes
encode k = k.id ∷ k.job_id ∷ (if k.killed then 1 else 0) ∷ k.category

abbrev decode : Bytes → Result KillEtcd
decode (i ∷ j ∷ b ∷ c) =
    ok (record { id = i; created_at = 0; category = c; job_id = j; killed = b == 1 })
decode bytes = err (codes "unexpected end")

abbrev kill_of : ℕ → ℕ → JobKill
kill_of id job_id = record {
  id = id;
  created_at = 0;
  etcd_key = [];
  category = codes "ops";
  job_id = job_id;
  killed = false;
  finished_at = none;
  result = [];
}

-- A database with so many kills, of the jobs 7, 8 and so on.
abbrev with_kills : ℕ → Assoc Bytes → World table.State store.State
with_kills n etcd = record { db = (n, λ i. (0, kill_of i (6 + i))); etcd = etcd }

update_only_own_row_example :
    table.row 2
      (update_kill table store decode encode
        (kill_of 1 7)
        ((codes "ID", Value.number (pos 2)) ∷ (codes "Result", Value.text (codes "late")) ∷ [])
        (with_kills 2 [])).1.db
    ≡ some (kill_of 2 8)
update_only_own_row_example =
    update_only_own_row table store decode encode (kill_of 1 7)
      ((codes "ID", Value.number (pos 2)) ∷ (codes "Result", Value.text (codes "late")) ∷ [])
      (with_kills 2 []) 2 (omega arith)

update_reaches_etcd_example :
    lookup
      (kill_etcd_key (codes "ops") 7)
      (update_kill table store decode encode
        (kill_of 1 7)
        ((codes "Result", Value.text (codes "late")) ∷ [])
        (with_kills 1 [])).1.etcd
    ≡ some (1 ∷ 7 ∷ 0 ∷ codes "ops")
unfolding drop_id_keys delete text_eq to_etcd_data_struct lookup
update_reaches_etcd_example =
    update_reaches_etcd table store decode encode (kill_of 1 7)
      ((codes "Result", Value.text (codes "late")) ∷ []) (with_kills 1 []) none refl refl refl
      (record { of_job = refl; of_category = refl }) refl

set_finished_ends_example :
    let etcd : Assoc Bytes = (codes "/crontab/kill/ops/7", 1 ∷ 7 ∷ 0 ∷ codes "ops") ∷ [] in
    let r = set_finished_by_id table store decode encode (pos 1) 50 (with_kills 1 etcd) in
    (r.0 ≡ ok (record (kill_of 1 7) { finished_at = some 50; killed = true }))
    × (table.row 1 r.1.db ≡ some (record (kill_of 1 7) { finished_at = some 50; killed = true }))
    × (lookup (kill_etcd_key (codes "ops") 7) r.1.etcd ≡ none)
unfolding get lookup kill_etcd_key decimal text_eq
set_finished_ends_example =
    set_finished_ends table store decode encode gorm (kill_of 1 7) 50
      (with_kills 1 ((codes "/crontab/kill/ops/7", 1 ∷ 7 ∷ 0 ∷ codes "ops") ∷ []))
      (some (1 ∷ 7 ∷ 0 ∷ codes "ops")) refl refl refl (omega arith) (omega arith) refl refl

none_yet : IsSingle table store decode encode gorm (with_kills 0 []).db
unfolding IsSingle
none_yet i j m hi hj = ground arith

save-IsSingle_example :
    IsSingle table store decode encode gorm
      (save table store decode encode (kill_of 0 7) (with_kills 0 [])).1.db
save-IsSingle_example =
    save-IsSingle table store decode encode gorm (kill_of 0 7) (with_kills 0 []) refl (inl refl)
      none_yet
