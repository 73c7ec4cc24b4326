-- ===== src/Kills/Rows.antt =====
-- Which rows an update of a kill can touch (backend/common/repositories/kill.go, `Update`).
use cronjob.Base.{
  ℕ, ◌≡◌, ◌≢◌, refl, sym, ◌∙◌, Bool, true, false, Bool-cases, inl, inr, ◌==◌, Option, none, some,
  Text, arith,
}
use cronjob.Executor.{Result}
use cronjob.Packet.{Bytes}
use cronjob.Database.{Fields, drop_id_keys, drop_id_keys-Lacks, Table}
use cronjob.KeyStore.{Kv, Saved, saved, invalid, missing, already_there, failed}
use cronjob.Kills.{
  JobKill, KillEtcd, schema, World, save_jobkill_to_etcd, created_instead, sync_if, updated,
  delete_job_kill_from_etcd, update_kill,
}
use cronjob.Kills.Laws.{save_jobkill_to_etcd_keeps}

module _ (table : Table schema) (kv : Kv) (decode : Bytes → Result KillEtcd)
    (encode : KillEtcd → Bytes) where
  open table use {row, assign, assign_id, update, update_others}

  abbrev W : Type 0
  W = World table.State kv.State

  row-created_instead :
      (r : Saved KillEtcd × JobKill × W) (n : ℕ)
      → r.1.id ≢ 0
      → n ≢ r.1.id
      → row n (created_instead table kv decode encode r).1.db ≡ row n r.2.db
  row-created_instead (missing, k, w) n pos other =
      (save_jobkill_to_etcd_keeps table kv decode encode true k w).1 n pos other
  row-created_instead (saved prev, k, w) n pos other = refl
  row-created_instead (invalid e, k, w) n pos other = refl
  row-created_instead (already_there prev, k, w) n pos other = refl
  row-created_instead (failed e, k, w) n pos other = refl

  row-sync_if :
      (b : Bool) (k : JobKill) (w : W) (n : ℕ)
      → k.id ≢ 0
      → n ≢ k.id
      → row n (sync_if table kv decode encode b k w).1.db ≡ row n w.db
  unfolding delete_job_kill_from_etcd
  row-sync_if true k w n pos other = refl
  row-sync_if false k w n pos other =
      let kept = save_jobkill_to_etcd_keeps table kv decode encode false k w in
      let r = save_jobkill_to_etcd table kv decode encode false k w in
      let pos' : r.1.id ≢ 0 = λ e. pos (sym kept.0 ∙ e) in
      let other' : n ≢ r.1.id = λ e. other (e ∙ kept.0) in
      row-created_instead r n pos' other' ∙ kept.1 n pos other

  row-updated :
      (r : Option Text × table.State) (k : JobKill) (w : W) (n : ℕ)
      → k.id ≢ 0
      → n ≢ k.id
      → row n (updated table kv decode encode r k w).1.db ≡ row n r.1
  row-updated (some e, d) k w n pos other = refl
  row-updated (none, d) k w n pos other = row-sync_if k.killed k (record w { db = d }) n pos other

  -- An update of a kill leaves every row with another ID as it was, whatever the kill and the fields
  -- are, and whatever etcd and the database answer.
  pub update_only_own_row :
      (k : JobKill) (fields : Fields) (w : W) (n : ℕ)
      → n ≢ k.id
      → row n (update_kill table kv decode encode k fields w).1.db ≡ row n w.db
  unfolding update_kill
  update_only_own_row k fields w n other = elim (Bool-cases (k.id == 0)) [
    | inl zero_id ↦ rw zero_id refl
    | inr given ↦
        let kept = drop_id_keys fields in
        let lacks = drop_id_keys-Lacks fields in
        let pos : k.id ≢ 0 = ground arith in
        let same : (assign kept k).id ≡ k.id = assign_id kept k lacks in
        rw given (
          row-updated (update k kept w.db) (assign kept k) w n (λ e. pos (sym same ∙ e))
            (λ e. other (e ∙ same))
          ∙ update_others k kept w.db n lacks pos other)
  ]
