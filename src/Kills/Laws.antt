-- ===== src/Kills/Laws.antt =====
-- What the operations on kills (backend/common/repositories/kill.go, killEtcd.go) ask of gorm beyond
-- the laws of a table, and what saving a kill in etcd does to the kill and its row.
use cronjob.Base.{
  ℕ, ◌≡◌, ◌≢◌, refl, ap, ◌∙◌, Bool, true, false, Bool-cases, inl, inr, ◌==◌, some, leb, length,
  Text, lookup, text_eq,
}
use cronjob.Base.Time.{Time}
use cronjob.Executor.{Result, ok, err}
use cronjob.Packet.{Bytes}
use cronjob.Database.{Lacks, id_keys, Table}
use cronjob.KeyStore.{Kv, Saved}
use cronjob.Kills.{
  JobKill, KillEtcd, schema, key_fields, end_fields, World, keep_key, keep_key_if, with_etcd,
  save_kept, save_jobkill_to_etcd, created, save_unless,
}

-- gorm finds a field by its name.
pub record IsGorm (table : Table schema) : Type 0 where
  pub assign_key :
      (key : Text) (k : JobKill) → table.assign (key_fields key) k ≡ record k { etcd_key = key }
  pub assign_end :
      (now : Time) (k : JobKill)
      → table.assign (end_fields now) k ≡ record k { finished_at = some now; killed = true }

pub key_fields-Lacks : (key : Text) → Lacks id_keys (key_fields key)
unfolding lookup text_eq
key_fields-Lacks key = (refl, (refl, (refl, (refl, tt))))

pub end_fields-Lacks : (now : Time) → Lacks id_keys (end_fields now)
unfolding lookup text_eq
end_fields-Lacks now = (refl, (refl, (refl, (refl, tt))))

module _ (table : Table schema) (kv : Kv) (decode : Bytes → Result KillEtcd)
    (encode : KillEtcd → Bytes) where
  open table use {row, update, update_others}

  abbrev pub W : Type 0
  W = World table.State kv.State

  keep_key_if_keeps :
      (b : Bool) (k : JobKill) (w : W)
      → ((keep_key_if table kv decode encode b k w).0.id ≡ k.id)
        × ((n : ℕ)
            → k.id ≢ 0
            → n ≢ k.id
            → row n (keep_key_if table kv decode encode b k w).1.db ≡ row n w.db)
  keep_key_if_keeps false k w = (refl, λ n pos other. refl)
  keep_key_if_keeps true k w =
      (refl, λ n pos other. update_others _ _ w.db n (key_fields-Lacks _) pos other)

  with_etcd_keeps :
      (kw : JobKill × W) (r : Saved KillEtcd × kv.State)
      → ((with_etcd table kv decode encode kw r).1 ≡ kw.0)
        × ((with_etcd table kv decode encode kw r).2.db ≡ kw.1.db)
  with_etcd_keeps (k, w) (r, s) = (refl, refl)

  -- Saving in etcd keeps the ID of a kill and all rows but its own.
  pub save_jobkill_to_etcd_keeps :
      (is_create : Bool) (k : JobKill) (w : W)
      → ((save_jobkill_to_etcd table kv decode encode is_create k w).1.id ≡ k.id)
        × ((n : ℕ)
            → k.id ≢ 0
            → n ≢ k.id
            → row n (save_jobkill_to_etcd table kv decode encode is_create k w).2.db ≡ row n w.db)
  unfolding save_jobkill_to_etcd
  save_jobkill_to_etcd_keeps is_create k w = elim (Bool-cases (k.job_id == 0)) [
    | inl bad ↦ rw bad (refl, λ n pos other. refl)
    | inr good ↦ elim (Bool-cases (leb (length k.category) 0)) [
      | inl empty ↦ rw (good, empty) (refl, λ n pos other. refl)
      | inr named ↦
          rw (good, named)
            (let kw = keep_key table kv decode encode k w in
              let same = with_etcd_keeps kw (save_kept table kv decode encode is_create kw) in
              let kept = keep_key_if_keeps (leb (length k.etcd_key) 0) k w in
              (
                ap (λ (q : JobKill). q.id) same.0 ∙ kept.0,
                λ n pos other. ap (row n) same.1 ∙ kept.1 n pos other,
              ))
    ]
  ]

  -- A kill is created if no unfinished kill of its job is found.
  pub save_unless-err :
      (r : Result JobKill) (k : JobKill) (w : W) (e : Text)
      → r ≡ err e
      → save_unless table kv decode encode r k w
        ≡ created table kv decode encode (table.create k w.db) w
  save_unless-err (err t) k w e h = refl
  save_unless-err (ok old) k w e h = cc
