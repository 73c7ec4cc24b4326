-- ===== src/Kills/WrongKey.antt =====
-- Under which key the saving of a new kill looks for the kill that is there
-- (backend/common/repositories/killEtcd.go, `saveJobkillToEtcd`).
use cronjob.Base.{
  ℕ, ◌≡◌, refl, ap, ◌∙◌, true, false, ◌==◌, Option, none, some, ltb, leb, length, if_false, Text,
}
use cronjob.Executor.{Result, ok, err}
use cronjob.Packet.{Bytes}
use cronjob.MasterLock.{trim_space}
use cronjob.Database.{Table}
use cronjob.KeyStore.{Kv, Found, found, not_found, Saved, answer, put_value}
use cronjob.KeyStore.Saving.{value-put_value}
use cronjob.Kills.{
  JobKill, KillEtcd, schema, World, to_etcd_data_struct, kill_etcd_key, is_unfinished, short_fields,
  get_job_kill_from_etcd, save_jobkill_to_etcd, publish_unless, created, save_unless, save,
}
use cronjob.Kills.Laws.{save_unless-err}
use cronjob.Kills.Synced.{IsProper, over, save_jobkill_to_etcd-IsSaved}

module _ (table : Table schema) (kv : Kv) (decode : Bytes → Result KillEtcd)
    (encode : KillEtcd → Bytes) where
  open table use {first_where, create}
  open kv use {value, put}

  abbrev W : Type 0
  W = World table.State kv.State

  gets :
      (category : Text) (id : ℕ) (s : kv.State)
      → trim_space category ≡ category
      → leb (length category) 0 ≡ false
      → (id == 0) ≡ false
      → get_job_kill_from_etcd table kv decode encode category id s
        ≡ answer kv decode encode (kv.get (kill_etcd_key category id) s)
  unfolding get_job_kill_from_etcd
  gets category id s trimmed named given = rw (trimmed, named, given) refl

  -- A kill that the database creates because no unfinished kill of its job is found, and that is to be
  -- published.
  pub record IsNew (k k' : JobKill) (w : W) : Type 0 where
    pub new : k.id ≡ 0
    pub nothing_found :
        (e : Text) × (first_where short_fields (is_unfinished k.job_id) w.db ≡ err e)
    pub made : (create k w.db).0 ≡ ok k'
    pub going : k'.killed ≡ false
    pub given : (k'.id == 0) ≡ false
    pub proper : IsProper k'
    pub trimmed : trim_space k'.category ≡ k'.category

  created-ok :
      (r : Result JobKill × table.State) (k : JobKill) (w : W)
      → r.0 ≡ ok k
      → k.killed ≡ false
      → (created table kv decode encode r w).1
        ≡ (save_jobkill_to_etcd table kv decode encode true k (record w { db = r.1 })).2
  created-ok (ok q, d) k w e going =
      let same : q ≡ k = cc in
      let going' : q.killed ≡ false = ap (λ (p : JobKill). p.killed) same ∙ going in
      ap (λ b. (publish_unless table kv decode encode b q (record w { db = d })).1) going'
      ∙ ap (λ p. (save_jobkill_to_etcd table kv decode encode true p (record w { db = d })).2) same
  created-ok (err t, d) k w e going = cc

  module _ (k k' : JobKill) (w : W) (x : IsNew k k' w) where
    etcd-save :
        (save table kv decode encode k w).1.etcd ≡ (over table kv decode encode true k' w.etcd).1
    unfolding save
    etcd-save =
        let r = first_where short_fields (is_unfinished k.job_id) w.db in
        let w' : W = record w { db = (create k w.db).1 } in
        let new : ltb 0 k.id ≡ false = ap (λ n. ltb 0 n) x.new in
        ap (λ (v : Result JobKill × W). v.1.etcd)
          (if_false (ltb 0 k.id) _ (save_unless table kv decode encode r k w) new
            ∙ save_unless-err table kv decode encode r k w x.nothing_found.0 x.nothing_found.1)
        ∙ ap (λ (v : W). v.etcd) (created-ok (create k w.db) k' w x.made x.going)
        ∙ (save_jobkill_to_etcd-IsSaved table kv decode encode true k' w' x.proper).stored

    over-got :
        (f : Found KillEtcd)
        → answer kv decode encode (kv.get (kill_etcd_key k'.category k'.id) w.etcd) ≡ f
        → get_job_kill_from_etcd table kv decode encode k'.category k'.id w.etcd ≡ f
    over-got f e = gets k'.category k'.id w.etcd x.trimmed x.proper.of_category x.given ∙ e

    -- A new kill that the database takes is not put into etcd if there is a readable kill under the key
    -- of the job whose ID is the ID of the kill, whatever job the kill is of: etcd stays as it was.
    pub save_blocked_by_other_job :
        (bytes : Bytes) (prev : KillEtcd)
        → kv.get (kill_etcd_key k'.category k'.id) w.etcd ≡ ok (some bytes)
        → decode bytes ≡ ok prev
        → (save table kv decode encode k w).1.etcd ≡ w.etcd
    save_blocked_by_other_job bytes prev there readable =
        let got = over-got (found prev) (rw (there, readable) refl) in etcd-save ∙ rw got refl

    -- A new kill that the database takes is put into etcd under the key of its category and job, whatever
    -- stands there, if etcd has nothing under the key of the job whose ID is the ID of the kill, and takes
    -- the write.
    pub save_reaches_etcd :
        (p : Option Bytes)
        → kv.get (kill_etcd_key k'.category k'.id) w.etcd ≡ ok none
        → (put (kill_etcd_key k'.category k'.job_id) (encode (to_etcd_data_struct k')) w.etcd).0
          ≡ ok p
        → value (kill_etcd_key k'.category k'.job_id) (save table kv decode encode k w).1.etcd
          ≡ some (encode (to_etcd_data_struct k'))
    save_reaches_etcd p absent taken =
        let key = kill_etcd_key k'.category k'.job_id in
        let new = to_etcd_data_struct k' in
        let got = over-got not_found (rw absent refl) in
        let puts : over table kv decode encode true k' w.etcd
            ≡ put_value kv decode encode key new w.etcd =
          rw got refl in
        ap (value key) (etcd-save ∙ ap (λ (r : Saved KillEtcd × kv.State). r.1) puts)
        ∙ value-put_value kv decode encode key new w.etcd p taken
