-- ===== src/Kills/Synced.antt =====
-- What an update of a kill makes of etcd (backend/common/repositories/kill.go, `Update`,
-- `SetFinishedByID`).
use cronjob.Base.{
  ◌≡◌, ◌≢◌, refl, sym, ap, subst, ◌∙◌, Bool, true, false, inl, inr, ◌==◌, Option, none, some, leb,
  length, Text,
}
use cronjob.Executor.{Result, ok}
use cronjob.Packet.{Bytes}
use cronjob.Database.{Fields, drop_id_keys, Table}
use cronjob.KeyStore.{
  Kv, Saved, saved, invalid, missing, already_there, failed, put_value, save_over,
}
use cronjob.KeyStore.Saving.{update-cases, value-put_value}
use cronjob.Kills.{
  JobKill, KillEtcd, schema, World, to_etcd_data_struct, kill_etcd_key, get_job_kill_from_etcd,
  keep_key_if, keep_key, with_etcd, save_jobkill_to_etcd, created_instead, sync_if, updated,
  update_kill,
}

-- A kill of a job in a category, as `saveJobkillToEtcd` asks for it.
pub record IsProper (k : JobKill) : Type 0 where
  pub of_job : (k.job_id == 0) ≡ false
  pub of_category : leb (length k.category) 0 ≡ false

-- Kills that differ in their key at most.
pub record Agree (k k' : JobKill) : Type 0 where
  pub same_id : k'.id ≡ k.id
  pub same_category : k'.category ≡ k.category
  pub same_job : k'.job_id ≡ k.job_id
  pub same_etcd : to_etcd_data_struct k' ≡ to_etcd_data_struct k

module _ (table : Table schema) (kv : Kv) (decode : Bytes → Result KillEtcd)
    (encode : KillEtcd → Bytes) where
  open table use {assign, update}
  open kv use {value, put}

  abbrev W : Type 0
  W = World table.State kv.State

  Agree-keep_key_if :
      (b : Bool) (k : JobKill) (w : W)
      → Agree k (keep_key_if table kv decode encode b k w).0
        × ((keep_key_if table kv decode encode b k w).1.etcd ≡ w.etcd)
  unfolding to_etcd_data_struct
  Agree-keep_key_if false k w =
      (record { same_id = refl; same_category = refl; same_job = refl; same_etcd = refl }, refl)
  Agree-keep_key_if true k w =
      (record { same_id = refl; same_category = refl; same_job = refl; same_etcd = refl }, refl)

  -- What is saved over in etcd.
  abbrev pub over : Bool → JobKill → kv.State → Saved KillEtcd × kv.State
  over is_create k s =
      save_over kv decode encode is_create
        (get_job_kill_from_etcd table kv decode encode k.category k.id s)
        (kill_etcd_key k.category k.job_id) (to_etcd_data_struct k) s

  -- The parts of what saving a kill returns.
  pub record IsSaved (is_create : Bool) (k : JobKill) (w : W) (r : Saved KillEtcd × JobKill × W)
      : Type 0 where
    pub answered : r.0 ≡ (over is_create k w.etcd).0
    pub stored : r.2.etcd ≡ (over is_create k w.etcd).1
    pub agree : Agree k r.1

  over-Agree :
      (is_create : Bool) (k k' : JobKill) (s : kv.State)
      → Agree k k'
      → over is_create k' s ≡ over is_create k s
  over-Agree is_create k k' s a = cc (a.same_category, a.same_id, a.same_job, a.same_etcd)

  IsSaved-with_etcd :
      (is_create : Bool) (k : JobKill) (w : W) (kw : JobKill × W)
      → Agree k kw.0
      → kw.1.etcd ≡ w.etcd
      → IsSaved is_create k w (with_etcd table kv decode encode kw (over is_create kw.0 kw.1.etcd))
  IsSaved-with_etcd is_create k w (k', w') a same =
      let e : over is_create k' w'.etcd ≡ over is_create k w.etcd =
        ap (over is_create k') same ∙ over-Agree is_create k k' w.etcd a in
      record {
        answered = ap (λ (r : Saved KillEtcd × kv.State). r.0) e;
        stored = ap (λ (r : Saved KillEtcd × kv.State). r.1) e;
        agree = a;
      }

  pub save_jobkill_to_etcd-IsSaved :
      (is_create : Bool) (k : JobKill) (w : W)
      → IsProper k
      → IsSaved is_create k w (save_jobkill_to_etcd table kv decode encode is_create k w)
  unfolding save_jobkill_to_etcd
  save_jobkill_to_etcd-IsSaved is_create k w x =
      let (a, same) = Agree-keep_key_if (leb (length k.etcd_key) 0) k w in
      rw (x.of_job, x.of_category)
        (IsSaved-with_etcd is_create k w (keep_key table kv decode encode k w) a same)

  created_instead-missing :
      (r : Saved KillEtcd × JobKill × W)
      → r.0 ≡ missing
      → (created_instead table kv decode encode r).1
        ≡ (save_jobkill_to_etcd table kv decode encode true r.1 r.2).2
  created_instead-missing (missing, k, w) e = refl
  created_instead-missing (saved prev, k, w) e = cc
  created_instead-missing (invalid t, k, w) e = cc
  created_instead-missing (already_there prev, k, w) e = cc
  created_instead-missing (failed t, k, w) e = cc

  created_instead-other :
      (r : Saved KillEtcd × JobKill × W)
      → r.0 ≢ missing
      → (created_instead table kv decode encode r).1 ≡ r.2
  created_instead-other (missing, k, w) e = absurd (e refl)
  created_instead-other (saved prev, k, w) e = refl
  created_instead-other (invalid t, k, w) e = refl
  created_instead-other (already_there prev, k, w) e = refl
  created_instead-other (failed t, k, w) e = refl

  -- An update in etcd, then if need be a creation, writes the kill whatever was there.
  module _ (k : JobKill) (w : W) (x : IsProper k) (p : Option Bytes) where
    IsProper-saved : (k' : JobKill) → Agree k k' → IsProper k'
    IsProper-saved k' a = record {
      of_job = subst (λ n. (n == 0) ≡ false) (sym a.same_job) x.of_job;
      of_category = subst (λ t. leb (length t) 0 ≡ false) (sym a.same_category) x.of_category;
    }

    value-created_instead :
        (put (kill_etcd_key k.category k.job_id) (encode (to_etcd_data_struct k)) w.etcd).0 ≡ ok p
        → value
            (kill_etcd_key k.category k.job_id)
            (created_instead table kv decode encode
              (save_jobkill_to_etcd table kv decode encode false k w)).1.etcd
          ≡ some (encode (to_etcd_data_struct k))
    value-created_instead taken =
        let key = kill_etcd_key k.category k.job_id in
        let new = to_etcd_data_struct k in
        let r = save_jobkill_to_etcd table kv decode encode false k w in
        let is_saved = save_jobkill_to_etcd-IsSaved false k w x in
        let written : value key (put_value kv decode encode key new w.etcd).1 ≡ some (encode new) =
          value-put_value kv decode encode key new w.etcd p taken in
        elim (update-cases kv decode encode
          (get_job_kill_from_etcd table kv decode encode k.category k.id w.etcd) key new w.etcd) [
            | inl (absent, unchanged) ↦
                let again =
                  save_jobkill_to_etcd-IsSaved true r.1 r.2 (IsProper-saved r.1 is_saved.agree) in
                let asked : r.0 ≡ missing =
                  is_saved.answered ∙ ap (λ (q : Saved KillEtcd × kv.State). q.0) unchanged in
                let kept : r.2.etcd ≡ w.etcd =
                  is_saved.stored ∙ ap (λ (q : Saved KillEtcd × kv.State). q.1) unchanged in
                let puts : over true k w.etcd ≡ put_value kv decode encode key new w.etcd =
                  rw absent refl in
                let e : over true r.1 r.2.etcd ≡ put_value kv decode encode key new w.etcd =
                  ap (over true r.1) kept ∙ over-Agree true k r.1 w.etcd is_saved.agree ∙ puts in
                ap (λ (v : W). value key v.etcd) (created_instead-missing r asked)
                ∙ ap (value key) (again.stored ∙ ap (λ (q : Saved KillEtcd × kv.State). q.1) e)
                ∙ written
            | inr (answers, puts) ↦
                let asked : r.0 ≢ missing = λ e. answers (sym is_saved.answered ∙ e) in
                ap (λ (v : W). value key v.etcd) (created_instead-other r asked)
                ∙ ap (value key)
                    (is_saved.stored ∙ ap (λ (q : Saved KillEtcd × kv.State). q.1) puts)
                ∙ written
          ]

  updated-none :
      (r : Option Text × table.State) (k : JobKill) (w : W)
      → r.0 ≡ none
      → updated table kv decode encode r k w
        ≡ sync_if table kv decode encode k.killed k (record w { db = r.1 })
  updated-none (none, d) k w e = refl
  updated-none (some t, d) k w e = cc

  -- An update of a kill that the database takes goes on with what becomes of etcd.
  pub update_kill-sync :
      (k : JobKill) (fields : Fields) (w : W)
      → (k.id == 0) ≡ false
      → (update k (drop_id_keys fields) w.db).0 ≡ none
      → update_kill table kv decode encode k fields w
        ≡ sync_if table kv decode encode
            (assign (drop_id_keys fields) k).killed
            (assign (drop_id_keys fields) k)
            (record w { db = (update k (drop_id_keys fields) w.db).1 })
  unfolding update_kill
  update_kill-sync k fields w given taken =
      rw given (
        updated-none (update k (drop_id_keys fields) w.db) (assign (drop_id_keys fields) k) w taken)

  -- An update that the database takes, of a kill that has an ID and that with its new fields is not
  -- killed and has a category and the ID of a job, puts the kill under the key of its category and job
  -- into etcd, whatever was there, if etcd takes the write.
  pub update_reaches_etcd :
      (k : JobKill) (fields : Fields) (w : W) (p : Option Bytes)
      → (k.id == 0) ≡ false
      → (update k (drop_id_keys fields) w.db).0 ≡ none
      → (assign (drop_id_keys fields) k).killed ≡ false
      → IsProper (assign (drop_id_keys fields) k)
      → (put
          (kill_etcd_key
            (assign (drop_id_keys fields) k).category
            (assign (drop_id_keys fields) k).job_id)
          (encode (to_etcd_data_struct (assign (drop_id_keys fields) k)))
          w.etcd).0
        ≡ ok p
      → value
          (kill_etcd_key
            (assign (drop_id_keys fields) k).category
            (assign (drop_id_keys fields) k).job_id)
          (update_kill table kv decode encode k fields w).1.etcd
        ≡ some (encode (to_etcd_data_struct (assign (drop_id_keys fields) k)))
  update_reaches_etcd k fields w p given taken going x written =
      let k' = assign (drop_id_keys fields) k in
      let w' : W = record w { db = (update k (drop_id_keys fields) w.db).1 } in
      let key = kill_etcd_key k'.category k'.job_id in
      let synced : update_kill table kv decode encode k fields w
          ≡ sync_if table kv decode encode false k' w' =
        update_kill-sync k fields w given taken
        ∙ ap (λ b. sync_if table kv decode encode b k' w') going in
      ap (λ (r : Result JobKill × W). value key r.1.etcd) synced
      ∙ value-created_instead k' w' x p written
