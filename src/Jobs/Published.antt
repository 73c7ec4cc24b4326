-- ===== src/Jobs/Published.antt =====
-- What an update of a job makes of etcd (backend/common/repositories/job.go, `Update`).
use cronjob.Base.{
  ℕ, ◌≡◌, ◌≢◌, refl, sym, ap, subst, ◌∙◌, Bool, true, false, inl, inr, ◌||◌, ◌==◌, Option, none,
  some, leb, length, if_false, Text,
}
use cronjob.Data.{JobEtcd}
use cronjob.Executor.{Result, ok}
use cronjob.Packet.{Bytes}
use cronjob.Database.{Fields, drop_id_keys, Table}
use cronjob.KeyStore.{
  Kv, Saved, saved, invalid, missing, already_there, failed, put_value, save_over,
}
use cronjob.KeyStore.Saving.{update-cases, value-put_value}
use cronjob.JobStore.{Category, Job, to_etcd_struct, job_etcd_key, get_job_from_etcd}
use cronjob.Categories
use cronjob.Jobs.{
  JobRow, schema, job_of, World, keep_key_if, save_kept, save_given, save_job_to_etcd,
  created_instead, sync_etcd, kept_row, save, updated, update_job,
}

-- A job with its category, as it is saved in etcd without more ado.
pub record IsProper (c : Category) (j : JobRow) : Type 0 where
  pub named : leb (length j.name) 0 ≡ false
  pub loaded : j.category ≡ some c
  pub category_ok : (leb (length c.name) 0 || c.id == 0) ≡ false
  pub categorised : (j.category_id == 0) ≡ false

-- Jobs that differ in their key at most.
pub record Agree (j j' : JobRow) : Type 0 where
  same_job : job_of j' ≡ job_of j
  same_category_id : j'.category_id ≡ j.category_id

Agree-IsProper : (c : Category) (j j' : JobRow) → Agree j j' → IsProper c j → IsProper c j'
Agree-IsProper c j j' a x = record {
  named = ap (λ (q : Job). leb (length q.name) 0) a.same_job ∙ x.named;
  loaded = ap (λ (q : Job). q.category) a.same_job ∙ x.loaded;
  category_ok = x.category_ok;
  categorised = ap (λ n. n == 0) a.same_category_id ∙ x.categorised;
}

module _ (table : Table schema) (category_table : Table Categories.schema) (kv : Kv)
    (decode : Bytes → Result JobEtcd) (encode : JobEtcd → Bytes)
    (decode_category : Bytes → Result Categories.Category)
    (encode_category : Categories.Category → Bytes) where
  open table use {assign, update}
  open kv use {value, put}

  abbrev pub W : Type 0
  W = World table.State category_table.State kv.State

  abbrev pub Again : Type 0
  Again = JobRow → W → JobRow × W

  -- What is saved over in etcd.
  abbrev pub over : Bool → Category → Job → kv.State → Saved JobEtcd × kv.State
  over is_create c q s =
      save_over kv decode encode is_create (get_job_from_etcd kv decode encode c.name q.id s)
        (job_etcd_key c.name q.id) (to_etcd_struct q c) s

  pub record IsSaved (is_create : Bool) (c : Category) (j : JobRow) (w : W)
      (r : Saved JobEtcd × JobRow × W) : Type 0 where
    pub answered : r.0 ≡ (over is_create c (job_of j) w.etcd).0
    pub stored : r.2.etcd ≡ (over is_create c (job_of j) w.etcd).1
    pub agree : Agree j r.1

  -- The operations with the parameters of this section.
  abbrev keep_key : Bool → Text → JobRow → W → JobRow × W
  keep_key = keep_key_if table category_table kv decode encode decode_category encode_category

  abbrev pub saving : Again → Bool → JobRow → W → Saved JobEtcd × JobRow × W
  saving = save_job_to_etcd table category_table kv decode encode decode_category encode_category

  abbrev instead : Again → Saved JobEtcd × JobRow × W → JobRow × W
  instead = created_instead table category_table kv decode encode decode_category encode_category

  abbrev synced : Again → JobRow → W → JobRow × W
  synced = sync_etcd table category_table kv decode encode decode_category encode_category

  abbrev pub job_update : ℕ → JobRow → Fields → W → Result JobRow × W
  job_update = update_job table category_table kv decode encode decode_category encode_category

  Agree-keep_key :
      (b : Bool) (key : Text) (j : JobRow) (w : W)
      → Agree j (keep_key b key j w).0 × ((keep_key b key j w).1.etcd ≡ w.etcd)
  Agree-keep_key false key j w = (record { same_job = refl; same_category_id = refl }, refl)
  Agree-keep_key true key j w = (record { same_job = refl; same_category_id = refl }, refl)

  save_kept-IsSaved :
      (is_create : Bool) (c : Category) (j : JobRow) (w : W) (jw : JobRow × W)
      → Agree j jw.0
      → jw.1.etcd ≡ w.etcd
      → IsSaved is_create c j w (
          save_kept table category_table kv decode encode decode_category encode_category is_create
            c jw)
  save_kept-IsSaved is_create c j w (j', w') a same =
      let e : over is_create c (job_of j') w'.etcd ≡ over is_create c (job_of j) w.etcd =
        ap (over is_create c (job_of j')) same ∙ ap (λ q. over is_create c q w.etcd) a.same_job in
      record {
        answered = ap (λ (r : Saved JobEtcd × kv.State). r.0) e;
        stored = ap (λ (r : Saved JobEtcd × kv.State). r.1) e;
        agree = a;
      }

  pub saving-IsSaved :
      (again : Again) (is_create : Bool) (c : Category) (j : JobRow) (w : W)
      → IsProper c j
      → IsSaved is_create c j w (saving again is_create j w)
  unfolding save_job_to_etcd
  saving-IsSaved again is_create c j w x =
      let key = job_etcd_key c.name j.id in
      let kept = keep_key (leb (length j.etcd_key) 0) key j w in
      let (a, same) = Agree-keep_key (leb (length j.etcd_key) 0) key j w in
      let steps : saving again is_create j w
          ≡ save_kept table category_table kv decode encode decode_category encode_category
              is_create c kept =
        if_false (leb (length j.name) 0) _ _ x.named
        ∙ ap
            (λ o.
              save_given table category_table kv decode encode decode_category encode_category again
                is_create o j w)
            x.loaded
        ∙ if_false (leb (length c.name) 0 || c.id == 0) _ _ x.category_ok
        ∙ if_false (j.category_id == 0) _ _ x.categorised in
      subst (IsSaved is_create c j w) (sym steps) (save_kept-IsSaved is_create c j w kept a same)

  instead-missing :
      (again : Again) (r : Saved JobEtcd × JobRow × W)
      → r.0 ≡ missing
      → (instead again r).1 ≡ (saving again true r.1 r.2).2
  instead-missing again (missing, j, w) e = refl
  instead-missing again (saved prev, j, w) e = cc
  instead-missing again (invalid t, j, w) e = cc
  instead-missing again (already_there prev, j, w) e = cc
  instead-missing again (failed t, j, w) e = cc

  instead-other :
      (again : Again) (r : Saved JobEtcd × JobRow × W) → r.0 ≢ missing → (instead again r).1 ≡ r.2
  instead-other again (missing, j, w) e = absurd (e refl)
  instead-other again (saved prev, j, w) e = refl
  instead-other again (invalid t, j, w) e = refl
  instead-other again (already_there prev, j, w) e = refl
  instead-other again (failed t, j, w) e = refl

  -- An update in etcd, then if need be a creation, writes the job whatever was there.
  etcd-synced :
      (again : Again) (c : Category) (j : JobRow) (w : W)
      → IsProper c j
      → (synced again j w).1.etcd
        ≡ (put_value kv decode encode
            (job_etcd_key c.name j.id)
            (to_etcd_struct (job_of j) c)
            w.etcd).1
  etcd-synced again c j w x =
      let key = job_etcd_key c.name j.id in
      let new = to_etcd_struct (job_of j) c in
      let r = saving again false j w in
      let is_saved = saving-IsSaved again false c j w x in
      elim (update-cases kv decode encode (get_job_from_etcd kv decode encode c.name j.id w.etcd)
        key new w.etcd) [
          | inl (absent, unchanged) ↦
              let asked : r.0 ≡ missing =
                is_saved.answered ∙ ap (λ (q : Saved JobEtcd × kv.State). q.0) unchanged in
              let kept : r.2.etcd ≡ w.etcd =
                is_saved.stored ∙ ap (λ (q : Saved JobEtcd × kv.State). q.1) unchanged in
              let next =
                saving-IsSaved again true c r.1 r.2 (Agree-IsProper c j r.1 is_saved.agree x) in
              ap (λ (v : W). v.etcd) (instead-missing again r asked)
              ∙ next.stored
              ∙ ap (λ q. (over true c q r.2.etcd).1) is_saved.agree.same_job
              ∙ ap (λ s. (over true c (job_of j) s).1) kept
              ∙ rw absent refl
          | inr (answers, puts) ↦
              let asked : r.0 ≢ missing = λ e. answers (sym is_saved.answered ∙ e) in
              ap (λ (v : W). v.etcd) (instead-other again r asked)
              ∙ is_saved.stored
              ∙ ap (λ (q : Saved JobEtcd × kv.State). q.1) puts
        ]

  updated-none :
      (again : Again) (x : Option Text × table.State) (j : JobRow) (w : W)
      → x.0 ≡ none
      → (updated table category_table kv decode encode decode_category encode_category again x j
          w).1
        ≡ (synced again j (record w { db = x.1 })).1
  updated-none again (none, d) j w e = refl
  updated-none again (some t, d) j w e = cc

  -- An update that the database takes, of a job that has an ID, and with its new fields a name, the ID of
  -- its category and that category loaded, puts the job under the key of its category and ID into etcd,
  -- whatever was there, if etcd takes the write.
  pub update_publishes :
      (fuel : ℕ) (c : Category) (j : JobRow) (fields : Fields) (w : W) (p : Option Bytes)
      → (j.id == 0) ≡ false
      → (update j (drop_id_keys fields) w.db).0 ≡ none
      → IsProper c (assign (drop_id_keys fields) j)
      → (put
          (job_etcd_key c.name (assign (drop_id_keys fields) j).id)
          (encode (to_etcd_struct (job_of (assign (drop_id_keys fields) j)) c))
          w.etcd).0
        ≡ ok p
      → value
          (job_etcd_key c.name (assign (drop_id_keys fields) j).id)
          (update_job table category_table kv decode encode decode_category encode_category fuel j
            fields w).1.etcd
        ≡ some (encode (to_etcd_struct (job_of (assign (drop_id_keys fields) j)) c))
  unfolding update_job
  update_publishes fuel c j fields w p given taken x written =
      let j' = assign (drop_id_keys fields) j in
      let key = job_etcd_key c.name j'.id in
      let d = update j (drop_id_keys fields) w.db in
      let again : Again = λ q v.
        kept_row table category_table kv decode encode decode_category encode_category q
          (save table category_table kv decode encode decode_category encode_category fuel q v) in
      ap (λ (r : Result JobRow × W). value key r.1.etcd) (if_false (j.id == 0) _ _ given)
      ∙ ap (λ (v : W). value key v.etcd) (updated-none again d j' w taken)
      ∙ ap (value key) (etcd-synced again c j' (record w { db = d.1 }) x)
      ∙ value-put_value kv decode encode key (to_etcd_struct (job_of j') c) w.etcd p written
