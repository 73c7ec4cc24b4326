-- ===== src/Jobs/Kept.antt =====
-- What saving a job in etcd leaves there (backend/common/repositories/jobEtcd.go, `saveJobToEtcd`).
use cronjob.Base.{
  ◌≡◌, refl, sym, ap, subst, ◌∙◌, Bool, false, inl, inr, ◌||◌, ◌==◌, some, leb, length, Bool-cases,
  if_true, if_false,
}
use cronjob.Data.{JobEtcd}
use cronjob.Executor.{Result}
use cronjob.Packet.{Bytes}
use cronjob.Database.{Table}
use cronjob.KeyStore.{Kv, Saved}
use cronjob.KeyStore.Saving.{IsKept, IsKept-save_over}
use cronjob.JobStore.{Category, to_etcd_struct, job_etcd_key, get_job_from_etcd}
use cronjob.Categories
use cronjob.Jobs.{JobRow, schema, job_of, World, save_given, save_job_to_etcd}
use cronjob.Jobs.Published.{saving-IsSaved}

module _ (table : Table schema) (category_table : Table Categories.schema) (kv : Kv)
    (decode : Bytes → Result JobEtcd) (encode : JobEtcd → Bytes)
    (decode_category : Bytes → Result Categories.Category)
    (encode_category : Categories.Category → Bytes) where
  abbrev W : Type 0
  W = World table.State category_table.State kv.State

  module _ (again : JobRow → W → JobRow × W) (is_create : Bool) (c : Category) (j : JobRow) (w : W)
      (loaded : j.category ≡ some c) (categorised : (j.category_id == 0) ≡ false) where
    -- What is left in etcd after a save.
    abbrev IsKeptBy : Saved JobEtcd × JobRow × W → Type 0
    IsKeptBy r =
        IsKept kv decode encode (job_etcd_key c.name j.id) (to_etcd_struct (job_of j) c) w.etcd
          (r.0, r.2.etcd)

    -- The pair of what is answered and etcd.
    both :
        {x y : Saved JobEtcd} {s t : kv.State}
        → x ≡ y
        → s ≡ t
        → ◌≡◌ {A = Saved JobEtcd × kv.State} (x, s) (y, t)
    both e f = rw (e, f) refl

    accepted-IsKept :
        leb (length j.name) 0 ≡ false
        → (leb (length c.name) 0 || c.id == 0) ≡ false
        → IsKeptBy (
            save_job_to_etcd table category_table kv decode encode decode_category encode_category
              again is_create j w)
    accepted-IsKept named fine =
        let r =
          save_job_to_etcd table category_table kv decode encode decode_category encode_category
            again is_create j w in
        let x =
          saving-IsSaved table category_table kv decode encode decode_category encode_category again
            is_create c j w
            (record {
              named = named;
              loaded = loaded;
              category_ok = fine;
              categorised = categorised;
            }) in
        subst
          (IsKept kv decode encode (job_etcd_key c.name j.id) (to_etcd_struct (job_of j) c) w.etcd)
          (sym (both x.answered x.stored))
          (IsKept-save_over kv decode encode is_create
            (get_job_from_etcd kv decode encode c.name j.id w.etcd) (job_etcd_key c.name j.id)
            (to_etcd_struct (job_of j) c) w.etcd)

    -- After saving a job in etcd that has its category loaded and the ID of it: with success its key
    -- has the new job, with success or an error of the write no other key has changed, and if a check
    -- refuses the job no key has.
    pub save_keeps : IsKeptBy (
        save_job_to_etcd table category_table kv decode encode decode_category encode_category again
          is_create j w)
    unfolding save_job_to_etcd IsKept
    save_keeps = elim (Bool-cases (leb (length j.name) 0)) [
      | inl nameless ↦
          subst IsKeptBy (sym (if_true (leb (length j.name) 0) _ _ nameless)) (λ k. refl)
      | inr named ↦ elim (Bool-cases (leb (length c.name) 0 || c.id == 0)) [
        | inl bad ↦
            subst IsKeptBy
              (sym (
                if_false (leb (length j.name) 0) _ _ named
                ∙ ap
                    (λ o.
                      save_given table category_table kv decode encode decode_category
                        encode_category again is_create o j w)
                    loaded
                ∙ if_true (leb (length c.name) 0 || c.id == 0) _ _ bad))
              (λ k. refl)
        | inr fine ↦ accepted-IsKept named fine
      ]
    ]
