-- ===== src/Kills/Single.antt =====
-- That a job has one unfinished kill at most in the database (backend/common/repositories/kill.go,
-- `Save`).
use mathlib.Core.Option
use native.Mathlib.Decide.{ℕ_discrete}
use cronjob.Base.{
  ℕ, ◌≤◌, ◌≡◌, ◌≢◌, ◌⊎◌, refl, sym, ap, subst, ◌∙◌, Bool, true, false, Bool-cases, inl, inr, ◌==◌,
  Option, none, some, ltb, leb, length, if◌then◌else◌, if_true, if_false, Text, codes, arith,
}
use cronjob.Executor.{Result, ok, err}
use cronjob.Executor.Pointer.{Result-cases}
use cronjob.Packet.{Bytes}
use cronjob.Database.{Table}
use cronjob.KeyStore.{Kv, Found, found, not_found, get_failed, Saved}
use cronjob.Kills.{
  JobKill, KillEtcd, schema, World, is_unfinished, short_fields, key_fields, keep_key_if, keep_key,
  with_etcd, save_kept, save_jobkill_to_etcd, publish_unless, created, trigger_again, save_unless,
  save,
}
use cronjob.Kills.Laws.{IsGorm, key_fields-Lacks, save_unless-err}

-- The job of an unfinished kill.
abbrev unfinished_of : Option JobKill → Option ℕ
unfinished_of none = none
unfinished_of (some k) = if k.killed then none else some k.job_id

-- One more row, with a job that no row had.
single_with_new :
    (u v : ℕ → Option ℕ) (n job : ℕ)
    → ((m : ℕ) → v n ≡ some m → m ≡ job)
    → ((i : ℕ) → i ≢ n → v i ≡ u i)
    → ((i m : ℕ) → u i ≡ some m → m ≢ job)
    → ((i j m : ℕ) → u i ≡ some m → u j ≡ some m → i ≡ j)
    → (i j m : ℕ) → v i ≡ some m
    → v j ≡ some m
    → i ≡ j
single_with_new u v n job new others free single i j m hi hj =
    let at_new : (k : ℕ) → k ≡ n → v k ≡ some m → m ≡ job = λ k e h. new m (sym (ap v e) ∙ h) in
    let at_old : (k : ℕ) → k ≢ n → v k ≡ some m → u k ≡ some m = λ k ne h. sym (others k ne) ∙ h in
    elim (ℕ_discrete i n) [
      | yes p ↦ elim (ℕ_discrete j n) [
        | yes q ↦ p ∙ sym q
        | no q ↦ absurd (free j m (at_old j q hj) (at_new i p hi))
      ]
      | no p ↦ elim (ℕ_discrete j n) [
        | yes q ↦ absurd (free i m (at_old i p hi) (at_new j q hj))
        | no q ↦ single i j m (at_old i p hi) (at_old j q hj)
      ]
    ]

-- What an unfinished kill of a job says.
unfinished_job : (b : Bool) (job m : ℕ) → (if b then none else some job) ≡ some m → m ≡ job
unfinished_job true job m e = cc
unfinished_job false job m e = cc

module _ (table : Table schema) (kv : Kv) (decode : Bytes → Result KillEtcd)
    (encode : KillEtcd → Bytes) (gorm : IsGorm table) where
  open table use {row, first_where, create, assign, update}

  abbrev W : Type 0
  W = World table.State kv.State

  -- Two rows that are unfinished kills of one job are the same row.
  unfoldable pub IsSingle : table.State → Type 0
  IsSingle d =
      (i j m : ℕ) → unfinished_of (row i d) ≡ some m → unfinished_of (row j d) ≡ some m → i ≡ j

  abbrev Keeps : table.State → table.State → Type 0
  Keeps d d' = (n : ℕ) → unfinished_of (row n d') ≡ unfinished_of (row n d)

  IsSingle-Keeps : (d d' : table.State) → Keeps d d' → IsSingle d → IsSingle d'
  unfolding IsSingle
  IsSingle-Keeps d d' same x i j m hi hj = x i j m (sym (same i) ∙ hi) (sym (same j) ∙ hj)

  unfinished_of-key :
      (key : Text) (o : Option JobKill)
      → unfinished_of (Option.map (assign (key_fields key)) o) ≡ unfinished_of o
  unfinished_of-key key none = refl
  unfinished_of-key key (some k) = ap (λ q. unfinished_of (some q)) (gorm.assign_key key k)

  Keeps-key : (k : JobKill) (key : Text) (d : table.State) → Keeps d (update k (key_fields key) d).1
  Keeps-key k key d n = elim (table.update_any k (key_fields key) d n (key_fields-Lacks key)) [
    | inl e ↦ ap unfinished_of e
    | inr e ↦ ap unfinished_of e ∙ unfinished_of-key key (row n d)
  ]

  Keeps-keep_key_if :
      (b : Bool) (k : JobKill) (w : W) → Keeps w.db (keep_key_if table kv decode encode b k w).1.db
  Keeps-keep_key_if false k w n = refl
  Keeps-keep_key_if true k w n = Keeps-key _ _ w.db n

  db-with_etcd :
      (kw : JobKill × W) (r : Saved KillEtcd × kv.State)
      → (with_etcd table kv decode encode kw r).2.db ≡ kw.1.db
  db-with_etcd (k, w) (r, s) = refl

  Keeps-save_jobkill :
      (is_create : Bool) (k : JobKill) (w : W)
      → Keeps w.db (save_jobkill_to_etcd table kv decode encode is_create k w).2.db
  unfolding save_jobkill_to_etcd
  Keeps-save_jobkill is_create k w n =
      let kw = keep_key table kv decode encode k w in
      let kept : unfinished_of (row n kw.1.db) ≡ unfinished_of (row n w.db) =
        Keeps-keep_key_if (leb (length k.etcd_key) 0) k w n in
      elim (Bool-cases (k.job_id == 0)) [
        | inl bad ↦ rw bad refl
        | inr good ↦ elim (Bool-cases (leb (length k.category) 0)) [
          | inl empty ↦ rw (good, empty) refl
          | inr named ↦
              rw (good, named)
                (ap (λ d. unfinished_of (row n d))
                    (db-with_etcd kw (save_kept table kv decode encode is_create kw))
                  ∙ kept)
        ]
      ]

  Keeps-publish_unless :
      (b : Bool) (k : JobKill) (w : W)
      → Keeps w.db (publish_unless table kv decode encode b k w).1.db
  Keeps-publish_unless true k w n = refl
  Keeps-publish_unless false k w n = Keeps-save_jobkill true k w n

  Keeps-trigger_again :
      (f : Found KillEtcd) (k : JobKill) (w : W)
      → Keeps w.db (trigger_again table kv decode encode f k w).db
  Keeps-trigger_again not_found k w n = Keeps-publish_unless k.killed k w n
  Keeps-trigger_again (found prev) k w n = Keeps-save_jobkill false k w n
  Keeps-trigger_again (get_failed e) k w n = refl

  -- The row that a creation adds, and the others.
  unfinished_of-created :
      (k : JobKill) (d : table.State) (k' : JobKill)
      → (create k d).0 ≡ ok k'
      → (n : ℕ) × (unfinished_of (row n (create k d).1)
          ≡ (if k.killed then none else some k.job_id))
        × ((m : ℕ) → m ≢ n → row m (create k d).1 ≡ row m d)
  unfinished_of-created k d k' e =
      let (n, t, stamped, pos, absent, stored, others) = table.create_ok k k' d e in
      (n, ap unfinished_of (stored ∙ ap some stamped), others)

  -- No unfinished kill of the job was there.
  none_unfinished :
      (o : Option JobKill) (job m : ℕ)
      → ((k : JobKill) → o ≡ some k → is_unfinished job k ≡ false)
      → unfinished_of o ≡ some m
      → m ≢ job
  none_unfinished none job m h e = λ _. cc
  none_unfinished (some k) job m h e = ground (arith, h k refl)

  IsSingle-create :
      (k : JobKill) (d : table.State)
      → first_where short_fields (is_unfinished k.job_id) d ≡ err (codes "record not found")
      → IsSingle d
      → IsSingle (create k d).1
  unfolding IsSingle
  IsSingle-create k d absent x = elim (Result-cases (create k d).0) [
    | inl (k', made) ↦
        let (n, added, others) = unfinished_of-created k d k' made in
        single_with_new (λ i. unfinished_of (row i d)) (λ i. unfinished_of (row i (create k d).1)) n
          k.job_id (λ m h. unfinished_job k.killed k.job_id m (sym added ∙ h))
          (λ i ne. ap unfinished_of (others i ne))
          (λ i m h.
            none_unfinished (row i d) k.job_id m (table.where_not_found short_fields _ d absent i)
              h)
          x
    | inr (e, refused) ↦
        IsSingle-Keeps d (create k d).1 (λ n. ap unfinished_of (table.create_err k d e n refused)) x
  ]

  IsSingle-created :
      (r : Result JobKill × table.State) (w : W)
      → IsSingle r.1
      → IsSingle (created table kv decode encode r w).1.db
  IsSingle-created (err e, d) w x = x
  IsSingle-created (ok k, d) w x =
      IsSingle-Keeps d _ (Keeps-publish_unless k.killed k (record w { db = d })) x

  -- The query has an answer: a row, or that there is none.
  abbrev pub IsAnswer : Result JobKill → Type 0
  IsAnswer r = (r ≡ err (codes "record not found")) ⊎ ((old : JobKill) × (r ≡ ok old))

  save_unless-found :
      (r : Result JobKill) (k old : JobKill) (w : W)
      → r ≡ ok old
      → 1 ≤ old.id
      → Keeps w.db (save_unless table kv decode encode r k w).1.db
  save_unless-found (ok q) k old w e pos n =
      let same : q.id ≡ old.id = cc in
      let some_id : ltb 0 q.id ≡ true = ground arith in
      ap (λ (v : Result JobKill × W). unfinished_of (row n v.1.db))
        (if_true (ltb 0 q.id) _ _ some_id)
      ∙ Keeps-trigger_again _ k w n
  save_unless-found (err t) k old w e pos n = cc

  -- If every job has one unfinished kill at most in the database, and the query for an unfinished kill
  -- of the job has an answer, saving a kill that has no ID yet keeps that so, whatever else the
  -- database and etcd answer.
  pub save-IsSingle :
      (k : JobKill) (w : W)
      → k.id ≡ 0
      → IsAnswer (first_where short_fields (is_unfinished k.job_id) w.db)
      → IsSingle w.db
      → IsSingle (save table kv decode encode k w).1.db
  unfolding save
  save-IsSingle k w new answer x =
      let r = first_where short_fields (is_unfinished k.job_id) w.db in
      let goes_on =
        if_false (ltb 0 k.id) _ (save_unless table kv decode encode r k w) (ground arith) in
      subst (λ (v : Result JobKill × W). IsSingle v.1.db) (sym goes_on)
        (elim answer [
          | inl absent ↦
              subst (λ (v : Result JobKill × W). IsSingle v.1.db)
                (sym (save_unless-err table kv decode encode r k w _ absent))
                (IsSingle-created (create k w.db) w (IsSingle-create k w.db absent x))
          | inr (old, there) ↦
              let (full, stored, pos, test, shown) = table.where_ok short_fields _ w.db old there in
              let id : 1 ≤ old.id = subst (λ (q : JobKill). 1 ≤ q.id) (sym shown) pos in
              IsSingle-Keeps w.db _ (save_unless-found r k old w there id) x
        ])
