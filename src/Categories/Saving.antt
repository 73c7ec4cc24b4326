-- ===== src/Categories/Saving.antt =====
-- What saving a category that has an ID makes of etcd (backend/common/repositories/category.go, `Save`,
-- categoryEtcd.go, `saveCategoryToEtcd`, `getCategoryFromEtcd`).
use cronjob.Base.{
  ◌≤◌, ◌≡◌, ◌≢◌, refl, sym, ap, ◌∙◌, Bool, true, false, Bool-cases, inl, inr, ◌==◌, Option, none,
  some, ltb, leb, length, if_true, Text, arith,
}
use cronjob.Executor.{Result, ok}
use cronjob.Packet.{Bytes}
use cronjob.MasterLock.{trim_space}
use cronjob.Database.{Fields, drop_id_keys, Table}
use cronjob.KeyStore.{
  Kv, found, Saved, saved, invalid, missing, already_there, failed, put_value, save_over,
}
use cronjob.KeyStore.Saving.{update-cases, value-put_value}
use cronjob.Categories.{
  Category, schema, category_etcd_key, with_key, key_fields, World, get_category_from_etcd, updated,
  update_category, write_back, save_category_to_etcd, created_instead, saved_row, save,
}

module _ (table : Table schema) (kv : Kv) (decode : Bytes → Result Category)
    (encode : Category → Bytes) where
  open table use {row, assign, update, update_row}
  open kv use {value, put}

  abbrev W : Type 0
  W = World table.State kv.State

  etcd-updated :
      (r : Option Text × table.State) (c : Category) (w : W)
      → (updated table kv decode encode r c w).1.etcd ≡ w.etcd
  etcd-updated (some e, d) c w = refl
  etcd-updated (none, d) c w = refl

  -- An update of the row leaves etcd alone.
  pub etcd-update_category :
      (c : Category) (fields : Fields) (w : W)
      → (update_category table kv decode encode c fields w).1.etcd ≡ w.etcd
  unfolding update_category
  etcd-update_category c fields w = elim (Bool-cases (c.id == 0)) [
    | inl bad ↦ rw bad refl
    | inr good ↦ rw good (etcd-updated (update c (drop_id_keys fields) w.db) _ w)
  ]

  write_back-parts :
      (c : Category) (w : W) (r : Saved Category × kv.State)
      → ((write_back table kv decode encode c w r).0 ≡ r.0)
        × ((write_back table kv decode encode c w r).1.etcd ≡ r.1)
  write_back-parts c w (saved prev, s) =
      (refl, etcd-update_category c (key_fields c.etcd_key) (record w { etcd = s }))
  write_back-parts c w (invalid e, s) = (refl, refl)
  write_back-parts c w (missing, s) = (refl, refl)
  write_back-parts c w (already_there prev, s) = (refl, refl)
  write_back-parts c w (failed e, s) = (refl, refl)

  -- What is saved over in etcd.
  abbrev over : Bool → Category → kv.State → Saved Category × kv.State
  over is_create c s =
      save_over kv decode encode is_create (get_category_from_etcd table kv decode encode c.name s)
        (category_etcd_key c.name) (with_key c) s

  save_category_to_etcd-parts :
      (is_create : Bool) (c : Category) (w : W)
      → leb (length c.name) 0 ≡ false
      → ((save_category_to_etcd table kv decode encode is_create c w).0
          ≡ (over is_create c w.etcd).0)
        × ((save_category_to_etcd table kv decode encode is_create c w).1.etcd
            ≡ (over is_create c w.etcd).1)
  unfolding save_category_to_etcd
  save_category_to_etcd-parts is_create c w named =
      rw named (write_back-parts (with_key c) w (over is_create c w.etcd))

  created_instead-missing :
      (c : Category) (r : Saved Category × W)
      → r.0 ≡ missing
      → created_instead table kv decode encode c r
        ≡ (save_category_to_etcd table kv decode encode true c r.1).1
  created_instead-missing c (missing, w) e = refl
  created_instead-missing c (saved prev, w) e = cc
  created_instead-missing c (invalid t, w) e = cc
  created_instead-missing c (already_there prev, w) e = cc
  created_instead-missing c (failed t, w) e = cc

  created_instead-other :
      (c : Category) (r : Saved Category × W)
      → r.0 ≢ missing
      → created_instead table kv decode encode c r ≡ r.1
  created_instead-other c (missing, w) e = absurd (e refl)
  created_instead-other c (saved prev, w) e = refl
  created_instead-other c (invalid t, w) e = refl
  created_instead-other c (already_there prev, w) e = refl
  created_instead-other c (failed t, w) e = refl

  state-created_instead :
      (c : Category) (w : W) (p : Option Bytes)
      → leb (length c.name) 0 ≡ false
      → (put (category_etcd_key c.name) (encode (with_key c)) w.etcd).0 ≡ ok p
      → (created_instead table kv decode encode c
          (save_category_to_etcd table kv decode encode false c w)).etcd
        ≡ (put_value kv decode encode (category_etcd_key c.name) (with_key c) w.etcd).1
  state-created_instead c w p named taken =
      let key = category_etcd_key c.name in
      let r = save_category_to_etcd table kv decode encode false c w in
      let (answered, stored) = save_category_to_etcd-parts false c w named in
      elim (update-cases kv decode encode
        (get_category_from_etcd table kv decode encode c.name w.etcd) key (with_key c) w.etcd) [
          | inl (absent, unchanged) ↦
              let kept : r.1.etcd ≡ w.etcd =
                stored ∙ ap (λ (q : Saved Category × kv.State). q.1) unchanged in
              let asked : r.0 ≡ missing =
                answered ∙ ap (λ (q : Saved Category × kv.State). q.0) unchanged in
              ap (λ (v : W). v.etcd) (created_instead-missing c r asked)
              ∙ (save_category_to_etcd-parts true c r.1 named).1
              ∙ ap (λ t. (over true c t).1) kept
              ∙ rw absent refl
          | inr (answers, puts) ↦
              let asked : r.0 ≢ missing = λ e. answers (sym answered ∙ e) in
              ap (λ (v : W). v.etcd) (created_instead-other c r asked)
              ∙ stored
              ∙ ap (λ (q : Saved Category × kv.State). q.1) puts
        ]

  saved_row-none :
      (x : Option Text × table.State) (c : Category) (w : W)
      → x.0 ≡ none
      → (saved_row table kv decode encode x c w).1
        ≡ created_instead table kv decode encode c
            (save_category_to_etcd table kv decode encode false c (record w { db = x.1 }))
  saved_row-none (none, d) c w e = refl
  saved_row-none (some t, d) c w e = cc

  module _ (c : Category) (w : W) (p : Option Bytes) (identified : 1 ≤ c.id)
      (named : leb (length c.name) 0 ≡ false) (trimmed : trim_space c.name ≡ c.name)
      (updates : (update_row c w.db).0 ≡ none)
      (taken : (put (category_etcd_key c.name) (encode (with_key c)) w.etcd).0 ≡ ok p) where
    value-save :
        value (category_etcd_key c.name) (save table kv decode encode c w).1.etcd
        ≡ some (encode (with_key c))
    unfolding save
    value-save =
        let key = category_etcd_key c.name in
        let x = update_row c w.db in
        ap (λ (v : Result Category × W). value key v.1.etcd)
          (if_true (ltb 0 c.id) (saved_row table kv decode encode x c w) _ (ground arith))
        ∙ ap (λ (v : W). value key v.etcd) (saved_row-none x c w updates)
        ∙ ap (value key) (state-created_instead c (record w { db = x.1 }) p named taken)
        ∙ value-put_value kv decode encode key (with_key c) w.etcd p taken

    -- After a category is saved that has an ID and a name without white space at its ends, which the
    -- database and etcd take, whatever etcd held before: if it answers and what was encoded is read
    -- back, the category is found in etcd under its name.
    pub get-save_category :
        (v : Option Bytes)
        → decode (encode (with_key c)) ≡ ok (with_key c)
        → kv.get (category_etcd_key c.name) (save table kv decode encode c w).1.etcd ≡ ok v
        → get_category_from_etcd table kv decode encode c.name
            (save table kv decode encode c w).1.etcd
          ≡ found (with_key c)
    unfolding get_category_from_etcd
    get-save_category v back answers =
        let s = (save table kv decode encode c w).1.etcd in
        let held : v ≡ some (encode (with_key c)) =
          kv.get_ok (category_etcd_key c.name) s v answers ∙ value-save in
        let got : kv.get (category_etcd_key c.name) s ≡ ok (some (encode (with_key c))) =
          answers ∙ ap ok held in
        rw (trimmed, named, got, back) refl
