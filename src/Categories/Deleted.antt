-- ===== src/Categories/Deleted.antt =====
-- What the deletion of a category reaches (backend/common/repositories/category.go, `Delete`).
use cronjob.Base.{
  ℕ, ◌≤◌, ◌≡◌, ◌≢◌, refl, ap, ◌∙◌, Bool, true, false, ◌==◌, Option, none, some, if_true, if_false,
  Text, lookup, delete, text_eq, arith,
}
use cronjob.Executor.{Result}
use cronjob.Packet.{Bytes}
use cronjob.Database.{Lacks, id_keys, drop_id_keys, Table}
use cronjob.KeyStore.{Kv}
use cronjob.Categories.{
  Category, schema, inactive_fields, World, get_category_from_etcd, updated, update_category,
  delete_answered, delete_category,
}

-- gorm finds a field by its name.
pub record IsGorm (table : Table schema) : Type 0 where
  pub assign_inactive :
      (c : Category) → table.assign inactive_fields c ≡ record c { is_active = false }

inactive_fields-Lacks : Lacks id_keys inactive_fields
unfolding lookup text_eq
inactive_fields-Lacks = (refl, (refl, (refl, (refl, tt))))

drop-inactive_fields : drop_id_keys inactive_fields ≡ inactive_fields
unfolding drop_id_keys delete text_eq
drop-inactive_fields = refl

module _ (table : Table schema) (kv : Kv) (decode : Bytes → Result Category)
    (encode : Category → Bytes) where
  open table use {row, assign, update}

  abbrev W : Type 0
  W = World table.State kv.State

  delete_answered-ok :
      (x : Option Text × table.State) (c : Category) (w : W)
      → x.0 ≡ none
      → delete_answered table kv decode encode (updated table kv decode encode x c w)
        ≡ (true, record w { db = x.1 })
  delete_answered-ok (none, d) c w e = refl
  delete_answered-ok (some t, d) c w e = absurd (cc e)

  -- An active category that has an ID and whose update the database takes is deleted with success: its
  -- row is not active any more and no other row changes, but under every name etcd still has what it
  -- had, so that the category stays as active there as it was.
  pub deleted_stays_in_etcd :
      (gorm : IsGorm table) (c full : Category) (w : W)
      → c.is_active ≡ true
      → 1 ≤ c.id
      → row c.id w.db ≡ some full
      → (update (record c { is_active = false }) inactive_fields w.db).0 ≡ none
      → ((delete_category table kv decode encode c w).0 ≡ true)
        × (row c.id (delete_category table kv decode encode c w).1.db
            ≡ some (record full { is_active = false }))
        × ((n : ℕ)
            → n ≢ c.id
            → row n (delete_category table kv decode encode c w).1.db ≡ row n w.db)
        × ((name : Text)
            → get_category_from_etcd table kv decode encode name
                (delete_category table kv decode encode c w).1.etcd
              ≡ get_category_from_etcd table kv decode encode name w.etcd)
  unfolding delete_category update_category
  deleted_stays_in_etcd gorm c full w active identified stored taken =
      let c' : Category = record c { is_active = false } in
      let x = update c' inactive_fields w.db in
      let given : (c'.id == 0) ≡ false = ground arith in
      let pos : c'.id ≢ 0 = λ e. absurd (omega (arith, e, identified)) in
      let taken' : (update c' (drop_id_keys inactive_fields) w.db).0 ≡ none =
        ap (λ f. (update c' f w.db).0) drop-inactive_fields ∙ taken in
      let steps : delete_category table kv decode encode c w ≡ (true, record w { db = x.1 }) =
        if_true c.is_active _ _ active
        ∙ ap (delete_answered table kv decode encode) (if_false (c'.id == 0) _ _ given)
        ∙ delete_answered-ok (update c' (drop_id_keys inactive_fields) w.db) _ w taken'
        ∙ ap (λ f. let v : Bool × W = (true, record w { db = (update c' f w.db).1 }) in v)
            drop-inactive_fields in
      (
        ap (λ (v : Bool × W). v.0) steps,
        ap (λ (v : Bool × W). row c.id v.1.db) steps
            ∙ table.update_own c' inactive_fields w.db full inactive_fields-Lacks pos stored taken
            ∙ ap some (gorm.assign_inactive full),
        λ n ne.
            ap (λ (v : Bool × W). row n v.1.db) steps
            ∙ table.update_others c' inactive_fields w.db n inactive_fields-Lacks pos ne,
        λ name.
            ap (λ (v : Bool × W). get_category_from_etcd table kv decode encode name v.1.etcd)
              steps,
      )
