-- ===== src/Categories/Tests.antt =====
-- Categories (backend/common/repositories/category.go, categoryEtcd.go) in a concrete database and a
-- concrete etcd.
use cronjob.Base.{
  ℕ, ◌≡◌, ◌≢◌, refl, true, false, none, some, [], ◌∷◌, Text, codes, text_eq, lookup, insert, arith,
}
use cronjob.MasterLock.{trim_space}
use cronjob.KeyStore.{found}
use cronjob.KeyStore.Concrete.{store}
use cronjob.Categories.{with_key, World, get_category_from_etcd, save, delete_category}
use cronjob.Categories.Saving.{get-save_category}
use cronjob.Categories.Deleted.{IsGorm, deleted_stays_in_etcd}
use cronjob.Categories.Concrete.{table, ops, encode, decode}

gorm : IsGorm table
unfolding text_eq
gorm = record { assign_inactive = λ c. refl }

abbrev one_row : World table.State store.State
one_row = record { db = (1, λ n. (0, ops)); etcd = [] }

get-save_category_example :
    get_category_from_etcd table store decode encode
      (codes "ops")
      (save table store decode encode ops one_row).1.etcd
    ≡ found (with_key ops)
unfolding save trim_space lookup insert text_eq
get-save_category_example =
    get-save_category table store decode encode ops one_row none (omega arith) refl refl refl refl
      (some (1 ∷ 1 ∷ codes "ops")) refl refl

deleted_stays_in_etcd_example :
    ((delete_category table store decode encode ops one_row).0 ≡ true)
    × (table.row 1 (delete_category table store decode encode ops one_row).1.db
        ≡ some (record ops { is_active = false }))
    × ((n : ℕ)
        → n ≢ 1
        → table.row n (delete_category table store decode encode ops one_row).1.db
          ≡ table.row n one_row.db)
    × ((name : Text)
        → get_category_from_etcd table store decode encode name
            (delete_category table store decode encode ops one_row).1.etcd
          ≡ get_category_from_etcd table store decode encode name [])
deleted_stays_in_etcd_example =
    deleted_stays_in_etcd table store decode encode gorm ops ops one_row refl (omega arith) refl
      refl
