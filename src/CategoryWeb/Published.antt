-- ===== src/CategoryWeb/Published.antt =====
-- What a PUT on a category (backend/master/web/controllers/category.go, `PutBy`) makes of etcd.
use cronjob.Base.{Bool, Text}
use cronjob.Executor.{Result}
use cronjob.Packet.{Bytes}
use cronjob.Database.{Table}
use cronjob.KeyStore.{Kv}
use cronjob.Categories.{Category, schema, World}

module _ (table : Table schema) (kv : Kv) (decode : Bytes → Result Category)
    (encode : Category → Bytes) (matches : Text → Category → Bool) where
  open table use {update_row}
  open kv use {value, put}

  abbrev W : Type 0
  W = World table.State kv.State
