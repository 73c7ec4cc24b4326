-- ===== src/CategoryWeb/Tests.antt =====
-- A PUT on a category (backend/master/web/controllers/category.go) with a form, in a concrete database and
-- a concrete etcd.
use cronjob.Base.{none, some, [], Text, codes, text_eq, if◌then◌else◌, Bool}
use cronjob.KeyStore.Concrete.{store}
use cronjob.Categories.{Category, World}
use cronjob.Categories.Concrete.{table, ops}
use cronjob.JobWeb.{Form}

-- The flag is turned off.
abbrev form : Form
form name =
    if text_eq name (codes "name")
    then some (codes "ops")
    else if text_eq name (codes "is_active")
    then some (codes "False")
    else none

abbrev one_row : World table.State store.State
one_row = record { db = (1, λ n. (0, ops)); etcd = [] }

abbrev by_name : Text → Category → Bool
by_name t c = text_eq c.name t
