-- ===== src/Setup/Members.antt =====
-- The categories of a worker: the start with those of the configuration, and the adding and removing of
-- one (backend/worker/setup.go) with the handlers of the requests (backend/worker/handlers.go).
use cronjob.Base.{
  ℕ, Bool, true, false, Option, none, some, [], ◌∷◌, ◌++◌, ltb, length, if◌then◌else◌, Text, codes,
  text_eq, Assoc, lookup, insert, delete,
}
use cronjob.Executor.{Result, ok, err}
use cronjob.MasterLock.{trim_space}
use cronjob.Setup.{Outside, check_or_set_up_job_execute_environment, setup_all}

-- The categories of a worker, `none` for a nil map, and what lies outside it.
pub record Node (S : Type 0) : Type 0 where
  pub categories : Option (Assoc Bool)
  pub outside : S

-- An answer over HTTP.
pub record Response : Type 0 where
  pub status : ℕ
  pub body : Text

-- What `http.Error` writes of a text.
abbrev pub line : Text → Text
line e = e ++ (10 ∷ [])

-- An assignment into a map; none is a panic, when the map is nil.
abbrev pub assigned : Text → Bool → Option (Assoc Bool) → Option (Assoc Bool)
assigned name value none = none
assigned name value (some m) = some (insert name value m)

abbrev pub entries : Option (Assoc Bool) → Assoc Bool
entries none = []
entries (some m) = m

abbrev pub with_category :
    {S : Type 0} → Result Bool → Option (Assoc Bool) → S → Option (Result Bool × Node S)
with_category r none s = none
with_category r (some m) s = some (r, record { categories = some m; outside = s })

abbrev pub bool_text : Bool → Text
bool_text true = codes "true"
bool_text false = codes "false"

abbrev pub deleted : Text → Option (Assoc Bool) → Option (Assoc Bool)
deleted name none = none
deleted name (some m) = some (delete name m)

abbrev pub remove_if : {S : Type 0} → Option Bool → Text → Node S → Result Bool × Node S
remove_if none name w = (err (name ++ codes "不存在于worker的categories中"), w)
remove_if (some value) name w = (ok true, record w { categories = deleted name w.categories })

-- `removeExecuteCategory`
unfoldable pub remove_execute_category : {S : Type 0} → Text → Node S → Result Bool × Node S
unfolding lookup delete trim_space
remove_execute_category name w =
    let name' = trim_space name in
    if text_eq name' []
    then (err (codes "传入的name为空"), w)
    else remove_if (lookup name' (entries w.categories)) name' w

abbrev pub added : {S : Type 0} → Option (Result Bool × Node S) → Option (Response × Node S)
added none = none
added (some (err e, w)) = some (record { status = 400; body = line e }, w)
added (some (ok true, w)) = some (record { status = 200; body = codes "add category success" }, w)
added (some (ok false, w)) = some (record { status = 200; body = codes "add category false" }, w)

abbrev pub removed : {S : Type 0} → Result Bool × Node S → Response × Node S
removed (err e, w) = (record { status = 400; body = line e }, w)
removed (ok true, w) = (record { status = 204; body = [] }, w)
removed (ok false, w) = (record { status = 400; body = [] }, w)

-- `removeCategoryHandler`, with the name of the path.
unfoldable pub remove_category_handler : {S : Type 0} → Text → Node S → Response × Node S
unfolding remove_execute_category
remove_category_handler name w = removed (remove_execute_category name w)

module _ (master_url : Text) (outside : Outside) where
  open outside use {State}

  abbrev pub all_set_up : Option (Assoc Bool) → State → Option (Node State)
  all_set_up none s = none
  all_set_up (some m) s =
      some (record { categories = some m; outside = setup_all master_url outside m s })

  -- `setupExecuteEnvrionment` with the categories of the configuration; none is a panic.
  unfoldable pub setup_execute_environment : Option (Assoc Bool) → State → Option (Node State)
  unfolding setup_all insert
  setup_execute_environment config s =
      if ltb (length (entries config)) 1
      then all_set_up (assigned (codes "default") true config) s
      else all_set_up config s

  abbrev pub after_environment :
      Text → Option (Assoc Bool) → Result Bool × State → Option (Result Bool × Node State)
  after_environment name m (ok true, s) = with_category (ok true) (assigned name true m) s
  after_environment name m (ok false, s) = some (ok false, record { categories = m; outside = s })
  after_environment name m (err e, s) = some (err e, record { categories = m; outside = s })

  abbrev pub add_unless : Option Bool → Text → Node State → Option (Result Bool × Node State)
  add_unless (some value) name w = some (err (name ++ (codes "分类已经存在,值是：" ++ bool_text value)), w)
  add_unless none name w =
      after_environment name w.categories
        (check_or_set_up_job_execute_environment master_url outside name w.outside)

  -- `addExecuteCategory`; none is a panic.
  unfoldable pub add_execute_category : Text → Node State → Option (Result Bool × Node State)
  unfolding lookup insert trim_space check_or_set_up_job_execute_environment
  add_execute_category name w =
      let name' = trim_space name in add_unless (lookup name' (entries w.categories)) name' w

  -- `categoryAddHandler`, with the name of the form.
  unfoldable pub category_add_handler : Text → Node State → Option (Response × Node State)
  unfolding add_execute_category
  category_add_handler name w =
      if text_eq name []
      then some (record { status = 400; body = line (codes "传入的分类名为空") }, w)
      else added (add_execute_category name w)
