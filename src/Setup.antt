-- ===== src/Setup.antt =====
-- The environment that a worker sets up for the categories of its jobs, and the adding and removing of
-- categories (backend/worker/setup.go, the requests for categories in backend/worker/executor.go, the
-- handlers of categories in backend/worker/handlers.go). Every operation takes the state of what lies
-- outside the worker and returns it.
pub mod Members
pub mod Ready
pub mod Changes
mod Tests
use cronjob.Base.{
  ℕ, Bool, true, false, Option, none, some, List, [], ◌∷◌, ◌++◌, ltb, length, if◌then◌else◌, Text,
  codes, text_eq, Assoc, lookup, insert, delete,
}
use cronjob.Base.Time.{zero_time}
use cronjob.Executor.{Reply, Result, ok, err, read_reply}
use cronjob.MasterLock.{trim_space}
use cronjob.Categories.{Category}

-- The packages grequests, encoding/json and os/exec: requests to the master, the filling of a category
-- with an answer, and a command of the shell with its error.
pub record Outside : Type 1 where
  pub State : Type 0
  pub get : Text → State → Reply × State
  pub post : Text → Category → State → Reply × State
  pub fill : Category → Text → Result Category
  pub bash : Text → State → Option Text × State

abbrev pub no_category : Category
no_category = record {
  id = 0;
  created_at = zero_time;
  etcd_key = [];
  name = [];
  description = [];
  check_cmd = [];
  setup_cmd = [];
  tear_down_cmd = [];
  is_active = false;
}

abbrev pub default_category : Category
default_category = record no_category {
  is_active = true;
  name = codes "default";
  description = codes "默认的任务类型";
  check_cmd = codes "which bash";
  setup_cmd = codes "echo `date`; sleep 1; echo `date`";
  tear_down_cmd = codes "echo `date`; sleep 1; echo `date`";
}

module _ (master_url : Text) (outside : Outside) where
  open outside use {State, get, post, fill, bash}

  -- `GetJobCategory`
  unfoldable pub get_job_category : Text → State → Result Category × State
  unfolding read_reply
  get_job_category id_or_name s =
      let (reply, s') =
        get (master_url ++ (codes "/api/v1/category/" ++ trim_space id_or_name)) s in
      (read_reply (fill no_category) reply, s')

  -- `PostCategoryToMaster`, with the category that the pointer has afterwards.
  unfoldable pub post_category_to_master : Category → State → Result Category × State
  unfolding read_reply
  post_category_to_master c s =
      let (reply, s') = post (master_url ++ codes "/api/v1/category/create") c s in
      (read_reply (fill c) reply, s')

  abbrev pub executed : Option Text × State → Result Bool × State
  executed (none, s) = (ok true, s)
  executed (some e, s) = (err e, s)

  -- `executeCommand`
  unfoldable pub execute_command : Text → State → Result Bool × State
  execute_command cmd s = executed (bash cmd s)

  -- What is done after the setup command.
  abbrev pub after_setup : Category → Result Bool × State → Result Bool × State
  after_setup c (err e, s) = (err e, s)
  after_setup c (ok success, s) =
      if text_eq c.check_cmd [] then (ok true, s) else execute_command c.check_cmd s

  -- The third step of `checkOrSetUpJobExecuteEnvironment`.
  unfoldable pub run_setup : Category → State → Result Bool × State
  unfolding execute_command
  run_setup c s =
      if text_eq c.setup_cmd [] then (ok true, s) else after_setup c (execute_command c.setup_cmd s)

  -- `return false, err`
  abbrev pub unsuccessful : Result Bool → Result Bool
  unsuccessful (ok success) = ok false
  unsuccessful (err e) = err e

  -- From the label `NEEDSETUP` on, with the result of the check.
  unfoldable pub need_setup : Category → Result Bool × State → Result Bool × State
  unfolding run_setup
  need_setup c (checked, s) =
      if text_eq c.setup_cmd [] then (unsuccessful checked, s) else run_setup c s

  abbrev pub after_check : Category → Result Bool × State → Result Bool × State
  after_check c (ok true, s) = (ok true, s)
  after_check c (ok false, s) = need_setup c (ok false, s)
  after_check c (err e, s) = need_setup c (err e, s)

  -- The second and third step.
  unfoldable pub prepare : Category → State → Result Bool × State
  unfolding execute_command need_setup run_setup
  prepare c s =
      if text_eq c.check_cmd []
      then run_setup c s
      else after_check c (execute_command c.check_cmd s)

  abbrev pub after_post : Result Category × State → Result Bool × State
  after_post (ok c, s) = prepare c s
  after_post (err e, s) = (err e, s)

  abbrev pub after_get : Text → Result Category × State → Result Bool × State
  after_get name (ok c, s) =
      if c.is_active
      then prepare c s
      else (err (name ++ codes "类型任务is_active是false，不可执行, 请设置其为true后方可执行"), s)
  after_get name (err e, s) =
      if text_eq name (codes "default")
      then after_post (post_category_to_master default_category s)
      else (err e, s)

  -- `checkOrSetUpJobExecuteEnvironment`
  unfoldable pub check_or_set_up_job_execute_environment : Text → State → Result Bool × State
  unfolding prepare get_job_category post_category_to_master
  check_or_set_up_job_execute_environment name s = after_get name (get_job_category name s)

  -- The loop of `setupExecuteEnvrionment`, in the order of the map; the results are only logged.
  unfoldable pub setup_all : Assoc Bool → State → State
  unfolding check_or_set_up_job_execute_environment
  setup_all [] s = s
  setup_all ((name, value) ∷ m) s = setup_all m (check_or_set_up_job_execute_environment name s).1
