-- ===== src/Setup/Tests.antt =====
-- A worker (backend/worker/setup.go) on a machine where the check of a category succeeds once its set-up
-- has run.
use cronjob.Base.{
  ℕ, ◌≡◌, refl, inl, true, none, some, [], ◌∷◌, ◌++◌, if◌then◌else◌, Text, codes, text_eq, ltb,
  lookup,
}
use cronjob.Executor.{response, ok, err}
use cronjob.MasterLock.{trim_space}
use cronjob.Categories.{Category}
use cronjob.Setup.{Outside, no_category, get_job_category, check_or_set_up_job_execute_environment}
use cronjob.Setup.Members.{
  Node, add_execute_category, remove_execute_category, setup_execute_environment,
}
use cronjob.Setup.Ready.{IsReady, check_or_set_up-IsReady}
use cronjob.Setup.Changes.{IsUndone, remove-add_execute_category, configured_category_not_retried}

abbrev ops : Category
ops = record no_category {
  name = codes "ops";
  check_cmd = codes "c";
  setup_cmd = codes "s";
  is_active = true;
}

-- The state is 0 before a set-up and 1 after it.
abbrev machine : Outside
machine = record {
  State = ℕ;
  get = λ url s. (response true url, s);
  post = λ url c s. (response true url, s);
  fill = λ c t. ok ops;
  bash = λ cmd s.
      if text_eq cmd (codes "s")
      then (none, 1)
      else if ltb 0 s
      then (none, s)
      else (some (codes "exit status 1"), s);
}

-- No command succeeds here.
abbrev broken : Outside
broken = record machine { bash = λ cmd s. (some (codes "exit status 1"), s) }

abbrev url : Text
url = codes "http://m"

abbrev fresh : Node ℕ
fresh = record { categories = some ((codes "default", true) ∷ []); outside = 0 }

abbrev with_ops : Node ℕ
with_ops = record {
  categories = some ((codes "default", true) ∷ (codes "ops", true) ∷ []);
  outside = 1;
}

set_up_and_checked :
    check_or_set_up_job_execute_environment url machine (codes "ops") 0 ≡ (ok true, 1)
unfolding check_or_set_up_job_execute_environment text_eq trim_space
set_up_and_checked = refl

added_ops : add_execute_category url machine (codes "ops") fresh ≡ some (ok true, with_ops)
unfolding add_execute_category text_eq
added_ops = refl

nil_panics : setup_execute_environment url machine none 0 ≡ none
unfolding setup_execute_environment
nil_panics = refl

check_or_set_up-IsReady_example :
    IsReady url machine ops (check_or_set_up_job_execute_environment url machine (codes "ops") 0)
unfolding get_job_category trim_space
check_or_set_up-IsReady_example =
    check_or_set_up-IsReady url machine (codes "ops") 0 ops 0 (inl (refl, refl))

remove-add_execute_category_example :
    IsUndone fresh with_ops (remove_execute_category (codes "ops") with_ops)
unfolding trim_space
remove-add_execute_category_example =
    remove-add_execute_category url machine (codes "ops") fresh with_ops (λ e. absurd (cc (e)))
      added_ops

configured_category_not_retried_example :
    (fresh.categories ≡ some ((codes "default", true) ∷ []))
    × (add_execute_category url broken (codes "default") fresh
        ≡ some (err (codes "default" ++ (codes "分类已经存在,值是：" ++ codes "true")), fresh))
unfolding trim_space lookup text_eq setup_execute_environment
configured_category_not_retried_example =
    configured_category_not_retried url broken (some ((codes "default", true) ∷ []))
      (codes "default") true 0 fresh refl refl
