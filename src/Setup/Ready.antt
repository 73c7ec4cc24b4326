-- ===== src/Setup/Ready.antt =====
-- What the set-up of a category on a worker reaches (backend/worker/setup.go).
use cronjob.Base.{
  ◌≡◌, refl, sym, subst, ◌⊎◌, inl, inr, Bool, true, false, Option, none, some, [], if◌then◌else◌,
  Text, codes, text_eq, text_eq_iff,
}
use cronjob.Executor.{Result, ok, err}
use cronjob.Categories.{Category}
use cronjob.Setup.{
  Outside, default_category, get_job_category, post_category_to_master, executed, execute_command,
  after_setup, run_setup, need_setup, after_check, prepare, after_post, after_get,
  check_or_set_up_job_execute_environment,
}

-- Both branches of a test.
if_both :
    {A : Type 0} (P : A → Type 0) (b : Bool) (x y : A)
    → (b ≡ true → P x)
    → (b ≡ false → P y)
    → P (if b then x else y)
if_both P true x y if_so if_not = if_so refl
if_both P false x y if_so if_not = if_not refl

module _ (master_url : Text) (outside : Outside) where
  open outside use {State, get, post, fill, bash}

  -- The command was run last, and with this error or none.
  abbrev pub IsLast : Text → Option Text → State → Type 0
  IsLast cmd e s' = (s : State) × (bash cmd s ≡ (e, s'))

  -- With success the check of the category has just succeeded, if there is one; an error is that of the
  -- last command, the check or the set-up.
  abbrev pub IsReady : Category → Result Bool × State → Type 0
  IsReady c (ok success, s') = (success ≡ true) × ((c.check_cmd ≡ []) ⊎ IsLast c.check_cmd none s')
  IsReady c (err e, s') = IsLast c.check_cmd (some e) s' ⊎ IsLast c.setup_cmd (some e) s'

  -- The category is active on the master, or the master did not answer with the default category and
  -- took it; `s'` is what is outside then.
  abbrev pub IsOffered : Text → State → Category → State → Type 0
  IsOffered name s c s' =
      ((get_job_category master_url outside name s ≡ (ok c, s')) × (c.is_active ≡ true))
      ⊎ ((e : Text) × (s₁ : State) × (name ≡ codes "default")
          × ((get_job_category master_url outside name s ≡ (err e, s₁))
              × (post_category_to_master master_url outside default_category s₁ ≡ (ok c, s'))))

  -- A check that is run succeeds, or its error is the last.
  checked-IsReady :
      (c : Category) (s : State) (x : Option Text × State)
      → bash c.check_cmd s ≡ x
      → IsReady c (executed master_url outside x)
  checked-IsReady c s (none, s') ran = (refl, inr (s, ran))
  checked-IsReady c s (some e, s') ran = inl (s, ran)

  after_setup-IsReady :
      (c : Category) (s : State) (x : Option Text × State)
      → bash c.setup_cmd s ≡ x
      → IsReady c (after_setup master_url outside c (executed master_url outside x))
  unfolding execute_command
  after_setup-IsReady c s (some e, s') ran = inr (s, ran)
  after_setup-IsReady c s (none, s') ran =
      if_both (IsReady c) (text_eq c.check_cmd []) (ok true, s')
        (executed master_url outside (bash c.check_cmd s'))
        (λ none_set. (refl, inl ((text_eq_iff c.check_cmd []).0 none_set)))
        (λ _. checked-IsReady c s' (bash c.check_cmd s') refl)

  run_setup-IsReady :
      (c : Category) (s : State)
      → text_eq c.setup_cmd [] ≡ false
      → IsReady c (run_setup master_url outside c s)
  unfolding run_setup execute_command
  run_setup-IsReady c s set = rw set (after_setup-IsReady c s (bash c.setup_cmd s) refl)

  -- After a failed check.
  need_setup-IsReady :
      (c : Category) (e : Text) (s s' : State)
      → bash c.check_cmd s ≡ (some e, s')
      → IsReady c (need_setup master_url outside c (err e, s'))
  unfolding need_setup
  need_setup-IsReady c e s s' ran =
      if_both (IsReady c) (text_eq c.setup_cmd []) (err e, s') (run_setup master_url outside c s')
        (λ _. inl (s, ran)) (λ set. run_setup-IsReady c s' set)

  after_check-IsReady :
      (c : Category) (s : State) (x : Option Text × State)
      → bash c.check_cmd s ≡ x
      → IsReady c (after_check master_url outside c (executed master_url outside x))
  after_check-IsReady c s (none, s') ran = (refl, inr (s, ran))
  after_check-IsReady c s (some e, s') ran = need_setup-IsReady c e s s' ran

  unchecked-IsReady :
      (c : Category) (s : State) → c.check_cmd ≡ [] → IsReady c (run_setup master_url outside c s)
  unfolding run_setup execute_command
  unchecked-IsReady c s unchecked =
      if_both (IsReady c) (text_eq c.setup_cmd []) (ok true, s)
        (after_setup master_url outside c (executed master_url outside (bash c.setup_cmd s)))
        (λ _. (refl, inl unchecked)) (λ _. after_setup-IsReady c s (bash c.setup_cmd s) refl)

  prepare-IsReady : (c : Category) (s : State) → IsReady c (prepare master_url outside c s)
  unfolding prepare execute_command
  prepare-IsReady c s =
      if_both (IsReady c) (text_eq c.check_cmd []) (run_setup master_url outside c s)
        (after_check master_url outside c (executed master_url outside (bash c.check_cmd s)))
        (λ unchecked. unchecked-IsReady c s ((text_eq_iff c.check_cmd []).0 unchecked))
        (λ _. after_check-IsReady c s (bash c.check_cmd s) refl)

  -- Placeholder
  pub check_or_set_up-IsReady :
      (name : Text) (s : State) (c : Category) (s' : State)
      → IsOffered name s c s'
      → IsReady c (check_or_set_up_job_execute_environment master_url outside name s)
  unfolding check_or_set_up_job_execute_environment
  check_or_set_up-IsReady name s c s' (inl (got, active)) =
      subst (λ x. IsReady c (after_get master_url outside name x)) (sym got)
        (rw active (prepare-IsReady c s'))
  check_or_set_up-IsReady name s c s' (inr (e, s₁, is_default, (failed, posted))) =
      subst (λ x. IsReady c (after_get master_url outside name x)) (sym failed)
        (rw ((text_eq_iff name (codes "default")).1 is_default) (
          subst (λ x. IsReady c (after_post master_url outside x)) (sym posted)
            (prepare-IsReady c s')))
