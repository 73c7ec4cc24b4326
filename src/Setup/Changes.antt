-- ===== src/Setup/Changes.antt =====
-- Adding and removing a category of a worker (backend/worker/setup.go).
use cronjob.Base.{
  ◌≡◌, refl, ap, ◌∙◌, sym, subst, inl, inr, Bool, true, false, Bool-cases, Option, none, some, [],
  ◌∷◌, ◌++◌, if_true, if_false, Text, codes, text_eq, text_eq_iff, Assoc, lookup, insert, delete,
  lookup-insert, lookup-delete, Option-cases, arith, ltb, length,
}
use cronjob.Executor.{Result, ok, err}
use cronjob.MasterLock.{trim_space}
use cronjob.Setup.{Outside, check_or_set_up_job_execute_environment}
use cronjob.Setup.Members.{
  Node, entries, after_environment, bool_text, add_unless, add_execute_category, deleted, remove_if,
  remove_execute_category, all_set_up, setup_execute_environment,
}

-- The removed key has no value any more; if it had none before it was inserted, nothing is left of it.
lookup-delete-insert :
    (name k : Text) (m : Assoc Bool)
    → lookup name m ≡ none
    → lookup k (delete name (insert name true m)) ≡ lookup k m
lookup-delete-insert name k m new = elim (Bool-cases (text_eq name k)) [
  | inl same ↦
      lookup-delete name k (insert name true m)
      ∙ if_true (text_eq name k) none (lookup k (insert name true m)) same
      ∙ sym (subst (λ j. lookup j m ≡ none) ((text_eq_iff name k).0 same) new)
  | inr other ↦
      lookup-delete name k (insert name true m)
      ∙ if_false (text_eq name k) none (lookup k (insert name true m)) other
      ∙ lookup-insert name k true m
      ∙ if_false (text_eq name k) (some true) (lookup k m) other
]

-- The map of the second worker is that of the first with the category in it.
abbrev pub IsAdded : {S : Type 0} → Text → Node S → Node S → Type 0
IsAdded name w w' =
    (map : Assoc Bool) × ((w.categories ≡ some map)
      × ((lookup name map ≡ none) × (w'.categories ≡ some (insert name true map))))

abbrev categories_after : {S : Type 0} → Option (Result Bool × Node S) → Option (Assoc Bool)
categories_after none = none
categories_after (some (r, w)) = w.categories

remove_execute_category-had :
    {S : Type 0} (name : Text) (w : Node S) (value : Bool)
    → (trim_space name ≡ [] → ⊥)
    → lookup (trim_space name) (entries w.categories) ≡ some value
    → remove_execute_category name w
      ≡ (ok true, record w { categories = deleted (trim_space name) w.categories })
unfolding remove_execute_category
remove_execute_category-had name w value named had =
    elim (Bool-cases (text_eq (trim_space name) [])) [
      | inl empty ↦ absurd (named ((text_eq_iff (trim_space name) []).0 empty))
      | inr other ↦
          if_false (text_eq (trim_space name) []) (err (codes "传入的name为空"), w)
            (remove_if (lookup (trim_space name) (entries w.categories)) (trim_space name) w) other
          ∙ ap (λ o. remove_if o (trim_space name) w) had
    ]

-- What is left of the categories when one that was added is removed.
abbrev pub IsUndone : {S : Type 0} → Node S → Node S → Result Bool × Node S → Type 0
IsUndone w w' (r, w'') =
    (r ≡ ok true)
    × ((w''.outside ≡ w'.outside)
        × ((k : Text) → lookup k (entries w''.categories) ≡ lookup k (entries w.categories)))

remove-IsAdded :
    {S : Type 0} (name : Text) (w w' : Node S)
    → (trim_space name ≡ [] → ⊥)
    → IsAdded (trim_space name) w w'
    → IsUndone w w' (remove_execute_category name w')
remove-IsAdded name w w' named (m, (had, (new, has))) =
    let name' = trim_space name in
    let found : lookup name' (entries w'.categories) ≡ some true =
      ap (λ c. lookup name' (entries c)) has
      ∙ lookup-insert name' name' true m
      ∙ if_true (text_eq name' name') (some true) (lookup name' m)
          ((text_eq_iff name' name').1 refl) in
    subst (IsUndone w w') (sym (remove_execute_category-had name w' true named found)) (
      refl,
      (
        refl,
        λ k.
            ap (λ c. lookup k (entries (deleted name' c))) has
            ∙ lookup-delete-insert name' k m new
            ∙ sym (ap (λ c. lookup k (entries c)) had),
      ),
    )

module _ (master_url : Text) (outside : Outside) where
  open outside use {State}

  add_unless-IsAdded :
      (name : Text) (w w' : Node State) (m : Option (Assoc Bool)) (r : Result Bool) (s : State)
      → w.categories ≡ m
      → lookup name (entries m) ≡ none
      → after_environment master_url outside name m (r, s) ≡ some (ok true, w')
      → IsAdded name w w'
  add_unless-IsAdded name w w' none (ok true) s had new e = absurd (cc (e))
  add_unless-IsAdded name w w' (some m) (ok true) s had new e =
      (m, (had, (new, sym (ap categories_after e))))
  add_unless-IsAdded name w w' m (ok false) s had new e = absurd (cc (e))
  add_unless-IsAdded name w w' m (err f) s had new e = absurd (cc (e))

  add_execute_category-IsAdded :
      (name : Text) (w w' : Node State)
      → add_execute_category master_url outside name w ≡ some (ok true, w')
      → IsAdded (trim_space name) w w'
  unfolding add_execute_category
  add_execute_category-IsAdded name w w' e =
      let name' = trim_space name in
      let (r, s) = check_or_set_up_job_execute_environment master_url outside name' w.outside in
      elim (Option-cases (lookup name' (entries w.categories))) [
        | inl new ↦
            add_unless-IsAdded name' w w' w.categories r s refl new
              (subst (λ o. add_unless master_url outside o name' w ≡ some (ok true, w')) new e)
        | inr (value, has) ↦
            absurd (
              cc
                ((subst (λ o. add_unless master_url outside o name' w ≡ some (ok true, w')) has e)))
      ]

  -- When a category is added with success whose name is not only white space, and then removed, the
  -- removal succeeds and leaves, for every name, what was there before, and the rest as it is.
  pub remove-add_execute_category :
      (name : Text) (w w' : Node State)
      → (trim_space name ≡ [] → ⊥)
      → add_execute_category master_url outside name w ≡ some (ok true, w')
      → IsUndone w w' (remove_execute_category name w')
  remove-add_execute_category name w w' named e =
      remove-IsAdded name w w' named (add_execute_category-IsAdded name w w' e)

  abbrev categories_of : Option (Node State) → Option (Assoc Bool)
  categories_of none = none
  categories_of (some w) = w.categories

  configured :
      (config : Option (Assoc Bool)) (k : Text) (value : Bool) (s : State) (w : Node State)
      → lookup k (entries config) ≡ some value
      → setup_execute_environment master_url outside config s ≡ some w
      → w.categories ≡ config
  unfolding setup_execute_environment lookup
  configured none k value s w had e = absurd (cc (had))
  configured (some []) k value s w had e = absurd (cc (had))
  configured (some (x ∷ m)) k value s w had e =
      let unfilled : ltb (length (x ∷ m)) 1 ≡ false = ground arith in
      sym (
        ap categories_of (
          sym (
            if_false (ltb (length (x ∷ m)) 1)
              (all_set_up master_url outside (some (insert (codes "default") true (x ∷ m))) s)
              (all_set_up master_url outside (some (x ∷ m)) s) unfilled)
          ∙ e))

  -- A category of the configuration whose set-up failed, or was never possible, stands among the
  -- categories of the worker as any other, and to add it again is refused without a command or a
  -- request.
  pub configured_category_not_retried :
      (config : Option (Assoc Bool)) (name : Text) (value : Bool) (s : State) (w : Node State)
      → lookup (trim_space name) (entries config) ≡ some value
      → setup_execute_environment master_url outside config s ≡ some w
      → (w.categories ≡ config)
        × (add_execute_category master_url outside name w
            ≡ some (err (trim_space name ++ (codes "分类已经存在,值是：" ++ bool_text value)), w))
  unfolding add_execute_category
  configured_category_not_retried config name value s w had e =
      let same = configured config (trim_space name) value s w had e in
      (
        same,
        ap (λ o. add_unless master_url outside o (trim_space name) w)
            (ap (λ c. lookup (trim_space name) (entries c)) same ∙ had),
      )
