-- ===== src/JobWeb/Changed.antt =====
-- What the fields of a PUT (backend/master/web/controllers/job.go, `PutBy`) make of the job.
use cronjob.Base.{
  ◌≡◌, refl, sym, ap, subst, ◌∙◌, Bool, true, false, [], ◌∷◌, Text, codes, text_eq, if◌then◌else◌,
  if_true, if_false,
}
use cronjob.Base.Int.{ℤ}
use cronjob.Executor.{Result, ok, err}
use cronjob.MasterLock.{trim_space}
use cronjob.Database.{Value, Fields, drop_id_keys, Table}
use cronjob.Jobs.{JobRow, schema}
use cronjob.JobWeb.{
  Form, form_value, atoi, change, flag_text, flag_value, timeout_read, timeout_field, update_fields,
}
use cronjob.JobWeb.Given.{
  given_text, given_flag, number_or, given_number, with_form, changed-given_text,
  flag_changed-given_flag, drop-none, drop-timeout, fields_of, drop-update_fields,
}

-- gorm finds the fields of a job by their names.
pub record IsGorm (table : Table schema) : Type 0 where
  pub none_set : (j : JobRow) → table.assign [] j ≡ j
  pub set_is_active :
      (b : Bool) (f : Fields) (j : JobRow)
      → table.assign ((codes "IsActive", Value.flag b) ∷ f) j
        ≡ table.assign f (record j { is_active = b })
  pub set_save_output :
      (b : Bool) (f : Fields) (j : JobRow)
      → table.assign ((codes "SaveOutput", Value.flag b) ∷ f) j
        ≡ table.assign f (record j { save_output = b })
  pub set_name :
      (t : Text) (f : Fields) (j : JobRow)
      → table.assign ((codes "Name", Value.text t) ∷ f) j ≡ table.assign f (record j { name = t })
  pub set_time :
      (t : Text) (f : Fields) (j : JobRow)
      → table.assign ((codes "Time", Value.text t) ∷ f) j ≡ table.assign f (record j { time = t })
  pub set_command :
      (t : Text) (f : Fields) (j : JobRow)
      → table.assign ((codes "Command", Value.text t) ∷ f) j
        ≡ table.assign f (record j { command = t })
  pub set_description :
      (t : Text) (f : Fields) (j : JobRow)
      → table.assign ((codes "Description", Value.text t) ∷ f) j
        ≡ table.assign f (record j { description = t })
  pub set_timeout :
      (z : ℤ) (f : Fields) (j : JobRow)
      → table.assign ((codes "Timeout", Value.number z) ∷ f) j
        ≡ table.assign f (record j { timeout = z })

module _ (table : Table schema) (gorm : IsGorm table) (quote : Text → Text) where
  open table use {assign}

  -- A field that is set under a test has what is given, or is as it was.
  assign-change :
      {X : Type 0} (set : X → JobRow) (old new given : X) (b : Bool) (key : Text) (v : Value)
      (f : Fields) (j : JobRow)
      → assign ((key, v) ∷ f) j ≡ assign f (set new)
      → set old ≡ j
      → (if b then new else old) ≡ given
      → assign (change b key v f) j ≡ assign f (set given)
  assign-change set old new given true key v f j e same is_given =
      e ∙ ap (λ x. assign f (set x)) is_given
  assign-change set old new given false key v f j e same is_given =
      ap (assign f) (sym same) ∙ ap (λ x. assign f (set x)) is_given

  -- All the fields before the timeout.
  assign-update_fields :
      (j : JobRow) (form : Form) (timeout : Fields)
      → assign (update_fields j form timeout) j
        ≡ assign timeout (record (with_form quote j form) { timeout = j.timeout })
  unfolding update_fields
  assign-update_fields j form timeout =
      let is_active = flag_text form (codes "is_active") in
      let save_output = flag_text form (codes "save_output") in
      let name = trim_space (form_value form (codes "name")) in
      let time = form_value form (codes "time") in
      let command = form_value form (codes "command") in
      let description = form_value form (codes "description") in
      let j₁ : JobRow = record j { is_active = given_flag j.is_active is_active } in
      let j₂ : JobRow = record j₁ { save_output = given_flag j.save_output save_output } in
      let j₃ : JobRow = record j₂ { name = given_text j.name name } in
      let j₄ : JobRow = record j₃ { time = given_text j.time time } in
      let j₅ : JobRow = record j₄ { command = given_text j.command command } in
      assign-change (λ x. record j { is_active = x }) j.is_active (flag_value is_active) _ _ _ _ _ j
        (gorm.set_is_active _ _ j) refl (flag_changed-given_flag j.is_active is_active)
      ∙ assign-change (λ x. record j₁ { save_output = x }) j.save_output (flag_value save_output) _
          _ _ _ _ j₁ (gorm.set_save_output _ _ j₁) refl
          (flag_changed-given_flag j.save_output save_output)
      ∙ assign-change (λ x. record j₂ { name = x }) j.name name _ _ _ _ _ j₂ (gorm.set_name _ _ j₂)
          refl (changed-given_text j.name name)
      ∙ assign-change (λ x. record j₃ { time = x }) j.time time _ _ _ _ _ j₃ (gorm.set_time _ _ j₃)
          refl (changed-given_text j.time time)
      ∙ assign-change (λ x. record j₄ { command = x }) j.command command _ _ _ _ _ j₄
          (gorm.set_command _ _ j₄) refl (changed-given_text j.command command)
      ∙ assign-change (λ x. record j₅ { description = x }) j.description description _ _ _ _ _ j₅
          (gorm.set_description _ _ j₅) refl (changed-given_text j.description description)

  -- The timeout that was read is set, and no ID.
  record IsTimeout (t : Text) (fields : Fields) : Type 0 where
    kept : drop_id_keys fields ≡ fields
    set : (j : JobRow) → assign fields j ≡ record j { timeout = given_number j.timeout quote t }

  timeout_read-IsTimeout :
      (t : Text) (fields : Fields) (b : Bool) (r : Result ℤ)
      → text_eq t [] ≡ b
      → atoi (quote t) t ≡ r
      → (if b then ok [] else timeout_read r) ≡ ok fields
      → IsTimeout t fields
  timeout_read-IsTimeout t fields true r empty read e =
      subst (IsTimeout t) (ap fields_of e) (record {
        kept = drop-none;
        set = λ j.
            gorm.none_set j
            ∙ ap (λ z. record j { timeout = z }) (sym (if_true (text_eq t []) _ _ empty));
      })
  timeout_read-IsTimeout t fields false (ok z) given read e =
      subst (IsTimeout t) (ap fields_of e) (record {
        kept = drop-timeout (Value.number z);
        set = λ j.
            gorm.set_timeout z [] j
            ∙ gorm.none_set (record j { timeout = z })
            ∙ ap (λ x. record j { timeout = x })
                (ap (number_or j.timeout) (sym read) ∙ sym (if_false (text_eq t []) _ _ given));
      })
  timeout_read-IsTimeout t fields false (err f) given read e = absurd (cc (e))

  timeout_field-IsTimeout :
      (t : Text) (fields : Fields) → timeout_field quote t ≡ ok fields → IsTimeout t fields
  unfolding timeout_field
  timeout_field-IsTimeout t fields e =
      timeout_read-IsTimeout t fields (text_eq t []) (atoi (quote t) t) refl refl e

  -- The fields that `PutBy` finds make of the job the one with everything that the form gives.
  pub update_fields-with_form :
      (j : JobRow) (form : Form) (timeout : Fields)
      → timeout_field quote (form_value form (codes "timeout")) ≡ ok timeout
      → assign (drop_id_keys (update_fields j form timeout)) j ≡ with_form quote j form
  update_fields-with_form j form timeout e =
      let x = timeout_field-IsTimeout (form_value form (codes "timeout")) timeout e in
      ap (λ f. assign f j) (drop-update_fields j form timeout x.kept)
      ∙ assign-update_fields j form timeout
      ∙ x.set (record (with_form quote j form) { timeout = j.timeout })
