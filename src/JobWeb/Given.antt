-- ===== src/JobWeb/Given.antt =====
-- What the form of a PUT gives for a job (backend/master/web/controllers/job.go, `PutBy`), and that the
-- fields of the update are no IDs.
use cronjob.Base.{
  ◌≡◌, refl, ap, ◌∙◌, Bool, true, false, not, ◌&&◌, [], ◌∷◌, Text, codes, text_eq, text_eq_iff,
  delete, if◌then◌else◌,
}
use cronjob.Base.Int.{ℤ}
use cronjob.Executor.{Result, ok, err}
use cronjob.MasterLock.{trim_space}
use cronjob.Database.{Value, Fields, drop_id_keys}
use cronjob.Jobs.{JobRow}
use cronjob.JobWeb.{
  Form, form_value, atoi, change, differs, changed, flag_text, flag_value, flag_changed,
  update_fields,
}

-- What is given, or else the old text.
abbrev pub given_text : Text → Text → Text
given_text old new = if text_eq new [] then old else new

abbrev pub given_flag : Bool → Text → Bool
given_flag old t = if text_eq t [] then old else flag_value t

abbrev pub number_or : ℤ → Result ℤ → ℤ
number_or old (ok z) = z
number_or old (err e) = old

abbrev pub given_number : ℤ → (Text → Text) → Text → ℤ
given_number old quote t = if text_eq t [] then old else number_or old (atoi (quote t) t)

-- The job with everything that the form gives, and the rest as it was.
abbrev pub with_form : (Text → Text) → JobRow → Form → JobRow
with_form quote j form = record j {
  is_active = given_flag j.is_active (flag_text form (codes "is_active"));
  save_output = given_flag j.save_output (flag_text form (codes "save_output"));
  name = given_text j.name (trim_space (form_value form (codes "name")));
  time = given_text j.time (form_value form (codes "time"));
  command = given_text j.command (form_value form (codes "command"));
  description = given_text j.description (form_value form (codes "description"));
  timeout = given_number j.timeout quote (form_value form (codes "timeout"));
}

text_under_tests :
    (same empty : Bool) (old new : Text)
    → (same ≡ true → old ≡ new)
    → (if not same && not empty then new else old) ≡ (if empty then old else new)
text_under_tests true true old new e = refl
text_under_tests true false old new e = e refl
text_under_tests false true old new e = refl
text_under_tests false false old new e = refl

-- A text is changed exactly to what is given.
pub changed-given_text :
    (old new : Text) → (if changed old new then new else old) ≡ given_text old new
changed-given_text old new =
    text_under_tests (text_eq old new) (text_eq new []) old new (text_eq_iff old new).0

flag_under_tests :
    (old new empty : Bool)
    → (if differs old new && not empty then new else old) ≡ (if empty then old else new)
flag_under_tests true true true = refl
flag_under_tests true true false = refl
flag_under_tests true false true = refl
flag_under_tests true false false = refl
flag_under_tests false true true = refl
flag_under_tests false true false = refl
flag_under_tests false false true = refl
flag_under_tests false false false = refl

pub flag_changed-given_flag :
    (old : Bool) (t : Text) → (if flag_changed old t then flag_value t else old) ≡ given_flag old t
flag_changed-given_flag old t = flag_under_tests old (flag_value t) (text_eq t [])

-- The key is no key for the ID, and stays.
IsField : Text → Type 0
IsField key = (v : Value) (f : Fields) → drop_id_keys ((key, v) ∷ f) ≡ (key, v) ∷ drop_id_keys f

change_kept :
    (b : Bool) (key : Text) (v : Value) (f f' : Fields)
    → IsField key
    → drop_id_keys f ≡ f'
    → drop_id_keys (change b key v f) ≡ change b key v f'
unfolding IsField
change_kept true key v f f' field e = field v f ∙ ap (λ g. (key, v) ∷ g) e
change_kept false key v f f' field e = e

is_active-IsField : IsField (codes "IsActive")
unfolding IsField drop_id_keys delete text_eq
is_active-IsField v f = refl

save_output-IsField : IsField (codes "SaveOutput")
unfolding IsField drop_id_keys delete text_eq
save_output-IsField v f = refl

name-IsField : IsField (codes "Name")
unfolding IsField drop_id_keys delete text_eq
name-IsField v f = refl

time-IsField : IsField (codes "Time")
unfolding IsField drop_id_keys delete text_eq
time-IsField v f = refl

command-IsField : IsField (codes "Command")
unfolding IsField drop_id_keys delete text_eq
command-IsField v f = refl

description-IsField : IsField (codes "Description")
unfolding IsField drop_id_keys delete text_eq
description-IsField v f = refl

timeout-IsField : IsField (codes "Timeout")
unfolding IsField drop_id_keys delete text_eq
timeout-IsField v f = refl

pub drop-none : drop_id_keys [] ≡ []
unfolding drop_id_keys delete
drop-none = refl

pub drop-timeout :
    (v : Value) → drop_id_keys ((codes "Timeout", v) ∷ []) ≡ (codes "Timeout", v) ∷ []
unfolding IsField
drop-timeout v = timeout-IsField v [] ∙ ap (λ f. (codes "Timeout", v) ∷ f) drop-none

abbrev pub fields_of : Result Fields → Fields
fields_of (ok f) = f
fields_of (err e) = []

-- None of the fields is an ID.
pub drop-update_fields :
    (j : JobRow) (form : Form) (timeout : Fields)
    → drop_id_keys timeout ≡ timeout
    → drop_id_keys (update_fields j form timeout) ≡ update_fields j form timeout
unfolding update_fields
drop-update_fields j form timeout e = change_kept _ _ _ _ _ is_active-IsField (
    change_kept _ _ _ _ _ save_output-IsField (
      change_kept _ _ _ _ _ name-IsField (
        change_kept _ _ _ _ _ time-IsField
          (change_kept _ _ _ _ _ command-IsField (change_kept _ _ _ _ _ description-IsField e)))))
