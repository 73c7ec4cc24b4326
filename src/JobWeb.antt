-- ===== src/JobWeb.antt =====
-- The requests to the master to read, change and delete a job (backend/master/web/controllers/job.go,
-- through backend/master/web/services/job.go, which passes everything on to the repository).
pub mod Creating
pub mod Given
pub mod Changed
pub mod Published
mod Tests
use cronjob.Base.{
  ℕ, zero, suc, ◌+◌, ◌*◌, ◌^◌, ◌-◌, Bool, true, false, ◌||◌, ◌&&◌, not, Option, none, some, List,
  [], ◌∷◌, ◌++◌, ◌==◌, ltb, leb, map, if◌then◌else◌, Text, codes, text_eq, length,
}
use cronjob.Base.Int.{ℤ, pos, negsuc}
use cronjob.Data.{JobEtcd}
use cronjob.Executor.{Result, ok, err}
use cronjob.Packet.{Bytes}
use cronjob.MasterLock.{trim_space}
use cronjob.Database.{Value, Fields, Table}
use cronjob.KeyStore.{Kv}
use cronjob.Categories
use cronjob.Jobs.{JobRow, schema, World, get, update_job, delete_job}

-- The first value that a form has under a name.
abbrev pub Form : Type 0
Form = Text → Option Text

abbrev pub text_or_empty : Option Text → Text
text_or_empty none = []
text_or_empty (some t) = t

-- `ctx.FormValue`
abbrev pub form_value : Form → Text → Text
form_value form name = text_or_empty (form name)

abbrev lower : ℕ → ℕ
lower c = if leb 65 c && leb c 90 then c + 32 else c

-- `strings.ToLower`, as far as the comparison with ASCII texts sees it.
unfoldable pub to_lower : Text → Text
to_lower t = map lower t

abbrev invalid_syntax : Text
invalid_syntax = codes "invalid syntax"

abbrev out_of_range : Text
out_of_range = codes "value out of range"

abbrev is_digit : ℕ → Bool
is_digit c = leb 48 c && leb c 57

-- The loop of `strconv.ParseUint` in base 10, from the value of the digits before.
abbrev digits_from : ℕ → Text → Result ℕ
digits_from n [] = ok n
digits_from n (c ∷ cs) =
    let next = 10 * n + (c - 48) in
    let rest = digits_from next cs in
    if is_digit c
    then (if ltb next (2 ^ 64) then rest else err out_of_range)
    else err invalid_syntax

-- The number that the digits stand for; there must be one.
abbrev digits : Text → Result ℕ
digits [] = err invalid_syntax
digits (c ∷ cs) = digits_from 0 (c ∷ cs)

abbrev negated : ℕ → ℤ
negated zero = pos 0
negated (suc n) = negsuc n

abbrev pub atoi_error : Text → Text → Text
atoi_error quoted reason = codes "strconv.Atoi: parsing " ++ (quoted ++ (codes ": " ++ reason))

abbrev non_negative : Text → Result ℕ → Result ℤ
non_negative quoted (err e) = err (atoi_error quoted e)
non_negative quoted (ok n) =
    if ltb n (2 ^ 63) then ok (pos n) else err (atoi_error quoted out_of_range)

abbrev negative : Text → Result ℕ → Result ℤ
negative quoted (err e) = err (atoi_error quoted e)
negative quoted (ok n) =
    if leb n (2 ^ 63) then ok (negated n) else err (atoi_error quoted out_of_range)

-- `strconv.Atoi` of a text; `quoted` is the text in quotes.
unfoldable pub atoi : Text → Text → Result ℤ
atoi quoted [] = non_negative quoted (digits [])
atoi quoted (c ∷ cs) =
    if c == 45
    then negative quoted (digits cs)
    else if c == 43
    then non_negative quoted (digits cs)
    else non_negative quoted (digits (c ∷ cs))

-- A value of the map of fields, if there is a change.
abbrev pub change : Bool → Text → Value → Fields → Fields
change false key value fields = fields
change true key value fields = (key, value) ∷ fields

abbrev pub differs : Bool → Bool → Bool
differs true b = not b
differs false b = b

-- The text is given and is not what the job has.
abbrev pub changed : Text → Text → Bool
changed old new = not (text_eq old new) && not (text_eq new [])

abbrev pub flag_text : Form → Text → Text
flag_text form name = to_lower (trim_space (form_value form name))

abbrev pub flag_value : Text → Bool
flag_value t = text_eq t (codes "1") || text_eq t (codes "true")

abbrev pub flag_changed : Bool → Text → Bool
flag_changed old t = differs old (flag_value t) && not (text_eq t [])

abbrev pub timeout_read : Result ℤ → Result Fields
timeout_read (ok z) = ok ((codes "Timeout", Value.number z) ∷ [])
timeout_read (err e) = err e

-- The timeout is set whenever it is given; `quote` is `strconv.Quote`.
unfoldable pub timeout_field : (Text → Text) → Text → Result Fields
unfolding atoi
timeout_field quote t = if text_eq t [] then ok [] else timeout_read (atoi (quote t) t)

-- The fields of `PutBy` before the timeout, in front of it.
unfoldable pub update_fields : JobRow → Form → Fields → Fields
unfolding to_lower trim_space text_eq
update_fields j form timeout =
    let is_active = flag_text form (codes "is_active") in
    let save_output = flag_text form (codes "save_output") in
    let name = trim_space (form_value form (codes "name")) in
    let time = form_value form (codes "time") in
    let command = form_value form (codes "command") in
    let description = form_value form (codes "description") in
    change (flag_changed j.is_active is_active) (codes "IsActive")
      (Value.flag (flag_value is_active))
      (change (flag_changed j.save_output save_output) (codes "SaveOutput")
        (Value.flag (flag_value save_output))
        (change (changed j.name name) (codes "Name") (Value.text name) (
          change (changed j.time time) (codes "Time") (Value.text time) (
            change (changed j.command command) (codes "Command") (Value.text command) (
              change (changed j.description description) (codes "Description")
                (Value.text description) timeout)))))

-- A response with a status, and with an error or none.
pub record Response : Type 0 where
  pub code : ℕ
  pub error : Bool

module _ (table : Table schema) (category_table : Table Categories.schema) (kv : Kv)
    (decode : Bytes → Result JobEtcd) (encode : JobEtcd → Bytes)
    (decode_category : Bytes → Result Categories.Category)
    (encode_category : Categories.Category → Bytes) where
  abbrev W : Type 0
  W = World table.State category_table.State kv.State

  abbrev pub update_with : ℕ → JobRow → Form → Result Fields → W → Result JobRow × W
  update_with fuel j form (err e) w = (err e, w)
  update_with fuel j form (ok timeout) w =
      update_job table category_table kv decode encode decode_category encode_category fuel j
        (update_fields j form timeout) w

  abbrev pub put_got : (Text → Text) → ℕ → Result JobRow → Form → W → Result JobRow × W
  put_got quote fuel (err e) form w = (err e, w)
  put_got quote fuel (ok j) form w =
      update_with fuel j form (timeout_field quote (form_value form (codes "timeout"))) w

  -- `PutBy`
  unfoldable pub put_by : (Text → Text) → ℕ → ℤ → Form → W → Result JobRow × W
  unfolding get update_job timeout_field update_fields
  put_by quote fuel id form w =
      put_got quote fuel
        (get table category_table kv decode encode decode_category encode_category id w) form w

  abbrev pub deleted : Bool × W → Response × W
  deleted (true, w) = (record { code = 204; error = false }, w)
  deleted (false, w) = (record { code = 400; error = true }, w)

  abbrev pub delete_got : ℕ → Result JobRow → W → Response × W
  delete_got fuel (err e) w = (record { code = 400; error = true }, w)
  delete_got fuel (ok j) w =
      if ltb 0 j.id
      then deleted (
          delete_job table category_table kv decode encode decode_category encode_category fuel j w)
      else (record { code = 404; error = false }, w)

  -- `DeleteBy`
  unfoldable pub delete_by : ℕ → ℤ → W → Response × W
  unfolding get delete_job
  delete_by fuel id w =
      delete_got fuel
        (get table category_table kv decode encode decode_category encode_category id w) w
