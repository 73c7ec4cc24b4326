-- ===== src/Database.antt =====
-- The tables of the database as the repositories use them through gorm
-- (backend/common/repositories/job.go, kill.go, category.go, jobExecute.go), and the map of fields that
-- an update is given. gorm and MySQL are an interface.
pub mod Concrete
use mathlib.Core.Option
use cronjob.Base.{
  ℕ, ◌≤◌, ◌≡◌, ◌≢◌, ◌⊎◌, Bool, true, false, ◌==◌, Option, none, some, List, [], ◌∷◌, Text, codes,
  Assoc, lookup, delete, lookup-delete, text_eq,
}
use cronjob.Base.Int.{ℤ, pos}
use cronjob.Base.Time.{Time}
use cronjob.Executor.{Result, ok, err}

-- The dynamic value of a field.
pub data Value : Type 0 where
  text : Text → Value
  number : ℤ → Value
  flag : Bool → Value
  time : Time → Value

-- `map[string]interface{}`
abbrev pub Fields : Type 0
Fields = Assoc Value

-- The loop that drops the keys `ID`, `id`, `Id` and `iD`.
abbrev pub id_keys : List Text
id_keys = codes "ID" ∷ codes "id" ∷ codes "Id" ∷ codes "iD" ∷ []

abbrev drop_keys : List Text → Fields → Fields
drop_keys [] fields = fields
drop_keys (k ∷ ks) fields = drop_keys ks (delete k fields)

unfoldable pub drop_id_keys : Fields → Fields
drop_id_keys fields = drop_keys id_keys fields

-- None of the keys stands in the map.
abbrev pub Lacks : List Text → Fields → Type 0
Lacks [] fields = Unit
Lacks (k ∷ ks) fields = (lookup k fields ≡ none) × Lacks ks fields

-- What a type of rows has for gorm: its ID, and the row with an ID and a time of creation.
pub record Schema (Row : Type 0) : Type 0 where
  pub id_of : Row → ℕ
  pub stamped : ℕ → Time → Row → Row

-- A table. `row` observes the state; IDs start from 1. A row that is read has the selected fields only.
-- An update that fails leaves it open whether the row was written.
pub record Table {Row : Type 0} (schema : Schema Row) : Type 1 where
  pub State : Type 0
  pub row : ℕ → State → Option Row
  -- `Select(fields).First(row, "id = ?", id)`
  pub first : (Row → Row) → ℤ → State → Result Row
  -- `Select(fields).First(row, condition)`
  pub first_where : (Row → Row) → (Row → Bool) → State → Result Row
  -- `Create(row)`: the row that is stored
  pub create : Row → State → Result Row × State
  -- `Model(row).Limit(1).Update(fields)`: its error; `assign` is what becomes of a row
  pub assign : Fields → Row → Row
  pub update : Row → Fields → State → Option Text × State
  -- `Model(&Row{}).Update(row)`: the fields of `row` that are not zero are written where its ID is
  pub update_row : Row → State → Option Text × State
  -- `Model(&Row{}).Where("id = ?", id).Limit(1).Update(fields)`
  pub update_where : ℤ → Fields → State → Option Text × State
  pub first_ok :
      (sel : Row → Row) (z : ℤ) (s : State) (r : Row)
      → first sel z s ≡ ok r
      → (full : Row) × (row (schema.id_of full) s ≡ some full)
        × (z ≡ pos (schema.id_of full))
        × (r ≡ sel full)
  pub where_ok :
      (sel : Row → Row) (test : Row → Bool) (s : State) (r : Row)
      → first_where sel test s ≡ ok r
      → (full : Row) × (row (schema.id_of full) s ≡ some full)
        × (1 ≤ schema.id_of full)
        × (test full ≡ true)
        × (r ≡ sel full)
  pub where_not_found :
      (sel : Row → Row) (test : Row → Bool) (s : State)
      → first_where sel test s ≡ err (codes "record not found")
      → (n : ℕ) (r : Row) → row n s ≡ some r
      → test r ≡ false
  pub create_err :
      (r : Row) (s : State) (e : Text) (n : ℕ)
      → (create r s).0 ≡ err e
      → row n (create r s).1 ≡ row n s
  pub create_ok :
      (r r' : Row) (s : State)
      → (create r s).0 ≡ ok r'
      → (n : ℕ) × (t : Time) × (r' ≡ schema.stamped n t r)
        × (1 ≤ n)
        × (row n s ≡ none)
        × (row n (create r s).1 ≡ some r')
        × ((m : ℕ) → m ≢ n → row m (create r s).1 ≡ row m s)
  pub update_others :
      (r : Row) (fields : Fields) (s : State) (n : ℕ)
      → Lacks id_keys fields
      → schema.id_of r ≢ 0
      → n ≢ schema.id_of r
      → row n (update r fields s).1 ≡ row n s
  pub update_own :
      (r : Row) (fields : Fields) (s : State) (full : Row)
      → Lacks id_keys fields
      → schema.id_of r ≢ 0
      → row (schema.id_of r) s ≡ some full
      → (update r fields s).0 ≡ none
      → row (schema.id_of r) (update r fields s).1 ≡ some (assign fields full)
  pub update_any :
      (r : Row) (fields : Fields) (s : State) (n : ℕ)
      → Lacks id_keys fields
      → (row n (update r fields s).1 ≡ row n s)
        ⊎ (row n (update r fields s).1 ≡ Option.map (assign fields) (row n s))
  pub assign_id :
      (fields : Fields) (r : Row)
      → Lacks id_keys fields
      → schema.id_of (assign fields r) ≡ schema.id_of r

pub drop_id_keys-Lacks : (fields : Fields) → Lacks id_keys (drop_id_keys fields)
unfolding drop_id_keys text_eq
drop_id_keys-Lacks fields =
    (simp lookup-delete, (simp lookup-delete, (simp lookup-delete, (simp lookup-delete, tt))))
