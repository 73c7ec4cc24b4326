-- ===== src/Categories/Concrete.antt =====
-- A concrete table of categories (backend/common/repositories/category.go), and an encoding that keeps
-- what the runs need.
use cronjob.Base.{
  ℕ, ◌≡◌, ◌∙◌, refl, true, [], ◌∷◌, Text, codes, text_eq, if◌then◌else◌, arith, ◌==◌,
}
use cronjob.Base.Time.{Time}
use cronjob.Executor.{Result, ok, err}
use cronjob.Packet.{Bytes}
use cronjob.Database.{Value, Fields, Table}
use cronjob.Database.Concrete.{database}
use cronjob.Categories.{Category, schema, with_key}

-- gorm on the fields that are used.
abbrev pub set_field : Text → Value → Category → Category
set_field name (Value.text t) c =
    if text_eq name (codes "etcd_key") then record c { etcd_key = t } else record c { name = t }
set_field name (Value.flag b) c =
    if text_eq name (codes "IsActive") then record c { is_active = b } else c
set_field name (Value.time t) c = c
set_field name (Value.number z) c = c

abbrev pub assign_fields : Fields → Category → Category
assign_fields [] c = c
assign_fields ((name, v) ∷ f) c = assign_fields f (set_field name v c)

set_field_keeps :
    (name : Text) (v : Value) (c : Category)
    → ((set_field name v c).id ≡ c.id) × ((set_field name v c).created_at ≡ c.created_at)
set_field_keeps name (Value.text t) c = ground arith
set_field_keeps name (Value.flag b) c = ground arith
set_field_keeps name (Value.time t) c = (refl, refl)
set_field_keeps name (Value.number z) c = (refl, refl)

assign_fields_keeps :
    (f : Fields) (c : Category)
    → ((assign_fields f c).id ≡ c.id) × ((assign_fields f c).created_at ≡ c.created_at)
assign_fields_keeps [] c = (refl, refl)
assign_fields_keeps ((name, v) ∷ f) c =
    let rest = assign_fields_keeps f (set_field name v c) in
    let one = set_field_keeps name v c in (rest.0 ∙ one.0, rest.1 ∙ one.1)

pub id-assign_fields : (f : Fields) (c : Category) → (assign_fields f c).id ≡ c.id
id-assign_fields f c = (assign_fields_keeps f c).0

pub id-stamped : (n : ℕ) (t : Time) (c : Category) → (schema.stamped n t c).id ≡ n
id-stamped n t c = refl

pub stamped-assign_fields :
    (f : Fields) (n : ℕ) (t : Time) (c : Category)
    → schema.stamped n t (assign_fields f (schema.stamped n t c))
      ≡ assign_fields f (schema.stamped n t c)
stamped-assign_fields f n t c =
    let same = assign_fields_keeps f (schema.stamped n t c) in ground arith

abbrev pub table : Table schema
table = database schema assign_fields id-stamped stamped-assign_fields id-assign_fields

abbrev pub ops : Category
ops = record {
  id = 1;
  created_at = 0;
  etcd_key = [];
  name = codes "ops";
  description = [];
  check_cmd = [];
  setup_cmd = [];
  tear_down_cmd = [];
  is_active = true;
}

abbrev pub encode : Category → Bytes
encode c = c.id ∷ (if c.is_active then 1 else 0) ∷ c.name

abbrev pub decode : Bytes → Result Category
decode (i ∷ b ∷ name) =
    ok (record (with_key (record ops { name = name })) { id = i; is_active = b == 1 })
decode bytes = err (codes "unexpected end")
