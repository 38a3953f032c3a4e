-- ===== src/Form.antt =====
-- crates/collecta-core/src/form.rs: the structure of a data collection form.
pub mod Condition
use collecta.Prelude.{
  ℕ, String, Bool, true, false, Option, none, some, List, [], ◌∷◌, ◌++◌, str_eq, if◌then◌else◌,
}
use collecta.F64.{F64}
use collecta.Values.{Uuid}

pub data FieldType : Type 0 where
  text text_area integer decimal date date_time time select multi_select : FieldType
  geo_point geo_trace geo_shape photo audio video file barcode signature : FieldType
  boolean repeat note : FieldType

pub record Choice : Type 0 where
  pub value : String
  pub label : String

-- `serde_json::Value`, as far as the code tells its variants apart: any other value is given by
-- the text that it prints as.
pub data Json : Type 0 where
  null : Json
  string : String → Json
  other : String → Json

pub data ConditionOp : Type 0 where
  equals not_equals greater_than less_than contains is_not_empty : ConditionOp

-- `Condition`
pub record Relevance : Type 0 where
  pub field : String
  pub op : ConditionOp
  pub value : Json

pub data ConstraintKind : Type 0 where
  min : F64 → ConstraintKind
  max : F64 → ConstraintKind
  min_length : ℕ → ConstraintKind
  max_length : ℕ → ConstraintKind
  pattern_of : String → ConstraintKind
  one_of : List String → ConstraintKind

pub record Constraint : Type 0 where
  pub kind : ConstraintKind
  pub message : String

-- The fields of `FormField` but for its children.
pub record FieldInfo : Type 0 where
  pub name : String
  pub label : String
  pub field_type : FieldType
  pub required : Bool
  pub hint : Option String
  pub default : Option Json
  pub relevant : Option Relevance
  pub choices : Option (List Choice)
  pub constraints : List Constraint
  pub metadata : List (String × String)

mutual
  pub data FormField : Type 0 where
    form_field : FieldInfo → Children → FormField

  -- `Option<Vec<FormField>>`
  pub data Children : Type 0 where
    absent : Children
    present : Fields → Children

  -- `Vec<FormField>`
  pub data Fields : Type 0 where
    no_fields : Fields
    field : FormField → Fields → Fields

abbrev pub info : FormField → FieldInfo
info (form_field f c) = f

abbrev pub children : FormField → Children
children (form_field f c) = c

-- `children.iter().flatten()`
abbrev pub flatten : Children → Fields
flatten absent = no_fields
flatten (present fs) = fs

abbrev pub to_list : Fields → List FormField
to_list no_fields = []
to_list (field f fs) = f ∷ to_list fs

pub record Form : Type 0 where
  pub id : Uuid
  pub title : String
  pub description : Option String
  pub version : ℕ
  pub fields : Fields

-- `Form::new`, the fresh id an argument
unfoldable pub new : Uuid → String → Form
new id title = record {
  id = id;
  title = title;
  description = none;
  version = 1;
  fields = no_fields;
}

unfoldable pub push_field : FormField → Fields → Fields
push_field f no_fields = field f no_fields
push_field f (field g fs) = field g (push_field f fs)

unfoldable pub add_field : FormField → Form → Form
unfolding push_field
add_field f form = record form { fields = push_field f form.fields }

-- `fields.iter().find(|f| f.name == name)`
unfoldable pub find_field : String → Fields → Option FormField
find_field name no_fields = none
find_field name (field f fs) = if str_eq (info f).name name then some f else find_field name fs

unfoldable pub field_by_name : String → Form → Option FormField
unfolding find_field
field_by_name name form = find_field name form.fields

-- The fields that `FormField::text` and `FormField::geopoint` start from.
abbrev plain : FieldType → String → String → FormField
plain field_type name label =
    form_field
      (record {
        name = name;
        label = label;
        field_type = field_type;
        required = false;
        hint = none;
        default = none;
        relevant = none;
        choices = none;
        constraints = [];
        metadata = [];
      })
      absent

-- `FormField::text`
unfoldable pub text_field : (name label : String) → FormField
text_field = plain FieldType.text

-- `FormField::geopoint`
unfoldable pub geopoint_field : (name label : String) → FormField
geopoint_field = plain FieldType.geo_point

unfoldable pub set_required : FormField → FormField
set_required (form_field f c) = form_field (record f { required = true }) c

unfoldable pub with_constraint : Constraint → FormField → FormField
with_constraint k (form_field f c) =
    form_field (record f { constraints = f.constraints ++ (k ∷ []) }) c
