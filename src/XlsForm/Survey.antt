-- ===== src/XlsForm/Survey.antt =====
-- `parse_survey` and `build_field` of crates/collecta-xlsform/src/lib.rs. A row number is that of the
-- sheet: the header is row 1.
pub mod Nested
pub mod Reading
pub mod Nesting
use collecta.Prelude.{
  ℕ, suc, ◌+◌, String, Bool, true, false, ◌||◌, Option, none, some, List, [], ◌∷◌, ◌++◌, ◌+++◌, map,
  str_eq, trim, split_whitespace, eq_ignore_case, if◌then◌else◌,
}
use collecta.Form as Form
use collecta.Form.{
  FieldType, FieldInfo, FormField, Fields, Children, Choice, Constraint, Json, form_field, absent,
  present, no_fields, field, push_field, one_of,
}
use collecta.Rosa.Result.{Result, ok, err, ◌>>=◌, or_err}
use collecta.XlsForm.{
  XlsformError, Record, lookup, put, filled, unsupported_type, missing_name, missing_choice_list,
  unbalanced_group,
}
use collecta.XlsForm.Relevant.{Numbers, parse_relevant}

abbrev pub ChoiceLists : Type 0
ChoiceLists = List (String × List Choice)

unfoldable pub map_type : String → Option FieldType
map_type base =
    if str_eq base "text" || str_eq base "string"
    then some FieldType.text
    else if str_eq base "integer" || str_eq base "int"
    then some FieldType.integer
    else if str_eq base "decimal"
    then some FieldType.decimal
    else if str_eq base "date"
    then some FieldType.date
    else if str_eq base "time"
    then some FieldType.time
    else if str_eq base "datetime" || str_eq base "dateTime"
    then some FieldType.date_time
    else if str_eq base "note"
    then some FieldType.note
    else if str_eq base "geopoint"
    then some FieldType.geo_point
    else if str_eq base "geotrace"
    then some FieldType.geo_trace
    else if str_eq base "geoshape"
    then some FieldType.geo_shape
    else if str_eq base "image" || str_eq base "photo"
    then some FieldType.photo
    else if str_eq base "audio"
    then some FieldType.audio
    else if str_eq base "video"
    then some FieldType.video
    else if str_eq base "file"
    then some FieldType.file
    else if str_eq base "barcode"
    then some FieldType.barcode
    else if str_eq base "signature"
    then some FieldType.signature
    else if str_eq base "select_one"
    then some FieldType.select
    else if str_eq base "select_multiple" || str_eq base "select_multi"
    then some FieldType.multi_select
    else none

unfoldable pub parse_bool : Option String → Bool
unfolding trim
parse_bool none = false
parse_bool (some s) =
    eq_ignore_case (trim s) "yes" || eq_ignore_case (trim s) "true" || str_eq (trim s) "1"

abbrev pub or_default : {A : Type 0} → A → Option A → A
or_default a none = a
or_default a (some b) = b

unfoldable pub field_name : Record → ℕ → Result XlsformError String
unfolding lookup
field_name rec row = or_err (filled (lookup "name" rec)) (missing_name row)

-- The attributes that are kept as they are.
abbrev pub preserved : List String
preserved =
    "constraint"
    ∷ ("constraint_message"
        ∷ ("relevant" ∷ ("choice_filter" ∷ ("appearance" ∷ ("calculation" ∷ [])))))

abbrev pub put_filled : String → Option String → List (String × String) → List (String × String)
put_filled key none metadata = metadata
put_filled key (some value) metadata = put key value metadata

abbrev pub preserve : List String → Record → List (String × String) → List (String × String)
preserve [] rec metadata = metadata
preserve (key ∷ rest) rec metadata =
    preserve rest rec (put_filled key (filled (lookup key rec)) metadata)

abbrev pub first_info : Record → FieldType → String → FieldInfo
first_info rec field_type name = record {
  name = name;
  label = or_default name (filled (lookup "label" rec));
  field_type = field_type;
  required = parse_bool (lookup "required" rec);
  hint = filled (lookup "hint" rec);
  default = elim (filled (lookup "default" rec)) [ none ↦ none | some s ↦ some (Json.string s) ];
  relevant = none;
  choices = none;
  constraints = [];
  metadata = [];
}

abbrev pub with_options : String → List Choice → FieldInfo → FieldInfo
with_options list options f = record f {
  choices = some options;
  metadata = put "list_name" list f.metadata;
}

abbrev pub membership : List Choice → FieldInfo → FieldInfo
membership options f = record f {
  constraints =
      record {
        kind = one_of (map (λ (c : Choice). c.value) options);
        message = "invalid choice for " +++ f.name;
      }
      ∷ [];
}

-- The first word of the type decides what a row is; the second names a choice list.
pub data RowKind : Type 0 where
  skipped group_start group_end repeat_end : RowKind
  repeat_start : Option String → RowKind
  question : (base : String) → Option String → RowKind

abbrev pub second_word : List String → Option String
second_word [] = none
second_word (list ∷ rest) = some list

abbrev pub kind_of : List String → RowKind
kind_of [] = skipped
kind_of (base ∷ rest) =
    if str_eq base "begin_group" || str_eq base "begin group"
    then group_start
    else if str_eq base "end_group" || str_eq base "end group"
    then group_end
    else if str_eq base "begin_repeat" || str_eq base "begin repeat"
    then repeat_start (second_word rest)
    else if str_eq base "end_repeat" || str_eq base "end repeat"
    then repeat_end
    else question base (second_word rest)

unfoldable pub row_kind : Record → RowKind
unfolding split_whitespace trim lookup
row_kind rec = kind_of (split_whitespace (trim (or_default "" (lookup "type" rec))))

module _ (numbers : Numbers) (choices : ChoiceLists) where
  abbrev pub options_of : String → ℕ → Result XlsformError (List Choice)
  options_of list row = or_err (lookup list choices) (missing_choice_list row list)

  -- The choices of a select, and the membership test of a select of one.
  abbrev pub attach_choices : FieldType → String → ℕ → FieldInfo → Result XlsformError FieldInfo
  attach_choices FieldType.select list row f = do
    options ← options_of list row
    ok (membership options (with_options list options f))
  attach_choices FieldType.multi_select list row f = do
    options ← options_of list row
    ok (with_options list options f)
  attach_choices _ list row f = ok f

  abbrev pub read_relevant : FieldInfo → FieldInfo
  read_relevant f = elim (lookup "relevant" f.metadata) [
    | none ↦ f
    | some expression ↦ record f { relevant = parse_relevant numbers expression }
  ]

  unfoldable pub build_field :
      Record → ℕ → FieldType → Option String → Result XlsformError FieldInfo
  unfolding field_name lookup put parse_relevant
  build_field rec row field_type list_name = do
    name ← field_name rec row
    f ← attach_choices field_type (or_default "" list_name) row (first_info rec field_type name)
    ok (read_relevant (record f { metadata = preserve preserved rec f.metadata }))

pub data FrameKind : Type 0 where
  root : FrameKind
  group : String → FrameKind
  repeat : FieldInfo → FrameKind

-- A container being filled.
pub record Frame : Type 0 where
  pub fields : Fields
  pub kind : FrameKind

-- `metadata.entry("group").or_insert(name)`
abbrev pub tag_info : String → FieldInfo → FieldInfo
tag_info name f = elim (lookup "group" f.metadata) [
  | none ↦ record f { metadata = put "group" name f.metadata }
  | some g ↦ f
]

abbrev pub tag : String → FormField → FormField
tag name (form_field f c) = form_field (tag_info name f) c

abbrev pub push_to : FormField → Frame → Frame
push_to f frame = record frame { fields = push_field f frame.fields }

-- The loop that moves the fields of a group to its parent.
unfoldable pub move_fields : String → Fields → Frame → Frame
unfolding push_field put lookup
move_fields name no_fields parent = parent
move_fields name (field f rest) parent = move_fields name rest (push_to (tag name f) parent)

abbrev pub close_group : List Frame → Result XlsformError (List Frame)
close_group (frame ∷ (parent ∷ rest)) = elim frame.kind [
  | group name ↦ ok (move_fields name frame.fields parent ∷ rest)
  | root ↦ err unbalanced_group
  | repeat f ↦ err unbalanced_group
]
close_group _ = err unbalanced_group

abbrev pub close_repeat : List Frame → Result XlsformError (List Frame)
close_repeat (frame ∷ (parent ∷ rest)) = elim frame.kind [
  | repeat f ↦ ok (push_to (form_field f (present frame.fields)) parent ∷ rest)
  | root ↦ err unbalanced_group
  | group name ↦ err unbalanced_group
]
close_repeat _ = err unbalanced_group

abbrev pub push_top : FormField → List Frame → Result XlsformError (List Frame)
push_top f [] = err unbalanced_group
push_top f (parent ∷ rest) = ok (push_to f parent ∷ rest)

abbrev pub open_frame : FrameKind → List Frame → List Frame
open_frame kind stack = record { fields = no_fields; kind = kind } ∷ stack

module _ (numbers : Numbers) (choices : ChoiceLists) where
  abbrev pub question_field : ℕ → Record → String → Option String → Result XlsformError FormField
  question_field row rec base list_name = do
    field_type ← or_err (map_type base) (unsupported_type row base)
    f ← build_field numbers choices rec row field_type list_name
    ok (form_field f absent)

  -- The match on the first word.
  abbrev pub read_as : RowKind → ℕ → Record → List Frame → Result XlsformError (List Frame)
  read_as skipped row rec stack = ok stack
  read_as group_start row rec stack = do
    name ← field_name rec row
    ok (open_frame (group name) stack)
  read_as group_end row rec stack = close_group stack
  read_as (repeat_start list_name) row rec stack = do
    f ← build_field numbers choices rec row FieldType.repeat list_name
    ok (open_frame (repeat f) stack)
  read_as repeat_end row rec stack = close_repeat stack
  read_as (question base list_name) row rec stack = do
    f ← question_field row rec base list_name
    push_top f stack

  -- The loop over the records
  unfoldable pub read_survey : ℕ → List Record → List Frame → Result XlsformError (List Frame)
  read_survey row [] stack = ok stack
  read_survey row (rec ∷ rest) stack = do
    next ← read_as (row_kind rec) row rec stack
    read_survey (suc row) rest next

  abbrev pub only_root : List Frame → Result XlsformError Fields
  only_root (frame ∷ []) = ok frame.fields
  only_root _ = err unbalanced_group

  unfoldable pub parse_survey : List Record → Result XlsformError Fields
  parse_survey records = do stack ← read_survey 2 records (open_frame root []); only_root stack
