-- ===== src/XlsForm/Tests.antt =====
-- A survey of a group with a question and a repeat with another, and a group whose type is written with
-- a space.
use collecta.Prelude.{String, none, List, [], ◌∷◌, ◌≡◌, ◌↔◌, false, some, refl}
use collecta.Form.{
  FieldInfo, FieldType, Fields, form_field, absent, present, no_fields, field, push_field,
}
use collecta.Rosa.Result.{ok, err}
use collecta.XlsForm.{Record, unsupported_type}
use collecta.XlsForm.Relevant.{Numbers, parse_relevant}
use collecta.XlsForm.Survey.{
  row_kind, read_survey, parse_survey, map_type, field_name, build_field, move_fields, parse_bool,
}
use collecta.XlsForm.Survey.Nested.{
  Items, no_items, item, question, group, repeat, all_rows, AllTyped, all_meaning,
}
use collecta.XlsForm.Survey.Nesting.{parse_survey_iff}

abbrev plain_numbers : Numbers
plain_numbers = record { parse = λ _. none; show_json = λ _. "" }

abbrev typed : (type name : String) → Record
typed type name = ("type", type) ∷ (("name", name) ∷ [])

abbrev survey : Items
survey =
    item
      (group (typed "begin_group" "house")
        (item (question (typed "text" "owner") "text" none) no_items) (typed "end_group" ""))
      (item
        (repeat (typed "begin_repeat" "person") none
          (item (question (typed "integer years" "age") "integer" (some "years")) no_items)
          (typed "end_repeat" ""))
        no_items)

abbrev plain_info : (name : String) → FieldType → List (String × String) → FieldInfo
plain_info name field_type metadata = record {
  name = name;
  label = name;
  field_type = field_type;
  required = false;
  hint = none;
  default = none;
  relevant = none;
  choices = none;
  constraints = [];
  metadata = metadata;
}

abbrev survey_fields : Fields
survey_fields =
    field (form_field (plain_info "owner" FieldType.text (("group", "house") ∷ [])) absent) (
      field
        (form_field (plain_info "person" FieldType.repeat [])
          (present (field (form_field (plain_info "age" FieldType.integer []) absent) no_fields)))
        no_fields)

survey-AllTyped : AllTyped survey
unfolding AllTyped row_kind
survey-AllTyped = ((refl, refl, (refl, tt)), ((refl, refl, (refl, tt)), tt))

parse_survey_iff_example :
    (parse_survey plain_numbers [] (all_rows survey []) ≡ ok survey_fields) ↔ (
      (xs : Items) × AllTyped xs
      × (all_rows survey [] ≡ all_rows xs [])
      × (all_meaning plain_numbers [] 2 xs ≡ ok survey_fields))
parse_survey_iff_example = parse_survey_iff plain_numbers [] (all_rows survey []) survey_fields

survey_read : parse_survey plain_numbers [] (all_rows survey []) ≡ ok survey_fields
unfolding all_rows parse_survey read_survey row_kind field_name map_type build_field push_field
    move_fields parse_bool
survey_read = refl

spaced_group_refused :
    parse_survey plain_numbers [] (typed "begin group" "house" ∷ [])
    ≡ err (unsupported_type 2 "begin")
unfolding parse_survey read_survey row_kind map_type
spaced_group_refused = refl

-- A condition on a text with an operator in it is not read: the operator is found inside the text.
operator_in_text : parse_relevant plain_numbers "${a} = 'x!=y'" ≡ none
unfolding parse_relevant
operator_in_text = refl
