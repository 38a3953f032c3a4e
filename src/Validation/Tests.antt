-- ===== src/Validation/Tests.antt =====
-- The laws of the validator at a concrete form: a required name, and a repeat
-- of plots with a name each.
use collecta.Prelude.{true, false, none, [], ◌∷◌, ◌≡◌, ◌↔◌, All, is_some}
use collecta.F64.{FloatText}
use collecta.Values.{FieldValue, empty, entry, keys}
use collecta.F64.{pos}
use collecta.Form as Form
use collecta.Form.{
  FormField, Fields, ConstraintKind, field, no_fields, form_field, present, absent, FieldType,
  field_by_name, text_field,
}
use collecta.Submission.{Submission, SubmissionStatus}
use collecta.Validation.{simple_pattern_match, violates, validate}
use collecta.Validation.Wildcard.{Matches, simple_pattern_match_iff}
use collecta.Validation.FieldRules.{Satisfies, violates_iff}
use collecta.Validation.FormRules.{FieldsOk, validate_iff}

-- Floats that are never printed nor read.
abbrev no_floats : FloatText
no_floats = record { show = λ _. ""; parse = λ _. none }

abbrev name_field : FormField
name_field =
    form_field
      (record {
        name = "name";
        label = "Name";
        field_type = FieldType.text;
        required = true;
        hint = none;
        default = none;
        relevant = none;
        choices = none;
        constraints = record { kind = ConstraintKind.min_length 2; message = "too short" } ∷ [];
        metadata = [];
      })
      absent

abbrev plots_field : FormField
plots_field =
    form_field
      (record {
        name = "plots";
        label = "Plots";
        field_type = FieldType.repeat;
        required = false;
        hint = none;
        default = none;
        relevant = none;
        choices = none;
        constraints = [];
        metadata = [];
      })
      (present (field name_field no_fields))

abbrev survey : Form.Form
survey = record {
  id = 7;
  title = "Survey";
  description = none;
  version = 1;
  fields = field name_field (field plots_field no_fields);
}

abbrev filled : Submission
filled = record {
  id = 1;
  form_id = 7;
  form_version = 1;
  values = entry "name" (FieldValue.text "Ada") (entry "height" (FieldValue.text "tall") empty);
  started_at = 0;
  completed_at = none;
  device_location = none;
  collector_id = none;
  status = SubmissionStatus.complete;
  attachments = [];
}

validate_iff_example : (validate no_floats survey filled ≡ []) ↔ (
    FieldsOk no_floats survey.fields filled.values
    × All (λ key. is_some (field_by_name key survey) ≡ true) (keys filled.values))
validate_iff_example = validate_iff no_floats survey filled

simple_pattern_match_iff_example : (simple_pattern_match "A-*" "A-12" ≡ true) ↔ Matches "A-*" "A-12"
simple_pattern_match_iff_example = simple_pattern_match_iff "A-*" "A-12"

violates_iff_example :
    (violates (ConstraintKind.min 5) (FieldValue.integer (pos 3)) ≡ false)
    ↔ Satisfies (ConstraintKind.min 5) (FieldValue.integer (pos 3))
violates_iff_example = violates_iff (ConstraintKind.min 5) (FieldValue.integer (pos 3))
