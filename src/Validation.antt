-- ===== src/Validation.antt =====
-- crates/collecta-core/src/validation.rs: a submission against its form.
pub mod Wildcard
pub mod FieldRules
pub mod FormRules
mod Tests
use Prim.Native.String
use collecta.Prelude.{
  ℕ, suc, ◌+◌, String, Bool, true, false, ◌&&◌, ◌||◌, not, Option, none, some, List, [], ◌∷◌, ◌++◌,
  ◌+++◌, str_eq, begins_with, ends_with, strip_first, strip_last, show_ℕ, any, filter_map, is_some,
  ltb, if◌then◌else◌,
}
use collecta.F64.{F64, FloatText, of_i64, lt}
use collecta.Values.{
  FieldValue, Rows, Values, no_rows, row, get, keys, extend, text, integer, decimal, choice, repeat,
  null,
}
use collecta.Form.{
  FieldType, FieldInfo, FormField, Children, Fields, Form, Constraint, ConstraintKind, Relevance,
  form_field, absent, present, no_fields, field, info, find_field, field_by_name, min, max,
  min_length, max_length, pattern_of, one_of,
}
use collecta.Form.Condition.{evaluate}
use collecta.Errors.{Error, required_field, validation_failed, unknown_field}
use collecta.Submission.{Submission}

-- `f64` and `usize` readings of a value
unfoldable pub extract_number : FieldValue → Option F64
extract_number (integer n) = some (of_i64 n)
extract_number (decimal x) = some x
extract_number _ = none

unfoldable pub extract_length : FieldValue → Option ℕ
extract_length (text s) = some (String.len s)
extract_length _ = none

-- The tail of `simple_pattern_match` after a leading star is ruled out.
abbrev pub prefix_or_exact : Option String → String → String → Bool
prefix_or_exact (some prefix) pattern_text given = begins_with given prefix
prefix_or_exact none pattern_text given = str_eq pattern_text given

abbrev pub suffix_or : Option String → String → String → Bool
suffix_or (some suffix) pattern_text given = ends_with given suffix
suffix_or none pattern_text given =
    prefix_or_exact (strip_last b'*' pattern_text) pattern_text given

unfoldable pub simple_pattern_match : (pattern_text given : String) → Bool
simple_pattern_match pattern_text given =
    if str_eq pattern_text "*"
    then true
    else suffix_or (strip_first b'*' pattern_text) pattern_text given

abbrev pub on_some {ℓ} : {A : Type ℓ} → (A → Bool) → Option A → Bool
on_some test none = false
on_some test (some a) = test a

abbrev pub fails_pattern : String → FieldValue → Bool
fails_pattern p (text given) = not (simple_pattern_match p given)
fails_pattern p _ = false

abbrev pub fails_one_of : List String → FieldValue → Bool
fails_one_of allowed (text given) = not (any (λ a. str_eq a given) allowed)
fails_one_of allowed (choice given) = not (any (λ a. str_eq a given) allowed)
fails_one_of allowed _ = false

-- The arms of the match: whether the value breaks the constraint. `?` on a value with no number or
-- no length returns early, with no error.
unfoldable pub violates : ConstraintKind → FieldValue → Bool
unfolding extract_number extract_length simple_pattern_match
violates (min least) value = on_some (λ num. lt num least) (extract_number value)
violates (max most) value = on_some (λ num. lt most num) (extract_number value)
violates (min_length least) value = on_some (λ len. ltb len least) (extract_length value)
violates (max_length most) value = on_some (λ len. ltb most len) (extract_length value)
violates (pattern_of p) value = fails_pattern p value
violates (one_of allowed) value = fails_one_of allowed value

unfoldable pub check_constraint : String → FieldValue → Constraint → Option Error
unfolding violates
check_constraint path value constraint =
    if violates constraint.kind value
    then some (validation_failed path constraint.message)
    else none

-- The test of a required field.
unfoldable pub is_unanswered : Option FieldValue → Bool
is_unanswered none = true
is_unanswered (some null) = true
is_unanswered (some (text s)) = str_eq s ""
is_unanswered (some _) = false

unfoldable pub is_repeat : FieldType → Bool
is_repeat FieldType.repeat = true
is_repeat _ = false

-- The constraint loop, which an absent or null value skips.
unfoldable pub check_value : String → List Constraint → Option FieldValue → List Error
unfolding check_constraint
check_value path constraints none = []
check_value path constraints (some null) = []
check_value path constraints (some value) = filter_map (check_constraint path value) constraints

-- `format!("{path}[{index}].{name}")`
unfoldable pub child_path : String → ℕ → String → String
unfolding show_ℕ
child_path path index name = path +++ ("[" +++ (show_ℕ index +++ ("]." +++ name)))

unfoldable pub unknown_keys :
    (known : String → Bool) (at : String → String) → List String → List Error
unknown_keys known at [] = []
unknown_keys known at (key ∷ rest) =
    let later = unknown_keys known at rest in
    if known key then later else unknown_field (at key) ∷ later

-- Whether some child has the name.
abbrev pub child_named : Children → String → Bool
child_named absent name = false
child_named (present fs) name = is_some (find_field name fs)

-- The loop of `validate_instances`. `check` validates the children in a scope, with their paths.
unfoldable pub validate_rows :
    (known : String → Bool) (check : (String → String) → Values → List Error) (outer : Values)
    (path : String)
    → ℕ
    → Rows
    → List Error
unfolding extend unknown_keys child_path keys
validate_rows known check outer path index no_rows = []
validate_rows known check outer path index (row instance rest) =
    check (child_path path index) (extend outer instance)
    ++ (unknown_keys known (child_path path index) (keys instance)
        ++ validate_rows known check outer path (suc index) rest)

abbrev pub validate_instances :
    (known : String → Bool) (check : (String → String) → Values → List Error) (outer : Values)
    (path : String)
    → Option FieldValue
    → List Error
validate_instances known check outer path (some (repeat instances)) =
    validate_rows known check outer path 0 instances
validate_instances known check outer path _ = []

module _ (floats : FloatText) where
  unfoldable pub is_hidden : Option Relevance → Values → Bool
  unfolding evaluate
  is_hidden none values = false
  is_hidden (some condition) values = not (evaluate floats condition values)

  -- The body of `validate_field`; `check` validates the children.
  unfoldable pub validate_info :
      FieldInfo
      → (known : String → Bool) (check : (String → String) → Values → List Error) → Values
      → String
      → List Error
  unfolding is_hidden is_unanswered is_repeat check_value validate_rows get
  validate_info f known check values path =
      if is_hidden f.relevant values
      then []
      else if f.required && not (is_repeat f.field_type) && is_unanswered (get f.name values)
      then required_field path ∷ []
      else if is_repeat f.field_type
      then validate_instances known check values path (get f.name values)
      else check_value path f.constraints (get f.name values)

  unfoldable mutual
    unfolding validate_info

    pub validate_field : FormField → Values → String → List Error
    validate_field (form_field f c) values path =
        validate_info f (child_named c) (validate_children c) values path

    pub validate_children : Children → (String → String) → Values → List Error
    validate_children absent path_of values = []
    validate_children (present fs) path_of values = validate_fields fs path_of values

    -- The loop over the fields; `path_of` gives the path of a field of that name.
    pub validate_fields : Fields → (String → String) → Values → List Error
    validate_fields no_fields path_of values = []
    validate_fields (field f fs) path_of values =
        validate_field f values (path_of (info f).name) ++ validate_fields fs path_of values

  -- `validation::validate`
  unfoldable pub validate : Form → Submission → List Error
  unfolding validate_field unknown_keys field_by_name keys
  validate form submission =
      validate_fields form.fields (λ name. name) submission.values
      ++ unknown_keys (λ key. is_some (field_by_name key form)) (λ key. key)
          (keys submission.values)
