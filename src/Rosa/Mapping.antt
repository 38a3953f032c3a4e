-- ===== src/Rosa/Mapping.antt =====
-- Matching an instance to a form: `to_submission` and `coerce` of
-- crates/collecta-server/src/openrosa/instance.rs.
pub mod Fits
pub mod Filled
use collecta.Prelude.{
  ℕ, String, Bool, true, false, ◌&&◌, ◌||◌, not, Option, none, some, List, [], ◌∷◌, ◌++◌, ◌+++◌,
  map, keep, str_eq, trim, split_whitespace, split_on, ◌>>=◌, if◌then◌else◌,
}
use collecta.F64.{F64, ℤ, negsuc, pos, FloatText, of_i64, le}
use collecta.Int64.{parse_i64}
use collecta.Values.{
  Uuid, Instant, GeoPoint, FieldValue, Values, Rows, empty, insert, no_rows, row, text, integer,
  decimal, boolean, date, date_time, time, choice, multi_choice, geo_point, geo_trace, geo_shape,
  barcode, repeat, null,
}
use collecta.Form.{
  Form, FormField, FieldInfo, FieldType, Children, Fields, form_field, info, children, flatten,
  no_fields, field,
}
use collecta.Submission as Submission
use collecta.Submission.{Submission, set_value, mark_complete}
use collecta.Rosa.Result.{Result, ok, err, or_err}
use collecta.Rosa.Tree.{Node, Nodes, no_nodes, child, name_of, text_of, children_of, child_of}
use collecta.Rosa.Instance.{Instance}

-- `f64` from the next word, if there is one.
abbrev pub next_float : (String → Option F64) → List String → Option F64
next_float parse [] = none
next_float parse (w ∷ rest) = parse w

abbrev pub rest_of : List String → List String
rest_of [] = []
rest_of (w ∷ rest) = rest

-- `(low..=high).contains(&x)` at whole numbers
abbrev pub within : (low high : ℤ) → F64 → Bool
within low high x = le (of_i64 low) x && le x (of_i64 high)

abbrev pub bad : String → String → String
bad name expected = "field '" +++ (name +++ ("' is not a valid " +++ expected))

abbrev pub coerce_boolean : String → String → Result String FieldValue
coerce_boolean name s =
    if str_eq s "true" || str_eq s "1"
    then ok (boolean true)
    else if str_eq s "false" || str_eq s "0"
    then ok (boolean false)
    else err (bad name "boolean")

-- The value that a given answer makes, or the error that names what was expected.
abbrev pub made : {A : Type 0} → (A → FieldValue) → Option A → String → Result String FieldValue
made f none e = err e
made f (some a) e = ok (f a)

-- An answer that fits is stored under the field's name, one that does not is reported.
abbrev pub keep_answer :
    String → Result String FieldValue → Values × List String → Values × List String
keep_answer name (ok value) (values, errors) = (insert name value values, errors)
keep_answer name (err e) (values, errors) = (values, errors ++ (e ∷ []))

abbrev pub keep_rows : String → Rows × List String → Values → Values × List String
keep_rows name (no_rows, errors) values = (values, errors)
keep_rows name (row r rest, errors) values = (insert name (repeat (row r rest)) values, errors)

abbrev pub is_repeat_type : FieldType → Bool
is_repeat_type FieldType.repeat = true
is_repeat_type _ = false

module _ (floats : FloatText) where
  abbrev pub point_from : Option F64 → Option F64 → List String → Option GeoPoint
  point_from (some latitude) (some longitude) more =
      if within (negsuc 89) (pos 90) latitude && within (negsuc 179) (pos 180) longitude
      then some (record {
        latitude = latitude;
        longitude = longitude;
        altitude = next_float floats.parse more;
        accuracy = next_float floats.parse (rest_of more);
      })
      else none
  point_from _ _ more = none

  -- The four words of a point.
  unfoldable pub point_of_words : List String → Option GeoPoint
  unfolding le of_i64
  point_of_words words =
      point_from (next_float floats.parse words) (next_float floats.parse (rest_of words))
        (rest_of (rest_of words))

  unfoldable pub geopoint : String → Option GeoPoint
  unfolding point_of_words split_whitespace
  geopoint s = point_of_words (split_whitespace s)

  -- `collect` into an `Option`
  unfoldable pub all_points : List String → Option (List GeoPoint)
  unfolding geopoint
  all_points [] = some []
  all_points (s ∷ rest) = do p ← geopoint s; ps ← all_points rest; some (p ∷ ps)

  unfoldable pub geopoints : String → Option (List GeoPoint)
  unfolding all_points split_on trim
  geopoints s = all_points (keep (λ part. not (str_eq part "")) (map trim (split_on b';' s)))

  -- The match on the field's type, for a trimmed text that is not empty.
  unfoldable pub coerce_as : FieldType → String → String → Result String FieldValue
  unfolding parse_i64 geopoint geopoints split_whitespace
  coerce_as FieldType.text name s = ok (text s)
  coerce_as FieldType.text_area name s = ok (text s)
  coerce_as FieldType.note name s = ok (text s)
  coerce_as FieldType.integer name s = made integer (parse_i64 s) (bad name "integer")
  coerce_as FieldType.decimal name s = made decimal (floats.parse s) (bad name "decimal")
  coerce_as FieldType.boolean name s = coerce_boolean name s
  coerce_as FieldType.date name s = ok (date s)
  coerce_as FieldType.date_time name s = ok (date_time s)
  coerce_as FieldType.time name s = ok (time s)
  coerce_as FieldType.select name s = ok (choice s)
  coerce_as FieldType.multi_select name s = ok (multi_choice (split_whitespace s))
  coerce_as FieldType.geo_point name s = made geo_point (geopoint s) (bad name "geopoint")
  coerce_as FieldType.geo_trace name s = made geo_trace (geopoints s) (bad name "geotrace")
  coerce_as FieldType.geo_shape name s = made geo_shape (geopoints s) (bad name "geoshape")
  coerce_as FieldType.barcode name s = ok (barcode s)
  coerce_as FieldType.photo name s = ok (text s)
  coerce_as FieldType.audio name s = ok (text s)
  coerce_as FieldType.video name s = ok (text s)
  coerce_as FieldType.file name s = ok (text s)
  coerce_as FieldType.signature name s = ok (text s)
  coerce_as FieldType.repeat name s = ok null

  unfoldable pub coerce : String → FieldInfo → Result String FieldValue
  unfolding coerce_as trim
  coerce raw f = if str_eq (trim raw) "" then ok null else coerce_as f.field_type f.name (trim raw)

  abbrev pub answer_of : Option Node → FieldInfo → Values × List String → Values × List String
  answer_of none f so_far = so_far
  answer_of (some x) f so_far = keep_answer f.name (coerce (text_of x) f) so_far

  -- One field that is not a repeat: its first node, if there is one.
  unfoldable pub read_answer : Node → FieldInfo → Values × List String → Values × List String
  unfolding child_of coerce
  read_answer n f so_far = answer_of (child_of f.name n) f so_far

  -- The loop of `repeat_row`
  unfoldable pub row_answers : Node → Fields → Values × List String → Values × List String
  unfolding read_answer
  row_answers n no_fields so_far = so_far
  row_answers n (field f rest) so_far = row_answers n rest (read_answer n (info f) so_far)

  unfoldable pub repeat_row : Node → Children → List String → Values × List String
  unfolding row_answers
  repeat_row n c errors = row_answers n (flatten c) (empty, errors)

  -- The rows of a repeat: one for each node with its name.
  unfoldable pub repeat_rows : String → Children → Nodes → List String → Rows × List String
  unfolding repeat_row
  repeat_rows name c no_nodes errors = (no_rows, errors)
  repeat_rows name c (child n rest) errors =
      let this = repeat_row n c errors in
      let later = repeat_rows name c rest this.1 in
      let skipped = repeat_rows name c rest errors in
      if str_eq (name_of n) name then (row this.0 later.0, later.1) else skipped

  -- One round of the loop of `to_submission`
  unfoldable pub read_field : Node → FormField → Values × List String → Values × List String
  unfolding read_answer repeat_rows insert
  read_field root (form_field f c) (values, errors) =
      if is_repeat_type f.field_type
      then keep_rows f.name (repeat_rows f.name c (children_of root) errors) values
      else read_answer root f (values, errors)

  unfoldable pub read_fields : Node → Fields → Values × List String → Values × List String
  unfolding read_field
  read_fields root no_fields so_far = so_far
  read_fields root (field f rest) so_far = read_fields root rest (read_field root f so_far)

  -- `to_submission`, with the fresh id and the two readings of the clock.
  unfoldable pub to_submission :
      (id : Uuid) (started completed : Instant)
      → Instance
      → Form
      → String
      → Submission × List String
  unfolding read_fields Submission.new mark_complete
  to_submission id started completed instance form collector =
      let filled = read_fields instance.root form.fields (empty, []) in
      (
        mark_complete completed (record (Submission.new id started form.id form.version) {
          values = filled.0;
          collector_id = some collector;
        }),
        filled.1,
      )
