-- ===== src/Form/Condition.antt =====
-- crates/collecta-core/src/form.rs: conditional visibility.
use collecta.Prelude.{
  String, Bool, true, false, not, Option, none, some, ◌+++◌, str_eq, any, split_whitespace, trim,
  show_ℕ, join, suc, ◌>>=◌,
}
use collecta.F64.{F64, ℤ, pos, negsuc, FloatText, lt}
use collecta.Values.{
  FieldValue, Values, get, text, integer, decimal, boolean, date, date_time, time, choice,
  multi_choice, barcode, null,
}
use collecta.Form.{
  Json, ConditionOp, Relevance, equals, not_equals, greater_than, less_than, contains, is_not_empty,
}

unfoldable pub show_ℤ : ℤ → String
unfolding show_ℕ
show_ℤ (pos n) = show_ℕ n
show_ℤ (negsuc n) = "-" +++ show_ℕ (suc n)

abbrev show_bool : Bool → String
show_bool true = "true"
show_bool false = "false"

unfoldable pub json_text : Json → String
json_text (Json.string s) = s
json_text Json.null = ""
json_text (Json.other s) = s

-- `unwrap_or_default` on a text
abbrev pub or_empty : Option String → String
or_empty none = ""
or_empty (some s) = s

module _ (floats : FloatText) where
  -- The text that an answer compares as.
  unfoldable pub field_text : FieldValue → Option String
  unfolding show_ℤ join
  field_text (text s) = some s
  field_text (date s) = some s
  field_text (date_time s) = some s
  field_text (time s) = some s
  field_text (choice s) = some s
  field_text (barcode s) = some s
  field_text (integer n) = some (show_ℤ n)
  field_text (decimal x) = some (floats.show x)
  field_text (boolean b) = some (show_bool b)
  field_text (multi_choice values) = some (join " " values)
  field_text _ = none

  abbrev both : (F64 → F64 → Bool) → Option F64 → Option F64 → Bool
  both ordered (some left) (some right) = ordered left right
  both ordered _ _ = false

  unfoldable pub compare_numbers : (left right : String) → (F64 → F64 → Bool) → Bool
  unfolding trim
  compare_numbers left right ordered =
      both ordered (floats.parse (trim left)) (floats.parse (trim right))

  -- The `IsNotEmpty` arm: an answer that has no text counts as given.
  abbrev answered : Option FieldValue → Bool
  answered none = false
  answered (some null) = false
  answered (some value) = elim (field_text value) [ none ↦ true | some s ↦ not (str_eq s "") ]

  -- The arms of the match on the operator.
  unfoldable pub decide_op : ConditionOp → Option FieldValue → (given expected : String) → Bool
  unfolding compare_numbers split_whitespace
  decide_op equals answer given expected = str_eq given expected
  decide_op not_equals answer given expected = not (str_eq given expected)
  decide_op greater_than answer given expected = compare_numbers given expected (λ l r. lt r l)
  decide_op less_than answer given expected = compare_numbers given expected (λ l r. lt l r)
  decide_op contains answer given expected =
      any (λ token. str_eq token expected) (split_whitespace given)
  decide_op is_not_empty answer given expected = answered answer

  -- `Condition::evaluate`
  unfoldable pub evaluate : Relevance → Values → Bool
  unfolding field_text decide_op json_text get
  evaluate c values =
      let answer = get c.field values in
      decide_op c.op answer (or_empty (answer >>= field_text)) (json_text c.value)
