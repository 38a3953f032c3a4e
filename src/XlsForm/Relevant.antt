-- ===== src/XlsForm/Relevant.antt =====
-- `parse_relevant` of crates/collecta-xlsform/src/lib.rs.
use Prim.Native.Char.{Char, code}
use Prim.Native.String.{[] as nil, ◌∷◌ as ◌∷ₛ◌}
use collecta.Prelude.{
  ℕ, suc, String, Bool, true, false, ◌||◌, Option, none, some, List, [], ◌∷◌, ◌+++◌, ◌==◌, str_eq,
  trim, begins_with, strip_last, strip_first, show_ℕ, if◌then◌else◌, ◌>>=◌,
}
use collecta.F64.{F64, ℤ, pos, negsuc, is_finite}
use collecta.Int64.{parse_i64}
use collecta.Form.{
  Relevance, ConditionOp, Json, equals, not_equals, greater_than, less_than, contains, is_not_empty,
}

-- How floats are read, and how the json crate prints one.
pub record Numbers : Type 0 where
  pub parse : String → Option F64
  pub show_json : F64 → String

-- `strip_prefix` with a text
unfoldable pub strip_prefix : (text prefix : String) → Option String
strip_prefix s nil = some s
strip_prefix nil (c ∷ₛ p) = none
strip_prefix (d ∷ₛ s) (c ∷ₛ p) =
    let rest = strip_prefix s p in if code d == code c then rest else none

abbrev put_before : Char → Option (String × String) → Option (String × String)
put_before c none = none
put_before c (some (left, right)) = some (c ∷ₛ left, right)

abbrev found_or : Option String → Option (String × String) → Option (String × String)
found_or (some rest) later = some ("", rest)
found_or none later = later

-- `split_once`: at the first place where the token begins.
unfoldable pub split_once : (token text : String) → Option (String × String)
unfolding strip_prefix
split_once token nil = found_or (strip_prefix nil token) none
split_once token (c ∷ₛ s) =
    found_or (strip_prefix (c ∷ₛ s) token) (put_before c (split_once token s))

abbrev has_char : (ℕ → Bool) → String → Bool
has_char p nil = false
has_char p (c ∷ₛ s) = p (code c) || has_char p s

-- `(!inner.contains(..)).then(..)`
abbrev unless : Bool → String → Option String
unless true s = none
unless false s = some s

unfoldable pub field_reference : String → Option String
unfolding trim strip_prefix
field_reference token = do
  rest ← strip_prefix (trim token) "${"
  name ← strip_last b'}' rest
  unless (str_eq name "" || has_char (λ c. c == b'$' || c == b'{' || c == b'}') name) name

unfoldable pub quoted_value : String → Option String
unfolding trim
quoted_value token = do
  rest ← strip_first b'\'' (trim token)
  inner ← strip_last b'\'' rest
  unless (has_char (λ c. c == b'\'') inner) inner

abbrev show_i64 : ℤ → String
show_i64 (pos n) = show_ℕ n
show_i64 (negsuc n) = "-" +++ show_ℕ (suc n)

abbrev condition : ConditionOp → String → Json → Option Relevance
condition op field value = some (record { field = field; op = op; value = value })

-- `!= ''` asks for an answer.
abbrev unequal : String → String → Option Relevance
unequal field value =
    if str_eq value ""
    then condition is_not_empty field Json.null
    else condition not_equals field (Json.string value)

module _ (numbers : Numbers) where
  abbrev finite : Option F64 → Option Json
  finite none = none
  finite (some x) = if is_finite x then some (Json.other (numbers.show_json x)) else none

  unfoldable pub number_value : String → Option Json
  unfolding parse_i64 trim show_ℕ is_finite
  number_value token = elim (parse_i64 (trim token)) [
    | some n ↦ some (Json.other (show_i64 n))
    | none ↦ finite (numbers.parse (trim token))
  ]

  abbrev selected : String → Option Relevance
  selected arguments = do
    parts ← split_once "," arguments
    field ← field_reference parts.0
    value ← quoted_value parts.1
    condition contains field (Json.string value)

  abbrev compared : ConditionOp → (reference right : String) → Option Relevance
  compared greater_than reference right = do
    field ← field_reference reference
    value ← number_value right
    condition greater_than field value
  compared less_than reference right = do
    field ← field_reference reference
    value ← number_value right
    condition less_than field value
  compared not_equals reference right = do
    field ← field_reference reference
    value ← quoted_value right
    unequal field value
  compared op reference right = do
    field ← field_reference reference
    value ← quoted_value right
    condition op field (Json.string value)

  -- The loop over the operators: the first that occurs decides.
  unfoldable pub first_operator : List (String × ConditionOp) → String → Option Relevance
  unfolding split_once field_reference quoted_value number_value trim
  first_operator [] expression = none
  first_operator ((token, op) ∷ rest) expression = elim (split_once token expression) [
    | none ↦ first_operator rest expression
    | some parts ↦
        if begins_with (trim parts.1) "=" then none else compared op parts.0 (trim parts.1)
  ]

  abbrev pub relevant_operators : List (String × ConditionOp)
  relevant_operators =
      ("!=", not_equals) ∷ (("=", equals) ∷ ((">", greater_than) ∷ (("<", less_than) ∷ [])))

  unfoldable pub parse_relevant : String → Option Relevance
  unfolding first_operator strip_prefix split_once field_reference quoted_value trim
  parse_relevant expression =
      elim (strip_prefix (trim expression) "selected(" >>= strip_last b')') [
        | some arguments ↦ selected arguments
        | none ↦ first_operator relevant_operators (trim expression)
      ]
