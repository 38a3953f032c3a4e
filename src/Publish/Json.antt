-- ===== src/Publish/Json.antt =====
-- The json values that crates/collecta-server/src/publish.rs writes and reads (`serde_json::Value`).
use collecta.Prelude.{String, Bool, Option, none, some, str_eq, if◌then◌else◌}
use collecta.F64.{F64, ℤ}

mutual
  pub data Value : Type 0 where
    null : Value
    flag : Bool → Value
    whole : ℤ → Value
    number : F64 → Value
    string : String → Value
    array : Elements → Value
    object : Members → Value

  -- `Vec<Value>`
  pub data Elements : Type 0 where
    no_elements : Elements
    element : Value → Elements → Elements

  -- `Map<String, Value>`
  pub data Members : Type 0 where
    no_members : Members
    member : String → Value → Members → Members

-- `Map::insert`
unfoldable pub put : String → Value → Members → Members
put key value no_members = member key value no_members
put key value (member k old rest) =
    let later = put key value rest in
    if str_eq k key then member k value rest else member k old later

unfoldable pub member_of : String → Members → Option Value
member_of key no_members = none
member_of key (member k value rest) = if str_eq k key then some value else member_of key rest

-- `Value::get` with a key
unfoldable pub get : String → Value → Option Value
unfolding member_of
get key (object members) = member_of key members
get key _ = none

abbrev pub as_string : Value → Option String
as_string (string s) = some s
as_string _ = none
