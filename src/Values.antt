-- ===== src/Values.antt =====
-- crates/collecta-core/src/submission.rs: the value of a field, and the map from field names to
-- values. A `HashMap<String, FieldValue>` is an association list; its order stands for the
-- unspecified order of iteration.
pub mod Laws
use collecta.Prelude.{
  ℕ, String, Bool, true, false, ◌||◌, Option, none, some, List, [], ◌∷◌, str_eq, is_some,
  if◌then◌else◌,
}
use collecta.F64.{F64, ℤ}

-- A 128-bit identifier; the program only compares, prints and copies it.
abbrev pub Uuid : Type 0
Uuid = ℕ

-- A UTC instant, in nanoseconds.
abbrev pub Instant : Type 0
Instant = ℕ

pub record GeoPoint : Type 0 where
  pub latitude : F64
  pub longitude : F64
  pub altitude : Option F64
  pub accuracy : Option F64

mutual
  pub data FieldValue : Type 0 where
    text : String → FieldValue
    integer : ℤ → FieldValue
    decimal : F64 → FieldValue
    boolean : Bool → FieldValue
    date : String → FieldValue
    date_time : String → FieldValue
    time : String → FieldValue
    choice : String → FieldValue
    multi_choice : List String → FieldValue
    geo_point : GeoPoint → FieldValue
    geo_trace : List GeoPoint → FieldValue
    geo_shape : List GeoPoint → FieldValue
    barcode : String → FieldValue
    attachment : Uuid → FieldValue
    repeat : Rows → FieldValue
    null : FieldValue

  -- `Vec<HashMap<String, FieldValue>>`
  pub data Rows : Type 0 where
    no_rows : Rows
    row : Values → Rows → Rows

  -- `HashMap<String, FieldValue>`
  pub data Values : Type 0 where
    empty : Values
    entry : String → FieldValue → Values → Values

-- `values.get(name)`
unfoldable pub get : String → Values → Option FieldValue
get name empty = none
get name (entry key value rest) = if str_eq key name then some value else get name rest

-- `values.insert(name, value)`
unfoldable pub insert : String → FieldValue → Values → Values
insert name value empty = entry name value empty
insert name value (entry key old rest) =
    let later = insert name value rest in
    if str_eq key name then entry name value rest else entry key old later

-- `values.keys()`
unfoldable pub keys : Values → List String
keys empty = []
keys (entry key value rest) = key ∷ keys rest

-- `scope.extend(instance)`: every entry of the instance is inserted.
unfoldable pub extend : (scope instance : Values) → Values
unfolding insert
extend scope empty = scope
extend scope (entry key value rest) = insert key value (extend scope rest)

-- `GeoPoint::new`
unfoldable pub new_point : (latitude longitude : F64) → GeoPoint
new_point latitude longitude = record {
  latitude = latitude;
  longitude = longitude;
  altitude = none;
  accuracy = none;
}
