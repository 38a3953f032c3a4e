-- ===== src/Values/Laws.antt =====
-- Laws of the map from field names to values.
use collecta.Prelude.{String, ◌≡◌, refl, Option, none, some, str_eq, eq_iff, arith, if◌then◌else◌}
use collecta.Values.{FieldValue, Values, empty, entry, get, insert}

-- What a lookup finds after an insertion.
pub get-insert :
    (name key : String) (value : FieldValue) (m : Values)
    → get name (insert key value m) ≡ (if str_eq key name then some value else get name m)
unfolding get insert
get-insert name key value empty = refl
get-insert name key value (entry k old rest) =
    ground (arith, eq_iff k key, eq_iff key name, eq_iff k name, get-insert name key value rest)

abbrev pub or_else {ℓ} : {A : Type ℓ} → Option A → Option A → Option A
or_else none b = b
or_else (some a) b = some a
