-- ===== src/Publish/Wkb.antt =====
-- The geometry of a published feature: little-endian WKB in hexadecimal, of
-- crates/collecta-server/src/publish.rs. A byte is a number below 256.
pub mod Reader
pub mod Hex
pub mod Decode
use Prim.Native.Char.{Char}
use Prim.Native.String.{◌∷◌ as ◌∷ₛ◌}
use collecta.Prelude.{
  ℕ, zero, suc, ◌+◌, ◌-◌, ◌/◌, ◌%◌, ◌^◌, String, Bool, true, false, ◌&&◌, Option, none, some, List,
  [], ◌∷◌, ◌++◌, length, if◌then◌else◌,
}
use collecta.F64.{F64, eq}
use collecta.Values.{GeoPoint, FieldValue, geo_point, geo_trace, geo_shape}

abbrev pub Bytes : Type 0
Bytes = List ℕ

abbrev hex_digits : List Char
hex_digits =
    "0"
    ∷ ("1"
        ∷ ("2"
            ∷ ("3"
                ∷ ("4"
                    ∷ ("5"
                        ∷ ("6"
                            ∷ ("7"
                                ∷ ("8"
                                    ∷ ("9"
                                        ∷ ("a"
                                            ∷ ("b" ∷ ("c" ∷ ("d" ∷ ("e" ∷ ("f" ∷ [])))))))))))))))

abbrev char_at : ℕ → List Char → Char
char_at n [] = "0"
char_at zero (c ∷ rest) = c
char_at (suc n) (c ∷ rest) = char_at n rest

unfoldable pub hex_digit : ℕ → Char
hex_digit n = char_at n hex_digits

-- `{byte:02x}` for each byte
unfoldable pub hex : Bytes → String
unfolding hex_digit
hex [] = ""
hex (b ∷ rest) = hex_digit (b / 16) ∷ₛ (hex_digit (b % 16) ∷ₛ hex rest)

-- The lowest `k` bytes, the lowest first: `to_le_bytes` of a number of `k` bytes.
unfoldable pub le_bytes : ℕ → ℕ → Bytes
le_bytes zero n = []
le_bytes (suc k) n = n % 256 ∷ le_bytes k (n / 256)

unfoldable pub wkb_header : ℕ → Bytes
wkb_header geometry = 1 ∷ le_bytes 4 geometry

unfoldable pub push_coordinates : GeoPoint → Bytes
push_coordinates p = le_bytes 8 p.longitude ++ le_bytes 8 p.latitude

unfoldable pub push_each : List GeoPoint → Bytes
push_each [] = []
push_each (p ∷ rest) = push_coordinates p ++ push_each rest

unfoldable pub push_points : List GeoPoint → Bytes
push_points points = le_bytes 4 (length points % 2 ^ 32) ++ push_each points

abbrev eq_option : Option F64 → Option F64 → Bool
unfolding eq
eq_option none none = true
eq_option (some a) (some b) = eq a b
eq_option _ _ = false

-- The derived `PartialEq` of `GeoPoint`
unfoldable pub same_point : GeoPoint → GeoPoint → Bool
unfolding eq eq_option
same_point p q =
    eq p.latitude q.latitude
    && eq p.longitude q.longitude
    && eq_option p.altitude q.altitude
    && eq_option p.accuracy q.accuracy

abbrev pub last : GeoPoint → List GeoPoint → GeoPoint
last p [] = p
last p (q ∷ rest) = last q rest

-- A ring that does not end where it starts is closed with its first point.
unfoldable pub close_ring : List GeoPoint → List GeoPoint
close_ring [] = []
close_ring (p ∷ rest) = if same_point p (last p rest) then p ∷ rest else (p ∷ rest) ++ (p ∷ [])

unfoldable pub point_wkb : GeoPoint → Bytes
point_wkb p = wkb_header 1 ++ push_coordinates p

unfoldable pub linestring_wkb : List GeoPoint → Bytes
linestring_wkb points = wkb_header 2 ++ push_points points

unfoldable pub polygon_wkb : List GeoPoint → Bytes
polygon_wkb points = wkb_header 3 ++ (le_bytes 4 1 ++ push_points (close_ring points))

unfoldable pub geometry_wkb_hex : FieldValue → Option String
geometry_wkb_hex (geo_point p) = some (hex (point_wkb p))
geometry_wkb_hex (geo_trace (p ∷ rest)) = some (hex (linestring_wkb (p ∷ rest)))
geometry_wkb_hex (geo_shape (p ∷ rest)) = some (hex (polygon_wkb (p ∷ rest)))
geometry_wkb_hex _ = none
