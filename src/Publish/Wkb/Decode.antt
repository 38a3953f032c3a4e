-- ===== src/Publish/Wkb/Decode.antt =====
-- What crates/collecta-server/src/publish.rs writes as a geometry is read back.
use collecta.Prelude.{
  append_assoc, if◌then◌else◌, Bool, true, false, ◌∙◌, ℕ, zero, suc, ◌/◌, ◌%◌, ◌^◌, ◌<◌, Option,
  none, some, List, [], ◌∷◌, ◌++◌, ◌≡◌, refl, ap, length, map, All, ◌>>=◌, arith,
}
use collecta.Values.{GeoPoint, FieldValue, geo_point, geo_trace, geo_shape}
use collecta.Publish.Wkb.{
  Bytes, same_point, last, hex, le_bytes, wkb_header, push_coordinates, push_each, push_points,
  close_ring, point_wkb, linestring_wkb, polygon_wkb, geometry_wkb_hex,
}
use collecta.Publish.Wkb.Reader.{
  Position, Geometry, point, linestring, polygon, read_le, read_position, read_positions,
  read_counted, read_body, read_bytes, decode,
}
use collecta.Publish.Wkb.Hex.{
  IsByte, unhex-hex, point_wkb-IsByte, linestring_wkb-IsByte, polygon_wkb-IsByte,
}

-- The numbers of `k` bytes.
abbrev Fits : ℕ → ℕ → Type 0
Fits zero n = n ≡ 0
Fits (suc k) n = Fits k (n / 256)

read_le-le_bytes :
    (k n : ℕ) (rest : Bytes) → Fits k n → read_le k (le_bytes k n ++ rest) ≡ some (n, rest)
unfolding le_bytes read_le
read_le-le_bytes zero n rest h = rw h
read_le-le_bytes (suc k) n rest h =
    rw (read_le-le_bytes k (n / 256) rest h) (ap (λ m. some (m, rest)) (omega arith))

u32-Fits : (n : ℕ) → n < 2 ^ 32 → Fits 4 n
u32-Fits n h = omega arith

u64-Fits : (n : ℕ) → n < 2 ^ 64 → Fits 8 n
u64-Fits n h = omega arith

-- Both coordinates are bit patterns of 64 bits.
abbrev pub IsPlaced : GeoPoint → Type 0
IsPlaced p = (p.longitude < 2 ^ 64) × (p.latitude < 2 ^ 64)

abbrev pub position : GeoPoint → Position
position p = (p.longitude, p.latitude)

read_position-push_coordinates :
    (p : GeoPoint) (rest : Bytes)
    → IsPlaced p
    → read_position (push_coordinates p ++ rest) ≡ some (position p, rest)
unfolding push_coordinates read_position
read_position-push_coordinates p rest h = rw (
  append_assoc (le_bytes 8 p.longitude) (le_bytes 8 p.latitude) rest,
  read_le-le_bytes 8 p.longitude (le_bytes 8 p.latitude ++ rest) (u64-Fits p.longitude h.0),
  read_le-le_bytes 8 p.latitude rest (u64-Fits p.latitude h.1),
)

read_positions-push_each :
    (ps : List GeoPoint) (rest : Bytes)
    → All IsPlaced ps
    → read_positions (length ps) (push_each ps ++ rest) ≡ some (map position ps, rest)
unfolding push_each read_positions
read_positions-push_each [] rest h = refl
read_positions-push_each (p ∷ ps) rest h = rw (
  append_assoc (push_coordinates p) (push_each ps) rest,
  read_position-push_coordinates p (push_each ps ++ rest) h.0,
  read_positions-push_each ps rest h.1,
)

read_counted-push_points :
    (ps : List GeoPoint) (rest : Bytes)
    → length ps < 2 ^ 32
    → All IsPlaced ps
    → read_counted (push_points ps ++ rest) ≡ some (map position ps, rest)
unfolding push_points read_counted
read_counted-push_points ps rest small h =
    let short : length ps % 2 ^ 32 ≡ length ps = omega arith in
    rw (
      append_assoc (le_bytes 4 (length ps % 2 ^ 32)) (push_each ps) rest,
      short,
      read_le-le_bytes 4 (length ps) (push_each ps ++ rest) (u32-Fits (length ps) small),
      read_positions-push_each ps rest h,
    )

append_nil : {A : Type 0} (xs : List A) → xs ++ [] ≡ xs
append_nil [] = refl
append_nil (x ∷ xs) = ap (λ r. x ∷ r) (append_nil xs)

read_bytes-header :
    (kind : ℕ) (rest : Bytes)
    → kind < 2 ^ 32
    → read_bytes (wkb_header kind ++ rest) ≡ read_body kind rest
unfolding wkb_header read_bytes
read_bytes-header kind rest h = rw (read_le-le_bytes 4 kind rest (u32-Fits kind h))

read_bytes-point :
    (p : GeoPoint) → IsPlaced p → read_bytes (point_wkb p) ≡ some (point (position p))
unfolding point_wkb read_body
read_bytes-point p h =
    let coordinates = read_position-push_coordinates p [] h in
    let plain : read_position (push_coordinates p) ≡ some (position p, []) =
      rw (append_nil (push_coordinates p)) at coordinates in
    rw (read_bytes-header 1 (push_coordinates p) (omega arith), plain)

counted_whole :
    (ps : List GeoPoint)
    → length ps < 2 ^ 32
    → All IsPlaced ps
    → read_counted (push_points ps) ≡ some (map position ps, [])
counted_whole ps small h =
    let found = read_counted-push_points ps [] small h in rw (append_nil (push_points ps)) at found

read_bytes-linestring :
    (ps : List GeoPoint)
    → length ps < 2 ^ 32
    → All IsPlaced ps
    → read_bytes (linestring_wkb ps) ≡ some (linestring (map position ps))
unfolding linestring_wkb read_body
read_bytes-linestring ps small h =
    rw (read_bytes-header 2 (push_points ps) (omega arith), counted_whole ps small h)

read_bytes-polygon :
    (ps : List GeoPoint)
    → length (close_ring ps) < 2 ^ 32
    → All IsPlaced (close_ring ps)
    → read_bytes (polygon_wkb ps) ≡ some (polygon (map position (close_ring ps)))
unfolding polygon_wkb read_body
read_bytes-polygon ps small h = rw (
  read_bytes-header 3 (le_bytes 4 1 ++ push_points (close_ring ps)) (omega arith),
  read_le-le_bytes 4 1 (push_points (close_ring ps)) (u32-Fits 1 (omega arith)),
  counted_whole (close_ring ps) small h,
)

-- A ring as the format wants it: the points, and the first again unless the last one is equal to it.
abbrev pub ring_when : (ends_equal : Bool) → GeoPoint → List GeoPoint → List GeoPoint
ring_when true p rest = p ∷ rest
ring_when false p rest = (p ∷ rest) ++ (p ∷ [])

abbrev pub ring_of : GeoPoint → List GeoPoint → List GeoPoint
ring_of p rest = ring_when (same_point p (last p rest)) p rest

close_ring-ring_of : (p : GeoPoint) (rest : List GeoPoint) → close_ring (p ∷ rest) ≡ ring_of p rest
unfolding close_ring
close_ring-ring_of p rest = go (same_point p (last p rest))
  where
    go : (b : Bool) → (if b then p ∷ rest else (p ∷ rest) ++ (p ∷ [])) ≡ ring_when b p rest
    go true = refl
    go false = refl

-- What a value holds as a geometry: a trace as its points, a shape as its closed ring.
abbrev pub geometry_of : FieldValue → Option Geometry
geometry_of (geo_point p) = some (point (position p))
geometry_of (geo_trace (p ∷ rest)) = some (linestring (map position (p ∷ rest)))
geometry_of (geo_shape (p ∷ rest)) = some (polygon (map position (ring_of p rest)))
geometry_of _ = none

-- The points that a value writes.
abbrev pub points_of : FieldValue → List GeoPoint
points_of (geo_point p) = p ∷ []
points_of (geo_trace ps) = ps
points_of (geo_shape (p ∷ rest)) = ring_of p rest
points_of _ = []

decode-hex :
    (bytes : Bytes) (g : Geometry)
    → All IsByte bytes
    → read_bytes bytes ≡ some g
    → (some (hex bytes) >>= decode) ≡ some g
unfolding decode
decode-hex bytes g h e = rw (unhex-hex bytes h) e

-- The text of a published geometry decodes to the geometry of the value: a point to its longitude and
-- latitude, a trace to its points in order, a shape to one ring, which ends where it starts. A value
-- that is no geometry, or has no points, has no text. The coordinates are 64-bit patterns and the
-- points fewer than 2^32.
pub decode-geometry_wkb_hex :
    (value : FieldValue)
    → length (points_of value) < 2 ^ 32
    → All IsPlaced (points_of value)
    → (geometry_wkb_hex value >>= decode) ≡ geometry_of value
unfolding geometry_wkb_hex
decode-geometry_wkb_hex (geo_point p) small h =
    decode-hex (point_wkb p) _ (point_wkb-IsByte p) (read_bytes-point p h.0)
decode-geometry_wkb_hex (geo_trace []) small h = refl
decode-geometry_wkb_hex (geo_trace (p ∷ rest)) small h =
    decode-hex (linestring_wkb (p ∷ rest)) _ (linestring_wkb-IsByte (p ∷ rest))
      (read_bytes-linestring (p ∷ rest) small h)
decode-geometry_wkb_hex (geo_shape []) small h = refl
decode-geometry_wkb_hex (geo_shape (p ∷ rest)) small h =
    let same = close_ring-ring_of p rest in
    decode-hex (polygon_wkb (p ∷ rest)) _ (polygon_wkb-IsByte (p ∷ rest)) (
      read_bytes-polygon (p ∷ rest) (rw same small) (rw same h)
      ∙ ap (λ ring. some (polygon (map position ring))) same)
decode-geometry_wkb_hex _ small h = refl
