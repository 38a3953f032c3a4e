-- ===== src/Publish/Wkb/Reader.antt =====
-- A reader of hexadecimal WKB, from the format and not from the writer of
-- crates/collecta-server/src/publish.rs.
use Prim.Native.Char.{Char, code}
use Prim.Native.String.{[] as nil, ◌∷◌ as ◌∷ₛ◌}
use collecta.Prelude.{
  ℕ, zero, suc, ◌+◌, ◌-◌, ◌*◌, String, Option, none, some, List, [], ◌∷◌, leb, ◌==◌, if◌then◌else◌,
  ◌>>=◌,
}
use collecta.F64.{F64}
use collecta.Publish.Wkb.{Bytes}

-- Longitude and latitude
abbrev pub Position : Type 0
Position = F64 × F64

pub data Geometry : Type 0 where
  point : Position → Geometry
  linestring : List Position → Geometry
  polygon : List Position → Geometry

abbrev pub nibble : Char → ℕ
nibble c = if leb (code c) b'9' then code c - b'0' else code c - b'a' + 10

abbrev pub unhex : String → Bytes
unhex nil = []
unhex (c ∷ₛ nil) = []
unhex (c ∷ₛ (d ∷ₛ s)) = (16 * nibble c + nibble d) ∷ unhex s

unfoldable pub read_le : ℕ → Bytes → Option (ℕ × Bytes)
read_le zero bytes = some (0, bytes)
read_le (suc k) [] = none
read_le (suc k) (b ∷ rest) = read_le k rest >>= λ r. some (b + 256 * r.0, r.1)

unfoldable pub read_position : Bytes → Option (Position × Bytes)
read_position bytes = read_le 8 bytes >>= λ x. read_le 8 x.1 >>= λ y. some ((x.0, y.0), y.1)

unfoldable pub read_positions : ℕ → Bytes → Option (List Position × Bytes)
read_positions zero bytes = some ([], bytes)
read_positions (suc n) bytes =
    read_position bytes >>= λ p. read_positions n p.1 >>= λ r. some (p.0 ∷ r.0, r.1)

unfoldable pub read_counted : Bytes → Option (List Position × Bytes)
read_counted bytes = read_le 4 bytes >>= λ n. read_positions n.0 n.1

abbrev pub whole : {A : Type 0} → A × Bytes → Option A
whole (a, []) = some a
whole (a, b ∷ rest) = none

unfoldable pub read_body : ℕ → Bytes → Option Geometry
read_body kind bytes =
    if kind == 1
    then (read_position bytes >>= λ p. whole p >>= λ x. some (point x))
    else if kind == 2
    then (read_counted bytes >>= λ ps. whole ps >>= λ xs. some (linestring xs))
    else if kind == 3
    then (read_le 4 bytes >>= λ rings.
        if rings.0 == 1
        then (read_counted rings.1 >>= λ ps. whole ps >>= λ xs. some (polygon xs))
        else none)
    else none

unfoldable pub read_bytes : Bytes → Option Geometry
read_bytes [] = none
read_bytes (order ∷ rest) =
    if order == 1 then (read_le 4 rest >>= λ kind. read_body kind.0 kind.1) else none

unfoldable pub decode : String → Option Geometry
decode s = read_bytes (unhex s)
