-- ===== src/Publish/Wkb/Hex.antt =====
-- The hexadecimal text of bytes and back, and that what crates/collecta-server/src/publish.rs writes are
-- bytes.
use collecta.Prelude.{
  ℕ, zero, suc, ◌/◌, ◌%◌, ◌^◌, ◌<◌, List, [], ◌∷◌, ◌≡◌, refl, ap, length, All, All-append, arith,
}
use collecta.Values.{GeoPoint}
use collecta.Publish.Wkb.{
  Bytes, hex_digit, hex, le_bytes, wkb_header, push_coordinates, push_each, push_points, close_ring,
  point_wkb, linestring_wkb, polygon_wkb,
}
use collecta.Publish.Wkb.Reader.{nibble, unhex}

nibble-hex_digit : (n : ℕ) → n < 16 → nibble (hex_digit n) ≡ n
unfolding hex_digit
nibble-hex_digit zero h = refl
nibble-hex_digit (suc zero) h = refl
nibble-hex_digit (suc (suc zero)) h = refl
nibble-hex_digit (suc (suc (suc zero))) h = refl
nibble-hex_digit (suc (suc (suc (suc zero)))) h = refl
nibble-hex_digit (suc (suc (suc (suc (suc zero))))) h = refl
nibble-hex_digit (suc (suc (suc (suc (suc (suc zero)))))) h = refl
nibble-hex_digit (suc (suc (suc (suc (suc (suc (suc zero))))))) h = refl
nibble-hex_digit (suc (suc (suc (suc (suc (suc (suc (suc zero)))))))) h = refl
nibble-hex_digit (suc (suc (suc (suc (suc (suc (suc (suc (suc zero))))))))) h = refl
nibble-hex_digit (suc (suc (suc (suc (suc (suc (suc (suc (suc (suc zero)))))))))) h = refl
nibble-hex_digit (suc (suc (suc (suc (suc (suc (suc (suc (suc (suc (suc zero))))))))))) h = refl
nibble-hex_digit (suc (suc (suc (suc (suc (suc (suc (suc (suc (suc (suc (suc zero)))))))))))) h =
    refl
nibble-hex_digit (suc (suc (suc (suc (suc (suc (suc (suc (suc (suc (suc (suc (suc zero)))))))))))))
      h =
    refl
nibble-hex_digit
      (suc (suc (suc (suc (suc (suc (suc (suc (suc (suc (suc (suc (suc (suc zero)))))))))))))) h =
    refl
nibble-hex_digit
      (suc (suc (suc (suc (suc (suc (suc (suc (suc (suc (suc (suc (suc (suc (suc zero)))))))))))))))
      h =
    refl
nibble-hex_digit
      (suc
        (suc (suc (suc (suc (suc (suc (suc (suc (suc (suc (suc (suc (suc (suc (suc n))))))))))))))))
      h =
    absurd (omega (arith, h))

abbrev pub IsByte : ℕ → Type 0
IsByte b = b < 256

pub unhex-hex : (bytes : Bytes) → All IsByte bytes → unhex (hex bytes) ≡ bytes
unfolding hex
unhex-hex [] h = refl
unhex-hex (b ∷ rest) h =
    rw
      (
        nibble-hex_digit (b / 16) (omega (arith, h.0)),
        nibble-hex_digit (b % 16) (omega arith),
        unhex-hex rest h.1,
      )
      (ap (λ c. c ∷ rest) (omega arith))

le_bytes-IsByte : (k n : ℕ) → All IsByte (le_bytes k n)
unfolding le_bytes
le_bytes-IsByte zero n = tt
le_bytes-IsByte (suc k) n = (omega arith, le_bytes-IsByte k (n / 256))

wkb_header-IsByte : (kind : ℕ) → All IsByte (wkb_header kind)
unfolding wkb_header
wkb_header-IsByte kind = (omega arith, le_bytes-IsByte 4 kind)

push_coordinates-IsByte : (p : GeoPoint) → All IsByte (push_coordinates p)
unfolding push_coordinates
push_coordinates-IsByte p =
    All-append IsByte (le_bytes 8 p.longitude) _ (le_bytes-IsByte 8 p.longitude)
      (le_bytes-IsByte 8 p.latitude)

push_each-IsByte : (ps : List GeoPoint) → All IsByte (push_each ps)
unfolding push_each
push_each-IsByte [] = tt
push_each-IsByte (p ∷ ps) =
    All-append IsByte (push_coordinates p) _ (push_coordinates-IsByte p) (push_each-IsByte ps)

push_points-IsByte : (ps : List GeoPoint) → All IsByte (push_points ps)
unfolding push_points
push_points-IsByte ps =
    All-append IsByte (le_bytes 4 (length ps % 2 ^ 32)) _ (le_bytes-IsByte 4 (length ps % 2 ^ 32))
      (push_each-IsByte ps)

pub point_wkb-IsByte : (p : GeoPoint) → All IsByte (point_wkb p)
unfolding point_wkb
point_wkb-IsByte p =
    All-append IsByte (wkb_header 1) _ (wkb_header-IsByte 1) (push_coordinates-IsByte p)

pub linestring_wkb-IsByte : (ps : List GeoPoint) → All IsByte (linestring_wkb ps)
unfolding linestring_wkb
linestring_wkb-IsByte ps =
    All-append IsByte (wkb_header 2) _ (wkb_header-IsByte 2) (push_points-IsByte ps)

pub polygon_wkb-IsByte : (ps : List GeoPoint) → All IsByte (polygon_wkb ps)
unfolding polygon_wkb
polygon_wkb-IsByte ps =
    All-append IsByte (wkb_header 3) _ (wkb_header-IsByte 3) (
      All-append IsByte (le_bytes 4 1) _ (le_bytes-IsByte 4 1) (push_points-IsByte (close_ring ps)))
