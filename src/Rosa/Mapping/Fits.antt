-- ===== src/Rosa/Mapping/Fits.antt =====
-- The types of what `coerce` of crates/collecta-server/src/openrosa/instance.rs makes.
use collecta.Prelude.{
  String, Bool, true, false, ◌&&◌, ◌||◌, not, Option, none, some, List, [], ◌∷◌, ◌≡◌, ◌⊎◌, refl,
  sym, All, map, keep, str_eq, trim, split_whitespace, split_on, Bool-cases, Option-cases, some_inj,
  inl, inr, if◌then◌else◌,
}
use collecta.F64.{F64, ℤ, negsuc, pos, FloatText}
use collecta.Int64.{parse_i64}
use collecta.Int64.Range.{IsI64, parse_i64-IsI64}
use collecta.Values.{
  GeoPoint, FieldValue, text, integer, decimal, boolean, date, date_time, time, choice,
  multi_choice, geo_point, geo_trace, geo_shape, barcode, null,
}
use collecta.Form.{FieldInfo, FieldType}
use collecta.Rosa.Result.{ok, err, ok_inj}
use collecta.Rosa.Mapping.{
  within, next_float, rest_of, point_from, point_of_words, geopoint, all_points, geopoints, bad,
  made, coerce_as, coerce,
}

-- A place on the globe.
abbrev pub IsPlace : GeoPoint → Type 0
IsPlace p =
    (within (negsuc 89) (pos 90) p.latitude ≡ true)
    × (within (negsuc 179) (pos 180) p.longitude ≡ true)

-- The answers of a type of field.
abbrev pub IsAnswer : FieldType → FieldValue → Type 0
IsAnswer FieldType.integer v = (n : ℤ) × (v ≡ integer n) × IsI64 n
IsAnswer FieldType.decimal v = (x : F64) × (v ≡ decimal x)
IsAnswer FieldType.boolean v = (b : Bool) × (v ≡ boolean b)
IsAnswer FieldType.date v = (s : String) × (v ≡ date s)
IsAnswer FieldType.date_time v = (s : String) × (v ≡ date_time s)
IsAnswer FieldType.time v = (s : String) × (v ≡ time s)
IsAnswer FieldType.select v = (s : String) × (v ≡ choice s)
IsAnswer FieldType.multi_select v = (ss : List String) × (v ≡ multi_choice ss)
IsAnswer FieldType.geo_point v = (p : GeoPoint) × (v ≡ geo_point p) × IsPlace p
IsAnswer FieldType.geo_trace v = (ps : List GeoPoint) × (v ≡ geo_trace ps) × All IsPlace ps
IsAnswer FieldType.geo_shape v = (ps : List GeoPoint) × (v ≡ geo_shape ps) × All IsPlace ps
IsAnswer FieldType.barcode v = (s : String) × (v ≡ barcode s)
IsAnswer FieldType.repeat v = ⊥
IsAnswer _ v = (s : String) × (v ≡ text s)

-- A value that a field of a type may hold: none, or an answer of the type.
abbrev pub Fits : FieldType → FieldValue → Type 0
Fits t v = (v ≡ null) ⊎ IsAnswer t v

made-some :
    {A : Type 0} (f : A → FieldValue) (o : Option A) (e : String) (v : FieldValue)
    → made f o e ≡ ok v
    → (a : A) × (o ≡ some a) × (v ≡ f a)
made-some f none e v h = cc
made-some f (some a) e v h = (a, refl, sym (ok_inj h))

both : (a b : Bool) → (a && b) ≡ true → (a ≡ true) × (b ≡ true)
both true b h = (refl, h)
both false b h = cc

point_from-IsPlace :
    (floats : FloatText) (a b : Option F64) (more : List String) (p : GeoPoint)
    → point_from floats a b more ≡ some p
    → IsPlace p
point_from-IsPlace floats none b more p h = cc
point_from-IsPlace floats (some a) none more p h = cc
point_from-IsPlace floats (some a) (some b) more p h =
    elim (Bool-cases (within (negsuc 89) (pos 90) a && within (negsuc 179) (pos 180) b)) [
      | inl e ↦ rw (← some_inj (rw e at h)) (both _ _ e)
      | inr e ↦ cc (rw e at h)
    ]

module _ (floats : FloatText) where
  geopoint-IsPlace : (s : String) (p : GeoPoint) → geopoint floats s ≡ some p → IsPlace p
  unfolding geopoint point_of_words
  geopoint-IsPlace s p h =
      let words = split_whitespace s in
      point_from-IsPlace floats (next_float floats.parse words)
        (next_float floats.parse (rest_of words)) (rest_of (rest_of words)) p h

  all_points-IsPlace :
      (parts : List String) (ps : List GeoPoint)
      → all_points floats parts ≡ some ps
      → All IsPlace ps
  unfolding all_points
  all_points-IsPlace [] ps h = rw (← some_inj h) tt
  all_points-IsPlace (s ∷ rest) ps h = elim (Option-cases (geopoint floats s)) [
    | inl e ↦ cc (rw e at h)
    | inr (p, e) ↦ elim (Option-cases (all_points floats rest)) [
      | inl q ↦ cc (rw (e, q) at h)
      | inr (more, q) ↦
          let same : some (p ∷ more) ≡ some ps = rw (e, q) at h in
          rw (← some_inj same) (geopoint-IsPlace s p e, all_points-IsPlace rest more q)
    ]
  ]

  geopoints-IsPlace :
      (s : String) (ps : List GeoPoint) → geopoints floats s ≡ some ps → All IsPlace ps
  unfolding geopoints
  geopoints-IsPlace s ps h =
      all_points-IsPlace (keep (λ part. not (str_eq part "")) (map trim (split_on b';' s))) ps h

  coerce_as-IsAnswer :
      (t : FieldType) (name s : String) (v : FieldValue)
      → coerce_as floats t name s ≡ ok v
      → Fits t v
  unfolding coerce_as
  coerce_as-IsAnswer FieldType.text name s v h = inr (s, sym (ok_inj h))
  coerce_as-IsAnswer FieldType.text_area name s v h = inr (s, sym (ok_inj h))
  coerce_as-IsAnswer FieldType.note name s v h = inr (s, sym (ok_inj h))
  coerce_as-IsAnswer FieldType.integer name s v h =
      let m = made-some integer (parse_i64 s) _ v h in inr (m.0, m.2, parse_i64-IsI64 s m.0 m.1)
  coerce_as-IsAnswer FieldType.decimal name s v h =
      let m = made-some decimal (floats.parse s) _ v h in inr (m.0, m.2)
  coerce_as-IsAnswer FieldType.boolean name s v h =
      truth (str_eq s "true" || str_eq s "1") (str_eq s "false" || str_eq s "0") h
    where
      truth :
          (yes_b no_b : Bool)
          → (if yes_b
              then ok (boolean true)
              else if no_b
              then ok (boolean false)
              else err (bad name "boolean"))
            ≡ ok v
          → Fits FieldType.boolean v
      truth true no_b e = inr (true, sym (ok_inj e))
      truth false true e = inr (false, sym (ok_inj e))
      truth false false e = cc
  coerce_as-IsAnswer FieldType.date name s v h = inr (s, sym (ok_inj h))
  coerce_as-IsAnswer FieldType.date_time name s v h = inr (s, sym (ok_inj h))
  coerce_as-IsAnswer FieldType.time name s v h = inr (s, sym (ok_inj h))
  coerce_as-IsAnswer FieldType.select name s v h = inr (s, sym (ok_inj h))
  coerce_as-IsAnswer FieldType.multi_select name s v h = inr (split_whitespace s, sym (ok_inj h))
  coerce_as-IsAnswer FieldType.geo_point name s v h =
      let m = made-some geo_point (geopoint floats s) _ v h in
      inr (m.0, m.2, geopoint-IsPlace s m.0 m.1)
  coerce_as-IsAnswer FieldType.geo_trace name s v h =
      let m = made-some geo_trace (geopoints floats s) _ v h in
      inr (m.0, m.2, geopoints-IsPlace s m.0 m.1)
  coerce_as-IsAnswer FieldType.geo_shape name s v h =
      let m = made-some geo_shape (geopoints floats s) _ v h in
      inr (m.0, m.2, geopoints-IsPlace s m.0 m.1)
  coerce_as-IsAnswer FieldType.barcode name s v h = inr (s, sym (ok_inj h))
  coerce_as-IsAnswer FieldType.photo name s v h = inr (s, sym (ok_inj h))
  coerce_as-IsAnswer FieldType.audio name s v h = inr (s, sym (ok_inj h))
  coerce_as-IsAnswer FieldType.video name s v h = inr (s, sym (ok_inj h))
  coerce_as-IsAnswer FieldType.file name s v h = inr (s, sym (ok_inj h))
  coerce_as-IsAnswer FieldType.signature name s v h = inr (s, sym (ok_inj h))
  coerce_as-IsAnswer FieldType.repeat name s v h = inl (sym (ok_inj h))

  pub coerce-Fits :
      (raw : String) (f : FieldInfo) (v : FieldValue)
      → coerce floats raw f ≡ ok v
      → Fits f.field_type v
  unfolding coerce
  coerce-Fits raw f v h = elim (Bool-cases (str_eq (trim raw) "")) [
    | inl e ↦ inl (sym (ok_inj (rw e at h)))
    | inr e ↦ coerce_as-IsAnswer f.field_type f.name (trim raw) v (rw e at h)
  ]
