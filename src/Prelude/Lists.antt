-- ===== src/Prelude/Lists.antt =====
-- Lists measured by native numbers, with the iterator adaptors that the program uses.
use Prim.Native.Nat.{ℕ, suc, ◌+◌, ◌≤◌}
use mathlib.Core.Path.{◌≡◌, refl, ap, sym, ◌∙◌}
use mathlib.Core.Logic.{◌⊎◌, inl, inr}
use mathlib.Core.Bool.{Bool, true, false, ◌&&◌, ◌||◌}
use mathlib.Core.Option.{Option, none, some}
use mathlib.Core.List.{List, [], ◌∷◌, ◌++◌, map}
use native.Mathlib.Omega.{arith}
use collecta.Prelude.Tests.{if◌then◌else◌, Bool-cases, true≢false}

module _ {ℓ} {A : Type ℓ} where
  abbrev pub length : List A → ℕ
  length [] = 0
  length (x ∷ xs) = suc (length xs)

  pub length-append : (xs ys : List A) → length (xs ++ ys) ≡ length xs + length ys
  length-append [] ys = omega arith
  length-append (x ∷ xs) ys = omega (arith, length-append xs ys)

  -- `iter().filter(p).collect()`
  abbrev pub keep : (A → Bool) → List A → List A
  keep p [] = []
  keep p (x ∷ xs) = let rest = keep p xs in if p x then x ∷ rest else rest

  -- `iter().find(p)`
  abbrev pub find : (A → Bool) → List A → Option A
  find p [] = none
  find p (x ∷ xs) = if p x then some x else find p xs

  -- `if let Some(item) = items.iter_mut().find(p) { f(item) }`
  abbrev pub modify_first : (A → Bool) → (A → A) → List A → List A
  modify_first p f [] = []
  modify_first p f (x ∷ xs) = let rest = modify_first p f xs in if p x then f x ∷ xs else x ∷ rest

  abbrev pub any : (A → Bool) → List A → Bool
  any p [] = false
  any p (x ∷ xs) = p x || any p xs

  abbrev pub all : (A → Bool) → List A → Bool
  all p [] = true
  all p (x ∷ xs) = p x && all p xs

  -- Every element satisfies `P`.
  abbrev pub All {κ} : (A → Type κ) → List A → Type κ
  All P [] = Unit
  All P (x ∷ xs) = P x × All P xs

  pub length-keep-le : (p : A → Bool) (xs : List A) → length (keep p xs) ≤ length xs
  length-keep-le p [] = omega arith
  length-keep-le p (x ∷ xs) = ground (arith, length-keep-le p xs)

  pub keep-append : (p : A → Bool) (xs ys : List A) → keep p (xs ++ ys) ≡ keep p xs ++ keep p ys
  keep-append p [] ys = refl
  keep-append p (x ∷ xs) ys = ground (arith, keep-append p xs ys)

  pub any-append : (p : A → Bool) (xs ys : List A) → any p (xs ++ ys) ≡ (any p xs || any p ys)
  any-append p [] ys = refl
  any-append p (x ∷ xs) ys = ground (arith, any-append p xs ys)

module _ {ℓ κ} {A : Type ℓ} {B : Type κ} where
  -- `iter().filter_map(f).collect()`
  abbrev pub filter_map : (A → Option B) → List A → List B
  filter_map f [] = []
  filter_map f (x ∷ xs) = elim (f x) [ none ↦ filter_map f xs | some y ↦ y ∷ filter_map f xs ]

  pub filter_map-none :
      (f : A → Option B) (x : A) (xs : List A)
      → f x ≡ none
      → filter_map f (x ∷ xs) ≡ filter_map f xs
  filter_map-none f x xs e = rw (e, filter_map)

  pub filter_map-some :
      (f : A → Option B) (x : A) (y : B) (xs : List A)
      → f x ≡ some y
      → filter_map f (x ∷ xs) ≡ y ∷ filter_map f xs
  filter_map-some f x y xs e = rw (e, filter_map)

  pub length-map : (f : A → B) (xs : List A) → length (map f xs) ≡ length xs
  length-map f [] = refl
  length-map f (x ∷ xs) = ap suc (length-map f xs)

module _ {A : Type 0} where
  -- `x` stands in the list, with its place.
  abbrev pub In : A → List A → Type 0
  In x [] = ⊥
  In x (y ∷ ys) = (x ≡ y) ⊎ In x ys

  pub In-append_left : (x : A) (xs ys : List A) → In x xs → In x (xs ++ ys)
  In-append_left x [] ys h = absurd h
  In-append_left x (y ∷ xs) ys (inl e) = inl e
  In-append_left x (y ∷ xs) ys (inr h) = inr (In-append_left x xs ys h)

  pub append_assoc : (xs ys zs : List A) → (xs ++ ys) ++ zs ≡ xs ++ (ys ++ zs)
  append_assoc [] ys zs = refl
  append_assoc (x ∷ xs) ys zs = ap (λ r. x ∷ r) (append_assoc xs ys zs)

  pub In-append_right : (x : A) (xs ys : List A) → In x ys → In x (xs ++ ys)
  In-append_right x [] ys h = h
  In-append_right x (y ∷ xs) ys h = inr (In-append_right x xs ys h)

  pub All-In : (P : A → Type 0) {x : A} (xs : List A) → All P xs → In x xs → P x
  All-In P [] a h = absurd h
  All-In P (y ∷ xs) a (inl e) = rw e a.0
  All-In P (y ∷ xs) a (inr h) = All-In P xs a.1 h

  pub All-append : (P : A → Type 0) (xs ys : List A) → All P xs → All P ys → All P (xs ++ ys)
  All-append P [] ys a b = b
  All-append P (x ∷ xs) ys a b = (a.0, All-append P xs ys a.1 b)

  pub All-keep : (P : A → Type 0) (p : A → Bool) (xs : List A) → All P xs → All P (keep p xs)
  All-keep P p [] a = a
  All-keep P p (x ∷ xs) a = elim (Bool-cases (p x)) [
    | inl e ↦ rw e (a.0, All-keep P p xs a.1)
    | inr e ↦ rw e (All-keep P p xs a.1)
  ]

  -- Nothing that the filter drops is left, and it drops nothing else.
  pub In-keep : (p : A → Bool) {x : A} (xs : List A) → In x (keep p xs) → In x xs × (p x ≡ true)
  In-keep p [] h = absurd h
  In-keep p {x} (y ∷ xs) h = elim (Bool-cases (p y)) [
    | inl e ↦
        let split : (x ≡ y) ⊎ In x (keep p xs) = rw e at h in
        elim split [
          | inl q ↦ (inl q, rw q e)
          | inr r ↦ let deeper = In-keep p xs r in (inr deeper.0, deeper.1)
        ]
    | inr e ↦ let deeper = In-keep p xs (rw e at h) in (inr deeper.0, deeper.1)
  ]

  pub keep-In : (p : A → Bool) {x : A} (xs : List A) → In x xs → p x ≡ true → In x (keep p xs)
  keep-In p [] h t = absurd h
  keep-In p (y ∷ xs) (inl q) t = rw (ap p (sym q) ∙ t) (inl q)
  keep-In p (y ∷ xs) (inr h) t = elim (Bool-cases (p y)) [
    | inl e ↦ rw e (inr (keep-In p xs h t))
    | inr e ↦ rw e (keep-In p xs h t)
  ]

  pub any-In : (p : A → Bool) (xs : List A) → any p xs ≡ true → (x : A) × In x xs × (p x ≡ true)
  any-In p [] h = absurd (true≢false (sym h))
  any-In p (y ∷ xs) h = elim (Bool-cases (p y)) [
    | inl e ↦ (y, inl refl, e)
    | inr e ↦ let r = any-In p xs (rw e at h) in (r.0, inr r.1, r.2)
  ]

  pub In-any : (p : A → Bool) {x : A} (xs : List A) → In x xs → p x ≡ true → any p xs ≡ true
  In-any p [] h t = absurd h
  In-any p (y ∷ xs) (inl q) t = rw (ap p (sym q) ∙ t)
  In-any p (y ∷ xs) (inr h) t = ground (arith, In-any p xs h t)
