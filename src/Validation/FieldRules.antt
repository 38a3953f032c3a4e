-- ===== src/Validation/FieldRules.antt =====
-- What the constraints of a field ask of its answer, against the constraint checks of
-- crates/collecta-core/src/validation.rs.
use Prim.Native.String
use collecta.Prelude.{
  ℕ, ◌≤◌, String, Bool, true, false, not, Option, none, some, List, [], ◌∷◌, ◌++◌, ◌≡◌, ◌≢◌, ◌⊎◌,
  ◌↔◌, ltb, inl, inr, refl, ap, sym, ◌∙◌, str_eq, eq_iff, any, filter_map, All, In, Bool-cases,
  true≢false, some_inj, arith,
}
use collecta.F64.{F64, ℤ, lt, of_i64}
use collecta.Values.{FieldValue, text, integer, decimal, choice, null}
use collecta.Form.{Constraint, ConstraintKind, min, max, min_length, max_length, pattern_of, one_of}
use collecta.Validation.{
  is_unanswered, extract_number, extract_length, simple_pattern_match, violates, check_constraint,
  check_value, on_some, fails_pattern, fails_one_of,
}
use collecta.Validation.Wildcard.{Matches, simple_pattern_match_iff}

-- The number of an integer or a decimal answer; no other answer has one.
abbrev pub IsNumber : FieldValue → F64 → Type 0
IsNumber value x = ((n : ℤ) × (value ≡ integer n) × (x ≡ of_i64 n)) ⊎ (value ≡ decimal x)

-- What each constraint asks of a value: bounds of an integer or a decimal, of the bytes of a text, a
-- pattern of a text, a list of a text or a choice; it asks nothing of a value of another kind.
abbrev pub Satisfies : ConstraintKind → FieldValue → Type 0
Satisfies (min least) value = (x : F64) → IsNumber value x → lt x least ≡ false
Satisfies (max most) value = (x : F64) → IsNumber value x → lt most x ≡ false
Satisfies (min_length least) value = (s : String) → value ≡ text s → least ≤ String.len s
Satisfies (max_length most) value = (s : String) → value ≡ text s → String.len s ≤ most
Satisfies (pattern_of p) value = (s : String) → value ≡ text s → Matches p s
Satisfies (one_of allowed) value =
    (s : String) → (value ≡ text s) ⊎ (value ≡ choice s) → In s allowed

bool_false : (b : Bool) → not b ≡ false → b ≡ true
bool_false true h = refl
bool_false false h = absurd (true≢false h)

-- A test of the number of an answer fails exactly if it fails for every number that the answer is.
IsNumber-fine :
    (t : F64 → Bool) (value : FieldValue)
    → (on_some t (extract_number value) ≡ false) ↔ ((x : F64) → IsNumber value x → t x ≡ false)
unfolding extract_number
IsNumber-fine t (integer n) = (
  λ h x e. elim e [ inl (m, q, r) ↦ let same : n ≡ m = cc in rw (r, ← same) h | inr q ↦ cc ],
  λ h. h (of_i64 n) (inl (n, refl, refl)),
)
IsNumber-fine t (decimal y) = (
  λ h x e. elim e [ inl (m, q, r) ↦ cc | inr q ↦ let same : y ≡ x = cc in rw (← same) h ],
  λ h. h y (inr refl),
)
IsNumber-fine t v = (λ h x e. elim e [ inl (m, q, r) ↦ cc | inr q ↦ cc ], λ h. refl)

length_fine :
    (t : ℕ → Bool) (value : FieldValue)
    → (on_some t (extract_length value) ≡ false)
      ↔ ((s : String) → value ≡ text s → t (String.len s) ≡ false)
unfolding extract_length
length_fine t (text w) = (λ h s e. let same : w ≡ s = cc in rw (← same) h, λ h. h w refl)
length_fine t v = (λ h s e. cc, λ h. refl)

any_eq_iff : (s : String) (xs : List String) → (any (λ a. str_eq a s) xs ≡ true) ↔ In s xs
any_eq_iff s [] = (λ h. absurd (true≢false (sym h)), λ h. absurd h)
any_eq_iff s (x ∷ xs) = (
  λ h. elim (Bool-cases (str_eq x s)) [
    | inl e ↦ inl (sym ((eq_iff x s).0 e))
    | inr e ↦ inr ((any_eq_iff s xs).0 (rw e at h))
  ],
  λ h. elim h [
    | inl e ↦ rw ((eq_iff x s).1 (sym e))
    | inr later ↦ let found = (any_eq_iff s xs).1 later in ground arith
  ],
)

pattern_fine :
    (p : String) (value : FieldValue)
    → (fails_pattern p value ≡ false) ↔ ((s : String) → value ≡ text s → Matches p s)
pattern_fine p (text t) = (
  λ h s e.
      let same : t ≡ s = cc in
      (simple_pattern_match_iff p s).0 (rw same at (bool_false (simple_pattern_match p t) h)),
  λ h. rw ((simple_pattern_match_iff p t).1 (h t refl)),
)
pattern_fine p v = (λ h s e. cc, λ h. refl)

one_of_fine :
    (allowed : List String) (value : FieldValue)
    → (fails_one_of allowed value ≡ false)
      ↔ ((s : String) → (value ≡ text s) ⊎ (value ≡ choice s) → In s allowed)
one_of_fine allowed (text t) = (
  λ h s e.
      let same : t ≡ s = elim e [ inl q ↦ cc | inr q ↦ cc ] in
      (any_eq_iff s allowed).0 (rw same at (bool_false _ h)),
  λ h. rw ((any_eq_iff t allowed).1 (h t (inl refl))),
)
one_of_fine allowed (choice t) = (
  λ h s e.
      let same : t ≡ s = elim e [ inl q ↦ cc | inr q ↦ cc ] in
      (any_eq_iff s allowed).0 (rw same at (bool_false _ h)),
  λ h. rw ((any_eq_iff t allowed).1 (h t (inr refl))),
)
one_of_fine allowed v = (λ h s e. elim e [ inl q ↦ cc | inr q ↦ cc ], λ h. refl)

-- The test of each kind of constraint rejects exactly the values that break it.
pub violates_iff : (k : ConstraintKind) (v : FieldValue) → (violates k v ≡ false) ↔ Satisfies k v
unfolding violates
violates_iff (min least) v = IsNumber-fine (λ x. lt x least) v
violates_iff (max most) v = IsNumber-fine (λ x. lt most x) v
violates_iff (min_length least) v = (
  λ h s e. let short = (length_fine (λ n. ltb n least) v).0 h s e in ground arith,
  λ h. (length_fine (λ n. ltb n least) v).1 (λ s e. let fits = h s e in ground arith),
)
violates_iff (max_length most) v = (
  λ h s e. let long = (length_fine (λ n. ltb most n) v).0 h s e in ground arith,
  λ h. (length_fine (λ n. ltb most n) v).1 (λ s e. let fits = h s e in ground arith),
)
violates_iff (pattern_of p) v = pattern_fine p v
violates_iff (one_of allowed) v = one_of_fine allowed v

-- There is an answer that is neither null nor the empty text.
abbrev pub IsAnswered : Option FieldValue → Type 0
IsAnswered o = (v : FieldValue) × (o ≡ some v) × (v ≢ null) × (v ≢ text "")

pub is_unanswered_iff : (o : Option FieldValue) → (is_unanswered o ≡ false) ↔ IsAnswered o
unfolding is_unanswered
is_unanswered_iff none = (λ h. absurd (true≢false h), λ (v, e, n, t). cc)
is_unanswered_iff (some null) =
    (λ h. absurd (true≢false h), λ (v, e, n, t). absurd (n (sym (some_inj e))))
is_unanswered_iff (some (text s)) = (
  λ h. (
    text s,
    refl,
    (λ e. cc),
    λ e. let empty : s ≡ "" = cc in absurd (true≢false (sym ((eq_iff s "").1 empty) ∙ h)),
  ),
  λ (v, e, n, t). elim (Bool-cases (str_eq s "")) [
    | inl q ↦ absurd (t (sym (some_inj e) ∙ ap text ((eq_iff s "").0 q)))
    | inr q ↦ q
  ],
)
is_unanswered_iff (some v) = (λ h. (v, refl, (λ e. cc), λ e. cc), λ h. refl)

pub append-eq-nil {ℓ} : {A : Type ℓ} (xs ys : List A) → ((xs ++ ys) ≡ []) ↔ ((xs ≡ []) × (ys ≡ []))
append-eq-nil [] ys = (λ h. (refl, h), λ h. h.1)
append-eq-nil (x ∷ xs) ys = (λ h. cc, λ h. cc)

constraints_iff :
    (path : String) (v : FieldValue) (cs : List Constraint)
    → (filter_map (check_constraint path v) cs ≡ []) ↔ All (λ c. Satisfies c.kind v) cs
unfolding check_constraint
constraints_iff path v [] = (λ h. tt, λ h. refl)
constraints_iff path v (c ∷ cs) = elim (Bool-cases (violates c.kind v)) [
  | inl e ↦ (
    λ h. cc (rw (e, filter_map) at h),
    λ h. absurd (true≢false (sym e ∙ (violates_iff c.kind v).1 h.0)),
  )
  | inr e ↦
      rw (e, filter_map)
        (
          λ h. ((violates_iff c.kind v).0 e, (constraints_iff path v cs).0 h),
          λ h. (constraints_iff path v cs).1 h.1,
        )
]

-- What the constraints ask of an answer; an absent or null one is asked nothing.
abbrev pub AnswerOk : List Constraint → Option FieldValue → Type 0
AnswerOk cs o = (v : FieldValue) → o ≡ some v → v ≢ null → All (λ c. Satisfies c.kind v) cs

pub check_value_iff :
    (path : String) (cs : List Constraint) (o : Option FieldValue)
    → (check_value path cs o ≡ []) ↔ AnswerOk cs o
unfolding check_value
check_value_iff path cs none = (λ h v e. cc, λ h. refl)
check_value_iff path cs (some null) = (λ h v e ne. absurd (ne (sym (some_inj e))), λ h. refl)
check_value_iff path cs (some v) = (
  λ h w e ne. rw (← some_inj e) ((constraints_iff path v cs).0 h),
  λ h. (constraints_iff path v cs).1 (h v refl (λ q. cc)),
)
