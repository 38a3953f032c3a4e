-- ===== src/Validation/Wildcard.antt =====
-- `simple_pattern_match` of crates/collecta-core/src/validation.rs against a description of the
-- texts that a pattern stands for.
use Prim.Native.Char.{Char, code}
use Prim.Native.String.{[] as nil, ◌∷◌ as ◌∷ₛ◌}
use text.Mathlib.TextEquality.{Char-path}
use text.Mathlib.TextLemmas.{
  nil-append, cons-append, head-eq_of_cons-eq, tail-eq_of_cons-eq, nil≢cons, append-eq-nil_iff,
  append-nil, append_cancel_right,
}
use mathlib.Core.Path.{ap₂}
use collecta.Prelude.{
  String, true, Option, none, some, ◌≡◌, ◌≢◌, ◌↔◌, inl, inr, refl, ap, sym, ==_self, ◌∙◌, ◌+++◌,
  str_eq, some_inj, eq_iff, begins_with, ends_with, strip_first, strip_last, put_first, ==_iff,
  Bool-cases, true≢false, arith, ◌==◌,
}
use collecta.Validation.{simple_pattern_match, prefix_or_exact, suffix_or}

abbrev star : Char
star = "*"

-- Comparing two texts that begin with a character.
cons_parts : {d c : Char} (s p u : String) → d ∷ₛ s ≡ (c ∷ₛ p) +++ u → (d ≡ c) × (s ≡ p +++ u)
cons_parts {c = c} s p u e =
    let flat = e ∙ cons-append c p u in (head-eq_of_cons-eq flat, tail-eq_of_cons-eq flat)

begins_with_iff : (s p : String) → (begins_with s p ≡ true) ↔ ((u : String) × (s ≡ p +++ u))
begins_with_iff s nil = (λ h. (s, sym (nil-append s)), λ h. refl)
begins_with_iff nil (c ∷ₛ p) =
    (λ h. absurd (true≢false (sym h)), λ h. absurd (nil≢cons (h.1 ∙ cons-append c p h.0)))
begins_with_iff (d ∷ₛ s) (c ∷ₛ p) = (
  λ h.
      let deeper = (begins_with_iff s p).0 (ground arith) in
      (
        deeper.0,
        ap₂ ◌∷ₛ◌ (Char-path d c ((==_iff (code d) (code c)).0 (ground arith))) deeper.1
            ∙ sym (cons-append c p deeper.0),
      ),
  λ h.
      let parts = cons_parts s p h.0 h.1 in
      rw (parts.0, ==_self (code c)) ((begins_with_iff s p).1 (h.0, parts.1)),
)

ends_with_iff : (s p : String) → (ends_with s p ≡ true) ↔ ((u : String) × (s ≡ u +++ p))
ends_with_iff nil p = (
  λ h. (nil, (eq_iff nil p).0 h ∙ sym (nil-append p)),
  λ h. (eq_iff nil p).1 (sym ((append-eq-nil_iff {p = h.0} {q = p}).0 (sym h.1)).1),
)
ends_with_iff (d ∷ₛ s) p = (
  λ h. elim (Bool-cases (str_eq (d ∷ₛ s) p)) [
    | inl e ↦ (nil, (eq_iff (d ∷ₛ s) p).0 e ∙ sym (nil-append p))
    | inr e ↦
        let deeper = (ends_with_iff s p).0 (rw e at h) in
        (d ∷ₛ deeper.0, ap (λ t. d ∷ₛ t) deeper.1 ∙ sym (cons-append d deeper.0 p))
  ],
  λ h. covers (ends_with_iff s p) h.0 h.1,
)
  where
    covers :
        (ends_with s p ≡ true) ↔ ((u : String) × (s ≡ u +++ p))
        → (u : String) → d ∷ₛ s ≡ u +++ p
        → ends_with (d ∷ₛ s) p ≡ true
    covers ih nil e = rw ((eq_iff (d ∷ₛ s) p).1 (e ∙ nil-append p))
    covers ih (c ∷ₛ u) e = let found = ih.1 (u, (cons_parts s u p e).1) in ground arith

strip_first_iff : (p q : String) → (strip_first b'*' p ≡ some q) ↔ (p ≡ star ∷ₛ q)
strip_first_iff nil q = (λ h. cc, λ h. absurd (nil≢cons h))
strip_first_iff (d ∷ₛ s) q = (
  λ h. elim (Bool-cases (code d == code star)) [
    | inl e ↦ ap₂ ◌∷ₛ◌ (Char-path d star ((==_iff (code d) (code star)).0 e)) (some_inj (rw e at h))
    | inr e ↦ let none_some : none ≡ some q = rw e at h in cc
  ],
  λ h. rw (head-eq_of_cons-eq h, tail-eq_of_cons-eq h),
)

strip_last-append : (q : String) → strip_last b'*' (q +++ (star ∷ₛ nil)) ≡ some q
strip_last-append nil = refl
strip_last-append (c ∷ₛ nil) = rw (cons-append c nil (star ∷ₛ nil))
strip_last-append (c ∷ₛ (d ∷ₛ s)) =
    let inner : strip_last b'*' (d ∷ₛ (s +++ (star ∷ₛ nil))) ≡ some (d ∷ₛ s) =
      rw (cons-append d s (star ∷ₛ nil)) at (strip_last-append (d ∷ₛ s)) in
    rw (cons-append c (d ∷ₛ s) (star ∷ₛ nil), cons-append d s (star ∷ₛ nil), inner)

put_first-some :
    (c : Char) (o : Option String) (q : String)
    → put_first c o ≡ some q
    → (r : String) × (o ≡ some r) × (c ∷ₛ r ≡ q)
put_first-some c none q h = cc
put_first-some c (some r) q h = (r, refl, some_inj h)

strip_last-some : (p q : String) → strip_last b'*' p ≡ some q → p ≡ q +++ (star ∷ₛ nil)
strip_last-some nil q h = cc
strip_last-some (d ∷ₛ nil) q h = elim (Bool-cases (code d == code star)) [
  | inl e ↦
      let empty : nil ≡ q = some_inj (rw e at h) in
      rw (← empty, nil-append (star ∷ₛ nil))
        (ap (λ t. t ∷ₛ nil) (Char-path d star ((==_iff (code d) (code star)).0 e)))
  | inr e ↦ let none_some : none ≡ some q = rw e at h in cc
]
strip_last-some (c ∷ₛ (d ∷ₛ s)) q h =
    let inner = put_first-some c (strip_last b'*' (d ∷ₛ s)) q h in
    rw (← inner.2, cons-append c inner.0 (star ∷ₛ nil))
      (ap (λ t. c ∷ₛ t) (strip_last-some (d ∷ₛ s) inner.0 inner.1))

-- What a pattern stands for: after a leading star, any text with the rest as its suffix; before a
-- closing star and with no leading one, any text with the rest as its prefix; otherwise itself.
pub data Matches (p t : String) : Type 0 where
  suffix : (s u : String) → p ≡ star ∷ₛ s → t ≡ u +++ s → Matches p t
  prefix :
      (s u : String)
      → ((r : String) → p ≢ star ∷ₛ r)
      → p ≡ s +++ (star ∷ₛ nil)
      → t ≡ s +++ u
      → Matches p t
  exact :
      ((r : String) → p ≢ star ∷ₛ r)
      → ((r : String) → p ≢ r +++ (star ∷ₛ nil))
      → p ≡ t
      → Matches p t

no_star : (p : String) → strip_first b'*' p ≡ none → (r : String) → p ≢ star ∷ₛ r
no_star p h r e = cc (h, (strip_first_iff p r).1 e)

no_last_star : (p : String) → strip_last b'*' p ≡ none → (r : String) → p ≢ r +++ (star ∷ₛ nil)
no_last_star p h r e = let found = strip_last-append r in cc (h, rw (← e) at found)

-- The matcher accepts exactly the texts that the pattern stands for.
pub simple_pattern_match_iff : (p t : String) → (simple_pattern_match p t ≡ true) ↔ Matches p t
unfolding simple_pattern_match
simple_pattern_match_iff p t = elim (Bool-cases (str_eq p "*")) [
  | inl e ↦ (λ h. suffix nil t ((eq_iff p "*").0 e) (sym (append-nil t)), λ h. rw e)
  | inr e ↦ rw e (cases (strip_first b'*' p) refl)
]
  where
    exact_case :
        (o : Option String)
        → strip_last b'*' p ≡ o
        → strip_first b'*' p ≡ none
        → (prefix_or_exact o p t ≡ true) ↔ Matches p t
    exact_case none h f = (
      λ e. exact (no_star p f) (no_last_star p h) ((eq_iff p t).0 e),
      λ m. elim m [
        | suffix s u a b ↦ absurd (no_star p f s a)
        | prefix s u a b c ↦ absurd (no_last_star p h s b)
        | exact a b c ↦ (eq_iff p t).1 c
      ],
    )
    exact_case (some s) h f = (
      λ e.
          let found = (begins_with_iff t s).0 e in
          prefix s found.0 (no_star p f) (strip_last-some p s h) found.1,
      λ m. elim m [
        | suffix r u a b ↦ absurd (no_star p f r a)
        | prefix r u a b c ↦
            let same : s ≡ r =
              append_cancel_right s r (star ∷ₛ nil) (sym (strip_last-some p s h) ∙ b) in
            (begins_with_iff t s).1 (u, rw same c)
        | exact a b c ↦ absurd (b s (strip_last-some p s h))
      ],
    )

    cases : (o : Option String) → strip_first b'*' p ≡ o → (suffix_or o p t ≡ true) ↔ Matches p t
    cases none f = exact_case (strip_last b'*' p) refl f
    cases (some s) f =
        let starred = (strip_first_iff p s).0 f in
        (
          λ e. let found = (ends_with_iff t s).0 e in suffix s found.0 starred found.1,
          λ m. elim m [
            | suffix r u a b ↦
                let same : s ≡ r = tail-eq_of_cons-eq (sym starred ∙ a) in
                (ends_with_iff t s).1 (u, rw same b)
            | prefix r u a b c ↦ absurd (a s starred)
            | exact a b c ↦ absurd (a s starred)
          ],
        )
