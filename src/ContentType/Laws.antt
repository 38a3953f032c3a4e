-- ===== src/ContentType/Laws.antt =====
-- What `recorded_content_type` of crates/collecta-server/src/attachment.rs can answer.
use mathlib.Core.Path.{subst}
use collecta.Prelude.{
  String, Bool, true, Option, none, some, List, [], ◌∷◌, ◌≡◌, ◌⊎◌, refl, sym, ap, ◌∙◌, In, All,
  All-In, split_on, trim, find, eq_ignore_case, inl, inr, Bool-cases,
}
use collecta.ContentType.{
  opaque_content_type, capture_content_types, recorded_content_type, media_type, or_opaque,
}

find-In :
    {A : Type 0} (p : A → Bool) (xs : List A)
    → (find p xs ≡ none) ⊎ ((x : A) × In x xs × (p x ≡ true) × (find p xs ≡ some x))
find-In p [] = inl refl
find-In p (x ∷ xs) = elim (Bool-cases (p x)) [
  | inl e ↦ inr (x, inl refl, e, rw e)
  | inr e ↦ elim (find-In p xs) [
    | inl n ↦ inl (rw e n)
    | inr (y, i, q, s) ↦ inr (y, inr i, q, rw e s)
  ]
]

fixed : All (λ c. recorded_content_type c ≡ c) capture_content_types
unfolding recorded_content_type media_type split_on trim
fixed = (
  refl,
  (
    refl,
    (
      refl,
      (
        refl,
        (refl, (refl, (refl, (refl, (refl, (refl, (refl, (refl, (refl, (refl, (refl, tt))))))))))),
      ),
    ),
  ),
)

fixed_opaque : recorded_content_type opaque_content_type ≡ opaque_content_type
unfolding recorded_content_type media_type split_on trim
fixed_opaque = refl

-- Whatever the device claims, what is recorded is a constant of the server: the opaque type, or a
-- capture type that the claim names, up to case, before its first semicolon. And recording what was
-- recorded changes nothing.
pub recorded_content_type-safe :
    (claimed : String)
    → ((recorded_content_type claimed ≡ opaque_content_type)
        ⊎ (In (recorded_content_type claimed) capture_content_types
            × (eq_ignore_case (recorded_content_type claimed) (media_type claimed) ≡ true)))
      × (recorded_content_type (recorded_content_type claimed) ≡ recorded_content_type claimed)
unfolding recorded_content_type
recorded_content_type-safe claimed =
    elim (find-In (λ capture. eq_ignore_case capture (media_type claimed)) capture_content_types) [
      | inl e ↦ (
        inl (ap or_opaque e),
        ap (λ (o : Option String). recorded_content_type (or_opaque o)) e
            ∙ fixed_opaque
            ∙ sym (ap or_opaque e),
      )
      | inr (c, i, q, s) ↦ (
        inr (
            subst (λ x. In x capture_content_types × (eq_ignore_case x (media_type claimed) ≡ true))
              (sym (ap or_opaque s)) (i, q)),
        ap (λ (o : Option String). recorded_content_type (or_opaque o)) s
            ∙ All-In (λ x. recorded_content_type x ≡ x) capture_content_types fixed i
            ∙ sym (ap or_opaque s),
      )
    ]
