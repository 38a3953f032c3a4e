-- ===== src/Publish/Fresh.antt =====
-- Lists with no repetition, and what `Store::record_published` of
-- crates/collecta-server/src/store.rs appends for ids that are new.
use collecta.Prelude.{
  append_assoc, true, List, [], ◌∷◌, ◌++◌, ◌≡◌, ◌⊎◌, refl, ap, sym, ◌∙◌, map, In, In-append_left,
  In-append_right, Bool-cases, inl, inr, arith, ==_iff, ◌==◌,
}
use collecta.Values.{Uuid, Instant}
use collecta.Server.{PublishedRow}
use collecta.Server.PublishTable.{is_published, record_one, record_rows}

unfoldable pub NoDup : List Uuid → Type 0
NoDup [] = Unit
NoDup (x ∷ xs) = (¬ In x xs) × NoDup xs

In-append : (x : Uuid) (xs ys : List Uuid) → In x (xs ++ ys) → In x xs ⊎ In x ys
In-append x [] ys h = inr h
In-append x (y ∷ xs) ys (inl e) = inl (inl e)
In-append x (y ∷ xs) ys (inr h) = elim (In-append x xs ys h) [ inl i ↦ inl (inr i) | inr i ↦ inr i ]

pub NoDup-append :
    (xs ys : List Uuid)
    → NoDup xs
    → NoDup ys
    → ((x : Uuid) → In x ys → ¬ In x xs)
    → NoDup (xs ++ ys)
unfolding NoDup
NoDup-append [] ys n m apart = m
NoDup-append (x ∷ xs) ys n m apart = (
  λ h. elim (In-append x xs ys h) [ inl i ↦ n.0 i | inr i ↦ apart x i (inl refl) ],
  NoDup-append xs ys n.1 m (λ y i j. apart y i (inr j)),
)

pub NoDup-left : (xs ys : List Uuid) → NoDup (xs ++ ys) → NoDup xs
unfolding NoDup
NoDup-left [] ys n = tt
NoDup-left (x ∷ xs) ys n = (λ i. n.0 (In-append_left x xs ys i), NoDup-left xs ys n.1)

-- What follows a list without repetition is not in it.
NoDup-apart : (xs ys : List Uuid) (x : Uuid) → NoDup (xs ++ (x ∷ ys)) → ¬ In x xs
unfolding NoDup
NoDup-apart [] ys x n i = absurd i
NoDup-apart (y ∷ xs) ys x n (inl e) = n.0 (rw (← e) (In-append_right x xs (x ∷ ys) (inl refl)))
NoDup-apart (y ∷ xs) ys x n (inr i) = NoDup-apart xs ys x n.1 i

abbrev pub ids_of : List PublishedRow → List Uuid
ids_of rows = map (λ r. r.submission_id) rows

pub In-ids_of :
    (id : Uuid) (rows : List PublishedRow) → is_published rows id ≡ true → In id (ids_of rows)
In-ids_of id [] h = cc
In-ids_of id (r ∷ rows) h = elim (Bool-cases (r.submission_id == id)) [
  | inl e ↦ inl (sym ((==_iff r.submission_id id).0 e))
  | inr e ↦ inr (In-ids_of id rows (rw e at h))
]

pub is_published-In :
    (id : Uuid) (rows : List PublishedRow) → In id (ids_of rows) → is_published rows id ≡ true
is_published-In id [] i = absurd i
is_published-In id (r ∷ rows) (inl e) = rw ((==_iff r.submission_id id).1 (sym e))
is_published-In id (r ∷ rows) (inr i) = ground (arith, is_published-In id rows i)

ids_of-append : (xs ys : List PublishedRow) → ids_of (xs ++ ys) ≡ ids_of xs ++ ids_of ys
ids_of-append [] ys = refl
ids_of-append (x ∷ xs) ys = ap (λ r. x.submission_id ∷ r) (ids_of-append xs ys)

ids_of-record_one :
    (form_id : Uuid) (now : Instant) (id : Uuid) (rows : List PublishedRow)
    → ¬ In id (ids_of rows)
    → ids_of (record_one form_id now id rows) ≡ ids_of rows ++ (id ∷ [])
ids_of-record_one form_id now id rows new = elim (Bool-cases (is_published rows id)) [
  | inl e ↦ absurd (new (In-ids_of id rows e))
  | inr e ↦ rw e (
      ids_of-append rows
        (record { submission_id = id; form_id = form_id; published_at = now } ∷ []))
]

-- New ids, none of them twice, are all recorded, after the old ones and in their order.
pub ids_of-record_rows :
    (form_id : Uuid) (now : Instant) (ids : List Uuid) (rows : List PublishedRow)
    → NoDup (ids_of rows ++ ids)
    → ids_of (record_rows form_id now ids rows) ≡ ids_of rows ++ ids
unfolding record_rows
ids_of-record_rows form_id now [] rows n = sym (append_nil (ids_of rows))
  where
    append_nil : (xs : List Uuid) → xs ++ [] ≡ xs
    append_nil [] = refl
    append_nil (x ∷ xs) = ap (λ r. x ∷ r) (append_nil xs)
ids_of-record_rows form_id now (id ∷ ids) rows n =
    let one = ids_of-record_one form_id now id rows (NoDup-apart (ids_of rows) ids id n) in
    ids_of-record_rows form_id now ids (record_one form_id now id rows)
      (rw (one, append_assoc (ids_of rows) (id ∷ []) ids) n)
    ∙ ap (λ r. r ++ ids) one
    ∙ append_assoc (ids_of rows) (id ∷ []) ids
