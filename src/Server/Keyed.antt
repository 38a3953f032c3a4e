-- ===== src/Server/Keyed.antt =====
-- The keys of the forms table under `Store::insert_form` and `Store::delete_form` of
-- crates/collecta-server/src/store.rs.
use collecta.Prelude.{
  ℕ, ◌+◌, Bool, false, ◌||◌, List, [], ◌∷◌, ◌≡◌, ◌⊎◌, refl, ap, sym, ◌∙◌, map, any, In, In-any, All,
  All-In, Bool-cases, true≢false, ==_iff, inl, inr, arith, ◌==◌,
}
use collecta.Values.{Uuid, Instant}
use collecta.Form.{Form}
use collecta.Server.{FormRow, Db}
use collecta.Server.FormTable.{FormWriter, upsert_form, insert_form, overwritten, may_overwrite}
use collecta.Server.SubmissionTable.{delete_form, tombstone}

abbrev pub has_row : Uuid → List FormRow → Bool
has_row id rows = any (λ r. r.id == id) rows

unfoldable pub Distinct : List FormRow → Type 0
Distinct [] = Unit
Distinct (row ∷ rows) = (has_row row.id rows ≡ false) × Distinct rows

-- No two rows have one id, and each holds a definition of its own id.
pub record IsKeyed (rows : List FormRow) : Type 0 where
  pub distinct : Distinct rows
  pub own_ids : All (λ row. row.form.id ≡ row.id) rows

pub unique :
    (a b : FormRow) (rows : List FormRow)
    → IsKeyed rows
    → In a rows
    → In b rows
    → a.id ≡ b.id
    → a ≡ b
unfolding Distinct
unique a b rows v = go rows v.distinct
  where
    go : (rows : List FormRow) → Distinct rows → In a rows → In b rows → a.id ≡ b.id → a ≡ b
    go [] d i j e = absurd i
    go (row ∷ rows) d (inl p) (inl q) e = p ∙ sym q
    go (row ∷ rows) d (inl p) (inr j) e = absurd (
        true≢false (
          sym (
            In-any (λ r. r.id == row.id) rows j
              ((==_iff b.id row.id).1 (sym e ∙ ap (λ (r : FormRow). r.id) p)))
          ∙ d.0))
    go (row ∷ rows) d (inr i) (inl q) e = absurd (
        true≢false (
          sym (
            In-any (λ r. r.id == row.id) rows i
              ((==_iff a.id row.id).1 (e ∙ ap (λ (r : FormRow). r.id) q)))
          ∙ d.0))
    go (row ∷ rows) d (inr i) (inr j) e = go rows d.1 i j e

pub own_id : (a : FormRow) (rows : List FormRow) → IsKeyed rows → In a rows → a.form.id ≡ a.id
own_id a rows v i = All-In (λ row. row.form.id ≡ row.id) rows v.own_ids i

module _ (form : Form) (writer : FormWriter) (now : Instant) where
  has_row-upsert_form :
      (n : ℕ) (id : Uuid) (rows : List FormRow)
      → has_row id (upsert_form n form writer now rows).0 ≡ (has_row id rows || form.id == id)
  unfolding upsert_form
  has_row-upsert_form n id [] = ground arith
  has_row-upsert_form n id (row ∷ rows) = ground (arith, has_row-upsert_form (n + 1) id rows)

  Distinct-upsert_form :
      (n : ℕ) (rows : List FormRow)
      → Distinct rows
      → Distinct (upsert_form n form writer now rows).0
  unfolding upsert_form Distinct
  Distinct-upsert_form n [] d = (refl, tt)
  Distinct-upsert_form n (row ∷ rows) d = elim (Bool-cases (row.id == form.id)) [
    | inl e ↦ elim (Bool-cases (may_overwrite writer row)) [
      | inl m ↦ rw (e, m) d
      | inr m ↦ rw (e, m) d
    ]
    | inr e ↦ rw e (
      rw (has_row-upsert_form (n + 1) row.id rows) (ground (arith, e, d.0)),
      Distinct-upsert_form (n + 1) rows d.1,
    )
  ]

  own_ids-upsert_form :
      (n : ℕ) (rows : List FormRow)
      → All (λ row. row.form.id ≡ row.id) rows
      → All (λ row. row.form.id ≡ row.id) (upsert_form n form writer now rows).0
  unfolding upsert_form
  own_ids-upsert_form n [] h = (refl, tt)
  own_ids-upsert_form n (row ∷ rows) h = elim (Bool-cases (row.id == form.id)) [
    | inl e ↦ elim (Bool-cases (may_overwrite writer row)) [
      | inl m ↦ rw (e, m) (sym ((==_iff row.id form.id).0 e), h.1)
      | inr m ↦ rw (e, m) h
    ]
    | inr e ↦ rw e (h.0, own_ids-upsert_form (n + 1) rows h.1)
  ]

  pub insert_form-IsKeyed :
      (db : Db) → IsKeyed db.forms → IsKeyed (insert_form form writer now db).0.forms
  unfolding insert_form
  insert_form-IsKeyed db v = record {
    distinct = Distinct-upsert_form 0 db.forms v.distinct;
    own_ids = own_ids-upsert_form 0 db.forms v.own_ids;
  }

  -- What a row of the table after a write is: an old one, or one that the write stamped.
  pub In-insert_form :
      (db : Db) (x : FormRow)
      → In x (insert_form form writer now db).0.forms
      → In x db.forms ⊎ (x.updated_at ≡ now)
  unfolding insert_form upsert_form
  In-insert_form db x = go 0 db.forms
    where
      written :
          (row : FormRow) (rows : List FormRow)
          → (x ≡ overwritten form now row) ⊎ In x rows
          → ((x ≡ row) ⊎ In x rows) ⊎ (x.updated_at ≡ now)
      written row rows (inl e) = inr (rw e)
      written row rows (inr j) = inl (inr j)

      deeper :
          (row : FormRow) {R S : Type 0}
          → (S → R ⊎ (x.updated_at ≡ now))
          → (x ≡ row) ⊎ S
          → ((x ≡ row) ⊎ R) ⊎ (x.updated_at ≡ now)
      deeper row f (inl e) = inl (inl e)
      deeper row f (inr j) = elim (f j) [ inl k ↦ inl (inr k) | inr k ↦ inr k ]

      go :
          (n : ℕ) (rows : List FormRow)
          → In x (upsert_form n form writer now rows).0
          → In x rows ⊎ (x.updated_at ≡ now)
      go n [] (inl e) = inr (rw e)
      go n [] (inr i) = absurd i
      go n (row ∷ rows) i = elim (Bool-cases (row.id == form.id)) [
        | inl e ↦ elim (Bool-cases (may_overwrite writer row)) [
          | inl m ↦ written row rows (rw (e, m) at i)
          | inr m ↦ inl (rw (e, m) at i)
        ]
        | inr e ↦ deeper row (go (n + 1) rows) (rw e at i)
      ]

has_row-tombstone :
    (form_id : Uuid) (now : Instant) (id : Uuid) (rows : List FormRow)
    → has_row id (map (tombstone form_id now) rows) ≡ has_row id rows
has_row-tombstone form_id now id [] = refl
has_row-tombstone form_id now id (row ∷ rows) =
    ground (arith, has_row-tombstone form_id now id rows)

tombstone-id :
    (form_id : Uuid) (now : Instant) (row : FormRow) → (tombstone form_id now row).id ≡ row.id
tombstone-id form_id now row = ground arith

Distinct-tombstone :
    (form_id : Uuid) (now : Instant) (rows : List FormRow)
    → Distinct rows
    → Distinct (map (tombstone form_id now) rows)
unfolding Distinct
Distinct-tombstone form_id now [] d = tt
Distinct-tombstone form_id now (row ∷ rows) d = (
  has_row-tombstone form_id now (tombstone form_id now row).id rows
      ∙ ap (λ id. has_row id rows) (tombstone-id form_id now row)
      ∙ d.0,
  Distinct-tombstone form_id now rows d.1,
)

own_ids-tombstone :
    (form_id : Uuid) (now : Instant) (rows : List FormRow)
    → All (λ row. row.form.id ≡ row.id) rows
    → All (λ row. row.form.id ≡ row.id) (map (tombstone form_id now) rows)
own_ids-tombstone form_id now [] h = tt
own_ids-tombstone form_id now (row ∷ rows) h = (
  elim (Bool-cases (row.id == form_id)) [ inl e ↦ rw e (h.0) | inr e ↦ rw e (h.0) ],
  own_ids-tombstone form_id now rows h.1,
)

pub delete_form-IsKeyed :
    (form_id : Uuid) (now : Instant) (db : Db)
    → IsKeyed db.forms
    → IsKeyed (delete_form form_id now db).0.forms
unfolding delete_form
delete_form-IsKeyed form_id now db v = record {
  distinct = Distinct-tombstone form_id now db.forms v.distinct;
  own_ids = own_ids-tombstone form_id now db.forms v.own_ids;
}

In-tombstone :
    (form_id : Uuid) (now : Instant) (x : FormRow) (rows : List FormRow)
    → In x (map (tombstone form_id now) rows)
    → In x rows ⊎ (x.updated_at ≡ now)
In-tombstone form_id now x [] i = absurd i
In-tombstone form_id now x (row ∷ rows) (inl e) = elim (Bool-cases (row.id == form_id)) [
  | inl q ↦ inr (ap (λ (r : FormRow). r.updated_at) e ∙ rw q)
  | inr q ↦ inl (inl (e ∙ rw q))
]
In-tombstone form_id now x (row ∷ rows) (inr j) = elim (In-tombstone form_id now x rows j) [
  | inl k ↦ inl (inr k)
  | inr k ↦ inr k
]

pub In-delete_form :
    (form_id : Uuid) (now : Instant) (db : Db) (x : FormRow)
    → In x (delete_form form_id now db).0.forms
    → In x db.forms ⊎ (x.updated_at ≡ now)
unfolding delete_form
In-delete_form form_id now db x i = In-tombstone form_id now x db.forms i

pub has_row-insert_form :
    (form : Form) (writer : FormWriter) (now : Instant) (id : Uuid) (db : Db)
    → has_row id (insert_form form writer now db).0.forms ≡ (has_row id db.forms || form.id == id)
unfolding insert_form
has_row-insert_form form writer now id db = has_row-upsert_form form writer now 0 id db.forms

pub has_row-delete_form :
    (form_id : Uuid) (now : Instant) (id : Uuid) (db : Db)
    → has_row id (delete_form form_id now db).0.forms ≡ has_row id db.forms
unfolding delete_form
has_row-delete_form form_id now id db = has_row-tombstone form_id now id db.forms
