-- ===== src/Server/Ownership.antt =====
-- Whose a form is under `Store::insert_form` of crates/collecta-server/src/store.rs.
use collecta.Prelude.{
  ℕ, ◌+◌, Bool, true, false, Option, none, some, List, [], ◌∷◌, ◌≡◌, ◌≢◌, refl, ap, sym, ◌∙◌, find,
  arith, ◌↔◌, ◌⊎◌, inl, inr, Bool-cases, ==_iff, some_inj, ◌==◌, ◌>>=◌,
}
use collecta.Values.{Uuid, Instant}
use collecta.Form.{Form}
use collecta.Server.{FormRow, Db}
use collecta.Server.FormTable.{
  FormWriter, sql_eq, live_row, may_overwrite, upsert_form, insert_form, get_form,
}

-- The row of an id, deleted or not.
abbrev pub row_of : Uuid → List FormRow → Option FormRow
row_of id rows = find (λ row. row.id == id) rows

-- Who may write under an id: anyone, if it is free; else a writer that may overwrite every form, and
-- the account that created the form. A form that no account created is open to the former only.
abbrev pub MayWrite : FormWriter → Option FormRow → Type 0
MayWrite writer none = Unit
MayWrite writer (some row) =
    (writer.overwrite_any ≡ true)
    ⊎ ((account : Uuid) × (row.creator_id ≡ some account) × (writer.id ≡ some account))

-- The same as the guard of the upsert tests it.
abbrev allowed : FormWriter → Option FormRow → Bool
allowed writer none = true
allowed writer (some row) = may_overwrite writer row

sql_eq_iff :
    (a b : Option Uuid)
    → (sql_eq a b ≡ true) ↔ ((account : Uuid) × (a ≡ some account) × (b ≡ some account))
sql_eq_iff none b = (λ h. cc, λ (x, e, f). cc)
sql_eq_iff (some a) none = (λ h. cc, λ (x, e, f). cc)
sql_eq_iff (some a) (some b) = (
  λ h. (a, refl, ap some (sym ((==_iff a b).0 h))),
  λ (x, e, f). (==_iff a b).1 (some_inj (e ∙ sym f)),
)

allowed_iff :
    (writer : FormWriter) (o : Option FormRow) → (allowed writer o ≡ true) ↔ MayWrite writer o
allowed_iff writer none = (λ h. tt, λ h. refl)
allowed_iff writer (some row) = elim (Bool-cases writer.overwrite_any) [
  | inl e ↦ rw e (λ h. inl refl, λ h. refl)
  | inr e ↦
      let same = sql_eq_iff row.creator_id writer.id in
      rw e (λ h. inr (same.0 h), λ h. elim h [ inl f ↦ cc | inr f ↦ same.1 f ])
]

allowed-not :
    (writer : FormWriter) (o : Option FormRow) → ¬ MayWrite writer o → allowed writer o ≡ false
allowed-not writer o h = elim (Bool-cases (allowed writer o)) [
  | inl e ↦ absurd (h ((allowed_iff writer o).0 e))
  | inr e ↦ e
]

abbrev pub creator : Option FormRow → Option (Option Uuid)
creator o = o >>= λ row. some row.creator_id

module _ (form : Form) (writer : FormWriter) (now : Instant) where
  upsert-allowed :
      (n : ℕ) (rows : List FormRow)
      → (upsert_form n form writer now rows).1 ≡ allowed writer (row_of form.id rows)
  unfolding upsert_form
  upsert-allowed n [] = refl
  upsert-allowed n (row ∷ rows) = ground (arith, upsert-allowed (n + 1) rows)

  upsert-refused :
      (n : ℕ) (rows : List FormRow)
      → allowed writer (row_of form.id rows) ≡ false
      → (upsert_form n form writer now rows).0 ≡ rows
  unfolding upsert_form
  upsert-refused n [] h = cc
  upsert-refused n (row ∷ rows) h = ground (arith, upsert-refused (n + 1) rows)

  live_row-upsert_self :
      (n : ℕ) (rows : List FormRow)
      → allowed writer (row_of form.id rows) ≡ true
      → (live_row form.id (upsert_form n form writer now rows).0 >>= λ row. some row.form)
        ≡ some form
  unfolding upsert_form
  live_row-upsert_self n [] h = ground arith
  live_row-upsert_self n (row ∷ rows) h = ground (arith, live_row-upsert_self (n + 1) rows)

  live_row-upsert_ne :
      (n : ℕ) (other : Uuid) (rows : List FormRow)
      → other ≢ form.id
      → live_row other (upsert_form n form writer now rows).0 ≡ live_row other rows
  unfolding upsert_form
  live_row-upsert_ne n other [] ne = ground arith
  live_row-upsert_ne n other (row ∷ rows) ne =
      ground (arith, live_row-upsert_ne (n + 1) other rows ne)

  creator-upsert :
      (n : ℕ) (id : Uuid) (rows : List FormRow) (row : FormRow)
      → row_of id rows ≡ some row
      → creator (row_of id (upsert_form n form writer now rows).0) ≡ some row.creator_id
  unfolding upsert_form
  creator-upsert n id [] row h = cc
  creator-upsert n id (r ∷ rows) row h = ground (arith, creator-upsert (n + 1) id rows row)

  -- A write is accepted exactly if no row, live or deleted, has its id, or the writer may overwrite every
  -- form, or the writer is the account that created the form of that row; an accepted one is what a read
  -- of the id gives, any other changes nothing, and no other id reads differently in either case.
  pub insert_form_lem :
      (db : Db)
      → ((insert_form form writer now db).1 ≡ true ↔ MayWrite writer (row_of form.id db.forms))
        × (MayWrite writer (row_of form.id db.forms)
            → get_form form.id (insert_form form writer now db).0 ≡ some form)
        × (¬ MayWrite writer (row_of form.id db.forms) → (insert_form form writer now db).0 ≡ db)
        × ((other : Uuid)
            → other ≢ form.id
            → get_form other (insert_form form writer now db).0 ≡ get_form other db)
  unfolding insert_form get_form
  insert_form_lem db = (
    rw (upsert-allowed 0 db.forms) (allowed_iff writer (row_of form.id db.forms)),
    λ h. live_row-upsert_self 0 db.forms ((allowed_iff writer (row_of form.id db.forms)).1 h),
    λ h.
        ap (λ rows. record db { forms = rows })
          (upsert-refused 0 db.forms (allowed-not writer (row_of form.id db.forms) h)),
    λ other ne. rw (live_row-upsert_ne 0 other db.forms ne),
  )

  -- A write never changes who created a form, a deleted one included.
  pub creator-insert_form :
      (id : Uuid) (db : Db) (row : FormRow)
      → row_of id db.forms ≡ some row
      → creator (row_of id (insert_form form writer now db).0.forms) ≡ some row.creator_id
  unfolding insert_form
  creator-insert_form id db row = creator-upsert 0 id db.forms row
