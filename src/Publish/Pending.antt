-- ===== src/Publish/Pending.antt =====
-- The operations of a publish in crates/collecta-server/src/publish.rs: one for each submission that
-- is not published and has a geometry, cut into batches that lose none.
use mathlib.Core.Path.{subst}
use collecta.Prelude.{
  append_assoc, ℕ, zero, suc, ◌-◌, Bool, true, false, ◌&&◌, not, Option, none, some, List, [], ◌∷◌,
  ◌++◌, ◌≡◌, ◌⊎◌, refl, ap, sym, ◌∙◌, map, keep, filter_map, filter_map-none, filter_map-some, All,
  In, Bool-cases, Option-cases, inl, inr, arith, ◌==◌, some_inj,
}
use collecta.Values.{Uuid}
use collecta.Form.{Form}
use collecta.Submission.{Submission}
use collecta.Server.{SubmissionRow, PublishedRow}
use collecta.Server.PublishTable.{is_published}
use collecta.Publish.Feature.{InsertOperation, insert_operation, feature_geometry}
use collecta.Publish.Run.{Settings, feature_ids, operations_of, chunks_from, chunks}
use collecta.Publish.Fresh.{NoDup}
use collecta.Publish.Delivery.{all_ids}

feature_ids-append :
    (xs ys : List InsertOperation) → feature_ids (xs ++ ys) ≡ feature_ids xs ++ feature_ids ys
feature_ids-append [] ys = refl
feature_ids-append (x ∷ xs) ys = ap (λ r. x.feature_id ∷ r) (feature_ids-append xs ys)

all_ids-chunks_from :
    (size room : ℕ) (current xs : List InsertOperation)
    → all_ids (chunks_from size room current xs) ≡ feature_ids current ++ feature_ids xs
unfolding chunks_from
all_ids-chunks_from size room [] [] = refl
all_ids-chunks_from size room (c ∷ current) [] = refl
all_ids-chunks_from size zero [] (x ∷ xs) = all_ids-chunks_from size (size - 1) (x ∷ []) xs
all_ids-chunks_from size zero (c ∷ current) (x ∷ xs) =
    ap (λ r. feature_ids (c ∷ current) ++ r) (all_ids-chunks_from size (size - 1) (x ∷ []) xs)
all_ids-chunks_from size (suc room) [] (x ∷ xs) = all_ids-chunks_from size room (x ∷ []) xs
all_ids-chunks_from size (suc room) (c ∷ current) (x ∷ xs) =
    all_ids-chunks_from size room ((c ∷ current) ++ (x ∷ [])) xs
    ∙ ap (λ r. r ++ feature_ids xs) (feature_ids-append (c ∷ current) (x ∷ []))
    ∙ append_assoc (feature_ids (c ∷ current)) (x.feature_id ∷ []) (feature_ids xs)

-- The batches hold the operations, in their order.
pub all_ids-chunks :
    (size : ℕ) (xs : List InsertOperation) → all_ids (chunks size xs) ≡ feature_ids xs
unfolding chunks
all_ids-chunks size xs = all_ids-chunks_from size size [] xs

module _ (settings : Settings) (form : Form) (form_id : Uuid) (published : List PublishedRow) where
  abbrev pub pending : SubmissionRow → Bool
  pending row = row.form_id == form_id && not (is_published published row.id)

  -- The ids that the rows are sent under.
  abbrev pub sent_ids : List SubmissionRow → List Uuid
  sent_ids rows =
      feature_ids (
        operations_of settings form (map (λ (r : SubmissionRow). r.submission) (keep pending rows)))

  unpublished : (row : SubmissionRow) → pending row ≡ true → is_published published row.id ≡ false
  unpublished row h = ground (arith, h)

  insert_operation-id :
      (s : Submission) (o : InsertOperation)
      → insert_operation settings.printer settings.base_url form s ≡ some o
      → o.feature_id ≡ s.id
  unfolding insert_operation
  insert_operation-id s o h = elim (Option-cases (feature_geometry form s)) [
    | inl n ↦ let none_some : none ≡ some o = rw n at h in cc
    | inr (g, e) ↦ ap (λ (p : InsertOperation). p.feature_id) (sym (some_inj (rw e at h)))
  ]

  abbrev operation : Submission → Option InsertOperation
  operation = insert_operation settings.printer settings.base_url form

  abbrev answered_by : List SubmissionRow → List Uuid
  answered_by rows =
      feature_ids (filter_map operation (map (λ (r : SubmissionRow). r.submission) rows))

  sent_ids-left_out :
      (row : SubmissionRow) (rows : List SubmissionRow)
      → pending row ≡ false
      → sent_ids (row ∷ rows) ≡ sent_ids rows
  sent_ids-left_out row rows h = ap answered_by (rw h)

  sent_ids-no_geometry :
      (row : SubmissionRow) (rows : List SubmissionRow)
      → pending row ≡ true
      → operation row.submission ≡ none
      → sent_ids (row ∷ rows) ≡ sent_ids rows
  sent_ids-no_geometry row rows h n =
      let kept : keep pending (row ∷ rows) ≡ row ∷ keep pending rows = rw h in
      ap answered_by kept
      ∙ ap feature_ids (
          filter_map-none operation row.submission
            (map (λ (r : SubmissionRow). r.submission) (keep pending rows)) n)

  sent_ids-any :
      (row : SubmissionRow) (rows : List SubmissionRow) (o : InsertOperation)
      → pending row ≡ true
      → operation row.submission ≡ some o
      → sent_ids (row ∷ rows) ≡ o.feature_id ∷ sent_ids rows
  sent_ids-any row rows o h e =
      let kept : keep pending (row ∷ rows) ≡ row ∷ keep pending rows = rw h in
      ap answered_by kept
      ∙ ap feature_ids (
          filter_map-some operation row.submission o
            (map (λ (r : SubmissionRow). r.submission) (keep pending rows)) e)

  sent_ids-sent :
      (row : SubmissionRow) (rows : List SubmissionRow) (o : InsertOperation)
      → pending row ≡ true
      → row.id ≡ row.submission.id
      → operation row.submission ≡ some o
      → sent_ids (row ∷ rows) ≡ row.id ∷ sent_ids rows
  sent_ids-sent row rows o h own e =
      sent_ids-any row rows o h e
      ∙ ap (λ i. i ∷ sent_ids rows) (insert_operation-id row.submission o e ∙ sym own)

  -- A row is sent under its id, or not at all.
  sent_ids-cons :
      (row : SubmissionRow) (rows : List SubmissionRow)
      → row.id ≡ row.submission.id
      → ((sent_ids (row ∷ rows) ≡ row.id ∷ sent_ids rows) × (is_published published row.id ≡ false))
        ⊎ (sent_ids (row ∷ rows) ≡ sent_ids rows)
  sent_ids-cons row rows own = elim (Bool-cases (pending row)) [
    | inr f ↦ inr (sent_ids-left_out row rows f)
    | inl f ↦ elim (Option-cases (operation row.submission)) [
      | inl n ↦ inr (sent_ids-no_geometry row rows f n)
      | inr (o, e) ↦ inl (sent_ids-sent row rows o f own e, unpublished row f)
    ]
  ]

  abbrev OwnIds : List SubmissionRow → Type 0
  OwnIds rows = All (λ row. row.id ≡ row.submission.id) rows

  pub sent_ids-In :
      (rows : List SubmissionRow) (id : Uuid)
      → OwnIds rows
      → In id (sent_ids rows)
      → In id (map (λ (r : SubmissionRow). r.id) rows) × (is_published published id ≡ false)
  sent_ids-In [] id own i = absurd i
  sent_ids-In (row ∷ rows) id own i = elim (sent_ids-cons row rows own.0) [
    | inr e ↦ let deeper = sent_ids-In rows id own.1 (subst (In id) e i) in (inr deeper.0, deeper.1)
    | inl (e, fresh) ↦
        let where_at : (id ≡ row.id) ⊎ In id (sent_ids rows) = subst (In id) e i in
        elim where_at [
          | inl q ↦ (inl q, rw q fresh)
          | inr j ↦ let deeper = sent_ids-In rows id own.1 j in (inr deeper.0, deeper.1)
        ]
  ]

  pub sent_ids-NoDup :
      (rows : List SubmissionRow)
      → OwnIds rows
      → NoDup (map (λ (r : SubmissionRow). r.id) rows)
      → NoDup (sent_ids rows)
  unfolding NoDup
  sent_ids-NoDup [] own n = tt
  sent_ids-NoDup (row ∷ rows) own n = elim (sent_ids-cons row rows own.0) [
    | inr e ↦ subst NoDup (sym e) (sent_ids-NoDup rows own.1 n.1)
    | inl (e, fresh) ↦
        subst NoDup (sym e)
          ((λ i. n.0 (sent_ids-In rows row.id own.1 i).0), sent_ids-NoDup rows own.1 n.1)
  ]

  -- A row of the form that has a geometry and is not published is sent.
  pub In-sent_ids :
      (rows : List SubmissionRow) (row : SubmissionRow) (o : InsertOperation)
      → In row rows
      → row.id ≡ row.submission.id
      → (row.form_id == form_id) ≡ true
      → is_published published row.id ≡ false
      → insert_operation settings.printer settings.base_url form row.submission ≡ some o
      → In row.id (sent_ids rows)
  In-sent_ids [] row o i own f p e = absurd i
  In-sent_ids (r ∷ rows) row o (inl q) own f p e =
      let waits : pending row ≡ true = rw (f, p) in
      rw (← q) (subst (In row.id) (sym (sent_ids-sent row rows o waits own e)) (inl refl))
  In-sent_ids (r ∷ rows) row o (inr i) own f p e =
      let deeper = In-sent_ids rows row o i own f p e in
      elim (Bool-cases (pending r)) [
        | inr k ↦ subst (In row.id) (sym (sent_ids-left_out r rows k)) deeper
        | inl k ↦ elim (Option-cases (operation r.submission)) [
          | inl n ↦ subst (In row.id) (sym (sent_ids-no_geometry r rows k n)) deeper
          | inr (x, g) ↦ subst (In row.id) (sym (sent_ids-any r rows x k g)) (inr deeper)
        ]
      ]
