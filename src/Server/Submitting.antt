-- ===== src/Server/Submitting.antt =====
-- Every branch of `submit` of crates/collecta-server/src/lib.rs.
use collecta.Prelude.{
  true, false, none, some, List, [], ◌∷◌, ◌≡◌, ◌≢◌, refl, sym, ◌∙◌, inl, inr, ◌⊎◌, Bool-cases,
  Option-cases, true≢false, ==_iff, ◌==◌,
}
use collecta.Values.{Uuid}
use collecta.Form.{Form}
use collecta.Submission.{Submission}
use collecta.Errors.{Error}
use collecta.Validation.{validate}
use collecta.Server.Auth.{Caller, Reply, ok, fail, bad_request, not_found, conflict, unprocessable}
use collecta.Server.FormTable.{get_form}
use collecta.Server.SubmissionTable.{taken, row_of, append_row, insert_submission}
use collecta.Server.Handlers.{State, Platform, describe, record_submitter, check_submission, submit}

-- The submission under the printed id of the caller, whatever account it claims itself.
abbrev pub signed : Platform → Caller → Submission → Submission
signed p caller s = record s { collector_id = some (p.show_uuid caller.id) }

-- What may come of a submission to a form, with the reason for each: it names another form, there is
-- no such form, the validator finds errors, its id is stored already, or it is stored with the printed
-- id of the caller as its collector.
pub data Outcome (p : Platform) (caller : Caller) (form_id : Uuid) (s : Submission) (state : State)
    : Reply Uuid × State → Type 0 where
  misdirected :
      s.form_id ≢ form_id
      → Outcome p caller form_id s state
          (fail bad_request "submission form_id does not match the form in the path", state)
  formless :
      s.form_id ≡ form_id
      → get_form form_id state.db ≡ none
      → Outcome p caller form_id s state (fail not_found "form not found", state)
  faulty :
      (form : Form) (e : Error) (es : List Error)
      → s.form_id ≡ form_id
      → get_form form_id state.db ≡ some form
      → validate p.floats form (signed p caller s) ≡ e ∷ es
      → Outcome p caller form_id s state (fail unprocessable (describe p (e ∷ es)), state)
  repeated :
      (form : Form)
      → s.form_id ≡ form_id
      → get_form form_id state.db ≡ some form
      → validate p.floats form (signed p caller s) ≡ []
      → taken s.id state.db ≡ true
      → Outcome p caller form_id s state
          (fail conflict "a submission with this id already exists", state)
  filed :
      (form : Form)
      → s.form_id ≡ form_id
      → get_form form_id state.db ≡ some form
      → validate p.floats form (signed p caller s) ≡ []
      → taken s.id state.db ≡ false
      → Outcome p caller form_id s state
          (ok s.id, record state { db = append_row (row_of (signed p caller s) "" "") state.db })

List-cases : {A : Type 0} (xs : List A) → (xs ≡ []) ⊎ ((y : A) × (ys : List A) × (xs ≡ y ∷ ys))
List-cases [] = inl refl
List-cases (x ∷ xs) = inr (x, xs, refl)

-- Whatever the submission and the state, `submit` answers as the first reason that applies asks, in the
-- order of the outcomes; the state changes in the last of them only.
pub submit_lem :
    (p : Platform) (caller : Caller) (form_id : Uuid) (s : Submission) (state : State)
    → Outcome p caller form_id s state (submit p caller form_id s state)
unfolding submit check_submission insert_submission record_submitter
submit_lem p caller form_id s state = elim (Bool-cases (s.form_id == form_id)) [
  | inr e ↦ rw e (misdirected (λ q. true≢false (sym ((==_iff s.form_id form_id).1 q) ∙ e)))
  | inl e ↦
      let same : s.form_id ≡ form_id = (==_iff s.form_id form_id).0 e in
      rw e (elim (Option-cases (get_form form_id state.db)) [
        | inl n ↦ rw n (formless same n)
        | inr (form, f) ↦ rw f (elim (List-cases (validate p.floats form (signed p caller s))) [
          | inr (x, xs, v) ↦ rw v (faulty form x xs same f v)
          | inl v ↦ rw v (elim (Bool-cases (taken s.id state.db)) [
            | inl t ↦ rw t (repeated form same f v t)
            | inr t ↦ rw t (filed form same f v t)
          ])
        ])
      ])
]
