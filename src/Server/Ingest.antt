-- ===== src/Server/Ingest.antt =====
-- What the handlers of crates/collecta-server/src/lib.rs keep true of the stored submissions and their
-- collectors, and
-- what an accepted one went through.
use collecta.Prelude.{
  String, if◌then◌else◌, ℕ, ◌+◌, Bool, true, false, not, Option, none, some, List, [], ◌∷◌, ◌≡◌,
  ◌≢◌, refl, sym, ◌∙◌, keep, any, map, All, All-append, All-keep, In, In-keep, Bool-cases, inl, inr,
  arith, is_some,
}
use collecta.Values.{Uuid, Instant}
use collecta.Form.{Form}
use collecta.Submission.{Submission}
use collecta.Errors.{Error}
use collecta.Validation.{validate}
use collecta.Server.{FormRow, SubmissionRow, Db}
use collecta.Server.Auth
use collecta.Server.Auth.{Caller, Status, Reply, ok, fail, or_fail}
use collecta.Server.FormTable.{FormWriter, live_row, get_form, insert_form, upsert_form}
use collecta.Server.SubmissionTable.{
  taken, row_of, insert_submission, insert_submission_if_new, delete_form, delete_submission,
  of_form, is_pair, tombstone,
}
use collecta.Server.Handlers.{
  State, Platform, after_gate, remove_files, remove_all_files, check_submission, record_submitter,
  push_one, push_all, push_form, push_checked, push_stored, reject_errors,
}
use collecta.Server.Tombstones.{live_row-tombstone_ne}

-- Which collector a submission of an id may name.
abbrev pub Attribution : Type 1
Attribution = Uuid → Option String → Type 0

-- A stored row: its columns are the submission's, its collector is one that `filed` allows, and its
-- form is live.
abbrev pub RowOk : Attribution → List FormRow → SubmissionRow → Type 0
RowOk filed forms row =
    (row.id ≡ row.submission.id)
    × (row.form_id ≡ row.submission.form_id)
    × filed row.submission.id row.submission.collector_id
    × (is_some (live_row row.form_id forms) ≡ true)

abbrev pub IsSound : Attribution → Db → Type 0
IsSound filed db = All (RowOk filed db.forms) db.submissions

pub All-imp :
    (P Q : SubmissionRow → Type 0) (xs : List SubmissionRow)
    → ((x : SubmissionRow) → In x xs → P x → Q x)
    → All P xs
    → All Q xs
All-imp P Q [] f a = tt
All-imp P Q (x ∷ xs) f a = (f x (inl refl) a.0, All-imp P Q xs (λ y m. f y (inr m)) a.1)

pub IsSound-imp :
    (f g : Attribution) (db : Db)
    → ((id : Uuid) (c : Option String) → f id c → g id c)
    → IsSound f db
    → IsSound g db
IsSound-imp f g db h =
    All-imp (RowOk f db.forms) (RowOk g db.forms) db.submissions
      (λ row m ok. (ok.0, ok.1, h row.submission.id row.submission.collector_id ok.2, ok.3))

pub get_form-live :
    (id : Uuid) (db : Db) → is_some (get_form id db) ≡ is_some (live_row id db.forms)
unfolding get_form
get_form-live id db = ground arith

upsert-keeps_live :
    (n : ℕ) (form : Form) (writer : FormWriter) (now : Instant) (rows : List FormRow) (id : Uuid)
    → is_some (live_row id rows) ≡ true
    → is_some (live_row id (upsert_form n form writer now rows).0) ≡ true
unfolding upsert_form
upsert-keeps_live n form writer now [] id h = cc
upsert-keeps_live n form writer now (row ∷ rows) id h =
    ground (arith, upsert-keeps_live (n + 1) form writer now rows id)

pub insert_form-IsSound :
    (filed : Attribution) (form : Form) (writer : FormWriter) (now : Instant) (db : Db)
    → IsSound filed db
    → IsSound filed (insert_form form writer now db).0
unfolding insert_form
insert_form-IsSound filed form writer now db v =
    All-imp (RowOk filed db.forms) (RowOk filed (upsert_form 0 form writer now db.forms).0)
      db.submissions
      (λ row m ok.
        (ok.0, ok.1, ok.2, upsert-keeps_live 0 form writer now db.forms row.form_id ok.3))
      v

pub delete_form-IsSound :
    (filed : Attribution) (id : Uuid) (now : Instant) (db : Db)
    → IsSound filed db
    → IsSound filed (delete_form id now db).0
unfolding delete_form
delete_form-IsSound filed id now db v =
    All-imp (RowOk filed db.forms) (RowOk filed (map (tombstone id now) db.forms))
      (keep (λ row. not (of_form id row)) db.submissions)
      (λ row m ok.
        let other : row.form_id ≢ id = λ e.
          let kept = (In-keep (λ r. not (of_form id r)) db.submissions m).1 in ground (arith, e) in
        (ok.0, ok.1, ok.2, rw (live_row-tombstone_ne id row.form_id now db.forms other) ok.3))
      (All-keep (RowOk filed db.forms) _ db.submissions v)

pub delete_submission-IsSound :
    (filed : Attribution) (form_id id : Uuid) (db : Db)
    → IsSound filed db
    → IsSound filed (delete_submission form_id id db).0
unfolding delete_submission
delete_submission-IsSound filed form_id id db v =
    elim (Bool-cases (any (is_pair form_id id) db.submissions)) [
      | inl e ↦ rw e (All-keep (RowOk filed db.forms) _ db.submissions v)
      | inr e ↦ rw e v
    ]

pub insert_new-IsSound :
    (filed : Attribution) (s : Submission) (db : Db)
    → filed s.id s.collector_id
    → is_some (get_form s.form_id db) ≡ true
    → IsSound filed db
    → IsSound filed (insert_submission_if_new s db).0
unfolding insert_submission_if_new
insert_new-IsSound filed s db named live v = elim (Bool-cases (taken s.id db)) [
  | inl e ↦ rw e v
  | inr e ↦ rw e (
      All-append (RowOk filed db.forms) db.submissions (row_of s "" "" ∷ []) v
        ((refl, refl, named, sym (get_form-live s.form_id db) ∙ live), tt))
]

pub insert_submission-same :
    (s : Submission) (db : Db) → insert_submission s db ≡ insert_submission_if_new s db
unfolding insert_submission insert_submission_if_new
insert_submission-same s db = refl

pub if-keeps :
    {A : Type 0} (P : State → Type 0) (b : Bool) (x y : Reply A × State)
    → P x.1
    → P y.1
    → P (if b then x else y).1
if-keeps P true x y h k = h
if-keeps P false x y h k = k

module _ {A B : Type 0} where
  -- A handler behind a gate keeps what its rest keeps when the gate lets it through.
  pub after_gate-keeps :
      (P : State → Type 0) (gate : Reply A) (k : A → State → Reply B × State) (s : State)
      → P s
      → ((a : A) → gate ≡ ok a → P (k a s).1)
      → P (after_gate gate k s).1
  after_gate-keeps P (ok a) k s h f = f a refl
  after_gate-keeps P (fail status m) k s h f = h

pub db-remove_all_files : (ids : List Uuid) (s : State) → (remove_all_files ids s).db ≡ s.db
db-remove_all_files [] s = refl
db-remove_all_files (id ∷ ids) s = db-remove_all_files ids (remove_files id s)

module _ (platform : Platform) (caller : Caller) where
  -- A submission that passed the checks has a live form that it is valid for.
  pub check_submission-ok :
      (form_id : Uuid) (s : Submission) (db : Db)
      → check_submission platform form_id s db ≡ ok tt
      → (form : Form) × (get_form form_id db ≡ some form) × (validate platform.floats form s ≡ [])
  unfolding check_submission
  check_submission-ok form_id s db h = found (get_form form_id db) refl h
    where
      clean :
          (form : Form) (errors : List Error) → reject_errors platform errors ≡ ok tt → errors ≡ []
      clean form [] h = refl
      clean form (e ∷ es) h = cc

      found :
          (o : Option Form)
          → get_form form_id db ≡ o
          → Auth.◌>>=◌
              (or_fail o Status.not_found "form not found")
              (λ form. reject_errors platform (validate platform.floats form s))
            ≡ ok tt
          → (form : Form) × (get_form form_id db ≡ some form)
            × (validate platform.floats form s ≡ [])
      found none e h = cc
      found (some form) e h = (form, e, clean form (validate platform.floats form s) h)

  push_one-IsSound :
      (filed : Attribution) (s : Submission) (db : Db)
      → filed s.id s.collector_id
      → IsSound filed db
      → IsSound filed (push_one platform s db).0
  unfolding push_one
  push_one-IsSound filed s db named v = found (get_form s.form_id db) refl
    where
      stored : (r : Db × Bool) → IsSound filed r.0 → IsSound filed (push_stored platform s.id r).0
      stored (next, true) w = w
      stored (next, false) w = w

      checked :
          (errors : List Error)
          → is_some (get_form s.form_id db) ≡ true
          → IsSound filed (push_checked platform errors s db).0
      checked [] live =
          stored (insert_submission_if_new s db) (insert_new-IsSound filed s db named live v)
      checked (e ∷ es) live = v

      found :
          (o : Option Form)
          → get_form s.form_id db ≡ o
          → IsSound filed (push_form platform o s db).0
      found none e = v
      found (some form) e = checked (validate platform.floats form s) (rw e)

  pub push_all-IsSound :
      (filed : Attribution) (batch : List Submission) (db : Db)
      → All (λ s. filed s.id (some (platform.show_uuid caller.id))) batch
      → IsSound filed db
      → IsSound filed (push_all platform caller batch db).0
  unfolding push_all
  push_all-IsSound filed [] db named v = v
  push_all-IsSound filed (s ∷ rest) db named v =
      push_all-IsSound filed rest (push_one platform (record_submitter platform caller s) db).0
        named.1
        (push_one-IsSound filed (record_submitter platform caller s) db
          (unfold record_submitter in named.0) v)
