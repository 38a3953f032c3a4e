-- ===== src/Server/Idempotence.antt =====
-- Pushing a batch again, against `push_one` and `sync_push` of crates/collecta-server/src/lib.rs.
use collecta.Prelude.{
  Bool, true, false, Option, none, some, List, [], ◌∷◌, ◌≡◌, refl, ap, sym, ◌∙◌, map, any-append,
  arith, ◌==◌, if◌then◌else◌,
}
use collecta.Values.{Uuid}
use collecta.Form.{Form}
use collecta.Errors.{Error}
use collecta.Submission.{Submission}
use collecta.Protocol.{
  PushItemStatus, PushItemResult, PushRequest, PushResponse, accepted, duplicate,
}
use collecta.Validation.{validate}
use collecta.Server.{SubmissionRow, Db}
use collecta.Server.Auth.{Caller, Reply, ok}
use collecta.Server.FormTable.{get_form}
use collecta.Server.SubmissionTable.{taken, row_of, append_row, insert_submission_if_new}
use collecta.Server.Handlers.{
  State, Platform, record_submitter, push_one, push_all, push_form, push_checked, push_stored,
  sync_push,
}

-- The later database has the same forms and every submission id of the earlier one.
pub record Extends (a b : Db) : Type 0 where
  pub forms : a.forms ≡ b.forms
  pub ids : (id : Uuid) → taken id a ≡ true → taken id b ≡ true

Extends-refl : (a : Db) → Extends a a
Extends-refl a = record { forms = refl; ids = λ id h. h }

Extends-trans : {a b c : Db} → Extends a b → Extends b c → Extends a c
Extends-trans x y = record { forms = x.forms ∙ y.forms; ids = λ id h. y.ids id (x.ids id h) }

-- The answer to a second delivery: what was stored is now a duplicate.
abbrev second : PushItemStatus → PushItemStatus
second accepted = duplicate
second s = s

abbrev pub again : PushItemResult → PushItemResult
again r = record r { status = second r.status }

Extends-append : (row : SubmissionRow) (db : Db) → Extends db (append_row row db)
Extends-append row db = record {
  forms = refl;
  ids = λ id h. rw (any-append (λ r. r.id == id) db.submissions (row ∷ [])) (ground arith);
}

get_form-Extends : {a b : Db} (id : Uuid) → Extends a b → get_form id b ≡ get_form id a
unfolding get_form
get_form-Extends id x = rw (x.forms)

module _ (p : Platform) where
  push_one-Extends : (s : Submission) (db : Db) → Extends db (push_one p s db).0
  unfolding push_one
  push_one-Extends s db = found (get_form s.form_id db)
    where
      stored :
          (b : Bool)
          → Extends db
              (push_stored p s.id
                (if b then (db, false) else (append_row (row_of s "" "") db, true))).0
      stored true = Extends-refl db
      stored false = Extends-append (row_of s "" "") db

      checked : (errors : List Error) → Extends db (push_checked p errors s db).0
      checked [] = stored (taken s.id db)
      checked (e ∷ es) = Extends-refl db

      found : (o : Option Form) → Extends db (push_form p o s db).0
      found none = Extends-refl db
      found (some form) = checked (validate p.floats form s)

  taken-append : (s : Submission) (db : Db) → taken s.id (append_row (row_of s "" "") db) ≡ true
  taken-append s db =
      rw (any-append (λ r. r.id == s.id) db.submissions (row_of s "" "" ∷ [])) (ground arith)

  stored_again :
      (s : Submission) (db later : Db)
      → Extends (push_stored p s.id (insert_submission_if_new s db)).0 later
      → push_stored p s.id (insert_submission_if_new s later)
        ≡ (later, again (push_stored p s.id (insert_submission_if_new s db)).1)
  unfolding insert_submission_if_new
  stored_again s db later = split (taken s.id db) refl
    where
      split :
          (b : Bool)
          → taken s.id db ≡ b
          → Extends
              (push_stored p s.id
                (if b then (db, false) else (append_row (row_of s "" "") db, true))).0
              later
          → push_stored p s.id (
              if taken s.id later
              then (later, false)
              else (append_row (row_of s "" "") later, true))
            ≡ (
              later,
              again
                  (push_stored p s.id
                    (if b then (db, false) else (append_row (row_of s "" "") db, true))).1,
            )
      split true e x = rw (x.ids s.id e)
      split false e x = rw (x.ids s.id (taken-append s db))

  checked_again :
      (errors : List Error) (s : Submission) (db later : Db)
      → Extends (push_checked p errors s db).0 later
      → push_checked p errors s later ≡ (later, again (push_checked p errors s db).1)
  checked_again [] s db later x = stored_again s db later x
  checked_again (e ∷ es) s db later x = refl

  form_again :
      (o : Option Form) (s : Submission) (db later : Db)
      → Extends (push_form p o s db).0 later
      → push_form p o s later ≡ (later, again (push_form p o s db).1)
  form_again none s db later x = refl
  form_again (some form) s db later x = checked_again (validate p.floats form s) s db later x

  push_one-eq :
      (s : Submission) (db : Db) → push_one p s db ≡ push_form p (get_form s.form_id db) s db
  unfolding push_one
  push_one-eq s db = refl

  push_one-again :
      (s : Submission) (db later : Db)
      → Extends (push_one p s db).0 later
      → push_one p s later ≡ (later, again (push_one p s db).1)
  push_one-again s db later x =
      let whole = Extends-trans (push_one-Extends s db) x in
      push_one-eq s later
      ∙ ap (λ o. push_form p o s later) (get_form-Extends s.form_id whole)
      ∙ form_again (get_form s.form_id db) s db later (rw (push_one-eq s db) at x)
      ∙ ap (λ r. (later, again r.1)) (sym (push_one-eq s db))

  module _ (caller : Caller) where
    pub push_all-Extends :
        (batch : List Submission) (db : Db) → Extends db (push_all p caller batch db).0
    unfolding push_all
    push_all-Extends [] db = Extends-refl db
    push_all-Extends (s ∷ rest) db =
        Extends-trans (push_one-Extends (record_submitter p caller s) db)
          (push_all-Extends rest (push_one p (record_submitter p caller s) db).0)

    abbrev then_rest : List Submission → Db × PushItemResult → Db × List PushItemResult
    then_rest rest r = ((push_all p caller rest r.0).0, r.1 ∷ (push_all p caller rest r.0).1)

    push_all-nil : (db : Db) → push_all p caller [] db ≡ (db, [])
    unfolding push_all
    push_all-nil db = refl

    push_all-cons :
        (s : Submission) (rest : List Submission) (db : Db)
        → push_all p caller (s ∷ rest) db
          ≡ then_rest rest (push_one p (record_submitter p caller s) db)
    unfolding push_all
    push_all-cons s rest db = refl

    push_all-again :
        (batch : List Submission) (db later : Db)
        → Extends (push_all p caller batch db).0 later
        → push_all p caller batch later ≡ (later, map again (push_all p caller batch db).1)
    push_all-again [] db later x =
        push_all-nil later ∙ ap (λ r. (later, map again r.1)) (sym (push_all-nil db))
    push_all-again (s ∷ rest) db later x =
        let first = push_one p (record_submitter p caller s) db in
        let after : Extends (push_all p caller rest first.0).0 later =
          rw (push_all-cons s rest db) at x in
        push_all-cons s rest later
        ∙ ap (then_rest rest) (
            push_one-again (record_submitter p caller s) db later
              (Extends-trans (push_all-Extends rest first.0) after))
        ∙ ap
            (λ (t : Db × List PushItemResult).
              let r : Db × List PushItemResult = (t.0, again first.1 ∷ t.1) in r)
            (push_all-again rest first.0 later after)
        ∙ ap
            (λ (t : Db × List PushItemResult).
              let r : Db × List PushItemResult = (later, map again t.1) in r)
            (sym (push_all-cons s rest db))

    -- A batch that is delivered again, at once or after other requests that kept the forms and dropped
    -- no submission, stores nothing more; it is answered item by item as before, with `duplicate` for
    -- what was accepted the first time.
    pub sync_push-again :
        (request : PushRequest) (s later : State)
        → Extends (sync_push p caller request s).1.db later.db
        → (sync_push p caller request later).1 ≡ later
          × (sync_push p caller request later).0
            ≡ ok (record { results = map again (push_all p caller request.submissions s.db).1 })
    unfolding sync_push
    sync_push-again request s later x =
        let e = push_all-again request.submissions s.db later.db x in
        (
          ap (λ (t : Db × List PushItemResult). let r : State = record later { db = t.0 } in r) e,
          ap
              (λ (t : Db × List PushItemResult).
                let r : Reply PushResponse = ok (record { results = t.1 }) in r)
              e,
        )
