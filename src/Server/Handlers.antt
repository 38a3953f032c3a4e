-- ===== src/Server/Handlers.antt =====
-- crates/collecta-server/src/lib.rs: the handlers of the JSON interface, behind their gates. Each
-- takes the state and returns the answer with the state after it; a database query succeeds.
use collecta.Prelude.{
  ℕ, String, Bool, true, false, ◌||◌, not, Option, none, some, List, [], ◌∷◌, ◌+++◌, map, keep,
  join, ◌==◌, if◌then◌else◌,
}
use collecta.F64.{FloatText}
use collecta.Values.{Uuid, Instant}
use collecta.Form.{Form}
use collecta.Submission.{Submission}
use collecta.Errors as Errors
use collecta.Errors.{Error}
use collecta.Protocol.{
  PushRequest, PushItemStatus, PushItemResult, PushResponse, FormsPullResponse, accepted, duplicate,
  error,
}
use collecta.Validation.{validate}
use collecta.Server.{Db}
use collecta.Server.Auth.{
  Caller, Reply, ok, fail, or_fail, ◌>>=◌, ◌>>◌, is_admin, bad_request, forbidden, not_found,
  conflict, unprocessable,
}
use collecta.Server.FormTable.{
  FormOwner, Cursor, legacy, user, insert_form, form_owner, get_form, list_forms_since, grant_form,
  revoke_form, has_grant, user_exists,
}
use collecta.Server.SubmissionTable.{
  insert_submission, insert_submission_if_new, list_submissions, submission_count, delete_form,
  delete_submission,
}
use collecta.Server.AttachmentTable.{StoredAttachment, find_attachment}

-- The database, and the submissions that have a directory of attachment files on disk.
pub record State : Type 0 where
  pub db : Db
  pub directories : List Uuid

-- A handler: what it answers, and the state that it leaves.
abbrev pub Handler : Type 0 → Type 0
Handler A = State → Reply A × State

-- What the handlers take from other crates: the printed forms of floats and of ids.
pub record Platform : Type 0 where
  pub floats : FloatText
  pub show_uuid : Uuid → String

-- The rest of a handler after a gate.
abbrev pub after_gate : {A B : Type 0} → Reply A → (A → Handler B) → Handler B
after_gate (ok a) k s = k a s
after_gate (fail status message) k s = (fail status message, s)

abbrev pub owner_is : FormOwner → Uuid → Bool
owner_is legacy id = false
owner_is (user owner) id = owner == id

unfoldable pub owns : Caller → FormOwner → Bool
unfolding is_admin
owns caller owner = is_admin caller.role || owner_is owner caller.id

unfoldable pub require_read : Caller → Uuid → Db → Reply Unit
unfolding owns form_owner has_grant
require_read caller form_id db = do
  owner ← or_fail (form_owner form_id db) not_found "form not found"
  if owns caller owner || has_grant form_id caller.id db
      then ok tt
      else fail forbidden "not your form"

unfoldable pub require_owner : Caller → Uuid → Db → Reply Unit
unfolding owns form_owner
require_owner caller form_id db = do
  owner ← or_fail (form_owner form_id db) not_found "form not found"
  if owns caller owner then ok tt else fail forbidden "not your form"

-- `store_form`, which `create_form` and `import_form` end in
unfoldable pub store_form : Caller → Form → Instant → Handler Uuid
unfolding insert_form is_admin
store_form caller form now s =
    let written =
      insert_form form (record { id = some caller.id; overwrite_any = is_admin caller.role }) now
        s.db in
    if written.1
    then (ok form.id, record s { db = written.0 })
    else (fail forbidden "that form id belongs to another user", record s { db = written.0 })

-- `get_form`
unfoldable pub fetch_form : Uuid → Handler Form
unfolding get_form
fetch_form form_id s = (or_fail (get_form form_id s.db) not_found "form not found", s)

-- `list_submissions`
unfoldable pub read_submissions : Caller → Uuid → Handler (List Submission)
unfolding require_read list_submissions
read_submissions caller form_id s =
    after_gate (require_read caller form_id s.db) (λ _ t. (ok (list_submissions form_id t.db), t)) s

-- `remove_attachment_files`
abbrev pub remove_files : Uuid → State → State
remove_files id s = record s { directories = keep (λ d. not (d == id)) s.directories }

abbrev pub remove_all_files : List Uuid → State → State
remove_all_files [] s = s
remove_all_files (id ∷ ids) s = remove_all_files ids (remove_files id s)

-- The handler `delete_form`
unfoldable pub remove_form : Caller → Uuid → Instant → Handler Unit
unfolding require_owner delete_form
remove_form caller form_id now s =
    after_gate (require_owner caller form_id s.db)
      (λ _ t.
        let deleted = delete_form form_id now t.db in
        (ok tt, remove_all_files deleted.1 (record t { db = deleted.0 })))
      s

-- The handler `delete_submission`
unfoldable pub remove_submission : Caller → Uuid → Uuid → Handler Unit
unfolding require_owner delete_submission
remove_submission caller form_id submission_id s =
    after_gate (require_owner caller form_id s.db)
      (λ _ t.
        let deleted = delete_submission form_id submission_id t.db in
        if deleted.1
        then (ok tt, remove_files submission_id (record t { db = deleted.0 }))
        else (fail not_found "submission not found", record t { db = deleted.0 }))
      s

-- A refusal of the form reads as an attachment that is not there.
abbrev pub hide_refusal : Reply Unit → Reply Unit
hide_refusal (ok _) = ok tt
hide_refusal (fail forbidden m) = fail not_found "attachment not found"
hide_refusal (fail status m) = fail status m

-- `get_attachment` up to the read of the file
unfoldable pub find_readable : Caller → Uuid → Handler StoredAttachment
unfolding find_attachment require_read
find_readable caller attachment_id s = (
  (do
    stored ← or_fail (find_attachment attachment_id s.db) not_found "attachment not found"
    hide_refusal (require_read caller stored.form_id s.db)
    ok stored),
  s,
)

unfoldable pub create_grant : Caller → Uuid → Uuid → Instant → Handler Unit
unfolding require_owner user_exists grant_form
create_grant caller form_id user_id now s =
    after_gate (require_owner caller form_id s.db)
      (λ _ t.
        if user_exists user_id t.db
        then (ok tt, record t { db = grant_form form_id user_id now t.db })
        else (fail unprocessable "no such user", t))
      s

unfoldable pub revoke_grant : Caller → Uuid → Uuid → Handler Unit
unfolding require_owner revoke_form
revoke_grant caller form_id user_id s =
    after_gate (require_owner caller form_id s.db)
      (λ _ t.
        let revoked = revoke_form form_id user_id t.db in
        if revoked.1
        then (ok tt, record t { db = revoked.0 })
        else (fail not_found "no such grant", record t { db = revoked.0 }))
      s

unfoldable pub sync_status : Handler ℕ
unfolding submission_count
sync_status s = (ok (submission_count s.db), s)

abbrev pub or_since : Option Cursor → Cursor → Cursor
or_since none since = since
or_since (some c) since = c

unfoldable pub sync_forms : Cursor → Db → FormsPullResponse Cursor
unfolding list_forms_since
sync_forms since db =
    let pulled = list_forms_since since db in
    record { forms = pulled.0; deleted = pulled.1; cursor = or_since pulled.2 since }

module _ (platform : Platform) where
  unfoldable pub record_submitter : Caller → Submission → Submission
  record_submitter caller s = record s { collector_id = some (platform.show_uuid caller.id) }

  abbrev pub describe : List Error → String
  describe errors = join "; " (map Errors.show errors)

  abbrev pub reject_errors : List Error → Reply Unit
  reject_errors [] = ok tt
  reject_errors (e ∷ es) = fail unprocessable (describe (e ∷ es))

  -- Everything that `submit` checks before the insert.
  unfoldable pub check_submission : Uuid → Submission → Db → Reply Unit
  unfolding get_form
  check_submission form_id s db = do
    form ← or_fail (get_form form_id db) not_found "form not found"
    reject_errors (validate platform.floats form s)

  abbrev pub insert_answer : Uuid → Db × Bool → State → Reply Uuid × State
  insert_answer id (db, true) s = (ok id, record s { db = db })
  insert_answer id (db, false) s =
      (fail conflict "a submission with this id already exists", record s { db = db })

  unfoldable pub submit : Caller → Uuid → Submission → Handler Uuid
  unfolding record_submitter check_submission insert_submission
  submit caller form_id submission s =
      if not (submission.form_id == form_id)
      then (fail bad_request "submission form_id does not match the form in the path", s)
      else let filed = record_submitter caller submission in
        after_gate (check_submission form_id filed s.db)
          (λ _ t. insert_answer filed.id (insert_submission filed t.db) t) s

  abbrev pub result : Uuid → PushItemStatus → Option String → PushItemResult
  result id status message = record { id = id; status = status; message = message }

  abbrev pub push_stored : Uuid → Db × Bool → Db × PushItemResult
  push_stored id (db, true) = (db, result id accepted none)
  push_stored id (db, false) = (db, result id duplicate none)

  abbrev pub push_checked : List Error → Submission → Db → Db × PushItemResult
  push_checked [] s db = push_stored s.id (insert_submission_if_new s db)
  push_checked (e ∷ es) s db = (db, result s.id error (some (describe (e ∷ es))))

  abbrev pub push_form : Option Form → Submission → Db → Db × PushItemResult
  push_form none s db =
      (db, result s.id error (some ("unknown form " +++ platform.show_uuid s.form_id)))
  push_form (some form) s db = push_checked (validate platform.floats form s) s db

  unfoldable pub push_one : Submission → Db → Db × PushItemResult
  unfolding get_form insert_submission_if_new
  push_one s db = push_form (get_form s.form_id db) s db

  -- The loop of `sync_push`
  unfoldable pub push_all : Caller → List Submission → Db → Db × List PushItemResult
  unfolding record_submitter push_one
  push_all caller [] db = (db, [])
  push_all caller (s ∷ rest) db =
      let (next, answer) = push_one (record_submitter caller s) db in
      let (last, answers) = push_all caller rest next in (last, answer ∷ answers)

  unfoldable pub sync_push : Caller → PushRequest → Handler PushResponse
  unfolding push_all
  sync_push caller request s =
      let (db, results) = push_all caller request.submissions s.db in
      (ok (record { results = results }), record s { db = db })
