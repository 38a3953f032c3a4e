-- ===== src/Server/SubmissionTable.antt =====
-- crates/collecta-server/src/store.rs: the submissions table, and the deletes.
use collecta.Prelude.{
  ℕ, String, Bool, true, false, ◌&&◌, ◌||◌, not, Option, none, some, List, [], ◌∷◌, ◌++◌, length,
  keep, find, any, map, str_eq, ◌==◌, ◌>>=◌, if◌then◌else◌,
}
use collecta.Values.{Uuid, Instant}
use collecta.Submission.{Submission}
use collecta.Server.{FormRow, SubmissionRow, AttachmentRow, Db}

abbrev pub taken : Uuid → Db → Bool
taken id db = any (λ row. row.id == id) db.submissions

abbrev pub row_of : Submission → String → String → SubmissionRow
row_of s instance_id instance_hash = record {
  id = s.id;
  form_id = s.form_id;
  submission = s;
  instance_id = instance_id;
  instance_hash = instance_hash;
}

abbrev pub append_row : SubmissionRow → Db → Db
append_row row db = record db { submissions = db.submissions ++ (row ∷ []) }

-- A plain insert, whose key constraint decides.
unfoldable pub insert_submission : Submission → Db → Db × Bool
insert_submission s db =
    if taken s.id db then (db, false) else (append_row (row_of s "" "") db, true)

-- `INSERT OR IGNORE`
unfoldable pub insert_submission_if_new : Submission → Db → Db × Bool
insert_submission_if_new s db =
    if taken s.id db then (db, false) else (append_row (row_of s "" "") db, true)

pub record StoredInstance : Type 0 where
  pub submission : Submission
  pub instance_hash : String

pub data InstanceInsert : Type 0 where
  created : Uuid → InstanceInsert
  existing : StoredInstance → InstanceInsert
  -- the constraint failed and no row holds the instance id: the database error is passed on
  failed : InstanceInsert

abbrev pub is_instance : Uuid → String → SubmissionRow → Bool
is_instance form_id instance_id row = row.form_id == form_id && str_eq row.instance_id instance_id

unfoldable pub find_instance : Uuid → String → Db → Option StoredInstance
find_instance form_id instance_id db =
    find (is_instance form_id instance_id) db.submissions >>= λ row.
    some (record { submission = row.submission; instance_hash = row.instance_hash })

-- The partial unique index on (form_id, instance_id).
abbrev pub claimed : Uuid → String → Db → Bool
claimed form_id instance_id db =
    not (str_eq instance_id "") && any (is_instance form_id instance_id) db.submissions

abbrev pub existing_or : Option StoredInstance → InstanceInsert
existing_or none = failed
existing_or (some stored) = existing stored

unfoldable pub insert_instance : Submission → String → String → Db → Db × InstanceInsert
unfolding find_instance
insert_instance s instance_id instance_hash db =
    if taken s.id db || claimed s.form_id instance_id db
    then (db, existing_or (find_instance s.form_id instance_id db))
    else (append_row (row_of s instance_id instance_hash) db, created s.id)

unfoldable pub list_submissions : Uuid → Db → List Submission
list_submissions form_id db =
    map (λ row. row.submission) (keep (λ row. row.form_id == form_id) db.submissions)

unfoldable pub submission_count : Db → ℕ
submission_count db = length db.submissions

abbrev pub of_form : Uuid → SubmissionRow → Bool
of_form form_id row = row.form_id == form_id

abbrev pub tombstone : Uuid → Instant → FormRow → FormRow
tombstone form_id now row =
    if row.id == form_id then record row { deleted_at = some now; updated_at = now } else row

-- Whether an attachment hangs off a submission of the form.
abbrev pub attached_to_form : Uuid → List SubmissionRow → AttachmentRow → Bool
attached_to_form form_id rows a = any (λ row. of_form form_id row && row.id == a.submission_id) rows

-- The transaction of `Store::delete_form`, with the ids of the deleted submissions. The two reads of
-- the clock are one instant here.
unfoldable pub delete_form : Uuid → Instant → Db → Db × List Uuid
delete_form form_id now db = (
  record db {
    attachments = keep (λ a. not (attached_to_form form_id db.submissions a)) db.attachments;
    submissions = keep (λ row. not (of_form form_id row)) db.submissions;
    grants = keep (λ g. not (g.form_id == form_id)) db.grants;
    published = keep (λ p. not (p.form_id == form_id)) db.published;
    forms = map (tombstone form_id now) db.forms;
  },
  map (λ row. row.id) (keep (of_form form_id) db.submissions),
)

abbrev pub is_pair : Uuid → Uuid → SubmissionRow → Bool
is_pair form_id submission_id row = row.id == submission_id && row.form_id == form_id

unfoldable pub delete_submission : Uuid → Uuid → Db → Db × Bool
delete_submission form_id submission_id db =
    if any (is_pair form_id submission_id) db.submissions
    then (
      record db {
        submissions = keep (λ row. not (is_pair form_id submission_id row)) db.submissions;
        attachments = keep (λ a. not (a.submission_id == submission_id)) db.attachments;
        published = keep (λ p. not (p.submission_id == submission_id)) db.published;
      },
      true,
    )
    else (db, false)
