-- ===== src/Server/AttachmentTable.antt =====
-- crates/collecta-server/src/store.rs: the attachments table.
use collecta.Prelude.{
  String, Option, some, List, [], ◌∷◌, ◌++◌, keep, find, modify_first, map, ◌==◌, ◌>>=◌,
}
use collecta.Values.{Uuid}
use collecta.Submission.{AttachmentRef}
use collecta.Server.{SubmissionRow, AttachmentRow, Db}

pub record StoredAttachment : Type 0 where
  pub attachment : AttachmentRow
  pub form_id : Uuid

abbrev pub reference : AttachmentRow → AttachmentRef
reference a = record {
  id = a.id;
  field_name = a.field_name;
  filename = a.filename;
  mime_type = a.content_type;
  size_bytes = a.size_bytes;
}

abbrev pub attach : AttachmentRow → SubmissionRow → SubmissionRow
attach a row = record row {
  submission = record row.submission {
    attachments = row.submission.attachments ++ (reference a ∷ []);
  };
}

-- The transaction of `Store::add_attachment`. Ids are fresh, so its insert meets no conflict.
unfoldable pub add_attachment : AttachmentRow → Db → Db
add_attachment a db = record db {
  attachments = db.attachments ++ (a ∷ []);
  submissions = modify_first (λ row. row.id == a.submission_id) (attach a) db.submissions;
}

unfoldable pub list_attachments : Uuid → Db → List AttachmentRow
list_attachments submission_id db = keep (λ a. a.submission_id == submission_id) db.attachments

unfoldable pub attached_filenames : Uuid → Db → List String
unfolding list_attachments
attached_filenames submission_id db = map (λ a. a.filename) (list_attachments submission_id db)

-- The join with the submission that the attachment hangs off.
unfoldable pub find_attachment : Uuid → Db → Option StoredAttachment
find_attachment id db = do
  a ← find (λ a. a.id == id) db.attachments
  row ← find (λ row. row.id == a.submission_id) db.submissions
  some (record { attachment = a; form_id = row.form_id })
