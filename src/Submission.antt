-- ===== src/Submission.antt =====
-- crates/collecta-core/src/submission.rs: a filled-out form. A fresh id and the time are arguments
-- of the operations that draw them.
use collecta.Prelude.{ℕ, String, Bool, Option, none, some, List, [], is_some}
use collecta.Values.{Uuid, Instant, GeoPoint, FieldValue, Values, empty, get, insert}

pub data SubmissionStatus : Type 0 where
  draft complete synced sync_failed : SubmissionStatus

pub record AttachmentRef : Type 0 where
  pub id : Uuid
  pub field_name : String
  pub filename : String
  pub mime_type : String
  pub size_bytes : ℕ

pub record Submission : Type 0 where
  pub id : Uuid
  pub form_id : Uuid
  pub form_version : ℕ
  pub values : Values
  pub started_at : Instant
  pub completed_at : Option Instant
  pub device_location : Option GeoPoint
  pub collector_id : Option String
  pub status : SubmissionStatus
  pub attachments : List AttachmentRef

-- `Submission::new`
unfoldable pub new : (id : Uuid) (now : Instant) (form_id : Uuid) (form_version : ℕ) → Submission
new id now form_id form_version = record {
  id = id;
  form_id = form_id;
  form_version = form_version;
  values = empty;
  started_at = now;
  completed_at = none;
  device_location = none;
  collector_id = none;
  status = SubmissionStatus.draft;
  attachments = [];
}

unfoldable pub set_value : String → FieldValue → Submission → Submission
unfolding insert
set_value field_name value s = record s { values = insert field_name value s.values }

-- `Submission::complete`
unfoldable pub mark_complete : Instant → Submission → Submission
mark_complete now s = record s { completed_at = some now; status = SubmissionStatus.complete }

unfoldable pub has_value : String → Submission → Bool
unfolding get
has_value field_name s = is_some (get field_name s.values)
