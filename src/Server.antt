-- ===== src/Server.antt =====
-- crates/collecta-server/src/store.rs: the tables of the database, one list of rows each, in the
-- order of their row ids. A query is a function on the lists; `now` is the instant that it records.
pub mod Auth
pub mod FormTable
pub mod SubmissionTable
pub mod AttachmentTable
pub mod PublishTable
pub mod Handlers
pub mod Tombstones
pub mod Ownership
pub mod Ingest
pub mod Submitting
pub mod Instances
pub mod Filed
pub mod Runs
pub mod Idempotence
pub mod Keyed
pub mod Pull
pub mod Sync
pub mod SameInstant
pub mod Access
mod Examples
use collecta.Prelude.{ℕ, String, Bool, Option, List, []}
use collecta.Values.{Uuid, Instant}
use collecta.Form.{Form}
use collecta.Submission.{Submission}

-- A dataset and a branch of the geodatabase.
pub record PublishTarget : Type 0 where
  pub dataset_id : Uuid
  pub branch_id : Uuid

-- A row of `forms`. The columns title and version repeat what `data` holds.
pub record FormRow : Type 0 where
  pub rowid : ℕ
  pub id : Uuid
  pub form : Form
  pub updated_at : Instant
  pub creator_id : Option Uuid
  pub deleted_at : Option Instant
  pub target : Option PublishTarget

-- A row of `submissions`. An empty instance id is that of a row from the JSON interface.
pub record SubmissionRow : Type 0 where
  pub id : Uuid
  pub form_id : Uuid
  pub submission : Submission
  pub instance_id : String
  pub instance_hash : String

pub record UserRecord : Type 0 where
  pub id : Uuid
  pub email : String
  pub password_hash : String
  pub role : String

pub record AttachmentRow : Type 0 where
  pub id : Uuid
  pub submission_id : Uuid
  pub field_name : String
  pub filename : String
  pub content_type : String
  pub size_bytes : ℕ
  pub storage_path : String

pub record GrantRow : Type 0 where
  pub form_id : Uuid
  pub user_id : Uuid
  pub granted_at : Instant

pub record PublishedRow : Type 0 where
  pub submission_id : Uuid
  pub form_id : Uuid
  pub published_at : Instant

pub record Db : Type 0 where
  pub forms : List FormRow
  pub submissions : List SubmissionRow
  pub users : List UserRecord
  pub attachments : List AttachmentRow
  pub grants : List GrantRow
  pub published : List PublishedRow

abbrev pub empty_db : Db
empty_db = record {
  forms = [];
  submissions = [];
  users = [];
  attachments = [];
  grants = [];
  published = [];
}
