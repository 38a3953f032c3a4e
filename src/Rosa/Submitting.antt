-- ===== src/Rosa/Submitting.antt =====
-- `submit` of crates/collecta-server/src/openrosa/submission.rs.
pub mod Checks
pub mod Claims
pub mod Filing
pub mod Claiming
pub mod Refiling
pub mod Resending
use collecta.Prelude.{
  ℕ, String, Bool, true, false, Option, none, some, List, [], ◌∷◌, ◌+++◌, map, join, show_ℕ, str_eq,
  ◌||◌, not, if◌then◌else◌,
}
use collecta.Values.{Uuid, Instant}
use collecta.Form.{Form}
use collecta.Submission.{Submission}
use collecta.Errors as Errors
use collecta.Validation.{validate}
use collecta.Server.{Db}
use collecta.Server.Auth as Auth
use collecta.Server.Auth.{
  Caller, Reply, fail, or_fail, ◌>>=◌, ◌>>◌, can_write, bad_request, forbidden, not_found, conflict,
  internal,
}
use collecta.Server.FormTable.{get_form}
use collecta.Server.SubmissionTable.{
  InstanceInsert, StoredInstance, created, existing, failed, insert_instance,
}
use collecta.Server.Handlers.{State, Handler, Platform, after_gate}
use collecta.Rosa.Result.{Result, ok, err}
use collecta.Rosa.Tree.{Event, InstanceError, show_error}
use collecta.Rosa.Instance.{Instance, Reader, parse}
use collecta.Rosa.Mapping.{to_submission}
use collecta.Rosa.Parts.{Bytes, MultipartError, Part, AttachmentPart, read_parts}
use collecta.Rosa.Storing.{Disk, field_by_filename, store_attachments}

-- The XML reader, the hash and the rest of what the handler takes from other crates.
pub record Outside : Type 0 where
  pub platform : Platform
  pub reader : Reader
  pub events : Bytes → List Event
  pub hash : Bytes → String
  pub disk : Disk

-- What the handler draws for a request: an id, and two readings of the clock.
pub record Draw : Type 0 where
  pub id : Uuid
  pub started : Instant
  pub completed : Instant

pub record Ready : Type 0 where
  pub form : Form
  pub submission : Submission
  pub instance_id : String
  pub instance_hash : String
  pub attachments : List AttachmentPart

abbrev pub may_submit : Caller → Reply Unit
may_submit caller =
    if can_write caller.role then Auth.ok tt else fail forbidden "this account cannot submit data"

abbrev pub or_malformed : {A : Type 0} → Result InstanceError A → Reply A
or_malformed (ok a) = Auth.ok a
or_malformed (err e) = fail bad_request (show_error e)

abbrev pub reject_all : List String → Reply Unit
reject_all [] = Auth.ok tt
reject_all (e ∷ es) = fail bad_request (join "; " (e ∷ es))

abbrev pub other_bytes : String
other_bytes = "a submission with this instanceID already exists with different xml"

abbrev pub other_account : String
other_account = "a submission with this instanceID belongs to another user"

-- An instance id that is stored may be extended by the same bytes from the same account only.
abbrev pub may_extend : (user instance_hash : String) → StoredInstance → Reply Uuid
may_extend user instance_hash stored =
    if not (str_eq stored.instance_hash instance_hash)
    then fail conflict other_bytes
    else if elim stored.submission.collector_id [ none ↦ true | some c ↦ not (str_eq c user) ]
    then fail conflict other_account
    else Auth.ok stored.submission.id

-- The submission's id, and whether it is a resubmission.
abbrev pub claim : (user instance_hash : String) → InstanceInsert → Reply (Uuid × Bool)
claim user instance_hash (created id) = Auth.ok (id, false)
claim user instance_hash (existing stored) = do
  id ← may_extend user instance_hash stored
  Auth.ok (id, true)
claim user instance_hash failed = fail internal "storage error"

unfoldable pub show_stored : Bool → ℕ → String
unfolding show_ℕ
show_stored true n = "attachments received (" +++ (show_ℕ n +++ " new)")
show_stored false n = "full submission upload was successful!"

module _ (outside : Outside) (caller : Caller) where
  abbrev pub user : String
  user = outside.platform.show_uuid caller.id

  -- What follows the parse.
  unfoldable pub check_instance : Draw → List AttachmentPart → Bytes → Instance → Db → Reply Ready
  unfolding get_form to_submission
  check_instance draw attachments xml parsed db = do
    form ← or_fail (get_form parsed.form_id db) not_found "unknown form"
    filled ←
        Auth.ok (
          to_submission outside.platform.floats draw.id draw.started draw.completed parsed form
            user)
    reject_all filled.1
    reject_all (map Errors.show (validate outside.platform.floats form filled.0))
    Auth.ok (record {
      form = form;
      submission = filled.0;
      instance_id = parsed.instance_id;
      instance_hash = outside.hash xml;
      attachments = attachments;
    })

  -- Everything before the insert.
  unfoldable pub check_request : Draw → List (Result MultipartError Part) → Db → Reply Ready
  unfolding read_parts parse check_instance can_write
  check_request draw body db = do
    may_submit caller
    read ← read_parts (none, []) body
    xml ← or_fail read.0 bad_request "missing xml_submission_file part"
    parsed ← or_malformed (parse outside.reader (outside.events xml))
    check_instance draw read.1 xml parsed db

  abbrev pub answer : Bool → Reply ℕ × State → Reply String × State
  answer again (Auth.ok n, s) = (Auth.ok (show_stored again n), s)
  answer again (fail status message, s) = (fail status message, s)

  -- The insert and what follows it.
  unfoldable pub file_instance : Ready → Handler String
  unfolding insert_instance field_by_filename store_attachments
  file_instance ready s =
      let inserted = insert_instance ready.submission ready.instance_id ready.instance_hash s.db in
      after_gate (claim user ready.instance_hash inserted.1)
        (λ target t. answer target.1 (
          store_attachments outside.disk target.0
            (field_by_filename ready.form.fields ready.submission.values []) ready.attachments t))
        (record s { db = inserted.0 })

  unfoldable pub submit_instance : Draw → List (Result MultipartError Part) → Handler String
  unfolding check_request file_instance
  submit_instance draw body s = after_gate (check_request draw body s.db) file_instance s
