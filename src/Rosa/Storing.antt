-- ===== src/Rosa/Storing.antt =====
-- The attachments of a submission request: `store_attachments` of
-- crates/collecta-server/src/openrosa/submission.rs. Whether the disk takes a directory or a file, the
-- paths and the fresh ids are parameters; the bytes of the files are not part of the state.
use collecta.Prelude.{
  ℕ, ◌+◌, String, Bool, true, false, Option, none, some, List, [], ◌∷◌, length, any, str_eq, ◌==◌,
  if◌then◌else◌,
}
use collecta.Values.{Uuid, Values, FieldValue, get, text}
use collecta.Form.{FieldType, FieldInfo, Fields, no_fields, field, info}
use collecta.Server.{AttachmentRow}
use collecta.Server.Auth.{ok, fail, internal}
use collecta.Server.AttachmentTable.{add_attachment, attached_filenames}
use collecta.Server.Handlers.{State, Handler, after_gate}
use collecta.ContentType.{recorded_content_type}
use collecta.Rosa.Parts.{Bytes, AttachmentPart, or_text}

-- The file system and the generator of ids. The id of a request's n-th new attachment is `fresh n`.
pub record Disk : Type 0 where
  pub takes_directory : Uuid → Bool
  pub takes_file : (submission attachment : Uuid) → Bytes → Bool
  pub path : (submission attachment : Uuid) → String
  pub fresh : ℕ → Uuid

-- `HashMap<String, String>`; the entry that was inserted last stands first.
abbrev pub Names : Type 0
Names = List (String × String)

unfoldable pub look_up : String → Names → Option String
look_up key [] = none
look_up key ((k, v) ∷ rest) = if str_eq k key then some v else look_up key rest

abbrev pub or_else : Option String → Option String → Option String
or_else (some s) o = some s
or_else none o = o

abbrev pub is_binary : FieldType → Bool
is_binary FieldType.photo = true
is_binary FieldType.audio = true
is_binary FieldType.video = true
is_binary FieldType.file = true
is_binary FieldType.signature = true
is_binary _ = false

abbrev pub name_file : FieldInfo → Option FieldValue → Names → Names
name_file f (some (text filename)) names =
    if is_binary f.field_type then (filename, f.name) ∷ names else names
name_file f _ names = names

unfoldable pub field_by_filename : Fields → Values → Names → Names
unfolding get
field_by_filename no_fields values names = names
field_by_filename (field f rest) values names =
    field_by_filename rest values (name_file (info f) (get (info f).name values) names)

abbrev pub client_name : AttachmentPart → String
client_name a = or_text a.name a.filename

module _ (disk : Disk) (submission_id : Uuid) where
  unfoldable pub attachment_row : Names → AttachmentPart → Uuid → AttachmentRow
  unfolding look_up recorded_content_type
  attachment_row names a id = record {
    id = id;
    submission_id = submission_id;
    field_name = or_text "" (or_else (look_up a.name names) (look_up (client_name a) names));
    filename = client_name a;
    content_type = recorded_content_type a.content_type;
    size_bytes = length a.content;
    storage_path = disk.path submission_id id;
  }

  -- One round of the loop; `n` attachments are stored before it.
  unfoldable pub store_one : List String → Names → AttachmentPart → ℕ → Handler ℕ
  unfolding attachment_row add_attachment
  store_one already names a n s =
      if any (λ known. str_eq known (client_name a)) already
      then (ok n, s)
      else if disk.takes_file submission_id (disk.fresh n) a.content
      then (
        ok (n + 1),
        record s { db = add_attachment (attachment_row names a (disk.fresh n)) s.db },
      )
      else (fail internal "cannot store attachment", s)

  unfoldable pub store_each : List String → Names → List AttachmentPart → ℕ → Handler ℕ
  unfolding store_one
  store_each already names [] n s = (ok n, s)
  store_each already names (a ∷ rest) n s =
      let one = store_one already names a n s in
      after_gate one.0 (store_each already names rest) one.1

  -- `create_dir_all`
  abbrev pub make_directory : State → State
  make_directory s =
      if any (λ d. d == submission_id) s.directories
      then s
      else record s { directories = submission_id ∷ s.directories }

  unfoldable pub store_attachments : Names → List AttachmentPart → Handler ℕ
  store_attachments names [] s = (ok 0, s)
  store_attachments names (a ∷ rest) s =
      if disk.takes_directory submission_id
      then store_each (attached_filenames submission_id s.db) names (a ∷ rest) 0 (make_directory s)
      else (fail internal "cannot store attachment", s)
