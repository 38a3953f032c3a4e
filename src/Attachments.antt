-- ===== src/Attachments.antt =====
-- crates/collecta-core/src/attachment.rs: the attachments that a device holds. A fresh id is an
-- argument.
pub mod Laws
mod Tests
use collecta.Prelude.{
  ℕ, ◌+◌, ◌*◌, ◌%◌, ◌^◌, String, Bool, true, false, not, Option, List, [], ◌∷◌, ◌++◌, length, keep,
  find, modify_first, ltb, ◌==◌, if◌then◌else◌,
}
use collecta.Values.{Uuid}
use collecta.Errors.{Error, attachment_too_large}

abbrev pub max_attachment_size : ℕ
max_attachment_size = 50 * 1024 * 1024

pub record Attachment : Type 0 where
  pub id : Uuid
  pub filename : String
  pub mime_type : String
  pub size_bytes : ℕ
  -- `data`, one number for each byte
  pub content : List ℕ
  pub synced : Bool

-- `Attachment::new`
unfoldable pub new_attachment : Uuid → (filename mime_type : String) → List ℕ → Attachment
new_attachment id filename mime_type content = record {
  id = id;
  filename = filename;
  mime_type = mime_type;
  size_bytes = length content;
  content = content;
  synced = false;
}

unfoldable pub exceeds_limit : Attachment → Bool
exceeds_limit a = ltb max_attachment_size a.size_bytes

-- `AttachmentStore`
pub record AttachmentStore : Type 0 where
  pub attachments : List Attachment

unfoldable pub empty_store : AttachmentStore
empty_store = record { attachments = [] }

-- What `store` answers.
pub data Stored : Type 0 where
  kept : Uuid → Stored
  refused : Error → Stored

-- `AttachmentStore::store`
unfoldable pub store_attachment : Attachment → AttachmentStore → AttachmentStore × Stored
unfolding exceeds_limit
store_attachment a s =
    if exceeds_limit a
    then (s, refused (attachment_too_large max_attachment_size a.size_bytes))
    else (record { attachments = s.attachments ++ (a ∷ []) }, kept a.id)

-- `AttachmentStore::get`
unfoldable pub get_attachment : Uuid → AttachmentStore → Option Attachment
get_attachment id s = find (λ a. a.id == id) s.attachments

unfoldable pub unsynced : AttachmentStore → List Attachment
unsynced s = keep (λ a. not a.synced) s.attachments

abbrev pub set_synced : Attachment → Attachment
set_synced a = record a { synced = true }

-- `AttachmentStore::mark_synced`
unfoldable pub mark_uploaded : Uuid → AttachmentStore → AttachmentStore
mark_uploaded id s = record {
  attachments = modify_first (λ a. a.id == id) set_synced s.attachments;
}

-- The sum is that of `u64`, which wraps in a release build.
abbrev pub sum_sizes : List Attachment → ℕ
sum_sizes [] = 0
sum_sizes (a ∷ rest) = (a.size_bytes + sum_sizes rest) % 2 ^ 64

unfoldable pub total_size : AttachmentStore → ℕ
total_size s = sum_sizes s.attachments

-- `AttachmentStore::len`
unfoldable pub count_attachments : AttachmentStore → ℕ
count_attachments s = length s.attachments

-- `AttachmentStore::is_empty`
unfoldable pub has_no_attachments : AttachmentStore → Bool
has_no_attachments s = length s.attachments == 0
