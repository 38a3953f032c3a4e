-- ===== src/Protocol.antt =====
-- crates/collecta-core/src/sync_protocol.rs: the messages of the sync protocol.
use collecta.Prelude.{String, Option, List}
use collecta.Values.{Uuid}
use collecta.Submission.{Submission}
use collecta.Form.{Form}

pub record PushRequest : Type 0 where
  pub submissions : List Submission

pub data PushItemStatus : Type 0 where
  accepted duplicate error : PushItemStatus

pub record PushItemResult : Type 0 where
  pub id : Uuid
  pub status : PushItemStatus
  pub message : Option String

pub record PushResponse : Type 0 where
  pub results : List PushItemResult

-- The cursor's type is that of the server, which alone reads it.
pub record FormsPullResponse (Cursor : Type 0) : Type 0 where
  pub forms : List Form
  pub deleted : List Uuid
  pub cursor : Cursor
