-- ===== src/Rosa/Parts.antt =====
-- The parts of a submission request: `read_parts` of
-- crates/collecta-server/src/openrosa/submission.rs. The body is the list of the parts that the
-- multipart reader, another crate, yields, each a list of chunks; an error stands where it arises.
use collecta.Prelude.{
  ℕ, ◌+◌, String, Option, none, some, List, [], ◌∷◌, ◌++◌, length, str_eq, ltb, if◌then◌else◌,
}
use collecta.Rosa.Result.{Result, ok, err}
use collecta.Server.Auth as Auth
use collecta.Server.Auth.{Reply, fail, ◌>>=◌, payload_too_large, bad_request}

-- One number for each byte
abbrev pub Bytes : Type 0
Bytes = List ℕ

pub data MultipartError : Type 0 where
  over_limit garbled : MultipartError

-- `Field`
pub record Part : Type 0 where
  pub name : Option String
  pub filename : Option String
  pub content_type : Option String
  pub chunks : List (Result MultipartError Bytes)

pub record AttachmentPart : Type 0 where
  pub name : String
  pub filename : Option String
  pub content_type : String
  pub content : Bytes

abbrev pub max_content_length : ℕ
max_content_length = 52_428_800

abbrev pub instance_part : String
instance_part = "xml_submission_file"

abbrev pub incomplete_part : String
incomplete_part = "*isIncomplete*"

unfoldable pub multipart_error : {A : Type 0} → MultipartError → Reply A
multipart_error over_limit = fail payload_too_large "submission exceeds the accepted content length"
multipart_error garbled = fail bad_request "malformed multipart body"

-- The loop of `read_capped`
unfoldable pub read_capped : Bytes → List (Result MultipartError Bytes) → Reply Bytes
unfolding multipart_error
read_capped taken [] = Auth.ok taken
read_capped taken (err e ∷ rest) = multipart_error e
read_capped taken (ok chunk ∷ rest) =
    let read = read_capped (taken ++ chunk) rest in
    if ltb max_content_length (length taken + length chunk)
    then fail payload_too_large "attachment exceeds the accepted content length"
    else read

abbrev pub or_text : String → Option String → String
or_text default none = default
or_text default (some s) = s

abbrev pub attachment_part : Part → Bytes → AttachmentPart
attachment_part part content = record {
  name = or_text "" part.name;
  filename = part.filename;
  content_type = or_text "application/octet-stream" part.content_type;
  content = content;
}

-- What a part that was read adds.
abbrev pub add_part :
    Part → Bytes → Option Bytes × List AttachmentPart → Option Bytes × List AttachmentPart
add_part part content (xml, attachments) =
    if str_eq (or_text "" part.name) incomplete_part
    then (xml, attachments)
    else if str_eq (or_text "" part.name) instance_part
    then (some content, attachments)
    else (xml, attachments ++ (attachment_part part content ∷ []))

-- The loop of `read_parts`
unfoldable pub read_parts :
    Option Bytes × List AttachmentPart
    → List (Result MultipartError Part)
    → Reply (Option Bytes × List AttachmentPart)
unfolding read_capped multipart_error
read_parts so_far [] = Auth.ok so_far
read_parts so_far (err e ∷ rest) = multipart_error e
read_parts so_far (ok part ∷ rest) = do
  content ← read_capped [] part.chunks
  read_parts (add_part part content so_far) rest
