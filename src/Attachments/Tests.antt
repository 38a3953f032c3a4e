-- ===== src/Attachments/Tests.antt =====
-- The laws of the device's attachments at a concrete photo.
use collecta.Prelude.{true, arith, false, some, [], ◌∷◌, ◌≡◌, ◌≢◌}
use collecta.Values.{Uuid}
use collecta.Attachments.{
  Attachment, AttachmentStore, exceeds_limit, store_attachment, get_attachment, mark_uploaded, kept,
}
use collecta.Attachments.Laws.{first_of, get-store_attachment, get-mark_uploaded}

abbrev photo : Attachment
photo = record {
  id = 4;
  filename = "well.jpg";
  mime_type = "image/jpeg";
  size_bytes = 3;
  content = 255 ∷ (216 ∷ (255 ∷ []));
  synced = false;
}

abbrev holding : AttachmentStore
holding = record { attachments = photo ∷ [] }

get-store_attachment_example :
    ((store_attachment photo (record { attachments = [] })).1 ≡ kept 4)
    × (get_attachment 4 (store_attachment photo (record { attachments = [] })).0 ≡ some photo)
unfolding get_attachment exceeds_limit
get-store_attachment_example =
    (get-store_attachment 4 photo (record { attachments = [] })).1 (omega arith)

get-mark_uploaded_example :
    (get_attachment 4 (mark_uploaded 4 holding) ≡ some (record photo { synced = true }))
    × ((other : Uuid)
        → other ≢ 4
        → get_attachment other (mark_uploaded 4 holding) ≡ first_of other holding.attachments)
unfolding get_attachment
get-mark_uploaded_example = get-mark_uploaded 4 holding
