-- ===== src/ContentType/Tests.antt =====
-- The content type of an upload that claims "IMAGE/JPEG; q=1".
use collecta.Prelude.{String, true, ◌≡◌, ◌⊎◌, In, eq_ignore_case}
use collecta.ContentType.{
  opaque_content_type, capture_content_types, recorded_content_type, media_type,
}
use collecta.ContentType.Laws.{recorded_content_type-safe}

abbrev claim : String
claim = "IMAGE/JPEG; q=1"

recorded_content_type-safe_example :
    ((recorded_content_type claim ≡ opaque_content_type)
      ⊎ (In (recorded_content_type claim) capture_content_types
          × (eq_ignore_case (recorded_content_type claim) (media_type claim) ≡ true)))
    × (recorded_content_type (recorded_content_type claim) ≡ recorded_content_type claim)
recorded_content_type-safe_example = recorded_content_type-safe claim
