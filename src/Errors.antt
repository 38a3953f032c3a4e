-- ===== src/Errors.antt =====
-- crates/collecta-core/src/error.rs
use collecta.Prelude.{ℕ, String, ◌+++◌, show_ℕ}

pub data Error : Type 0 where
  required_field : String → Error
  validation_failed : (field reason : String) → Error
  unknown_field : String → Error
  form_not_found : String → Error
  attachment_too_large : (max_bytes actual_bytes : ℕ) → Error
  sync_failed : String → Error
  serde_error : String → Error

-- `Display::fmt`
unfoldable pub show : Error → String
unfolding show_ℕ
show (required_field name) = "required field missing: " +++ name
show (validation_failed field reason) = "validation failed for '" +++ (field +++ ("': " +++ reason))
show (unknown_field name) = "unknown field: " +++ name
show (form_not_found id) = "form not found: " +++ id
show (attachment_too_large max_bytes actual_bytes) =
    "attachment too large: "
    +++ (show_ℕ actual_bytes +++ (" > " +++ (show_ℕ max_bytes +++ " bytes")))
show (sync_failed msg) = "sync failed: " +++ msg
show (serde_error msg) = "serialization error: " +++ msg
