-- ===== src/ContentType.antt =====
-- crates/collecta-server/src/attachment.rs: the content type that an upload is recorded under.
pub mod Laws
mod Tests
use collecta.Prelude.{
  String, Option, none, some, List, [], ◌∷◌, trim, split_on, eq_ignore_case, find,
}

abbrev pub opaque_content_type : String
opaque_content_type = "application/octet-stream"

abbrev pub capture_content_types : List String
capture_content_types =
    "image/jpeg"
    ∷ ("image/png"
        ∷ ("image/webp"
            ∷ ("image/heic"
                ∷ ("audio/3gpp"
                    ∷ ("audio/aac"
                        ∷ ("audio/mp4"
                            ∷ ("audio/mpeg"
                                ∷ ("audio/ogg"
                                    ∷ ("audio/wav"
                                        ∷ ("video/3gpp"
                                            ∷ ("video/mp4"
                                                ∷ ("video/quicktime"
                                                    ∷ ("video/webm"
                                                        ∷ ("application/pdf" ∷ []))))))))))))))

-- `next().unwrap_or_default()`
abbrev pub first_part : List String → String
first_part [] = ""
first_part (s ∷ rest) = s

abbrev pub or_opaque : Option String → String
or_opaque none = opaque_content_type
or_opaque (some s) = s

abbrev pub media_type : String → String
unfolding split_on trim
media_type claimed = trim (first_part (split_on b';' claimed))

unfoldable pub recorded_content_type : String → String
unfolding media_type
recorded_content_type claimed =
    or_opaque (find (λ capture. eq_ignore_case capture (media_type claimed)) capture_content_types)
