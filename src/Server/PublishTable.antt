-- ===== src/Server/PublishTable.antt =====
-- crates/collecta-server/src/store.rs: where a form publishes, and what it has published.
use collecta.Prelude.{
  ℕ, Bool, ◌&&◌, not, Option, some, List, [], ◌∷◌, ◌++◌, length, keep, any, map, ◌==◌, ◌>>=◌,
  if◌then◌else◌,
}
use collecta.Values.{Uuid, Instant}
use collecta.Submission.{Submission}
use collecta.Server.{FormRow, PublishedRow, PublishTarget, Db}
use collecta.Server.FormTable.{live_row}

unfoldable pub publish_target : Uuid → Db → Option PublishTarget
publish_target form_id db = live_row form_id db.forms >>= λ row. row.target

abbrev pub aim : Uuid → PublishTarget → FormRow → FormRow
aim form_id target row = if row.id == form_id then record row { target = some target } else row

unfoldable pub set_publish_target : Uuid → PublishTarget → Db → Db
set_publish_target form_id target db = record db { forms = map (aim form_id target) db.forms }

abbrev pub is_published : List PublishedRow → Uuid → Bool
is_published published id = any (λ p. p.submission_id == id) published

-- The left join that keeps the rows with no match.
unfoldable pub unpublished_submissions : Uuid → Db → List Submission
unpublished_submissions form_id db =
    map (λ row. row.submission)
      (keep (λ row. row.form_id == form_id && not (is_published db.published row.id))
        db.submissions)

-- One `INSERT OR IGNORE` of the loop.
abbrev pub record_one : Uuid → Instant → Uuid → List PublishedRow → List PublishedRow
record_one form_id now id published =
    if is_published published id
    then published
    else published ++ (record { submission_id = id; form_id = form_id; published_at = now } ∷ [])

unfoldable pub record_rows : Uuid → Instant → List Uuid → List PublishedRow → List PublishedRow
record_rows form_id now [] published = published
record_rows form_id now (id ∷ ids) published =
    record_rows form_id now ids (record_one form_id now id published)

unfoldable pub record_published : Uuid → Instant → List Uuid → Db → Db
unfolding record_rows
record_published form_id now ids db = record db {
  published = record_rows form_id now ids db.published;
}

unfoldable pub published_count : Uuid → Db → ℕ
published_count form_id db = length (keep (λ p. p.form_id == form_id) db.published)
