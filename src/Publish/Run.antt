-- ===== src/Publish/Run.antt =====
-- The handler `publish` of crates/collecta-server/src/publish.rs.
use collecta.Prelude.{
  ℕ, zero, suc, ◌+◌, ◌-◌, String, Option, none, some, List, [], ◌∷◌, ◌++◌, ◌+++◌, length, map,
  filter_map, show_ℕ, ◌==◌, if◌then◌else◌,
}
use collecta.Values.{Uuid, Instant}
use collecta.Form.{Form}
use collecta.Submission.{Submission}
use collecta.Server.{PublishTarget}
use collecta.Server.Auth.{Caller, ok, or_fail, unauthorized, not_found, service_unavailable}
use collecta.Server.FormTable.{get_form}
use collecta.Server.PublishTable.{
  publish_target, set_publish_target, unpublished_submissions, record_published, published_count,
}
use collecta.Server.Handlers.{require_owner}
use collecta.Publish.Feature.{Printer, InsertOperation, insert_operation}
use collecta.Publish.Client.{
  Call, Service, Ptolemy, commit, ◌>>=◌, ◌>>◌, continue, pure, exchange, create_target, new,
}

abbrev pub batch_size : ℕ
batch_size = 500

-- `operations.chunks(size)`: the current chunk can take `room` more.
unfoldable pub chunks_from :
    {A : Type 0} → (size room : ℕ) → (current : List A) → List A → List (List A)
chunks_from size room [] [] = []
chunks_from size room (c ∷ current) [] = (c ∷ current) ∷ []
chunks_from size zero current (x ∷ xs) = current ∷ chunks_from size (size - 1) (x ∷ []) xs
chunks_from size (suc room) current (x ∷ xs) = chunks_from size room (current ++ (x ∷ [])) xs

unfoldable pub chunks : {A : Type 0} → ℕ → List A → List (List A)
unfolding chunks_from
chunks size xs = chunks_from size size [] xs

unfoldable pub commit_message : String → ℕ → String
unfolding show_ℕ
commit_message title count =
    "collecta: "
    +++ (show_ℕ count
        +++ (" submission" +++ ((if count == 1 then "" else "s") +++ (" of " +++ title))))

pub record PublishResponse : Type 0 where
  pub target : PublishTarget
  pub published : ℕ
  pub skipped : ℕ
  pub total_published : ℕ

-- The server's settings that publishing reads.
pub record Settings : Type 0 where
  pub service : Service
  pub printer : Printer
  pub ptolemy_url : Option String
  pub base_url : Option String

abbrev pub feature_ids : List InsertOperation → List Uuid
feature_ids operations = map (λ o. o.feature_id) operations

abbrev pub operations_of : Settings → Form → List Submission → List InsertOperation
operations_of settings form pending =
    filter_map (insert_operation settings.printer settings.base_url form) pending

module _ (settings : Settings) (now : Instant) (form_id : Uuid) where
  abbrev pub record_batch : List Uuid → Call Unit
  record_batch ids w = (
    ok tt,
    record w { state = record w.state { db = record_published form_id now ids w.state.db } },
  )

  -- The loop over the batches; `published` counts those before.
  unfoldable pub publish_batches :
      Ptolemy → (branch : Uuid) → (title author : String) → ℕ → List (List InsertOperation) → Call ℕ
  publish_batches ptolemy branch title author published [] = pure (ok published)
  publish_batches ptolemy branch title author published (batch ∷ rest) = do
    exchange settings.service ptolemy
        (commit branch (commit_message title (length batch)) author batch)
    record_batch (feature_ids batch)
    publish_batches ptolemy branch title author (published + length batch) rest

  abbrev pub keep_target : PublishTarget → Call PublishTarget
  keep_target target w = (
    ok target,
    record w { state = record w.state { db = set_publish_target form_id target w.state.db } },
  )

  abbrev pub target_or_create : Ptolemy → Form → String → Option PublishTarget → Call PublishTarget
  target_or_create ptolemy form author (some target) = pure (ok target)
  target_or_create ptolemy form author none = do
    target ← create_target settings.service ptolemy form author
    keep_target target

  -- What is left once the target is known.
  unfoldable pub publish_pending : Ptolemy → Form → String → PublishTarget → Call PublishResponse
  publish_pending ptolemy form author target w =
      let pending = unpublished_submissions form_id w.state.db in
      let operations = operations_of settings form pending in
      continue
        (publish_batches ptolemy target.branch_id form.title author 0 (chunks batch_size operations)
          w)
        (λ published v. (
          ok (record {
            target = target;
            published = published;
            skipped = length pending - length operations;
            total_published = published_count form_id v.state.db;
          }),
          v,
        ))

  unfoldable pub publish : Caller → (token : Option String) → Call PublishResponse
  publish caller token w =
      (do
        pure (require_owner caller form_id w.state.db)
        base ← pure (
            or_fail settings.ptolemy_url service_unavailable
              "COLLECTA_PTOLEMY_URL is not set, so there is no ptolemy to publish to")
        bearer ← pure (
            or_fail token unauthorized
              "publishing forwards the caller's bearer token, and this request carries none")
        form ← pure (or_fail (get_form form_id w.state.db) not_found "form not found")
        let ptolemy = new base bearer
        let author = settings.service.show_uuid caller.id
        target ← target_or_create ptolemy form author (publish_target form_id w.state.db)
        publish_pending ptolemy form author target)
        w
