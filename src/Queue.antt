-- ===== src/Queue.antt =====
-- crates/collecta-core/src/sync_queue.rs: the offline submission queue. The clock is an argument.
pub mod Backoff
pub mod Items
pub mod Status
pub mod Push
mod Tests
use collecta.Prelude.{
  ℕ, suc, ◌+◌, ◌-◌, ◌*◌, ◌%◌, ◌^◌, min, String, Bool, true, false, ◌&&◌, ◌||◌, Option, none, some,
  List, [], ◌∷◌, ◌++◌, map, length, keep, modify_first, ltb, leb, ◌==◌, if◌then◌else◌, ◌>>=◌,
}
use collecta.Values.{Uuid, Instant}
use collecta.Submission.{Submission}
use collecta.Protocol.{
  PushRequest, PushItemStatus, PushItemResult, PushResponse, accepted, duplicate, error,
}

pub data SyncStatus : Type 0 where
  pending in_progress synced failed abandoned : SyncStatus

-- `SyncStatus`'s derived `==`
abbrev pub status_eq : SyncStatus → SyncStatus → Bool
status_eq SyncStatus.pending SyncStatus.pending = true
status_eq SyncStatus.in_progress SyncStatus.in_progress = true
status_eq SyncStatus.synced SyncStatus.synced = true
status_eq SyncStatus.failed SyncStatus.failed = true
status_eq SyncStatus.abandoned SyncStatus.abandoned = true
status_eq _ _ = false

pub record QueueItem : Type 0 where
  pub submission : Submission
  pub status : SyncStatus
  pub retry_count : ℕ
  pub queued_at : Instant
  pub last_attempt : Option Instant
  pub last_error : Option String

pub record SyncQueue : Type 0 where
  pub items : List QueueItem
  pub max_retries : ℕ

unfoldable pub with_max_retries : ℕ → SyncQueue
with_max_retries max_retries = record { items = []; max_retries = max_retries }

unfoldable pub new : SyncQueue
unfolding with_max_retries
new = with_max_retries 5

abbrev pub fresh_item : Instant → Submission → QueueItem
fresh_item now s = record {
  submission = s;
  status = SyncStatus.pending;
  retry_count = 0;
  queued_at = now;
  last_attempt = none;
  last_error = none;
}

unfoldable pub enqueue : Instant → Submission → SyncQueue → SyncQueue
enqueue now s q = record q { items = q.items ++ (fresh_item now s ∷ []) }

abbrev pub is_pending : ℕ → QueueItem → Bool
is_pending max_retries item =
    status_eq item.status SyncStatus.pending
    || (status_eq item.status SyncStatus.failed && ltb item.retry_count max_retries)

-- `SyncQueue::pending`
unfoldable pub pending_items : SyncQueue → List QueueItem
pending_items q = keep (is_pending q.max_retries) q.items

abbrev pub has_id : Uuid → QueueItem → Bool
has_id id item = item.submission.id == id

abbrev pub sync_item : Instant → QueueItem → QueueItem
sync_item now item = record item { status = SyncStatus.synced; last_attempt = some now }

unfoldable pub mark_synced : Instant → Uuid → SyncQueue → SyncQueue
mark_synced now id q = record q { items = modify_first (has_id id) (sync_item now) q.items }

-- The increment is that of a `u32`, which wraps in a release build.
abbrev pub bump : ℕ → ℕ
bump n = (n + 1) % 2 ^ 32

abbrev pub fail_item : ℕ → Instant → String → QueueItem → QueueItem
fail_item max_retries now message item = record item {
  retry_count = bump item.retry_count;
  last_attempt = some now;
  last_error = some message;
  status =
      if leb max_retries (bump item.retry_count) then SyncStatus.abandoned else SyncStatus.failed;
}

unfoldable pub mark_failed : Instant → Uuid → String → SyncQueue → SyncQueue
mark_failed now id message q = record q {
  items = modify_first (has_id id) (fail_item q.max_retries now message) q.items;
}

-- Both the power and the product are `u64` operations, which wrap in a release build.
unfoldable pub backoff_seconds : ℕ → ℕ
backoff_seconds retry_count = min ((5 * (2 ^ retry_count % 2 ^ 64)) % 2 ^ 64) 300

-- `Duration::seconds`
abbrev pub seconds : ℕ → ℕ
seconds n = n * 1_000_000_000

unfoldable pub next_attempt_at : QueueItem → Option Instant
next_attempt_at item = do
  last_attempt ← item.last_attempt
  some (last_attempt + seconds (backoff_seconds (item.retry_count - 1)))

-- `is_none_or(|due| due <= now)`
abbrev pub reached : Instant → Option Instant → Bool
reached now none = true
reached now (some at) = leb at now

abbrev pub is_due : Instant → QueueItem → Bool
is_due now item = reached now (next_attempt_at item)

unfoldable pub due : Instant → SyncQueue → List QueueItem
unfolding pending_items
due now q = keep (is_due now) (pending_items q)

unfoldable pub len : SyncQueue → ℕ
len q = length q.items

unfoldable pub is_empty : SyncQueue → Bool
is_empty q = length q.items == 0

unfoldable pub count_by_status : SyncStatus → SyncQueue → ℕ
count_by_status status q = length (keep (λ i. status_eq i.status status) q.items)

unfoldable pub build_push_request : Instant → SyncQueue → PushRequest
unfolding due
build_push_request now q = record { submissions = map (λ i. i.submission) (due now q) }

abbrev pub message_or : Option String → String
message_or none = "server rejected submission"
message_or (some m) = m

abbrev pub apply_status : Instant → PushItemStatus → Uuid → Option String → SyncQueue → SyncQueue
apply_status now accepted id message q = mark_synced now id q
apply_status now duplicate id message q = mark_synced now id q
apply_status now error id message q = mark_failed now id (message_or message) q

-- The body of the loop over the results.
abbrev pub apply_result : Instant → PushItemResult → SyncQueue → SyncQueue
apply_result now r q = apply_status now r.status r.id r.message q

-- The loop; the i-th result reads the clock as `clock i`.
unfoldable pub apply_from : (clock : ℕ → Instant) → ℕ → List PushItemResult → SyncQueue → SyncQueue
apply_from clock i [] q = q
apply_from clock i (r ∷ rs) q = apply_from clock (suc i) rs (apply_result (clock i) r q)

unfoldable pub apply_push_response : (clock : ℕ → Instant) → PushResponse → SyncQueue → SyncQueue
unfolding apply_from
apply_push_response clock response q = apply_from clock 0 response.results q
