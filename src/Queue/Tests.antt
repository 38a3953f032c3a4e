-- ===== src/Queue/Tests.antt =====
-- The laws of the queue at concrete queues.
use collecta.Prelude.{ℕ, ◌+◌, ◌≤◌, none, some, [], ◌∷◌, ◌≡◌, ◌↔◌, refl, arith, In, find}
use collecta.Values.{Instant, empty}
use collecta.Submission.{Submission, SubmissionStatus}
use collecta.Protocol.{PushResponse, accepted, duplicate}
use collecta.Queue.{
  SyncStatus, QueueItem, SyncQueue, with_max_retries, enqueue, mark_failed, due, has_id,
  apply_push_response, backoff_seconds,
}
use collecta.Queue.Backoff.{backoff_seconds_lem, backoff_bounds, backoff_wraps}
use collecta.Queue.Items.{submissions, submissions-apply_push_response}
use collecta.Queue.Status.{
  IsValid, created, next, enqueued, marked_failed, fail_times, Reach-IsValid, fail_times-status,
}
use collecta.Queue.Push.{MayPush, due_exact, Shadowed-due_again, status_of, settles}

abbrev filed : ℕ → Submission
filed id = record {
  id = id;
  form_id = 7;
  form_version = 1;
  values = empty;
  started_at = 0;
  completed_at = none;
  device_location = none;
  collector_id = none;
  status = SubmissionStatus.complete;
  attachments = [];
}

abbrev waiting : ℕ → QueueItem
waiting id = record {
  submission = filed id;
  status = SyncStatus.pending;
  retry_count = 0;
  queued_at = 5;
  last_attempt = none;
  last_error = none;
}

abbrev tried : ℕ → QueueItem
tried id = record {
  submission = filed id;
  status = SyncStatus.failed;
  retry_count = 1;
  queued_at = 5;
  last_attempt = some 100;
  last_error = some "timeout";
}

abbrev two_items : SyncQueue
two_items = record { items = waiting 1 ∷ (tried 2 ∷ []); max_retries = 3 }

-- The same submission, put in twice.
abbrev twice : SyncQueue
twice = record { items = waiting 1 ∷ (waiting 1 ∷ []); max_retries = 3 }

abbrev answer : PushResponse
answer = record {
  results =
      record { id = 1; status = accepted; message = none }
      ∷ (record { id = 2; status = duplicate; message = none } ∷ []);
}

abbrev steady : ℕ → Instant
steady n = 1000 + n

two_items-IsValid : IsValid two_items
two_items-IsValid = ((refl, refl, refl), ((omega arith, refl, refl), tt))

due_exact_example :
    In (tried 2) (due 20000000000 two_items)
    ↔ (In (tried 2) two_items.items × MayPush 20000000000 (tried 2))
due_exact_example = due_exact 20000000000 two_items (tried 2) two_items-IsValid

settles_example : status_of 2 (apply_push_response steady answer two_items) ≡ some SyncStatus.synced
settles_example = settles steady answer 2 two_items SyncStatus.failed refl refl

Shadowed-due_again_example : In (waiting 1) (due 4 (apply_push_response steady answer twice))
Shadowed-due_again_example =
    Shadowed-due_again steady answer (waiting 1) twice (waiting 1 ∷ [], [], refl, refl) refl refl 4

submissions_example :
    (submissions (apply_push_response steady answer two_items).items ≡ submissions two_items.items)
    × ((apply_push_response steady answer two_items).max_retries ≡ 3)
submissions_example = submissions-apply_push_response steady answer two_items

Reach-IsValid_example :
    IsValid (mark_failed 9 1 "offline" (enqueue 5 (filed 1) (with_max_retries 3)))
Reach-IsValid_example = Reach-IsValid (
    next (next created (enqueued (with_max_retries 3) 5 (filed 1)))
      (marked_failed (enqueue 5 (filed 1) (with_max_retries 3)) 9 1 "offline"))

fail_times-status_example :
    (j : QueueItem) × (find (has_id 1) (fail_times 3 steady 1 "offline" two_items).items ≡ some j)
    × (j.retry_count ≡ 3)
    × (j.status ≡ SyncStatus.abandoned)
fail_times-status_example =
    fail_times-status 2 steady 1 "offline" two_items (waiting 1) refl refl (omega arith)

backoff_seconds_example : backoff_seconds 4 ≡ 80
backoff_seconds_example = backoff_seconds_lem 4 (omega arith)

backoff_bounds_example :
    (5 ≤ backoff_seconds 1) × (backoff_seconds 1 ≤ backoff_seconds 6) × (backoff_seconds 6 ≤ 300)
backoff_bounds_example = backoff_bounds 1 6 (omega arith) (omega arith)

backoff_wraps_example : backoff_seconds 64 ≡ 0
backoff_wraps_example = backoff_wraps 0
