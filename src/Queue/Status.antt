-- ===== src/Queue/Status.antt =====
-- The life of a queued item in crates/collecta-core/src/sync_queue.rs: an invariant over every
-- operation, and the number of failures after which an item is abandoned.
use collecta.Prelude.{
  ℕ, zero, suc, ◌+◌, ◌≤◌, ◌<◌, ◌%◌, ◌^◌, String, Bool, true, Option, none, some, List, [], ◌∷◌, ◌≡◌,
  refl, ap, ◌∙◌, find, modify_first, Bool-cases, All, All-append, arith, inl, inr, if◌then◌else◌,
  is_some, leb,
}
use collecta.Values.{Uuid, Instant}
use collecta.Submission.{Submission}
use collecta.Protocol.{PushItemResult, PushResponse, PushItemStatus, accepted, duplicate, error}
use collecta.Queue.{
  QueueItem, SyncQueue, SyncStatus, has_id, fail_item, mark_synced, mark_failed, apply_status,
  apply_from, apply_push_response, enqueue, fresh_item, with_max_retries,
}
use collecta.Queue.Items.{find-modify_first_self}

-- What each status says of the rest of an item.
abbrev pub StatusOk : ℕ → SyncStatus → ℕ → Option Instant → Option String → Type 0
StatusOk max SyncStatus.pending retries attempt message =
    (retries ≡ 0) × (attempt ≡ none) × (message ≡ none)
StatusOk max SyncStatus.in_progress retries attempt message = ⊥
StatusOk max SyncStatus.synced retries attempt message = is_some attempt ≡ true
StatusOk max SyncStatus.failed retries attempt message =
    (retries < max) × (is_some attempt ≡ true) × (is_some message ≡ true)
StatusOk max SyncStatus.abandoned retries attempt message =
    (max ≤ retries) × (is_some attempt ≡ true) × (is_some message ≡ true)

abbrev pub ItemOk : ℕ → QueueItem → Type 0
ItemOk max i = StatusOk max i.status i.retry_count i.last_attempt i.last_error

-- A waiting item was never tried; a failed one has retries left, an abandoned one has none, and
-- both carry the attempt and the error; none is ever in progress.
abbrev pub IsValid : SyncQueue → Type 0
IsValid q = All (ItemOk q.max_retries) q.items

All-modify_first :
    (P : QueueItem → Type 0) (p : QueueItem → Bool) (f : QueueItem → QueueItem)
    (xs : List QueueItem)
    → ((i : QueueItem) → P i → P (f i))
    → All P xs
    → All P (modify_first p f xs)
All-modify_first P p f [] step a = a
All-modify_first P p f (x ∷ xs) step a = elim (Bool-cases (p x)) [
  | inl e ↦ rw e (step x a.0, a.1)
  | inr e ↦ rw e (a.0, All-modify_first P p f xs step a.1)
]

fail_item-ItemOk :
    (max : ℕ) (now : Instant) (m : String) (i : QueueItem) → ItemOk max (fail_item max now m i)
fail_item-ItemOk max now m i = elim (Bool-cases (leb max ((i.retry_count + 1) % 2 ^ 32))) [
  | inl e ↦ rw e (ground arith, refl, refl)
  | inr e ↦ rw e (ground arith, refl, refl)
]

mark_synced-IsValid :
    (now : Instant) (id : Uuid) (q : SyncQueue) → IsValid q → IsValid (mark_synced now id q)
unfolding mark_synced
mark_synced-IsValid now id q = All-modify_first _ _ _ q.items (λ i h. refl)

mark_failed-IsValid :
    (now : Instant) (id : Uuid) (m : String) (q : SyncQueue)
    → IsValid q
    → IsValid (mark_failed now id m q)
unfolding mark_failed
mark_failed-IsValid now id m q =
    All-modify_first _ _ _ q.items (λ i h. fail_item-ItemOk q.max_retries now m i)

apply_result-IsValid :
    (now : Instant) (s : PushItemStatus) (id : Uuid) (m : Option String) (q : SyncQueue)
    → IsValid q
    → IsValid (apply_status now s id m q)
apply_result-IsValid now accepted id m q = mark_synced-IsValid now id q
apply_result-IsValid now duplicate id m q = mark_synced-IsValid now id q
apply_result-IsValid now error id m q = mark_failed-IsValid now id _ q

apply_from-IsValid :
    (clock : ℕ → Instant) (n : ℕ) (rs : List PushItemResult) (q : SyncQueue)
    → IsValid q
    → IsValid (apply_from clock n rs q)
unfolding apply_from
apply_from-IsValid clock n [] q v = v
apply_from-IsValid clock n (r ∷ rs) q v =
    apply_from-IsValid clock (suc n) rs _
      (apply_result-IsValid (clock n) r.status r.id r.message q v)

-- The operations that change a queue.
pub data Step : SyncQueue → SyncQueue → Type 0 where
  enqueued : (q : SyncQueue) (now : Instant) (s : Submission) → Step q (enqueue now s q)
  marked_synced : (q : SyncQueue) (now : Instant) (id : Uuid) → Step q (mark_synced now id q)
  marked_failed :
      (q : SyncQueue) (now : Instant) (id : Uuid) (m : String) → Step q (mark_failed now id m q)
  answered :
      (q : SyncQueue) (clock : ℕ → Instant) (response : PushResponse)
      → Step q (apply_push_response clock response q)

-- What a queue with this limit can become.
pub data Reach (max : ℕ) : SyncQueue → Type 0 where
  created : Reach max (with_max_retries max)
  next : {q r : SyncQueue} → Reach max q → Step q r → Reach max r

Step-IsValid : {q r : SyncQueue} → Step q r → IsValid q → IsValid r
unfolding enqueue apply_push_response
Step-IsValid (enqueued q now s) v =
    All-append (ItemOk q.max_retries) q.items (fresh_item now s ∷ []) v ((refl, refl, refl), tt)
Step-IsValid (marked_synced q now id) v = mark_synced-IsValid now id q v
Step-IsValid (marked_failed q now id m) v = mark_failed-IsValid now id m q v
Step-IsValid (answered q clock response) v = apply_from-IsValid clock 0 response.results q v

-- Every queue that its operations can reach is valid.
pub Reach-IsValid : {max : ℕ} {q : SyncQueue} → Reach max q → IsValid q
unfolding with_max_retries
Reach-IsValid created = tt
Reach-IsValid (next r st) = Step-IsValid st (Reach-IsValid r)

-- Failed attempts of one item, the k-th at time `clock k`.
abbrev pub fail_times : ℕ → (ℕ → Instant) → Uuid → String → SyncQueue → SyncQueue
fail_times zero clock id m q = q
fail_times (suc k) clock id m q = mark_failed (clock k) id m (fail_times k clock id m q)

abbrev failed_item : ℕ → ℕ → (ℕ → Instant) → String → QueueItem → QueueItem
failed_item max zero clock m i = i
failed_item max (suc k) clock m i = fail_item max (clock k) m (failed_item max k clock m i)

fail_times-find :
    (k : ℕ) (clock : ℕ → Instant) (id : Uuid) (m : String) (q : SyncQueue) (i : QueueItem)
    → find (has_id id) q.items ≡ some i
    → (find (has_id id) (fail_times k clock id m q).items
        ≡ some (failed_item q.max_retries k clock m i))
      × ((fail_times k clock id m q).max_retries ≡ q.max_retries)
unfolding mark_failed
fail_times-find zero clock id m q i h = (h, refl)
fail_times-find (suc k) clock id m q i h =
    let before = fail_times-find k clock id m q i h in
    (
      rw (
        find-modify_first_self id (fail_item (fail_times k clock id m q).max_retries (clock k) m)
            (λ j. refl) (fail_times k clock id m q).items,
        before.0,
        before.1,
      ),
      before.1,
    )

failed_item-retries :
    (max k : ℕ) (clock : ℕ → Instant) (m : String) (i : QueueItem)
    → i.retry_count + k < 2 ^ 32
    → (failed_item max k clock m i).retry_count ≡ i.retry_count + k
failed_item-retries max zero clock m i h = omega arith
failed_item-retries max (suc k) clock m i h =
    omega (arith, failed_item-retries max k clock m i (omega arith))

-- An item that has failed k + 1 times, counted from one that was never tried, is abandoned exactly
-- if the limit is at most k + 1, and waits for a retry otherwise; its count is k + 1, below 2^32.
pub fail_times-status :
    (k : ℕ) (clock : ℕ → Instant) (id : Uuid) (m : String) (q : SyncQueue) (i : QueueItem)
    → find (has_id id) q.items ≡ some i
    → i.retry_count ≡ 0
    → suc k < 2 ^ 32
    → (j : QueueItem) × (find (has_id id) (fail_times (suc k) clock id m q).items ≡ some j)
      × (j.retry_count ≡ suc k)
      × (j.status ≡ (if leb q.max_retries (suc k) then SyncStatus.abandoned else SyncStatus.failed))
fail_times-status k clock id m q i h zero_retries room =
    let count = failed_item-retries q.max_retries (suc k) clock m i (omega arith) ∙ omega arith in
    (
      failed_item q.max_retries (suc k) clock m i,
      (fail_times-find (suc k) clock id m q i h).0,
      count,
      ap (λ n. if leb q.max_retries n then SyncStatus.abandoned else SyncStatus.failed) count,
    )
