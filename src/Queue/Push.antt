-- ===== src/Queue/Push.antt =====
-- The push batch in crates/collecta-core/src/sync_queue.rs: what it holds, and what the server's
-- answer does to the item of each result.
use mathlib.Core.Path.{subst}
use collecta.Prelude.{
  ℕ, suc, ◌+◌, ◌-◌, ◌≤◌, ◌≢◌, String, Bool, true, false, ◌&&◌, ◌||◌, not, Option, none, some, List,
  [], ◌∷◌, ◌≡◌, refl, ◌∙◌, ◌⊎◌, inl, inr, ◌↔◌, find, any, all, In, All-In, In-keep, keep-In,
  In-append_right, Bool-cases, ==_iff, arith, ltb, is_some, if◌then◌else◌, ◌==◌, ◌>>=◌,
}
use collecta.Values.{Uuid, Instant}
use collecta.Protocol.{PushItemResult, PushResponse, PushItemStatus, accepted, duplicate, error}
use collecta.Queue.{
  QueueItem, SyncQueue, SyncStatus, has_id, mark_synced, mark_failed, apply_status, apply_result,
  apply_from, apply_push_response, due, is_pending, is_due, next_attempt_at, seconds,
  backoff_seconds, status_eq, reached, sync_item, fail_item, message_or,
}
use collecta.Queue.Items.{
  find-modify_first_self, find-modify_first_ne, Shadowed, Shadowed-apply_push_response,
}
use collecta.Queue.Status.{IsValid, ItemOk, StatusOk}

-- When an item may be pushed: never tried, or failed and its wait since the last attempt is over.
abbrev pub MayPush : Instant → QueueItem → Type 0
MayPush now i =
    (i.status ≡ SyncStatus.pending)
    ⊎ ((i.status ≡ SyncStatus.failed)
        × (last : Instant) × (i.last_attempt ≡ some last)
        × (last + seconds (backoff_seconds (i.retry_count - 1)) ≤ now))

-- The same on the parts of an item, to split on its status and its last attempt.
may_push :
    (max now : ℕ) (s : SyncStatus) (retries : ℕ) (attempt : Option Instant)
    → (status_eq s SyncStatus.pending || (status_eq s SyncStatus.failed && ltb retries max)) ≡ true
    → (s ≡ SyncStatus.failed → is_some attempt ≡ true)
    → reached now (attempt >>= λ last. some (last + seconds (backoff_seconds (retries - 1)))) ≡ true
    → (s ≡ SyncStatus.pending)
      ⊎ ((s ≡ SyncStatus.failed)
          × (last : Instant) × (attempt ≡ some last)
          × (last + seconds (backoff_seconds (retries - 1)) ≤ now))
may_push max now SyncStatus.pending retries attempt p a d = inl refl
may_push max now SyncStatus.in_progress retries attempt p a d = cc
may_push max now SyncStatus.synced retries attempt p a d = cc
may_push max now SyncStatus.failed retries none p a d = cc (a refl)
may_push max now SyncStatus.failed retries (some last) p a d = inr (refl, last, refl, ground arith)
may_push max now SyncStatus.abandoned retries attempt p a d = cc

failed_tried :
    (max : ℕ) (i : QueueItem)
    → ItemOk max i
    → i.status ≡ SyncStatus.failed
    → is_some i.last_attempt ≡ true
failed_tried max i ok e =
    let fields = subst (λ s. StatusOk max s i.retry_count i.last_attempt i.last_error) e ok in
    fields.1

due_of :
    (max : ℕ) (now : Instant) (i : QueueItem)
    → ItemOk max i
    → MayPush now i
    → (is_pending max i ≡ true) × (is_due now i ≡ true)
unfolding next_attempt_at
due_of max now i ok (inl p) =
    let fields = subst (λ s. StatusOk max s i.retry_count i.last_attempt i.last_error) p ok in
    (rw p, rw fields.1)
due_of max now i ok (inr f) =
    let fields = subst (λ s. StatusOk max s i.retry_count i.last_attempt i.last_error) f.0 ok in
    (rw f.0 (ground arith), rw f.2 (ground arith))

-- In a valid queue an item of the queue is in the push batch at `now` exactly if it was never tried,
-- or failed and its backoff since the last attempt has passed; and the batch holds no other item.
pub due_exact :
    (now : Instant) (q : SyncQueue) (i : QueueItem)
    → IsValid q
    → In i (due now q) ↔ (In i q.items × MayPush now i)
unfolding due next_attempt_at
due_exact now q i v = (
  λ h.
      let outer = In-keep (is_due now) _ h in
      let inner = In-keep (is_pending q.max_retries) q.items outer.0 in
      (
        inner.0,
        may_push q.max_retries now i.status i.retry_count i.last_attempt inner.1
            (failed_tried q.max_retries i (All-In (ItemOk q.max_retries) q.items v inner.0))
            outer.1,
      ),
  λ h.
      let tests = due_of q.max_retries now i (All-In (ItemOk q.max_retries) q.items v h.0) h.1 in
      keep-In (is_due now) _ (keep-In (is_pending q.max_retries) q.items h.0 tests.0) tests.1,
)

-- Whatever the server answered, a never-tried item behind another one with its submission id is in
-- the next push batch again, at any time.
pub Shadowed-due_again :
    (clock : ℕ → Instant) (response : PushResponse) (item : QueueItem) (q : SyncQueue)
    → Shadowed item q.items
    → item.status ≡ SyncStatus.pending
    → item.last_attempt ≡ none
    → (now : Instant) → In item (due now (apply_push_response clock response q))
unfolding due next_attempt_at
Shadowed-due_again clock response item q s p l now =
    in_due (apply_push_response clock response q)
      (Shadowed-apply_push_response clock response item q s)
  where
    in_due : (r : SyncQueue) → Shadowed item r.items → In item (due now r)
    in_due r (xs, ys, e, front) =
        let held : In item r.items = rw e (In-append_right item xs (item ∷ ys) (inl refl)) in
        keep-In (is_due now) _ (keep-In (is_pending r.max_retries) r.items held (rw p)) (rw l)

-- The status of the first item with an id.
abbrev pub status_of : Uuid → SyncQueue → Option SyncStatus
status_of id q = find (has_id id) q.items >>= λ i. some i.status

abbrev is_error : PushItemStatus → Bool
is_error error = true
is_error _ = false

abbrev settle_value : Bool → Option SyncStatus → Option SyncStatus
settle_value hit none = none
settle_value hit (some s) = if hit then some SyncStatus.synced else some s

ne_of : (j id : Uuid) → (j == id) ≡ false → id ≢ j
ne_of j id e p = ground (arith, p)

settle_miss : (o : Option SyncStatus) → o ≡ settle_value false o
settle_miss none = refl
settle_miss (some s) = refl

settle_hit :
    (now : Instant) (o : Option QueueItem)
    → ((o >>= λ i. some (sync_item now i)) >>= λ i. some i.status)
      ≡ settle_value true (o >>= λ i. some i.status)
settle_hit now none = refl
settle_hit now (some i) = refl

status_of-mark_synced :
    (now : Instant) (j id : Uuid) (q : SyncQueue)
    → status_of id (mark_synced now j q) ≡ settle_value (j == id) (status_of id q)
unfolding mark_synced
status_of-mark_synced now j id q = elim (Bool-cases (j == id)) [
  | inl e ↦
      rw (e, ← (==_iff j id).0 e, find-modify_first_self j (sync_item now) (λ i. refl) q.items)
        (settle_hit now _)
  | inr e ↦
      rw (e, find-modify_first_ne j (sync_item now) (λ i. refl) id q.items (ne_of j id e))
        (settle_miss _)
]

-- A failed mark changes the status of its own item only.
status_of-mark_failed_ne :
    (now : Instant) (j id : Uuid) (m : String) (q : SyncQueue)
    → (j == id) ≡ false
    → status_of id (mark_failed now j m q) ≡ status_of id q
unfolding mark_failed
status_of-mark_failed_ne now j id m q e =
    rw
      (find-modify_first_ne j (fail_item q.max_retries now m) (λ i. refl) id q.items (ne_of j id e))

-- One result that is no error for `id`: it settles its own item and no other.
status_of-apply_status :
    (now : Instant) (s : PushItemStatus) (j id : Uuid) (m : Option String) (q : SyncQueue)
    → (not (j == id) || not (is_error s)) ≡ true
    → status_of id (apply_status now s j m q) ≡ settle_value (j == id) (status_of id q)
status_of-apply_status now accepted j id m q ok = status_of-mark_synced now j id q
status_of-apply_status now duplicate j id m q ok = status_of-mark_synced now j id q
status_of-apply_status now error j id m q ok =
    let miss : (j == id) ≡ false = ground arith in
    status_of-mark_failed_ne now j id (message_or m) q miss ∙ rw miss (settle_miss _)

settles_from :
    (clock : ℕ → Instant) (n : ℕ) (rs : List PushItemResult) (id : Uuid) (q : SyncQueue)
    → all (λ r. not (r.id == id) || not (is_error r.status)) rs ≡ true
    → status_of id (apply_from clock n rs q)
      ≡ settle_value (any (λ r. r.id == id) rs) (status_of id q)
unfolding apply_from
settles_from clock n [] id q ok = settle_miss _
settles_from clock n (r ∷ rs) id q ok = ground (
  arith,
  status_of-apply_status (clock n) r.status r.id id r.message q,
  settles_from clock (suc n) rs id (apply_result (clock n) r q),
)

-- If the answer names a queued id, and never as an error, the item with that id is synced after the
-- answer is applied, whatever its status was; and it keeps its status if the answer does not name it.
pub settles :
    (clock : ℕ → Instant) (response : PushResponse) (id : Uuid) (q : SyncQueue) (s : SyncStatus)
    → status_of id q ≡ some s
    → all (λ r. not (r.id == id) || not (is_error r.status)) response.results ≡ true
    → status_of id (apply_push_response clock response q)
      ≡ some (if any (λ r. r.id == id) response.results then SyncStatus.synced else s)
unfolding apply_push_response
settles clock response id q s held ok =
    settles_from clock 0 response.results id q ok ∙ rw held (ground arith)
