-- ===== src/Queue/Items.antt =====
-- What the marking operations of crates/collecta-core/src/sync_queue.rs do to the list of items.
use collecta.Prelude.{
  ℕ, suc, String, Bool, true, false, Option, some, List, [], ◌∷◌, ◌++◌, ◌≡◌, ◌≢◌, inl, inr, refl,
  ap, sym, ◌∙◌, map, find, any, modify_first, Bool-cases, true≢false, ==_iff, arith, ◌==◌, ◌>>=◌,
}
use collecta.Values.{Uuid, Instant}
use collecta.Submission.{Submission}
use collecta.Protocol.{PushItemResult, PushResponse, PushItemStatus, accepted, duplicate, error}
use collecta.Queue.{
  QueueItem, SyncQueue, has_id, mark_synced, mark_failed, apply_status, apply_result, apply_from,
  apply_push_response,
}

-- The submissions of a list of items, in order.
abbrev pub submissions : List QueueItem → List Submission
submissions items = map (λ i. i.submission) items

-- A change that keeps each item's submission keeps the list of them.
submissions-modify_first :
    (p : QueueItem → Bool) (f : QueueItem → QueueItem) (items : List QueueItem)
    → ((i : QueueItem) → (f i).submission ≡ i.submission)
    → submissions (modify_first p f items) ≡ submissions items
submissions-modify_first p f [] keep = refl
submissions-modify_first p f (i ∷ items) keep =
    ground (arith, keep i, submissions-modify_first p f items keep)

submissions-apply_result :
    (now : Instant) (r : PushItemResult) (q : SyncQueue)
    → submissions (apply_result now r q).items ≡ submissions q.items
unfolding mark_synced mark_failed
submissions-apply_result now r q = go r.status
  where
    go :
        (s : PushItemStatus)
        → submissions (apply_status now s r.id r.message q).items ≡ submissions q.items
    go accepted = submissions-modify_first (has_id r.id) _ q.items (λ i. refl)
    go duplicate = submissions-modify_first (has_id r.id) _ q.items (λ i. refl)
    go error = submissions-modify_first (has_id r.id) _ q.items (λ i. refl)

max_retries-apply_result :
    (now : Instant) (r : PushItemResult) (q : SyncQueue)
    → (apply_result now r q).max_retries ≡ q.max_retries
unfolding mark_synced mark_failed
max_retries-apply_result now r q = go r.status
  where
    go : (s : PushItemStatus) → (apply_status now s r.id r.message q).max_retries ≡ q.max_retries
    go accepted = refl
    go duplicate = refl
    go error = refl

submissions-apply_from :
    (clock : ℕ → Instant) (n : ℕ) (rs : List PushItemResult) (q : SyncQueue)
    → (submissions (apply_from clock n rs q).items ≡ submissions q.items)
      × ((apply_from clock n rs q).max_retries ≡ q.max_retries)
unfolding apply_from
submissions-apply_from clock n [] q = (refl, refl)
submissions-apply_from clock n (r ∷ rs) q =
    let rest = submissions-apply_from clock (suc n) rs (apply_result (clock n) r q) in
    (
      rest.0 ∙ submissions-apply_result (clock n) r q,
      rest.1 ∙ max_retries-apply_result (clock n) r q,
    )

-- Whatever the server answers, and whatever the clock reads, applying the answer keeps every queued
-- submission, in its place and with its content, and keeps the retry limit.
pub submissions-apply_push_response :
    (clock : ℕ → Instant) (response : PushResponse) (q : SyncQueue)
    → (submissions (apply_push_response clock response q).items ≡ submissions q.items)
      × ((apply_push_response clock response q).max_retries ≡ q.max_retries)
unfolding apply_push_response
submissions-apply_push_response clock response q = submissions-apply_from clock 0 response.results q

-- A change that keeps each item's submission leaves alone what stands behind an item with the id.
modify_first-behind :
    (id : Uuid) (f : QueueItem → QueueItem) (xs ys : List QueueItem)
    → any (has_id id) xs ≡ true
    → modify_first (has_id id) f (xs ++ ys) ≡ modify_first (has_id id) f xs ++ ys
modify_first-behind id f [] ys h = absurd (true≢false (sym h))
modify_first-behind id f (x ∷ xs) ys h = ground (arith, modify_first-behind id f xs ys)

-- Where nothing in front has the id, the change reaches what stands behind.
modify_first-through :
    (p : QueueItem → Bool) (f : QueueItem → QueueItem) (xs ys : List QueueItem)
    → any p xs ≡ false
    → modify_first p f (xs ++ ys) ≡ xs ++ modify_first p f ys
modify_first-through p f [] ys h = refl
modify_first-through p f (x ∷ xs) ys h = ground (arith, modify_first-through p f xs ys)

-- The item stands behind another one with the same submission id.
abbrev pub Shadowed : QueueItem → List QueueItem → Type 0
Shadowed item items =
    (xs : List QueueItem) × (ys : List QueueItem) × (items ≡ xs ++ (item ∷ ys))
    × (any (has_id item.submission.id) xs ≡ true)

other_id :
    (id j : Uuid) (xs : List QueueItem)
    → any (has_id id) xs ≡ false
    → any (has_id j) xs ≡ true
    → (j == id) ≡ false
other_id id j xs clear found = elim (Bool-cases (j == id)) [
  | inl e ↦ let same : j ≡ id = (==_iff j id).0 e in cc (clear, rw same at found)
  | inr e ↦ e
]

module _ (id : Uuid) (f : QueueItem → QueueItem)
    (keeps : (i : QueueItem) → (f i).submission ≡ i.submission) where
  any-modify_first :
      (j : Uuid) (p : QueueItem → Bool) (xs : List QueueItem)
      → any (has_id j) (modify_first p f xs) ≡ any (has_id j) xs
  any-modify_first j p [] = refl
  any-modify_first j p (x ∷ xs) = ground (arith, keeps x, any-modify_first j p xs)

  -- Marking an id changes the first item with that id, and no other.
  pub find-modify_first_self :
      (xs : List QueueItem)
      → find (has_id id) (modify_first (has_id id) f xs) ≡ (find (has_id id) xs >>= λ i. some (f i))
  find-modify_first_self [] = refl
  find-modify_first_self (x ∷ xs) = ground (arith, keeps x, find-modify_first_self xs)

  pub find-modify_first_ne :
      (j : Uuid) (xs : List QueueItem)
      → j ≢ id
      → find (has_id j) (modify_first (has_id id) f xs) ≡ find (has_id j) xs
  find-modify_first_ne j [] ne = refl
  find-modify_first_ne j (x ∷ xs) ne = ground (arith, keeps x, find-modify_first_ne j xs ne)

  Shadowed-modify_first :
      (item : QueueItem) (items : List QueueItem)
      → Shadowed item items
      → Shadowed item (modify_first (has_id id) f items)
  Shadowed-modify_first item items s = elim (Bool-cases (any (has_id id) s.0)) [
    | inl front ↦ (
      modify_first (has_id id) f s.0,
      s.1,
      rw s.2 (modify_first-behind id f s.0 (item ∷ s.1) front),
      any-modify_first item.submission.id (has_id id) s.0 ∙ s.3,
    )
    | inr clear ↦ (
      s.0,
      modify_first (has_id id) f s.1,
      rw s.2 (
          modify_first-through (has_id id) f s.0 (item ∷ s.1) clear
          ∙ ap (λ t. s.0 ++ t) (rw (other_id id item.submission.id s.0 clear s.3))),
      s.3,
    )
  ]

Shadowed-apply_status :
    (now : Instant) (s : PushItemStatus) (id : Uuid) (m : Option String) (item : QueueItem)
    (q : SyncQueue)
    → Shadowed item q.items
    → Shadowed item (apply_status now s id m q).items
unfolding mark_synced mark_failed
Shadowed-apply_status now accepted id m item q = Shadowed-modify_first id _ (λ i. refl) item q.items
Shadowed-apply_status now duplicate id m item q =
    Shadowed-modify_first id _ (λ i. refl) item q.items
Shadowed-apply_status now error id m item q = Shadowed-modify_first id _ (λ i. refl) item q.items

Shadowed-apply_from :
    (clock : ℕ → Instant) (n : ℕ) (rs : List PushItemResult) (item : QueueItem) (q : SyncQueue)
    → Shadowed item q.items
    → Shadowed item (apply_from clock n rs q).items
unfolding apply_from
Shadowed-apply_from clock n [] item q s = s
Shadowed-apply_from clock n (r ∷ rs) item q s =
    Shadowed-apply_from clock (suc n) rs item (apply_result (clock n) r q)
      (Shadowed-apply_status (clock n) r.status r.id r.message item q s)

-- An item behind another with the same submission id is beyond the reach of every answer: it stands
-- unchanged behind such an item afterwards.
pub Shadowed-apply_push_response :
    (clock : ℕ → Instant) (response : PushResponse) (item : QueueItem) (q : SyncQueue)
    → Shadowed item q.items
    → Shadowed item (apply_push_response clock response q).items
unfolding apply_push_response
Shadowed-apply_push_response clock response = Shadowed-apply_from clock 0 response.results
