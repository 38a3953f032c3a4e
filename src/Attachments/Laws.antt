-- ===== src/Attachments/Laws.antt =====
-- What `store`, `get` and `mark_synced` of crates/collecta-core/src/attachment.rs are to one another.
use collecta.Prelude.{
  ◌<◌, ◌≤◌, ltb, true, false, Option, none, some, List, [], ◌∷◌, ◌++◌, ◌≡◌, ◌≢◌, refl, find,
  modify_first, arith, ◌==◌, ◌>>=◌, if◌then◌else◌,
}
use collecta.Values.{Uuid}
use collecta.Values.Laws.{or_else}
use collecta.Attachments.{
  Attachment, AttachmentStore, exceeds_limit, store_attachment, get_attachment, mark_uploaded,
  set_synced, kept, refused,
}
use collecta.Errors.{attachment_too_large}

-- The first attachment of an id.
abbrev pub first_of : Uuid → List Attachment → Option Attachment
first_of id [] = none
first_of id (a ∷ rest) = let later = first_of id rest in if a.id == id then some a else later

find-first_of : (id : Uuid) (xs : List Attachment) → find (λ x. x.id == id) xs ≡ first_of id xs
find-first_of id [] = refl
find-first_of id (x ∷ xs) = ground (arith, find-first_of id xs)

find-append_one :
    (id : Uuid) (a : Attachment) (xs : List Attachment)
    → find (λ x. x.id == id) (xs ++ (a ∷ []))
      ≡ or_else (first_of id xs) (if a.id == id then some a else none)
find-append_one id a [] = ground arith
find-append_one id a (x ∷ xs) = ground (arith, find-append_one id a xs)

find-set_synced :
    (id : Uuid) (xs : List Attachment)
    → find (λ x. x.id == id) (modify_first (λ x. x.id == id) set_synced xs)
      ≡ (first_of id xs >>= λ a. some (record a { synced = true }))
find-set_synced id [] = refl
find-set_synced id (x ∷ xs) = ground (arith, find-first_of id xs, find-set_synced id xs)

find-set_synced_ne :
    (id other : Uuid) (xs : List Attachment)
    → other ≢ id
    → find (λ x. x.id == other) (modify_first (λ x. x.id == id) set_synced xs) ≡ first_of other xs
find-set_synced_ne id other [] ne = refl
find-set_synced_ne id other (x ∷ xs) ne =
    ground (arith, find-first_of other xs, find-set_synced_ne id other xs ne)

-- An attachment of more than 52,428,800 bytes is refused with both sizes, and the store stays as it was.
-- Any other is kept under its id: a read of that id finds the first older attachment of the id, and the
-- new one if there is none, and a read of every other id finds the first one of that id held before.
pub get-store_attachment :
    (id : Uuid) (a : Attachment) (s : AttachmentStore)
    → (52_428_800 < a.size_bytes
        → store_attachment a s ≡ (s, refused (attachment_too_large 52_428_800 a.size_bytes)))
      × (a.size_bytes ≤ 52_428_800
          → ((store_attachment a s).1 ≡ kept a.id)
            × (get_attachment id (store_attachment a s).0
                ≡ or_else (first_of id s.attachments) (if a.id == id then some a else none)))
unfolding get_attachment store_attachment exceeds_limit
get-store_attachment id a s = (
  λ h. let big : ltb 52_428_800 a.size_bytes ≡ true = ground arith in rw big refl,
  λ h.
      let small : ltb 52_428_800 a.size_bytes ≡ false = ground arith in
      rw small (refl, find-append_one id a s.attachments),
)

-- After an id is marked as synced, a read of it finds the first attachment of the id that was held, with
-- its mark set and otherwise as it was, and a read of any other id finds the first one of that id held
-- before.
pub get-mark_uploaded :
    (id : Uuid) (s : AttachmentStore)
    → (get_attachment id (mark_uploaded id s)
        ≡ (first_of id s.attachments >>= λ a. some (record a { synced = true })))
      × ((other : Uuid)
          → other ≢ id
          → get_attachment other (mark_uploaded id s) ≡ first_of other s.attachments)
unfolding get_attachment mark_uploaded
get-mark_uploaded id s =
    (find-set_synced id s.attachments, λ other ne. find-set_synced_ne id other s.attachments ne)
