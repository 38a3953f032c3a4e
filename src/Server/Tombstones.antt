-- ===== src/Server/Tombstones.antt =====
-- What `Store::delete_form` of crates/collecta-server/src/store.rs leaves: a tombstone and nothing
-- collected under the form, with every other form as it was.
use collecta.Prelude.{false, not, none, List, [], ◌∷◌, ◌≡◌, ◌≢◌, refl, map, keep, any, arith, ◌==◌}
use collecta.Values.{Uuid, Instant}
use collecta.Server.{FormRow, SubmissionRow, GrantRow, Db}
use collecta.Server.FormTable.{live_row, get_form, form_owner, has_grant, is_grant}
use collecta.Server.SubmissionTable.{delete_form, tombstone, of_form, list_submissions}

live_row-tombstone_self :
    (id : Uuid) (now : Instant) (rows : List FormRow)
    → live_row id (map (tombstone id now) rows) ≡ none
live_row-tombstone_self id now [] = refl
live_row-tombstone_self id now (row ∷ rows) = ground (arith, live_row-tombstone_self id now rows)

pub live_row-tombstone_ne :
    (id other : Uuid) (now : Instant) (rows : List FormRow)
    → other ≢ id
    → live_row other (map (tombstone id now) rows) ≡ live_row other rows
live_row-tombstone_ne id other now [] ne = refl
live_row-tombstone_ne id other now (row ∷ rows) ne =
    ground (arith, live_row-tombstone_ne id other now rows ne)

keep-of_form_self :
    (id : Uuid) (rows : List SubmissionRow)
    → keep (λ row. row.form_id == id) (keep (λ row. not (of_form id row)) rows) ≡ []
keep-of_form_self id [] = refl
keep-of_form_self id (row ∷ rows) = ground (arith, keep-of_form_self id rows)

keep-of_form_ne :
    (id other : Uuid) (rows : List SubmissionRow)
    → other ≢ id
    → keep (λ row. row.form_id == other) (keep (λ row. not (of_form id row)) rows)
      ≡ keep (λ row. row.form_id == other) rows
keep-of_form_ne id other [] ne = refl
keep-of_form_ne id other (row ∷ rows) ne = ground (arith, keep-of_form_ne id other rows ne)

grants_self :
    (id u : Uuid) (rows : List GrantRow)
    → any (is_grant id u) (keep (λ g. not (g.form_id == id)) rows) ≡ false
grants_self id u [] = refl
grants_self id u (g ∷ rows) = ground (arith, grants_self id u rows)

grants_ne :
    (id other u : Uuid) (rows : List GrantRow)
    → other ≢ id
    → any (is_grant other u) (keep (λ g. not (g.form_id == id)) rows) ≡ any (is_grant other u) rows
grants_ne id other u [] ne = refl
grants_ne id other u (g ∷ rows) ne = ground (arith, grants_ne id other u rows ne)

-- A deleted form reads as missing, to its owner too; nothing collected under it is left, and nobody
-- holds a grant on it.
pub delete_form_self :
    (id : Uuid) (now : Instant) (db : Db) (u : Uuid)
    → let after = (delete_form id now db).0 in
      (get_form id after ≡ none)
      × (form_owner id after ≡ none)
      × (list_submissions id after ≡ [])
      × (has_grant id u after ≡ false)
unfolding delete_form get_form form_owner list_submissions has_grant
delete_form_self id now db u = (
  rw (live_row-tombstone_self id now db.forms),
  rw (live_row-tombstone_self id now db.forms),
  rw (keep-of_form_self id db.submissions),
  grants_self id u db.grants,
)

-- Deleting a form changes neither the definition, the owner, the submissions nor the grants of any
-- other form.
pub delete_form_ne :
    (id other : Uuid) (now : Instant) (db : Db) (u : Uuid)
    → other ≢ id
    → let after = (delete_form id now db).0 in
      (get_form other after ≡ get_form other db)
      × (form_owner other after ≡ form_owner other db)
      × (list_submissions other after ≡ list_submissions other db)
      × (has_grant other u after ≡ has_grant other u db)
unfolding delete_form get_form form_owner list_submissions has_grant
delete_form_ne id other now db u ne = (
  rw (live_row-tombstone_ne id other now db.forms ne),
  rw (live_row-tombstone_ne id other now db.forms ne),
  rw (keep-of_form_ne id other db.submissions ne),
  grants_ne id other u db.grants ne,
)
