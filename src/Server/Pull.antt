-- ===== src/Server/Pull.antt =====
-- One pull of the form definitions, end to end: `sync_forms` and `Store::list_forms_since` of
-- crates/collecta-server with `apply_pull_response` of crates/collecta-core/src/pulled_forms.rs.
pub mod Ordering
pub mod Response
use collecta.Prelude.{
  ℕ, Bool, true, false, ◌&&◌, ◌||◌, not, Option, none, some, List, [], ◌∷◌, ◌≡◌, ◌≢◌, refl, ap, sym,
  ◌∙◌, map, keep, find, any, In, In-keep, keep-In, any-In, In-any, Bool-cases, Option-cases,
  true≢false, ==_iff, ==_self, inl, inr, arith, ◌⊎◌, ◌==◌, ◌>>=◌, if◌then◌else◌, is_some,
}
use collecta.Values.{Uuid}
use collecta.Values.Laws.{or_else}
use collecta.Form.{Form}
use collecta.Protocol.{FormsPullResponse}
use collecta.Pulled.{PulledForms, contains, apply_pull_response}
use collecta.Pulled.Laws.{lookup, latest, lookup-apply_pull_response}
use collecta.Server.{FormRow, Db}
use collecta.Server.FormTable.{
  Cursor, after, order_rows, is_live, live_row, get_form, list_forms_since, last_cursor,
}
use collecta.Server.Handlers.{sync_forms, or_since}
use collecta.Server.Keyed.{IsKeyed, has_row}
use collecta.Server.Pull.Ordering.{
  In-order_rows, order_rows-In, after-last_cursor, last_cursor-past, last_cursor-In_some,
}
use collecta.Server.Pull.Response.{
  shown, find-cases, get_form-shown, and_left, delivered, defined, dropped, dropped_row, refute,
  defined_row, foreign_id,
}

-- A client that pulled up to the cursor: it holds what each row not after the cursor shows, and
-- nothing under an id that the server never had.
pub record InStep (since : Cursor) (held : List Form) (db : Db) : Type 0 where
  pub seen :
      (row : FormRow) → In row db.forms → after since row ≡ false → lookup row.id held ≡ shown row
  pub foreign : (id : Uuid) → has_row id db.forms ≡ false → lookup id held ≡ none

sync_forms-eq :
    (since : Cursor) (db : Db)
    → sync_forms since db ≡ record {
      forms = defined since db;
      deleted = dropped since db;
      cursor = or_since (last_cursor (delivered since db)) since;
    }
unfolding sync_forms list_forms_since
sync_forms-eq since db = refl

-- What one pull makes of an id: what the client held, overridden by what the response says.
pub pulled_id :
    (since : Cursor) (db : Db) (held : PulledForms Cursor) (id : Uuid)
    → lookup id (apply_pull_response (sync_forms since db) held).0.forms ≡ (
        if contains (dropped since db) id
        then none
        else or_else (latest id (defined since db)) (lookup id held.forms))
pulled_id since db held id =
    lookup-apply_pull_response id (sync_forms since db) held
    ∙ ap
        (λ (r : FormsPullResponse Cursor).
          if contains r.deleted id
          then none
          else or_else (latest id r.forms) (lookup id held.forms))
        (sync_forms-eq since db)

-- The client's next view of an id.
abbrev merged : (db : Db) → PulledForms Cursor → Uuid → Option Form
merged db held id =
    if contains (dropped held.cursor db) id
    then none
    else or_else (latest id (defined held.cursor db)) (lookup id held.forms)

merged_row :
    (db : Db) (held : PulledForms Cursor) (row : FormRow)
    → IsKeyed db.forms
    → InStep held.cursor held.forms db
    → In row db.forms
    → merged db held row.id ≡ get_form row.id db
merged_row db held row v w i =
    let gone = dropped_row held.cursor db row v i in
    let new = defined_row held.cursor db row v i in
    elim (Bool-cases (after held.cursor row)) [
      | inl e ↦ rw (gone, new, get_form-shown row db v i, e) (ground arith)
      | inr e ↦ rw (gone, new, get_form-shown row db v i, e) (w.seen row i e)
    ]

merged_foreign :
    (db : Db) (held : PulledForms Cursor) (id : Uuid)
    → IsKeyed db.forms
    → InStep held.cursor held.forms db
    → has_row id db.forms ≡ false
    → ((row : FormRow) → In row db.forms → (row.id == id) ≡ false)
    → merged db held id ≡ get_form id db
unfolding get_form
merged_foreign db held id v w n h =
    let nothing =
      foreign_id held.cursor db id v
        (λ row i q. true≢false (sym ((==_iff row.id id).1 q) ∙ h row i)) in
    rw (nothing.0, nothing.1, w.foreign id n)
      (elim (find-cases (λ r. r.id == id && is_live r) db.forms) [
        | inl (m, _) ↦ rw m
        | inr (row, i, q, _) ↦ absurd (true≢false (sym (and_left (row.id == id) _ q) ∙ h row i))
      ])

-- The new cursor is past each row.
cursor_past :
    (since : Cursor) (db : Db) (row : FormRow)
    → In row db.forms
    → after (or_since (last_cursor (delivered since db)) since) row ≡ false
cursor_past since db row i = elim (Bool-cases (after since row)) [
  | inl e ↦ elim (Option-cases (last_cursor (delivered since db))) [
    | inl n ↦
        let read =
          order_rows-In row (keep (after since) db.forms) (keep-In (after since) db.forms i e) in
        absurd (last_cursor-In_some row (delivered since db) read n)
    | inr (c, l) ↦ rw l (
        after-last_cursor row (keep (after since) db.forms) c l
          (keep-In (after since) db.forms i e))
  ]
  | inr e ↦ elim (Option-cases (last_cursor (delivered since db))) [
    | inl n ↦ rw n e
    | inr (c, l) ↦ rw l (
        last_cursor-past row since c (keep (after since) db.forms) e
          (λ y j. (In-keep (after since) db.forms j).1) l)
  ]
]

-- A client in step with the table up to its cursor pulls once: it then holds, for every id, just what
-- the server answers for that id, and no row of the table is after its new cursor.
pub pull_complete :
    (db : Db) (held : PulledForms Cursor)
    → IsKeyed db.forms
    → InStep held.cursor held.forms db
    → let pulled = (apply_pull_response (sync_forms held.cursor db) held).0 in
      ((id : Uuid) → lookup id pulled.forms ≡ get_form id db)
      × ((row : FormRow) → In row db.forms → after pulled.cursor row ≡ false)
unfolding apply_pull_response
pull_complete db held v w = (
  λ id. pulled_id held.cursor db held id ∙ elim (Bool-cases (has_row id db.forms)) [
    | inl e ↦
        let found = any-In (λ r. r.id == id) db.forms e in
        rw (sym ((==_iff found.0.id id).0 found.2)) (merged_row db held found.0 v w found.1)
    | inr e ↦ merged_foreign db held id v w e (λ row i.
        refute (row.id == id) (λ q. true≢false (sym (In-any (λ r. r.id == id) db.forms i q) ∙ e)))
  ],
  λ row i.
      ap (λ (r : FormsPullResponse Cursor). after r.cursor row) (sync_forms-eq held.cursor db)
      ∙ cursor_past held.cursor db row i,
)

-- A pull leaves a client in step at its new cursor.
pub pull-InStep :
    (db : Db) (held : PulledForms Cursor)
    → IsKeyed db.forms
    → InStep held.cursor held.forms db
    → let pulled = (apply_pull_response (sync_forms held.cursor db) held).0 in
      InStep pulled.cursor pulled.forms db
unfolding get_form
pull-InStep db held v w =
    let complete = pull_complete db held v w in
    record {
      seen = λ row i _. complete.0 row.id ∙ get_form-shown row db v i;
      foreign = λ id e. complete.0 id ∙ elim (find-cases (λ r. r.id == id && is_live r) db.forms) [
        | inl (m, _) ↦ rw m
        | inr (row, i, q, _) ↦ absurd (
            true≢false
              (sym (In-any (λ r. r.id == id) db.forms i (and_left (row.id == id) _ q)) ∙ e))
      ];
    }
