-- ===== src/Server/SameInstant.antt =====
-- A form that is overwritten at the very instant of a client's cursor, under `Store::insert_form` and
-- `Store::list_forms_since` of crates/collecta-server/src/store.rs.
use collecta.Prelude.{
  ℕ, ◌+◌, ◌≤◌, true, false, some, List, [], ◌∷◌, ◌≡◌, refl, ap, sym, ◌∙◌, In, In-any, Bool-cases,
  true≢false, ==_iff, inl, inr, arith, ◌==◌,
}
use collecta.Values.{Instant}
use collecta.Form.{Form}
use collecta.Pulled.{PulledForms, apply_pull_response}
use collecta.Pulled.Laws.{lookup}
use collecta.Server.{FormRow, Db}
use collecta.Server.FormTable.{
  Cursor, FormWriter, after, upsert_form, insert_form, overwritten, may_overwrite, get_form,
}
use collecta.Server.Handlers.{sync_forms}
use collecta.Server.Keyed.{IsKeyed, Distinct, insert_form-IsKeyed}
use collecta.Server.Pull.{pulled_id}
use collecta.Server.Pull.Response.{get_form-shown, dropped_row, defined_row}

overwritten-In :
    (n : ℕ) (form : Form) (writer : FormWriter) (now : Instant) (row : FormRow)
    (rows : List FormRow)
    → Distinct rows
    → In row rows
    → row.id ≡ form.id
    → may_overwrite writer row ≡ true
    → In (overwritten form now row) (upsert_form n form writer now rows).0
unfolding upsert_form Distinct
overwritten-In n form writer now row [] d i e m = absurd i
overwritten-In n form writer now row (r ∷ rows) d (inl q) e m =
    let here : (r.id == form.id) ≡ true =
      (==_iff r.id form.id).1 (ap (λ (x : FormRow). x.id) (sym q) ∙ e) in
    let mine : may_overwrite writer r ≡ true = ap (may_overwrite writer) (sym q) ∙ m in
    rw (here, mine) (inl (ap (overwritten form now) q))
overwritten-In n form writer now row (r ∷ rows) d (inr j) e m =
    elim (Bool-cases (r.id == form.id)) [
      | inl h ↦ absurd (
          true≢false (
            sym (
              In-any (λ x. x.id == r.id) rows j
                ((==_iff row.id r.id).1 (e ∙ sym ((==_iff r.id form.id).0 h))))
            ∙ d.0))
      | inr h ↦ rw h (inr (overwritten-In (n + 1) form writer now row rows d.1 j e m))
    ]

not_after :
    (c : Cursor) (form : Form) (row : FormRow)
    → row.rowid ≤ c.rowid
    → after c (overwritten form c.updated_at row) ≡ false
not_after c form row l = ground (arith, l)

-- A form that its writer overwrites at the instant of a client's cursor, in a row whose number is not
-- past the cursor's, is the server's new definition of the id, but the client's next pull leaves what
-- it held under the id.
pub same_instant_missed :
    (db : Db) (held : PulledForms Cursor) (form : Form) (writer : FormWriter) (row : FormRow)
    → IsKeyed db.forms
    → In row db.forms
    → row.id ≡ form.id
    → may_overwrite writer row ≡ true
    → row.rowid ≤ held.cursor.rowid
    → let changed = (insert_form form writer held.cursor.updated_at db).0 in
      (get_form form.id changed ≡ some form)
      × (lookup form.id (apply_pull_response (sync_forms held.cursor changed) held).0.forms
          ≡ lookup form.id held.forms)
unfolding insert_form
same_instant_missed db held form writer row v i e m l =
    let changed = (insert_form form writer held.cursor.updated_at db).0 in
    let new = overwritten form held.cursor.updated_at row in
    let keyed : IsKeyed changed.forms =
      insert_form-IsKeyed form writer held.cursor.updated_at db v in
    let there : In new changed.forms =
      overwritten-In 0 form writer held.cursor.updated_at row db.forms v.distinct i e m in
    let skipped : after held.cursor new ≡ false = not_after held.cursor form row l in
    let gone = dropped_row held.cursor changed new keyed there in
    let told = defined_row held.cursor changed new keyed there in
    (
      ap (λ id. get_form id changed) (sym e) ∙ get_form-shown new changed keyed there,
      ap (λ id. lookup id (apply_pull_response (sync_forms held.cursor changed) held).0.forms)
            (sym e)
          ∙ pulled_id held.cursor changed held row.id
          ∙ rw (gone, told, skipped) refl
          ∙ ap (λ id. lookup id held.forms) e,
    )
