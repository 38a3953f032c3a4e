-- ===== src/Server/Sync.antt =====
-- A client of crates/collecta-server that pulls the form definitions time and again, between the
-- writes of crates/collecta-server/src/store.rs.
use collecta.Prelude.{
  ◌<◌, Bool, true, false, ◌||◌, List, ◌≡◌, ◌⊎◌, refl, sym, ◌∙◌, In, true≢false, inl, inr, arith,
}
use collecta.Values.{Uuid, Instant}
use collecta.Form.{Form}
use collecta.Pulled.{PulledForms, apply_pull_response}
use collecta.Pulled.Laws.{lookup}
use collecta.Server.{FormRow, Db}
use collecta.Server.FormTable.{Cursor, FormWriter, after, insert_form, get_form}
use collecta.Server.SubmissionTable.{delete_form}
use collecta.Server.Handlers.{sync_forms}
use collecta.Server.Keyed.{
  IsKeyed, has_row, insert_form-IsKeyed, delete_form-IsKeyed, In-insert_form, In-delete_form,
  has_row-insert_form, has_row-delete_form,
}
use collecta.Server.Pull.{InStep, pull-InStep, pull_complete}

-- A client and the database it pulls from.
pub record Pair : Type 0 where
  pub client : PulledForms Cursor
  pub db : Db

-- What can happen to the two: a form is written or deleted at an instant past the client's cursor, or
-- the client pulls.
pub data Turn : Pair → Pair → Type 0 where
  written :
      (s : Pair) (form : Form) (writer : FormWriter) (now : Instant)
      → s.client.cursor.updated_at < now
      → Turn s (record s { db = (insert_form form writer now s.db).0 })
  deleted :
      (s : Pair) (form_id : Uuid) (now : Instant)
      → s.client.cursor.updated_at < now
      → Turn s (record s { db = (delete_form form_id now s.db).0 })
  pulled :
      (s : Pair)
      → Turn s
          (record s { client = (apply_pull_response (sync_forms s.client.cursor s.db) s.client).0 })

pub data Turns (s : Pair) : Pair → Type 0 where
  none_yet : Turns s s
  then_turn : {t u : Pair} → Turns s t → Turn t u → Turns s u

unfoldable pub IsSynced : Pair → Type 0
IsSynced s = IsKeyed s.db.forms × InStep s.client.cursor s.client.forms s.db

fresh-after :
    (c : Cursor) (row : FormRow) (now : Instant)
    → c.updated_at < now
    → row.updated_at ≡ now
    → after c row ≡ true
fresh-after c row now l e = ground (arith, l, e)

-- A change that only stamps rows with a later instant, and drops no id, keeps a client in step.
later-InStep :
    (c : Cursor) (held : List Form) (a b : Db) (now : Instant)
    → c.updated_at < now
    → ((row : FormRow) → In row b.forms → In row a.forms ⊎ (row.updated_at ≡ now))
    → ((id : Uuid) → has_row id b.forms ≡ false → has_row id a.forms ≡ false)
    → InStep c held a
    → InStep c held b
later-InStep c held a b now l rows ids w = record {
  seen = λ row i e. elim (rows row i) [
    | inl j ↦ w.seen row j e
    | inr q ↦ absurd (true≢false (sym (fresh-after c row now l q) ∙ e))
  ];
  foreign = λ id e. w.foreign id (ids id e);
}

or-false : (a b : Bool) → (a || b) ≡ false → a ≡ false
or-false true b e = e
or-false false b e = refl

Turn-IsSynced : {s t : Pair} → Turn s t → IsSynced s → IsSynced t
unfolding IsSynced
Turn-IsSynced (written s form writer now l) v = (
  insert_form-IsKeyed form writer now s.db v.0,
  later-InStep s.client.cursor s.client.forms s.db (insert_form form writer now s.db).0 now l
      (In-insert_form form writer now s.db)
      (λ id e. or-false _ _ (sym (has_row-insert_form form writer now id s.db) ∙ e)) v.1,
)
Turn-IsSynced (deleted s form_id now l) v = (
  delete_form-IsKeyed form_id now s.db v.0,
  later-InStep s.client.cursor s.client.forms s.db (delete_form form_id now s.db).0 now l
      (In-delete_form form_id now s.db) (λ id e. sym (has_row-delete_form form_id now id s.db) ∙ e)
      v.1,
)
Turn-IsSynced (pulled s) v = (v.0, pull-InStep s.db s.client v.0 v.1)

Turns-IsSynced : {s t : Pair} → Turns s t → IsSynced s → IsSynced t
Turns-IsSynced none_yet v = v
Turns-IsSynced (then_turn r x) v = Turn-IsSynced x (Turns-IsSynced r v)

-- After any run of writes, deletions and pulls from a state in which the client is in step, where each
-- change has an instant past the cursor that the client has by then, one more pull gives the client,
-- for every id, just what the server answers for that id.
pub Turns-complete :
    {s t : Pair}
    → IsSynced s
    → Turns s t
    → (id : Uuid)
    → lookup id (apply_pull_response (sync_forms t.client.cursor t.db) t.client).0.forms
      ≡ get_form id t.db
unfolding IsSynced
Turns-complete {s} {t} v r id =
    let w = Turns-IsSynced r v in (pull_complete t.db t.client w.0 w.1).0 id
