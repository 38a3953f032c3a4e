-- ===== src/Server/FormTable.antt =====
-- crates/collecta-server/src/store.rs: the forms table and the grants on forms.
use collecta.Prelude.{
  ℕ, ◌+◌, Bool, true, false, ◌&&◌, ◌||◌, not, Option, none, some, List, [], ◌∷◌, ◌++◌, keep, find,
  any, map, is_some, ltb, ◌==◌, ◌>>=◌, if◌then◌else◌,
}
use collecta.Values.{Uuid, Instant}
use collecta.Form.{Form}
use collecta.Server.{FormRow, GrantRow, Db}

pub data FormOwner : Type 0 where
  legacy : FormOwner
  user : Uuid → FormOwner

pub record FormWriter : Type 0 where
  pub id : Option Uuid
  pub overwrite_any : Bool

-- `FormWriter::system`
unfoldable pub system : FormWriter
system = record { id = none; overwrite_any = true }

-- `a = b` in SQL, where a null equals nothing.
abbrev pub sql_eq : Option Uuid → Option Uuid → Bool
sql_eq (some a) (some b) = a == b
sql_eq _ _ = false

abbrev pub is_live : FormRow → Bool
is_live row = not (is_some row.deleted_at)

-- The row that `DO UPDATE SET` leaves: the creator and the row id stay.
abbrev pub overwritten : Form → Instant → FormRow → FormRow
overwritten form now row = record row { form = form; updated_at = now; deleted_at = none }

abbrev pub fresh_row : ℕ → Form → FormWriter → Instant → FormRow
fresh_row rowid form writer now = record {
  rowid = rowid;
  id = form.id;
  form = form;
  updated_at = now;
  creator_id = writer.id;
  deleted_at = none;
  target = none;
}

abbrev pub may_overwrite : FormWriter → FormRow → Bool
may_overwrite writer row = writer.overwrite_any || sql_eq row.creator_id writer.id

-- The upsert on the rows, with whether a row was written. A fresh row id is one past the number of
-- rows, none of which is ever deleted.
unfoldable pub upsert_form : ℕ → Form → FormWriter → Instant → List FormRow → List FormRow × Bool
upsert_form n form writer now [] = (fresh_row (n + 1) form writer now ∷ [], true)
upsert_form n form writer now (row ∷ rows) =
    let deeper = upsert_form (n + 1) form writer now rows in
    if row.id == form.id
    then (if may_overwrite writer row
        then (overwritten form now row ∷ rows, true)
        else (row ∷ rows, false))
    else (row ∷ deeper.0, deeper.1)

unfoldable pub insert_form : Form → FormWriter → Instant → Db → Db × Bool
unfolding upsert_form
insert_form form writer now db =
    let written = upsert_form 0 form writer now db.forms in
    (record db { forms = written.0 }, written.1)

-- The live row of an id.
abbrev pub live_row : Uuid → List FormRow → Option FormRow
live_row id rows = find (λ row. row.id == id && is_live row) rows

abbrev pub owner_of : Option Uuid → FormOwner
owner_of none = legacy
owner_of (some id) = user id

unfoldable pub form_owner : Uuid → Db → Option FormOwner
form_owner form_id db = live_row form_id db.forms >>= λ row. some (owner_of row.creator_id)

unfoldable pub list_forms : Db → List Form
list_forms db = map (λ row. row.form) (keep is_live db.forms)

unfoldable pub get_form : Uuid → Db → Option Form
get_form id db = live_row id db.forms >>= λ row. some row.form

-- A cursor `<rfc3339>@<rowid>`; the empty text is the least one. The text form is not modelled.
pub record Cursor : Type 0 where
  pub updated_at : Instant
  pub rowid : ℕ

abbrev pub start : Cursor
start = record { updated_at = 0; rowid = 0 }

abbrev pub cursor_of : FormRow → Cursor
cursor_of row = record { updated_at = row.updated_at; rowid = row.rowid }

-- `updated_at > ? OR (updated_at = ? AND rowid > ?)`
abbrev pub after : Cursor → FormRow → Bool
after c row =
    ltb c.updated_at row.updated_at || (c.updated_at == row.updated_at && ltb c.rowid row.rowid)

-- `ORDER BY updated_at, rowid`
unfoldable pub insert_ordered : FormRow → List FormRow → List FormRow
insert_ordered row [] = row ∷ []
insert_ordered row (other ∷ rows) =
    let later = insert_ordered row rows in
    if after (cursor_of row) other then row ∷ (other ∷ rows) else other ∷ later

unfoldable pub order_rows : List FormRow → List FormRow
unfolding insert_ordered
order_rows [] = []
order_rows (row ∷ rows) = insert_ordered row (order_rows rows)

abbrev pub last_cursor : List FormRow → Option Cursor
last_cursor [] = none
last_cursor (row ∷ []) = some (cursor_of row)
last_cursor (row ∷ (next ∷ rows)) = last_cursor (next ∷ rows)

unfoldable pub list_forms_since : Cursor → Db → List Form × List Uuid × Option Cursor
unfolding order_rows
list_forms_since since db =
    let rows = order_rows (keep (after since) db.forms) in
    (
      map (λ row. row.form) (keep is_live rows),
      map (λ row. row.id) (keep (λ row. not (is_live row)) rows),
      last_cursor rows,
    )

-- Giving an account read access to a form: the row of the pair is replaced.
abbrev pub is_grant : Uuid → Uuid → GrantRow → Bool
is_grant form_id user_id g = g.form_id == form_id && g.user_id == user_id

unfoldable pub grant_form : Uuid → Uuid → Instant → Db → Db
grant_form form_id user_id now db = record db {
  grants =
      keep (λ g. not (is_grant form_id user_id g)) db.grants
      ++ (record { form_id = form_id; user_id = user_id; granted_at = now } ∷ []);
}

unfoldable pub revoke_form : Uuid → Uuid → Db → Db × Bool
revoke_form form_id user_id db = (
  record db { grants = keep (λ g. not (is_grant form_id user_id g)) db.grants },
  any (is_grant form_id user_id) db.grants,
)

unfoldable pub has_grant : Uuid → Uuid → Db → Bool
has_grant form_id user_id db = any (is_grant form_id user_id) db.grants

unfoldable pub user_exists : Uuid → Db → Bool
user_exists user_id db = any (λ u. u.id == user_id) db.users
