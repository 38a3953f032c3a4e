-- ===== src/Server/Access.antt =====
-- Who may read and who may change a form, against `require_read`, `require_owner` and the handlers
-- behind them in crates/collecta-server/src/lib.rs.
use collecta.Prelude.{
  String, Bool, true, false, ◌||◌, Option, none, some, ◌≡◌, refl, ap, sym, ◌∙◌, ◌⊎◌, ◌↔◌, inl, inr,
  Option-cases, ==_iff, some_inj, In, any-In, In-any, arith, if◌then◌else◌,
}
use collecta.Values.{Uuid, Instant}
use collecta.Server.{FormRow, GrantRow, Db}
use collecta.Server.Auth.{
  Role, Caller, Status, Reply, admin, editor, viewer, ok, fail, forbidden, not_found, is_admin,
}
use collecta.Server.FormTable.{live_row, owner_of, form_owner, has_grant, is_grant}
use collecta.Server.Handlers.{
  State, owner_is, owns, require_read, require_owner, remove_form, remove_submission, create_grant,
  revoke_grant,
}

-- The caller is an administrator or the account that created the form.
pub Controls : Caller → FormRow → Type 0
Controls caller row = (caller.role ≡ admin) ⊎ (row.creator_id ≡ some caller.id)

-- Somebody gave the caller access to the form.
pub Granted : Caller → Uuid → Db → Type 0
Granted caller id db = (g : GrantRow) × In g db.grants × (g.form_id ≡ id) × (g.user_id ≡ caller.id)

-- The form is live, and the caller controls it.
pub MayChange : Caller → Uuid → Db → Type 0
MayChange caller id db = (row : FormRow) × (live_row id db.forms ≡ some row) × Controls caller row

-- The form is live, and the caller controls it or was given access.
pub MayRead : Caller → Uuid → Db → Type 0
MayRead caller id db =
    (row : FormRow) × (live_row id db.forms ≡ some row)
    × (Controls caller row ⊎ Granted caller id db)

is_admin_iff : (r : Role) → is_admin r ≡ true ↔ r ≡ admin
unfolding is_admin
is_admin_iff admin = (λ _. refl, λ _. refl)
is_admin_iff editor = (λ e. cc, λ e. cc)
is_admin_iff viewer = (λ e. cc, λ e. cc)

owner_is_iff : (o : Option Uuid) (id : Uuid) → owner_is (owner_of o) id ≡ true ↔ o ≡ some id
owner_is_iff none id = (λ e. cc, λ e. cc)
owner_is_iff (some x) id = (λ e. ap some ((==_iff x id).0 e), λ e. (==_iff x id).1 (some_inj e))

or-cases : (a b : Bool) → (a || b) ≡ true → (a ≡ true) ⊎ (b ≡ true)
or-cases true b e = inl refl
or-cases false b e = inr e

or-right : (a b : Bool) → b ≡ true → (a || b) ≡ true
or-right true b e = refl
or-right false b e = e

owns_iff :
    (caller : Caller) (row : FormRow)
    → owns caller (owner_of row.creator_id) ≡ true ↔ Controls caller row
unfolding owns Controls
owns_iff caller row = (
  λ e. elim (or-cases (is_admin caller.role) (owner_is (owner_of row.creator_id) caller.id) e) [
    | inl a ↦ inl ((is_admin_iff caller.role).0 a)
    | inr o ↦ inr ((owner_is_iff row.creator_id caller.id).0 o)
  ],
  λ c. elim c [
    | inl a ↦ rw ((is_admin_iff caller.role).1 a)
    | inr o ↦ or-right (is_admin caller.role) _ ((owner_is_iff row.creator_id caller.id).1 o)
  ],
)

has_grant_iff :
    (caller : Caller) (id : Uuid) (db : Db)
    → has_grant id caller.id db ≡ true ↔ Granted caller id db
unfolding has_grant Granted
has_grant_iff caller id db = (
  λ e.
      let found = any-In (is_grant id caller.id) db.grants e in
      (found.0, found.1, ground (arith, found.2), ground (arith, found.2)),
  λ g. In-any (is_grant id caller.id) db.grants g.1 (ground (arith, g.2, g.3)),
)

Reply-cases :
    (r : Reply Unit)
    → (r ≡ ok tt) ⊎ ((status : Status) × (message : String) × (r ≡ fail status message))
Reply-cases (ok tt) = inl refl
Reply-cases (fail status message) = inr (status, message, refl)

-- A gate on the row that was found.
abbrev gate : Bool → Reply Unit
gate b = if b then ok tt else fail forbidden "not your form"

gate_iff : (b : Bool) → gate b ≡ ok tt ↔ b ≡ true
gate_iff true = (λ _. refl, λ _. refl)
gate_iff false = (λ e. cc, λ e. cc)

abbrev gated : (FormRow → Bool) → Option FormRow → Reply Unit
gated p none = fail not_found "form not found"
gated p (some row) = gate (p row)

gated_iff :
    (p : FormRow → Bool) (o : Option FormRow)
    → gated p o ≡ ok tt ↔ ((row : FormRow) × (o ≡ some row) × (p row ≡ true))
gated_iff p none = (λ e. cc, λ e. cc (e.1))
gated_iff p (some row) = (
  λ e. (row, refl, (gate_iff (p row)).0 e),
  λ e. (gate_iff (p row)).1 (ap p (some_inj e.1) ∙ e.2),
)

require_owner-gated :
    (caller : Caller) (id : Uuid) (db : Db)
    → require_owner caller id db
      ≡ gated (λ row. owns caller (owner_of row.creator_id)) (live_row id db.forms)
unfolding require_owner form_owner
require_owner-gated caller id db = elim (Option-cases (live_row id db.forms)) [
  | inl e ↦ rw e
  | inr (row, e) ↦ rw e
]

require_read-gated :
    (caller : Caller) (id : Uuid) (db : Db)
    → require_read caller id db
      ≡ gated
          (λ row. owns caller (owner_of row.creator_id) || has_grant id caller.id db)
          (live_row id db.forms)
unfolding require_read form_owner
require_read-gated caller id db = elim (Option-cases (live_row id db.forms)) [
  | inl e ↦ rw e
  | inr (row, e) ↦ rw e
]

-- A caller passes the gate of the changes exactly when the form is live and the caller is an
-- administrator or its creator, and the gate of the reads exactly when the form is live and the caller
-- is an administrator, its creator, or an account that has a grant on it.
pub gates_iff :
    (caller : Caller) (id : Uuid) (db : Db)
    → (require_owner caller id db ≡ ok tt ↔ MayChange caller id db)
      × (require_read caller id db ≡ ok tt ↔ MayRead caller id db)
unfolding require_owner require_read form_owner MayChange MayRead
gates_iff caller id db = (
  (
    λ e.
        let g =
          (gated_iff (λ row. owns caller (owner_of row.creator_id)) (live_row id db.forms)).0
            (sym (require_owner-gated caller id db) ∙ e) in
        (g.0, g.1, (owns_iff caller g.0).0 g.2),
    λ m.
        require_owner-gated caller id db
        ∙ (gated_iff (λ row. owns caller (owner_of row.creator_id)) (live_row id db.forms)).1
            (m.0, m.1, (owns_iff caller m.0).1 m.2),
  ),
  (
    λ e.
        let g =
          (gated_iff (λ row. owns caller (owner_of row.creator_id) || has_grant id caller.id db)
              (live_row id db.forms)).0
            (sym (require_read-gated caller id db) ∙ e) in
        (
          g.0,
          g.1,
          elim (or-cases _ _ g.2) [
            | inl o ↦ inl ((owns_iff caller g.0).0 o)
            | inr h ↦ inr ((has_grant_iff caller id db).0 h)
          ],
        ),
    λ m.
        require_read-gated caller id db
        ∙ (gated_iff (λ row. owns caller (owner_of row.creator_id) || has_grant id caller.id db)
              (live_row id db.forms)).1
            (
              m.0,
              m.1,
              elim m.2 [
                | inl c ↦ rw ((owns_iff caller m.0).1 c)
                | inr g ↦ or-right _ _ ((has_grant_iff caller id db).1 g)
              ],
            ),
  ),
)

-- Whoever may not change a form gets one refusal from all four requests that change it, its
-- submissions or its grants, and the state stays as it was.
pub refused_unchanged :
    (caller : Caller) (id submission_id user_id : Uuid) (now : Instant) (s : State)
    → ¬ MayChange caller id s.db
    → (status : Status) × (message : String) × (remove_form caller id now s
        ≡ (fail status message, s))
      × (remove_submission caller id submission_id s ≡ (fail status message, s))
      × (create_grant caller id user_id now s ≡ (fail status message, s))
      × (revoke_grant caller id user_id s ≡ (fail status message, s))
unfolding remove_form remove_submission create_grant revoke_grant
refused_unchanged caller id submission_id user_id now s refusal =
    elim (Reply-cases (require_owner caller id s.db)) [
      | inl e ↦ elim (refusal ((gates_iff caller id s.db).0.0 e)) [ ]
      | inr (status, message, e) ↦ (status, message, rw e, rw e, rw e, rw e)
    ]
