-- ===== src/Pulled.antt =====
-- crates/collecta-core/src/pulled_forms.rs: the form definitions that a client holds.
pub mod Laws
mod Tests
use collecta.Prelude.{
  ℕ, ◌-◌, Bool, true, false, not, List, [], ◌∷◌, length, keep, any, ◌==◌, if◌then◌else◌,
}
use collecta.Values.{Uuid}
use collecta.Form.{Form}
use collecta.Protocol.{FormsPullResponse}

pub record PulledForms (Cursor : Type 0) : Type 0 where
  pub forms : List Form
  pub cursor : Cursor

pub record PullOutcome : Type 0 where
  pub updated : ℕ
  pub removed : ℕ

-- `PulledForms::new`; `start` is the cursor that asks for everything.
unfoldable pub new : {Cursor : Type 0} → Cursor → PulledForms Cursor
new start = record { forms = []; cursor = start }

-- One round of the loop: the held form of that id is overwritten, or the form is pushed.
unfoldable pub store_form : Form → List Form → List Form
store_form form [] = form ∷ []
store_form form (held ∷ rest) =
    let later = store_form form rest in if held.id == form.id then form ∷ rest else held ∷ later

unfoldable pub store_forms : List Form → List Form → List Form
unfolding store_form
store_forms [] held = held
store_forms (form ∷ forms) held = store_forms forms (store_form form held)

abbrev pub contains : List Uuid → Uuid → Bool
contains ids id = any (λ d. d == id) ids

-- `retain`
abbrev pub drop_deleted : List Uuid → List Form → List Form
drop_deleted deleted forms = keep (λ form. not (contains deleted form.id)) forms

unfoldable pub apply_pull_response :
    {Cursor : Type 0}
    → FormsPullResponse Cursor
    → PulledForms Cursor
    → PulledForms Cursor × PullOutcome
unfolding store_forms
apply_pull_response response pulled =
    let stored = store_forms response.forms pulled.forms in
    let kept = drop_deleted response.deleted stored in
    (
      record { forms = kept; cursor = response.cursor },
      record { updated = length response.forms; removed = length stored - length kept },
    )
