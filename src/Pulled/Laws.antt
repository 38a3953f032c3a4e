-- ===== src/Pulled/Laws.antt =====
-- A pulled set of forms as a map from ids to definitions: what one response of
-- crates/collecta-core/src/pulled_forms.rs makes of it.
use collecta.Prelude.{
  Option, none, some, List, [], ◌∷◌, ◌≡◌, refl, ap, find, Bool-cases, ==_iff, inl, inr, arith, ◌==◌,
  if◌then◌else◌,
}
use collecta.Values.{Uuid}
use collecta.Values.Laws.{or_else}
use collecta.Form.{Form}
use collecta.Protocol.{FormsPullResponse}
use collecta.Pulled.{
  PulledForms, store_form, store_forms, contains, drop_deleted, apply_pull_response,
}

-- The definition held under an id.
abbrev pub lookup : Uuid → List Form → Option Form
lookup id forms = find (λ f. f.id == id) forms

-- The last definition of an id in a response.
abbrev pub latest : Uuid → List Form → Option Form
latest id [] = none
latest id (f ∷ fs) = or_else (latest id fs) (if f.id == id then some f else none)

lookup-store_form :
    (id : Uuid) (f : Form) (held : List Form)
    → lookup id (store_form f held) ≡ (if f.id == id then some f else lookup id held)
unfolding store_form
lookup-store_form id f [] = refl
lookup-store_form id f (g ∷ held) = ground (arith, lookup-store_form id f held)

pub lookup-store_forms :
    (id : Uuid) (fs held : List Form)
    → lookup id (store_forms fs held) ≡ or_else (latest id fs) (lookup id held)
unfolding store_forms
lookup-store_forms id [] held = refl
lookup-store_forms id (f ∷ fs) held =
    ground (arith, lookup-store_forms id fs (store_form f held), lookup-store_form id f held)

pub lookup-drop_deleted :
    (id : Uuid) (deleted : List Uuid) (forms : List Form)
    → lookup id (drop_deleted deleted forms)
      ≡ (if contains deleted id then none else lookup id forms)
lookup-drop_deleted id deleted [] = ground arith
lookup-drop_deleted id deleted (f ∷ forms) = elim (Bool-cases (f.id == id)) [
  | inl e ↦ ground (
    arith,
    lookup-drop_deleted id deleted forms,
    ap (λ t. contains deleted t) ((==_iff f.id id).0 e),
  )
  | inr e ↦ ground (arith, lookup-drop_deleted id deleted forms)
]

-- After a response a client holds nothing under the ids that it tombstones; under any other id the
-- response's last definition of it, or, where the response has none, what it held before.
pub lookup-apply_pull_response :
    {Cursor : Type 0} (id : Uuid) (response : FormsPullResponse Cursor)
    (pulled : PulledForms Cursor)
    → lookup id (apply_pull_response response pulled).0.forms ≡ (
        if contains response.deleted id
        then none
        else or_else (latest id response.forms) (lookup id pulled.forms))
unfolding apply_pull_response
lookup-apply_pull_response id response pulled = ground (
  arith,
  lookup-drop_deleted id response.deleted (store_forms response.forms pulled.forms),
  lookup-store_forms id response.forms pulled.forms,
)

-- Applying a response a second time changes the definition held under no id, nor the cursor.
pub apply_pull_response_again :
    {Cursor : Type 0} (response : FormsPullResponse Cursor) (pulled : PulledForms Cursor)
    → let once = (apply_pull_response response pulled).0 in
      let twice = (apply_pull_response response once).0 in
      ((id : Uuid) → lookup id twice.forms ≡ lookup id once.forms) × (twice.cursor ≡ once.cursor)
unfolding apply_pull_response
apply_pull_response_again response pulled = (
  λ id. ground (
    arith,
    lookup-apply_pull_response id response pulled,
    lookup-apply_pull_response id response (apply_pull_response response pulled).0,
  ),
  refl,
)
