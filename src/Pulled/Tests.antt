-- ===== src/Pulled/Tests.antt =====
-- The laws of a pulled set of forms at a concrete response.
use collecta.Prelude.{ℕ, none, some, [], ◌∷◌, ◌≡◌, String}
use collecta.Values.{Uuid}
use collecta.Form.{Form, no_fields}
use collecta.Protocol.{FormsPullResponse}
use collecta.Pulled.{PulledForms, apply_pull_response}
use collecta.Pulled.Laws.{lookup, lookup-apply_pull_response, apply_pull_response_again}

abbrev titled : Uuid → String → Form
titled id title = record {
  id = id;
  title = title;
  description = none;
  version = 1;
  fields = no_fields;
}

abbrev on_device : PulledForms ℕ
on_device = record { forms = titled 1 "old" ∷ (titled 2 "doomed" ∷ []); cursor = 4 }

abbrev reply : FormsPullResponse ℕ
reply = record { forms = titled 1 "new" ∷ []; deleted = 2 ∷ []; cursor = 9 }

lookup-apply_pull_response_example :
    lookup 1 (apply_pull_response reply on_device).0.forms ≡ some (titled 1 "new")
lookup-apply_pull_response_example = lookup-apply_pull_response 1 reply on_device

apply_pull_response_again_example :
    ((id : Uuid)
      → lookup id (apply_pull_response reply (apply_pull_response reply on_device).0).0.forms
        ≡ lookup id (apply_pull_response reply on_device).0.forms)
    × ((apply_pull_response reply (apply_pull_response reply on_device).0).0.cursor
        ≡ (apply_pull_response reply on_device).0.cursor)
apply_pull_response_again_example = apply_pull_response_again reply on_device
