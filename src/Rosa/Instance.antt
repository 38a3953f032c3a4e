-- ===== src/Rosa/Instance.antt =====
-- `parse` of crates/collecta-server/src/openrosa/instance.rs: the ids of a submission instance.
use collecta.Prelude.{String, Option, none, some, List, trim, str_eq, ◌>>=◌, if◌then◌else◌}
use collecta.Values.{Uuid}
use collecta.Rosa.Result as Result
use collecta.Rosa.Result.{Result, ok, or_err}
use collecta.Rosa.Tree.{
  Node, InstanceError, Event, missing_form_id, missing_instance_id, attr, child_of, text_of,
  parse_tree,
}

pub record Instance : Type 0 where
  pub form_id : Uuid
  pub instance_id : String
  pub root : Node

-- What the parser takes from other crates: the predefined entities, and how ids are read.
pub record Reader : Type 0 where
  pub entity : String → Option String
  pub parse_uuid : String → Option Uuid

unfoldable pub instance_id_of : Node → Option String
unfolding child_of trim
instance_id_of root = do
  meta ← child_of "meta" root
  found ← child_of "instanceID" meta
  if str_eq (trim (text_of found)) "" then none else some (trim (text_of found))

unfoldable pub form_id_of : (String → Option Uuid) → Node → Option Uuid
unfolding attr trim
form_id_of parse_uuid root = do id ← attr "id" root; parse_uuid (trim id)

unfoldable pub parse : Reader → List Event → Result InstanceError Instance
unfolding parse_tree form_id_of instance_id_of
parse reader events = Result.◌>>=◌ (parse_tree reader.entity events) (λ root.
    Result.◌>>=◌ (or_err (form_id_of reader.parse_uuid root) missing_form_id) (λ form_id.
      Result.◌>>=◌ (or_err (instance_id_of root) missing_instance_id)
        (λ instance_id. ok (record { form_id = form_id; instance_id = instance_id; root = root }))))
