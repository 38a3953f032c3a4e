-- ===== src/Rosa/Tests.antt =====
-- The interface for ODK Collect at a small form: an instance with one geopoint, sent by account 1.
use collecta.Prelude.{
  ◌≤◌, String, true, false, Option, none, some, List, [], ◌∷◌, ◌≡◌, refl, inr, All, arith, show_ℕ,
  true≢false, sym, ap, str_eq,
}
use collecta.F64.{FloatText}
use collecta.Values.{empty}
use collecta.Form.{Form, FieldType, Fields, form_field, absent, no_fields, field}
use collecta.Submission.{Submission, SubmissionStatus}
use collecta.Server.{FormRow, SubmissionRow, empty_db}
use collecta.Server.Auth as Auth
use collecta.Server.Auth.{Caller, editor, fail, conflict}
use collecta.Server.SubmissionTable.{find_instance}
use collecta.Server.AttachmentTable.{attached_filenames}
use collecta.Server.Handlers.{State}
use collecta.Rosa.Result.{Result, ok}
use collecta.Rosa.Tree.{local_name, Node, Event, node, no_nodes, child, parse_tree}
use collecta.Rosa.Tree.Size.{size, height}
use collecta.Rosa.Tree.RoundTrip.{write, IsLocal, parse_tree-write}
use collecta.Rosa.Tree.Bounds.{parse_tree-bounds}
use collecta.Rosa.Tree.Entities.{IsHarmless, parse_tree-IsHarmless}
use collecta.Rosa.Instance.{Instance}
use collecta.Rosa.Mapping.{to_submission}
use collecta.Rosa.Mapping.Filled.{AllFit, to_submission-AllFit}
use collecta.Rosa.Parts.{MultipartError, Part, or_text}
use collecta.Validation.{validate}
use collecta.Rosa.Storing.{store_each}
use collecta.Rosa.Submitting.{show_stored, Outside, Draw, Ready, check_request, submit_instance}
use collecta.Rosa.Submitting.Checks.{ready_of}
use collecta.Rosa.Submitting.Resending.{submit_instance-again, submit_instance-conflict}

abbrev leaf : (name text : String) → Node
leaf name text = node name text [] no_nodes

abbrev tree : Node
tree = node "data" "" (("id", "seven") ∷ []) (
    child (leaf "place" "12.5 7 0 0")
      (child (node "meta" "" [] (child (leaf "instanceID" "uuid:1") no_nodes)) no_nodes))

abbrev no_entity : String → Option String
no_entity _ = none

abbrev tree_events : List Event
tree_events = write tree []

parse_tree-write_example : parse_tree no_entity (write tree []) ≡ ok tree
unfolding IsLocal size height local_name
parse_tree-write_example =
    parse_tree-write no_entity tree
      (refl, (refl, tt), ((refl, tt, tt), ((refl, tt, ((refl, tt, tt), tt)), tt))) (omega arith)
      (omega arith)

tree_read : parse_tree no_entity (write tree []) ≡ ok tree
unfolding parse_tree write
tree_read = refl

parse_tree-bounds_example : (size tree ≤ 100_000) × (height tree ≤ 33)
parse_tree-bounds_example = parse_tree-bounds no_entity (write tree []) tree tree_read

parse_tree-IsHarmless_example : All (IsHarmless no_entity) (write tree [])
parse_tree-IsHarmless_example = parse_tree-IsHarmless no_entity (write tree []) tree tree_read

abbrev plain_floats : FloatText
plain_floats = record { show = λ _. ""; parse = λ _. some 0 }

abbrev place : Fields
place =
    field
      (form_field
        (record {
          name = "place";
          label = "Place";
          field_type = FieldType.geo_point;
          required = false;
          hint = none;
          default = none;
          relevant = none;
          choices = none;
          constraints = [];
          metadata = [];
        })
        absent)
      no_fields

abbrev survey : Form
survey = record { id = 7; title = "Survey"; description = none; version = 1; fields = place }

abbrev instance_one : Instance
instance_one = record { form_id = 7; instance_id = "uuid:1"; root = tree }

to_submission-AllFit_example :
    AllFit place (to_submission plain_floats 31 1 2 instance_one survey "account").0.values
to_submission-AllFit_example =
    to_submission-AllFit plain_floats 31 1 2 instance_one survey "account"

abbrev survey_row : FormRow
survey_row = record {
  rowid = 1;
  id = 7;
  form = survey;
  updated_at = 10;
  creator_id = some 1;
  deleted_at = none;
  target = none;
}

abbrev start_state : State
start_state = record { db = record empty_db { forms = survey_row ∷ [] }; directories = [] }

abbrev outside : Outside
outside = record {
  platform = record { floats = plain_floats; show_uuid = show_ℕ };
  reader = record { entity = no_entity; parse_uuid = λ _. some 7 };
  events = λ _. tree_events;
  hash = λ _. "hash";
  disk = record {
    takes_directory = λ _. true;
    takes_file = λ _ _ _. true;
    path = λ _ _. "";
    fresh = λ n. n;
  };
}

abbrev collector : Caller
collector = record { id = 1; role = editor }

abbrev body : List (Result MultipartError Part)
body =
    ok (record {
      name = some "xml_submission_file";
      filename = none;
      content_type = none;
      chunks = ok (60 ∷ (62 ∷ [])) ∷ [];
    })
    ∷ (ok (record {
      name = some "photo.jpg";
      filename = none;
      content_type = some "image/jpeg";
      chunks = ok (1 ∷ []) ∷ (ok (2 ∷ []) ∷ []);
    })
        ∷ [])

abbrev draw : Draw
draw = record { id = 31; started = 1; completed = 2 }

abbrev later_draw : Draw
later_draw = record { id = 32; started = 3; completed = 4 }

sent_once :
    (submit_instance outside collector draw body start_state).0
    ≡ Auth.ok "full submission upload was successful!"
unfolding submit_instance write validate store_each attached_filenames show_stored
sent_once = refl

submit_instance-again_example :
    let once = (submit_instance outside collector draw body start_state).1 in
    submit_instance outside collector later_draw body once
    ≡ (Auth.ok "attachments received (0 new)", once)
submit_instance-again_example =
    submit_instance-again outside collector draw later_draw body start_state
      "full submission upload was successful!" sent_once

-- The instance of account 1 is stored.
abbrev filed : Submission
filed = record {
  id = 31;
  form_id = 7;
  form_version = 1;
  values = empty;
  started_at = 1;
  completed_at = some 2;
  device_location = none;
  collector_id = some "1";
  status = SubmissionStatus.complete;
  attachments = [];
}

abbrev filed_row : SubmissionRow
filed_row = record {
  id = 31;
  form_id = 7;
  submission = filed;
  instance_id = "uuid:1";
  instance_hash = "hash";
}

abbrev filed_state : State
filed_state = record start_state { db = record start_state.db { submissions = filed_row ∷ [] } }

abbrev bare_body : List (Result MultipartError Part)
bare_body =
    ok (record {
      name = some "xml_submission_file";
      filename = none;
      content_type = none;
      chunks = ok (60 ∷ (62 ∷ [])) ∷ [];
    })
    ∷ []

abbrev intruder : Caller
intruder = record { id = 2; role = editor }

abbrev intruding : Ready
intruding = ready_of outside intruder later_draw [] (60 ∷ (62 ∷ [])) instance_one survey

intruder_checked :
    check_request outside intruder later_draw bare_body filed_state.db ≡ Auth.ok intruding
unfolding check_request write validate show_ℕ to_submission
intruder_checked = refl

submit_instance-conflict_example :
    (message : String) × (submit_instance outside intruder later_draw bare_body filed_state
      ≡ (fail conflict message, filed_state))
unfolding find_instance to_submission show_ℕ
submit_instance-conflict_example =
    submit_instance-conflict outside intruder later_draw bare_body filed_state intruding
      (record { submission = filed; instance_hash = "hash" }) intruder_checked refl
      (inr (λ e. true≢false (sym (ap (λ (o : Option String). str_eq (or_text "" o) "2") e))))
