-- ===== src/Publish/Tests.antt =====
-- Geometries and a publish of form 7 with two submissions, one of them without a geometry.
use collecta.Prelude.{ℕ, Option, none, some, List, [], ◌∷◌, ◌≡◌, refl, inl, inr, In, arith, ◌>>=◌}
use collecta.Values.{Uuid, GeoPoint, empty, geo_shape}
use collecta.Form.{no_fields}
use collecta.Submission.{Submission, SubmissionStatus}
use collecta.Server.{FormRow, SubmissionRow, empty_db}
use collecta.Server.Auth.{Caller, editor, ok}
use collecta.Server.Handlers.{require_owner}
use collecta.Server.PublishTable.{
  publish_target, unpublished_submissions, published_count, record_published,
}
use collecta.F64.{eq, le, lt, is_nan, magnitude}
use collecta.Publish.Wkb.{geometry_wkb_hex, hex, point_wkb, same_point}
use collecta.Publish.Wkb.Reader.{decode}
use collecta.Publish.Wkb.Decode.{geometry_of, decode-geometry_wkb_hex}
use collecta.Publish.Client.{World, answered, exchange, read}
use collecta.Server.FormTable.{get_form}
use collecta.Publish.Feature.{
  InsertOperation, insert_operation, feature_geometry, geometry_field, feature_properties,
}
use collecta.Publish.Run.{
  Settings, PublishResponse, publish, publish_pending, publish_batches, chunks,
}
use collecta.Publish.Fresh.{NoDup}
use collecta.Publish.Delivery.{delivered}
use collecta.Publish.Once.{IsPublishable, publish-IsPublishable}
use collecta.Publish.Complete.{publish_complete}

abbrev corner : ℕ → ℕ → GeoPoint
corner x y = record { latitude = y; longitude = x; altitude = none; accuracy = none }

abbrev triangle : List GeoPoint
triangle = corner 1 2 ∷ (corner 3 4 ∷ (corner 5 6 ∷ []))

decode-geometry_wkb_hex_example :
    (geometry_wkb_hex (geo_shape triangle) >>= decode) ≡ geometry_of (geo_shape triangle)
unfolding same_point eq le lt is_nan magnitude
decode-geometry_wkb_hex_example = decode-geometry_wkb_hex (geo_shape triangle) (omega arith) (
  (omega arith, omega arith),
  ((omega arith, omega arith), ((omega arith, omega arith), ((omega arith, omega arith), tt))),
)

abbrev answers_at : Uuid → Option GeoPoint → Submission
answers_at id place = record {
  id = id;
  form_id = 7;
  form_version = 1;
  values = empty;
  started_at = 0;
  completed_at = none;
  device_location = place;
  collector_id = none;
  status = SubmissionStatus.complete;
  attachments = [];
}

abbrev stored_row : Submission → SubmissionRow
stored_row s = record {
  id = s.id;
  form_id = 7;
  submission = s;
  instance_id = "";
  instance_hash = "";
}

abbrev form_row : FormRow
form_row = record {
  rowid = 1;
  id = 7;
  form = record { id = 7; title = "Survey"; description = none; version = 1; fields = no_fields };
  updated_at = 10;
  creator_id = some 1;
  deleted_at = none;
  target = some (record { dataset_id = 8; branch_id = 9 });
}

abbrev located : SubmissionRow
located = stored_row (answers_at 31 (some (corner 1 2)))

abbrev world : World
world = record {
  state = record {
    db = record empty_db {
      forms = form_row ∷ [];
      submissions = located ∷ (stored_row (answers_at 32 none) ∷ []);
    };
    directories = [];
  };
  trace = [];
}

-- The geodatabase accepts every request.
abbrev settings : Settings
settings = record {
  service = record {
    serve = λ _ _ _ _. answered 200 none;
    show_status = λ _. "200 OK";
    parse_uuid = λ _. none;
    show_uuid = λ _. "id";
  };
  printer = record { show_uuid = λ _. "id"; show_instant = λ _. "now" };
  ptolemy_url = some "http://ptolemy/";
  base_url = none;
}

abbrev owner : Caller
owner = record { id = 1; role = editor }

world-IsPublishable : IsPublishable world
unfolding NoDup
world-IsPublishable = record {
  ledger = record { same = refl; once = tt };
  distinct = ((λ h. elim h [ inl e ↦ cc | inr i ↦ absurd i ]), ((λ i. absurd i), tt));
  own_ids = (refl, (refl, tt));
}

publish-IsPublishable_example : IsPublishable (publish settings 20 7 owner (some "token") world).1
publish-IsPublishable_example =
    publish-IsPublishable settings 20 7 owner (some "token") world world-IsPublishable

abbrev response : PublishResponse
response = record {
  target = record { dataset_id = 8; branch_id = 9 };
  published = 1;
  skipped = 1;
  total_published = 1;
}

published_well : (publish settings 20 7 owner (some "token") world).0 ≡ ok response
unfolding publish require_owner get_form publish_target publish_pending publish_batches chunks
    unpublished_submissions insert_operation feature_geometry geometry_field exchange read
    published_count record_published
published_well = refl

abbrev operation : InsertOperation
operation = record {
  feature_id = 31;
  geometry_wkb_hex = hex (point_wkb (corner 1 2));
  properties = feature_properties settings.printer none located.submission;
}

publish_complete_example :
    In 31 (delivered (publish settings 20 7 owner (some "token") world).1.trace)
unfolding get_form insert_operation feature_geometry geometry_field
publish_complete_example =
    publish_complete settings 20 7 owner (some "token") world response form_row.form located
      operation world-IsPublishable published_well refl (inl refl) refl refl
