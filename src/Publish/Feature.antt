-- ===== src/Publish/Feature.antt =====
-- The feature that a submission is published as, and the schema of its dataset, of
-- crates/collecta-server/src/publish.rs.
use Prim.Native.Char.{Char, code}
use Prim.Native.String.{[] as nil, ◌∷◌ as ◌∷ₛ◌}
use collecta.Prelude.{
  String, Bool, true, false, Option, none, some, List, [], ◌∷◌, ◌+++◌, filter_map, find, ◌==◌,
  if◌then◌else◌, ◌>>=◌,
}
use collecta.F64.{is_finite}
use collecta.Values as Values
use collecta.Values.{
  Uuid, Instant, GeoPoint, FieldValue, Rows, Values, empty, entry, no_rows, row, text, integer,
  decimal, boolean, date, date_time, time, choice, multi_choice, geo_point, geo_trace, geo_shape,
  barcode, attachment, repeat, null,
}
use collecta.Form.{Form, FormField, FieldType, info, to_list}
use collecta.Submission.{Submission, AttachmentRef}
use collecta.Publish.Json as Json
use collecta.Publish.Json.{Value, Elements, Members, put, no_elements, element, no_members, member}
use collecta.Publish.Wkb.{geometry_wkb_hex, hex, point_wkb}

abbrev pub is_geometry : FieldType → Bool
is_geometry FieldType.geo_point = true
is_geometry FieldType.geo_trace = true
is_geometry FieldType.geo_shape = true
is_geometry _ = false

unfoldable pub geometry_field : Form → Option FormField
geometry_field form = find (λ f. is_geometry (info f).field_type) (to_list form.fields)

abbrev pub geometry_type_of : Option FormField → String
geometry_type_of none = "point"
geometry_type_of (some f) = elim (info f).field_type [
  | FieldType.geo_trace ↦ "linestring"
  | FieldType.geo_shape ↦ "polygon"
  | _ ↦ "point"
]

unfoldable pub dataset_geometry_type : Form → String
unfolding geometry_field
dataset_geometry_type form = geometry_type_of (geometry_field form)

unfoldable pub attribute_type : FieldType → Option String
attribute_type FieldType.integer = some "integer"
attribute_type FieldType.decimal = some "float"
attribute_type FieldType.boolean = some "boolean"
attribute_type FieldType.multi_select = some "array"
attribute_type FieldType.repeat = some "array"
attribute_type FieldType.geo_point = none
attribute_type FieldType.geo_trace = none
attribute_type FieldType.geo_shape = none
attribute_type _ = some "string"

pub record SchemaField : Type 0 where
  pub name : String
  pub field_type : String
  pub required : Bool

unfoldable pub schema_fields : Form → List SchemaField
unfolding attribute_type
schema_fields form =
    filter_map
      (λ f. attribute_type (info f).field_type >>= λ field_type.
        some (record { name = (info f).name; field_type = field_type; required = false }))
      (to_list form.fields)

abbrev cons_unless : Char → Bool → String → String
cons_unless c true nil = nil
cons_unless c _ s = c ∷ₛ s

-- `trim_end_matches('/')`
unfoldable pub trim_slashes : String → String
trim_slashes nil = nil
trim_slashes (c ∷ₛ s) = cons_unless c (code c == b'/') (trim_slashes s)

-- What the standard formatting of ids and instants prints.
pub record Printer : Type 0 where
  pub show_uuid : Uuid → String
  pub show_instant : Instant → String

pub record InsertOperation : Type 0 where
  pub feature_id : Uuid
  pub geometry_wkb_hex : String
  pub properties : Members

abbrev pub or_geometry : Option String → Option String → Option String
or_geometry none fallback = fallback
or_geometry (some s) fallback = some s

-- The geometry of the field's answer, else the place where the device was.
unfoldable pub feature_geometry : Form → Submission → Option String
unfolding Values.get
feature_geometry form s =
    or_geometry
      (geometry_field form >>= λ f. Values.get (info f).name s.values >>= geometry_wkb_hex)
      (s.device_location >>= λ p. some (hex (point_wkb p)))

abbrev strings : List String → Elements
strings [] = no_elements
strings (s ∷ rest) = element (Json.string s) (strings rest)

abbrev put_some : String → Option Value → Members → Members
put_some name none members = members
put_some name (some v) members = put name v members

abbrev some_string : Option String → Value
some_string none = Json.null
some_string (some s) = Json.string s

module _ (printer : Printer) (base_url : Option String) where
  unfoldable pub attachment_url : Uuid → String
  unfolding trim_slashes
  attachment_url id = elim base_url [
    | none ↦ "/api/v1/attachments/" +++ printer.show_uuid id
    | some base ↦ trim_slashes base +++ ("/api/v1/attachments/" +++ printer.show_uuid id)
  ]

  unfoldable mutual
    unfolding attachment_url is_finite put

    pub property_value : FieldValue → Option Value
    property_value (text s) = some (Json.string s)
    property_value (date s) = some (Json.string s)
    property_value (date_time s) = some (Json.string s)
    property_value (time s) = some (Json.string s)
    property_value (choice s) = some (Json.string s)
    property_value (barcode s) = some (Json.string s)
    property_value (integer n) = some (Json.whole n)
    property_value (decimal x) = some (if is_finite x then Json.number x else Json.null)
    property_value (boolean b) = some (Json.flag b)
    property_value (multi_choice choices) = some (Json.array (strings choices))
    property_value (attachment id) = some (Json.string (attachment_url id))
    property_value (repeat rows) = some (Json.array (row_objects rows))
    property_value null = some Json.null
    property_value (geo_point p) = none
    property_value (geo_trace ps) = none
    property_value (geo_shape ps) = none

    pub row_objects : Rows → Elements
    row_objects no_rows = no_elements
    row_objects (row r rest) = element (Json.object (put_values r no_members)) (row_objects rest)

    -- The loop over a map of values
    pub put_values : Values → Members → Members
    put_values empty members = members
    put_values (entry name value rest) members =
        put_values rest (put_some name (property_value value) members)

  unfoldable pub put_attachments : List AttachmentRef → Members → Members
  unfolding attachment_url put
  put_attachments [] members = members
  put_attachments (a ∷ rest) members =
      put_attachments rest (put a.field_name (Json.string (attachment_url a.id)) members)

  unfoldable pub feature_properties : Submission → Members
  feature_properties s =
      put "completed_at" (some_string (s.completed_at >>= λ t. some (printer.show_instant t))) (
        put "collector_id" (some_string s.collector_id) (
          put "submission_id" (Json.string (printer.show_uuid s.id))
            (put_attachments s.attachments (put_values s.values no_members))))

  unfoldable pub insert_operation : Form → Submission → Option InsertOperation
  insert_operation form s = feature_geometry form s >>= λ geometry.
      some (record {
        feature_id = s.id;
        geometry_wkb_hex = geometry;
        properties = feature_properties s;
      })
