-- ===== src/Publish/Client.antt =====
-- The client of the geodatabase in crates/collecta-server/src/publish.rs. The server behind it is not
-- in the repository: what it answers is a parameter, and may depend on everything that was sent before.
use collecta.Prelude.{
  ℕ, String, Bool, false, ◌&&◌, ◌||◌, Option, none, some, List, [], ◌∷◌, ◌++◌, ◌+++◌, str_eq, ltb,
  leb, ◌==◌, if◌then◌else◌,
}
use collecta.Values.{Uuid}
use collecta.Form.{Form}
use collecta.Server.{PublishTarget}
use collecta.Server.Auth.{Reply, ok, fail, or_fail, bad_gateway, forbidden}
use collecta.Server.Handlers.{State}
use collecta.Publish.Json as Json
use collecta.Publish.Json.{Value, Elements, no_elements, element, null, array, get, as_string}
use collecta.Publish.Feature.{
  InsertOperation, SchemaField, dataset_geometry_type, schema_fields, trim_slashes,
}

-- A request and its body.
pub data Request : Type 0 where
  create_dataset : (name : String) (srid : ℕ) (geometry_type created_by : String) → Request
  put_schema : (dataset : Uuid) → List SchemaField → Request
  list_branches : (dataset : Uuid) → Request
  create_branch : (dataset : Uuid) (name created_by : String) → Request
  commit : (branch : Uuid) → (message author : String) → List InsertOperation → Request

-- What `send` comes back with: no answer, or a status with a body that may be no json.
pub data Sent : Type 0 where
  unreachable : String → Sent
  answered : ℕ → Option Value → Sent

pub record Exchange : Type 0 where
  pub url : String
  pub token : String
  pub request : Request
  pub sent : Sent

-- Everything that was sent, the oldest first.
abbrev pub Trace : Type 0
Trace = List Exchange

pub record World : Type 0 where
  pub state : State
  pub trace : Trace

-- A step that may talk to the geodatabase and change the state.
abbrev pub Call : Type 0 → Type 0
Call A = World → Reply A × World

abbrev pub continue : {A B : Type 0} → Reply A × World → (A → Call B) → Reply B × World
continue (ok a, w) k = k a w
continue (fail status message, w) k = (fail status message, w)

infixl 5 ◌>>=◌ ◌>>◌
abbrev pub ◌>>=◌ : {A B : Type 0} → Call A → (A → Call B) → Call B
(m >>= k) w = continue (m w) k

abbrev pub ◌>>◌ : {A B : Type 0} → Call A → Call B → Call B
(m >> k) w = continue (m w) (λ _. k)

-- A step that needs neither.
abbrev pub pure : {A : Type 0} → Reply A → Call A
pure r w = (r, w)

pub record Service : Type 0 where
  pub serve : Trace → (url token : String) → Request → Sent
  pub show_status : ℕ → String
  pub parse_uuid : String → Option Uuid
  pub show_uuid : Uuid → String

-- `Ptolemy`
pub record Ptolemy : Type 0 where
  pub base : String
  pub token : String

-- `Ptolemy::new`, with a client that could be built
unfoldable pub new : (base token : String) → Ptolemy
unfolding trim_slashes
new base token = record { base = trim_slashes base; token = token }

abbrev json_or_null : Option Value → Value
json_or_null none = null
json_or_null (some v) = v

-- The id in a member called `id`.
abbrev pub id_in : (String → Option Uuid) → Option Value → Option Uuid
id_in parse_uuid (some (Json.string s)) = parse_uuid s
id_in parse_uuid _ = none

abbrev is_name : String → Option Value → Bool
is_name name (some (Json.string s)) = str_eq s name
is_name name _ = false

abbrev pub or_later : Option Uuid → Option Uuid → Option Uuid
or_later none later = later
or_later (some id) later = some id

module _ (service : Service) where
  unfoldable pub route : Request → String
  route (create_dataset name srid geometry_type created_by) = "/api/v1/datasets"
  route (put_schema dataset fields) =
      "/api/v1/datasets/" +++ (service.show_uuid dataset +++ "/schema")
  route (list_branches dataset) =
      "/api/v1/datasets/" +++ (service.show_uuid dataset +++ "/branches")
  route (create_branch dataset name created_by) =
      "/api/v1/datasets/" +++ (service.show_uuid dataset +++ "/branches")
  route (commit branch message author operations) =
      "/api/v1/branches/" +++ (service.show_uuid branch +++ "/commit")

  -- `Ptolemy::read`
  unfoldable pub read : String → Sent → Reply Value
  read route (unreachable error) =
      fail bad_gateway ("cannot reach ptolemy at " +++ (route +++ (": " +++ error)))
  read route (answered status body) =
      if status == 401 || status == 403
      then fail forbidden (
          "ptolemy refused the token on " +++ (route +++ (" with " +++ service.show_status status)))
      else if leb 200 status && ltb status 300
      then ok (json_or_null body)
      else fail bad_gateway
          ("ptolemy answered " +++ (route +++ (" with " +++ service.show_status status)))

  -- `get`, `post` and `put` of the client
  unfoldable pub exchange : Ptolemy → Request → Call Value
  exchange ptolemy request w =
      let url = ptolemy.base +++ route request in
      let sent = service.serve w.trace url ptolemy.token request in
      (
        read (route request) sent,
        record w {
          trace =
              w.trace
              ++ (record { url = url; token = ptolemy.token; request = request; sent = sent } ∷ []);
        },
      )

  unfoldable pub named_element : Elements → String → Option Uuid
  named_element no_elements name = none
  named_element (element v rest) name =
      let later = named_element rest name in
      if is_name name (get "name" v)
      then or_later (id_in service.parse_uuid (get "id" v)) later
      else later

  unfoldable pub named_id : Value → String → Option Uuid
  named_id (array elements) name = named_element elements name
  named_id _ name = none

  unfoldable pub id_of : String → Value → Reply Uuid
  id_of route body =
      or_fail (id_in service.parse_uuid (get "id" body)) bad_gateway
        ("ptolemy answered " +++ (route +++ " with no id"))

  abbrev pub or_create : Ptolemy → Uuid → String → Option Uuid → Call Uuid
  or_create ptolemy dataset author (some id) = pure (ok id)
  or_create ptolemy dataset author none = do
    created ← exchange ptolemy (create_branch dataset "main" author)
    pure (id_of (route (create_branch dataset "main" author)) created)

  -- `Ptolemy::branch`
  unfoldable pub branch : Ptolemy → Uuid → String → Call Uuid
  branch ptolemy dataset author = do
    listed ← exchange ptolemy (list_branches dataset)
    or_create ptolemy dataset author (named_id listed "main")

  unfoldable pub create_target : Ptolemy → Form → String → Call PublishTarget
  create_target ptolemy form author = do
    let request = create_dataset form.title 4326 (dataset_geometry_type form) author
    created ← exchange ptolemy request
    dataset ← pure (id_of (route request) created)
    exchange ptolemy (put_schema dataset (schema_fields form))
    branch_id ← branch ptolemy dataset author
    pure (ok (record { dataset_id = dataset; branch_id = branch_id }))
