-- ===== src/Rosa/Tree.antt =====
-- The element tree of crates/collecta-server/src/openrosa/instance.rs and the reader that builds it.
-- The events are those of the XML reader, another crate: a list, with what failed to decode in place.
pub mod Size
pub mod RoundTrip
pub mod Bounds
pub mod Entities
use Prim.Native.Char.{code}
use Prim.Native.String.{[] as nil, ◌∷◌ as ◌∷ₛ◌}
use collecta.Prelude.{
  ℕ, ◌+◌, String, Bool, true, false, Option, none, some, List, [], ◌∷◌, ◌++◌, ◌+++◌, length, str_eq,
  ltb, ◌==◌, if◌then◌else◌,
}
use collecta.Rosa.Result.{Result, ok, err, ◌>>=◌, or_err}

pub data InstanceError : Type 0 where
  malformed : String → InstanceError
  doc_type_rejected : InstanceError
  unknown_entity : String → InstanceError
  too_deep : InstanceError
  too_large : InstanceError
  missing_form_id : InstanceError
  missing_instance_id : InstanceError

-- `Display::fmt`
unfoldable pub show_error : InstanceError → String
show_error (malformed e) = "submission xml is malformed: " +++ e
show_error doc_type_rejected = "submission xml must not declare a dtd"
show_error (unknown_entity name) = "submission xml references undefined entity &" +++ (name +++ ";")
show_error too_deep = "submission xml is nested too deeply"
show_error too_large = "submission xml has too many elements"
show_error missing_form_id = "submission xml has no form id attribute"
show_error missing_instance_id = "submission xml has no meta/instanceID"

mutual
  pub data Node : Type 0 where
    node : (name text : String) → List (String × String) → Nodes → Node

  -- `Vec<Node>`
  pub data Nodes : Type 0 where
    no_nodes : Nodes
    child : Node → Nodes → Nodes

abbrev pub name_of : Node → String
name_of (node name text attrs children) = name

abbrev pub text_of : Node → String
text_of (node name text attrs children) = text

abbrev pub attrs_of : Node → List (String × String)
attrs_of (node name text attrs children) = attrs

abbrev pub children_of : Node → Nodes
children_of (node name text attrs children) = children

unfoldable pub add_last : Node → Nodes → Nodes
add_last x no_nodes = child x no_nodes
add_last x (child y rest) = child y (add_last x rest)

-- `parent.children.push(node)`
unfoldable pub push_child : Node → Node → Node
unfolding add_last
push_child x (node name text attrs children) = node name text attrs (add_last x children)

-- `node.text.push_str(text)`
unfoldable pub push_text : String → Node → Node
push_text more (node name text attrs children) = node name (text +++ more) attrs children

abbrev find_attr : String → List (String × String) → Option String
find_attr key [] = none
find_attr key ((k, v) ∷ rest) = if str_eq k key then some v else find_attr key rest

-- `Node::attr`
unfoldable pub attr : String → Node → Option String
attr key n = find_attr key (attrs_of n)

-- The first of the nodes with a name.
unfoldable pub first_named : String → Nodes → Option Node
first_named name no_nodes = none
first_named name (child x rest) = if str_eq (name_of x) name then some x else first_named name rest

-- `Node::child`
unfoldable pub child_of : String → Node → Option Node
unfolding first_named
child_of name n = first_named name (children_of n)

-- An opening tag: its name, prefix included, and its attributes, one of which may fail to decode.
pub record Tag : Type 0 where
  pub raw_name : String
  pub raw_attrs : List (Result String (String × String))

pub data Event : Type 0 where
  doc_type : Event
  start : Tag → Event
  self_closed : Tag → Event
  finish : Event
  characters : Result String String → Event
  c_data : Result String String → Event
  -- the name, and what the name stands for as a character reference
  general_ref : Result String String → Result String (Option String) → Event
  -- a comment, a declaration or a processing instruction
  skipped : Event
  -- the reader fails here
  broken : String → Event

abbrev pub max_depth : ℕ
max_depth = 32

abbrev pub max_elements : ℕ
max_elements = 100_000

-- What follows the last colon, if there is a colon.
abbrev pub after_colon : String → Option String
after_colon nil = none
after_colon (c ∷ₛ s) = elim (after_colon s) [
  | some rest ↦ some rest
  | none ↦ if code c == b':' then some s else none
]

unfoldable pub local_name : String → String
local_name raw = elim (after_colon raw) [ some name ↦ name | none ↦ raw ]

-- The loop over the attributes
unfoldable pub read_attrs :
    List (Result String (String × String)) → Result InstanceError (List (String × String))
unfolding local_name
read_attrs [] = ok []
read_attrs (err e ∷ rest) = err (malformed e)
read_attrs (ok (key, value) ∷ rest) = do more ← read_attrs rest; ok ((local_name key, value) ∷ more)

unfoldable pub node_from : Tag → Result InstanceError Node
unfolding read_attrs local_name
node_from tag = do
  attrs ← read_attrs tag.raw_attrs
  ok (node (local_name tag.raw_name) "" attrs no_nodes)

-- The variables of the loop; the top of the stack stands first.
pub record Reading : Type 0 where
  pub stack : List Node
  pub root : Option Node
  pub elements : ℕ

-- A node that is complete goes to its parent, or is the root.
unfoldable pub complete_node : Node → List Node → Reading → Reading
unfolding push_child
complete_node x [] r = record r { stack = []; root = some x }
complete_node x (parent ∷ rest) r = record r { stack = push_child x parent ∷ rest }

-- Text inside no element is dropped.
abbrev pub push_top : String → List Node → List Node
push_top more [] = []
push_top more (top ∷ rest) = push_text more top ∷ rest

abbrev pub add_text : String → Reading → Reading
add_text more r = record r { stack = push_top more r.stack }

abbrev pub decoded : Result String String → Result InstanceError String
decoded (ok s) = ok s
decoded (err e) = err (malformed e)

-- Text inside no element is not decoded.
abbrev pub read_content : List Node → Result String String → Reading → Result InstanceError Reading
read_content [] t r = ok r
read_content (top ∷ rest) t r = do s ← decoded t; ok (add_text s r)

-- A character reference, for a name that is not a predefined entity.
abbrev pub resolve_char : String → Result String (Option String) → Result InstanceError String
resolve_char name (err e) = err (malformed e)
resolve_char name (ok none) = err (unknown_entity name)
resolve_char name (ok (some s)) = ok s

abbrev pub resolve :
    (String → Option String) → String → Result String (Option String) → Result InstanceError String
resolve entity name char_ref = elim (entity name) [
  | some s ↦ ok s
  | none ↦ resolve_char name char_ref
]

abbrev pub close_top : List Node → Reading → Result InstanceError Reading
close_top [] r = err (malformed "unbalanced closing tag")
close_top (top ∷ rest) r = ok (complete_node top rest r)

abbrev pub open_node : Node → Reading → Result InstanceError Reading
open_node x r =
    if ltb max_depth (length (x ∷ r.stack))
    then err too_deep
    else ok (record r { stack = x ∷ r.stack })

-- `elements += 1` and its limit
abbrev pub count_element : Reading → Result InstanceError Reading
count_element r =
    if ltb max_elements (r.elements + 1)
    then err too_large
    else ok (record r { elements = r.elements + 1 })

-- One round of the loop of `parse_tree`. `entity` is `resolve_xml_entity` of the XML crate.
unfoldable pub read_event :
    (entity : String → Option String) → Event → Reading → Result InstanceError Reading
unfolding node_from complete_node push_text
read_event entity doc_type r = err doc_type_rejected
read_event entity (start tag) r = do
  counted ← count_element r
  x ← node_from tag
  open_node x counted
read_event entity (self_closed tag) r = do
  counted ← count_element r
  x ← node_from tag
  ok (complete_node x counted.stack counted)
read_event entity finish r = close_top r.stack r
read_event entity (characters t) r = read_content r.stack t r
read_event entity (c_data t) r = read_content r.stack t r
read_event entity (general_ref name char_ref) r = do
  n ← decoded name
  s ← resolve entity n char_ref
  ok (add_text s r)
read_event entity skipped r = ok r
read_event entity (broken e) r = err (malformed e)

-- The loop, whose end is the end of the file.
unfoldable pub read_events :
    (entity : String → Option String) → List Event → Reading → Result InstanceError Reading
unfolding read_event
read_events entity [] r = ok r
read_events entity (e ∷ rest) r = do next ← read_event entity e r; read_events entity rest next

abbrev pub finish_reading : List Node → Option Node → Result InstanceError Node
finish_reading (x ∷ rest) root = err (malformed "unclosed element")
finish_reading [] none = err (malformed "no root element")
finish_reading [] (some root) = ok root

abbrev pub begin : Reading
begin = record { stack = []; root = none; elements = 0 }

unfoldable pub parse_tree :
    (entity : String → Option String) → List Event → Result InstanceError Node
unfolding read_events
parse_tree entity events = do r ← read_events entity events begin; finish_reading r.stack r.root
