-- ===== src/Rosa/Tree/RoundTrip.antt =====
-- Reading back the events of a tree, against `parse_tree` of
-- crates/collecta-server/src/openrosa/instance.rs.
use text.Mathlib.TextLemmas.{nil-append}
use collecta.Prelude.{
  ℕ, suc, ◌+◌, ◌≤◌, String, false, Option, none, List, [], ◌∷◌, ◌≡◌, refl, ap, sym, ◌∙◌, map,
  length, All, ltb, arith,
}
use collecta.Rosa.Result.{Result, ok, ◌>>=◌}
use collecta.Rosa.Tree.Size.{size, size_all, height, height_all}
use collecta.Rosa.Tree.{
  Node, Nodes, node, no_nodes, child, InstanceError, Event, start, finish, characters, Reading,
  local_name, read_attrs, node_from, add_last, push_child, push_text, complete_node, read_event,
  read_events, parse_tree, finish_reading,
}

unfoldable mutual
  -- The events of a tree, in front of others.
  pub write : Node → List Event → List Event
  write (node name text attrs children) rest =
      start (record { raw_name = name; raw_attrs = map ok attrs })
      ∷ (characters (ok text) ∷ write_all children (finish ∷ rest))

  pub write_all : Nodes → List Event → List Event
  write_all no_nodes rest = rest
  write_all (child x xs) rest = write x (write_all xs rest)

unfoldable mutual
  -- No name of an element or an attribute has a prefix.
  pub IsLocal : Node → Type 0
  IsLocal (node name text attrs children) =
      (local_name name ≡ name)
      × All (λ (a : String × String). local_name a.0 ≡ a.0) attrs
      × AllLocal children

  pub AllLocal : Nodes → Type 0
  AllLocal no_nodes = Unit
  AllLocal (child x xs) = IsLocal x × AllLocal xs

read_attrs-map :
    (attrs : List (String × String))
    → All (λ (a : String × String). local_name a.0 ≡ a.0) attrs
    → read_attrs (map ok attrs) ≡ ok attrs
unfolding read_attrs
read_attrs-map [] h = refl
read_attrs-map ((k, v) ∷ rest) h = rw (read_attrs-map rest h.1, h.0)

append_nodes : Nodes → Nodes → Nodes
append_nodes no_nodes ys = ys
append_nodes (child x xs) ys = child x (append_nodes xs ys)

-- A reader in the middle of a file.
abbrev at : List Node → Option Node → ℕ → Reading
at stack root elements = record { stack = stack; root = root; elements = elements }

push_all : Nodes → Node → Node
push_all no_nodes top = top
push_all (child x xs) top = push_all xs (push_child x top)

module _ (entity : String → Option String) where
  read_start :
      (name : String) (attrs : List (String × String)) (rest : List Event) (stack : List Node)
      (root : Option Node) (n : ℕ)
      → local_name name ≡ name
      → All (λ (a : String × String). local_name a.0 ≡ a.0) attrs
      → length stack + 1 ≤ 32
      → n + 1 ≤ 100_000
      → read_events entity
          (start (record { raw_name = name; raw_attrs = map ok attrs }) ∷ rest)
          (at stack root n)
        ≡ read_events entity rest (at (node name "" attrs no_nodes ∷ stack) root (n + 1))
  unfolding read_events read_event node_from
  read_start name attrs rest stack root n hn ha d m =
      let few : ltb 100_000 (n + 1) ≡ false = ground (arith, m) in
      let shallow : ltb 32 (suc (length stack)) ≡ false = ground (arith, d) in
      rw (few, read_attrs-map attrs ha, hn, shallow)

  read_text :
      (name text : String) (attrs : List (String × String)) (rest : List Event) (stack : List Node)
      (root : Option Node) (n : ℕ)
      → read_events entity
          (characters (ok text) ∷ rest)
          (at (node name "" attrs no_nodes ∷ stack) root n)
        ≡ read_events entity rest (at (node name text attrs no_nodes ∷ stack) root n)
  unfolding read_events read_event push_text
  read_text name text attrs rest stack root n = rw (nil-append text)

  read_finish :
      (x : Node) (rest : List Event) (stack : List Node) (root : Option Node) (n : ℕ)
      → read_events entity (finish ∷ rest) (at (x ∷ stack) root n)
        ≡ read_events entity rest (complete_node x stack (at (x ∷ stack) root n))
  unfolding read_events read_event
  read_finish x rest stack root n = refl

append_nodes-nil : (xs : Nodes) → append_nodes xs no_nodes ≡ xs
unfolding append_nodes
append_nodes-nil no_nodes = refl
append_nodes-nil (child x xs) = ap (child x) (append_nodes-nil xs)

append-add_last :
    (ys : Nodes) (x : Node) (xs : Nodes)
    → append_nodes (add_last x ys) xs ≡ append_nodes ys (child x xs)
unfolding append_nodes add_last
append-add_last no_nodes x xs = refl
append-add_last (child y ys) x xs = ap (child y) (append-add_last ys x xs)

push_all-node :
    (xs : Nodes) (name text : String) (attrs : List (String × String)) (ys : Nodes)
    → push_all xs (node name text attrs ys) ≡ node name text attrs (append_nodes ys xs)
unfolding push_all push_child
push_all-node no_nodes name text attrs ys = ap (node name text attrs) (sym (append_nodes-nil ys))
push_all-node (child x xs) name text attrs ys =
    push_all-node xs name text attrs (add_last x ys)
    ∙ ap (node name text attrs) (append-add_last ys x xs)

-- The children that were pushed onto a fresh node are its children.
push_all-fresh :
    (xs : Nodes) (name text : String) (attrs : List (String × String))
    → push_all xs (node name text attrs no_nodes) ≡ node name text attrs xs
unfolding append_nodes
push_all-fresh xs name text attrs = push_all-node xs name text attrs no_nodes

-- Where a complete node goes does not depend on the stack that the reader had.
complete_node-at :
    (x : Node) (stack other : List Node) (root : Option Node) (n : ℕ)
    → complete_node x stack (at other root n) ≡ complete_node x stack (at stack root n)
unfolding complete_node
complete_node-at x [] other root n = refl
complete_node-at x (top ∷ stack) other root n = refl

complete_in :
    (x top : Node) (stack : List Node) (root : Option Node) (n : ℕ)
    → complete_node x (top ∷ stack) (at (top ∷ stack) root n) ≡ at (push_child x top ∷ stack) root n
unfolding complete_node
complete_in x top stack root n = refl

module _ (entity : String → Option String) where
  mutual
    unfolding write write_all size size_all height height_all IsLocal AllLocal push_all

    read-write :
        (x : Node) (rest : List Event) (stack : List Node) (root : Option Node) (n : ℕ)
        → IsLocal x
        → length stack + height x ≤ 32
        → n + size x ≤ 100_000
        → read_events entity (write x rest) (at stack root n)
          ≡ read_events entity rest (complete_node x stack (at stack root (n + size x)))
    read-write (node name text attrs children) rest stack root n h d m =
        read_start entity name attrs _ stack root n h.0 h.1 (omega arith) (omega arith)
        ∙ read_text entity name text attrs _ stack root (n + 1)
        ∙ read-write_all children (finish ∷ rest) (node name text attrs no_nodes) stack root (n + 1)
            h.2 (omega arith) (omega arith)
        ∙ read_finish entity (push_all children (node name text attrs no_nodes)) rest stack root
            (n + 1 + size_all children)
        ∙ ap
            (λ x.
              read_events entity rest
                (complete_node x stack (at (x ∷ stack) root (n + 1 + size_all children))))
            (push_all-fresh children name text attrs)
        ∙ ap (read_events entity rest) (
            complete_node-at (node name text attrs children) stack
              (node name text attrs children ∷ stack) root _
            ∙ ap (λ k. complete_node (node name text attrs children) stack (at stack root k))
                (omega arith))

    read-write_all :
        (xs : Nodes) (rest : List Event) (top : Node) (stack : List Node) (root : Option Node)
        (n : ℕ)
        → AllLocal xs
        → suc (length stack) + height_all xs ≤ 32
        → n + size_all xs ≤ 100_000
        → read_events entity (write_all xs rest) (at (top ∷ stack) root n)
          ≡ read_events entity rest (at (push_all xs top ∷ stack) root (n + size_all xs))
    read-write_all no_nodes rest top stack root n h d m =
        ap (λ k. read_events entity rest (at (top ∷ stack) root k)) (omega arith)
    read-write_all (child x xs) rest top stack root n h d m =
        read-write x (write_all xs rest) (top ∷ stack) root n h.0 (omega arith) (omega arith)
        ∙ ap (read_events entity (write_all xs rest)) (complete_in x top stack root (n + size x))
        ∙ read-write_all xs rest (push_child x top) stack root (n + size x) h.1 (omega arith)
            (omega arith)
        ∙ ap (λ k. read_events entity rest (at (push_all xs (push_child x top) ∷ stack) root k))
            (omega arith)

-- Reading the events of a tree gives the tree back, if no name in it has a prefix, it is at most 32
-- elements deep and has at most 100,000 elements.
pub parse_tree-write :
    (entity : String → Option String) (x : Node)
    → IsLocal x
    → height x ≤ 32
    → size x ≤ 100_000
    → parse_tree entity (write x []) ≡ ok x
unfolding parse_tree read_events complete_node
parse_tree-write entity x h d m =
    ap (λ (r : Result InstanceError Reading). r >>= λ s. finish_reading s.stack s.root)
      (read-write entity x [] [] none 0 h (omega (arith, d)) (omega (arith, m)))
