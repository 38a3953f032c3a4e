-- ===== src/Rosa/Tree/Bounds.antt =====
-- How large a tree `parse_tree` of crates/collecta-server/src/openrosa/instance.rs accepts.
use Prim.Native.Nat.{max}
use collecta.Prelude.{
  ℕ, suc, ◌+◌, ◌≤◌, String, Option, none, some, List, [], ◌∷◌, ◌≡◌, refl, length, Bool-cases, ltb,
  arith, inl, inr,
}
use collecta.Rosa.Result.{Result, ok, ◌>>=◌, >>=-ok, ok_inj}
use collecta.Rosa.Tree.Size.{size, size_all, height, height_all}
use collecta.Rosa.Tree.{
  Node, Nodes, node, no_nodes, child, InstanceError, Event, Tag, Reading, begin, read_attrs,
  node_from, add_last, push_child, push_text, complete_node, push_top, add_text, read_content,
  decoded, resolve, close_top, open_node, count_element, read_event, read_events, parse_tree,
  finish_reading, doc_type, start, self_closed, finish, characters, c_data, general_ref, skipped,
  broken,
}

height-add_last :
    (x : Node) (xs : Nodes) → height_all (add_last x xs) ≡ max (height_all xs) (height x)
unfolding add_last height_all
height-add_last x no_nodes = omega arith
height-add_last x (child y xs) = omega (arith, height-add_last x xs)

size-add_last : (x : Node) (xs : Nodes) → size_all (add_last x xs) ≡ size_all xs + size x
unfolding add_last size_all
size-add_last x no_nodes = omega arith
size-add_last x (child y xs) = omega (arith, size-add_last x xs)

height-push_child : (x p : Node) → height (push_child x p) ≡ max (height p) (suc (height x))
unfolding push_child height
height-push_child x (node name text attrs children) = omega (arith, height-add_last x children)

size-push_child : (x p : Node) → size (push_child x p) ≡ size p + size x
unfolding push_child size
size-push_child x (node name text attrs children) = omega (arith, size-add_last x children)

height-push_text : (s : String) (p : Node) → height (push_text s p) ≡ height p
unfolding push_text height
height-push_text s (node name text attrs children) = refl

size-push_text : (s : String) (p : Node) → size (push_text s p) ≡ size p
unfolding push_text size
size-push_text s (node name text attrs children) = refl

-- An open element at depth d, the bottom being at depth 1, has at most 33 - d levels below it.
abbrev StackOk : List Node → Type 0
StackOk [] = Unit {0}
StackOk (x ∷ rest) = (suc (length rest) ≤ 32) × (suc (length rest) + height x ≤ 34) × StackOk rest

abbrev stack_size : List Node → ℕ
stack_size [] = 0
stack_size (x ∷ rest) = size x + stack_size rest

abbrev root_size : Option Node → ℕ
root_size none = 0
root_size (some x) = size x

abbrev RootOk : Option Node → Type 0
RootOk none = Unit {0}
RootOk (some x) = height x ≤ 33

-- The element count is at least what the stack and the root hold.
record IsBounded (r : Reading) : Type 0 where
  stack_ok : StackOk r.stack
  root_ok : RootOk r.root
  counted : stack_size r.stack + root_size r.root ≤ r.elements
  few : r.elements ≤ 100_000

complete_node-IsBounded :
    (x : Node) (rest : List Node) (r : Reading)
    → StackOk rest
    → length rest + height x ≤ 33
    → RootOk r.root
    → size x + stack_size rest + root_size r.root ≤ r.elements
    → r.elements ≤ 100_000
    → IsBounded (complete_node x rest r)
unfolding complete_node
complete_node-IsBounded x [] r s h o c f = record {
  stack_ok = tt;
  root_ok = omega (arith, h);
  counted = omega (arith, c);
  few = f;
}
complete_node-IsBounded x (p ∷ rest) r s h o c f = record {
  stack_ok = (s.0, omega (arith, s.1, h, height-push_child x p), s.2);
  root_ok = o;
  counted = omega (arith, c, size-push_child x p);
  few = f;
}

add_text-IsBounded : (s : String) (r : Reading) → IsBounded r → IsBounded (add_text s r)
add_text-IsBounded s r v = record {
  stack_ok = go r.stack v.stack_ok;
  root_ok = v.root_ok;
  counted = omega (arith, v.counted, same r.stack);
  few = v.few;
}
  where
    go : (st : List Node) → StackOk st → StackOk (push_top s st)
    go [] h = tt
    go (x ∷ rest) h = (h.0, omega (arith, h.1, height-push_text s x), h.2)

    same : (st : List Node) → stack_size (push_top s st) ≡ stack_size st
    same [] = refl
    same (x ∷ rest) = omega (arith, size-push_text s x)

node_from-leaf : (tag : Tag) (x : Node) → node_from tag ≡ ok x → (height x ≡ 1) × (size x ≡ 1)
unfolding node_from height size height_all size_all
node_from-leaf tag x h =
    let parts = >>=-ok (read_attrs tag.raw_attrs) _ x h in
    let leaf = ok_inj parts.2 in (rw (← leaf) refl, rw (← leaf) refl)

count_element-ok :
    (r r' : Reading)
    → count_element r ≡ ok r'
    → (r'.stack ≡ r.stack)
      × (r'.root ≡ r.root)
      × (r'.elements ≡ r.elements + 1)
      × (r'.elements ≤ 100_000)
count_element-ok r r' h = elim (Bool-cases (ltb 100_000 (r.elements + 1))) [
  | inl e ↦ cc (rw e at h)
  | inr e ↦
      let same : ok (record r { elements = r.elements + 1 }) ≡ ok r' = rw e at h in
      let q = ok_inj same in
      (rw (← q) refl, rw (← q) refl, rw (← q) refl, rw (← q) (ground (arith, e)))
]

open_node-IsBounded :
    (x : Node) (r r' : Reading)
    → open_node x r ≡ ok r'
    → height x ≡ 1
    → StackOk r.stack
    → RootOk r.root
    → size x + stack_size r.stack + root_size r.root ≤ r.elements
    → r.elements ≤ 100_000
    → IsBounded r'
open_node-IsBounded x r r' h leaf s o c f = elim (Bool-cases (ltb 32 (suc (length r.stack)))) [
  | inl e ↦ cc (rw e at h)
  | inr e ↦
      let same : ok (record r { stack = x ∷ r.stack }) ≡ ok r' = rw e at h in
      let shallow : suc (length r.stack) ≤ 32 = ground (arith, e) in
      rw (← ok_inj same) (record {
        stack_ok = (shallow, omega (arith, shallow, leaf), s);
        root_ok = o;
        counted = c;
        few = f;
      })
]

close_top-IsBounded :
    (r r' : Reading) (st : List Node)
    → close_top st r ≡ ok r'
    → StackOk st
    → RootOk r.root
    → stack_size st + root_size r.root ≤ r.elements
    → r.elements ≤ 100_000
    → IsBounded r'
close_top-IsBounded r r' [] h s o c f = cc
close_top-IsBounded r r' (x ∷ rest) h s o c f =
    rw (← ok_inj h) (complete_node-IsBounded x rest r s.2 (omega (arith, s.1)) o c f)

text-IsBounded :
    (m : Result InstanceError String) (r r' : Reading)
    → (m >>= λ s. ok (add_text s r)) ≡ ok r'
    → IsBounded r
    → IsBounded r'
text-IsBounded m r r' h v =
    let parts = >>=-ok m (λ s. ok (add_text s r)) r' h in
    rw (← ok_inj parts.2) (add_text-IsBounded parts.0 r v)

read_content-IsBounded :
    (st : List Node) (t : Result String String) (r r' : Reading)
    → read_content st t r ≡ ok r'
    → IsBounded r
    → IsBounded r'
read_content-IsBounded [] t r r' h v = rw (← ok_inj h) v
read_content-IsBounded (x ∷ rest) t r r' h v = text-IsBounded (decoded t) r r' h v

root-ok : (a b : Option Node) → a ≡ b → RootOk b → RootOk a
root-ok a b e h = rw e h

read_event-IsBounded :
    (entity : String → Option String) (e : Event) (r r' : Reading)
    → read_event entity e r ≡ ok r'
    → IsBounded r
    → IsBounded r'
unfolding read_event
read_event-IsBounded entity doc_type r r' h v = cc
read_event-IsBounded entity (start tag) r r' h v =
    let counting = >>=-ok (count_element r) _ r' h in
    let making = >>=-ok (node_from tag) _ r' counting.2 in
    let counts = count_element-ok r counting.0 counting.1 in
    let leaf = node_from-leaf tag making.0 making.1 in
    open_node-IsBounded making.0 counting.0 r' making.2 leaf.0 (rw (counts.0) v.stack_ok)
      (rw (counts.1) v.root_ok)
      (rw (counts.0, counts.1) (omega (arith, counts.2, leaf.1, v.counted))) counts.3
read_event-IsBounded entity (self_closed tag) r r' h v =
    let counting = >>=-ok (count_element r) _ r' h in
    let making = >>=-ok (node_from tag) _ r' counting.2 in
    let counts = count_element-ok r counting.0 counting.1 in
    let leaf = node_from-leaf tag making.0 making.1 in
    rw (← ok_inj making.2) (
      complete_node-IsBounded making.0 counting.0.stack counting.0 (rw (counts.0) v.stack_ok)
        (rw (counts.0) (shallow r.stack v.stack_ok leaf.0)) (rw (counts.1) v.root_ok)
        (rw (counts.0, counts.1) (omega (arith, counts.2, leaf.1, v.counted))) counts.3)
  where
    shallow : {k : ℕ} (st : List Node) → StackOk st → k ≡ 1 → length st + k ≤ 33
    shallow [] s e = omega (arith, e)
    shallow (x ∷ rest) s e = omega (arith, s.0, e)
read_event-IsBounded entity finish r r' h v =
    close_top-IsBounded r r' r.stack h v.stack_ok v.root_ok v.counted v.few
read_event-IsBounded entity (characters t) r r' h v = read_content-IsBounded r.stack t r r' h v
read_event-IsBounded entity (c_data t) r r' h v = read_content-IsBounded r.stack t r r' h v
read_event-IsBounded entity (general_ref name char_ref) r r' h v =
    let naming = >>=-ok (decoded name) _ r' h in
    text-IsBounded (resolve entity naming.0 char_ref) r r' naming.2 v
read_event-IsBounded entity skipped r r' h v = rw (← ok_inj h) v
read_event-IsBounded entity (broken m) r r' h v = cc

read_events-IsBounded :
    (entity : String → Option String) (events : List Event) (r r' : Reading)
    → read_events entity events r ≡ ok r'
    → IsBounded r
    → IsBounded r'
unfolding read_events
read_events-IsBounded entity [] r r' h v = rw (← ok_inj h) v
read_events-IsBounded entity (e ∷ rest) r r' h v =
    let parts = >>=-ok (read_event entity e r) _ r' h in
    read_events-IsBounded entity rest parts.0 r' parts.2
      (read_event-IsBounded entity e r parts.0 parts.1 v)

-- Whatever the events are, a tree that the parser accepts has at most 100,000 elements and is at most
-- 33 deep: 32 open elements, and a self-closed one in the innermost.
pub parse_tree-bounds :
    (entity : String → Option String) (events : List Event) (x : Node)
    → parse_tree entity events ≡ ok x
    → (size x ≤ 100_000) × (height x ≤ 33)
unfolding parse_tree
parse_tree-bounds entity events x h =
    let parts = >>=-ok (read_events entity events begin) _ x h in
    let v = read_events-IsBounded entity events begin parts.0 parts.1 start_ok in
    finished parts.0.stack parts.0.root parts.2 v.counted v.few v.root_ok
  where
    start_ok : IsBounded begin
    start_ok = record { stack_ok = tt; root_ok = tt; counted = omega arith; few = omega arith }

    finished :
        {n : ℕ} (st : List Node) (root : Option Node)
        → finish_reading st root ≡ ok x
        → stack_size st + root_size root ≤ n
        → n ≤ 100_000
        → RootOk root
        → (size x ≤ 100_000) × (height x ≤ 33)
    finished (y ∷ st) root e c f o = cc
    finished [] none e c f o = cc
    finished [] (some y) e c f o = rw (← ok_inj e) (omega (arith, c, f), o)
