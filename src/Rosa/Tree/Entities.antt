-- ===== src/Rosa/Tree/Entities.antt =====
-- What `parse_tree` of crates/collecta-server/src/openrosa/instance.rs lets through of a document type
-- and of entity references.
use collecta.Prelude.{
  String, true, Option, none, some, List, [], ◌∷◌, ◌≡◌, ◌⊎◌, refl, All, inl, inr, is_some,
}
use collecta.Rosa.Result.{Result, ok, err, >>=-ok}
use collecta.Rosa.Tree.{
  Node, InstanceError, Event, Reading, begin, decoded, resolve, resolve_char, read_event,
  read_events, parse_tree, doc_type, start, self_closed, finish, characters, c_data, general_ref,
  skipped, broken,
}

-- An event that may stand in an accepted instance: no document type, and no reference but to a
-- predefined entity or by a character's number.
abbrev pub IsHarmless : (entity : String → Option String) → Event → Type 0
IsHarmless entity doc_type = ⊥
IsHarmless entity (broken e) = ⊥
IsHarmless entity (general_ref name char_ref) =
    (n : String) × (name ≡ ok n)
    × ((is_some (entity n) ≡ true) ⊎ ((s : String) × (char_ref ≡ ok (some s))))
IsHarmless entity _ = Unit

resolved :
    (o : Option String) (n : String) (char_ref : Result String (Option String)) (s : String)
    → (let r : Result InstanceError String = elim o [
      | some t ↦ ok t
      | none ↦ resolve_char n char_ref
    ] in
        r)
      ≡ ok s
    → (is_some o ≡ true) ⊎ ((t : String) × (char_ref ≡ ok (some t)))
resolved (some t) n char_ref s h = inl refl
resolved none n (err e) s h = cc
resolved none n (ok none) s h = cc
resolved none n (ok (some t)) s h = inr (t, refl)

named : (m : Result String String) (n : String) → decoded m ≡ ok n → m ≡ ok n
named (ok s) n h = cc
named (err e) n h = cc

read_event-IsHarmless :
    (entity : String → Option String) (e : Event) (r r' : Reading)
    → read_event entity e r ≡ ok r'
    → IsHarmless entity e
unfolding read_event
read_event-IsHarmless entity doc_type r r' h = cc
read_event-IsHarmless entity (start tag) r r' h = tt
read_event-IsHarmless entity (self_closed tag) r r' h = tt
read_event-IsHarmless entity finish r r' h = tt
read_event-IsHarmless entity (characters t) r r' h = tt
read_event-IsHarmless entity (c_data t) r r' h = tt
read_event-IsHarmless entity (general_ref name char_ref) r r' h =
    let naming = >>=-ok (decoded name) _ r' h in
    let resolving = >>=-ok (resolve entity naming.0 char_ref) _ r' naming.2 in
    (
      naming.0,
      named name naming.0 naming.1,
      resolved (entity naming.0) naming.0 char_ref resolving.0 resolving.1,
    )
read_event-IsHarmless entity skipped r r' h = tt
read_event-IsHarmless entity (broken m) r r' h = cc

read_events-IsHarmless :
    (entity : String → Option String) (events : List Event) (r r' : Reading)
    → read_events entity events r ≡ ok r'
    → All (IsHarmless entity) events
unfolding read_events
read_events-IsHarmless entity [] r r' h = tt
read_events-IsHarmless entity (e ∷ rest) r r' h =
    let parts = >>=-ok (read_event entity e r) _ r' h in
    (
      read_event-IsHarmless entity e r parts.0 parts.1,
      read_events-IsHarmless entity rest parts.0 r' parts.2,
    )

-- An accepted instance has no document type anywhere, the reader failed nowhere in it, and each of its
-- entity references names a predefined entity or a character by its number.
pub parse_tree-IsHarmless :
    (entity : String → Option String) (events : List Event) (x : Node)
    → parse_tree entity events ≡ ok x
    → All (IsHarmless entity) events
unfolding parse_tree
parse_tree-IsHarmless entity events x h =
    let parts = >>=-ok (read_events entity events begin) _ x h in
    read_events-IsHarmless entity events begin parts.0 parts.1
