-- ===== src/XlsForm/Survey/Nesting.antt =====
-- The surveys that `parse_survey` of crates/collecta-xlsform/src/lib.rs accepts, and the nestings.
use collecta.Prelude.{ℕ, suc, String, Option, List, [], ◌∷◌, ◌≡◌, ◌↔◌, refl, sym, ap, ◌∙◌}
use collecta.Form.{form_field, present, Fields, FieldInfo, FieldType}
use collecta.Rosa.Result.{Result, ok, err, >>=-ok, ok_inj}
use collecta.XlsForm.{XlsformError, Record, unbalanced_group}
use collecta.XlsForm.Relevant.{Numbers}
use collecta.XlsForm.Survey as Survey
use collecta.XlsForm.Survey.{
  ChoiceLists, RowKind, skipped, group_start, group_end, repeat_start, repeat_end, row_kind, Frame,
  FrameKind, root, field_name, build_field, push_to, move_fields, tag, close_group, close_repeat,
  push_top, open_frame, question_field, read_as, read_survey, only_root, parse_survey,
}
use collecta.XlsForm.Survey.Nested.{
  Item, Items, empty_row, question, group, repeat, no_items, item, rows, all_rows, IsTyped,
  AllTyped, all_meaning,
}
use collecta.XlsForm.Survey.Reading.{parse_survey-all_rows}

unfoldable add_last : Item → Items → Items
add_last x no_items = item x no_items
add_last x (item y ys) = item y (add_last x ys)

all_rows-add_last :
    (x : Item) (xs : Items) (rest : List Record)
    → all_rows (add_last x xs) rest ≡ all_rows xs (rows x rest)
unfolding add_last all_rows
all_rows-add_last x no_items rest = refl
all_rows-add_last x (item y ys) rest = ap (rows y) (all_rows-add_last x ys rest)

AllTyped-add_last : (x : Item) (xs : Items) → AllTyped xs → IsTyped x → AllTyped (add_last x xs)
unfolding add_last AllTyped
AllTyped-add_last x no_items h k = (k, tt)
AllTyped-add_last x (item y ys) h k = (h.0, AllTyped-add_last x ys h.1 k)

-- What is open, the innermost first: the row that opened it and the items in it so far.
data Open : Type 0 where
  top : Items → Open
  in_group : Record → Items → Open → Open
  in_repeat : Record → Option String → Items → Open → Open

-- The rows so far, in front of others.
unfoldable so_far : Open → List Record → List Record
so_far (top xs) rest = all_rows xs rest
so_far (in_group rec xs o) rest = so_far o (rec ∷ all_rows xs rest)
so_far (in_repeat rec list xs o) rest = so_far o (rec ∷ all_rows xs rest)

unfoldable add : Item → Open → Open
add x (top xs) = top (add_last x xs)
add x (in_group rec xs o) = in_group rec (add_last x xs) o
add x (in_repeat rec list xs o) = in_repeat rec list (add_last x xs) o

so_far-add :
    (x : Item) (o : Open) (rest : List Record) → so_far (add x o) rest ≡ so_far o (rows x rest)
unfolding so_far add
so_far-add x (top xs) rest = all_rows-add_last x xs rest
so_far-add x (in_group rec xs o) rest = ap (λ r. so_far o (rec ∷ r)) (all_rows-add_last x xs rest)
so_far-add x (in_repeat rec list xs o) rest =
    ap (λ r. so_far o (rec ∷ r)) (all_rows-add_last x xs rest)

-- The stack has a frame of the right kind for each, and the rows have the right types.
unfoldable Matches : Open → List Frame → Type 0
Matches (top xs) (frame ∷ []) = (frame.kind ≡ root) × AllTyped xs
Matches (in_group rec xs o) (frame ∷ stack) =
    ((name : String) × (frame.kind ≡ FrameKind.group name))
    × (row_kind rec ≡ group_start)
    × AllTyped xs
    × Matches o stack
Matches (in_repeat rec list xs o) (frame ∷ stack) =
    ((f : FieldInfo) × (frame.kind ≡ FrameKind.repeat f))
    × (row_kind rec ≡ repeat_start list)
    × AllTyped xs
    × Matches o stack
Matches _ _ = ⊥

-- An item in the innermost frame, which keeps its kind.
Matches-add :
    (x : Item) (o : Open) (frame later : Frame) (stack : List Frame)
    → later.kind ≡ frame.kind
    → Matches o (frame ∷ stack)
    → IsTyped x
    → Matches (add x o) (later ∷ stack)
unfolding Matches add
Matches-add x (top xs) frame later [] same m h = (same ∙ m.0, AllTyped-add_last x xs m.1 h)
Matches-add x (top xs) frame later (g ∷ stack) same m h = absurd m
Matches-add x (in_group rec xs o) frame later stack same m h =
    ((m.0.0, same ∙ m.0.1), m.1, AllTyped-add_last x xs m.2 h, m.3)
Matches-add x (in_repeat rec list xs o) frame later stack same m h =
    ((m.0.0, same ∙ m.0.1), m.1, AllTyped-add_last x xs m.2 h, m.3)

kind-move_fields :
    (name : String) (fs : Fields) (parent : Frame) → (move_fields name fs parent).kind ≡ parent.kind
unfolding move_fields
kind-move_fields name Fields.no_fields parent = refl
kind-move_fields name (Fields.field f fs) parent =
    kind-move_fields name fs (push_to (tag name f) parent)

no_frames : (o : Open) → ¬ Matches o []
unfolding Matches
no_frames (top xs) m = m
no_frames (in_group rec xs o) m = m
no_frames (in_repeat rec list xs o) m = m

-- What a row leads to: the new state of what is open, with the rows accounted for.
abbrev Led : Record → Open → List Frame → Type 0
Led rec o next =
    (p : Open) × Matches p next × ((rest : List Record) → so_far p rest ≡ so_far o (rec ∷ rest))

added :
    (x : Item) (rec : Record) (o : Open) (frame later : Frame) (stack : List Frame)
    → later.kind ≡ frame.kind
    → Matches o (frame ∷ stack)
    → IsTyped x
    → ((rest : List Record) → rows x rest ≡ rec ∷ rest)
    → Led rec o (later ∷ stack)
added x rec o frame later stack same m h one = (
  add x o,
  Matches-add x o frame later stack same m h,
  λ rest. so_far-add x o rest ∙ ap (so_far o) (one rest),
)

closed_group :
    (rec : Record) (o : Open) (stack next : List Frame)
    → close_group stack ≡ ok next
    → row_kind rec ≡ group_end
    → Matches o stack
    → Led rec o next
unfolding Matches so_far IsTyped rows
closed_group rec o [] next e h m = cc
closed_group rec o (frame ∷ []) next e h m = cc
closed_group rec (top xs) (frame ∷ (parent ∷ rest)) next e h m = absurd m
closed_group rec (in_repeat r list xs o) (frame ∷ (parent ∷ rest)) next e h m =
    let refused : (let q : Result XlsformError (List Frame) = err unbalanced_group in q) ≡ ok next =
      rw (m.0.1) at e in
    cc
closed_group rec (in_group r xs o) (frame ∷ (parent ∷ rest)) next e h m =
    let moved : (let q : Result XlsformError (List Frame) =
            ok (move_fields m.0.0 frame.fields parent ∷ rest) in
          q)
        ≡ ok next =
      rw (m.0.1) at e in
    rw (← ok_inj moved) (
      add (group r xs rec) o,
      Matches-add (group r xs rec) o parent (move_fields m.0.0 frame.fields parent) rest
          (kind-move_fields m.0.0 frame.fields parent) m.3 (m.1, h, m.2),
      λ more. so_far-add (group r xs rec) o more,
    )

closed_repeat :
    (rec : Record) (o : Open) (stack next : List Frame)
    → close_repeat stack ≡ ok next
    → row_kind rec ≡ repeat_end
    → Matches o stack
    → Led rec o next
unfolding Matches so_far IsTyped rows
closed_repeat rec o [] next e h m = cc
closed_repeat rec o (frame ∷ []) next e h m = cc
closed_repeat rec (top xs) (frame ∷ (parent ∷ rest)) next e h m = absurd m
closed_repeat rec (in_group r xs o) (frame ∷ (parent ∷ rest)) next e h m =
    let refused : (let q : Result XlsformError (List Frame) = err unbalanced_group in q) ≡ ok next =
      rw (m.0.1) at e in
    cc
closed_repeat rec (in_repeat r list xs o) (frame ∷ (parent ∷ rest)) next e h m =
    let whole = form_field m.0.0 (present frame.fields) in
    let moved : (let q : Result XlsformError (List Frame) = ok (push_to whole parent ∷ rest) in q)
        ≡ ok next =
      rw (m.0.1) at e in
    rw (← ok_inj moved) (
      add (repeat r list xs rec) o,
      Matches-add (repeat r list xs rec) o parent (push_to whole parent) rest refl m.3
          (m.1, h, m.2),
      λ more. so_far-add (repeat r list xs rec) o more,
    )

module _ (numbers : Numbers) (choices : ChoiceLists) where
  led :
      (kind : RowKind) (n : ℕ) (rec : Record) (o : Open) (stack next : List Frame)
      → read_as numbers choices kind n rec stack ≡ ok next
      → row_kind rec ≡ kind
      → Matches o stack
      → Led rec o next
  led kind n rec o [] next e h m = absurd (no_frames o m)
  led skipped n rec o (frame ∷ stack) next e h m = rw (← ok_inj e) (
      added (empty_row rec) rec o frame frame stack refl m (unfold IsTyped in h)
        (λ rest. unfold rows in refl))
  led group_start n rec o (frame ∷ stack) next e h m =
      let (name, _, done) = >>=-ok (field_name rec n) _ next e in
      rw (← ok_inj done) (
        unfold Matches so_far AllTyped all_rows in
        (in_group rec no_items o, ((name, refl), h, tt, m), λ rest. refl))
  led group_end n rec o (frame ∷ stack) next e h m = closed_group rec o (frame ∷ stack) next e h m
  led (repeat_start list) n rec o (frame ∷ stack) next e h m =
      let (f, _, done) =
        >>=-ok (build_field numbers choices rec n FieldType.repeat list) _ next e in
      rw (← ok_inj done) (
        unfold Matches so_far AllTyped all_rows in
        (in_repeat rec list no_items o, ((f, refl), h, tt, m), λ rest. refl))
  led repeat_end n rec o (frame ∷ stack) next e h m = closed_repeat rec o (frame ∷ stack) next e h m
  led (Survey.question base list) n rec o (frame ∷ stack) next e h m =
      let (f, _, done) = >>=-ok (question_field numbers choices n rec base list) _ next e in
      rw (← ok_inj done) (
        added (question rec base list) rec o frame (push_to f frame) stack refl m
          (unfold IsTyped in h) (λ rest. unfold rows in refl))

  read_survey-Matches :
      (records : List Record) (n : ℕ) (o : Open) (stack last : List Frame)
      → read_survey numbers choices n records stack ≡ ok last
      → Matches o stack
      → (p : Open) × Matches p last × (so_far p [] ≡ so_far o records)
  unfolding read_survey
  read_survey-Matches [] n o stack last e m = (o, rw (← ok_inj e) m, refl)
  read_survey-Matches (rec ∷ rest) n o stack last e m =
      let (next, one, more) =
        >>=-ok (read_as numbers choices (row_kind rec) n rec stack) _ last e in
      let (p, matched, same) = led (row_kind rec) n rec o stack next one refl m in
      let (q, done, whole) = read_survey-Matches rest (suc n) p next last more matched in
      (q, done, whole ∙ same rest)

  whole_survey :
      (p : Open) (last : List Frame) (fs : Fields)
      → Matches p last
      → only_root numbers choices last ≡ ok fs
      → (xs : Items) × AllTyped xs × (so_far p [] ≡ all_rows xs [])
  unfolding Matches so_far
  whole_survey p [] fs m h = absurd (no_frames p m)
  whole_survey p (f ∷ (g ∷ rest)) fs m h = cc
  whole_survey (top xs) (f ∷ []) fs m h = (xs, m.1, refl)
  whole_survey (in_group rec xs o) (f ∷ []) fs m h = absurd (no_frames o m.3)
  whole_survey (in_repeat rec list xs o) (f ∷ []) fs m h = absurd (no_frames o m.3)

  -- The rows of a survey that is accepted are those of a nesting, in which every group and repeat is
  -- closed by a row of its own kind.
  pub accepted_nesting :
      (records : List Record) (fs : Fields)
      → parse_survey numbers choices records ≡ ok fs
      → (xs : Items) × AllTyped xs × (records ≡ all_rows xs [])
  unfolding parse_survey Matches so_far AllTyped all_rows
  accepted_nesting records fs h =
      let (last, read, done) =
        >>=-ok (read_survey numbers choices 2 records (open_frame root [])) _ fs h in
      let (p, matched, same) =
        read_survey-Matches records 2 (top no_items) (open_frame root []) last read (refl, tt) in
      let (xs, typed, whole) = whole_survey p last fs matched done in (xs, typed, sym same ∙ whole)

  -- The rows of a survey are accepted, with some fields, exactly if they are those of a nesting of
  -- questions, groups and repeats that reads as these fields: a group's fields, tagged with its name,
  -- in the group's place, and a repeat's inside the repeat.
  pub parse_survey_iff :
      (records : List Record) (fs : Fields)
      → (parse_survey numbers choices records ≡ ok fs) ↔ (
          (xs : Items) × AllTyped xs
          × (records ≡ all_rows xs [])
          × (all_meaning numbers choices 2 xs ≡ ok fs))
  parse_survey_iff records fs = (
    λ h.
        let (xs, typed, same) = accepted_nesting records fs h in
        (
          xs,
          typed,
          same,
          sym (parse_survey-all_rows numbers choices xs typed)
              ∙ ap (parse_survey numbers choices) (sym same)
              ∙ h,
        ),
    λ n.
        ap (parse_survey numbers choices) n.2 ∙ parse_survey-all_rows numbers choices n.0 n.1 ∙ n.3,
  )
