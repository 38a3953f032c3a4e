-- ===== src/XlsForm/Survey/Reading.antt =====
-- The stack of `parse_survey` of crates/collecta-xlsform/src/lib.rs reads the nesting that the rows say.
use collecta.Prelude.{ℕ, suc, ◌+◌, String, Option, List, [], ◌∷◌, ◌≡◌, refl, sym, ap, ◌∙◌, arith}
use collecta.Form.{
  FieldInfo, FieldType, FormField, Fields, form_field, present, no_fields, field, push_field,
}
use collecta.Rosa.Result.{Result, ok, err, ◌>>=◌}
use collecta.XlsForm.{XlsformError, Record}
use collecta.XlsForm.Relevant.{Numbers}
use collecta.XlsForm.Survey.{
  ChoiceLists, RowKind, skipped, group_start, group_end, repeat_start, repeat_end, row_kind, Frame,
  FrameKind, root, field_name, build_field, tag, push_to, move_fields, close_group, close_repeat,
  push_top, open_frame, question_field, read_as, read_survey, only_root, parse_survey,
}
use collecta.XlsForm.Survey as Survey
use collecta.XlsForm.Survey.Nested.{
  Item, Items, empty_row, question, group, repeat, no_items, item, rows, all_rows, count, count_all,
  IsTyped, AllTyped, append, tag_all, meaning, all_meaning,
}

append_assoc : (a b c : Fields) → append (append a b) c ≡ append a (append b c)
unfolding append
append_assoc no_fields b c = refl
append_assoc (field f a) b c = ap (field f) (append_assoc a b c)

append_none : (a : Fields) → append a no_fields ≡ a
unfolding append
append_none no_fields = refl
append_none (field f a) = ap (field f) (append_none a)

push_field-append : (f : FormField) (a : Fields) → push_field f a ≡ append a (field f no_fields)
unfolding append push_field
push_field-append f no_fields = refl
push_field-append f (field g a) = ap (field g) (push_field-append f a)

-- A frame with more fields.
abbrev grow : Frame → Fields → Frame
grow frame fs = record frame { fields = append frame.fields fs }

push_to-grow : (f : FormField) (frame : Frame) → push_to f frame ≡ grow frame (field f no_fields)
push_to-grow f frame =
    ap (λ fs. let g : Frame = record frame { fields = fs } in g) (push_field-append f frame.fields)

grow_twice : (frame : Frame) (a b : Fields) → grow (grow frame a) b ≡ grow frame (append a b)
grow_twice frame a b =
    ap (λ fs. let g : Frame = record frame { fields = fs } in g) (append_assoc frame.fields a b)

move_fields-grow :
    (name : String) (fs : Fields) (frame : Frame)
    → move_fields name fs frame ≡ grow frame (tag_all name fs)
unfolding move_fields tag_all append
move_fields-grow name no_fields frame =
    ap (λ fs. let g : Frame = record frame { fields = fs } in g) (sym (append_none frame.fields))
move_fields-grow name (field f fs) frame =
    move_fields-grow name fs (push_to (tag name f) frame)
    ∙ ap (λ g. grow g (tag_all name fs)) (push_to-grow (tag name f) frame)
    ∙ grow_twice frame (field (tag name f) no_fields) (tag_all name fs)

then_assoc :
    {E A B C : Type 0} (m : Result E A) (f : A → Result E B) (g : B → Result E C)
    → ((m >>= f) >>= g) ≡ (m >>= λ a. f a >>= g)
then_assoc (ok a) f g = refl
then_assoc (err e) f g = refl

then_same :
    {E A B : Type 0} (m : Result E A) (f g : A → Result E B)
    → ((a : A) → f a ≡ g a)
    → (m >>= f) ≡ (m >>= g)
then_same (ok a) f g h = h a
then_same (err e) f g h = refl

module _ (numbers : Numbers) (choices : ChoiceLists) where
  abbrev Read : Type 0
  Read = Result XlsformError (List Frame)

  -- What reading on means for the fields of an item.
  abbrev onward : ℕ → List Record → Frame → List Frame → Fields → Read
  onward n rest frame stack fs = read_survey numbers choices n rest (grow frame fs ∷ stack)

  read_survey-cons :
      (n : ℕ) (rec : Record) (rest : List Record) (stack : List Frame) (kind : RowKind)
      → row_kind rec ≡ kind
      → read_survey numbers choices n (rec ∷ rest) stack
        ≡ (read_as numbers choices kind n rec stack >>= read_survey numbers choices (suc n) rest)
  unfolding read_survey
  read_survey-cons n rec rest stack kind h = rw h

  onward-at :
      (n m : ℕ) (rest : List Record) (frame : Frame) (stack : List Frame) (fs : Fields)
      → n ≡ m
      → onward n rest frame stack fs ≡ onward m rest frame stack fs
  onward-at n m rest frame stack fs e = ap (λ k. onward k rest frame stack fs) e

  read_question :
      (n : ℕ) (rec : Record) (base : String) (list : Option String) (rest : List Record)
      (frame : Frame) (stack : List Frame)
      → row_kind rec ≡ Survey.question base list
      → read_survey numbers choices n (rec ∷ rest) (frame ∷ stack)
        ≡ (meaning numbers choices n (question rec base list) >>= onward (suc n) rest frame stack)
  unfolding meaning
  read_question n rec base list rest frame stack h =
      read_survey-cons n rec rest (frame ∷ stack) (Survey.question base list) h
      ∙ then_assoc (question_field numbers choices n rec base list) _ _
      ∙ then_same (question_field numbers choices n rec base list) _ _ (λ f.
        ap (λ g. read_survey numbers choices (suc n) rest (g ∷ stack)) (push_to-grow f frame))
      ∙ sym (then_assoc (question_field numbers choices n rec base list) _ _)

  -- The end of a group and of a repeat.
  read_group_end :
      (n : ℕ) (name : String) (last : Record) (rest : List Record) (fs : Fields) (frame : Frame)
      (stack : List Frame)
      → row_kind last ≡ group_end
      → read_survey numbers choices n
          (last ∷ rest)
          (grow (record { fields = no_fields; kind = FrameKind.group name }) fs ∷ (frame ∷ stack))
        ≡ onward (suc n) rest frame stack (tag_all name fs)
  unfolding append
  read_group_end n name last rest fs frame stack h =
      read_survey-cons n last rest _ group_end h
      ∙ ap (λ g. read_survey numbers choices (suc n) rest (g ∷ stack))
          (move_fields-grow name fs frame)

  read_repeat_end :
      (n : ℕ) (f : FieldInfo) (last : Record) (rest : List Record) (fs : Fields) (frame : Frame)
      (stack : List Frame)
      → row_kind last ≡ repeat_end
      → read_survey numbers choices n
          (last ∷ rest)
          (grow (record { fields = no_fields; kind = FrameKind.repeat f }) fs ∷ (frame ∷ stack))
        ≡ onward (suc n) rest frame stack (field (form_field f (present fs)) no_fields)
  unfolding append
  read_repeat_end n f last rest fs frame stack h =
      read_survey-cons n last rest _ repeat_end h
      ∙ ap (λ g. read_survey numbers choices (suc n) rest (g ∷ stack))
          (push_to-grow (form_field f (present fs)) frame)

  mutual
    unfolding rows count IsTyped meaning append

    read-rows :
        (x : Item) (n : ℕ) (rest : List Record) (frame : Frame) (stack : List Frame)
        → IsTyped x
        → read_survey numbers choices n (rows x rest) (frame ∷ stack)
          ≡ (meaning numbers choices n x >>= onward (n + count x) rest frame stack)
    read-rows (empty_row rec) n rest frame stack h =
        read_survey-cons n rec rest (frame ∷ stack) skipped h
        ∙ ap (λ g. read_survey numbers choices (suc n) rest (g ∷ stack))
            (sym (
              ap (λ fs. let g : Frame = record frame { fields = fs } in g)
                (append_none frame.fields)))
        ∙ onward-at (suc n) (n + 1) rest frame stack no_fields (omega arith)
    read-rows (question rec base list) n rest frame stack h =
        read_question n rec base list rest frame stack h
        ∙ then_same (meaning numbers choices n (question rec base list)) _ _
            (λ fs. onward-at (suc n) (n + 1) rest frame stack fs (omega arith))
    read-rows (group rec items last) n rest frame stack h =
        read_survey-cons n rec (all_rows items (last ∷ rest)) (frame ∷ stack) group_start h.0
        ∙ then_assoc (field_name rec n) _ _
        ∙ then_same (field_name rec n) _ _ (λ name.
          read-all_rows items (suc n) (last ∷ rest)
            (record { fields = no_fields; kind = FrameKind.group name }) (frame ∷ stack) h.2
          ∙ then_same (all_meaning numbers choices (suc n) items) _ _ (λ fs.
            read_group_end (suc n + count_all items) name last rest fs frame stack h.1
            ∙ onward-at _ (n + suc (suc (count_all items))) rest frame stack (tag_all name fs)
                (omega arith))
          ∙ sym (then_assoc (all_meaning numbers choices (suc n) items) _ _))
        ∙ sym (then_assoc (field_name rec n) _ _)
    read-rows (repeat rec list items last) n rest frame stack h =
        read_survey-cons n rec (all_rows items (last ∷ rest)) (frame ∷ stack) (repeat_start list)
          h.0
        ∙ then_assoc (build_field numbers choices rec n FieldType.repeat list) _ _
        ∙ then_same (build_field numbers choices rec n FieldType.repeat list) _ _ (λ f.
          read-all_rows items (suc n) (last ∷ rest)
            (record { fields = no_fields; kind = FrameKind.repeat f }) (frame ∷ stack) h.2
          ∙ then_same (all_meaning numbers choices (suc n) items) _ _ (λ fs.
            read_repeat_end (suc n + count_all items) f last rest fs frame stack h.1
            ∙ onward-at _ (n + suc (suc (count_all items))) rest frame stack
                (field (form_field f (present fs)) no_fields) (omega arith))
          ∙ sym (then_assoc (all_meaning numbers choices (suc n) items) _ _))
        ∙ sym (then_assoc (build_field numbers choices rec n FieldType.repeat list) _ _)

    read-all_rows :
        (xs : Items) (n : ℕ) (rest : List Record) (frame : Frame) (stack : List Frame)
        → AllTyped xs
        → read_survey numbers choices n (all_rows xs rest) (frame ∷ stack)
          ≡ (all_meaning numbers choices n xs >>= onward (n + count_all xs) rest frame stack)
    read-all_rows no_items n rest frame stack h =
        ap (λ g. read_survey numbers choices n rest (g ∷ stack))
          (sym (
            ap (λ fs. let g : Frame = record frame { fields = fs } in g)
              (append_none frame.fields)))
        ∙ onward-at n (n + 0) rest frame stack no_fields (omega arith)
    read-all_rows (item x xs) n rest frame stack h =
        read-rows x n (all_rows xs rest) frame stack h.0
        ∙ then_same (meaning numbers choices n x) _ _ (λ fs.
          read-all_rows xs (n + count x) rest (grow frame fs) stack h.1
          ∙ then_same (all_meaning numbers choices (n + count x) xs) _ _ (λ gs.
            ap (λ g. read_survey numbers choices (n + count x + count_all xs) rest (g ∷ stack))
              (grow_twice frame fs gs)
            ∙ onward-at (n + count x + count_all xs) (n + (count x + count_all xs)) rest frame stack
                (append fs gs) (omega arith))
          ∙ sym (then_assoc (all_meaning numbers choices (n + count x) xs) _ _))
        ∙ sym (then_assoc (meaning numbers choices n x) _ _)

  -- A survey whose rows are the questions, groups and repeats of some nesting is read as that nesting:
  -- to the same fields, and to the same first error where a row does not read.
  pub parse_survey-all_rows :
      (xs : Items)
      → AllTyped xs
      → parse_survey numbers choices (all_rows xs []) ≡ all_meaning numbers choices 2 xs
  unfolding parse_survey read_survey append
  parse_survey-all_rows xs h =
      ap (λ (r : Read). r >>= only_root numbers choices)
        (read-all_rows xs 2 [] (record { fields = no_fields; kind = root }) [] h)
      ∙ then_assoc (all_meaning numbers choices 2 xs) _ _
      ∙ then_ok (all_meaning numbers choices 2 xs)
    where
      then_ok : (m : Result XlsformError Fields) → (m >>= λ fs. ok fs) ≡ m
      then_ok (ok fs) = refl
      then_ok (err e) = refl
