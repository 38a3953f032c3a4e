-- ===== src/XlsForm/Survey/Nested.antt =====
-- The survey as what its rows say: questions, and groups and repeats around rows, against the stack of
-- `parse_survey` of crates/collecta-xlsform/src/lib.rs.
use collecta.Prelude.{ℕ, suc, ◌+◌, String, Option, List, ◌∷◌, ◌≡◌}
use collecta.Form.{FieldType, Fields, form_field, present, no_fields, field}
use collecta.Rosa.Result.{Result, ok, ◌>>=◌}
use collecta.XlsForm.{XlsformError, Record}
use collecta.XlsForm.Relevant.{Numbers}
use collecta.XlsForm.Survey.{
  ChoiceLists, RowKind, skipped, group_start, group_end, repeat_start, repeat_end, row_kind, Frame,
  FrameKind, root, field_name, build_field, tag, push_to, move_fields, close_group, close_repeat,
  push_top, open_frame, question_field, read_as, read_survey, only_root, parse_survey,
}
use collecta.XlsForm.Survey as Survey

mutual
  pub data Item : Type 0 where
    empty_row : Record → Item
    question : Record → (base : String) → Option String → Item
    group : Record → Items → (last : Record) → Item
    repeat : Record → Option String → Items → (last : Record) → Item

  pub data Items : Type 0 where
    no_items : Items
    item : Item → Items → Items

unfoldable mutual
  -- The rows, in front of others.
  pub rows : Item → List Record → List Record
  rows (empty_row rec) rest = rec ∷ rest
  rows (question rec base list) rest = rec ∷ rest
  rows (group rec items last) rest = rec ∷ all_rows items (last ∷ rest)
  rows (repeat rec list items last) rest = rec ∷ all_rows items (last ∷ rest)

  pub all_rows : Items → List Record → List Record
  all_rows no_items rest = rest
  all_rows (item x xs) rest = rows x (all_rows xs rest)

unfoldable mutual
  pub count : Item → ℕ
  count (empty_row rec) = 1
  count (question rec base list) = 1
  count (group rec items last) = suc (suc (count_all items))
  count (repeat rec list items last) = suc (suc (count_all items))

  pub count_all : Items → ℕ
  count_all no_items = 0
  count_all (item x xs) = count x + count_all xs

unfoldable mutual
  -- The type of each row is what its place asks for.
  pub IsTyped : Item → Type 0
  IsTyped (empty_row rec) = row_kind rec ≡ skipped
  IsTyped (question rec base list) = row_kind rec ≡ Survey.question base list
  IsTyped (group rec items last) =
      (row_kind rec ≡ group_start) × (row_kind last ≡ group_end) × AllTyped items
  IsTyped (repeat rec list items last) =
      (row_kind rec ≡ repeat_start list) × (row_kind last ≡ repeat_end) × AllTyped items

  pub AllTyped : Items → Type 0
  AllTyped no_items = Unit
  AllTyped (item x xs) = IsTyped x × AllTyped xs

unfoldable pub append : Fields → Fields → Fields
append no_fields gs = gs
append (field f fs) gs = field f (append fs gs)

unfoldable pub tag_all : String → Fields → Fields
tag_all name no_fields = no_fields
tag_all name (field f fs) = field (tag name f) (tag_all name fs)

module _ (numbers : Numbers) (choices : ChoiceLists) where
  unfoldable mutual
    unfolding append tag_all count

    -- The fields of an item whose first row has the number `n`: a group's fields, tagged with its
    -- name, stand in its place, and a repeat holds its own.
    pub meaning : ℕ → Item → Result XlsformError Fields
    meaning n (empty_row rec) = ok no_fields
    meaning n (question rec base list) =
        question_field numbers choices n rec base list >>= λ f. ok (field f no_fields)
    meaning n (group rec items last) =
        field_name rec n >>= λ name. all_meaning (suc n) items >>= λ fs. ok (tag_all name fs)
    meaning n (repeat rec list items last) =
        build_field numbers choices rec n FieldType.repeat list >>= λ f.
        all_meaning (suc n) items >>= λ fs. ok (field (form_field f (present fs)) no_fields)

    pub all_meaning : ℕ → Items → Result XlsformError Fields
    all_meaning n no_items = ok no_fields
    all_meaning n (item x xs) =
        meaning n x >>= λ fs. all_meaning (n + count x) xs >>= λ gs. ok (append fs gs)
