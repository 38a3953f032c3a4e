-- ===== src/Rosa/Mapping/Filled.antt =====
-- The types of what `to_submission` of crates/collecta-server/src/openrosa/instance.rs stores.
use collecta.Prelude.{
  String, true, Option, none, some, List, [], ◌≡◌, ◌⊎◌, refl, sym, ◌∙◌, str_eq, eq_iff, Bool-cases,
  some_inj, inl, inr,
}
use collecta.F64.{FloatText}
use collecta.Values.{
  Uuid, Instant, FieldValue, Values, Rows, empty, get, insert, no_rows, row, repeat,
}
use collecta.Values.Laws.{get-insert}
use collecta.Form.{
  Form, FormField, FieldInfo, FieldType, Children, Fields, form_field, info, children, flatten,
  no_fields, field,
}
use collecta.Rosa.Result.{Result, ok, err}
use collecta.Rosa.Tree.{Node, Nodes, no_nodes, child, name_of, text_of, children_of, child_of}
use collecta.Rosa.Instance.{Instance}
use collecta.Rosa.Mapping.{
  coerce, keep_answer, answer_of, read_answer, row_answers, repeat_row, repeat_rows, keep_rows,
  is_repeat_type, read_field, read_fields, to_submission,
}
use collecta.Rosa.Mapping.Fits.{Fits, coerce-Fits}

-- A field of the list.
abbrev pub InFields : FormField → Fields → Type 0
InFields f no_fields = ⊥
InFields f (field g rest) = (f ≡ g) ⊎ InFields f rest

-- Each answer is that of some field with its name, and fits the field's type.
abbrev pub RowFits : Fields → Values → Type 0
RowFits fields values =
    (name : String) (v : FieldValue)
    → get name values ≡ some v
    → (f : FormField) × InFields f fields × ((info f).name ≡ name) × Fits (info f).field_type v

abbrev pub RowsFit : Fields → Rows → Type 0
RowsFit fs no_rows = Unit
RowsFit fs (row r rest) = RowFits fs r × RowsFit fs rest

-- What a field may hold: rows of its children's answers in a repeat.
abbrev pub FieldFits : FormField → FieldValue → Type 0
FieldFits f v =
    Fits (info f).field_type v
    ⊎ (((info f).field_type ≡ FieldType.repeat)
        × ((rows : Rows) × (v ≡ repeat rows) × RowsFit (flatten (children f)) rows))

abbrev pub AllFit : Fields → Values → Type 0
AllFit fields values =
    (name : String) (v : FieldValue)
    → get name values ≡ some v
    → (f : FormField) × InFields f fields × ((info f).name ≡ name) × FieldFits f v

-- The answers of an earlier field stay, or the new one takes their place.
insert-fits :
    (P : String → FieldValue → Type 0) (key : String) (value : FieldValue) (values : Values)
    → ((name : String) (v : FieldValue) → get name values ≡ some v → P name v)
    → P key value
    → (name : String) (v : FieldValue) → get name (insert key value values) ≡ some v
    → P name v
insert-fits P key value values old new name v h =
    let law = get-insert name key value values in
    elim (Bool-cases (str_eq key name)) [
      | inl e ↦
          let found : get name (insert key value values) ≡ some value = rw e at law in
          let same : some value ≡ some v = sym found ∙ h in
          rw (← (eq_iff key name).0 e, ← some_inj same) new
      | inr e ↦
          let found : get name (insert key value values) ≡ get name values = rw e at law in
          old name v (sym found ∙ h)
    ]

module _ (P : String → FieldValue → Type 0) where
  -- Each stored answer has the property.
  abbrev AllHave : Values → Type 0
  AllHave values = (name : String) (v : FieldValue) → get name values ≡ some v → P name v

  keep_answer-fits :
      (name : String) (r : Result String FieldValue) (so_far : Values × List String)
      → AllHave so_far.0
      → ((v : FieldValue) → r ≡ ok v → P name v)
      → AllHave (keep_answer name r so_far).0
  keep_answer-fits name (ok value) (values, errors) old new =
      insert-fits P name value values old (new value refl)
  keep_answer-fits name (err e) (values, errors) old new = old

  answer_of-Fits :
      (floats : FloatText) (o : Option Node) (f : FieldInfo) (so_far : Values × List String)
      → AllHave so_far.0
      → ((v : FieldValue) → Fits f.field_type v → P f.name v)
      → AllHave (answer_of floats o f so_far).0
  answer_of-Fits floats none f so_far old new = old
  answer_of-Fits floats (some x) f so_far old new =
      keep_answer-fits f.name (coerce floats (text_of x) f) so_far old
        (λ v q. new v (coerce-Fits floats (text_of x) f v q))

  read_answer-Fits :
      (floats : FloatText) (n : Node) (f : FieldInfo) (so_far : Values × List String)
      → AllHave so_far.0
      → ((v : FieldValue) → Fits f.field_type v → P f.name v)
      → AllHave (read_answer floats n f so_far).0
  unfolding read_answer
  read_answer-Fits floats n f so_far old new =
      answer_of-Fits floats (child_of f.name n) f so_far old new

repeat_type : (t : FieldType) → is_repeat_type t ≡ true → t ≡ FieldType.repeat
repeat_type FieldType.repeat h = refl
repeat_type _ h = cc

module _ (floats : FloatText) where
  row_answers-RowFits :
      (n : Node) (whole fs : Fields) (so_far : Values × List String)
      → ((f : FormField) → InFields f fs → InFields f whole)
      → RowFits whole so_far.0
      → RowFits whole (row_answers floats n fs so_far).0
  unfolding row_answers
  row_answers-RowFits n whole no_fields so_far sub old = old
  row_answers-RowFits n whole (field f rest) so_far sub old =
      row_answers-RowFits n whole rest (read_answer floats n (info f) so_far) (λ g i. sub g (inr i))
        (read_answer-Fits
          (λ name v.
            (g : FormField) × InFields g whole
            × ((info g).name ≡ name)
            × Fits (info g).field_type v)
          floats n (info f) so_far old (λ v q. (f, sub f (inl refl), refl, q)))

  repeat_row-RowFits :
      (n : Node) (c : Children) (errors : List String)
      → RowFits (flatten c) (repeat_row floats n c errors).0
  unfolding repeat_row get
  repeat_row-RowFits n c errors =
      row_answers-RowFits n (flatten c) (flatten c) (empty, errors) (λ f i. i) (λ name v h. cc)

  repeat_rows-RowsFit :
      (name : String) (c : Children) (ns : Nodes) (errors : List String)
      → RowsFit (flatten c) (repeat_rows floats name c ns errors).0
  unfolding repeat_rows
  repeat_rows-RowsFit name c no_nodes errors = tt
  repeat_rows-RowsFit name c (child n rest) errors = elim (Bool-cases (str_eq (name_of n) name)) [
    | inl e ↦ rw e (
      repeat_row-RowFits n c errors,
      repeat_rows-RowsFit name c rest (repeat_row floats n c errors).1,
    )
    | inr e ↦ rw e (repeat_rows-RowsFit name c rest errors)
  ]

  keep_rows-fits :
      (P : String → FieldValue → Type 0) (c : Children) (name : String) (rows : Rows × List String)
      (values : Values)
      → ((k : String) (v : FieldValue) → get k values ≡ some v → P k v)
      → RowsFit (flatten c) rows.0
      → ((rs : Rows) → RowsFit (flatten c) rs → P name (repeat rs))
      → (k : String) (v : FieldValue) → get k (keep_rows name rows values).0 ≡ some v
      → P k v
  keep_rows-fits P c name (no_rows, errors) values old fit new = old
  keep_rows-fits P c name (row r rest, errors) values old fit new =
      insert-fits P name (repeat (row r rest)) values old (new (row r rest) fit)

  read_field-AllFit :
      (root : Node) (whole : Fields) (f : FormField) (so_far : Values × List String)
      → InFields f whole
      → AllFit whole so_far.0
      → AllFit whole (read_field floats root f so_far).0
  unfolding read_field
  read_field-AllFit root whole (form_field f c) (values, errors) i old =
      elim (Bool-cases (is_repeat_type f.field_type)) [
        | inl e ↦ rw e (
            keep_rows-fits _ c f.name (repeat_rows floats f.name c (children_of root) errors) values
              old (repeat_rows-RowsFit f.name c (children_of root) errors)
              (λ rs fit.
                (form_field f c, i, refl, inr (repeat_type f.field_type e, (rs, refl, fit)))))
        | inr e ↦ rw e (
            read_answer-Fits
              (λ name v.
                (g : FormField) × InFields g whole × ((info g).name ≡ name) × FieldFits g v)
              floats root f (values, errors) old (λ v q. (form_field f c, i, refl, inl q)))
      ]

  read_fields-AllFit :
      (root : Node) (whole fs : Fields) (so_far : Values × List String)
      → ((f : FormField) → InFields f fs → InFields f whole)
      → AllFit whole so_far.0
      → AllFit whole (read_fields floats root fs so_far).0
  unfolding read_fields
  read_fields-AllFit root whole no_fields so_far sub old = old
  read_fields-AllFit root whole (field f rest) so_far sub old =
      read_fields-AllFit root whole rest (read_field floats root f so_far) (λ g i. sub g (inr i))
        (read_field-AllFit root whole f so_far (sub f (inl refl)) old)

  -- Every answer of a submission that is read from an instance is under the name of a field of the form
  -- and of that field's type: null, a 64-bit integer, places on the globe and so on, and for a repeat
  -- rows each of whose answers is so for a child of the repeat.
  pub to_submission-AllFit :
      (id : Uuid) (started completed : Instant) (instance : Instance) (form : Form)
      (collector : String)
      → AllFit form.fields
          (to_submission floats id started completed instance form collector).0.values
  unfolding to_submission get
  to_submission-AllFit id started completed instance form collector =
      read_fields-AllFit instance.root form.fields form.fields (empty, []) (λ f i. i)
        (λ name v h. cc)
