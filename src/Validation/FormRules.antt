-- ===== src/Validation/FormRules.antt =====
-- What a form asks of a submission, and that `validate` of crates/collecta-core/src/validation.rs
-- reports nothing exactly if the submission has it.
use collecta.Prelude.{
  ℕ, suc, String, Bool, true, false, ◌&&◌, not, Option, none, some, List, [], ◌∷◌, ◌≡◌, ◌↔◌, inl,
  inr, refl, sym, is_some, All, Bool-cases, true≢false, arith,
}
use collecta.F64.{FloatText}
use collecta.Values.{FieldValue, Rows, Values, no_rows, row, get, keys, extend, repeat}
use collecta.Form.{
  FieldInfo, FormField, Children, Fields, Form, form_field, absent, present, no_fields, field, info,
  field_by_name,
}
use collecta.Errors.{Error}
use collecta.Submission.{Submission}
use collecta.Validation.{
  is_unanswered, is_repeat, child_path, unknown_keys, child_named, validate_rows, is_hidden,
  validate_info, validate_field, validate_children, validate_fields, validate_instances, validate,
}
use collecta.Validation.FieldRules.{
  AnswerOk, IsAnswered, is_unanswered_iff, check_value_iff, append-eq-nil,
}

-- What a repeat asks of its instances: the children in the scope of each, and no key beside theirs.
abbrev RowsOk : (String → Bool) → (Values → Type 0) → Values → Rows → Type 0
RowsOk known KidsOk outer no_rows = Unit
RowsOk known KidsOk outer (row instance rest) =
    KidsOk (extend outer instance)
    × All (λ key. known key ≡ true) (keys instance)
    × RowsOk known KidsOk outer rest

pub unknown_keys_iff :
    (known : String → Bool) (at : String → String) (ks : List String)
    → (unknown_keys known at ks ≡ []) ↔ All (λ key. known key ≡ true) ks
unfolding unknown_keys
unknown_keys_iff known at [] = (λ h. tt, λ h. refl)
unknown_keys_iff known at (k ∷ ks) = elim (Bool-cases (known k)) [
  | inl e ↦
      rw e
        (λ h. (refl, (unknown_keys_iff known at ks).0 h), λ h. (unknown_keys_iff known at ks).1 h.1)
  | inr e ↦ rw e (λ h. cc, λ h. absurd (true≢false (sym h.0)))
]

module _ (known : String → Bool) (check : (String → String) → Values → List Error)
    (KidsOk : Values → Type 0)
    (kids : (path_of : String → String) (v : Values) → (check path_of v ≡ []) ↔ KidsOk v) where
  rows_iff :
      (outer : Values) (path : String) (n : ℕ) (rows : Rows)
      → (validate_rows known check outer path n rows ≡ []) ↔ RowsOk known KidsOk outer rows
  unfolding validate_rows
  rows_iff outer path n no_rows = (λ h. tt, λ h. refl)
  rows_iff outer path n (row instance rest) = (
    λ h.
        let first = (append-eq-nil _ _).0 h in
        let second = (append-eq-nil _ _).0 first.1 in
        (
          (kids (child_path path n) (extend outer instance)).0 first.0,
          (unknown_keys_iff known (child_path path n) (keys instance)).0 second.0,
          (rows_iff outer path (suc n) rest).0 second.1,
        ),
    λ h. (append-eq-nil _ _).1 (
      (kids (child_path path n) (extend outer instance)).1 h.0,
      (append-eq-nil _ _).1 (
        (unknown_keys_iff known (child_path path n) (keys instance)).1 h.1,
        (rows_iff outer path (suc n) rest).1 h.2,
      ),
    ),
  )

  -- What a repeat field asks of its value.
  abbrev RepeatOk : Values → Option FieldValue → Type 0
  RepeatOk outer o = (rows : Rows) → o ≡ some (repeat rows) → RowsOk known KidsOk outer rows

  instances_iff :
      (outer : Values) (path : String) (o : Option FieldValue)
      → (validate_instances known check outer path o ≡ []) ↔ RepeatOk outer o
  instances_iff outer path none = (λ h rows e. cc, λ h. refl)
  instances_iff outer path (some (repeat rows)) = (
    λ h other e. let same : rows ≡ other = cc in rw (← same) ((rows_iff outer path 0 rows).0 h),
    λ h. (rows_iff outer path 0 rows).1 (h rows refl),
  )
  instances_iff outer path (some v) = (λ h rows e. cc, λ h. refl)

module _ (floats : FloatText) where
  -- What a field asks: nothing while it is hidden; else, if it is required and no repeat, an answer that
  -- is neither null nor the empty text,
  -- its rows if it is a repeat, and its constraints if it is none.
  abbrev InfoOk : FieldInfo → (String → Bool) → (Values → Type 0) → Values → Type 0
  InfoOk f known KidsOk values =
      is_hidden floats f.relevant values ≡ false
      → (f.required ≡ true → is_repeat f.field_type ≡ false → IsAnswered (get f.name values))
        × (is_repeat f.field_type ≡ true
            → (rows : Rows) → get f.name values ≡ some (repeat rows)
            → RowsOk known KidsOk values rows)
        × (is_repeat f.field_type ≡ false → AnswerOk f.constraints (get f.name values))

  abbrev mutual
    pub FieldOk : FormField → Values → Type 0
    FieldOk (form_field f c) values = InfoOk f (child_named c) (ChildrenOk c) values

    pub ChildrenOk : Children → Values → Type 0
    ChildrenOk absent values = Unit
    ChildrenOk (present fs) values = FieldsOk fs values

    pub FieldsOk : Fields → Values → Type 0
    FieldsOk no_fields values = Unit
    FieldsOk (field f fs) values = FieldOk f values × FieldsOk fs values

  info_iff :
      (f : FieldInfo) (known : String → Bool) (check : (String → String) → Values → List Error)
      (KidsOk : Values → Type 0)
      (kids : (path_of : String → String) (v : Values) → (check path_of v ≡ []) ↔ KidsOk v)
      (values : Values) (path : String)
      → (validate_info floats f known check values path ≡ []) ↔ InfoOk f known KidsOk values
  unfolding validate_info
  info_iff f known check KidsOk kids values path =
      elim (Bool-cases (is_hidden floats f.relevant values)) [
        | inl hidden ↦ rw hidden (λ h shown. absurd (true≢false shown), λ h. refl)
        | inr shown ↦
            rw shown
              (elim (Bool-cases
                (f.required && not (is_repeat f.field_type) && is_unanswered (get f.name values))) [
                  | inl missing ↦ rw missing (λ h. cc, λ h. absurd (unmet missing (h refl).0))
                  | inr fine ↦ rw fine (elim (Bool-cases (is_repeat f.field_type)) [
                    | inl rep ↦ rw rep (
                      λ h s. (
                        λ r n. absurd (true≢false n),
                        λ y. (instances_iff known check KidsOk kids values path _).0 h,
                        λ n. absurd (true≢false n),
                      ),
                      λ h.
                          (instances_iff known check KidsOk kids values path _).1 ((h refl).1 refl),
                    )
                    | inr plain ↦ rw plain (
                      λ h s. (
                        λ r n. met fine r plain,
                        λ y. absurd (true≢false (sym y)),
                        λ n. (check_value_iff path f.constraints _).0 h,
                      ),
                      λ h. (check_value_iff path f.constraints _).1 ((h refl).2 refl),
                    )
                  ])
                ])
      ]
    where
      unmet :
          (f.required && not (is_repeat f.field_type) && is_unanswered (get f.name values)) ≡ true
          → (f.required ≡ true → is_repeat f.field_type ≡ false → IsAnswered (get f.name values))
          → ⊥
      unmet m answer =
          let answered : f.required ≡ true
              → is_repeat f.field_type ≡ false
              → is_unanswered (get f.name values) ≡ false =
            λ r n. (is_unanswered_iff (get f.name values)).1 (answer r n) in
          ground (arith, answered)

      met :
          (f.required && not (is_repeat f.field_type) && is_unanswered (get f.name values)) ≡ false
          → f.required ≡ true
          → is_repeat f.field_type ≡ false
          → IsAnswered (get f.name values)
      met m r n =
          let answered : is_unanswered (get f.name values) ≡ false = ground arith in
          (is_unanswered_iff (get f.name values)).0 answered

  mutual
    unfolding validate_field

    field_iff :
        (f : FormField) (values : Values) (path : String)
        → (validate_field floats f values path ≡ []) ↔ FieldOk f values
    field_iff (form_field f c) values path =
        info_iff f (child_named c) (validate_children floats c) (ChildrenOk c) (children_iff c)
          values path

    children_iff :
        (c : Children) (path_of : String → String) (values : Values)
        → (validate_children floats c path_of values ≡ []) ↔ ChildrenOk c values
    children_iff absent path_of values = (λ h. tt, λ h. refl)
    children_iff (present fs) path_of values = fields_iff fs path_of values

    fields_iff :
        (fs : Fields) (path_of : String → String) (values : Values)
        → (validate_fields floats fs path_of values ≡ []) ↔ FieldsOk fs values
    fields_iff no_fields path_of values = (λ h. tt, λ h. refl)
    fields_iff (field f fs) path_of values = (
      λ h.
          let parts = (append-eq-nil _ _).0 h in
          (
            (field_iff f values (path_of (info f).name)).0 parts.0,
            (fields_iff fs path_of values).0 parts.1,
          ),
      λ h. (append-eq-nil _ _).1 (
        (field_iff f values (path_of (info f).name)).1 h.0,
        (fields_iff fs path_of values).1 h.1,
      ),
    )

  -- Validation reports nothing exactly if every field of the form has what it asks, fields of repeats
  -- at any depth included, and every answered name at the top is that of a field of the form.
  pub validate_iff :
      (form : Form) (s : Submission)
      → (validate floats form s ≡ []) ↔ (
          FieldsOk form.fields s.values
          × All (λ key. is_some (field_by_name key form) ≡ true) (keys s.values))
  unfolding validate
  validate_iff form s = (
    λ h.
        let parts = (append-eq-nil _ _).0 h in
        (
          (fields_iff form.fields (λ name. name) s.values).0 parts.0,
          (unknown_keys_iff (λ key. is_some (field_by_name key form)) (λ key. key)
                (keys s.values)).0
              parts.1,
        ),
    λ h. (append-eq-nil _ _).1 (
      (fields_iff form.fields (λ name. name) s.values).1 h.0,
      (unknown_keys_iff (λ key. is_some (field_by_name key form)) (λ key. key) (keys s.values)).1
          h.1,
    ),
  )
