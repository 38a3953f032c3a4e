-- ===== src/Server/Pull/Response.antt =====
-- What one response of `Store::list_forms_since`, crates/collecta-server/src/store.rs, says of each id.
use collecta.Prelude.{
  Bool, true, false, ◌&&◌, not, Option, none, some, List, [], ◌∷◌, ◌≡◌, ◌≢◌, refl, ap, sym, ◌∙◌,
  map, keep, find, In, In-keep, keep-In, any-In, In-any, Bool-cases, true≢false, ==_iff, ==_self,
  inl, inr, arith, ◌⊎◌, ◌==◌, if◌then◌else◌,
}
use collecta.Values.{Uuid}
use collecta.Form.{Form}
use collecta.Pulled.{contains}
use collecta.Pulled.Laws.{latest}
use collecta.Server.{FormRow, Db}
use collecta.Server.FormTable.{Cursor, after, order_rows, is_live, get_form}
use collecta.Server.Keyed.{IsKeyed, unique, own_id}
use collecta.Server.Pull.Ordering.{In-order_rows, order_rows-In}

-- What a row shows of its form.
abbrev pub shown : FormRow → Option Form
shown row = if is_live row then some row.form else none

latest-cases :
    (id : Uuid) (fs : List Form)
    → (latest id fs ≡ none) ⊎ ((f : Form) × In f fs × (f.id ≡ id) × (latest id fs ≡ some f))
latest-cases id [] = inl refl
latest-cases id (f ∷ fs) = elim (latest-cases id fs) [
  | inr (g, i, e, l) ↦ inr (g, inr i, e, rw l)
  | inl l ↦ elim (Bool-cases (f.id == id)) [
    | inl e ↦ inr (f, inl refl, (==_iff f.id id).0 e, rw (l, e))
    | inr e ↦ inl (rw (l, e))
  ]
]

latest-none :
    (id : Uuid) (fs : List Form) → ((f : Form) → In f fs → f.id ≢ id) → latest id fs ≡ none
latest-none id fs h = elim (latest-cases id fs) [ inl l ↦ l | inr (f, i, e, l) ↦ absurd (h f i e) ]

latest-some :
    (id : Uuid) (f : Form) (fs : List Form)
    → In f fs
    → f.id ≡ id
    → ((g : Form) → In g fs → g.id ≡ id → g ≡ f)
    → latest id fs ≡ some f
latest-some id f [] i e h = absurd i
latest-some id f (g ∷ fs) (inr j) e h = rw (latest-some id f fs j e (λ x k q. h x (inr k) q))
latest-some id f (g ∷ fs) (inl p) e h = elim (latest-cases id fs) [
  | inr (x, i, q, l) ↦ rw l (ap some (h x (inr i) q))
  | inl l ↦ rw (l, ← p, (==_iff f.id id).1 e) refl
]

In-map :
    {A B : Type 0} (f : A → B) (b : B) (xs : List A)
    → In b (map f xs)
    → (a : A) × In a xs × (b ≡ f a)
In-map f b [] i = absurd i
In-map f b (x ∷ xs) (inl e) = (x, inl refl, e)
In-map f b (x ∷ xs) (inr j) = let deeper = In-map f b xs j in (deeper.0, inr deeper.1, deeper.2)

map-In : {A B : Type 0} (f : A → B) (a : A) (xs : List A) → In a xs → In (f a) (map f xs)
map-In f a [] i = absurd i
map-In f a (x ∷ xs) (inl e) = inl (ap f e)
map-In f a (x ∷ xs) (inr j) = inr (map-In f a xs j)

pub find-cases :
    {A : Type 0} (p : A → Bool) (xs : List A)
    → ((find p xs ≡ none) × ((x : A) → In x xs → p x ≡ false))
      ⊎ ((x : A) × In x xs × (p x ≡ true) × (find p xs ≡ some x))
find-cases p [] = inl (refl, λ x i. absurd i)
find-cases p (x ∷ xs) = elim (Bool-cases (p x)) [
  | inl e ↦ inr (x, inl refl, e, rw e)
  | inr e ↦ elim (find-cases p xs) [
    | inl (n, h) ↦ inl (rw e n, λ y i. elim i [ inl q ↦ rw q e | inr j ↦ h y j ])
    | inr (y, i, q, s) ↦ inr (y, inr i, q, rw e s)
  ]
]

-- What the table says of an id: the live definition that the row of the id shows.
pub get_form-shown :
    (row : FormRow) (db : Db) → IsKeyed db.forms → In row db.forms → get_form row.id db ≡ shown row
unfolding get_form
get_form-shown row db v i = elim (find-cases (λ r. r.id == row.id && is_live r) db.forms) [
  | inl (n, h) ↦
      let dead : (row.id == row.id && is_live row) ≡ false = h row i in rw n (ground (arith, dead))
  | inr (r, j, q, s) ↦
      let same : r ≡ row = unique r row db.forms v j i (ground (arith, q)) in
      rw (s, same) (ground (arith, ap (λ x. x.id == row.id && is_live x) (sym same) ∙ q))
]

pub and_left : (a b : Bool) → (a && b) ≡ true → a ≡ true
and_left true b h = refl
and_left false b h = h

pub refute : (b : Bool) → ¬ (b ≡ true) → b ≡ false
refute true h = absurd (h refl)
refute false h = refl

both : (a b : Bool) → a ≡ true → b ≡ true → true ≡ (a && b)
both a b h k = rw (h, k)

abbrev pub delivered : Cursor → Db → List FormRow
delivered since db = order_rows (keep (after since) db.forms)

abbrev pub defined : Cursor → Db → List Form
defined since db = map (λ row. row.form) (keep is_live (delivered since db))

abbrev pub dropped : Cursor → Db → List Uuid
dropped since db = map (λ row. row.id) (keep (λ row. not (is_live row)) (delivered since db))

delivered_from :
    (since : Cursor) (db : Db) (p : FormRow → Bool) (row : FormRow)
    → In row (keep p (delivered since db))
    → In row db.forms × (after since row ≡ true) × (p row ≡ true)
delivered_from since db p row i =
    let kept = In-keep p (delivered since db) i in
    let read =
      In-keep (after since) db.forms (In-order_rows row (keep (after since) db.forms) kept.0) in
    (read.0, read.1, kept.1)

into_delivered :
    (since : Cursor) (db : Db) (p : FormRow → Bool) (row : FormRow)
    → In row db.forms
    → after since row ≡ true
    → p row ≡ true
    → In row (keep p (delivered since db))
into_delivered since db p row i a q =
    keep-In p (delivered since db)
      (order_rows-In row (keep (after since) db.forms) (keep-In (after since) db.forms i a)) q

-- The definitions that a response has under an id are those of rows of that id.
defined_from :
    (since : Cursor) (db : Db)
    → IsKeyed db.forms
    → (f : Form) → In f (defined since db)
    → (row : FormRow) × In row db.forms
      × (after since row ≡ true)
      × (is_live row ≡ true)
      × (f ≡ row.form)
      × (f.id ≡ row.id)
defined_from since db v f i =
    let from = In-map (λ (row : FormRow). row.form) f (keep is_live (delivered since db)) i in
    let row = delivered_from since db is_live from.0 from.1 in
    (
      from.0,
      row.0,
      row.1,
      row.2,
      from.2,
      ap (λ (g : Form). g.id) from.2 ∙ own_id from.0 db.forms v row.0,
    )

dropped_from :
    (since : Cursor) (db : Db) (id : Uuid)
    → contains (dropped since db) id ≡ true
    → (row : FormRow) × In row db.forms
      × (after since row ≡ true)
      × (not (is_live row) ≡ true)
      × (row.id ≡ id)
dropped_from since db id e =
    let found = any-In (λ d. d == id) (dropped since db) e in
    let from =
      In-map (λ (row : FormRow). row.id) found.0
        (keep (λ row. not (is_live row)) (delivered since db)) found.1 in
    let row = delivered_from since db (λ r. not (is_live r)) from.0 from.1 in
    (from.0, row.0, row.1, row.2, sym from.2 ∙ (==_iff found.0 id).0 found.2)

-- What a response says of the id of a row of the table: nothing, its definition, or that it is gone.
pub dropped_row :
    (since : Cursor) (db : Db) (row : FormRow)
    → IsKeyed db.forms
    → In row db.forms
    → contains (dropped since db) row.id ≡ (after since row && not (is_live row))
dropped_row since db row v i = elim (Bool-cases (after since row && not (is_live row))) [
  | inl e ↦ rw e (
      In-any (λ d. d == row.id) (dropped since db)
        (map-In (λ (r : FormRow). r.id) row (keep (λ r. not (is_live r)) (delivered since db))
          (into_delivered since db (λ r. not (is_live r)) row i (ground (arith, e))
            (ground (arith, e))))
        (==_self row.id))
  | inr e ↦ rw e (
      refute _ (λ h.
        let from = dropped_from since db row.id h in
        let same : from.0 ≡ row = unique from.0 row db.forms v from.1 i from.4 in
        true≢false (
          both (after since from.0) (not (is_live from.0)) from.2 from.3
          ∙ ap (λ r. after since r && not (is_live r)) same
          ∙ e)))
]

pub defined_row :
    (since : Cursor) (db : Db) (row : FormRow)
    → IsKeyed db.forms
    → In row db.forms
    → latest row.id (defined since db)
      ≡ (if after since row && is_live row then some row.form else none)
defined_row since db row v i = elim (Bool-cases (after since row && is_live row)) [
  | inl e ↦ rw e (
      latest-some row.id row.form (defined since db)
        (map-In (λ (r : FormRow). r.form) row (keep is_live (delivered since db))
          (into_delivered since db is_live row i (ground (arith, e)) (ground (arith, e))))
        (own_id row db.forms v i)
        (λ g j q.
          let from = defined_from since db v g j in
          from.4
          ∙ ap (λ (r : FormRow). r.form) (unique from.0 row db.forms v from.1 i (sym from.5 ∙ q))))
  | inr e ↦ rw e (
      latest-none row.id (defined since db) (λ g j q.
        let from = defined_from since db v g j in
        let same : from.0 ≡ row = unique from.0 row db.forms v from.1 i (sym from.5 ∙ q) in
        true≢false (
          both (after since from.0) (is_live from.0) from.2 from.3
          ∙ ap (λ r. after since r && is_live r) same
          ∙ e)))
]

pub foreign_id :
    (since : Cursor) (db : Db) (id : Uuid)
    → IsKeyed db.forms
    → ((row : FormRow) → In row db.forms → row.id ≢ id)
    → (contains (dropped since db) id ≡ false) × (latest id (defined since db) ≡ none)
foreign_id since db id v no_row = (
  refute _ (λ h. let from = dropped_from since db id h in no_row from.0 from.1 from.4),
  latest-none id (defined since db)
      (λ f i q. let from = defined_from since db v f i in no_row from.0 from.1 (sym from.5 ∙ q)),
)
