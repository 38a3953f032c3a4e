-- ===== src/Server/Pull/Ordering.antt =====
-- `ORDER BY updated_at, rowid` of `Store::list_forms_since`, crates/collecta-server/src/store.rs: the
-- rows that it keeps, and the cursor of the last.
use collecta.Prelude.{
  true, false, none, some, List, [], ◌∷◌, ◌≡◌, ◌⊎◌, refl, In, All, Bool-cases, inl, inr, arith,
  some_inj,
}
use collecta.Server.{FormRow}
use collecta.Server.FormTable.{Cursor, after, cursor_of, insert_ordered, order_rows, last_cursor}

In-insert_ordered :
    (x row : FormRow) (rows : List FormRow) → In x (insert_ordered row rows) → (x ≡ row) ⊎ In x rows
unfolding insert_ordered
In-insert_ordered x row [] i = i
In-insert_ordered x row (other ∷ rows) i = ground (arith, i, In-insert_ordered x row rows)

insert_ordered-In :
    (x row : FormRow) (rows : List FormRow) → (x ≡ row) ⊎ In x rows → In x (insert_ordered row rows)
unfolding insert_ordered
insert_ordered-In x row [] i = i
insert_ordered-In x row (other ∷ rows) i = ground (arith, i, insert_ordered-In x row rows)

pub In-order_rows : (x : FormRow) (rows : List FormRow) → In x (order_rows rows) → In x rows
unfolding order_rows
In-order_rows x [] i = i
In-order_rows x (row ∷ rows) i = elim (In-insert_ordered x row (order_rows rows) i) [
  | inl e ↦ inl e
  | inr j ↦ inr (In-order_rows x rows j)
]

pub order_rows-In : (x : FormRow) (rows : List FormRow) → In x rows → In x (order_rows rows)
unfolding order_rows
order_rows-In x [] i = i
order_rows-In x (row ∷ rows) (inl e) = insert_ordered-In x row (order_rows rows) (inl e)
order_rows-In x (row ∷ rows) (inr j) =
    insert_ordered-In x row (order_rows rows) (inr (order_rows-In x rows j))

-- No row of the list comes before the one at its head.
IsOrdered : List FormRow → Type 0
IsOrdered [] = Unit
IsOrdered (row ∷ rows) = All (λ later. after (cursor_of later) row ≡ false) rows × IsOrdered rows

after_trans :
    (a b : FormRow) (c : Cursor)
    → after (cursor_of a) b ≡ false
    → after c a ≡ false
    → after c b ≡ false
after_trans a b c h k = ground (arith, h, k)

after_asym : (a b : FormRow) → after (cursor_of a) b ≡ true → after (cursor_of b) a ≡ false
after_asym a b h = ground (arith, h)

All-insert_ordered :
    (P : FormRow → Type 0) (row : FormRow) (rows : List FormRow)
    → P row
    → All P rows
    → All P (insert_ordered row rows)
unfolding insert_ordered
All-insert_ordered P row [] h hs = (h, tt)
All-insert_ordered P row (other ∷ rows) h hs = elim (Bool-cases (after (cursor_of row) other)) [
  | inl e ↦ rw e (h, hs)
  | inr e ↦ rw e (hs.0, All-insert_ordered P row rows h hs.1)
]

All-trans :
    (row other : FormRow) (rows : List FormRow)
    → after (cursor_of other) row ≡ false
    → All (λ later. after (cursor_of later) other ≡ false) rows
    → All (λ later. after (cursor_of later) row ≡ false) rows
All-trans row other [] h hs = tt
All-trans row other (x ∷ rows) h hs =
    (after_trans other row (cursor_of x) h hs.0, All-trans row other rows h hs.1)

insert_ordered-IsOrdered :
    (row : FormRow) (rows : List FormRow) → IsOrdered rows → IsOrdered (insert_ordered row rows)
unfolding insert_ordered IsOrdered
insert_ordered-IsOrdered row [] v = (tt, tt)
insert_ordered-IsOrdered row (other ∷ rows) v = elim (Bool-cases (after (cursor_of row) other)) [
  | inl e ↦
      let first = after_asym row other e in rw e ((first, All-trans row other rows first v.0), v)
  | inr e ↦ rw e (
    All-insert_ordered (λ later. after (cursor_of later) other ≡ false) row rows e v.0,
    insert_ordered-IsOrdered row rows v.1,
  )
]

order_rows-IsOrdered : (rows : List FormRow) → IsOrdered (order_rows rows)
unfolding order_rows IsOrdered
order_rows-IsOrdered [] = tt
order_rows-IsOrdered (row ∷ rows) =
    insert_ordered-IsOrdered row (order_rows rows) (order_rows-IsOrdered rows)

after_self : (row : FormRow) → after (cursor_of row) row ≡ false
after_self row = ground arith

-- The cursor of the last row is past every row of an ordered list.
last-after :
    (x : FormRow) (rows : List FormRow) (c : Cursor)
    → IsOrdered rows
    → In x rows
    → last_cursor rows ≡ some c
    → after c x ≡ false
unfolding IsOrdered
last-after x [] c v i e = absurd i
last-after x (row ∷ []) c v (inl q) e =
    let same : cursor_of row ≡ c = some_inj e in rw (q, ← same) (after_self row)
last-after x (row ∷ []) c v (inr j) e = absurd j
last-after x (row ∷ (next ∷ rows)) c v (inl q) e =
    rw q (after_trans next row c v.0.0 (last-after next (next ∷ rows) c v.1 (inl refl) e))
last-after x (row ∷ (next ∷ rows)) c v (inr j) e = last-after x (next ∷ rows) c v.1 j e

pub after-last_cursor :
    (x : FormRow) (rows : List FormRow) (c : Cursor)
    → last_cursor (order_rows rows) ≡ some c
    → In x rows
    → after c x ≡ false
after-last_cursor x rows c e i =
    last-after x (order_rows rows) c (order_rows-IsOrdered rows) (order_rows-In x rows i) e

last_cursor-In :
    (rows : List FormRow) (c : Cursor)
    → last_cursor rows ≡ some c
    → (y : FormRow) × In y rows × (cursor_of y ≡ c)
last_cursor-In [] c e = cc
last_cursor-In (row ∷ []) c e = (row, inl refl, some_inj e)
last_cursor-In (row ∷ (next ∷ rows)) c e =
    let deeper = last_cursor-In (next ∷ rows) c e in (deeper.0, inr deeper.1, deeper.2)

pub last_cursor-In_some :
    (x : FormRow) (rows : List FormRow) → In x rows → ¬ (last_cursor rows ≡ none)
last_cursor-In_some x [] i e = absurd i
last_cursor-In_some x (row ∷ []) i e = cc
last_cursor-In_some x (row ∷ (next ∷ rows)) i e =
    last_cursor-In_some next (next ∷ rows) (inl refl) e

after_skip :
    (since : Cursor) (x y : FormRow)
    → after since x ≡ false
    → after since y ≡ true
    → after (cursor_of y) x ≡ false
after_skip since x y h k = ground (arith, h, k)

pub last_cursor-past :
    (x : FormRow) (since c : Cursor) (rows : List FormRow)
    → after since x ≡ false
    → ((y : FormRow) → In y rows → after since y ≡ true)
    → last_cursor (order_rows rows) ≡ some c
    → after c x ≡ false
last_cursor-past x since c rows h ys e =
    let last = last_cursor-In (order_rows rows) c e in
    rw (← last.2) (after_skip since x last.0 h (ys last.0 (In-order_rows last.0 rows last.1)))
