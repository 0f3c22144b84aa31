-- ===== src/Query/BufferLaws.antt =====
-- The row buffer is a queue: rows come out in the order in which they were buffered.
use libattachsql.Prelude.{
  ℕ, zero, suc, ◌+◌, ◌-◌, ◌≤◌, ◌<◌, ◌≡◌, refl, ap, ap₂, ◌∙◌, arith, Option, none, some, List, [],
  ◌∷◌, ◌++◌, drop, leb, ◌==◌, if◌then◌else◌, Bool-cases, inl, inr,
}
use libattachsql.Prelude.Memory.{Mem}
use libattachsql.Net.Connect.{Connect, Cell}
use libattachsql.Net.Response.{Platform}
use libattachsql.Query.Rows.{row_cells}
use libattachsql.Query.Buffered.{store_row, query_buffer_row_get}

-- The `n` rows of an array from `i` on.
abbrev pub rows_from : (ℕ → List Cell) → ℕ → ℕ → List (List Cell)
rows_from f i zero = []
rows_from f i (suc n) = f i ∷ rows_from f (i + 1) n

-- The rows that were buffered and not yet taken.
abbrev pub remaining : Connect → List (List Cell)
remaining c =
    rows_from c.row_buffer c.row_buffer_position (c.row_buffer_count - c.row_buffer_position)

abbrev pub first_row : List (List Cell) → Option (List Cell)
first_row [] = none
first_row (r ∷ rs) = some r

rows_from_ext :
    (f g : ℕ → List Cell) (i n : ℕ)
    → ((j : ℕ) → j < i + n → f j ≡ g j)
    → rows_from f i n ≡ rows_from g i n
rows_from_ext f g i zero h = refl
rows_from_ext f g i (suc n) h =
    ap₂ ◌∷◌ (h i (omega arith)) (rows_from_ext f g (i + 1) n (λ j k. h j (omega (arith, k))))

rows_from-suc :
    (f : ℕ → List Cell) (i n : ℕ) → rows_from f i (suc n) ≡ rows_from f i n ++ (f (i + n) ∷ [])
rows_from-suc f i zero = let e : i + 0 ≡ i = omega arith in rw e refl
rows_from-suc f i (suc n) =
    let e : i + suc n ≡ i + 1 + n = omega arith in rw e (ap (◌∷◌ (f i)) (rows_from-suc f (i + 1) n))

remaining-store_row :
    (e : Platform) (m : Mem) (c : Connect)
    → c.row_buffer_position ≤ c.row_buffer_count
    → remaining (store_row e m c)
      ≡ remaining c ++ (row_cells e.plain m c.result.column_count c.result.row_data ∷ [])
unfolding store_row
remaining-store_row e m c h =
    let cells = row_cells e.plain m c.result.column_count c.result.row_data in
    let old = c.row_buffer in
    let new = λ (i : ℕ). if i == c.row_buffer_count then cells else old i in
    let p = c.row_buffer_position in
    let n = c.row_buffer_count - p in
    let more : c.row_buffer_count + 1 - p ≡ suc n = omega arith in
    let at : p + n ≡ c.row_buffer_count = omega arith in
    let same : rows_from new p n ≡ rows_from old p n =
      rows_from_ext new old p n (λ j k. ground arith) in
    let put : new (p + n) ≡ cells = ground arith in
    ap (rows_from new p) more
    ∙ rows_from-suc new p n
    ∙ ap₂ (λ (rs : List (List Cell)) (r : List Cell). rs ++ (r ∷ [])) same put

taken :
    (c : Connect)
    → c.row_buffer_position ≤ c.row_buffer_count
    → ((query_buffer_row_get c).0 ≡ first_row (remaining c))
      × (remaining (query_buffer_row_get c).1 ≡ drop 1 (remaining c))
unfolding query_buffer_row_get
taken c h = elim (Bool-cases (leb c.row_buffer_count c.row_buffer_position)) [
  | inl k ↦
      let none_left : c.row_buffer_count - c.row_buffer_position ≡ 0 = ground arith in
      rw (k, none_left) (refl, refl)
  | inr k ↦
      let some_left : c.row_buffer_count - c.row_buffer_position
          ≡ suc (c.row_buffer_count - (c.row_buffer_position + 1)) =
        ground arith in
      rw (k, some_left) (refl, refl)
]

-- The row buffer is a queue of rows, if no more rows were taken than buffered: a row that is stored
-- comes behind the rows that were not yet taken, taking gives the first of these and leaves the
-- others, and NULL where there is none.
pub buffered_rows :
    (e : Platform) (m : Mem) (c : Connect)
    → c.row_buffer_position ≤ c.row_buffer_count
    → ((query_buffer_row_get c).0 ≡ first_row (remaining c))
      × (remaining (query_buffer_row_get c).1 ≡ drop 1 (remaining c))
      × (remaining (store_row e m c)
          ≡ remaining c ++ (row_cells e.plain m c.result.column_count c.result.row_data ∷ []))
buffered_rows e m c h = ((taken c h).0, (taken c h).1, remaining-store_row e m c h)
