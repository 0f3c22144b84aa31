-- ===== src/Statement/RowLaws.antt =====
-- The cells that `attachsql_statement_row_get` finds are those of the protocol's binary row.
use libattachsql.Prelude.{
  ℕ, ◌+◌, ◌/◌, ◌%◌, ◌≤◌, ◌≡◌, ◌≢◌, inl, inr, refl, ap₂, arith, Bool, true, false, Option, none,
  some, List, [], ◌∷◌, map, length, if◌then◌else◌,
}
use libattachsql.Prelude.Bits.{bit_at, bit_set, bit_clear}
use libattachsql.Prelude.Memory.{Mem, read}
use libattachsql.Pack.Ints.{PlainChar}
use libattachsql.Query.RowLaws.{LengthAt, IsKept, length_at, char_kept}
use libattachsql.Net.Connect.{Column, Connect}
use libattachsql.Statement.Types.{
  ColumnType, column_type_of, type_null, type_error, type_other, type_tiny, type_short, type_year,
  type_int24, type_long, type_longlong, type_float, type_double, type_date, type_time,
  type_datetime, type_timestamp, type_decimal, type_newdecimal, type_varchar, type_varstring,
  type_string, type_tiny_blob, type_medium_blob, type_blob, type_long_blob, type_bit, type_enum,
  type_set, type_geometry,
}
use libattachsql.Statement.Row.{
  StmtCell, Layout, prefixed, short_prefixed, unknown, fixed, layout, place, is_null_at,
  cell_type_at, put_cell, stmt_cells, StmtRow, statement_row_get,
}

-- What the protocol of MySQL says of a value that is not NULL in a binary row: so many bytes, or
-- bytes behind their encoded length, or a date or time behind one byte with its length.
pub data Form : Type 0 where
  of_bytes : ℕ → Form
  encoded counted absent : Form

abbrev pub form : ColumnType → Form
form type_tiny = of_bytes 1
form type_short = of_bytes 2
form type_year = of_bytes 2
form type_int24 = of_bytes 4
form type_long = of_bytes 4
form type_longlong = of_bytes 8
form type_float = of_bytes 4
form type_double = of_bytes 8
form type_date = counted
form type_time = counted
form type_datetime = counted
form type_timestamp = counted
form type_decimal = encoded
form type_newdecimal = encoded
form type_varchar = encoded
form type_varstring = encoded
form type_string = encoded
form type_tiny_blob = encoded
form type_medium_blob = encoded
form type_blob = encoded
form type_long_blob = encoded
form type_bit = encoded
form type_enum = encoded
form type_set = encoded
form type_geometry = encoded
form type_null = absent
form type_error = absent
form (type_other n) = absent

-- The value of this form that stands at `p`: its `n` bytes are at `start`. The length in front of a
-- date or time is at most 12.
pub data ValueAt (cs : PlainChar) (m : Mem) (p start n : ℕ) : Form → Type 0 where
  long_value :
      (k : ℕ) → LengthAt m p n k → IsKept cs n → start ≡ p + k → ValueAt cs m p start n encoded
  short_value : m p ≡ n → n ≤ 12 → start ≡ p + 1 → ValueAt cs m p start n counted
  fixed_value : {w : ℕ} → n ≡ w → start ≡ p → ValueAt cs m p start n (of_bytes w)

abbrev pub is_null_type : ColumnType → Bool
is_null_type type_null = true
is_null_type _ = false

-- The bit of the column in the bitmap at `bitmap`.
abbrev pub null_bit : Mem → ℕ → ℕ → ℕ
null_bit m bitmap column = bit_at ((column + 2) % 8) (m (bitmap + (column + 2) / 8))

-- The values of the columns from `column` on stand at `p`; NULL is a bit of the bitmap and has no
-- bytes.
pub data ValuesAt (cs : PlainChar) (m : Mem) (columns : ℕ → Column) (bitmap : ℕ)
    : ℕ → ℕ → List (Option (List ℕ)) → Type 0 where
  ends : {column p : ℕ} → ValuesAt cs m columns bitmap column p []
  null :
      {column p : ℕ} {vs : List (Option (List ℕ))}
      → null_bit m bitmap column ≡ 1
      → ValuesAt cs m columns bitmap (column + 1) p vs
      → ValuesAt cs m columns bitmap column p (none ∷ vs)
  value :
      {column p : ℕ} {bs : List ℕ} {vs : List (Option (List ℕ))} (start : ℕ)
      → null_bit m bitmap column ≡ 0
      → is_null_type (column_type_of (columns column).column_type) ≡ false
      → ValueAt cs m p start (length bs) (form (column_type_of (columns column).column_type))
      → read m start (length bs) ≡ bs
      → ValuesAt cs m columns bitmap (column + 1) (start + length bs) vs
      → ValuesAt cs m columns bitmap column p (some bs ∷ vs)

value_behind :
    (cs : PlainChar) (m : Mem) (p start n : ℕ) {f : Form} → ValueAt cs m p start n f → p ≤ start
value_behind cs m p start n (long_value k l h e) = omega arith
value_behind cs m p start n (short_value h k e) = omega arith
value_behind cs m p start n (fixed_value h e) = omega arith

-- What a cell stands for.
abbrev pub value_of : Mem → StmtCell → Option (List ℕ)
value_of m c = if is_null_type c.cell_type then none else some (read m c.address c.cell_length)

-- The layout for a form.
abbrev laid_out : Form → Layout
laid_out (of_bytes n) = fixed n
laid_out encoded = prefixed
laid_out counted = short_prefixed
laid_out absent = unknown

laid_place :
    (cs : PlainChar) (m : Mem) (p start n : ℕ) (f : Form)
    → p ≢ 0
    → ValueAt cs m p start n f
    → place cs m p (laid_out f) ≡ some (start, n)
unfolding place
laid_place cs m p start n encoded z (long_value k l h e) =
    let (v, b) = length_at cs m p n k z h l in rw (v, b, e)
laid_place cs m p start n counted z (short_value h k e) =
    let c = char_kept cs n (inr (inl (omega arith))) (omega arith) in rw (e, h, c)
laid_place cs m p start n (of_bytes w) z (fixed_value h e) = rw (e, h)
laid_place cs m p start n absent z v = elim v [ ]

-- A value is where the layout of its type finds it.
place_lem :
    (cs : PlainChar) (m : Mem) (p start n : ℕ) (t : ColumnType)
    → p ≢ 0
    → ValueAt cs m p start n (form t)
    → place cs m p (layout t) ≡ some (start, n)
unfolding layout
place_lem cs m p start n type_tiny z v = laid_place cs m p start n _ z v
place_lem cs m p start n type_short z v = laid_place cs m p start n _ z v
place_lem cs m p start n type_year z v = laid_place cs m p start n _ z v
place_lem cs m p start n type_int24 z v = laid_place cs m p start n _ z v
place_lem cs m p start n type_long z v = laid_place cs m p start n _ z v
place_lem cs m p start n type_longlong z v = laid_place cs m p start n _ z v
place_lem cs m p start n type_float z v = laid_place cs m p start n _ z v
place_lem cs m p start n type_double z v = laid_place cs m p start n _ z v
place_lem cs m p start n type_date z v = laid_place cs m p start n _ z v
place_lem cs m p start n type_time z v = laid_place cs m p start n _ z v
place_lem cs m p start n type_datetime z v = laid_place cs m p start n _ z v
place_lem cs m p start n type_timestamp z v = laid_place cs m p start n _ z v
place_lem cs m p start n type_decimal z v = laid_place cs m p start n _ z v
place_lem cs m p start n type_newdecimal z v = laid_place cs m p start n _ z v
place_lem cs m p start n type_varchar z v = laid_place cs m p start n _ z v
place_lem cs m p start n type_varstring z v = laid_place cs m p start n _ z v
place_lem cs m p start n type_string z v = laid_place cs m p start n _ z v
place_lem cs m p start n type_tiny_blob z v = laid_place cs m p start n _ z v
place_lem cs m p start n type_medium_blob z v = laid_place cs m p start n _ z v
place_lem cs m p start n type_blob z v = laid_place cs m p start n _ z v
place_lem cs m p start n type_long_blob z v = laid_place cs m p start n _ z v
place_lem cs m p start n type_bit z v = laid_place cs m p start n _ z v
place_lem cs m p start n type_enum z v = laid_place cs m p start n _ z v
place_lem cs m p start n type_set z v = laid_place cs m p start n _ z v
place_lem cs m p start n type_geometry z v = laid_place cs m p start n _ z v
place_lem cs m p start n type_null z v = elim v [ ]
place_lem cs m p start n type_error z v = elim v [ ]
place_lem cs m p start n (type_other k) z v = elim v [ ]

null_at :
    (m : Mem) (bitmap column : ℕ) → null_bit m bitmap column ≡ 1 → is_null_at m bitmap column ≡ true
unfolding is_null_at
null_at m bitmap column h =
    ground (arith, bit_set ((column + 2) % 8) (m (bitmap + (column + 2) / 8)) h)

not_null_at :
    (m : Mem) (bitmap column : ℕ)
    → null_bit m bitmap column ≡ 0
    → is_null_at m bitmap column ≡ false
unfolding is_null_at
not_null_at m bitmap column h =
    ground (arith, bit_clear ((column + 2) % 8) (m (bitmap + (column + 2) / 8)) h)

-- The cells of the columns that are left.
abbrev Finds : Mem → List (Option (List ℕ)) → List StmtCell × Bool → Type 0
Finds m vs r = (map (value_of m) r.0 ≡ vs) × (r.1 ≡ true)

module _ (cs : PlainChar) (m : Mem) (columns : ℕ → Column) (bitmap : ℕ) where
  -- One cell in front of those of a loop that finds the rest.
  put_cell-Finds :
      (t : ColumnType) (later : ℕ → List StmtCell × Bool) (p start n : ℕ) (v : Option (List ℕ))
      (vs : List (Option (List ℕ)))
      → place cs m p (layout t) ≡ some (start, n)
      → value_of m (record { address = start; cell_length = n; cell_type = t }) ≡ v
      → Finds m vs (later (start + n))
      → Finds m (v ∷ vs) (put_cell t later (place cs m p (layout t)))
  unfolding put_cell
  put_cell-Finds t later p start n v vs e h f = rw e (ap₂ ◌∷◌ h f.0, f.1)

  null_type :
      (column : ℕ) → null_bit m bitmap column ≡ 1 → cell_type_at columns m bitmap column ≡ type_null
  unfolding cell_type_at
  null_type column h = rw (null_at m bitmap column h)

  own_type :
      (column : ℕ)
      → null_bit m bitmap column ≡ 0
      → cell_type_at columns m bitmap column ≡ column_type_of (columns column).column_type
  unfolding cell_type_at
  own_type column h = rw (not_null_at m bitmap column h)

  stmt_cells-Finds :
      (column p : ℕ) (vs : List (Option (List ℕ)))
      → p ≢ 0
      → ValuesAt cs m columns bitmap column p vs
      → Finds m vs (stmt_cells cs columns m bitmap (length vs) column p)
  unfolding stmt_cells
  stmt_cells-Finds column p [] z a = (refl, refl)
  stmt_cells-Finds column p (none ∷ vs) z (null h a) =
      let stay : p + 0 ≡ p = omega arith in
      rw (null_type column h) (
        put_cell-Finds type_null _ p p 0 none vs (unfold place layout in refl) refl
          (rw stay (stmt_cells-Finds (column + 1) p vs z a)))
  stmt_cells-Finds column p (some bs ∷ vs) z (value start h t v r a) = rw (own_type column h) (
      put_cell-Finds (column_type_of (columns column).column_type) _ p start (length bs) (some bs)
        vs (place_lem cs m p start (length bs) _ z v) (rw (t, r))
        (stmt_cells-Finds (column + 1) (start + length bs) vs
          (omega (arith, value_behind cs m p start (length bs) v)) a))

-- Where the read buffer holds a binary row of the protocol with as many values as the result has
-- columns, each NULL or of the form that
-- the protocol has for the type of its column, and the array for the row is there,
-- `statement_row_get` succeeds, and its cells stand for exactly these values in their order, NULL
-- apart from an empty value. This holds for values of any length where a plain char is unsigned,
-- and otherwise for values whose length is not from 128 to 250.
pub statement_row_get_lem :
    (cs : PlainChar) (m : Mem) (c : Connect) (vs : List (Option (List ℕ)))
    → c.result.column_count ≡ length vs
    → ValuesAt cs m c.result.columns
        (c.result.row_data + 1)
        0
        (c.result.row_data + 1 + (length vs + 7 + 2) / 8)
        vs
    → (row : StmtRow) × (statement_row_get cs true m (some c) ≡ (none, some row))
      × (map (value_of m) row.stmt_row ≡ vs)
unfolding statement_row_get
statement_row_get_lem cs m c vs n a =
    let bitmap = c.result.row_data + 1 in
    let p = bitmap + (length vs + 7 + 2) / 8 in
    let cells = stmt_cells cs c.result.columns m bitmap (length vs) 0 p in
    let f = stmt_cells-Finds cs m c.result.columns bitmap 0 p vs (omega arith) a in
    (
      record {
        stmt_row = cells.0;
        stmt_null_bitmap = bitmap;
        stmt_null_bitmap_length = (length vs + 7 + 2) / 8;
      },
      rw (n, f.1),
      f.0,
    )
