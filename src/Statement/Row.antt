-- ===== src/Statement/Row.antt =====
-- `attachsql_statement_row_get` of src/statement_getset.cc: the cells of a row of a statement.
use libattachsql.Prelude.{
  ℕ, zero, suc, ◌+◌, ◌/◌, ◌%◌, ◌^◌, Bool, true, false, not, Option, none, some, List, [], ◌∷◌, ◌==◌,
  if◌then◌else◌, bit_and,
}
use libattachsql.Prelude.Memory.{Mem}
use libattachsql.Pack.Ints.{PlainChar, char_u64}
use libattachsql.Pack.Length.{unpack_length}
use libattachsql.Net.Connect.{Column, Connect}
use libattachsql.Statement.Types.{
  ColumnType, column_type_of, type_decimal, type_tiny, type_short, type_long, type_float,
  type_double, type_null, type_timestamp, type_longlong, type_int24, type_date, type_time,
  type_datetime, type_year, type_varchar, type_bit, type_newdecimal, type_enum, type_set,
  type_tiny_blob, type_medium_blob, type_long_blob, type_blob, type_varstring, type_string,
  type_geometry, type_error, type_other,
}

-- `attachsql_stmt_row_st`
pub record StmtCell : Type 0 where
  pub address : ℕ
  pub cell_length : ℕ
  pub cell_type : ColumnType

-- How a value of a type is laid out in the row: with its length in front as `unpack_length` reads
-- it or as one byte, or with a fixed length; the last are the types that the `switch` refuses.
pub data Layout : Type 0 where
  prefixed short_prefixed unknown : Layout
  fixed : ℕ → Layout

unfoldable pub layout : ColumnType → Layout
layout type_string = prefixed
layout type_varchar = prefixed
layout type_varstring = prefixed
layout type_enum = prefixed
layout type_set = prefixed
layout type_long_blob = prefixed
layout type_medium_blob = prefixed
layout type_tiny_blob = prefixed
layout type_blob = prefixed
layout type_geometry = prefixed
layout type_bit = prefixed
layout type_decimal = prefixed
layout type_newdecimal = prefixed
layout type_date = short_prefixed
layout type_datetime = short_prefixed
layout type_timestamp = short_prefixed
layout type_time = short_prefixed
layout type_longlong = fixed 8
layout type_double = fixed 8
layout type_long = fixed 4
layout type_int24 = fixed 4
layout type_float = fixed 4
layout type_short = fixed 2
layout type_year = fixed 2
layout type_tiny = fixed 1
layout type_null = fixed 0
layout type_error = unknown
layout (type_other n) = unknown

-- Where the value is and how long it is. A short length is a plain `char`.
unfoldable pub place : PlainChar → Mem → ℕ → Layout → Option (ℕ × ℕ)
place cs m raw_row prefixed =
    let l = unpack_length cs m raw_row in some (raw_row + l.bytes, l.value)
place cs m raw_row short_prefixed = some (raw_row + 1, char_u64 cs (m raw_row))
place cs m raw_row (fixed n) = some (raw_row, n)
place cs m raw_row unknown = none

-- The bit of a column in the NULL bitmap, whose first two bits are not used.
unfoldable pub is_null_at : Mem → ℕ → ℕ → Bool
is_null_at m bitmap column =
    not (bit_and (m (bitmap + (column + 2) / 8)) (2 ^ ((column + 2) % 8)) == 0)

unfoldable pub cell_type_at : (ℕ → Column) → Mem → ℕ → ℕ → ColumnType
cell_type_at columns m bitmap column =
    if is_null_at m bitmap column then type_null else column_type_of (columns column).column_type

-- A column's cell is stored, and the loop goes on behind it; it stops at an unknown type.
unfoldable pub put_cell :
    ColumnType → (ℕ → List StmtCell × Bool) → Option (ℕ × ℕ) → List StmtCell × Bool
put_cell t later none = ([], false)
put_cell t later (some (p, n)) =
    (record { address = p; cell_length = n; cell_type = t } ∷ (later (p + n)).0, (later (p + n)).1)

-- The loop over the columns that are left, from `column` on: the cells that are stored, and
-- whether the function goes on to the end.
unfoldable pub stmt_cells : PlainChar → (ℕ → Column) → Mem → ℕ → ℕ → ℕ → ℕ → List StmtCell × Bool
stmt_cells cs columns m bitmap zero column raw_row = ([], true)
stmt_cells cs columns m bitmap (suc left) column raw_row =
    let t = cell_type_at columns m bitmap column in
    put_cell t (λ next. stmt_cells cs columns m bitmap left (column + 1) next)
      (place cs m raw_row (layout t))

pub data StmtRowError : Type 0 where
  error_parameter error_alloc error_unknown : StmtRowError

-- What `con->stmt_row`, `con->stmt_null_bitmap` and its length are set to. The cells behind a
-- column of an unknown type keep what they held.
pub record StmtRow : Type 0 where
  pub stmt_row : List StmtCell
  pub stmt_null_bitmap : ℕ
  pub stmt_null_bitmap_length : ℕ

-- What is returned, with the error, and what was stored before. `array` says whether
-- `con->stmt_row` is there, from an earlier call or a new allocation.
unfoldable pub statement_row_get :
    PlainChar → Bool → Mem → Option Connect → Option StmtRowError × Option StmtRow
statement_row_get cs array m none = (some error_parameter, none)
statement_row_get cs false m (some c) = (some error_alloc, none)
statement_row_get cs true m (some c) =
    let bitmap = c.result.row_data + 1 in
    let bytes = (c.result.column_count + 7 + 2) / 8 in
    let (cells, whole) =
      stmt_cells cs c.result.columns m bitmap c.result.column_count 0 (bitmap + bytes) in
    (
      if whole then none else some error_unknown,
      some
          (record { stmt_row = cells; stmt_null_bitmap = bitmap; stmt_null_bitmap_length = bytes }),
    )
