-- ===== src/Query/Rows.antt =====
-- `attachsql_query_row_get` of src/query.cc: the cells of the row that is in the read buffer.
use libattachsql.Prelude.{
  ℕ, zero, suc, ◌+◌, Bool, true, false, Option, none, some, List, [], ◌∷◌, if◌then◌else◌,
}
use libattachsql.Prelude.Memory.{Mem}
use libattachsql.Pack.Ints.{PlainChar}
use libattachsql.Pack.Length.{unpack_length}
use libattachsql.Net.Connect.{Connect, Cell, CommandStatus, command_status_row_in_buffer}

-- The codes of the errors that the function creates.
pub data RowError : Type 0 where
  error_parameter error_buffered_mode error_no_data error_alloc : RowError

pub data RowGet : Type 0 where
  no_row : RowError → RowGet
  row : List Cell → RowGet

abbrev pub is_row_in_buffer : CommandStatus → Bool
is_row_in_buffer command_status_row_in_buffer = true
is_row_in_buffer _ = false

-- The loop over the columns that are left, from `raw_row` on.
unfoldable pub row_cells : PlainChar → Mem → ℕ → ℕ → List Cell
row_cells cs m zero raw_row = []
row_cells cs m (suc columns) raw_row =
    let l = unpack_length cs m raw_row in
    let start = raw_row + l.bytes in
    record { address = start; cell_length = l.value } ∷ row_cells cs m columns (start + l.value)

-- `array` says whether `con->row` is there, from an earlier call or a new allocation.
unfoldable pub query_row_get : PlainChar → Bool → Mem → Option Connect → RowGet
query_row_get cs array m none = no_row error_parameter
query_row_get cs array m (some c) =
    if c.buffer_rows
    then no_row error_buffered_mode
    else if is_row_in_buffer c.command_status
    then (if array
        then row (row_cells cs m c.result.column_count c.result.row_data)
        else no_row error_alloc)
    else no_row error_no_data
