-- ===== src/Query/Buffered.antt =====
-- src/query.cc: the buffered rows of a result, the columns, closing a query, and what a connection
-- tells about its last query.
use libattachsql.Prelude.{
  ℕ, zero, suc, ◌+◌, ◌-◌, Bool, true, false, not, ◌&&◌, ◌||◌, Option, none, some, List, [], ltb,
  leb, ◌==◌, if◌then◌else◌,
}
use libattachsql.Prelude.Memory.{Mem}
use libattachsql.Net.Connect.{
  Connect, ConStatus, CommandStatus, Cell, Column, event_none, con_status_idle,
}
use libattachsql.Buffer.Ops.{buffer_unread_data}
use libattachsql.Net.Response.{Platform}
use libattachsql.Net.Process.{Handshake, con_process_packets}
use libattachsql.Command.Send.{get_next_row, command_next_result, command_free, has_more_results}
use libattachsql.Connect.Errors.{
  Error, error_client_create, code_alloc, state_alloc, alloc_row, alloc_row_buffer,
}
use libattachsql.Query.Rows.{row_cells}

-- ATTACHSQL_BUFFER_ROW_ALLOC_SIZE
abbrev pub buffer_row_alloc_size : ℕ
buffer_row_alloc_size = 100

-- libattachsql2/constants.h
pub data Return : Type 0 where
  return_none return_not_connected return_connecting return_processing : Return
  return_row_ready return_error return_eof : Return

-- What `realloc` of the row buffer and `new` of a row answer.
pub record RowAllocations : Type 0 where
  pub buffer_done : Bool
  pub row_done : Bool

-- The row buffer with room for one more row, and whether there is; its size is raised before
-- `realloc` answers.
unfoldable pub row_room : RowAllocations → Connect → Bool × Connect
row_room a c =
    if leb c.row_buffer_alloc_size c.row_buffer_count
    then (
      a.buffer_done,
      record c { row_buffer_alloc_size = c.row_buffer_alloc_size + buffer_row_alloc_size },
    )
    else (true, c)

-- The row in the read buffer, as the next one of the row buffer.
unfoldable pub store_row : Platform → Mem → Connect → Connect
store_row e m c =
    let cells = row_cells e.plain m c.result.column_count c.result.row_data in
    record c {
      row_buffer = (λ i. if i == c.row_buffer_count then cells else c.row_buffer i);
      row_buffer_count = c.row_buffer_count + 1;
    }

-- How `query_row_buffer` ends; `out_of_fuel` is a loop that was not finished.
pub data Buffering : Type 0 where
  buffering : Return → Connect → Option Error → Buffering
  out_of_fuel : Buffering

abbrev pub is_idle : ConStatus → Bool
is_idle con_status_idle = true
is_idle _ = false

-- The condition of the loop: whether it goes on, and the connection.
unfoldable pub loop_test : Handshake → Platform → Mem → Connect → Option (Bool × Connect)
loop_test h e m c = elim (con_process_packets h e m c) [
  | none ↦ none
  | some (r, c') ↦ some (r && not (is_idle c'.status), c')
]

-- What is left of the body when the row is stored, the test, and the loop `again`.
unfoldable pub next_turn :
    Handshake → Platform → Mem → Option Error → (Connect → Buffering) → Connect → Buffering
next_turn h e m error again c = elim (get_next_row h e m c) [
  | none ↦ out_of_fuel
  | some (s, c1) ↦ elim (loop_test h e m c1) [
    | none ↦ out_of_fuel
    | some (goes_on, c2) ↦ if goes_on then again c2 else buffering return_processing c2 error
  ]
]

unfoldable pub row_turn :
    Handshake
    → Platform
    → Mem
    → Bool
    → RowAllocations
    → Option Error
    → (Connect → Buffering)
    → Connect
    → Buffering
row_turn h e m made a error again c =
    let (room, c1) = row_room a c in
    if not room
    then buffering return_error c1
        (error_client_create made code_alloc state_alloc alloc_row_buffer error)
    else if not a.row_done
    then buffering return_error c1 (error_client_create made code_alloc state_alloc alloc_row error)
    else next_turn h e m error again (store_row e m c1)

unfoldable pub row_loop :
    Handshake → Platform → Mem → Bool → RowAllocations → Option Error → ℕ → Connect → Buffering
row_loop h e m made a error zero c = out_of_fuel
row_loop h e m made a error (suc fuel) c =
    let again : Connect → Buffering = λ c'. row_loop h e m made a error fuel c' in
    row_turn h e m made a error again c

-- `attachsql_query_row_buffer`; the fuel is two more than the unread bytes.
unfoldable pub query_row_buffer :
    Handshake → Platform → Mem → Bool → RowAllocations → Option Error → Connect → Buffering
query_row_buffer h e m made a error c =
    row_loop h e m made a error (2 + buffer_unread_data c.read_buffer) c

-- `attachsql_query_buffer_row_get`: the row, or NULL after the last one.
unfoldable pub query_buffer_row_get : Connect → Option (List Cell) × Connect
query_buffer_row_get c = if leb c.row_buffer_count c.row_buffer_position then (none, c) else (
  some (c.row_buffer c.row_buffer_position),
  record c { row_buffer_position = c.row_buffer_position + 1 },
)

-- `attachsql_query_row_get_offset`
unfoldable pub query_row_get_offset : Connect → ℕ → Option (List Cell)
query_row_get_offset c row_number =
    if leb c.row_buffer_count row_number then none else some (c.row_buffer c.row_buffer_position)

-- `attachsql_query_row_count`
unfoldable pub query_row_count : Option Connect → ℕ
query_row_count none = 0
query_row_count (some c) =
    if not c.buffer_rows then 0 else if not c.all_rows_buffered then 0 else c.row_buffer_count

-- `attachsql_query_buffer_rows`
unfoldable pub query_buffer_rows : Option Connect → Bool → Bool × Option Connect
query_buffer_rows none enable = (false, none)
query_buffer_rows (some c) enable =
    if c.in_query then (false, some c) else (true, some (record c { buffer_rows = enable }))

abbrev pub connection_after : Option (CommandStatus × Connect) → Option Connect
connection_after none = none
connection_after (some (s, c)) = some c

-- `attachsql_query_row_next`; `none` is a packet loop without fuel.
unfoldable pub query_row_next : Handshake → Platform → Mem → Connect → Option Connect
query_row_next h e m c =
    let c' : Connect = record c { last_callback = event_none } in
    if c.buffer_rows then some c' else connection_after (get_next_row h e m c')

-- `attachsql_query_next_result`
unfoldable pub query_next_result : Platform → Option Connect → Return × Option Connect
query_next_result e none = (return_error, none)
query_next_result e (some c) =
    let (more, c') = command_next_result e c in
    (if more then return_processing else return_eof, some c')

-- `attachsql_query_close`. The array `con->row`, which it releases and sets to NULL, is not a field:
-- whether it is there is an argument of `query_row_get`.
unfoldable pub query_close : Connect → Connect
query_close c = record (command_free c) {
  query_buffer = [];
  query_buffer_alloc = false;
  in_query = c.in_query && has_more_results c.server_status;
  row_buffer_alloc_size = 0;
  row_buffer_position = 0;
  row_buffer_count = 0;
  all_rows_buffered = false;
}

-- `attachsql_query_column_get`: the names that it copies of a column, by the number from 1. The
-- fields `column` and `origin_column` of the copy are not set.
unfoldable pub query_column_get : Connect → ℕ → Option Column
query_column_get c column =
    if ltb c.result.column_count column || ltb column 1
    then none
    else some (record (c.result.columns (column - 1)) { column = []; origin_column = [] })
