-- ===== src/Connect/Create.antt =====
-- `attachsql_connect_create` of src/connect.cc, and the accessors of a connection and of its last
-- query in src/connect.cc, src/query.cc and src/statement_getset.cc.
use libattachsql.Prelude.{
  ℕ, Bool, true, false, Option, none, some, List, [], length, ltb, leb, if◌then◌else◌,
}
use libattachsql.Prelude.Memory.{Mem}
use libattachsql.Buffer.Ops.{ret_ok, ret_user_too_long, ret_schema_too_long, Ret}
use libattachsql.Net.Queue.{packet_none}
use libattachsql.Net.Connect.{
  Column, Connect, new_stmt, new_result, con_status_not_connected, con_status_parameter_error,
  command_status_eof, protocol_unknown, event_none, max_schema_size,
}
use libattachsql.Net.Response.{Platform}
use libattachsql.Net.Process.{Handshake}
use libattachsql.Command.Send.{get_next_row}
use libattachsql.Connect.Errors.{
  Error, Message, error_client_create, code_parameter, code_alloc, state_parameter, state_alloc,
  alloc_connection, user_too_long, schema_too_long,
}
use libattachsql.Query.Buffered.{connection_after}
use libattachsql.Statement.Types.{ColumnType, column_type_of, type_error}

-- ATTACHSQL_MAX_USER_SIZE
abbrev pub max_user_size : ℕ
max_user_size = 16

-- The constructor of the struct; `unset` is what an array of columns holds when it is new. Without a
-- read buffer the fields of one have no meaning, and without a statement those of one.
abbrev pub new_connect : (ℕ → Column) → Connect
new_connect unset = record {
  port = 0;
  protocol = protocol_unknown;
  user = [];
  pass = [];
  con_schema = none;
  thread_id = 0;
  server_version = [];
  scramble_buffer = [];
  server_capabilities = 0;
  con_charset = 0;
  status = con_status_not_connected;
  errmsg = [];
  local_errcode = ret_ok;
  has_read_buffer = false;
  read_buffer = record {
    buffer = 0;
    buffer_size = 0;
    buffer_used = 0;
    buffer_write_ptr = 0;
    buffer_read_ptr = 0;
    packet_end_ptr = 0;
  };
  write_buffer = λ i. 0;
  write_buffer_extra = 0;
  packet_number = 0;
  packet_header = [];
  compression = false;
  no_verify = false;
  semi_block = false;
  client_capabilities = 0;
  packet_size = 0;
  affected_rows = 0;
  insert_id = 0;
  server_status = 0;
  warning_count = 0;
  server_errno = 0;
  server_message = [];
  sqlstate = [];
  result = new_result unset;
  command_status = command_status_eof;
  queue = record {
    next_packet_queue = λ i. packet_none;
    next_packet_queue_size = 0;
    next_packet_queue_used = 0;
    allocated = 0;
  };
  has_stmt = false;
  stmt = new_stmt unset;
  has_pool = false;
  has_callback = false;
  connection_id = 0;
  last_callback = event_none;
  query_buffer = [];
  query_buffer_alloc = false;
  query_buffer_statement = false;
  in_query = false;
  buffer_rows = false;
  row_buffer = λ i. [];
  row_buffer_alloc_size = 0;
  row_buffer_count = 0;
  row_buffer_position = 0;
  all_rows_buffered = false;
}

-- How `create` ends: with a connection, or without one; `destroyed` is the one that was made and is
-- handed to `attachsql_connect_destroy`, before any event loop was made for it.
pub data Created : Type 0 where
  created : Connect → Created
  refused : Option Error → Created
  destroyed : Connect → Option Error → Created

abbrev pub too_long : Option (List ℕ) → ℕ → Bool
too_long none size = true
too_long (some s) size = ltb size (length s)

abbrev pub bytes_of : Option (List ℕ) → List ℕ
bytes_of none = []
bytes_of (some s) = s

abbrev pub reject : Bool → Ret → Message → Connect → Option Error → Created
reject made r msg c error =
    destroyed (record c { local_errcode = r; status = con_status_parameter_error })
      (error_client_create made code_parameter state_parameter msg error)

-- `allocated` says whether `new` gives a struct; a string that is NULL is `none`.
unfoldable pub connect_create :
    Bool
    → Bool
    → (ℕ → Column)
    → ℕ
    → Option (List ℕ)
    → List ℕ
    → Option (List ℕ)
    → Option Error
    → Created
connect_create made false unset port user pass schema error =
    refused (error_client_create made code_alloc state_alloc alloc_connection error)
connect_create made true unset port user pass schema error =
    let c : Connect = record (new_connect unset) { port = port } in
    let named : Connect = record c { user = bytes_of user; pass = pass } in
    if too_long user max_user_size
    then reject made ret_user_too_long user_too_long c error
    else if too_long schema max_schema_size
    then reject made ret_schema_too_long schema_too_long named error
    else created (record named { con_schema = schema })

unfoldable pub connect_get_server_version : Option Connect → Option (List ℕ)
connect_get_server_version none = none
connect_get_server_version (some c) = some c.server_version

unfoldable pub connect_get_connection_id : Option Connect → ℕ
connect_get_connection_id none = 0
connect_get_connection_id (some c) = c.thread_id

unfoldable pub connection_last_insert_id : Option Connect → ℕ
connection_last_insert_id none = 0
connection_last_insert_id (some c) = c.insert_id

unfoldable pub query_affected_rows : Option Connect → ℕ
query_affected_rows none = 0
query_affected_rows (some c) = c.affected_rows

unfoldable pub query_info : Option Connect → Option (List ℕ)
query_info none = none
query_info (some c) = some c.server_message

unfoldable pub query_warning_count : Option Connect → ℕ
query_warning_count none = 0
query_warning_count (some c) = c.warning_count

-- Also `attachsql_statement_get_column_count`, which has the same body.
unfoldable pub query_column_count : Option Connect → ℕ
query_column_count none = 0
query_column_count (some c) = c.result.column_count

unfoldable pub statement_get_column_type : Option Connect → ℕ → ColumnType
statement_get_column_type none column = type_error
statement_get_column_type (some c) column =
    if leb c.result.column_count column
    then type_error
    else column_type_of (c.result.columns column).column_type

-- `none` is a packet loop without fuel.
unfoldable pub statement_row_next :
    Handshake → Platform → Mem → Option Connect → Option (Option Connect)
statement_row_next h e m none = some none
statement_row_next h e m (some c) = elim (connection_after (get_next_row h e m c)) [
  | none ↦ none
  | some c' ↦ some (some c')
]
