-- ===== src/Net/Connect.antt =====
-- The connection of src/structs.h and the enumerations of src/constants.h it uses. A connection's `read_buffer` is only used where `has_read_buffer` says that
-- it is not NULL. A C string is its bytes without the terminating zero.
use libattachsql.Prelude.{Option, ℕ, Bool, true, false, List, []}
use libattachsql.Buffer.Ops.{Buffer, Ret}
use libattachsql.Net.Queue.{Queue}
use libattachsql.Statement.Types.{StmtParam}

pub data ConStatus : Type 0 where
  con_status_parameter_error con_status_not_connected con_status_connecting : ConStatus
  con_status_connect_failed con_status_busy con_status_idle : ConStatus
  con_status_ssl_error con_status_net_error : ConStatus

pub data CommandStatus : Type 0 where
  command_status_eof command_status_connected command_status_send : CommandStatus
  command_status_send_failed command_status_read_response : CommandStatus
  command_status_read_column command_status_read_row command_status_read_failed : CommandStatus
  command_status_row_in_buffer command_status_read_stmt_param : CommandStatus
  command_status_read_stmt_column command_status_read_stmt_row : CommandStatus

pub data StmtState : Type 0 where
  stmt_state_none stmt_state_prepared stmt_state_executed : StmtState

-- A `char` array holds the bytes up to the terminating zero.
pub record Column : Type 0 where
  pub schema : List ℕ
  pub table : List ℕ
  pub origin_table : List ℕ
  pub column : List ℕ
  pub origin_column : List ℕ
  pub charset : ℕ
  pub column_length : ℕ
  pub column_type : ℕ
  pub flags : ℕ
  pub decimals : ℕ
  pub default_value : List ℕ
  pub default_size : ℕ

-- `columns` is an array of `columns_allocated` entries, 0 where the pointer is NULL. The address
-- `row_data` is 0 for NULL.
pub record Result : Type 0 where
  pub column_count : ℕ
  pub columns : ℕ → Column
  pub columns_allocated : ℕ
  pub current_column : ℕ
  pub row_data : ℕ
  pub row_length : ℕ

pub record Stmt : Type 0 where
  pub id : ℕ
  pub stmt_column_count : ℕ
  pub stmt_current_column : ℕ
  pub param_count : ℕ
  pub params : ℕ → Column
  pub params_allocated : ℕ
  pub current_param : ℕ
  pub state : StmtState
  pub exec_buffer : ℕ
  pub exec_buffer_length : ℕ
  pub param_data : List StmtParam
  pub new_bind : Bool

-- libattachsql2/constants.h
pub data Event : Type 0 where
  event_none event_connected event_error event_eof event_row_ready : Event

pub data Protocol : Type 0 where
  protocol_unknown protocol_uds protocol_tcp : Protocol

-- `attachsql_query_row_st`; `address` is its field `data`.
pub record Cell : Type 0 where
  pub address : ℕ
  pub cell_length : ℕ

-- `pool` is not NULL where `has_pool` holds, and has a callback where `has_callback` does; `stmt` is
-- only used where `has_stmt` holds. `query_buffer` is what that pointer points to, as many bytes as
-- `query_buffer_length` says.
pub record Connect : Type 0 where
  pub port : ℕ
  pub protocol : Protocol
  pub user : List ℕ
  pub pass : List ℕ
  pub con_schema : Option (List ℕ)
  pub thread_id : ℕ
  pub server_version : List ℕ
  pub scramble_buffer : List ℕ
  pub server_capabilities : ℕ
  pub con_charset : ℕ
  pub status : ConStatus
  pub errmsg : List ℕ
  pub local_errcode : Ret
  pub has_read_buffer : Bool
  pub read_buffer : Buffer
  pub write_buffer : ℕ → ℕ
  pub write_buffer_extra : ℕ
  pub packet_number : ℕ
  pub packet_header : List ℕ
  pub compression : Bool
  pub no_verify : Bool
  pub semi_block : Bool
  pub client_capabilities : ℕ
  pub packet_size : ℕ
  pub affected_rows : ℕ
  pub insert_id : ℕ
  pub server_status : ℕ
  pub warning_count : ℕ
  pub server_errno : ℕ
  pub server_message : List ℕ
  pub sqlstate : List ℕ
  pub result : Result
  pub command_status : CommandStatus
  pub queue : Queue
  pub has_stmt : Bool
  pub stmt : Stmt
  pub has_pool : Bool
  pub has_callback : Bool
  pub connection_id : ℕ
  pub last_callback : Event
  pub query_buffer : List ℕ
  pub query_buffer_alloc : Bool
  pub query_buffer_statement : Bool
  pub in_query : Bool
  pub buffer_rows : Bool
  pub row_buffer : ℕ → List Cell
  pub row_buffer_alloc_size : ℕ
  pub row_buffer_count : ℕ
  pub row_buffer_position : ℕ
  pub all_rows_buffered : Bool

abbrev pub max_schema_size : ℕ
max_schema_size = 64

abbrev pub max_table_size : ℕ
max_table_size = 64

abbrev pub max_column_size : ℕ
max_column_size = 64

abbrev pub max_default_value_size : ℕ
max_default_value_size = 2048

abbrev pub max_message_len : ℕ
max_message_len = 2048

abbrev pub is_connecting : ConStatus → Bool
is_connecting con_status_connecting = true
is_connecting _ = false

abbrev pub is_read_response : CommandStatus → Bool
is_read_response command_status_read_response = true
is_read_response _ = false

abbrev pub is_read_column : CommandStatus → Bool
is_read_column command_status_read_column = true
is_read_column _ = false

abbrev pub is_read_stmt_param : CommandStatus → Bool
is_read_stmt_param command_status_read_stmt_param = true
is_read_stmt_param _ = false

-- The constructor of the struct, with the statement that `attachsql_stmt_st` constructs.
abbrev pub new_stmt : (ℕ → Column) → Stmt
new_stmt unset = record {
  id = 0;
  stmt_column_count = 0;
  stmt_current_column = 0;
  param_count = 0;
  params = unset;
  params_allocated = 0;
  current_param = 0;
  state = stmt_state_none;
  exec_buffer = 0;
  exec_buffer_length = 0;
  param_data = [];
  new_bind = true;
}

abbrev pub new_result : (ℕ → Column) → Result
new_result unset = record {
  column_count = 0;
  columns = unset;
  columns_allocated = 0;
  current_column = 0;
  row_data = 0;
  row_length = 0;
}
