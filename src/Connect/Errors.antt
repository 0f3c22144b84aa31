-- ===== src/Connect/Errors.antt =====
-- src/error.cc: the errors that the client makes, and those that it passes on from the server.
use libattachsql.Prelude.{ℕ, ◌-◌, Bool, true, false, Option, none, some, List, [], ◌∷◌, take}
use libattachsql.Net.Connect.{Connect}
use libattachsql.Net.Response.{until_zero}

-- libattachsql2/constants.h
pub data ErrorCode : Type 0 where
  code_unknown code_connect : ErrorCode
  code_host_unknown code_server_gone : ErrorCode
  code_version_mismatch code_alloc : ErrorCode
  code_wrong_host_info code_handshake : ErrorCode
  code_server_lost code_out_of_sync : ErrorCode
  code_oversized_packet code_slave_status : ErrorCode
  code_slave_hosts code_slave_connect : ErrorCode
  code_master_connect code_ssl_connect : ErrorCode
  code_malformed_packet code_null_pointer : ErrorCode
  code_statement_not_prepared code_params_not_bound : ErrorCode
  code_data_truncated code_no_parameters_exist : ErrorCode
  code_invalid_parameter_number code_invalid_buffer_use : ErrorCode
  code_invalid_parameter_type code_unknown_protocol : ErrorCode
  code_invalid_con_handle code_no_data : ErrorCode
  code_no_metadata code_no_result_set : ErrorCode
  code_not_implemented code_server_lost_extended : ErrorCode
  code_new_stmt_metadata code_already_connected : ErrorCode
  code_auth_plugin_load code_connection_attr : ErrorCode
  code_auth_plugin code_parameter : ErrorCode
  code_buffered_mode code_no_ssl : ErrorCode
  code_ssl : ErrorCode

abbrev pub error_number : ErrorCode → ℕ
error_number code_unknown = 2000
error_number code_connect = 2002
error_number code_host_unknown = 2005
error_number code_server_gone = 2006
error_number code_version_mismatch = 2007
error_number code_alloc = 2008
error_number code_wrong_host_info = 2009
error_number code_handshake = 2012
error_number code_server_lost = 2013
error_number code_out_of_sync = 2014
error_number code_oversized_packet = 2020
error_number code_slave_status = 2022
error_number code_slave_hosts = 2023
error_number code_slave_connect = 2024
error_number code_master_connect = 2025
error_number code_ssl_connect = 2026
error_number code_malformed_packet = 2027
error_number code_null_pointer = 2029
error_number code_statement_not_prepared = 2030
error_number code_params_not_bound = 2031
error_number code_data_truncated = 2032
error_number code_no_parameters_exist = 2033
error_number code_invalid_parameter_number = 2034
error_number code_invalid_buffer_use = 2035
error_number code_invalid_parameter_type = 2036
error_number code_unknown_protocol = 2047
error_number code_invalid_con_handle = 2048
error_number code_no_data = 2051
error_number code_no_metadata = 2052
error_number code_no_result_set = 2053
error_number code_not_implemented = 2054
error_number code_server_lost_extended = 2055
error_number code_new_stmt_metadata = 2057
error_number code_already_connected = 2058
error_number code_auth_plugin_load = 2059
error_number code_connection_attr = 2060
error_number code_auth_plugin = 2061
error_number code_parameter = 3000
error_number code_buffered_mode = 3001
error_number code_no_ssl = 3002
error_number code_ssl = 3003

pub data ErrorLevel : Type 0 where
  level_notice level_warning level_error : ErrorLevel

-- The texts that the client's errors have: those of the source's literals, or `con->errmsg`, which
-- is passed as a format.
pub data Message : Type 0 where
  bad_parameter unknown_connection_failure unknown_error : Message
  invalid_connection invalid_param no_such_param no_statement no_statement_connection : Message
  alloc_statement alloc_row alloc_row_buffer bound_parameter already_in_query : Message
  alloc_pool alloc_pool_loop alloc_pool_connection alloc_connection : Message
  user_too_long schema_too_long : Message
  of_errmsg : List ℕ → Message
  of_server : List ℕ → Message

-- `attachsql_error_t`
pub record Error : Type 0 where
  pub code : ℕ
  pub msg : Message
  pub error_state : List ℕ
  pub level : ErrorLevel

-- What the caller's `error` points to afterwards. `made` says that `error` is not NULL and that
-- `new` answers a struct.
unfoldable pub error_client_create :
    Bool → ErrorCode → List ℕ → Message → Option Error → Option Error
error_client_create false code state msg error = error
error_client_create true code state msg error =
    some (record { code = error_number code; msg = msg; error_state = state; level = level_error })

-- ATTACHSQL_MESSAGE_SIZE
abbrev pub message_size : ℕ
message_size = 256

-- The level keeps what the constructor of the struct sets.
unfoldable pub error_server_create : Bool → Connect → Option Error → Option Error
error_server_create false c error = error
error_server_create true c error = some (record {
  code = c.server_errno;
  msg = of_server (until_zero (take (message_size - 1) c.server_message));
  error_state = take 5 c.sqlstate;
  level = level_notice;
})

abbrev pub state_parameter : List ℕ
state_parameter = b'2' ∷ b'2' ∷ b'0' ∷ b'2' ∷ b'3' ∷ []

abbrev pub state_connection : List ℕ
state_connection = b'0' ∷ b'8' ∷ b'0' ∷ b'0' ∷ b'0' ∷ []

abbrev pub state_lost : List ℕ
state_lost = b'0' ∷ b'8' ∷ b'0' ∷ b'0' ∷ b'6' ∷ []

abbrev pub state_in_use : List ℕ
state_in_use = b'0' ∷ b'8' ∷ b'0' ∷ b'0' ∷ b'2' ∷ []

abbrev pub state_alloc : List ℕ
state_alloc = b'8' ∷ b'2' ∷ b'1' ∷ b'0' ∷ b'0' ∷ []

unfoldable pub error_code : Option Error → ℕ
error_code none = 0
error_code (some e) = e.code

unfoldable pub error_message : Option Error → Option Message
error_message none = none
error_message (some e) = some e.msg

unfoldable pub error_sqlstate : Option Error → Option (List ℕ)
error_sqlstate none = none
error_sqlstate (some e) = some e.error_state
