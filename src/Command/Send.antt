-- ===== src/Command/Send.antt =====
-- The functions of src/command.cc as built without zlib and OpenSSL. What `uv_write` answers is an
-- argument.
use libattachsql.Prelude.{
  ℕ, ◌+◌, ◌^◌, Bool, true, false, not, Option, none, some, List, [], ◌∷◌, ◌++◌, ◌==◌, length,
  if◌then◌else◌, bit_and,
}
use libattachsql.Prelude.Memory.{Mem, read}
use libattachsql.Buffer.Ops.{ret_ok, ret_net_write_error}
use libattachsql.Pack.Ints.{byte}
use libattachsql.Net.Queue.{packet_response, packet_prepare_response, packet_row}
use libattachsql.Net.Connect.{
  CommandStatus, Connect, con_status_busy, command_status_send, command_status_send_failed,
  command_status_read_response, command_status_read_row,
}
use libattachsql.Net.Response.{Platform, push, packet_read_end}
use libattachsql.Net.Process.{Handshake, con_process_packets}

-- src/constants.h
pub data Command : Type 0 where
  command_sleep command_quit command_initdb command_query command_field_list : Command
  command_create_db command_drop_db command_refresh command_shutdown : Command
  command_statistics command_process_info command_connect command_process_kill : Command
  command_debug command_ping command_time command_delayed_insert : Command
  command_change_user command_binlog_dump command_table_dump command_connect_out : Command
  command_register_slave command_stmt_prepare command_stmt_execute : Command
  command_stmt_send_long_data command_stmt_close command_stmt_reset : Command
  command_set_option command_stmt_fetch command_daemon command_binlog_dump_gtid : Command
  command_reset_connection : Command

abbrev pub command_code : Command → ℕ
command_code command_sleep = 0x00
command_code command_quit = 0x01
command_code command_initdb = 0x02
command_code command_query = 0x03
command_code command_field_list = 0x04
command_code command_create_db = 0x05
command_code command_drop_db = 0x06
command_code command_refresh = 0x07
command_code command_shutdown = 0x08
command_code command_statistics = 0x09
command_code command_process_info = 0x0a
command_code command_connect = 0x0b
command_code command_process_kill = 0x0c
command_code command_debug = 0x0d
command_code command_ping = 0x0e
command_code command_time = 0x0f
command_code command_delayed_insert = 0x10
command_code command_change_user = 0x11
command_code command_binlog_dump = 0x12
command_code command_table_dump = 0x13
command_code command_connect_out = 0x14
command_code command_register_slave = 0x15
command_code command_stmt_prepare = 0x16
command_code command_stmt_execute = 0x17
command_code command_stmt_send_long_data = 0x18
command_code command_stmt_close = 0x19
command_code command_stmt_reset = 0x1a
command_code command_set_option = 0x1b
command_code command_stmt_fetch = 0x1c
command_code command_daemon = 0x1d
command_code command_binlog_dump_gtid = 0x1e
command_code command_reset_connection = 0x1f

-- The internals that a command and the next result reset.
abbrev pub reset : Connect → Connect
reset c = record c {
  result = record c.result { current_column = 0 };
  affected_rows = 0;
  insert_id = 0;
  server_status = 0;
  warning_count = 0;
  server_errno = 0;
}

-- `attachsql_pack_int3` into the packet header, and the packet's number.
unfoldable pub packet_header_of : ℕ → List ℕ
packet_header_of n = byte n 0 ∷ byte n 8 ∷ byte n 16 ∷ 0 ∷ []

-- The packet type that a command's answer begins with.
unfoldable pub expect : Platform → Command → Connect → Connect
expect e command_stmt_prepare c = push e packet_prepare_response c
expect e command_stmt_reset c = c
expect e command_stmt_close c = c
expect e _ c = push e packet_response c

-- What `command_send` returns, the connection after it, and the bytes it hands to `uv_write`.
pub record Sent : Type 0 where
  pub outcome : CommandStatus
  pub con : Connect
  pub bytes : List ℕ

-- The connection up to the call of `uv_write`.
abbrev pub sending : Connect → Command → ℕ → Connect
sending c command len = record (reset c) {
  local_errcode = ret_ok;
  errmsg = [];
  packet_header = packet_header_of (len + 1 + c.write_buffer_extra);
  packet_number = 0;
  write_buffer = (λ i. if i == 0 then command_code command else c.write_buffer i);
  write_buffer_extra = 0;
}

-- `failure` is the text of the error that `uv_write` answers, if it does.
unfoldable pub command_send : Platform → Option (List ℕ) → Connect → Command → List ℕ → Sent
command_send e (some failure) c command d =
    let c' = sending c command (length d) in
    record {
      outcome = command_status_send_failed;
      con = record c' {
        local_errcode = ret_net_write_error;
        command_status = command_status_send_failed;
        queue = record c'.queue { next_packet_queue_used = 0 };
        errmsg = failure;
      };
      bytes = c'.packet_header ++ read c'.write_buffer 0 (1 + c.write_buffer_extra) ++ d;
    }
command_send e none c command d =
    let c' = sending c command (length d) in
    record {
      outcome = command_status_send;
      con = record (expect e command c') {
        command_status = command_status_send;
        status = con_status_busy;
      };
      bytes = c'.packet_header ++ read c'.write_buffer 0 (1 + c.write_buffer_extra) ++ d;
    }

-- The command's status after the packet loop.
abbrev pub status_after : Option (Bool × Connect) → Option (CommandStatus × Connect)
status_after none = none
status_after (some (r, c)) = some (c.command_status, c)

-- `none` is a packet loop without fuel.
unfoldable pub get_next_row :
    Handshake → Platform → Mem → Connect → Option (CommandStatus × Connect)
get_next_row h e m c = status_after (
    con_process_packets h e m
      (record (push e packet_row (packet_read_end c)) { command_status = command_status_read_row }))

abbrev pub has_more_results : ℕ → Bool
has_more_results server_status = not (bit_and server_status (2 ^ 3) == 0)

unfoldable pub command_next_result : Platform → Connect → Bool × Connect
command_next_result e c =
    if has_more_results c.server_status
    then (
      true,
      record (push e packet_response (reset c)) {
        command_status = command_status_read_response;
        status = con_status_busy;
      },
    )
    else (false, c)

-- The columns are deleted.
abbrev pub command_free : Connect → Connect
command_free c = record c { result = record c.result { columns_allocated = 0 } }
