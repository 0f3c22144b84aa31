-- ===== src/Connect/Poll.antt =====
-- `attachsql_connect_poll` of src/connect.cc, and the query that waits for the connection.
use libattachsql.Prelude.{ℕ, true, not, Option, none, List, length, ◌==◌, ltb, if◌then◌else◌}
use libattachsql.Prelude.Memory.{Mem}
use libattachsql.Net.Connect.{
  Connect, ConStatus, CommandStatus, con_status_parameter_error, con_status_not_connected,
  con_status_connecting, con_status_connect_failed, con_status_busy, con_status_idle,
  con_status_ssl_error, con_status_net_error, command_status_eof, command_status_connected,
  command_status_row_in_buffer, command_status_send, command_status_send_failed,
  command_status_read_response, command_status_read_column, command_status_read_row,
  command_status_read_failed, command_status_read_stmt_param, command_status_read_stmt_column,
  command_status_read_stmt_row, event_error, event_eof, event_row_ready, event_connected,
}
use libattachsql.Net.Response.{Platform}
use libattachsql.Net.Process.{Handshake}
use libattachsql.Command.Send.{command_send, command_query}
use libattachsql.Connect.Errors.{
  Error, error_client_create, error_server_create, code_parameter, code_ssl, code_server_lost,
  code_server_gone, state_parameter, state_connection, state_lost, bad_parameter, of_errmsg,
}
use libattachsql.Connect.Callback.{World, send_callback, do_poll}
use libattachsql.Connect.Open.{Opening, Outcome, failure_of}
use libattachsql.Statement.Run.{Answers, statement_prepare, is_send_failed}
use libattachsql.Query.Buffered.{
  Return, return_not_connected, return_connecting, return_processing, return_row_ready,
  return_error, return_eof, RowAllocations, Buffering, buffering, out_of_fuel, query_row_buffer,
}

-- Everything that the poll takes from outside. `memory` is what the event loop leaves.
pub record Surroundings : Type 0 where
  pub world : World
  pub opening : Opening
  pub handshake : Handshake
  pub platform : Platform
  pub answers : Answers
  pub rows : RowAllocations
  pub memory : Mem

-- How the poll ends; `asserts` is the `assert(0)`, which ends the program unless NDEBUG is set.
pub data Polled : Type 0 where
  returns : Return → Connect → Option Error → Polled
  asserts : Connect → Polled
  polls_without_fuel : Polled

-- `attachsql_connect_query`: the query or statement that was kept until the connection is there.
unfoldable pub connect_query : Surroundings → Option Error → Connect → Outcome Return × List ℕ
connect_query s error c =
    let sent : Connect × List ℕ =
      (if c.query_buffer_statement
        then (let r =
              statement_prepare s.world s.opening s.platform s.answers c.query_buffer none c in
            (r.0.con, r.1))
        else (let r =
              command_send s.platform s.answers.write_failure c command_query c.query_buffer in
            (r.con, r.bytes))) in
    if is_send_failed sent.0.command_status
    then (
      record {
        result = return_error;
        con = sent.0;
        error =
            error_client_create s.world.made code_server_gone state_lost (of_errmsg sent.0.errmsg)
              error;
      },
      sent.1,
    )
    else (record { result = return_processing; con = sent.0; error = error }, sent.1)

abbrev pub polled : Outcome Return → Polled
polled r = returns r.result r.con r.error

abbrev pub poll_fails : World → Connect → Option Error → Polled
poll_fails w c error = returns return_error (send_callback w event_error error c) error

abbrev pub buffered : Buffering → Polled
buffered (buffering r c error) = returns r c error
buffered out_of_fuel = polls_without_fuel

-- An idle connection without an error of the server.
unfoldable pub poll_idle : Surroundings → Option Error → CommandStatus → Connect → Polled
poll_idle s error command_status_eof c =
    returns return_eof
      (record (send_callback s.world event_eof error c) {
        all_rows_buffered = true;
        command_status = command_status_eof;
      })
      error
poll_idle s error command_status_row_in_buffer c =
    if c.buffer_rows
    then buffered (query_row_buffer s.handshake s.platform s.memory s.world.made s.rows error c)
    else returns return_row_ready (send_callback s.world event_row_ready error c) error
poll_idle s error command_status_connected c =
    let c' = send_callback s.world event_connected error c in
    if ltb 0 (length c'.query_buffer)
    then polled (connect_query s error c').0
    else returns return_eof c' error
poll_idle s error command_status_send c = asserts c
poll_idle s error command_status_send_failed c = asserts c
poll_idle s error command_status_read_response c = asserts c
poll_idle s error command_status_read_column c = asserts c
poll_idle s error command_status_read_row c = asserts c
poll_idle s error command_status_read_failed c = asserts c
poll_idle s error command_status_read_stmt_param c = asserts c
poll_idle s error command_status_read_stmt_column c = asserts c
poll_idle s error command_status_read_stmt_row c = asserts c

-- The `switch` on the status.
unfoldable pub poll_status : Surroundings → Option Error → ConStatus → Connect → Polled
poll_status s error con_status_parameter_error c =
    poll_fails s.world c
      (error_client_create s.world.made code_parameter state_parameter bad_parameter error)
poll_status s error con_status_not_connected c = returns return_not_connected c error
poll_status s error con_status_connecting c = returns return_connecting c error
poll_status s error con_status_connect_failed c = poll_fails s.world c (failure_of s.world c error)
poll_status s error con_status_busy c = returns return_processing c error
poll_status s error con_status_ssl_error c =
    poll_fails s.world c
      (error_client_create s.world.made code_ssl state_connection (of_errmsg c.errmsg) error)
poll_status s error con_status_idle c =
    if not (c.server_errno == 0)
    then poll_fails s.world c (error_server_create s.world.made c error)
    else poll_idle s error c.command_status c
poll_status s error con_status_net_error c =
    poll_fails s.world c
      (error_client_create s.world.made code_server_lost state_lost (of_errmsg c.errmsg) error)

-- `attachsql_connect_poll`, for a connection that is not NULL.
unfoldable pub connect_poll : Surroundings → Option Error → Connect → Polled
connect_poll s error c =
    let c' = (if c.has_pool then c else do_poll s.world c) in poll_status s error c'.status c'
