-- ===== src/Statement/Commands.antt =====
-- The commands of a prepared statement: sending long data of src/statement_getset.cc, and fetching,
-- resetting and closing of src/statement.cc.
use libattachsql.Prelude.{ℕ, false, Option, none, some, List, [], ◌∷◌, ◌++◌, length, if◌then◌else◌}
use libattachsql.Prelude.Memory.{Mem, write}
use libattachsql.Pack.Ints.{byte}
use libattachsql.Net.Queue.{packet_stmt_row}
use libattachsql.Net.Connect.{Connect, CommandStatus, command_status_read_stmt_row}
use libattachsql.Net.Response.{Platform, push, packet_read_end}
use libattachsql.Net.Process.{Handshake, con_process_packets}
use libattachsql.Command.Send.{
  Command, Sent, command_send, command_free, status_after, command_stmt_send_long_data,
  command_stmt_close, command_stmt_reset,
}
use libattachsql.Connect.Handshake.{int4_bytes}
use libattachsql.Connect.Errors.{
  Error, error_client_create, code_server_gone, state_lost, invalid_connection, of_errmsg,
}
use libattachsql.Connect.Callback.{World}
use libattachsql.Statement.Types.{StmtParam, ParamData}
use libattachsql.Statement.Run.{Answers, StmtCall, called, with_statement, is_send_failed}

-- The write buffer with the bytes behind the command.
abbrev pub with_extra : List ℕ → Connect → Connect
with_extra bs c = record c {
  write_buffer = write c.write_buffer 1 bs;
  write_buffer_extra = length bs;
}

-- A command of a statement, and the error of one that could not be sent.
abbrev pub send_with :
    World → Platform → Answers → Option Error → Connect → Command → List ℕ → StmtCall Sent
send_with w e a error c command d =
    let s = command_send e a.write_failure c command d in
    called s (
      if is_send_failed s.outcome
      then error_client_create w.made code_server_gone state_lost (of_errmsg s.con.errmsg) error
      else error)

-- `attachsql_statement_send_long_data`
unfoldable pub statement_send_long_data :
    World → Platform → Answers → Option Error → Option Connect → ℕ → List ℕ → StmtCall Sent
statement_send_long_data w e a error con param d =
    with_statement w invalid_connection error con (λ c.
      send_with w e a error
        (with_extra (int4_bytes c.stmt.id ++ (byte param 0 ∷ byte param 8 ∷ [])) c)
        command_stmt_send_long_data d)

-- `attachsql_statement_reset`
unfoldable pub statement_reset :
    World → Platform → Answers → Option Error → Option Connect → StmtCall Sent
statement_reset w e a error con =
    with_statement w invalid_connection error con
      (λ c. send_with w e a error (with_extra (int4_bytes c.stmt.id) c) command_stmt_reset [])

-- `attachsql_stmt_fetch`; `none` is a packet loop without fuel.
unfoldable pub stmt_fetch : Handshake → Platform → Mem → Connect → Option (CommandStatus × Connect)
stmt_fetch h e m c = status_after (
    con_process_packets h e m (record (push e packet_stmt_row (packet_read_end c)) {
      command_status = command_status_read_stmt_row;
    }))

-- What is handed to `delete` as a pointer to a datetime.
abbrev pub deleted_dates : List StmtParam → List ParamData
deleted_dates [] = []
deleted_dates (q ∷ qs) =
    let rest = deleted_dates qs in if q.datetime_alloc then q.param_value ∷ rest else rest

-- `attachsql_statement_close`, for a connection that is not NULL: what is deleted as a datetime, and
-- the command, if there is a statement.
unfoldable pub statement_close : Platform → Answers → Connect → List ParamData × Option Sent
statement_close e a c =
    if c.has_stmt
    then (
      deleted_dates c.stmt.param_data,
      some (
          command_send e a.write_failure
            (command_free (with_extra (int4_bytes c.stmt.id) (record c { has_stmt = false })))
            command_stmt_close []),
    )
    else ([], none)
