-- ===== src/Statement/Run.antt =====
-- src/statement.cc: preparing and executing a statement.
use libattachsql.Prelude.{ℕ, Bool, true, false, not, Option, none, some, List, [], if◌then◌else◌}
use libattachsql.Prelude.Memory.{Mem, read}
use libattachsql.Buffer.Ops.{Ret, ret_out_of_memory_error, ret_bad_stmt_parameter}
use libattachsql.Net.Connect.{
  Connect, CommandStatus, Column, new_stmt, command_status_send, command_status_send_failed,
}
use libattachsql.Net.Response.{Platform}
use libattachsql.Command.Send.{
  command_send, command_free, command_stmt_prepare, command_stmt_execute,
}
use libattachsql.Connect.Errors.{
  Error, Message, error_client_create, code_parameter, code_alloc, state_parameter, state_alloc,
  no_statement, invalid_connection, alloc_statement, bound_parameter,
}
use libattachsql.Connect.Callback.{World}
use libattachsql.Connect.Open.{Opening, Outcome, is_not_connected, connect}
use libattachsql.Statement.Pack.{
  Exec, Realloc, Packed, packed, bad_type, no_memory, other_member, pack_execute,
}

-- What `uv_write` and the allocations answer, besides the outside of the poll: `unset` is what an
-- array of columns holds when it is new.
pub record Answers : Type 0 where
  pub write_failure : Option (List ℕ)
  pub realloc : Realloc
  pub stmt_made : Bool
  pub unset : ℕ → Column

abbrev pub is_send_failed : CommandStatus → Bool
is_send_failed command_status_send_failed = true
is_send_failed _ = false

abbrev pub is_send : CommandStatus → Bool
is_send command_status_send = true
is_send _ = false

-- `attachsql_statement_prepare`. The result, and the bytes that are handed to `uv_write`.
unfoldable pub statement_prepare :
    World → Opening → Platform → Answers → List ℕ → Option Error → Connect → Outcome Bool × List ℕ
statement_prepare w o e a text error c =
    if is_not_connected c.status
    then (
      connect w o error (record c {
        query_buffer = text;
        query_buffer_alloc = false;
        query_buffer_statement = true;
      }),
      [],
    )
    else if not a.stmt_made
    then (
      record {
        result = false;
        con = record c {
          has_stmt = false;
          local_errcode = ret_out_of_memory_error;
          command_status = command_status_send_failed;
        };
        error = error_client_create w.made code_alloc state_alloc alloc_statement error;
      },
      [],
    )
    else let s =
        command_send e a.write_failure (record c { has_stmt = true; stmt = new_stmt a.unset })
          command_stmt_prepare text in
      (record { result = true; con = s.con; error = error }, s.bytes)

-- The connection with the buffer that the packing leaves.
abbrev pub with_exec : Connect → Exec → Connect
with_exec c x = record c {
  stmt = record c.stmt { exec_buffer = x.exec_buffer; exec_buffer_length = x.exec_buffer_length };
}

abbrev pub pack_failed : Ret → Connect → Connect
pack_failed r c = record c {
  local_errcode = r;
  command_status = command_status_send_failed;
  queue = record c.queue { next_packet_queue_used = 0 };
}

-- `attachsql_stmt_execute`: what it returns, the memory and the connection after it, and the bytes
-- that are handed to `uv_write`. `none` is a union read by another member.
pub record Executed : Type 0 where
  pub done : Bool
  pub memory : Mem
  pub con : Connect
  pub bytes : List ℕ

unfoldable pub after_packing : Platform → Answers → Connect → Packed → Option Executed
after_packing e a c (packed x used) =
    let s =
      command_send e a.write_failure (with_exec c x) command_stmt_execute
        (read x.memory x.exec_buffer used) in
    some (record { done = is_send s.outcome; memory = x.memory; con = s.con; bytes = s.bytes })
after_packing e a c (bad_type x) = some (record {
  done = false;
  memory = x.memory;
  con = pack_failed ret_bad_stmt_parameter (with_exec c x);
  bytes = [];
})
after_packing e a c (no_memory x) = some (record {
  done = false;
  memory = x.memory;
  con = pack_failed ret_out_of_memory_error (with_exec c x);
  bytes = [];
})
after_packing e a c other_member = none

unfoldable pub stmt_execute : Platform → Answers → Mem → Connect → Option Executed
stmt_execute e a m c = after_packing e a c (
    pack_execute a.realloc c.stmt.id c.stmt.new_bind c.stmt.param_data (record {
      memory = m;
      exec_buffer = c.stmt.exec_buffer;
      exec_buffer_length = c.stmt.exec_buffer_length;
    }))

abbrev pub is_bad_parameter : Ret → Bool
is_bad_parameter ret_bad_stmt_parameter = true
is_bad_parameter _ = false

-- The error of an execution that failed.
unfoldable pub execute_error : World → Executed → Option Error → Option Error
execute_error w r error =
    if r.done
    then error
    else if is_bad_parameter r.con.local_errcode
    then error_client_create w.made code_parameter state_parameter bound_parameter error
    else error_client_create w.made code_alloc state_alloc alloc_statement error

-- What a function of a statement returns: false with an error, or what it did.
pub data StmtCall {ℓ} (A : Type ℓ) : Type ℓ where
  not_called : Option Error → StmtCall A
  called : A → Option Error → StmtCall A
  other_member_read : StmtCall A

abbrev pub executed : World → Option Error → Option Executed → StmtCall Executed
executed w error none = other_member_read
executed w error (some r) = called r (execute_error w r error)

-- The guards that the functions of a statement share.
unfoldable pub with_statement {ℓ} :
    {A : Type ℓ}
    → World
    → Message
    → Option Error
    → Option Connect
    → (Connect → StmtCall A)
    → StmtCall A
with_statement w msg error none rest =
    not_called (error_client_create w.made code_parameter state_parameter msg error)
with_statement w msg error (some c) rest =
    if c.has_stmt
    then rest c
    else not_called (error_client_create w.made code_parameter state_parameter no_statement error)

-- `attachsql_statement_execute`
unfoldable pub statement_execute :
    World → Platform → Answers → Mem → Option Error → Option Connect → StmtCall Executed
statement_execute w e a m error con =
    with_statement w invalid_connection error con
      (λ c. executed w error (stmt_execute e a m (command_free c)))
