-- ===== src/Query/Run.antt =====
-- `attachsql_query` of src/query.cc: a query is sent at once, or kept until the connection is there.
use libattachsql.Prelude.{
  ℕ, Bool, true, false, Option, none, some, List, [], length, ◌==◌, if◌then◌else◌,
}
use libattachsql.Prelude.Memory.{Mem}
use libattachsql.Net.Connect.{Connect}
use libattachsql.Net.Response.{Platform}
use libattachsql.Command.Send.{command_send, command_query}
use libattachsql.Connect.Errors.{
  Error, error_client_create, code_out_of_sync, code_server_gone, state_in_use, state_lost,
  already_in_query, of_errmsg,
}
use libattachsql.Connect.Callback.{World}
use libattachsql.Connect.Open.{Opening, Outcome, is_not_connected, connect}
use libattachsql.Statement.Run.{Answers, is_send_failed}
use libattachsql.Query.Build.{Parameter, FloatText, query_text}

-- The end of the function, for the text that is sent: the result, and the bytes that are handed to
-- `uv_write`. `alloc` says whether the text is the connection's own.
unfoldable pub send_text :
    World
    → Opening
    → Platform
    → Answers
    → Option Error
    → Bool
    → List ℕ
    → Connect
    → Outcome Bool × List ℕ
send_text w o e a error alloc text c =
    let kept : Connect = record c {
      query_buffer = text;
      query_buffer_alloc = alloc;
      query_buffer_statement = false;
    } in
    if is_not_connected c.status
    then (connect w o error kept, [])
    else let s = command_send e a.write_failure (if alloc then kept else c) command_query text in
      (
        (if is_send_failed s.outcome
            then record {
              result = false;
              con = s.con;
              error =
                  error_client_create w.made code_server_gone state_lost (of_errmsg s.con.errmsg)
                    error;
            }
            else record { result = true; con = s.con; error = error }),
        s.bytes,
      )

-- `none` is a parameter beyond those that were given.
abbrev pub sent_text :
    Option (List ℕ) → (List ℕ → Outcome Bool × List ℕ) → Option (Outcome Bool × List ℕ)
sent_text none send = none
sent_text (some text) send = some (send text)

-- `attachsql_query`, for a connection that is not NULL and an allocation that answers.
unfoldable pub query :
    World
    → Opening
    → Platform
    → Answers
    → FloatText
    → Mem
    → Option Error
    → List ℕ
    → List Parameter
    → Connect
    → Option (Outcome Bool × List ℕ)
query w o e a f m error statement parameters c =
    if c.in_query
    then some (
      record {
        result = false;
        con = c;
        error = error_client_create w.made code_out_of_sync state_in_use already_in_query error;
      },
      [],
    )
    else let c' : Connect = record c { in_query = true } in
      if length parameters == 0
      then some (send_text w o e a error false statement c')
      else sent_text (query_text f c.server_status m statement parameters)
          (λ text. send_text w o e a error true text c')
