-- ===== src/Connect/Callback.antt =====
-- The event callback and the event loop, as `attachsql_send_callback` and `attachsql_do_poll` of
-- src/connect.cc call them. Both are code of others: the callback is the program's, the loop is
-- libuv's and calls the connection's callbacks. What they make of the connection is an argument.
use libattachsql.Prelude.{ℕ, Bool, true, false, ◌&&◌, Option, if◌then◌else◌}
use libattachsql.Net.Connect.{
  Connect, ConStatus, Event, con_status_not_connected, con_status_connect_failed, con_status_idle,
  con_status_ssl_error, event_none, event_connected, event_error, event_eof, event_row_ready,
}
use libattachsql.Connect.Errors.{Error}

pub record World : Type 0 where
  pub callback_fn : ℕ → Event → Option Error → Connect → Connect
  pub run_loop : Connect → Connect
  pub made : Bool

unfoldable pub same_event : Event → Event → Bool
same_event event_none event_none = true
same_event event_connected event_connected = true
same_event event_error event_error = true
same_event event_eof event_eof = true
same_event event_row_ready event_row_ready = true
same_event _ _ = false

unfoldable pub send_callback : World → Event → Option Error → Connect → Connect
send_callback w event error c =
    if same_event event c.last_callback
    then c
    else if c.has_pool && c.has_callback
    then w.callback_fn c.connection_id event error (record c { last_callback = event })
    else c

-- `attachsql_run_uv_loop` of src/net.cc: with a pool, the pool runs the loop.
unfoldable pub run_uv_loop : World → Connect → Connect
run_uv_loop w c = if c.has_pool then c else w.run_loop c

abbrev pub is_at_rest : ConStatus → Bool
is_at_rest con_status_not_connected = true
is_at_rest con_status_connect_failed = true
is_at_rest con_status_idle = true
is_at_rest con_status_ssl_error = true
is_at_rest _ = false

unfoldable pub do_poll : World → Connect → Connect
do_poll w c = if is_at_rest c.status then c else run_uv_loop w c
