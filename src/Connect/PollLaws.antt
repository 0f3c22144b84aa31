-- ===== src/Connect/PollLaws.antt =====
-- Polling a connection whose next row is not there yet.
use libattachsql.Prelude.{
  ◌<◌, ◌≡◌, ap, ◌∙◌, arith, Bool, true, false, Option, some, ltb, Bool-cases, inl, inr,
  if◌then◌else◌,
}
use libattachsql.Prelude.Memory.{Mem}
use libattachsql.Buffer.Ops.{buffer_unread_data, buffer_packet_read_end}
use libattachsql.Net.Queue.{packet_row, packet_queue_push, packet_queue_peek}
use libattachsql.Net.QueueLaws.{Fresh, top, push_lem, pop_lem}
use libattachsql.Net.Connect.{Connect, con_status_idle, command_status_read_row, event_none}
use libattachsql.Net.Response.{Platform, push, packet_read_end}
use libattachsql.Net.Process.{
  Handshake, turn, after_turn, process_loop, process_expected, con_process_packets,
}
use libattachsql.Command.Send.{get_next_row, status_after}
use libattachsql.Connect.Errors.{Error}
use libattachsql.Connect.Callback.{do_poll}
use libattachsql.Connect.Poll.{Surroundings, asserts, poll_idle, poll_status, connect_poll}
use libattachsql.Query.Buffered.{query_row_next, connection_after}

-- The connection that waits for the row.
abbrev waits : Platform → Connect → Connect
waits e c = record (push e packet_row (packet_read_end c)) {
  command_status = command_status_read_row;
}

module _ (h : Handshake) (e : Platform) (m : Mem) where
  process_waits :
      (c : Connect)
      → c.compression ≡ false
      → c.has_read_buffer ≡ true
      → packet_queue_peek c.queue ≡ packet_row
      → buffer_unread_data c.read_buffer < 4
      → con_process_packets h e m c ≡ some (false, c)
  unfolding con_process_packets process_loop turn process_expected after_turn
  process_waits c z b t short =
      let less : ltb (buffer_unread_data c.read_buffer) 4 ≡ true = ground arith in
      rw (z, b, t, less)

  peek_waits :
      (c : Connect)
      → e.memory.malloc_done ≡ true
      → Fresh c.queue
      → c.queue.next_packet_queue_used < 64
      → packet_queue_peek (push e packet_row (packet_read_end c)).queue ≡ packet_row
  peek_waits c got v r =
      (pop_lem (packet_queue_push e.memory c.queue packet_row).1).2
      ∙ ap top (push_lem e.memory c.queue packet_row got v r).1

  row_waits :
      (c : Connect)
      → c.compression ≡ false
      → c.has_read_buffer ≡ true
      → e.memory.malloc_done ≡ true
      → Fresh c.queue
      → c.queue.next_packet_queue_used < 64
      → buffer_unread_data (buffer_packet_read_end c.read_buffer) < 4
      → get_next_row h e m c ≡ some (command_status_read_row, waits e c)
  unfolding get_next_row
  row_waits c z b got v r short =
      ap status_after (process_waits (waits e c) z b (peek_waits c got v r) short)

-- Where a row was read, so that the connection is idle without an error of the server, and less than
-- a header of the next packet has arrived, going on to the next row and polling ends at the
-- `assert(0)` of the poll, with or without a pool, as the connection still counts as idle. The rows
-- are not buffered, and the queue of expected packets has room and was never enlarged.
pub query_row_next-asserts :
    (h : Handshake) (e : Platform) (m : Mem) (s : Surroundings) (error : Option Error) (c : Connect)
    → c.buffer_rows ≡ false
    → c.status ≡ con_status_idle
    → c.server_errno ≡ 0
    → c.compression ≡ false
    → c.has_read_buffer ≡ true
    → e.memory.malloc_done ≡ true
    → Fresh c.queue
    → c.queue.next_packet_queue_used < 64
    → buffer_unread_data (buffer_packet_read_end c.read_buffer) < 4
    → (c' : Connect) × (query_row_next h e m c ≡ some c') × (connect_poll s error c' ≡ asserts c')
unfolding query_row_next connect_poll do_poll poll_status poll_idle
query_row_next-asserts h e m s error c rows idle ok z b got v r short =
    let c0 = record c { last_callback = event_none } in
    let w = waits e c0 in
    (
      w,
      ap (λ (b : Bool). if b then some c0 else connection_after (get_next_row h e m c0)) rows
          ∙ ap connection_after (row_waits h e m c0 z b got v r short),
      elim (Bool-cases c.has_pool) [ inl k ↦ rw (k, idle, ok) | inr k ↦ rw (k, idle, ok) ],
    )
