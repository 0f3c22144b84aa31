-- ===== src/Net/Settles.antt =====
-- After the handler of a packet the connection is at rest, or a further packet is expected.
use libattachsql.Prelude.{◌<◌, ◌≡◌, ◌≢◌, inl, inr, refl, true, ltb, ◌==◌, ◌∷◌, Bool-cases}
use libattachsql.Prelude.Memory.{Mem}
use libattachsql.Net.Queue.{
  PacketType, Queue, packet_none, packet_handshake, packet_handshake_ssl, packet_response,
  packet_prepare_response, packet_prepare_parameter, packet_prepare_column, packet_column,
  packet_row, packet_stmt_row,
}
use libattachsql.Net.QueueLaws.{to_stack, Fresh, push_lem}
use libattachsql.Net.Connect.{
  Connect, con_status_idle, con_status_connect_failed, is_read_response, is_read_column,
  is_read_stmt_param,
}
use libattachsql.Net.Response.{
  Platform, push, read_ok, read_error, read_eof, read_result, packet_read_response, packet_read_row,
}
use libattachsql.Net.Columns.{
  packet_read_prepare_response, packet_read_prepare_parameter, packet_read_prepare_column,
  packet_read_column, prepare_next, prepared,
}
use libattachsql.Net.Process.{Handshake, Turn, stops, goes_on, handle}
use libattachsql.Net.Turns.{IsOwn}

-- The queue `q` is that of `c`, with what is expected next on top, or `c` is idle or failed.
pub data Settled (q : Queue) (c : Connect) : Type 0 where
  idle : c.status ≡ con_status_idle → Settled q c
  failed : c.status ≡ con_status_connect_failed → Settled q c
  expecting : (t : PacketType) → to_stack c.queue ≡ t ∷ to_stack q → Settled q c

module _ (e : Platform) (got : e.memory.malloc_done ≡ true) (m : Mem) where
  -- A queue with room for one more entry.
  abbrev Room : Connect → Type 0
  Room c = Fresh c.queue × (c.queue.next_packet_queue_used < 64)

  pushed :
      (c : Connect) (t : PacketType) → Room c → to_stack (push e t c).queue ≡ t ∷ to_stack c.queue
  pushed c t (v, r) = (push_lem e.memory c.queue t got v r).1

  ok_settles : (c : Connect) → Settled c.queue (read_ok e m c)
  unfolding read_ok
  ok_settles c = idle refl

  error_settles : (c : Connect) → Settled c.queue (read_error m c)
  unfolding read_error
  error_settles c = elim (Bool-cases (is_read_response c.command_status)) [
    | inl h ↦ failed (rw h)
    | inr h ↦ idle (rw h)
  ]

  eof_settles : (c : Connect) → Room c → Settled c.queue (read_eof e m c)
  unfolding read_eof
  eof_settles c r = elim (Bool-cases (is_read_column c.command_status)) [
    | inl h ↦ rw h (expecting packet_row (pushed c packet_row r))
    | inr h ↦ elim (Bool-cases (is_read_stmt_param c.command_status)) [
      | inl k ↦ elim (Bool-cases (ltb 0 c.stmt.stmt_column_count)) [
        | inl l ↦ rw (h, k, l) (expecting packet_prepare_column (pushed c packet_prepare_column r))
        | inr l ↦ rw (h, k, l) (idle refl)
      ]
      | inr k ↦ rw (h, k) (idle refl)
    ]
  ]

  result_settles : (c : Connect) → Room c → Settled c.queue (read_result e m c)
  unfolding read_result
  result_settles c r = expecting packet_column (pushed c packet_column r)

  response_settles : (c : Connect) → Room c → Settled c.queue (packet_read_response e m c)
  unfolding packet_read_response
  response_settles c r =
      let first = m c.read_buffer.buffer_read_ptr in
      elim (Bool-cases (first == 0x00)) [
        | inl h ↦ rw h (ok_settles c)
        | inr h ↦ elim (Bool-cases (first == 0xff)) [
          | inl k ↦ rw (h, k) (error_settles c)
          | inr k ↦ elim (Bool-cases (first == 0xfe)) [
            | inl l ↦ rw (h, k, l) (eof_settles c r)
            | inr l ↦ rw (h, k, l) (result_settles c r)
          ]
        ]
      ]

  row_settles : (c : Connect) → Room c → Settled c.queue (packet_read_row e m c)
  unfolding packet_read_row
  row_settles c r = elim (Bool-cases (m c.read_buffer.buffer_read_ptr == 0xfe)) [
    | inl h ↦ rw h (response_settles _ r)
    | inr h ↦ rw h (idle refl)
  ]

  column_settles : (c : Connect) → Room c → Settled c.queue (packet_read_column e m c)
  unfolding packet_read_column
  column_settles c r = expecting _ (pushed c _ r)

  prepare_parameter_settles :
      (c : Connect) → Room c → Settled c.queue (packet_read_prepare_parameter e m c)
  unfolding packet_read_prepare_parameter
  prepare_parameter_settles c r = expecting _ (pushed c _ r)

  prepare_column_settles : (c : Connect) → Room c → Settled c.queue (packet_read_prepare_column e c)
  unfolding packet_read_prepare_column
  prepare_column_settles c r = expecting _ (pushed c _ r)

  next_settles : (c : Connect) → Room c → Settled c.queue (prepare_next e c)
  unfolding prepare_next
  next_settles c r = elim (Bool-cases (ltb 0 c.stmt.param_count)) [
    | inl h ↦ rw h (expecting packet_prepare_parameter (pushed c packet_prepare_parameter r))
    | inr h ↦ elim (Bool-cases (ltb 0 c.stmt.stmt_column_count)) [
      | inl k ↦ rw (h, k) (expecting packet_prepare_column (pushed c packet_prepare_column r))
      | inr k ↦ rw (h, k) (idle refl)
    ]
  ]

  -- Only the status and the queue matter.
  Settled-ext :
      (q : Queue) (c c' : Connect)
      → c'.status ≡ c.status
      → c'.queue ≡ c.queue
      → Settled q c
      → Settled q c'
  Settled-ext q c c' s k (idle h) = idle (rw s h)
  Settled-ext q c c' s k (failed h) = failed (rw s h)
  Settled-ext q c c' s k (expecting t h) = expecting t (rw k h)

  prepare_response_settles :
      (c : Connect) → Room c → Settled c.queue (packet_read_prepare_response e m c)
  unfolding packet_read_prepare_response
  prepare_response_settles c r = elim (Bool-cases (m c.read_buffer.buffer_read_ptr == 0x00)) [
    | inl h ↦ rw h (
        Settled-ext c.queue (prepare_next e (prepared e m c)) _ refl refl
          (next_settles (prepared e m c) r))
    | inr h ↦ rw h (response_settles c r)
  ]

abbrev pub After : (Connect → Type 0) → Turn → Type 0
After P (stops r c) = P c
After P (goes_on c) = P c

-- Where the queue was never enlarged and has room for one more entry, and its first allocation is
-- made, the handler of a packet of any type but NONE and those of the handshake, whatever the
-- packet holds, leaves the connection idle or failed, or a packet is expected on top of what was
-- expected: a connection that is waiting is waiting for something.
pub handle-Settled :
    (h : Handshake) (e : Platform) (m : Mem) (t : PacketType) (c : Connect)
    → (t ≢ packet_none) × IsOwn t
    → e.memory.malloc_done ≡ true
    → Fresh c.queue
    → c.queue.next_packet_queue_used < 64
    → After (Settled c.queue) (handle h e m t c)
unfolding handle
handle-Settled h e m packet_none c n got v r = absurd (n.0 refl)
handle-Settled h e m packet_handshake c n got v r = absurd (n.1.0 refl)
handle-Settled h e m packet_handshake_ssl c n got v r = absurd (n.1.1 refl)
handle-Settled h e m packet_response c n got v r = response_settles e got m c (v, r)
handle-Settled h e m packet_prepare_response c n got v r = prepare_response_settles e got m c (v, r)
handle-Settled h e m packet_prepare_parameter c n got v r =
    prepare_parameter_settles e got m c (v, r)
handle-Settled h e m packet_prepare_column c n got v r = prepare_column_settles e got m c (v, r)
handle-Settled h e m packet_column c n got v r = column_settles e got m c (v, r)
handle-Settled h e m packet_row c n got v r = row_settles e got m c (v, r)
handle-Settled h e m packet_stmt_row c n got v r = row_settles e got m c (v, r)
