-- ===== src/Net/Turns.antt =====
-- A turn of the packet loop of src/net.cc that goes on takes its packet from the buffer.
use libattachsql.Prelude.{ℕ, ◌+◌, ◌≤◌, ◌≡◌, ◌≢◌, inl, inr, refl, sym, ltb, Bool-cases, arith}
use libattachsql.Prelude.Bits.{u32}
use libattachsql.Prelude.Memory.{Mem}
use libattachsql.Buffer.Ops.{Buffer, buffer_packet_read_end, buffer_unread_data}
use libattachsql.Buffer.Room.{IsValid, unread_lem}
use libattachsql.Pack.Ints.{unpack_int3}
use libattachsql.Pack.IntLaws.{unpack_int3_lem}
use libattachsql.Net.Queue.{
  PacketType, packet_none, packet_handshake, packet_handshake_ssl, packet_response,
  packet_prepare_response, packet_prepare_parameter, packet_prepare_column, packet_column,
  packet_row, packet_stmt_row,
}
use libattachsql.Net.Connect.{Connect}
use libattachsql.Net.Response.{Platform}
use libattachsql.Net.Ends.{
  response_ends, column_ends, prepare_parameter_ends, prepare_column_ends, prepare_response_ends,
}
use libattachsql.Net.Process.{
  Handshake, Turn, stops, goes_on, handle, process_packet, process_expected, turn, is_char, counted,
}
use libattachsql.Net.Taken.{unread, IsTaken, packet-IsTaken}
use libattachsql.Net.ProcessLaws.{IsBytes}
use mathlib.Core.Path.{subst}

-- `b'` has the bytes of `b` behind the packet of `len` bytes, where the turn goes on.
data Exact (m : Mem) (b : Buffer) (len : ℕ) : Turn → Type 0 where
  stopped : {r : _} {c : Connect} → Exact m b len (stops r c)
  taken : {c : Connect} → IsTaken m b (4 + len) c.read_buffer → Exact m b len (goes_on c)

-- The expected types whose handlers stand in the source file of the loop.
abbrev pub IsOwn : PacketType → Type 0
IsOwn t = (t ≢ packet_handshake) × (t ≢ packet_handshake_ssl)

module _ (h : Handshake) (e : Platform) (m : Mem) where
  handle-Exact :
      (t : PacketType) (b : Buffer) (len : ℕ) (c : Connect)
      → IsOwn t
      → IsTaken m b (4 + len) (buffer_packet_read_end c.read_buffer)
      → Exact m b len (handle h e m t c)
  unfolding handle
  handle-Exact packet_none b len c n w = stopped
  handle-Exact packet_handshake b len c n w = absurd (n.0 refl)
  handle-Exact packet_handshake_ssl b len c n w = absurd (n.1 refl)
  handle-Exact packet_response b len c n w =
      taken (subst (IsTaken m b (4 + len)) (sym (response_ends e m c)) w)
  handle-Exact packet_prepare_response b len c n w =
      taken (subst (IsTaken m b (4 + len)) (sym (prepare_response_ends e m c)) w)
  handle-Exact packet_prepare_parameter b len c n w =
      taken (subst (IsTaken m b (4 + len)) (sym (prepare_parameter_ends e m c)) w)
  handle-Exact packet_prepare_column b len c n w =
      taken (subst (IsTaken m b (4 + len)) (sym (prepare_column_ends e c)) w)
  handle-Exact packet_column b len c n w =
      taken (subst (IsTaken m b (4 + len)) (sym (column_ends e m c)) w)
  handle-Exact packet_row b len c n w = stopped
  handle-Exact packet_stmt_row b len c n w = stopped

  packet-Exact :
      (t : PacketType) (c : Connect)
      → IsOwn t
      → IsValid c.read_buffer
      → unpack_int3 m c.read_buffer.buffer_read_ptr + 4 ≤ unread c.read_buffer
      → Exact m c.read_buffer
          (unpack_int3 m c.read_buffer.buffer_read_ptr)
          (process_packet h e m t c)
  unfolding process_packet
  packet-Exact t c n v k =
      let len = unpack_int3 m c.read_buffer.buffer_read_ptr in
      elim (Bool-cases
        (is_char e.plain (counted t c.packet_number) (m (c.read_buffer.buffer_read_ptr + 3)))) [
          | inl i ↦
              rw i (handle-Exact t c.read_buffer len _ n (packet-IsTaken m c.read_buffer len v k))
          | inr i ↦ rw i stopped
        ]

  expected-Exact :
      (t : PacketType) (c : Connect)
      → IsOwn t
      → IsBytes m
      → IsValid c.read_buffer
      → Exact m c.read_buffer
          (unpack_int3 m c.read_buffer.buffer_read_ptr)
          (process_expected h e m t c)
  unfolding process_expected
  expected-Exact t c n byte v =
      let p = c.read_buffer.buffer_read_ptr in
      let size = buffer_unread_data c.read_buffer in
      let len = unpack_int3_lem m p (byte p) (byte (p + 1)) (byte (p + 2)) in
      elim (Bool-cases (ltb size 4)) [
        | inl i ↦ rw i stopped
        | inr i ↦ elim (Bool-cases (ltb size (u32 (unpack_int3 m p + 4)))) [
          | inl j ↦ rw (i, j) stopped
          | inr j ↦
              rw (i, j)
                (packet-Exact t c n v (
                  ground (
                    arith,
                    j,
                    len,
                    unread_lem c.read_buffer v,
                    byte p,
                    byte (p + 1),
                    byte (p + 2),
                  )))
        ]
      ]

  turn-Exact :
      (t : PacketType) (c : Connect)
      → IsOwn t
      → IsBytes m
      → IsValid c.read_buffer
      → Exact m c.read_buffer (unpack_int3 m c.read_buffer.buffer_read_ptr) (turn h e m t c)
  unfolding turn
  turn-Exact packet_none c n byte v = stopped
  turn-Exact packet_handshake c n byte v = absurd (n.0 refl)
  turn-Exact packet_handshake_ssl c n byte v = absurd (n.1 refl)
  turn-Exact packet_response c n byte v = expected-Exact packet_response c n byte v
  turn-Exact packet_prepare_response c n byte v = expected-Exact packet_prepare_response c n byte v
  turn-Exact packet_prepare_parameter c n byte v =
      expected-Exact packet_prepare_parameter c n byte v
  turn-Exact packet_prepare_column c n byte v = expected-Exact packet_prepare_column c n byte v
  turn-Exact packet_column c n byte v = expected-Exact packet_column c n byte v
  turn-Exact packet_row c n byte v = expected-Exact packet_row c n byte v
  turn-Exact packet_stmt_row c n byte v = expected-Exact packet_stmt_row c n byte v

IsTaken-of :
    (m : Mem) (b : Buffer) (len : ℕ) (c : Connect)
    → Exact m b len (goes_on c)
    → IsTaken m b (4 + len) c.read_buffer
IsTaken-of m b len c (taken w) = w

-- With a valid buffer of bytes, a turn that goes on with the loop, for an expected packet that is
-- no part of the handshake, takes exactly the packet from the front of the unread bytes, whatever
-- its payload: the four bytes of its header and the length that the first three of them hold.
pub turn-goes_on :
    (h : Handshake) (e : Platform) (m : Mem) (t : PacketType) (c c' : Connect)
    → IsOwn t
    → IsBytes m
    → IsValid c.read_buffer
    → turn h e m t c ≡ goes_on c'
    → IsTaken m c.read_buffer (4 + unpack_int3 m c.read_buffer.buffer_read_ptr) c'.read_buffer
turn-goes_on h e m t c c' n byte v k =
    let len = unpack_int3 m c.read_buffer.buffer_read_ptr in
    IsTaken-of m c.read_buffer len c'
      (subst (Exact m c.read_buffer len) k (turn-Exact h e m t c n byte v))
