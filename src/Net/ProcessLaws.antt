-- ===== src/Net/ProcessLaws.antt =====
-- The packet loop of src/net.cc comes to an end, and takes whole packets from the buffer.
use libattachsql.Prelude.{
  ℕ, zero, suc, ◌+◌, ◌≤◌, ◌<◌, ◌≡◌, ◌⊎◌, inl, inr, refl, sym, Bool, true, false, Option, some, ltb,
  ◌==◌, if◌then◌else◌, Bool-cases, arith,
}
use libattachsql.Prelude.Bits.{u32}
use libattachsql.Prelude.Memory.{Mem}
use libattachsql.Buffer.Ops.{Buffer, buffer_packet_read_end, buffer_unread_data}
use libattachsql.Buffer.Room.{IsValid, unread_lem}
use libattachsql.Pack.Ints.{unpack_int3}
use libattachsql.Pack.IntLaws.{unpack_int3_lem}
use libattachsql.Net.Queue.{
  PacketType, packet_none, packet_handshake, packet_handshake_ssl, packet_response,
  packet_prepare_response, packet_prepare_parameter, packet_prepare_column, packet_column,
  packet_row, packet_stmt_row, packet_queue_peek,
}
use libattachsql.Net.QueueLaws.{peek_empty}
use libattachsql.Net.Connect.{Connect}
use libattachsql.Net.Response.{Platform, packet_read_row}
use libattachsql.Net.Ends.{
  response_ends, column_ends, prepare_parameter_ends, prepare_column_ends, prepare_response_ends,
}
use libattachsql.Net.Process.{
  Handshake, Turn, stops, goes_on, handle, process_packet, process_expected, turn, after_turn,
  process_loop, con_process_packets, is_char, counted,
}
use libattachsql.Net.Taken.{
  unread, IsTaken, header-IsTaken, packet-IsTaken, Taken-refl, Taken-trans,
}
use mathlib.Core.Path.{subst}

-- The two handlers of handshake packets end the packet or leave the buffer alone.
pub record IsHandshake (h : Handshake) : Type 0 where
  pub read_handshake_lem :
      (m : Mem) (c : Connect)
      → ((h.read_handshake m c).read_buffer ≡ buffer_packet_read_end c.read_buffer)
        ⊎ ((h.read_handshake m c).read_buffer ≡ c.read_buffer)
  pub handshake_response_lem :
      (m : Mem) (c : Connect)
      → ((h.handshake_response m c).read_buffer ≡ buffer_packet_read_end c.read_buffer)
        ⊎ ((h.handshake_response m c).read_buffer ≡ c.read_buffer)

-- Memory holds bytes.
abbrev pub IsBytes : Mem → Type 0
IsBytes m = (a : ℕ) → m a < 256

-- A turn takes bytes from the buffer, and at least a header where the loop goes on.
abbrev Progress : Mem → Buffer → Turn → Type 0
Progress m b (stops r c) = (n : ℕ) × IsTaken m b n c.read_buffer
Progress m b (goes_on c) = (n : ℕ) × (4 ≤ n) × IsTaken m b n c.read_buffer

module _ (h : Handshake) (laws : IsHandshake h) (e : Platform) (m : Mem) where
  module _ (b : Buffer) (len : ℕ) (c : Connect)
      (whole : IsTaken m b (4 + len) (buffer_packet_read_end c.read_buffer))
      (header : IsTaken m b 4 c.read_buffer) where
    ended :
        (b' : Buffer)
        → b' ≡ buffer_packet_read_end c.read_buffer
        → (n : ℕ) × (4 ≤ n) × IsTaken m b n b'
    ended b' q = (4 + len, omega arith, subst (IsTaken m b (4 + len)) (sym q) whole)

    left_alone :
        (b' : Buffer)
        → (b' ≡ buffer_packet_read_end c.read_buffer) ⊎ (b' ≡ c.read_buffer)
        → (n : ℕ) × (4 ≤ n) × IsTaken m b n b'
    left_alone b' (inl q) = ended b' q
    left_alone b' (inr q) = (4, omega arith, subst (IsTaken m b 4) (sym q) header)

    row-IsTaken : (n : ℕ) × IsTaken m b n (packet_read_row e m c).read_buffer
    unfolding packet_read_row
    row-IsTaken = elim (Bool-cases (m c.read_buffer.buffer_read_ptr == 0xfe)) [
      | inl k ↦ rw k (4 + len, subst (IsTaken m b (4 + len)) (sym (response_ends e m _)) whole)
      | inr k ↦ rw k (4, header)
    ]

    handle-Progress : (t : PacketType) → Progress m b (handle h e m t c)
    unfolding handle
    handle-Progress packet_none = (4, header)
    handle-Progress packet_handshake = left_alone _ (laws.read_handshake_lem m c)
    handle-Progress packet_handshake_ssl = left_alone _ (laws.handshake_response_lem m c)
    handle-Progress packet_response = ended _ (response_ends e m c)
    handle-Progress packet_prepare_response = ended _ (prepare_response_ends e m c)
    handle-Progress packet_prepare_parameter = ended _ (prepare_parameter_ends e m c)
    handle-Progress packet_prepare_column = ended _ (prepare_column_ends e c)
    handle-Progress packet_column = ended _ (column_ends e m c)
    handle-Progress packet_row = row-IsTaken
    handle-Progress packet_stmt_row = row-IsTaken

  packet-Progress :
      (t : PacketType) (c : Connect)
      → IsValid c.read_buffer
      → unpack_int3 m c.read_buffer.buffer_read_ptr + 4 ≤ unread c.read_buffer
      → Progress m c.read_buffer (process_packet h e m t c)
  unfolding process_packet
  packet-Progress t c v k =
      let len = unpack_int3 m c.read_buffer.buffer_read_ptr in
      elim (Bool-cases
        (is_char e.plain (counted t c.packet_number) (m (c.read_buffer.buffer_read_ptr + 3)))) [
          | inl i ↦ rw i (
              handle-Progress c.read_buffer len _ (packet-IsTaken m c.read_buffer len v k)
                (header-IsTaken m c.read_buffer len v k) t)
          | inr i ↦ rw i (0, Taken-refl m c.read_buffer v)
        ]

  expected-Progress :
      (t : PacketType) (c : Connect)
      → IsBytes m
      → IsValid c.read_buffer
      → Progress m c.read_buffer (process_expected h e m t c)
  unfolding process_expected
  expected-Progress t c byte v =
      let p = c.read_buffer.buffer_read_ptr in
      let size = buffer_unread_data c.read_buffer in
      let len = unpack_int3_lem m p (byte p) (byte (p + 1)) (byte (p + 2)) in
      elim (Bool-cases (ltb size 4)) [
        | inl i ↦ rw i (0, Taken-refl m c.read_buffer v)
        | inr i ↦ elim (Bool-cases (ltb size (u32 (unpack_int3 m p + 4)))) [
          | inl j ↦ rw (i, j) (0, Taken-refl m c.read_buffer v)
          | inr j ↦
              rw (i, j)
                (packet-Progress t c v (
                  ground (
                    arith,
                    j,
                    len,
                    unread_lem c.read_buffer v,
                    byte p,
                    byte (p + 1),
                    byte (p + 2),
                  )))
        ]
      ]

  turn-Progress :
      (t : PacketType) (c : Connect)
      → IsBytes m
      → IsValid c.read_buffer
      → Progress m c.read_buffer (turn h e m t c)
  unfolding turn
  turn-Progress packet_none c byte v = (0, Taken-refl m c.read_buffer v)
  turn-Progress packet_handshake c byte v = expected-Progress packet_handshake c byte v
  turn-Progress packet_handshake_ssl c byte v = expected-Progress packet_handshake_ssl c byte v
  turn-Progress packet_response c byte v = expected-Progress packet_response c byte v
  turn-Progress packet_prepare_response c byte v =
      expected-Progress packet_prepare_response c byte v
  turn-Progress packet_prepare_parameter c byte v =
      expected-Progress packet_prepare_parameter c byte v
  turn-Progress packet_prepare_column c byte v = expected-Progress packet_prepare_column c byte v
  turn-Progress packet_column c byte v = expected-Progress packet_column c byte v
  turn-Progress packet_row c byte v = expected-Progress packet_row c byte v
  turn-Progress packet_stmt_row c byte v = expected-Progress packet_stmt_row c byte v

  -- A run from the buffer `b` on that has a result and took bytes from the front of `b`.
  abbrev Returns : Buffer → Option (Bool × Connect) → Type 0
  Returns b o =
      (r : Bool) × (c : Connect) × (n : ℕ) × (o ≡ some (r, c)) × IsTaken m b n c.read_buffer

  after_turn-Returns :
      (b : Buffer) (rest : Connect → Option (Bool × Connect)) (t : Turn)
      → Progress m b t
      → ((c : Connect)
          → IsValid c.read_buffer
          → unread c.read_buffer + 4 ≤ unread b
          → Returns c.read_buffer (rest c))
      → Returns b (after_turn rest t)
  unfolding after_turn
  after_turn-Returns b rest (stops r c) (n, s) go = (r, c, n, refl, s)
  after_turn-Returns b rest (goes_on c) (n, k, s) go =
      let (r, c', n', q, t) = go c s.valid (omega (arith, s.count)) in
      (r, c', n + n', q, Taken-trans m b c.read_buffer c'.read_buffer n n' s t)

  loop-Returns :
      (fuel : ℕ) (c : Connect)
      → IsBytes m
      → IsValid c.read_buffer
      → unread c.read_buffer < fuel
      → Returns c.read_buffer (process_loop h e m fuel c)
  unfolding process_loop
  loop-Returns zero c byte v k = absurd (omega arith)
  loop-Returns (suc fuel) c byte v k =
      after_turn-Returns c.read_buffer (λ c'. process_loop h e m fuel c') _
        (turn-Progress (packet_queue_peek c.queue) c byte v)
        (λ c' v' k'. loop-Returns fuel c' byte v' (omega arith))

  checked-Returns :
      (missing : Bool) (c : Connect)
      → IsBytes m
      → IsValid c.read_buffer
      → Returns c.read_buffer (
          if missing
          then some (false, c)
          else process_loop h e m (suc (buffer_unread_data c.read_buffer)) c)
  checked-Returns true c byte v = (false, c, 0, refl, Taken-refl m c.read_buffer v)
  checked-Returns false c byte v =
      loop-Returns _ c byte v (omega (arith, unread_lem c.read_buffer v))

-- With a valid buffer of bytes, and handshake handlers that end their packet or leave the buffer
-- alone, the packet loop returns: the fuel is enough. It leaves a valid buffer whose unread bytes
-- are the former ones without some of the first.
pub process_packets-returns :
    (h : Handshake) (e : Platform) (m : Mem) (c : Connect)
    → IsHandshake h
    → IsBytes m
    → IsValid c.read_buffer
    → (r : Bool) × (c' : Connect) × (n : ℕ) × (con_process_packets h e m c ≡ some (r, c'))
      × IsTaken m c.read_buffer n c'.read_buffer
unfolding con_process_packets
process_packets-returns h e m c laws byte v = checked-Returns h laws e m _ c byte v

-- Where nothing is expected, the packet loop changes nothing.
module _ (h : Handshake) (e : Platform) (m : Mem) where
  none_expected :
      (t : PacketType) (rest : Connect → Option (Bool × Connect)) (c : Connect)
      → t ≡ packet_none
      → after_turn rest (turn h e m t c) ≡ some (false, c)
  unfolding after_turn turn
  none_expected t rest c z = rw z

  either_way :
      (missing : Bool) (o : Option (Bool × Connect)) (c : Connect)
      → o ≡ some (false, c)
      → (if missing then some (false, c) else o) ≡ some (false, c)
  either_way true o c z = refl
  either_way false o c z = z

  pub process_packets-empty :
      (c : Connect)
      → c.queue.next_packet_queue_used ≡ 0
      → con_process_packets h e m c ≡ some (false, c)
  unfolding con_process_packets process_loop
  process_packets-empty c z = either_way _ _ c (none_expected _ _ c (peek_empty c.queue z))
