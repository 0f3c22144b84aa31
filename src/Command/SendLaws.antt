-- ===== src/Command/SendLaws.antt =====
-- What a command puts on the wire, and what the connection expects after it.
use libattachsql.Prelude.{
  length-append, ℕ, suc, ◌+◌, ◌^◌, ◌<◌, ◌≡◌, ◌⊎◌, inl, inr, refl, true, false, Option, none, some,
  List, ◌∷◌, ◌++◌, length, arith,
}
use libattachsql.Prelude.Memory.{Mem, read, write, store, write_outside, length-read}
use libattachsql.Pack.Ints.{byte, unpack_int3}
use libattachsql.Pack.IntLaws.{unpack_int3_of}
use libattachsql.Net.QueueLaws.{peek_empty}
use libattachsql.Net.Connect.{
  Connect, con_status_busy, con_status_idle, con_status_connect_failed, command_status_eof,
}
use libattachsql.Net.Response.{Platform, read_error}
use libattachsql.Net.Process.{Handshake, con_process_packets}
use libattachsql.Net.ProcessLaws.{process_packets-empty}
use libattachsql.Net.Write.{on_write, write_done}
use libattachsql.Command.Send.{
  Command, command_code, command_send, command_next_result, packet_header_of, sending, expect,
  command_stmt_reset, command_stmt_close, has_more_results,
}

-- A list of four header bytes and more, in memory.
header_read :
    (m : Mem) (p a b c d : ℕ) (bs : List ℕ)
    → let m' = write m p (a ∷ b ∷ c ∷ d ∷ bs) in
      (m' p ≡ a) × (m' (p + 1) ≡ b) × (m' (p + 2) ≡ c) × (m' (p + 3) ≡ d)
unfolding write
header_read m p a b c d bs =
    let m₄ = store (store (store (store m p a) (p + 1) b) (p + 1 + 1) c) (p + 1 + 1 + 1) d in
    let q = p + 1 + 1 + 1 + 1 in
    ground (
      arith,
      write_outside m₄ q p bs (inl (omega arith)),
      write_outside m₄ q (p + 1) bs (inl (omega arith)),
      write_outside m₄ q (p + 2) bs (inl (omega arith)),
      write_outside m₄ q (p + 3) bs (inl (omega arith)),
    )

body_read :
    (m : Mem) (p a b c d x : ℕ) (bs : List ℕ) → write m p (a ∷ b ∷ c ∷ d ∷ x ∷ bs) (p + 4) ≡ x
unfolding write
body_read m p a b c d x bs =
    let m₄ = store (store (store (store m p a) (p + 1) b) (p + 1 + 1) c) (p + 1 + 1 + 1) d in
    let q = p + 1 + 1 + 1 + 1 in
    ground (arith, write_outside (store m₄ q x) (q + 1) (p + 4) bs (inl (omega arith)))

-- The bytes that are sent, whether or not sending fails.
abbrev pub body : Connect → Command → List ℕ → List ℕ
body c command d = read (sending c command (length d)).write_buffer 1 c.write_buffer_extra ++ d

pub sent_bytes :
    (e : Platform) (o : Option (List ℕ)) (c : Connect) (command : Command) (d : List ℕ)
    → (command_send e o c command d).bytes
      ≡ packet_header_of (length d + 1 + c.write_buffer_extra)
        ++ (command_code command ∷ body c command d)
unfolding command_send read packet_header_of
sent_bytes e none c command d =
    let n : 1 + c.write_buffer_extra ≡ suc c.write_buffer_extra = omega arith in rw n
sent_bytes e (some t) c command d =
    let n : 1 + c.write_buffer_extra ≡ suc c.write_buffer_extra = omega arith in rw n

-- The payload of a command is the command's byte, the extra bytes and the data. If it is shorter
-- than 2 ^ 24 bytes, what is sent is one packet whose header a reader takes for the payload's
-- length and the number 0, with the command's byte first in the payload, and has four bytes more
-- than the payload.
pub command_send_framed :
    (e : Platform) (o : Option (List ℕ)) (c : Connect) (command : Command) (d : List ℕ) (m : Mem)
    (p : ℕ)
    → length d + 1 + c.write_buffer_extra < 2 ^ 24
    → let sent = (command_send e o c command d).bytes in
      let m' = write m p sent in
      (unpack_int3 m' p ≡ length d + 1 + c.write_buffer_extra)
      × (m' (p + 3) ≡ 0)
      × (m' (p + 4) ≡ command_code command)
      × (length sent ≡ 4 + (length d + 1 + c.write_buffer_extra))
unfolding packet_header_of
command_send_framed e o c command d m p h =
    let n = length d + 1 + c.write_buffer_extra in
    let x = command_code command in
    let rest = body c command d in
    let four = header_read m p (byte n 0) (byte n 8) (byte n 16) 0 (x ∷ rest) in
    let first = body_read m p (byte n 0) (byte n 8) (byte n 16) 0 x rest in
    let count =
      length-append (read (sending c command (length d)).write_buffer 1 c.write_buffer_extra) d in
    let extra = length-read (sending c command (length d)).write_buffer 1 c.write_buffer_extra in
    rw (sent_bytes e o c command d) (
      (
        omega (
          arith,
          unpack_int3_of (write m p (packet_header_of n ++ (x ∷ rest))) p n
              (four.0, four.1, four.2),
        ),
        four.3,
        first,
        omega (arith, count, extra),
      ))

-- The same error packet ends a command and ends a further result differently: after a command that
-- was sent it leaves the connection idle, but after `command_next_result` it reports a failed
-- connection, if the server has more results.
pub read_error-after :
    (e : Platform) (m : Mem) (c : Connect) (command : Command) (d : List ℕ)
    → has_more_results c.server_status ≡ true
    → ((read_error m (command_send e none c command d).con).status ≡ con_status_idle)
      × ((read_error m (command_next_result e c).1).status ≡ con_status_connect_failed)
unfolding read_error command_send command_next_result
read_error-after e m c command d h = (refl, rw h)

on_write_idle :
    (c : Connect)
    → c.queue.next_packet_queue_used ≡ 0
    → ((on_write none c).status ≡ con_status_idle)
      × ((on_write none c).command_status ≡ command_status_eof)
unfolding on_write write_done
on_write_idle c z = rw (peek_empty c.queue z) (refl, refl)

-- Where nothing was expected before, closing or resetting a statement makes the connection busy but
-- expects no answer: the packet loop then returns at once and changes nothing, whatever bytes have
-- arrived, and the end of the write makes the connection idle and the command ended.
pub command_send-unanswered :
    (h : Handshake) (e : Platform) (m : Mem) (c : Connect) (command : Command) (d : List ℕ)
    → (command ≡ command_stmt_close) ⊎ (command ≡ command_stmt_reset)
    → c.queue.next_packet_queue_used ≡ 0
    → let c' = (command_send e none c command d).con in
      (c'.status ≡ con_status_busy)
      × (con_process_packets h e m c' ≡ some (false, c'))
      × ((on_write none c').status ≡ con_status_idle)
      × ((on_write none c').command_status ≡ command_status_eof)
unfolding command_send expect
command_send-unanswered h e m c command d (inl q) z =
    rw q (refl, process_packets-empty h e m _ z, (on_write_idle _ z).0, (on_write_idle _ z).1)
command_send-unanswered h e m c command d (inr q) z =
    rw q (refl, process_packets-empty h e m _ z, (on_write_idle _ z).0, (on_write_idle _ z).1)
