-- ===== src/Net/ReadLaws.antt =====
-- Data that arrives goes through the buffer to the packet loop, none lost and none twice.
use libattachsql.Prelude.{
  ℕ, ◌+◌, ◌≤◌, ◌≡◌, refl, ap, ◌∙◌, arith, Bool, true, false, some, List, ◌++◌, length, drop, ltb,
  leb, if_true, if_false,
}
use libattachsql.Prelude.Memory.{Mem, write}
use libattachsql.Buffer.Ops.{buffer_get_available, buffer_move_write_ptr}
use libattachsql.Buffer.Room.{IsValid, stale, free, get_available_lem}
use libattachsql.Buffer.Steps.{unread_bytes, receive, Step-refines}
use libattachsql.Net.Connect.{Connect}
use libattachsql.Net.Response.{Platform}
use libattachsql.Net.Process.{Handshake}
use libattachsql.Net.ProcessLaws.{IsHandshake, IsBytes, process_packets-returns}
use libattachsql.Net.Read.{
  ReadAnswers, Offered, offer, offer_room, on_alloc, read_bytes, read_data_cb,
}

-- Where the room that is reported suffices, the write pointer is offered.
offers :
    (a : ReadAnswers) (m : Mem) (suggested : ℕ) (c : Connect)
    → c.has_read_buffer ≡ true
    → IsValid c.read_buffer
    → suggested + stale c.read_buffer ≤ free c.read_buffer
    → on_alloc a m suggested c ≡ some (offer m c c.read_buffer)
unfolding on_alloc offer_room
offers a m suggested c has v room =
    let size = get_available_lem c.read_buffer v in
    let enough : ltb (buffer_get_available (some c.read_buffer)) suggested ≡ false =
      ground (arith, size) in
    if_true c.has_read_buffer _ _ has ∙ ap some (if_false _ _ _ enough)

-- A read: the event loop asks where to write, writes bytes there, no more than were offered, and
-- calls back. Where the read buffer is there and valid, the number of bytes that is asked for and
-- the stale bytes fit the free ones, and the handshake handlers have their law, the read buffer's
-- write pointer is offered, the callback returns, and then the buffer is valid and its unread bytes
-- are the former ones and those that were written, without some of the first.
pub read_data_cb-on_alloc :
    (h : Handshake) (e : Platform) (a : ReadAnswers) (m : Mem) (suggested : ℕ) (c : Connect)
    (ds : List ℕ)
    → IsHandshake h
    → IsBytes (write m c.read_buffer.buffer_write_ptr ds)
    → c.has_read_buffer ≡ true
    → IsValid c.read_buffer
    → suggested + stale c.read_buffer ≤ free c.read_buffer
    → length ds ≤ (offer m c c.read_buffer).len
    → (o : Offered) × (on_alloc a m suggested c ≡ some o)
      × (o.base ≡ c.read_buffer.buffer_write_ptr)
      × (r : Bool) × (c' : Connect) × (k : ℕ) × (read_data_cb h e
            (write o.memory o.base ds)
            (read_bytes (length ds))
            o.con
          ≡ some (r, c'))
      × IsValid c'.read_buffer
      × (unread_bytes (write o.memory o.base ds) c'.read_buffer
          ≡ drop k (unread_bytes m c.read_buffer ++ ds))
unfolding read_data_cb
read_data_cb-on_alloc h e a m suggested c ds laws bytes has v room len =
    let b = c.read_buffer in
    let size = get_available_lem b v in
    let honest : leb (stale b) (free b) ≡ true = ground arith in
    let fits : length ds ≤ free b = ground (arith, size, len) in
    let now = Step-refines (receive ds fits) v in
    let o = offer m c b in
    let (r, c', k, ends, taken) =
      process_packets-returns h e (write m b.buffer_write_ptr ds)
        (record o.con { read_buffer = buffer_move_write_ptr b (length ds) }) laws bytes now.0 in
    (
      o,
      offers a m suggested c has v room,
      refl,
      r,
      c',
      k,
      ends,
      taken.valid,
      taken.bytes ∙ ap (drop k) now.1,
    )
