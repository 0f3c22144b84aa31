-- ===== src/Compress/ReceiveLaws.antt =====
-- A compressed packet that is wholly in the buffer is put behind what is in the read buffer.
use libattachsql.Prelude.{
  ℕ, ◌+◌, ◌-◌, ◌^◌, ◌%◌, ◌<◌, ◌≤◌, ◌≡◌, ◌⊎◌, inl, inr, refl, sym, ap, ap₂, ◌∙◌, arith, true, false,
  some, List, ◌++◌, length, length-append, ltb, ◌==◌, if_true, if_false,
}
use libattachsql.Prelude.Bits.{u8, u32}
use libattachsql.Prelude.Memory.{
  Mem, read, write, copy, copy-eq-write, length-read, read_split, read_ext, write_outside,
}
use libattachsql.Buffer.Ops.{
  Buffer, buffer_get_available, buffer_move_write_ptr, buffer_unread_data,
}
use libattachsql.Buffer.Room.{IsValid, free, unread_lem}
use libattachsql.Buffer.Steps.{unread_bytes, receive, Step-refines}
use libattachsql.Pack.Ints.{unpack_int3}
use libattachsql.Net.Connect.{Connect}
use libattachsql.Net.Response.{Platform}
use libattachsql.Net.Process.{is_char}
use libattachsql.Net.Read.{ReadAnswers}
use libattachsql.Compress.Zlib.{Zlib, Compression}
use libattachsql.Compress.Send.{compressed_header}
use libattachsql.Compress.Frames.{header_lem}
use libattachsql.Compress.Receive.{
  Inflated, header_taken, packet_taken, count_packet, with_read_buffer, copy_small, take_answer,
  inflate, inflate_into, inflate_packet, inflate_whole, decompress_read_buffer,
}

-- The state after a packet is taken: it stands behind what was in the read buffer.
abbrev pub taken : ℕ → Mem → Compression → Connect → List ℕ → Inflated
taken size m z c packet = record {
  got = true;
  memory = write m c.read_buffer.buffer_write_ptr packet;
  comp = packet_taken size (header_taken size (count_packet z));
  con = with_read_buffer c (buffer_move_write_ptr c.read_buffer (length packet));
}

-- A buffer whose pointers are in order, and as many bytes as the addresses say.
unread_count :
    (m : Mem) (b : Buffer) (bs : List ℕ)
    → IsValid b
    → unread_bytes m b ≡ bs
    → buffer_unread_data b ≡ length bs
unread_count m b bs v h = unread_lem b v ∙ sym (length-read m b.buffer_read_ptr _) ∙ ap length h

module _ (zlib : Zlib) (e : Platform) (a : ReadAnswers) (m : Mem) (z : Compression) (c : Connect)
    (has : c.has_read_buffer ≡ true)
    (counted : is_char e.plain
        (count_packet z).compressed_packet_number
        (m (z.read_buffer_compress.buffer_read_ptr + 3))
      ≡ true) where
  -- The tests that a whole packet in sequence passes.
  pub whole_lem :
      (size unpacked : ℕ)
      → size < 2 ^ 24
      → unpack_int3 m z.read_buffer_compress.buffer_read_ptr ≡ size
      → unpack_int3 m (z.read_buffer_compress.buffer_read_ptr + 4) ≡ unpacked
      → 7 + size ≤ buffer_unread_data z.read_buffer_compress
      → unpacked ≤ buffer_get_available (some c.read_buffer)
      → decompress_read_buffer zlib e a m z c
        ≡ some (inflate zlib size unpacked m (header_taken size (count_packet z)) c c.read_buffer)
  unfolding decompress_read_buffer inflate_whole inflate_packet inflate_into
  whole_lem size unpacked small is_size is_unpacked whole room =
      let n = buffer_unread_data z.read_buffer_compress in
      let head : ltb n 7 ≡ false = ground arith in
      let all : ltb n (u32 (unpack_int3 m z.read_buffer_compress.buffer_read_ptr + 7)) ≡ false =
        ground (arith, is_size) in
      let enough : ltb (buffer_get_available (some c.read_buffer)) unpacked ≡ false =
        ground arith in
      if_false _ _ _ head
      ∙ if_false _ _ _ all
      ∙ if_true _ _ _ counted
      ∙ if_true _ _ _ has
      ∙ ap₂
          (λ s u.
            some
              (inflate_into zlib a.larger s u m (header_taken s (count_packet z)) c c.read_buffer))
          is_size is_unpacked
      ∙ ap some (if_false _ _ _ enough)

-- What the frame's packet comes to, in either form.
pub inflate_plain :
    (zlib : Zlib) (m : Mem) (z : Compression) (c : Connect) (packet : List ℕ)
    → read m (z.read_buffer_compress.buffer_read_ptr + 7) (length packet) ≡ packet
    → inflate zlib
        (length packet)
        0
        m
        (header_taken (length packet) (count_packet z))
        c
        c.read_buffer
      ≡ taken (length packet) m z c packet
unfolding inflate copy_small
inflate_plain zlib m z c packet held =
    let n = length packet in
    let put : copy m c.read_buffer.buffer_write_ptr (z.read_buffer_compress.buffer_read_ptr + 7) n
        ≡ write m c.read_buffer.buffer_write_ptr packet =
      copy-eq-write m _ _ n ∙ ap (write m c.read_buffer.buffer_write_ptr) held in
    ap
      (λ k. record {
        got = true;
        memory = k;
        comp = packet_taken n (header_taken n (count_packet z));
        con = with_read_buffer c (buffer_move_write_ptr c.read_buffer n);
      })
      put

pub inflate_packed :
    (zlib : Zlib) (m : Mem) (z : Compression) (c : Connect) (packet cs : List ℕ)
    → 0 < length packet
    → read m (z.read_buffer_compress.buffer_read_ptr + 7) (length cs) ≡ cs
    → zlib.uncompress (buffer_get_available (some c.read_buffer)) cs ≡ (true, packet)
    → inflate zlib
        (length cs)
        (length packet)
        m
        (header_taken (length cs) (count_packet z))
        c
        c.read_buffer
      ≡ taken (length cs) m z c packet
unfolding inflate take_answer
inflate_packed zlib m z c packet cs pos held back =
    let some_bytes : (length packet == 0) ≡ false = ground arith in
    let n = length cs in
    let z' = header_taken n (count_packet z) in
    if_false _ _ _ some_bytes
    ∙ ap (take_answer n m z' c c.read_buffer)
        (ap (zlib.uncompress (buffer_get_available (some c.read_buffer))) held ∙ back)

-- Two buffers in different blocks.
abbrev pub Apart : Buffer → Buffer → Type 0
Apart b b' = (b.buffer + b.buffer_size ≤ b'.buffer) ⊎ (b'.buffer + b'.buffer_size ≤ b.buffer)

-- What a call leaves that took a frame of the packet and left the bytes `rest` after it.
pub record IsInflated (m : Mem) (z : Compression) (c : Connect) (packet rest : List ℕ)
    (r : Inflated) : Type 0 where
  pub got : r.got ≡ true
  pub read_valid : IsValid r.con.read_buffer
  pub read_bytes : unread_bytes r.memory r.con.read_buffer ≡ unread_bytes m c.read_buffer ++ packet
  pub compressed_valid : IsValid r.comp.read_buffer_compress
  pub compressed_bytes : unread_bytes r.memory r.comp.read_buffer_compress ≡ rest
  pub number : r.comp.compressed_packet_number ≡ u8 (z.compressed_packet_number + 1)

pub taken-IsInflated :
    (m : Mem) (z : Compression) (c : Connect) (packet rest : List ℕ) (size : ℕ)
    → IsValid z.read_buffer_compress
    → IsValid c.read_buffer
    → Apart z.read_buffer_compress c.read_buffer
    → length packet ≤ free c.read_buffer
    → buffer_unread_data z.read_buffer_compress ≡ 7 + size + length rest
    → read m (z.read_buffer_compress.buffer_read_ptr + 7 + size) (length rest) ≡ rest
    → IsInflated m z c packet rest (taken size m z c packet)
taken-IsInflated m z c packet rest size vz v apart fits count held =
    let now = Step-refines (receive {m = m} {b = c.read_buffer} packet fits) v in
    let zb = z.read_buffer_compress in
    let p = zb.buffer_read_ptr + 7 + size in
    let n = unread_lem zb vz in
    let left : zb.buffer_write_ptr - p ≡ length rest = omega (arith, n, count) in
    record {
      got = refl;
      read_valid = now.0;
      read_bytes = now.1;
      compressed_valid = ground (arith, n, count);
      compressed_bytes =
          ap (read _ p) left
          ∙ read_ext _ m p p (length rest) (λ i k.
            write_outside m c.read_buffer.buffer_write_ptr (p + i) packet
              (elim apart [ inl before ↦ inl (omega arith) | inr behind ↦ inr (omega arith) ]))
          ∙ held;
      number = refl;
    }

-- Where the bytes from the read pointer on are those of a header, of `cs` and of `rest`.
pub split_lem :
    (m : Mem) (z : Compression) (size number unpacked : ℕ) (cs rest : List ℕ)
    → IsValid z.read_buffer_compress
    → unread_bytes m z.read_buffer_compress ≡ compressed_header size number unpacked ++ (cs ++ rest)
    → let p = z.read_buffer_compress.buffer_read_ptr in
      (buffer_unread_data z.read_buffer_compress ≡ 7 + length cs + length rest)
      × (unpack_int3 m p ≡ size % 2 ^ 24)
      × (m (p + 3) ≡ number)
      × (unpack_int3 m (p + 4) ≡ unpacked % 2 ^ 24)
      × (read m (p + 7) (length cs) ≡ cs)
      × (read m (p + 7 + length cs) (length rest) ≡ rest)
split_lem m z size number unpacked cs rest v h =
    let p = z.read_buffer_compress.buffer_read_ptr in
    let (count, is_size, is_number, is_unpacked, held) =
      header_lem m p _ size number unpacked (cs ++ rest) h in
    let parts =
      read_split m (p + 7) cs rest (ap (read m (p + 7)) (sym (length-append cs rest)) ∙ held) in
    (
      omega (arith, unread_lem z.read_buffer_compress v, count, length-append cs rest),
      is_size,
      is_number,
      is_unpacked,
      parts.0,
      parts.1,
    )
