-- ===== src/Compress/RoundTrip.antt =====
-- What one side sends compressed, the other side's `decompress_read_buffer` takes.
use libattachsql.Prelude.{
  ℕ, ◌+◌, ◌^◌, ◌<◌, ◌≤◌, ◌≡◌, ◌≢◌, refl, sym, ap, ◌∙◌, arith, true, false, Option, some, none, List,
  [], ◌∷◌, ◌++◌, length, leb, ◌==◌, if_true, if_false, Bool-cases, inl, inr,
}
use libattachsql.Prelude.Bits.{u8}
use libattachsql.Prelude.Memory.{Mem, read, read_ext}
use mathlib.Core.List.{append_assoc}
use mathlib.Core.Path.{subst}
use libattachsql.Buffer.Ops.{buffer_get_available}
use libattachsql.Buffer.Room.{IsValid, stale, free, get_available_lem}
use libattachsql.Buffer.Steps.{unread_bytes}
use libattachsql.Pack.Ints.{PlainChar, signed_char, unsigned_char}
use libattachsql.Net.Connect.{Connect}
use libattachsql.Net.Response.{Platform, has_compress}
use libattachsql.Net.Process.{is_char}
use libattachsql.Net.Read.{ReadAnswers}
use libattachsql.Command.Send.{Command, command_code, command_send, packet_header_of, sending}
use libattachsql.Command.SendLaws.{sent_bytes}
use libattachsql.Query.Buffered.{is_idle}
use libattachsql.Compress.Zlib.{Zlib, IsZlib, Compression}
use libattachsql.Compress.Send.{
  SendAnswers, SentZlib, compressed_header, numbered, to_compress, expect_compressed,
  command_send_compressed, command_send_zlib, send_compressed_packet,
}
use libattachsql.Compress.SendLaws.{packet_of, send-Frames}
use libattachsql.Compress.Frames.{Frames, plain, packed}
use libattachsql.Compress.Receive.{count_packet, header_taken, inflate, decompress_read_buffer}
use libattachsql.Compress.ReceiveLaws.{
  Apart, IsInflated, taken, whole_lem, split_lem, inflate_plain, inflate_packed, taken-IsInflated,
}

-- A connection that reads the packet with the number next: both buffers are there and valid, in
-- blocks of their own, and the packet and the stale bytes fit the free bytes of the read buffer. The
-- number is below 128, as it is compared with a plain `char`.
pub record IsReady (m : Mem) (z : Compression) (c : Connect) (number : ℕ) (packet : List ℕ)
    : Type 0 where
  pub has : c.has_read_buffer ≡ true
  pub compressed_valid : IsValid z.read_buffer_compress
  pub valid : IsValid c.read_buffer
  pub apart : Apart z.read_buffer_compress c.read_buffer
  pub room : length packet + stale c.read_buffer ≤ free c.read_buffer
  pub next : u8 (z.compressed_packet_number + 1) ≡ number
  pub low : number < 128

pub same_char : (p : PlainChar) (a b n : ℕ) → a ≡ n → b ≡ n → n < 128 → is_char p a b ≡ true
same_char signed_char a b n h k l = ground arith
same_char unsigned_char a b n h k l = ground arith

-- The frame is taken where what is on the wire behind the header is inflated to the packet.
frame_taken :
    (zlib : Zlib) (e : Platform) (a : ReadAnswers) (m : Mem) (z : Compression) (c : Connect)
    (number unpacked : ℕ) (packet cs rest : List ℕ)
    → IsReady m z c number packet
    → length cs < 2 ^ 24
    → unpacked ≤ length packet
    → length packet < 2 ^ 24
    → unread_bytes m z.read_buffer_compress
      ≡ compressed_header (length cs) number unpacked ++ (cs ++ rest)
    → (read m (z.read_buffer_compress.buffer_read_ptr + 7) (length cs) ≡ cs
        → inflate zlib
            (length cs)
            unpacked
            m
            (header_taken (length cs) (count_packet z))
            c
            c.read_buffer
          ≡ taken (length cs) m z c packet)
    → (size : ℕ) × (decompress_read_buffer zlib e a m z c ≡ some (taken size m z c packet))
      × IsInflated m z c packet rest (taken size m z c packet)
frame_taken zlib e a m z c number unpacked packet cs rest y small under big h inflated =
    let (count, is_size, is_number, is_unpacked, held, left) =
      split_lem m z (length cs) number unpacked cs rest y.compressed_valid h in
    let fits : length packet ≤ free c.read_buffer = omega (arith, y.room) in
    let honest : leb (stale c.read_buffer) (free c.read_buffer) ≡ true = ground (arith, y.room) in
    let size = get_available_lem c.read_buffer y.valid ∙ if_true _ _ _ honest in
    let in_sequence =
      same_char e.plain (count_packet z).compressed_packet_number
        (m (z.read_buffer_compress.buffer_read_ptr + 3)) number y.next is_number y.low in
    (
      length cs,
      whole_lem zlib e a m z c y.has in_sequence (length cs) unpacked small (omega (arith, is_size))
            (omega (arith, is_unpacked)) (omega (arith, count)) (omega (arith, size, y.room))
          ∙ ap some (inflated held),
      taken-IsInflated m z c packet rest (length cs) y.compressed_valid y.valid y.apart fits count
          left,
    )

-- A frame at the front of the compressed bytes is taken.
pub decompress-Frames :
    (zlib : Zlib) (e : Platform) (a : ReadAnswers) (m : Mem) (z : Compression) (c : Connect)
    {number : ℕ} (packet : List ℕ) {bs : List ℕ} (rest : List ℕ)
    → IsZlib zlib
    → Frames zlib number packet bs
    → IsReady m z c number packet
    → unread_bytes m z.read_buffer_compress ≡ bs ++ rest
    → (size : ℕ) × (decompress_read_buffer zlib e a m z c ≡ some (taken size m z c packet))
      × IsInflated m z c packet rest (taken size m z c packet)
decompress-Frames zlib e a m z c {number} packet rest law (plain small wire) y h =
    frame_taken zlib e a m z c number 0 packet packet rest y small (omega arith) small
      (h
        ∙ ap (λ bs. bs ++ rest) wire
        ∙ append_assoc (compressed_header (length packet) number 0) packet rest)
      (inflate_plain zlib m z c packet)
decompress-Frames zlib e a m z c {number} packet rest law (packed room done small pos big wire) y
      h =
    let cs = (zlib.compress room packet).1 in
    let honest : leb (stale c.read_buffer) (free c.read_buffer) ≡ true = ground (arith, y.room) in
    let size = get_available_lem c.read_buffer y.valid ∙ if_true _ _ _ honest in
    let back =
      law.uncompress-compress room (buffer_get_available (some c.read_buffer)) packet done
        (omega (arith, size, y.room)) in
    frame_taken zlib e a m z c number (length packet) packet cs rest y small (omega arith) big
      (h
        ∙ ap (λ bs. bs ++ rest) wire
        ∙ append_assoc (compressed_header (length cs) number (length packet)) cs rest)
      (λ held. inflate_packed zlib m z c packet cs pos held back)

-- The packet that a command without compression would send.
packet-command_send :
    (e : Platform) (c : Connect) (command : Command) (d : List ℕ)
    → (command_code command == 0) ≡ false
    → packet_of (to_compress c (length d)) d (command_code command)
      ≡ (command_send e none c command d).bytes
packet-command_send e c command d h =
    let extra : read c.write_buffer 1 c.write_buffer_extra
        ≡ read (sending c command (length d)).write_buffer 1 c.write_buffer_extra =
      read_ext _ _ 1 1 _ (λ i k. ground arith) in
    ap (λ bs. packet_header_of (length d + 1 + c.write_buffer_extra) ++ bs)
      (if_false _ _ _ h ∙ ap (λ xs. command_code command ∷ (xs ++ d)) extra)
    ∙ sym (sent_bytes e none c command d)

-- What a command with compression hands to `uv_write`.
compressed_bytes :
    (e : Platform) (failure : Option (List ℕ)) (zlib : Zlib) (a : SendAnswers) (z : Compression)
    (c : Connect) (command : Command) (d : List ℕ)
    → has_compress c.client_capabilities ≡ true
    → (command_send_zlib e failure zlib a z c command d).handed.bytes
      ≡ (send_compressed_packet zlib a z (to_compress c (length d)) d (command_code command)).bytes
unfolding command_send_zlib command_send_compressed expect_compressed
compressed_bytes e failure zlib a z c command d h =
    let sent =
      send_compressed_packet zlib a z (to_compress c (length d)) d (command_code command) in
    ap (λ (s : SentZlib). s.handed.bytes) (if_true _ _ _ h)
    ∙ elim (Bool-cases (is_idle sent.con.status)) [
      | inl idle ↦ ap (λ (s : SentZlib). s.handed.bytes) (if_true _ _ _ idle)
      | inr busy ↦ ap (λ (s : SentZlib). s.handed.bytes) (if_false _ _ _ busy)
    ]

-- A command other than `sleep` of fewer than 2 ^ 24 - 1028 bytes is sent compressed, and anything is
-- handed to `uv_write`. Wherever these bytes stand next in the compressed read buffer of a connection
-- that expects the number 0, has valid buffers in blocks of their own and room for the packet,
-- decompressing returns true. It then has appended to the read buffer exactly the packet that the
-- same command sends without compression, both buffers are valid, and the bytes behind those of the
-- packet are next in the compressed buffer.
pub decompress-command_send :
    (e : Platform) (failure : Option (List ℕ)) (zlib : Zlib) (a : SendAnswers) (z : Compression)
    (c : Connect) (command : Command) (d : List ℕ) (e' : Platform) (a' : ReadAnswers) (m : Mem)
    (z' : Compression) (c' : Connect) (rest : List ℕ)
    → IsZlib zlib
    → has_compress c.client_capabilities ≡ true
    → 0 < command_code command
    → length d + 1 + c.write_buffer_extra + 1028 < 2 ^ 24
    → z.uncompressed_buffer_len < 2 ^ 24
    → (command_send_zlib e failure zlib a z c command d).handed.bytes ≢ []
    → IsReady m z' c' 0 (command_send e none c command d).bytes
    → unread_bytes m z'.read_buffer_compress
      ≡ (command_send_zlib e failure zlib a z c command d).handed.bytes ++ rest
    → let packet = (command_send e none c command d).bytes in
      (size : ℕ) × (decompress_read_buffer zlib e' a' m z' c' ≡ some (taken size m z' c' packet))
      × IsInflated m z' c' packet rest (taken size m z' c' packet)
unfolding packet_header_of
decompress-command_send e failure zlib a z c command d e' a' m z' c' rest law h code big small given
      y held =
    let named : (command_code command == 0) ≡ false = ground arith in
    let sent = compressed_bytes e failure zlib a z c command d h in
    let framed =
      send-Frames zlib a z (to_compress c (length d)) d (command_code command) refl
        (rw named (omega arith)) small (λ n. given (sent ∙ n)) in
    let number : (numbered z (command_code command)).compressed_packet_number ≡ 0 =
      if_false _ _ _ named in
    let same = packet-command_send e c command d named in
    let bs =
      (send_compressed_packet zlib a z (to_compress c (length d)) d (command_code command)).bytes in
    decompress-Frames zlib e' a' m z' c' (command_send e none c command d).bytes rest law
      (subst (λ (packet : List ℕ). Frames zlib 0 packet bs) same
        (subst
          (λ (n : ℕ).
            Frames zlib n (packet_of (to_compress c (length d)) d (command_code command)) bs)
          number framed))
      y (held ∙ ap (λ bs. bs ++ rest) sent)
