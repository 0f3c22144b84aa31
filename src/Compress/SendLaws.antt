-- ===== src/Compress/SendLaws.antt =====
-- What `attachsql_send_compressed_packet` hands to `uv_write`.
use libattachsql.Prelude.{
  ℕ, ◌+◌, ◌^◌, ◌<◌, ◌≡◌, refl, sym, ap, ◌∙◌, arith, List, [], ◌∷◌, ◌++◌, length, ◌==◌,
  if◌then◌else◌, not, ◌||◌, ltb, ◌≢◌, Bool, Option, some, none, Bool-cases, inl, inr, length-append,
}
use libattachsql.Prelude.Memory.{Mem, read, write, read-write, read-write_behind, length-read}
use mathlib.Core.List.{append_assoc}
use libattachsql.Net.Connect.{Connect}
use libattachsql.Compress.Zlib.{Zlib, Compression}
use libattachsql.Compress.Send.{
  SendAnswers, compressed_header, filled, hand_over, required_uncompressed, send_answer, send_large,
  send_small, send_gathered, send_compressed_packet, enlarged, write_buffer_size, numbered,
  gathered, extra_sent, minimum_compress_size,
}
use libattachsql.Compress.Frames.{Frames, plain, packed}

-- The packet that is to be sent: its header, the command with the extra bytes, and the data.
abbrev pub packet_of : Connect → List ℕ → ℕ → List ℕ
packet_of c d command =
    c.packet_header
    ++ (if command == 0 then d else command ∷ read c.write_buffer 1 c.write_buffer_extra ++ d)

pub length-packet_of :
    (c : Connect) (d : List ℕ) (command : ℕ)
    → length c.packet_header ≡ 4
    → length (packet_of c d command) ≡ required_uncompressed c d command
length-packet_of c d command h = elim (Bool-cases (command == 0)) [
  | inl p ↦ rw p (omega (arith, length-append c.packet_header d))
  | inr p ↦
      let extra = read c.write_buffer 1 c.write_buffer_extra in
      rw p (
        omega (
          arith,
          length-append c.packet_header (command ∷ extra ++ d),
          length-append extra d,
          length-read c.write_buffer 1 c.write_buffer_extra,
        ))
]

header_first :
    (u : Mem) (c : Connect)
    → length c.packet_header ≡ 4
    → read (write u 0 c.packet_header) 0 4 ≡ c.packet_header
header_first u c h =
    ap (read (write u 0 c.packet_header) 0) (sym h) ∙ read-write u 0 c.packet_header

-- The extra bytes and the data behind the header and the command.
with_extra :
    (u : Mem) (c : Connect) (d : List ℕ) (command : ℕ)
    → read u 0 5 ≡ c.packet_header ++ command ∷ []
    → let extra = read c.write_buffer 1 c.write_buffer_extra in
      read
        (write (write u 5 extra) (5 + c.write_buffer_extra) d)
        0
        (length d + 4 + (1 + c.write_buffer_extra))
      ≡ c.packet_header ++ (command ∷ extra ++ d)
with_extra u c d command h =
    let k = c.write_buffer_extra in
    let extra = read c.write_buffer 1 k in
    let size : k ≡ length extra = sym (length-read c.write_buffer 1 k) in
    let count : length d + 4 + (1 + k) ≡ 5 + k + length d = omega arith in
    ap (read _ 0) count
    ∙ read-write_behind (write u 5 extra) 0 (5 + k) (5 + k) d (omega arith)
    ∙ ap (λ bs. bs ++ d)
        (ap (λ n. read (write u 5 extra) 0 (5 + n)) size
          ∙ read-write_behind u 0 5 5 extra refl
          ∙ ap (λ bs. bs ++ extra) h)
    ∙ append_assoc (c.packet_header ++ command ∷ []) extra d
    ∙ append_assoc c.packet_header (command ∷ []) (extra ++ d)

-- The uncompressed buffer then begins with the packet.
pub filled_lem :
    (u : Mem) (c : Connect) (d : List ℕ) (command : ℕ)
    → length c.packet_header ≡ 4
    → read (filled u c d command) 0 (required_uncompressed c d command) ≡ packet_of c d command
unfolding filled
filled_lem u c d command h = elim (Bool-cases (command == 0)) [
  | inl p ↦
      let count : length d + 4 + 0 ≡ 4 + length d = omega arith in
      rw (p, count)
        (read-write_behind (write u 0 c.packet_header) 0 4 4 d refl
          ∙ ap (λ bs. bs ++ d) (header_first u c h))
  | inr p ↦
      let u' = write (write u 0 c.packet_header) 4 (command ∷ []) in
      let front : read u' 0 5 ≡ c.packet_header ++ command ∷ [] =
        read-write_behind _ 0 4 4 (command ∷ []) refl
        ∙ ap (λ bs. bs ++ command ∷ []) (header_first u c h) in
      rw p (with_extra u' c d command front)
]

-- Where the compressed packet is sent, it is a frame of what was compressed.
answer_Frames :
    (zlib : Zlib) (a : SendAnswers) (z : Compression) (c : Connect) (room : ℕ) (packet : List ℕ)
    → length packet < 2 ^ 24
    → 0 < length packet
    → z.uncompressed_buffer_len < 2 ^ 24
    → let h = send_answer a z c (length packet) (zlib.compress room packet) in
      h.bytes ≢ [] → Frames zlib z.compressed_packet_number packet h.bytes
unfolding send_answer hand_over
answer_Frames zlib a z c room packet len pos small =
    let r = zlib.compress room packet in
    elim (Bool-cases (not r.0 || ltb z.uncompressed_buffer_len (length r.1))) [
      | inl failed ↦ rw failed (λ n. absurd (n refl))
      | inr done ↦ rw done (λ n. packed room (ground (arith, done)) (ground (arith, done)) pos len (
          ap (λ bs. compressed_header (length r.1) z.compressed_packet_number (length packet) ++ bs)
            (read-write z.compressed_buffer 0 r.1)))
    ]

large_Frames :
    (zlib : Zlib) (a : SendAnswers) (z : Compression) (c : Connect) (packet : List ℕ)
    (len : Option ℕ)
    → length packet < 2 ^ 24
    → 0 < length packet
    → z.uncompressed_buffer_len < 2 ^ 24
    → read z.uncompressed_buffer 0 (length packet) ≡ packet
    → let h = send_large zlib a z c (length packet) len in
      h.bytes ≢ [] → Frames zlib z.compressed_packet_number packet h.bytes
unfolding send_large
large_Frames zlib a z c packet none size pos small held = λ n. absurd (n refl)
large_Frames zlib a z c packet (some len) size pos small held =
    rw held
      (answer_Frames zlib a (record z { compressed_buffer_len = len }) c len packet size pos small)

small_Frames :
    (zlib : Zlib) (a : SendAnswers) (z : Compression) (c : Connect) (packet : List ℕ)
    → length packet < 2 ^ 24
    → read z.uncompressed_buffer 0 (length packet) ≡ packet
    → Frames zlib z.compressed_packet_number packet (send_small a z c (length packet)).bytes
unfolding send_small hand_over
small_Frames zlib a z c packet size held =
    plain size
      (ap (λ bs. compressed_header (length packet) z.compressed_packet_number 0 ++ bs) held)

gathered_Frames :
    (zlib : Zlib) (a : SendAnswers) (z : Compression) (c : Connect) (d : List ℕ) (command : ℕ)
    (len : Option ℕ)
    → length c.packet_header ≡ 4
    → required_uncompressed c d command < 2 ^ 24
    → ((n : ℕ) → len ≡ some n → n < 2 ^ 24)
    → let h = send_gathered zlib a z c d command len in
      h.bytes ≢ [] → Frames zlib z.compressed_packet_number (packet_of c d command) h.bytes
unfolding send_gathered
gathered_Frames zlib a z c d command none four size small = λ n. absurd (n refl)
gathered_Frames zlib a z c d command (some len) four size small =
    let packet = packet_of c d command in
    let count = length-packet_of c d command four in
    let fits : length packet < 2 ^ 24 = omega (arith, count) in
    let held : read (filled z.uncompressed_buffer c d command) 0 (length packet) ≡ packet =
      ap (read _ 0) count ∙ filled_lem z.uncompressed_buffer c d command four in
    let z' = gathered z c d command len in
    let c' = extra_sent c command in
    rw (sym count) (elim (Bool-cases (ltb minimum_compress_size (length d))) [
      | inl large ↦
          rw large
            (large_Frames zlib a z' c' packet _ fits (omega (arith, count)) (small len refl) held)
      | inr few ↦ rw few (λ n. small_Frames zlib a z' c' packet fits held)
    ])

enlarged-lt :
    (larger : Bool) (len required n : ℕ)
    → len < 2 ^ 24
    → required + write_buffer_size < 2 ^ 24
    → enlarged larger len required ≡ some n
    → n < 2 ^ 24
unfolding enlarged
enlarged-lt larger len required n h k e = ground (arith, e)

-- Whatever `send_compressed_packet` hands to `uv_write` is the packet as a frame
pub send-Frames :
    (zlib : Zlib) (a : SendAnswers) (z : Compression) (c : Connect) (d : List ℕ) (command : ℕ)
    → length c.packet_header ≡ 4
    → required_uncompressed c d command + write_buffer_size < 2 ^ 24
    → z.uncompressed_buffer_len < 2 ^ 24
    → let h = send_compressed_packet zlib a z c d command in
      h.bytes ≢ []
      → Frames zlib (numbered z command).compressed_packet_number (packet_of c d command) h.bytes
unfolding send_compressed_packet
send-Frames zlib a z c d command four size small =
    gathered_Frames zlib a (numbered z command) c d command _ four (omega arith)
      (λ n e. enlarged-lt a.larger_uncompressed z.uncompressed_buffer_len _ n small size e)
