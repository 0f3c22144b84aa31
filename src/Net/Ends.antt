-- ===== src/Net/Ends.antt =====
-- Every handler of src/net.cc leaves the buffer behind its packet, whatever the packet holds.
use libattachsql.Prelude.{◌∙◌, ℕ, ◌≡◌, refl, true, false, ltb, ◌==◌, arith, inl, inr, Bool-cases}
use libattachsql.Prelude.Memory.{Mem}
use libattachsql.Buffer.Ops.{Buffer, buffer_packet_read_end}
use libattachsql.Net.Connect.{Connect, is_read_column, is_read_stmt_param}
use libattachsql.Net.Response.{
  Platform, at, read_ok, read_error, read_eof, read_result, packet_read_response,
}
use libattachsql.Net.Columns.{
  packet_read_prepare_response, packet_read_prepare_parameter, packet_read_prepare_column,
  packet_read_column, prepare_next, prepared,
}

-- Ending a packet forgets where in it the handler stopped, and ending it again changes nothing.
pub read_end_anywhere :
    (b : Buffer) (p : ℕ) → buffer_packet_read_end (at p b) ≡ buffer_packet_read_end b
unfolding buffer_packet_read_end
read_end_anywhere b p = elim (Bool-cases (b.packet_end_ptr == b.buffer_write_ptr)) [
  | inl h ↦ rw h
  | inr h ↦ rw h
]

read_end_part :
    (b : Buffer)
    → (b.packet_end_ptr == b.buffer_write_ptr) ≡ false
    → buffer_packet_read_end b ≡ at b.packet_end_ptr b
unfolding buffer_packet_read_end
read_end_part b h = rw h

read_end_whole :
    (b : Buffer) (p : ℕ)
    → (b.packet_end_ptr == b.buffer_write_ptr) ≡ true
    → buffer_packet_read_end (at p (buffer_packet_read_end b)) ≡ buffer_packet_read_end b
unfolding buffer_packet_read_end
read_end_whole b p h = let s : (b.buffer == b.buffer) ≡ true = ground arith in rw (h, s)

pub read_end_again :
    (b : Buffer) (p : ℕ)
    → buffer_packet_read_end (at p (buffer_packet_read_end b)) ≡ buffer_packet_read_end b
read_end_again b p = elim (Bool-cases (b.packet_end_ptr == b.buffer_write_ptr)) [
  | inl h ↦ read_end_whole b p h
  | inr h ↦ rw (read_end_part b h, read_end_part (at p (at b.packet_end_ptr b)) h)
]

ok_ends :
    (e : Platform) (m : Mem) (c : Connect)
    → (read_ok e m c).read_buffer ≡ buffer_packet_read_end c.read_buffer
unfolding read_ok
ok_ends e m c = read_end_anywhere c.read_buffer _

error_ends :
    (m : Mem) (c : Connect) → (read_error m c).read_buffer ≡ buffer_packet_read_end c.read_buffer
unfolding read_error
error_ends m c = read_end_anywhere c.read_buffer _

eof_ends :
    (e : Platform) (m : Mem) (c : Connect)
    → (read_eof e m c).read_buffer ≡ buffer_packet_read_end c.read_buffer
unfolding read_eof
eof_ends e m c = elim (Bool-cases (is_read_column c.command_status)) [
  | inl h ↦ rw h (read_end_anywhere c.read_buffer _)
  | inr h ↦ elim (Bool-cases (is_read_stmt_param c.command_status)) [
    | inl k ↦ elim (Bool-cases (ltb 0 c.stmt.stmt_column_count)) [
      | inl l ↦ rw (h, k, l) (read_end_anywhere c.read_buffer _)
      | inr l ↦ rw (h, k, l) (read_end_anywhere c.read_buffer _)
    ]
    | inr k ↦ rw (h, k) (read_end_anywhere c.read_buffer _)
  ]
]

result_ends :
    (e : Platform) (m : Mem) (c : Connect)
    → (read_result e m c).read_buffer ≡ buffer_packet_read_end c.read_buffer
unfolding read_result
result_ends e m c = read_end_anywhere c.read_buffer _

pub response_ends :
    (e : Platform) (m : Mem) (c : Connect)
    → (packet_read_response e m c).read_buffer ≡ buffer_packet_read_end c.read_buffer
unfolding packet_read_response
response_ends e m c =
    let first = m c.read_buffer.buffer_read_ptr in
    elim (Bool-cases (first == 0x00)) [
      | inl h ↦ rw h (ok_ends e m c)
      | inr h ↦ elim (Bool-cases (first == 0xff)) [
        | inl k ↦ rw (h, k) (error_ends m c)
        | inr k ↦ elim (Bool-cases (first == 0xfe)) [
          | inl l ↦ rw (h, k, l) (eof_ends e m c)
          | inr l ↦ rw (h, k, l) (result_ends e m c)
        ]
      ]
    ]

pub column_ends :
    (e : Platform) (m : Mem) (c : Connect)
    → (packet_read_column e m c).read_buffer ≡ buffer_packet_read_end c.read_buffer
unfolding packet_read_column
column_ends e m c = read_end_anywhere c.read_buffer _

pub prepare_parameter_ends :
    (e : Platform) (m : Mem) (c : Connect)
    → (packet_read_prepare_parameter e m c).read_buffer ≡ buffer_packet_read_end c.read_buffer
unfolding packet_read_prepare_parameter
prepare_parameter_ends e m c = read_end_anywhere c.read_buffer _

pub prepare_column_ends :
    (e : Platform) (c : Connect)
    → (packet_read_prepare_column e c).read_buffer ≡ buffer_packet_read_end c.read_buffer
unfolding packet_read_prepare_column
prepare_column_ends e c = refl

-- Ending the packet once more after `prepare_next` is ending it once.
next_ends :
    (e : Platform) (c : Connect) (p : ℕ)
    → buffer_packet_read_end (at p (prepare_next e c).read_buffer)
      ≡ buffer_packet_read_end c.read_buffer
unfolding prepare_next
next_ends e c p = elim (Bool-cases (ltb 0 c.stmt.param_count)) [
  | inl h ↦ rw h (read_end_anywhere c.read_buffer p)
  | inr h ↦ elim (Bool-cases (ltb 0 c.stmt.stmt_column_count)) [
    | inl k ↦ rw (h, k) (read_end_anywhere c.read_buffer p)
    | inr k ↦ rw (h, k) (read_end_again c.read_buffer p)
  ]
]

pub prepare_response_ends :
    (e : Platform) (m : Mem) (c : Connect)
    → (packet_read_prepare_response e m c).read_buffer ≡ buffer_packet_read_end c.read_buffer
unfolding packet_read_prepare_response
prepare_response_ends e m c = elim (Bool-cases (m c.read_buffer.buffer_read_ptr == 0x00)) [
  | inl h ↦ rw h (next_ends e (prepared e m c) _ ∙ read_end_anywhere c.read_buffer _)
  | inr h ↦ rw h (response_ends e m c)
]
