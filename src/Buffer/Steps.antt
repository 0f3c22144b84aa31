-- ===== src/Buffer/Steps.antt =====
-- A buffer between its users: the reads of src/net.cc fill it, the handlers consume packets, and
-- `attachsql_buffer_increase` makes room. The specification is a queue of bytes.
use libattachsql.Prelude.{
  ℕ, ◌+◌, ◌-◌, ◌*◌, ◌^◌, ◌≤◌, ◌<◌, ◌≡◌, refl, ap, ap₂, ◌∙◌, arith, List, [], ◌∷◌, ◌++◌, some,
  length, drop, Bool-cases, ◌==◌, true, false, inl, inr,
}
use libattachsql.Prelude.Memory.{
  Mem, read, write, read_ext, read-add, drop-read, write_outside, read-write,
}
use libattachsql.Buffer.Ops.{
  Buffer, default_buffer_size, buffer_create, buffer_grow, buffer_increase, buffer_move_write_ptr,
  buffer_packet_read_end, mostly_stale, moved,
}
use mathlib.Core.Option.{some-injective}
use mathlib.Core.Path.{subst}
use libattachsql.Buffer.Room.{IsValid, free, unread_lem}
use libattachsql.Buffer.Growth.{grow_lem, moved-IsValid}

-- What happened, as the users of the byte queue see it.
pub data Event : Type 0 where
  received : List ℕ → Event
  consumed : ℕ → Event
  enlarged : Event

pub data Step : Mem → Buffer → Event → Mem → Buffer → Type 0 where
  -- `libuv` puts bytes at the write pointer and the callback moves it.
  receive :
      {m : Mem} {b : Buffer} (bs : List ℕ)
      → length bs ≤ free b
      → Step m b (received bs) (write m b.buffer_write_ptr bs) (buffer_move_write_ptr b (length bs))
  -- A packet that ends at `e` is found, its handler moves the read pointer to `r`, and ends it.
  consume :
      {m : Mem} {b : Buffer} (r e : ℕ)
      → b.buffer_read_ptr ≤ e
      → e ≤ b.buffer_write_ptr
      → Step m b
          (consumed (e - b.buffer_read_ptr))
          m
          (buffer_packet_read_end (record b { buffer_read_ptr = r; packet_end_ptr = e }))
  -- `increase`, where it takes the branch that enlarges the block.
  enlarge :
      {m : Mem} {b : Buffer} (new_block : ℕ)
      → mostly_stale b ≡ false
      → 0 < new_block
      → new_block + b.buffer_size * 4 < 2 ^ 64
      → Step m b enlarged
          (buffer_increase (some new_block) m b).1
          (buffer_increase (some new_block) m b).2

-- The queue of bytes that are received and not yet consumed.
abbrev pub unread_bytes : Mem → Buffer → List ℕ
unread_bytes m b = read m b.buffer_read_ptr (b.buffer_write_ptr - b.buffer_read_ptr)

abbrev pub after : List ℕ → Event → List ℕ
after s (received bs) = s ++ bs
after s (consumed n) = drop n s
after s enlarged = s

receive-IsValid :
    (b : Buffer) (n : ℕ) → IsValid b → n ≤ free b → IsValid (buffer_move_write_ptr b n)
unfolding buffer_move_write_ptr
receive-IsValid b n v h = ground arith

consume-IsValid :
    (b : Buffer) (r e : ℕ)
    → IsValid b
    → b.buffer_read_ptr ≤ e
    → e ≤ b.buffer_write_ptr
    → IsValid (buffer_packet_read_end (record b { buffer_read_ptr = r; packet_end_ptr = e }))
unfolding buffer_packet_read_end
consume-IsValid b r e v lo hi = ground arith

-- `increase` is the enlarging function in that branch.
increase_grows :
    (p : ℕ) (m : Mem) (b : Buffer)
    → mostly_stale b ≡ false
    → buffer_increase (some p) m b ≡ buffer_grow (some p) m b
unfolding buffer_increase
increase_grows p m b h = rw h

enlarge-IsValid :
    (m : Mem) (b : Buffer) (p : ℕ)
    → IsValid b
    → mostly_stale b ≡ false
    → 0 < p
    → p + b.buffer_size * 4 < 2 ^ 64
    → IsValid (buffer_increase (some p) m b).2
enlarge-IsValid m b p v s h k =
    rw (increase_grows p m b s) (unfold buffer_grow in moved-IsValid b p v h k)

received_bytes :
    (m : Mem) (b : Buffer) (bs : List ℕ)
    → IsValid b
    → length bs ≤ free b
    → unread_bytes (write m b.buffer_write_ptr bs) (buffer_move_write_ptr b (length bs))
      ≡ unread_bytes m b ++ bs
unfolding buffer_move_write_ptr
received_bytes m b bs v h =
    let old = b.buffer_write_ptr - b.buffer_read_ptr in
    let m' = write m b.buffer_write_ptr bs in
    let count : b.buffer_write_ptr + length bs - b.buffer_read_ptr ≡ old + length bs =
      omega arith in
    let at : b.buffer_read_ptr + old ≡ b.buffer_write_ptr = omega arith in
    rw (count, read-add m' b.buffer_read_ptr old (length bs), at)
      (ap₂ ◌++◌
        (read_ext m' m b.buffer_read_ptr b.buffer_read_ptr old
          (λ i k. write_outside m b.buffer_write_ptr _ bs (inl (omega arith))))
        (read-write m b.buffer_write_ptr bs))

consumed_bytes :
    (m : Mem) (b : Buffer) (r e : ℕ)
    → IsValid b
    → b.buffer_read_ptr ≤ e
    → e ≤ b.buffer_write_ptr
    → unread_bytes m (buffer_packet_read_end (record b { buffer_read_ptr = r; packet_end_ptr = e }))
      ≡ drop (e - b.buffer_read_ptr) (unread_bytes m b)
unfolding buffer_packet_read_end
consumed_bytes m b r e v lo hi =
    let dropped =
      drop-read m b.buffer_read_ptr (b.buffer_write_ptr - b.buffer_read_ptr)
        (e - b.buffer_read_ptr) in
    elim (Bool-cases (e == b.buffer_write_ptr)) [
      | inl whole ↦
          let none_left : b.buffer - b.buffer ≡ 0 = omega arith in
          let all_taken : b.buffer_write_ptr - b.buffer_read_ptr - (e - b.buffer_read_ptr) ≡ 0 =
            ground (arith, whole) in
          rw (whole, dropped, none_left, all_taken) (unfold read in refl)
      | inr part ↦
          let start : b.buffer_read_ptr + (e - b.buffer_read_ptr) ≡ e = omega arith in
          let left : b.buffer_write_ptr - b.buffer_read_ptr - (e - b.buffer_read_ptr)
              ≡ b.buffer_write_ptr - e =
            omega arith in
          rw (part, dropped, start, left)
    ]

enlarged_bytes :
    (m : Mem) (b : Buffer) (p : ℕ)
    → IsValid b
    → 0 < p
    → p + b.buffer_size * 4 < 2 ^ 64
    → unread_bytes (buffer_grow (some p) m b).1 (buffer_grow (some p) m b).2 ≡ unread_bytes m b
unfolding buffer_grow
enlarged_bytes m b p v h k =
    let count : (moved b p).buffer_write_ptr - (moved b p).buffer_read_ptr
        ≡ b.buffer_write_ptr - b.buffer_read_ptr =
      omega arith in
    rw count (
      read_ext _ m (moved b p).buffer_read_ptr b.buffer_read_ptr _
        (λ i l. (grow_lem m b p i v h k (omega (arith, unread_lem b v))).2))

-- A valid buffer is a first-in first-out queue of bytes: what is received is appended to the
-- unread bytes, a packet that is consumed takes its bytes from the front, wherever its handler left
-- the read pointer, and enlarging the block changes nothing. Each step leaves the buffer valid; the
-- branch of `increase` that shifts the bytes is none of them.
pub Step-refines :
    {m : Mem} {b : Buffer} {e : Event} {m' : Mem} {b' : Buffer}
    → Step m b e m' b'
    → IsValid b
    → IsValid b' × (unread_bytes m' b' ≡ after (unread_bytes m b) e)
Step-refines {m} {b} (receive bs h) v =
    (receive-IsValid b (length bs) v h, received_bytes m b bs v h)
Step-refines {m} {b} (consume r e lo hi) v =
    (consume-IsValid b r e v lo hi, consumed_bytes m b r e v lo hi)
Step-refines {m} {b} (enlarge p s h k) v =
    (enlarge-IsValid m b p v s h k, rw (increase_grows p m b s) (enlarged_bytes m b p v h k))

-- A history of steps from `m` and `b` on, the latest first.
pub data Run (m : Mem) (b : Buffer) : List Event → Mem → Buffer → Type 0 where
  start : Run m b [] m b
  next :
      {es : List Event} {m₁ : Mem} {b₁ : Buffer} {e : Event} {m₂ : Mem} {b₂ : Buffer}
      → Run m b es m₁ b₁
      → Step m₁ b₁ e m₂ b₂
      → Run m b (e ∷ es) m₂ b₂

abbrev pub after_all : List Event → List ℕ
after_all [] = []
after_all (e ∷ es) = after (after_all es) e

create-IsValid :
    (m : Mem) (p : ℕ) {b : Buffer}
    → buffer_create true (some p) ≡ some b
    → 0 < p
    → p + default_buffer_size * 2 < 2 ^ 64
    → IsValid b × (unread_bytes m b ≡ [])
unfolding buffer_create read
create-IsValid m p {b} e h k =
    let none_yet : p - p ≡ 0 = omega arith in
    subst (λ (c : Buffer). IsValid c × (unread_bytes m c ≡ [])) (some-injective _ _ e)
      (ground arith, rw none_yet)

Run-IsValid :
    (m : Mem) (b : Buffer) (es : List Event) {m' : Mem} {b' : Buffer}
    → IsValid b
    → unread_bytes m b ≡ []
    → Run m b es m' b'
    → IsValid b' × (unread_bytes m' b' ≡ after_all es)
Run-IsValid m b [] v z start = (v, z)
Run-IsValid m b (e ∷ es) v z (next r s) =
    let ih = Run-IsValid m b es v z r in
    let now = Step-refines s ih.0 in (now.0, now.1 ∙ ap (λ q. after q e) ih.1)

-- From a buffer that `create` made on, after any history of receiving no more bytes than are free,
-- consuming packets that end within the unread bytes, and calling `increase` where it enlarges the
-- block instead of shifting its bytes, the buffer is valid and its unread bytes are what the history of the byte queue gives.
pub Run-refines :
    (m : Mem) (p : ℕ) (es : List Event) {b : Buffer} {m' : Mem} {b' : Buffer}
    → buffer_create true (some p) ≡ some b
    → 0 < p
    → p + default_buffer_size * 2 < 2 ^ 64
    → Run m b es m' b'
    → IsValid b' × (unread_bytes m' b' ≡ after_all es)
Run-refines m p es {b} e h k r =
    let made = create-IsValid m p e h k in Run-IsValid m b es made.0 made.1 r
