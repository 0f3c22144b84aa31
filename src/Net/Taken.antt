-- ===== src/Net/Taken.antt =====
-- What a packet's handler does to the bytes of the buffer: some are taken from the front.
use libattachsql.Prelude.{
  ℕ, zero, suc, ◌+◌, ◌-◌, ◌≤◌, ◌≡◌, refl, ap, sym, ◌∙◌, List, [], ◌∷◌, drop, arith,
}
use libattachsql.Prelude.Memory.{Mem, drop-read}
use libattachsql.Buffer.Ops.{Buffer, buffer_packet_read_end}
use libattachsql.Buffer.Room.{IsValid}
use libattachsql.Buffer.Steps.{unread_bytes, Step, consumed, consume, Step-refines}

abbrev pub unread : Buffer → ℕ
unread b = b.buffer_write_ptr - b.buffer_read_ptr

-- `b'` is a valid buffer that has the unread bytes of `b` but the first `n`.
pub record IsTaken (m : Mem) (b : Buffer) (n : ℕ) (b' : Buffer) : Type 0 where
  pub valid : IsValid b'
  pub bytes : unread_bytes m b' ≡ drop n (unread_bytes m b)
  pub count : unread b' + n ≡ unread b

pub Taken-refl : (m : Mem) (b : Buffer) → IsValid b → IsTaken m b 0 b
Taken-refl m b v = record { valid = v; bytes = refl; count = omega arith }

drop_empty {ℓ} : {A : Type ℓ} (n : ℕ) → drop {A = A} n [] ≡ []
drop_empty zero = refl
drop_empty (suc n) = refl

drop-drop {ℓ} : {A : Type ℓ} (n k : ℕ) (s : List A) → drop k (drop n s) ≡ drop (n + k) s
drop-drop zero k s = let z : 0 + k ≡ k = omega arith in rw z
drop-drop (suc n) k [] = drop_empty k ∙ sym (drop_empty (suc n + k))
drop-drop (suc n) k (x ∷ s) =
    let e : suc n + k ≡ suc (n + k) = omega arith in rw e (drop-drop n k s)

pub Taken-trans :
    (m : Mem) (b₀ b₁ b₂ : Buffer) (n k : ℕ)
    → IsTaken m b₀ n b₁
    → IsTaken m b₁ k b₂
    → IsTaken m b₀ (n + k) b₂
Taken-trans m b₀ b₁ b₂ n k s t = record {
  valid = t.valid;
  bytes = t.bytes ∙ ap (drop k) s.bytes ∙ drop-drop n k (unread_bytes m b₀);
  count = omega (arith, s.count, t.count);
}

-- The buffer once the header of a packet of `len` bytes is read.
abbrev pub open_packet : Buffer → ℕ → Buffer
open_packet b len = record b {
  buffer_read_ptr = b.buffer_read_ptr + 4;
  packet_end_ptr = b.buffer_read_ptr + 4 + len;
}

pub header-IsTaken :
    (m : Mem) (b : Buffer) (len : ℕ)
    → IsValid b
    → len + 4 ≤ unread b
    → IsTaken m b 4 (open_packet b len)
header-IsTaken m b len v h = record {
  valid = ground arith;
  bytes =
      (let left : b.buffer_write_ptr - (b.buffer_read_ptr + 4) ≡ unread b - 4 = omega arith in
        rw (drop-read m b.buffer_read_ptr (unread b) 4, left));
  count = omega arith;
}

pub packet-IsTaken :
    (m : Mem) (b : Buffer) (len : ℕ)
    → IsValid b
    → len + 4 ≤ unread b
    → IsTaken m b (4 + len) (buffer_packet_read_end (open_packet b len))
packet-IsTaken m b len v h =
    let r = b.buffer_read_ptr + 4 in
    let e = b.buffer_read_ptr + 4 + len in
    let step : Step m b (consumed (e - b.buffer_read_ptr)) m
        (buffer_packet_read_end (open_packet b len)) =
      consume r e (omega arith) (omega arith) in
    let done = Step-refines step v in
    let n : e - b.buffer_read_ptr ≡ 4 + len = omega arith in
    record {
      valid = done.0;
      bytes = done.1 ∙ ap (λ (k : ℕ). drop k (unread_bytes m b)) n;
      count = unfold buffer_packet_read_end in ground arith;
    }
