-- ===== src/Pack/IntLaws.antt =====
-- The integer macros of src/pack_macros.h read back what they write.
use libattachsql.Prelude.{ℕ, ◌+◌, ◌*◌, ◌/◌, ◌%◌, ◌^◌, ◌<◌, ◌≡◌, ap, ap₂, ◌∙◌, arith, bit_or}
use libattachsql.Prelude.Bits.{or_shifted, low_byte, shr, shl32, shl64}
use libattachsql.Prelude.Memory.{Mem}
use libattachsql.Pack.Ints.{
  byte, pack_int2, pack_int3, pack_int4, pack_int8, unpack_int2, unpack_int3, unpack_int4,
  unpack_int8,
}

pub byte_lem : (n k : ℕ) → byte n k ≡ n / 2 ^ k % 2 ^ 8
unfolding byte
byte_lem n k = rw (low_byte (shr n k)) (omega arith)

pub byte-lt : (n k : ℕ) → byte n k < 256
byte-lt n k = rw byte_lem (omega arith)

-- The bytes `a`, `b` and so on, lowest first, joined by `|` as the macros join them.
or3 :
    (a b c : ℕ)
    → a < 256
    → b < 256
    → c < 256
    → bit_or (bit_or a (shl32 b 8)) (shl32 c 16) ≡ a + b * 2 ^ 8 + c * 2 ^ 16
or3 a b c ha hb hc =
    let eb : shl32 b 8 ≡ b * 2 ^ 8 = omega arith in
    let ec : shl32 c 16 ≡ c * 2 ^ 16 = omega arith in
    ap₂ bit_or (ap (bit_or a) eb ∙ or_shifted 8 a b ha) ec
    ∙ or_shifted 16 (a + b * 2 ^ 8) c (omega arith)

or4 :
    (a b c d : ℕ)
    → a < 256
    → b < 256
    → c < 256
    → d < 256
    → bit_or (bit_or (bit_or a (shl32 b 8)) (shl32 c 16)) (shl32 d 24)
      ≡ a + b * 2 ^ 8 + c * 2 ^ 16 + d * 2 ^ 24
or4 a b c d ha hb hc hd =
    let ed : shl32 d 24 ≡ d * 2 ^ 24 = omega arith in
    ap₂ bit_or (or3 a b c ha hb hc) ed ∙ or_shifted 24 (a + b * 2 ^ 8 + c * 2 ^ 16) d (omega arith)

-- The four bytes at `p` and on, as numbers below 256, fix what the macros read.
pub unpack_int2_lem :
    (m : Mem) (p : ℕ) → m p < 256 → m (p + 1) < 256 → unpack_int2 m p ≡ m p + m (p + 1) * 2 ^ 8
unfolding unpack_int2
unpack_int2_lem m p ha hb = omega (arith, or_shifted 8 (m p) (m (p + 1)) ha)

pub unpack_int3_lem :
    (m : Mem) (p : ℕ)
    → m p < 256
    → m (p + 1) < 256
    → m (p + 2) < 256
    → unpack_int3 m p ≡ m p + m (p + 1) * 2 ^ 8 + m (p + 2) * 2 ^ 16
unfolding unpack_int3
unpack_int3_lem m p ha hb hc = or3 (m p) (m (p + 1)) (m (p + 2)) ha hb hc

pub unpack_int4_lem :
    (m : Mem) (p : ℕ)
    → m p < 256
    → m (p + 1) < 256
    → m (p + 2) < 256
    → m (p + 3) < 256
    → unpack_int4 m p ≡ m p + m (p + 1) * 2 ^ 8 + m (p + 2) * 2 ^ 16 + m (p + 3) * 2 ^ 24
unfolding unpack_int4
unpack_int4_lem m p ha hb hc hd = or4 (m p) (m (p + 1)) (m (p + 2)) (m (p + 3)) ha hb hc hd

-- Four and eight bytes stay within the width that is read.
pub unpack_int4-lt :
    (m : Mem) (p : ℕ)
    → m p < 256
    → m (p + 1) < 256
    → m (p + 2) < 256
    → m (p + 3) < 256
    → unpack_int4 m p < 2 ^ 32
unpack_int4-lt m p a b c d = omega (arith, unpack_int4_lem m p a b c d)

pub unpack_int8-lt : (m : Mem) (p : ℕ) → ((a : ℕ) → m a < 256) → unpack_int8 m p < 2 ^ 64
unfolding unpack_int8
unpack_int8-lt m p b =
    let lo = unpack_int4-lt m p (b p) (b (p + 1)) (b (p + 2)) (b (p + 3)) in
    let hi = unpack_int4-lt m (p + 4) (b _) (b _) (b _) (b _) in
    let e : shl64 (unpack_int4 m (p + 4)) 32 ≡ unpack_int4 m (p + 4) * 2 ^ 32 = omega arith in
    rw e (omega (arith, or_shifted 32 (unpack_int4 m p) (unpack_int4 m (p + 4)) lo))

-- The bytes of `n` from bit `k` on stand at `p`.
abbrev pub Bytes2 : Mem → ℕ → ℕ → ℕ → Type 0
Bytes2 m p n k = (m p ≡ byte n k) × (m (p + 1) ≡ byte n (k + 8))

abbrev pub Bytes4 : Mem → ℕ → ℕ → ℕ → Type 0
Bytes4 m p n k =
    (m p ≡ byte n k)
    × (m (p + 1) ≡ byte n (k + 8))
    × (m (p + 2) ≡ byte n (k + 16))
    × (m (p + 3) ≡ byte n (k + 24))

pub unpack_int2_of : (m : Mem) (p n : ℕ) → Bytes2 m p n 0 → unpack_int2 m p ≡ n % 2 ^ 16
unpack_int2_of m p n h = omega (
  arith,
  byte_lem n 0,
  byte_lem n 8,
  unpack_int2_lem m p (omega (arith, byte-lt n 0)) (omega (arith, byte-lt n 8)),
)

pub unpack_int3_of :
    (m : Mem) (p n : ℕ)
    → (m p ≡ byte n 0) × (m (p + 1) ≡ byte n 8) × (m (p + 2) ≡ byte n 16)
    → unpack_int3 m p ≡ n % 2 ^ 24
unpack_int3_of m p n h = omega (
  arith,
  byte_lem n 0,
  byte_lem n 8,
  byte_lem n 16,
  unpack_int3_lem m p (omega (arith, byte-lt n 0)) (omega (arith, byte-lt n 8))
      (omega (arith, byte-lt n 16)),
)

pub unpack_int4_of : (m : Mem) (p n : ℕ) → Bytes4 m p n 0 → unpack_int4 m p ≡ n % 2 ^ 32
unpack_int4_of m p n h = omega (
  arith,
  byte_lem n 0,
  byte_lem n 8,
  byte_lem n 16,
  byte_lem n 24,
  unpack_int4_lem m p (omega (arith, byte-lt n 0)) (omega (arith, byte-lt n 8))
      (omega (arith, byte-lt n 16)) (omega (arith, byte-lt n 24)),
)

high_word_of : (m : Mem) (p n : ℕ) → Bytes4 m p n 32 → unpack_int4 m p ≡ n / 2 ^ 32 % 2 ^ 32
high_word_of m p n h = omega (
  arith,
  byte_lem n 32,
  byte_lem n 40,
  byte_lem n 48,
  byte_lem n 56,
  unpack_int4_lem m p (omega (arith, byte-lt n 32)) (omega (arith, byte-lt n 40))
      (omega (arith, byte-lt n 48)) (omega (arith, byte-lt n 56)),
)

pub unpack_int8_of :
    (m : Mem) (p n : ℕ) → Bytes4 m p n 0 → Bytes4 m (p + 4) n 32 → unpack_int8 m p ≡ n % 2 ^ 64
unfolding unpack_int8
unpack_int8_of m p n lo hi =
    let el : unpack_int4 m p ≡ n % 2 ^ 32 = unpack_int4_of m p n lo in
    let eh : shl64 (unpack_int4 m (p + 4)) 32 ≡ n / 2 ^ 32 % 2 ^ 32 * 2 ^ 32 =
      omega (arith, high_word_of m (p + 4) n hi) in
    ap₂ bit_or el eh ∙ or_shifted 32 (n % 2 ^ 32) (n / 2 ^ 32 % 2 ^ 32) (omega arith) ∙ omega arith

pub unpack_int2-pack_int2 : (m : Mem) (p n : ℕ) → unpack_int2 (pack_int2 m p n) p ≡ n % 2 ^ 16
unpack_int2-pack_int2 m p n = unpack_int2_of _ p n (unfold pack_int2 in ground arith)

pub unpack_int3-pack_int3 : (m : Mem) (p n : ℕ) → unpack_int3 (pack_int3 m p n) p ≡ n % 2 ^ 24
unpack_int3-pack_int3 m p n = unpack_int3_of _ p n (unfold pack_int3 in ground arith)

pub unpack_int4-pack_int4 : (m : Mem) (p n : ℕ) → unpack_int4 (pack_int4 m p n) p ≡ n % 2 ^ 32
unpack_int4-pack_int4 m p n = unpack_int4_of _ p n (unfold pack_int4 in ground arith)

pub unpack_int8-pack_int8 : (m : Mem) (p n : ℕ) → unpack_int8 (pack_int8 m p n) p ≡ n % 2 ^ 64
unpack_int8-pack_int8 m p n =
    unpack_int8_of _ p n (unfold pack_int8 in ground arith) (unfold pack_int8 in ground arith)

-- At each of the four widths, what a pack macro wrote at `p` is read back by the unpack macro of
-- that width as the number cut to the width: modulo 2 ^ 16, 2 ^ 24, 2 ^ 32 and 2 ^ 64.
pub unpack_int-pack_int :
    (m : Mem) (p n : ℕ)
    → (unpack_int2 (pack_int2 m p n) p ≡ n % 2 ^ 16)
      × (unpack_int3 (pack_int3 m p n) p ≡ n % 2 ^ 24)
      × (unpack_int4 (pack_int4 m p n) p ≡ n % 2 ^ 32)
      × (unpack_int8 (pack_int8 m p n) p ≡ n % 2 ^ 64)
unpack_int-pack_int m p n = (
  unpack_int2-pack_int2 m p n,
  unpack_int3-pack_int3 m p n,
  unpack_int4-pack_int4 m p n,
  unpack_int8-pack_int8 m p n,
)
