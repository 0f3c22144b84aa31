-- ===== src/Pack/Ints.antt =====
-- The packing macros of src/pack_macros.h, and the casts of a plain `char`.
-- A macro's `__buffer` is the address `p`; memory holds unsigned bytes.
use libattachsql.Prelude.{ℕ, ◌+◌, ◌-◌, ◌*◌, ◌^◌, bit_and, bit_or, ltb, if◌then◌else◌}
use libattachsql.Prelude.Bits.{u8, u16, shr, shl32, shl64}
use libattachsql.Prelude.Memory.{Mem, store}

-- `(uint8_t)((n >> k) & 0xFF)`.
unfoldable pub byte : ℕ → ℕ → ℕ
byte n k = u8 (bit_and (shr n k) 0xff)

unfoldable pub pack_int2 : Mem → ℕ → ℕ → Mem
pack_int2 m p n = store (store m p (byte n 0)) (p + 1) (byte n 8)

unfoldable pub pack_int3 : Mem → ℕ → ℕ → Mem
pack_int3 m p n = store (store (store m p (byte n 0)) (p + 1) (byte n 8)) (p + 2) (byte n 16)

unfoldable pub pack_int4 : Mem → ℕ → ℕ → Mem
pack_int4 m p n =
    store (store (store (store m p (byte n 0)) (p + 1) (byte n 8)) (p + 2) (byte n 16)) (p + 3)
      (byte n 24)

unfoldable pub pack_int8 : Mem → ℕ → ℕ → Mem
pack_int8 m p n =
    let m4 =
      store (store (store (store m p (byte n 0)) (p + 1) (byte n 8)) (p + 2) (byte n 16)) (p + 3)
        (byte n 24) in
    store (store (store (store m4 (p + 4) (byte n 32)) (p + 5) (byte n 40)) (p + 6) (byte n 48))
      (p + 7) (byte n 56)

unfoldable pub unpack_int2 : Mem → ℕ → ℕ
unpack_int2 m p = u16 (bit_or (m p) (m (p + 1) * 2 ^ 8))

unfoldable pub unpack_int3 : Mem → ℕ → ℕ
unpack_int3 m p = bit_or (bit_or (m p) (shl32 (m (p + 1)) 8)) (shl32 (m (p + 2)) 16)

unfoldable pub unpack_int4 : Mem → ℕ → ℕ
unpack_int4 m p =
    bit_or (bit_or (bit_or (m p) (shl32 (m (p + 1)) 8)) (shl32 (m (p + 2)) 16))
      (shl32 (m (p + 3)) 24)

unfoldable pub unpack_int8 : Mem → ℕ → ℕ
unpack_int8 m p = bit_or (unpack_int4 m p) (shl64 (unpack_int4 m (p + 4)) 32)

-- Whether a plain `char` is signed is the compiler's choice: it is on x86, and is not on ARM.
pub data PlainChar : Type 0 where
  signed_char unsigned_char : PlainChar

-- `(uint64_t)c` and `(uint32_t)c` of a plain `char` that holds the byte `b`: a signed one is
-- extended by its sign.
unfoldable pub char_u64 : PlainChar → ℕ → ℕ
char_u64 signed_char b = if ltb b 128 then b else b + (2 ^ 64 - 256)
char_u64 unsigned_char b = b

unfoldable pub char_u32 : PlainChar → ℕ → ℕ
char_u32 signed_char b = if ltb b 128 then b else b + (2 ^ 32 - 256)
char_u32 unsigned_char b = b
