-- ===== src/Pack/LengthLaws.antt =====
-- Length-encoded integers read back, and how many bytes they take.
use libattachsql.Prelude.{
  ℕ, ◌+◌, ◌-◌, ◌^◌, ◌≤◌, ◌<◌, ◌≡◌, ◌≢◌, ◌⊎◌, refl, ap, ◌∙◌, arith, leb, le→leb, lt→leb, ◌&&◌,
  if◌then◌else◌,
}
use libattachsql.Prelude.Bits.{u8}
use native.Mathlib.Decide.{dec_le}
use libattachsql.Prelude.Memory.{Mem, store}
use libattachsql.Pack.Ints.{
  PlainChar, signed_char, unsigned_char, char_u64, pack_int2, pack_int3, pack_int8, unpack_int2,
  unpack_int3, unpack_int8,
}
use libattachsql.Pack.IntLaws.{unpack_int2-pack_int2, unpack_int3-pack_int3, unpack_int8-pack_int8}
use libattachsql.Pack.Length.{pack_ok, Unpacked, unpack_length, pack_length}

-- The number of bytes that the protocol gives a length.
abbrev pub encoded_size : ℕ → ℕ
encoded_size n =
    if leb n 0xfa then 1 else if leb n 0xffff then 3 else if leb n 0xffffff then 4 else 9

-- What `unpack_length` answers for `n`: where a plain char is signed, the lengths 128 to 250 come
-- back extended by their sign.
abbrev pub read_back : PlainChar → ℕ → ℕ
read_back signed_char n = if leb 128 n && leb n 250 then n + (2 ^ 64 - 256) else n
read_back unsigned_char n = n

-- `pack_length` in each of its four ranges.
pack_length_1 : (m : Mem) (p n : ℕ) → n ≤ 0xfa → pack_length m p n ≡ (store m p (u8 n), p + 1)
unfolding pack_length
pack_length_1 m p n h = rw (le→leb n 0xfa h)

pack_length_2 :
    (m : Mem) (p n : ℕ)
    → 0xfa < n
    → n ≤ 0xffff
    → pack_length m p n ≡ (pack_int2 (store m p 0xfc) (p + 1) n, p + 1 + 2)
unfolding pack_length
pack_length_2 m p n l h = rw (lt→leb n 0xfa l, le→leb n 0xffff h)

pack_length_3 :
    (m : Mem) (p n : ℕ)
    → 0xffff < n
    → n ≤ 0xffffff
    → pack_length m p n ≡ (pack_int3 (store m p 0xfd) (p + 1) n, p + 1 + 3)
unfolding pack_length
pack_length_3 m p n l h = rw (lt→leb n 0xfa (omega arith), lt→leb n 0xffff l, le→leb n 0xffffff h)

pack_length_8 :
    (m : Mem) (p n : ℕ)
    → 0xffffff < n
    → pack_length m p n ≡ (pack_int8 (store m p 0xfe) (p + 1) n, p + 1 + 8)
unfolding pack_length
pack_length_8 m p n l =
    rw (lt→leb n 0xfa (omega arith), lt→leb n 0xffff (omega arith), lt→leb n 0xffffff l)

-- `unpack_length` by the first byte.
module _ (cs : PlainChar) (m : Mem) (p : ℕ) (hp : p ≢ 0) where
  pub unpack_length_1 :
      m p < 0xfb
      → unpack_length cs m p ≡ record { value = char_u64 cs (m p); bytes = 1; status = pack_ok }
  unfolding unpack_length
  unpack_length_1 h = ground arith

  pub unpack_length_2 :
      m p ≡ 0xfc
      → unpack_length cs m p ≡ record { value = unpack_int2 m (p + 1); bytes = 3; status = pack_ok }
  unfolding unpack_length
  unpack_length_2 h = ground arith

  pub unpack_length_3 :
      m p ≡ 0xfd
      → unpack_length cs m p ≡ record { value = unpack_int3 m (p + 1); bytes = 4; status = pack_ok }
  unfolding unpack_length
  unpack_length_3 h = ground arith

  pub unpack_length_8 :
      m p ≡ 0xfe
      → unpack_length cs m p ≡ record { value = unpack_int8 m (p + 1); bytes = 9; status = pack_ok }
  unfolding unpack_length
  unpack_length_8 h = ground arith

char_u64-read_back : (cs : PlainChar) (n : ℕ) → n ≤ 0xfa → char_u64 cs n ≡ read_back cs n
unfolding char_u64
char_u64-read_back signed_char n h = ground arith
char_u64-read_back unsigned_char n h = refl

read_back_long : (cs : PlainChar) (n : ℕ) → 0xfa < n → read_back cs n ≡ n
read_back_long signed_char n h = ground arith
read_back_long unsigned_char n h = refl

abbrev answer : ℕ → ℕ → Unpacked
answer k v = record { value = v; bytes = k; status = pack_ok }

pack_2_head : (m : Mem) (p n : ℕ) → pack_int2 (store m p 0xfc) (p + 1) n p ≡ 0xfc
unfolding pack_int2
pack_2_head m p n = ground arith

pack_3_head : (m : Mem) (p n : ℕ) → pack_int3 (store m p 0xfd) (p + 1) n p ≡ 0xfd
unfolding pack_int3
pack_3_head m p n = ground arith

pack_8_head : (m : Mem) (p n : ℕ) → pack_int8 (store m p 0xfe) (p + 1) n p ≡ 0xfe
unfolding pack_int8
pack_8_head m p n = ground arith

module _ (cs : PlainChar) (m : Mem) (p n : ℕ) (hp : p ≢ 0) where
  round_trip_1 : n ≤ 0xfa → unpack_length cs (store m p (u8 n)) p ≡ answer 1 (read_back cs n)
  round_trip_1 h =
      let e : store m p (u8 n) p ≡ n = ground arith in
      unpack_length_1 cs (store m p (u8 n)) p hp (omega (arith, e))
      ∙ ap (answer 1) (ap (char_u64 cs) e ∙ char_u64-read_back cs n h)

  round_trip_2 :
      0xfa < n
      → n ≤ 0xffff
      → unpack_length cs (pack_int2 (store m p 0xfc) (p + 1) n) p ≡ answer 3 (read_back cs n)
  round_trip_2 l h =
      unpack_length_2 cs (pack_int2 (store m p 0xfc) (p + 1) n) p hp (pack_2_head m p n)
      ∙ ap (answer 3)
          (omega (arith, unpack_int2-pack_int2 (store m p 0xfc) (p + 1) n, read_back_long cs n l))

  round_trip_3 :
      0xffff < n
      → n ≤ 0xffffff
      → unpack_length cs (pack_int3 (store m p 0xfd) (p + 1) n) p ≡ answer 4 (read_back cs n)
  round_trip_3 l h =
      let long : 0xfa < n = omega arith in
      unpack_length_3 cs (pack_int3 (store m p 0xfd) (p + 1) n) p hp (pack_3_head m p n)
      ∙ ap (answer 4) (
          omega (arith, unpack_int3-pack_int3 (store m p 0xfd) (p + 1) n, read_back_long cs n long))

  round_trip_8 :
      0xffffff < n
      → n < 2 ^ 64
      → unpack_length cs (pack_int8 (store m p 0xfe) (p + 1) n) p ≡ answer 9 (read_back cs n)
  round_trip_8 l h =
      let long : 0xfa < n = omega arith in
      unpack_length_8 cs (pack_int8 (store m p 0xfe) (p + 1) n) p hp (pack_8_head m p n)
      ∙ ap (answer 9) (
          omega (arith, unpack_int8-pack_int8 (store m p 0xfe) (p + 1) n, read_back_long cs n long))

-- A length below 2 ^ 64 that `pack_length` wrote at an address other than NULL is read back by
-- `unpack_length`, with the number of bytes that were written; but where a plain `char` is signed,
-- the lengths 128 to 250 come back with 2 ^ 64 - 256 added.
pub unpack_length-pack_length :
    (cs : PlainChar) (m : Mem) (p n : ℕ)
    → p ≢ 0
    → n < 2 ^ 64
    → unpack_length cs (pack_length m p n).0 p
      ≡ record { value = read_back cs n; bytes = (pack_length m p n).1 - p; status = pack_ok }
unpack_length-pack_length cs m p n hp hn = elim (dec_le n 0xfa) [
  | yes h ↦
      rw (pack_length_1 m p n h)
        (round_trip_1 cs m p n hp h ∙ ap (λ (k : ℕ). answer k (read_back cs n)) (omega arith))
  | no l ↦ elim (dec_le n 0xffff) [
    | yes h ↦ rw (pack_length_2 m p n (omega arith) h) (
        round_trip_2 cs m p n hp (omega arith) h
        ∙ ap (λ (k : ℕ). answer k (read_back cs n)) (omega arith))
    | no l2 ↦ elim (dec_le n 0xffffff) [
      | yes h ↦ rw (pack_length_3 m p n (omega arith) h) (
          round_trip_3 cs m p n hp (omega arith) h
          ∙ ap (λ (k : ℕ). answer k (read_back cs n)) (omega arith))
      | no l3 ↦ rw (pack_length_8 m p n (omega arith)) (
          round_trip_8 cs m p n hp (omega arith) hn
          ∙ ap (λ (k : ℕ). answer k (read_back cs n)) (omega arith))
    ]
  ]
]

-- `pack_length` advances the pointer by 1, 3, 4 or 9 bytes, by the range of the length, and
-- leaves every byte outside those as it was.
pub pack_length_frame :
    (m : Mem) (p n a : ℕ)
    → (a < p) ⊎ (p + encoded_size n ≤ a)
    → ((pack_length m p n).1 ≡ p + encoded_size n) × ((pack_length m p n).0 a ≡ m a)
pack_length_frame m p n a out = elim (dec_le n 0xfa) [
  | yes h ↦ rw (pack_length_1 m p n h) (ground arith, ground arith)
  | no l ↦ elim (dec_le n 0xffff) [
    | yes h ↦
        rw (pack_length_2 m p n (omega arith) h) (unfold pack_int2 in (ground arith, ground arith))
    | no l2 ↦ elim (dec_le n 0xffffff) [
      | yes h ↦
          rw (pack_length_3 m p n (omega arith) h)
            (unfold pack_int3 in (ground arith, ground arith))
      | no l3 ↦
          rw (pack_length_8 m p n (omega arith)) (unfold pack_int8 in (ground arith, ground arith))
    ]
  ]
]
