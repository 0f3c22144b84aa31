-- ===== src/Pack/DateTimeLaws.antt =====
-- Dates and times read back.
use libattachsql.Prelude.{
  ℕ, ◌+◌, ◌^◌, ◌<◌, ◌≡◌, refl, arith, Bool, true, false, ltb, ◌||◌, if◌then◌else◌,
}
use libattachsql.Prelude.Bits.{u8}
use libattachsql.Prelude.Memory.{Mem, store}
use libattachsql.Pack.Ints.{
  byte, PlainChar, signed_char, unsigned_char, char_u32, pack_int2, pack_int4, unpack_int2,
}
use libattachsql.Pack.IntLaws.{Bytes4, unpack_int2_of, unpack_int4_of}
use libattachsql.Pack.DateTime.{Datetime, new_datetime, pack_datetime, unpack_datetime}

-- The values that the fields' C types hold, with a day that is also a `char`.
pub record InRange (d : Datetime) : Type 0 where
  pub year_u16 : d.year < 2 ^ 16
  pub month_u8 : d.month < 2 ^ 8
  pub day_char : d.day < 128
  pub hour_u8 : d.hour < 2 ^ 8
  pub minute_u8 : d.minute < 2 ^ 8
  pub second_u8 : d.second < 2 ^ 8
  pub microsecond_u32 : d.microsecond < 2 ^ 32
  pub not_negative : d.is_negative ≡ false

-- The memory that `pack_datetime` leaves where all blocks wrote, and what the three blocks wrote.
abbrev pub clocked : Mem → ℕ → Datetime → Mem
clocked m p d =
    store (store (store m (p + 5) (u8 d.hour)) (p + 6) (u8 d.minute)) (p + 7) (u8 d.second)

abbrev pub dated : Mem → ℕ → Datetime → Mem
dated m p d = store (store (pack_int2 m (p + 1) d.year) (p + 3) (u8 d.month)) (p + 4) (u8 d.day)

unfoldable pub clock_needed : Datetime → Bool
clock_needed d = ltb 0 d.hour || (ltb 0 d.minute || ltb 0 d.second)

unfoldable pub date_needed : Datetime → Bool
date_needed d = ltb 0 d.year || (ltb 0 d.month || ltb 0 d.day)

-- The length byte that `pack_datetime` writes for a whole date and time.
unfoldable pub datetime_size : Datetime → ℕ
unfolding clock_needed date_needed
datetime_size d =
    if ltb 0 d.microsecond then 11 else if clock_needed d then 7 else if date_needed d then 4 else 0

module _ (m : Mem) (p : ℕ) (d : Datetime) where
  pub pack_11 :
      ltb 0 d.microsecond ≡ true
      → pack_datetime m p d false
        ≡ (store (dated (clocked (pack_int4 m (p + 8) d.microsecond) p d) p d) p 11, p + 11 + 1)
  unfolding pack_datetime
  pack_11 h = rw h

  pub pack_7 :
      ltb 0 d.microsecond ≡ false
      → clock_needed d ≡ true
      → pack_datetime m p d false ≡ (store (dated (clocked m p d) p d) p 7, p + 7 + 1)
  unfolding pack_datetime clock_needed
  pack_7 h k = rw (h, k)

  pub pack_4 :
      ltb 0 d.microsecond ≡ false
      → clock_needed d ≡ false
      → date_needed d ≡ true
      → pack_datetime m p d false ≡ (store (dated m p d) p 4, p + 4 + 1)
  unfolding pack_datetime clock_needed date_needed
  pack_4 h k l = rw (h, k, l)

  pub pack_0 :
      ltb 0 d.microsecond ≡ false
      → clock_needed d ≡ false
      → date_needed d ≡ false
      → pack_datetime m p d false ≡ (store m p 0, p + 0 + 1)
  unfolding pack_datetime clock_needed date_needed
  pack_0 h k l = rw (h, k, l)

char_u32_small : (cs : PlainChar) (b : ℕ) → b < 128 → char_u32 cs b ≡ b
unfolding char_u32
char_u32_small signed_char b h = ground arith
char_u32_small unsigned_char b h = refl

-- What the three blocks wrote from `q` on.
pub record DateAt (m : Mem) (q : ℕ) (d : Datetime) : Type 0 where
  pub year_low : m q ≡ byte d.year 0
  pub year_high : m (q + 1) ≡ byte d.year 8
  pub month_at : m (q + 2) ≡ u8 d.month
  pub day_at : m (q + 3) ≡ u8 d.day

pub record ClockAt (m : Mem) (q : ℕ) (d : Datetime) : Type 0 where
  pub hour_at : m (q + 4) ≡ u8 d.hour
  pub minute_at : m (q + 5) ≡ u8 d.minute
  pub second_at : m (q + 6) ≡ u8 d.second

module _ (cs : PlainChar) (m : Mem) (q : ℕ) (d : Datetime) (v : InRange d) (a : DateAt m q d) where
  year_lem : unpack_int2 m q ≡ d.year
  year_lem = omega (arith, unpack_int2_of m q d.year (a.year_low, a.year_high), v.year_u16)

  day_lem : char_u32 cs (m (q + 3)) ≡ d.day
  day_lem =
      let e : m (q + 3) ≡ d.day = omega (arith, a.day_at, v.day_char) in
      rw e (char_u32_small cs d.day v.day_char)

  pub read_4 :
      d.microsecond ≡ 0
      → d.hour ≡ 0
      → d.minute ≡ 0
      → d.second ≡ 0
      → unpack_datetime cs m q 4 new_datetime ≡ d
  unfolding unpack_datetime
  read_4 e0 e1 e2 e3 = ground (arith, year_lem, day_lem, a.month_at, v.month_u8, v.not_negative)

  pub read_7 : d.microsecond ≡ 0 → ClockAt m q d → unpack_datetime cs m q 7 new_datetime ≡ d
  unfolding unpack_datetime
  read_7 e0 c = ground (arith, year_lem, day_lem)

  pub read_11 :
      Bytes4 m (q + 7) d.microsecond 0 → ClockAt m q d → unpack_datetime cs m q 11 new_datetime ≡ d
  unfolding unpack_datetime
  read_11 b c = ground (arith, year_lem, day_lem, unpack_int4_of m (q + 7) d.microsecond b)
