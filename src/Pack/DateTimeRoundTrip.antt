-- ===== src/Pack/DateTimeRoundTrip.antt =====
-- `attachsql_unpack_datetime` reads what `attachsql_pack_datetime` of src/pack.cc wrote.
use libattachsql.Prelude.{ℕ, ◌+◌, ◌≤◌, ◌<◌, ◌≡◌, ◌⊎◌, inl, inr, refl, arith, false, ltb, Bool-cases}
use libattachsql.Prelude.Memory.{Mem, store}
use libattachsql.Pack.Ints.{PlainChar, pack_int2, pack_int4}
use libattachsql.Pack.IntLaws.{Bytes4}
use libattachsql.Pack.DateTime.{Datetime, new_datetime, pack_datetime, unpack_datetime}
use libattachsql.Pack.DateTimeLaws.{
  InRange, clocked, dated, clock_needed, date_needed, datetime_size, pack_11, pack_7, pack_4,
  pack_0, DateAt, ClockAt, read_4, read_7, read_11,
}

-- Each block's bytes, in the memory of each case.
module _ (m : Mem) (p k : ℕ) (d : Datetime) where
  date_at : DateAt (store (dated m p d) p k) (p + 1) d
  unfolding pack_int2
  date_at = record {
    year_low = ground arith;
    year_high = ground arith;
    month_at = ground arith;
    day_at = ground arith;
  }

  clock_at : ClockAt (store (dated (clocked m p d) p d) p k) (p + 1) d
  unfolding pack_int2
  clock_at = record { hour_at = ground arith; minute_at = ground arith; second_at = ground arith }

  microsecond_at :
      Bytes4
        (store (dated (clocked (pack_int4 m (p + 8) d.microsecond) p d) p d) p k)
        (p + 1 + 7)
        d.microsecond
        0
  unfolding pack_int2 pack_int4
  microsecond_at = (ground arith, ground arith, ground arith, ground arith)

  size_at : store m p k p ≡ k
  size_at = ground arith

clock_zero :
    (d : Datetime) → clock_needed d ≡ false → (d.hour ≡ 0) × (d.minute ≡ 0) × (d.second ≡ 0)
unfolding clock_needed
clock_zero d h = ground arith

zero_datetime :
    (d : Datetime)
    → InRange d
    → ltb 0 d.microsecond ≡ false
    → clock_needed d ≡ false
    → date_needed d ≡ false
    → new_datetime ≡ d
unfolding clock_needed date_needed
zero_datetime d v h k l = ground (arith, v.not_negative)

-- Unpacking with the length byte and the bytes that `pack_datetime` wrote for a whole date and
-- time gives the date and time back, whatever parts of it are zero, if its fields are in the range
-- of their C types and the day is below 128.
pub unpack_datetime-pack_datetime :
    (cs : PlainChar) (m : Mem) (p : ℕ) (d : Datetime)
    → InRange d
    → unpack_datetime cs
        (pack_datetime m p d false).0
        (p + 1)
        ((pack_datetime m p d false).0 p)
        new_datetime
      ≡ d
unpack_datetime-pack_datetime cs m p d v = elim (Bool-cases (ltb 0 d.microsecond)) [
  | inl h ↦
      rw (pack_11 m p d h, size_at)
        (read_11 cs _ (p + 1) d v (date_at _ p 11 d) (microsecond_at m p 11 d) (clock_at _ p 11 d))
  | inr h ↦ elim (Bool-cases (clock_needed d)) [
    | inl k ↦
        rw (pack_7 m p d h k, size_at)
          (read_7 cs _ (p + 1) d v (date_at _ p 7 d) (ground arith) (clock_at m p 7 d))
    | inr k ↦ elim (Bool-cases (date_needed d)) [
      | inl l ↦
          let z = clock_zero d k in
          rw (pack_4 m p d h k l, size_at)
            (read_4 cs _ (p + 1) d v (date_at _ p 4 d) (ground arith) z.0 z.1 z.2)
      | inr l ↦ rw (pack_0 m p d h k l, size_at) (unfold unpack_datetime in zero_datetime d v h k l)
    ]
  ]
]

-- `pack_datetime` returns the address behind the length byte and the bytes that it counts, at most
-- 12 bytes on, and leaves every byte from there on and every byte before `p` as it was.
pub pack_datetime_frame :
    (m : Mem) (p a : ℕ) (d : Datetime)
    → (a < p) ⊎ (p + datetime_size d + 1 ≤ a)
    → ((pack_datetime m p d false).1 ≡ p + datetime_size d + 1)
      × (datetime_size d ≤ 11)
      × ((pack_datetime m p d false).0 a ≡ m a)
unfolding datetime_size
pack_datetime_frame m p a d out = elim (Bool-cases (ltb 0 d.microsecond)) [
  | inl h ↦
      rw (pack_11 m p d h, h) (unfold pack_int2 pack_int4 in (refl, omega arith, ground arith))
  | inr h ↦ elim (Bool-cases (clock_needed d)) [
    | inl k ↦ rw (pack_7 m p d h k, h, k) (unfold pack_int2 in (refl, omega arith, ground arith))
    | inr k ↦ elim (Bool-cases (date_needed d)) [
      | inl l ↦
          rw (pack_4 m p d h k l, h, k, l) (unfold pack_int2 in (refl, omega arith, ground arith))
      | inr l ↦ rw (pack_0 m p d h k l, h, k, l) (refl, omega arith, ground arith)
    ]
  ]
]
