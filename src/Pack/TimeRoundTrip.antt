-- ===== src/Pack/TimeRoundTrip.antt =====
-- `attachsql_unpack_time` reads what `attachsql_pack_time` of src/pack.cc wrote.
use libattachsql.Prelude.{
  ℕ, ◌+◌, ◌^◌, ◌<◌, ◌≡◌, inl, inr, refl, arith, Bool, true, false, not, ltb, ◌||◌, Bool-cases, ◌==◌,
  if◌then◌else◌,
}
use libattachsql.Prelude.Bits.{u8}
use libattachsql.Prelude.Memory.{Mem, store}
use libattachsql.Pack.Ints.{pack_int4}
use libattachsql.Pack.IntLaws.{Bytes4, unpack_int4_of}
use libattachsql.Pack.DateTime.{
  Datetime, new_datetime, bool_byte, has_clock, pack_time, unpack_time,
}

-- A time of day or a span, in the range of the fields' C types; the date fields but the day are
-- not part of it.
pub record TimeInRange (t : Datetime) : Type 0 where
  pub no_year : t.year ≡ 0
  pub no_month : t.month ≡ 0
  pub day_u32 : t.day < 2 ^ 32
  pub hour_u8 : t.hour < 2 ^ 8
  pub minute_u8 : t.minute < 2 ^ 8
  pub second_u8 : t.second < 2 ^ 8
  pub microsecond_u32 : t.microsecond < 2 ^ 32

-- Whether `pack_time` writes anything: it does not for a time that has an hour alone.
unfoldable pub time_is_sent : Datetime → Bool
time_is_sent t = ltb 0 t.microsecond || (ltb 0 t.day || (ltb 0 t.minute || ltb 0 t.second))

clocked : Mem → ℕ → Datetime → Mem
clocked m p t =
    store
      (store
        (store (pack_int4 (store m (p + 1) (bool_byte t.is_negative)) (p + 2) t.day) (p + 6)
          (u8 t.hour))
        (p + 7) (u8 t.minute))
      (p + 8) (u8 t.second)

module _ (m : Mem) (p : ℕ) (t : Datetime) where
  pack_12 :
      ltb 0 t.microsecond ≡ true
      → pack_time m p t ≡ (store (clocked (pack_int4 m (p + 9) t.microsecond) p t) p 12, p + 12 + 1)
  unfolding pack_time clocked
  pack_12 h = rw h

  pack_8 :
      ltb 0 t.microsecond ≡ false
      → has_clock t 0 ≡ true
      → pack_time m p t ≡ (store (clocked m p t) p 8, p + 8 + 1)
  unfolding pack_time clocked
  pack_8 h k = rw (h, k)

  pack_0 :
      ltb 0 t.microsecond ≡ false
      → has_clock t 0 ≡ false
      → pack_time m p t ≡ (store m p 0, p + 0 + 1)
  unfolding pack_time
  pack_0 h k = rw (h, k)

record TimeAt (m : Mem) (q : ℕ) (t : Datetime) : Type 0 where
  sign_at : m q ≡ bool_byte t.is_negative
  days_at : Bytes4 m (q + 1) t.day 0
  hour_at : m (q + 5) ≡ u8 t.hour
  minute_at : m (q + 6) ≡ u8 t.minute
  second_at : m (q + 7) ≡ u8 t.second

time_at : (m : Mem) (p k : ℕ) (t : Datetime) → TimeAt (store (clocked m p t) p k) (p + 1) t
unfolding clocked pack_int4
time_at m p k t = record {
  sign_at = ground arith;
  days_at = (ground arith, ground arith, ground arith, ground arith);
  hour_at = ground arith;
  minute_at = ground arith;
  second_at = ground arith;
}

microsecond_at :
    (m : Mem) (p k : ℕ) (t : Datetime)
    → Bytes4
        (store (clocked (pack_int4 m (p + 9) t.microsecond) p t) p k)
        (p + 1 + 8)
        t.microsecond
        0
unfolding clocked pack_int4
microsecond_at m p k t = (ground arith, ground arith, ground arith, ground arith)

sign_lem : (b : Bool) → not (bool_byte b == 0) ≡ b
sign_lem true = refl
sign_lem false = refl

module _ (m : Mem) (q : ℕ) (t : Datetime) (v : TimeInRange t) (a : TimeAt m q t) where
  sign_read : not (m q == 0) ≡ t.is_negative
  sign_read = rw (a.sign_at) (sign_lem t.is_negative)

  read_8 : t.microsecond ≡ 0 → unpack_time m q 8 new_datetime ≡ t
  unfolding unpack_time
  read_8 e = ground (arith, sign_read, unpack_int4_of m (q + 1) t.day a.days_at)

  read_12 : Bytes4 m (q + 8) t.microsecond 0 → unpack_time m q 12 new_datetime ≡ t
  unfolding unpack_time
  read_12 b = ground (
    arith,
    sign_read,
    unpack_int4_of m (q + 1) t.day a.days_at,
    unpack_int4_of m (q + 8) t.microsecond b,
  )

-- Unpacking what `pack_time` wrote gives back every time with a microsecond, second, minute or
-- day, its sign included, if its fields are in the range of their C types; any other time, so each
-- one that has an hour alone, comes back as the time 0.
pub unpack_time-pack_time :
    (m : Mem) (p : ℕ) (t : Datetime)
    → TimeInRange t
    → unpack_time (pack_time m p t).0 (p + 1) ((pack_time m p t).0 p) new_datetime
      ≡ (if time_is_sent t then t else new_datetime)
unfolding time_is_sent
unpack_time-pack_time m p t v = elim (Bool-cases (ltb 0 t.microsecond)) [
  | inl h ↦
      let e : store (clocked (pack_int4 m (p + 9) t.microsecond) p t) p 12 p ≡ 12 = ground arith in
      rw (pack_12 m p t h, e, h)
        (read_12 _ (p + 1) t v (time_at _ p 12 t) (microsecond_at m p 12 t))
  | inr h ↦ elim (Bool-cases (has_clock t 0)) [
    | inl k ↦
        let e : store (clocked m p t) p 8 p ≡ 8 = ground arith in
        rw (pack_8 m p t h k, e, h, k) (read_8 _ (p + 1) t v (time_at m p 8 t) (ground arith))
    | inr k ↦
        let e : store m p 0 p ≡ 0 = ground arith in
        rw (pack_0 m p t h k, e, h, k) (unfold unpack_time in refl)
  ]
]

-- So a time of some whole hours, with no minute, second, microsecond or day, is sent as the time 0.
hour_alone_lost :
    (m : Mem) (p hour : ℕ)
    → hour < 2 ^ 8
    → unpack_time
        (pack_time m p (record new_datetime { hour = hour })).0
        (p + 1)
        ((pack_time m p (record new_datetime { hour = hour })).0 p)
        new_datetime
      ≡ new_datetime
unfolding time_is_sent
hour_alone_lost m p hour h =
    unpack_time-pack_time m p (record new_datetime { hour = hour })
      (record {
        no_year = refl;
        no_month = refl;
        day_u32 = omega arith;
        hour_u8 = omega arith;
        minute_u8 = omega arith;
        second_u8 = omega arith;
        microsecond_u32 = omega arith;
      })
