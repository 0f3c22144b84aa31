-- ===== src/Pack/DateTime.antt =====
-- src/pack.cc: dates and times, and `attachsql_datetime_st` of src/structs.h.
use libattachsql.Prelude.{ℕ, ◌+◌, Bool, true, false, not, ◌||◌, ltb, ◌==◌, if◌then◌else◌}
use libattachsql.Prelude.Bits.{u8}
use libattachsql.Prelude.Memory.{Mem, store}
use libattachsql.Pack.Ints.{PlainChar, char_u32, pack_int2, pack_int4, unpack_int2, unpack_int4}

pub record Datetime : Type 0 where
  pub year : ℕ
  pub month : ℕ
  pub day : ℕ
  pub hour : ℕ
  pub minute : ℕ
  pub second : ℕ
  pub microsecond : ℕ
  pub is_negative : Bool

-- The constructor of the struct.
abbrev pub new_datetime : Datetime
new_datetime = record {
  year = 0;
  month = 0;
  day = 0;
  hour = 0;
  minute = 0;
  second = 0;
  microsecond = 0;
  is_negative = false;
}

-- The parts of `attachsql_pack_datetime`: each guarded block returns the memory and `length`.
unfoldable pub pack_datetime_microsecond : Mem → ℕ → Datetime → Mem × ℕ
pack_datetime_microsecond m p d =
    if ltb 0 d.microsecond then (pack_int4 m (p + 8) d.microsecond, 11) else (m, 0)

unfoldable pub pack_datetime_clock : Mem → ℕ → Datetime → ℕ → Mem × ℕ
pack_datetime_clock m p d length =
    if ltb 0 length || (ltb 0 d.hour || (ltb 0 d.minute || ltb 0 d.second))
    then (
      store (store (store m (p + 5) (u8 d.hour)) (p + 6) (u8 d.minute)) (p + 7) (u8 d.second),
      if length == 0 then 7 else length,
    )
    else (m, length)

unfoldable pub pack_datetime_date : Mem → ℕ → Datetime → ℕ → Mem × ℕ
pack_datetime_date m p d length =
    if ltb 0 length || (ltb 0 d.year || (ltb 0 d.month || ltb 0 d.day))
    then (
      store (store (pack_int2 m (p + 1) d.year) (p + 3) (u8 d.month)) (p + 4) (u8 d.day),
      if length == 0 then 4 else length,
    )
    else (m, length)

-- `buffer[0]= (char) length; return (buffer + length + 1);`
abbrev pub finish : ℕ → Mem × ℕ → Mem × ℕ
finish p (m, length) = (store m p (u8 length), p + length + 1)

unfoldable pub pack_datetime : Mem → ℕ → Datetime → Bool → Mem × ℕ
unfolding pack_datetime_microsecond pack_datetime_clock pack_datetime_date
pack_datetime m p d true = finish p (pack_datetime_date m p d 0)
pack_datetime m p d false =
    let (m1, length1) = pack_datetime_microsecond m p d in
    let (m2, length2) = pack_datetime_clock m1 p d length1 in
    finish p (pack_datetime_date m2 p d length2)

-- The assignments of the three blocks of `attachsql_unpack_datetime`.
abbrev pub read_date : PlainChar → Mem → ℕ → Datetime → Datetime
read_date cs m p d = record d {
  is_negative = false;
  year = unpack_int2 m p;
  month = u8 (m (p + 2));
  day = char_u32 cs (m (p + 3));
}

abbrev pub read_clock : Mem → ℕ → Datetime → Datetime
read_clock m p d = record d {
  hour = u8 (m (p + 4));
  minute = u8 (m (p + 5));
  second = u8 (m (p + 6));
}

abbrev pub read_microsecond : Mem → ℕ → Datetime → Datetime
read_microsecond m p d = record d { microsecond = unpack_int4 m p }

unfoldable pub unpack_datetime : PlainChar → Mem → ℕ → ℕ → Datetime → Datetime
unpack_datetime cs m p length d =
    if length == 0
    then d
    else if ltb 4 length
    then (if ltb 7 length
        then read_microsecond m (p + 7) (read_clock m p (read_date cs m p d))
        else read_clock m p (read_date cs m p d))
    else read_date cs m p d

abbrev pub read_time : Mem → ℕ → Datetime → Datetime
read_time m p d = record d {
  is_negative = not (m p == 0);
  day = unpack_int4 m (p + 1);
  hour = u8 (m (p + 5));
  minute = u8 (m (p + 6));
  second = u8 (m (p + 7));
}

unfoldable pub unpack_time : Mem → ℕ → ℕ → Datetime → Datetime
unpack_time m p length d =
    if length == 0
    then d
    else if ltb 8 length
    then read_microsecond m (p + 8) (read_time m p d)
    else read_time m p d

abbrev pub bool_byte : Bool → ℕ
bool_byte true = 1
bool_byte false = 0

-- The guard of the middle block of `attachsql_pack_time`; it does not look at `hour`.
abbrev pub has_clock : Datetime → ℕ → Bool
has_clock t length = ltb 0 length || (ltb 0 t.day || (ltb 0 t.minute || ltb 0 t.second))

unfoldable pub pack_time_microsecond : Mem → ℕ → Datetime → Mem × ℕ
pack_time_microsecond m p t =
    if ltb 0 t.microsecond then (pack_int4 m (p + 9) t.microsecond, 12) else (m, 0)

unfoldable pub pack_time_clock : Mem → ℕ → Datetime → ℕ → Mem × ℕ
pack_time_clock m p t length =
    if has_clock t length
    then (
      store
          (store
            (store (pack_int4 (store m (p + 1) (bool_byte t.is_negative)) (p + 2) t.day) (p + 6)
              (u8 t.hour))
            (p + 7) (u8 t.minute))
          (p + 8) (u8 t.second),
      if length == 0 then 8 else length,
    )
    else (m, length)

unfoldable pub pack_time : Mem → ℕ → Datetime → Mem × ℕ
unfolding pack_time_microsecond pack_time_clock
pack_time m p t =
    let (m1, length1) = pack_time_microsecond m p t in finish p (pack_time_clock m1 p t length1)
