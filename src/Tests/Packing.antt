-- ===== src/Tests/Packing.antt =====
-- src/pack.cc and src/pack_macros.h at concrete inputs.
use libattachsql.Prelude.{◌-◌, ◌^◌, ◌≡◌, refl, arith, true, false, [], ◌∷◌}
use libattachsql.Prelude.Memory.{Mem, read}
use libattachsql.Pack.Ints.{byte, signed_char, pack_int2}
use libattachsql.Pack.Length.{Unpacked, pack_ok, pack_length, unpack_length}
use libattachsql.Pack.LengthLaws.{unpack_length-pack_length}
use libattachsql.Pack.DateTime.{
  Datetime, new_datetime, pack_datetime, unpack_datetime, pack_time, unpack_time,
}
use libattachsql.Pack.DateTimeLaws.{InRange}
use libattachsql.Pack.DateTimeRoundTrip.{unpack_datetime-pack_datetime}
use libattachsql.Pack.TimeRoundTrip.{time_is_sent, unpack_time-pack_time}

abbrev blank : Mem
blank a = 0xee

-- The bytes of a 300-byte length, and of the length 200 where a plain char is signed.
pack_length_300 : read (pack_length blank 16 300).0 16 4 ≡ 0xfc ∷ 44 ∷ 1 ∷ 0xee ∷ []
unfolding pack_length read pack_int2 byte
pack_length_300 = refl

abbrev read_200 : Unpacked
read_200 = record { value = 2 ^ 64 - 56; bytes = 1; status = pack_ok }

unpack_length-pack_length_example :
    unpack_length signed_char (pack_length blank 16 200).0 16
    ≡ record read_200 { bytes = (pack_length blank 16 200).1 - 16 }
unpack_length-pack_length_example =
    unpack_length-pack_length signed_char blank 16 200 (omega arith) (omega arith)

abbrev noon : Datetime
noon = record new_datetime { year = 2014; month = 10; day = 31; hour = 12 }

abbrev noon-InRange : InRange noon
noon-InRange = record {
  year_u16 = omega arith;
  month_u8 = omega arith;
  day_char = omega arith;
  hour_u8 = omega arith;
  minute_u8 = omega arith;
  second_u8 = omega arith;
  microsecond_u32 = omega arith;
  not_negative = refl;
}

pack_noon :
    read (pack_datetime blank 16 noon false).0 16 8 ≡ 7 ∷ 222 ∷ 7 ∷ 10 ∷ 31 ∷ 12 ∷ 0 ∷ 0 ∷ []
unfolding pack_datetime read pack_int2 byte
pack_noon = refl

unpack_datetime-pack_datetime_example :
    unpack_datetime signed_char
      (pack_datetime blank 16 noon false).0
      17
      ((pack_datetime blank 16 noon false).0 16)
      new_datetime
    ≡ noon
unpack_datetime-pack_datetime_example =
    unpack_datetime-pack_datetime signed_char blank 16 noon noon-InRange

-- Half past one, and three o'clock sharp, which is not sent.
abbrev half_past : Datetime
half_past = record new_datetime { hour = 1; minute = 30; is_negative = true }

unpack_time-pack_time_example :
    unpack_time
      (pack_time blank 16 half_past).0
      17
      ((pack_time blank 16 half_past).0 16)
      new_datetime
    ≡ half_past
unfolding time_is_sent
unpack_time-pack_time_example = unpack_time-pack_time blank 16 half_past (record {
  no_year = refl;
  no_month = refl;
  day_u32 = omega arith;
  hour_u8 = omega arith;
  minute_u8 = omega arith;
  second_u8 = omega arith;
  microsecond_u32 = omega arith;
})

three_oclock : read (pack_time blank 16 (record new_datetime { hour = 3 })).0 16 2 ≡ 0 ∷ 0xee ∷ []
unfolding pack_time read
three_oclock = refl
