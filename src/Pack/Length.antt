-- ===== src/Pack/Length.antt =====
-- src/pack.cc: length-encoded integers and length-prefixed data.
-- A writer returns the memory and the advanced pointer.
use libattachsql.Prelude.{ℕ, ◌+◌, ltb, leb, ◌==◌, if◌then◌else◌}
use libattachsql.Prelude.Bits.{u8}
use libattachsql.Prelude.Memory.{Mem, store, copy}
use libattachsql.Pack.Ints.{
  PlainChar, char_u64, pack_int2, pack_int3, pack_int8, unpack_int2, unpack_int3, unpack_int8,
}

pub data PackStatus : Type 0 where
  pack_ok pack_invalid_argument pack_null : PackStatus

-- What `attachsql_unpack_length` returns and stores through `bytes` and `status`. For a NULL
-- buffer `bytes` is not stored, which 0 stands for.
pub record Unpacked : Type 0 where
  pub value : ℕ
  pub bytes : ℕ
  pub status : PackStatus

-- Every caller passes a `bytes` that is not NULL.
unfoldable pub unpack_length : PlainChar → Mem → ℕ → Unpacked
unpack_length cs m p =
    if p == 0
    then record { value = 0; bytes = 0; status = pack_invalid_argument }
    else if ltb (m p) 0xfb
    then record { value = char_u64 cs (m p); bytes = 1; status = pack_ok }
    else if m p == 0xfb
    then record { value = 0; bytes = 1; status = pack_null }
    else if m p == 0xfc
    then record { value = unpack_int2 m (p + 1); bytes = 3; status = pack_ok }
    else if m p == 0xfd
    then record { value = unpack_int3 m (p + 1); bytes = 4; status = pack_ok }
    else record { value = unpack_int8 m (p + 1); bytes = 9; status = pack_ok }

unfoldable pub pack_length : Mem → ℕ → ℕ → Mem × ℕ
pack_length m p n =
    if leb n 0xfa
    then (store m p (u8 n), p + 1)
    else if leb n 0xffff
    then (pack_int2 (store m p 0xfc) (p + 1) n, p + 1 + 2)
    else if leb n 0xffffff
    then (pack_int3 (store m p 0xfd) (p + 1) n, p + 1 + 3)
    else (pack_int8 (store m p 0xfe) (p + 1) n, p + 1 + 8)

unfoldable pub pack_data : Mem → ℕ → ℕ → ℕ → Mem × ℕ
pack_data m p length source =
    let (m', p') = pack_length m p length in
    if ltb 0 length then (copy m' p' source length, p' + length) else (m', p')
