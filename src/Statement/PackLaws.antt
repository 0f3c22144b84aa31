-- ===== src/Statement/PackLaws.antt =====
-- What the packing of a parameter stores in the buffer of an execution.
use libattachsql.Prelude.{
  ℕ, ◌+◌, ◌-◌, ◌≤◌, ◌<◌, ◌≡◌, ◌⊎◌, inl, inr, refl, ap, sym, ◌∙◌, arith, false, List, ◌++◌, length,
  length-append, ltb, ◌==◌, some,
}
use libattachsql.Prelude.Memory.{Mem, write, read, read_ext, length-read}
use libattachsql.Pack.Length.{pack_data}
use libattachsql.Connect.Handshake.{int4_bytes}
use libattachsql.Statement.Types.{
  ColumnType, column_type_code, ParamData, int_data, bigint_data, float_data, double_data,
  string_data, StmtParam, type_long, type_float, type_double, type_longlong, type_blob, type_string,
}
use libattachsql.Statement.Pack.{Exec, Realloc, Packed, check_buffer_size, put_string, put_value}
use libattachsql.Statement.Writes.{int8_bytes, length_bytes, write-int4, write-int8, write-data}

-- The buffer is the `size` bytes from `b` on, and `m` is the memory before. The bytes that the value
-- of a parameter has on the wire, for the types that the setters of numbers and strings give it.
pub data Encodes (m : Mem) (b size len : ℕ) : ColumnType → ParamData → List ℕ → Type 0 where
  long : {n : ℕ} → Encodes m b size len type_long (int_data n) (int4_bytes n)
  longlong : {n : ℕ} → Encodes m b size len type_longlong (bigint_data n) (int8_bytes n)
  float : {bs : List ℕ} → length bs ≡ 4 → Encodes m b size len type_float (float_data bs) bs
  double : {bs : List ℕ} → length bs ≡ 8 → Encodes m b size len type_double (double_data bs) bs
  string :
      {a : ℕ}
      → (a + len ≤ b) ⊎ (b + size ≤ a)
      → Encodes m b size len type_string (string_data a) (length_bytes len ++ read m a len)
  blob :
      {a : ℕ}
      → (a + len ≤ b) ⊎ (b + size ≤ a)
      → Encodes m b size len type_blob (string_data a) (length_bytes len ++ read m a len)

pub encoded_not_null :
    (m : Mem) (b size len : ℕ) {t : ColumnType} {v : ParamData} {bs : List ℕ}
    → Encodes m b size len t v bs
    → (column_type_code t == 0x06) ≡ false
encoded_not_null m b size len long = refl
encoded_not_null m b size len longlong = refl
encoded_not_null m b size len (float h) = refl
encoded_not_null m b size len (double h) = refl
encoded_not_null m b size len (string h) = refl
encoded_not_null m b size len (blob h) = refl

-- The memory is as before outside of the buffer.
abbrev pub Agrees : Mem → Mem → ℕ → ℕ → Type 0
Agrees m m' b size = (a : ℕ) → (a < b) ⊎ (b + size ≤ a) → m' a ≡ m a

abbrev pub wrote : Exec → ℕ → List ℕ → Exec
wrote x p bs = record x { memory = write x.memory p bs }

module _ (answers : Realloc) (m : Mem) where
  pub enough :
      (x : Exec) (required : ℕ)
      → required ≤ x.exec_buffer_length
      → check_buffer_size answers required x ≡ some x
  unfolding check_buffer_size
  enough x required h =
      let large : ltb x.exec_buffer_length required ≡ false = ground arith in rw large refl

  source_kept :
      (x : Exec) (a len : ℕ)
      → Agrees m x.memory x.exec_buffer x.exec_buffer_length
      → (a + len ≤ x.exec_buffer) ⊎ (x.exec_buffer + x.exec_buffer_length ≤ a)
      → read x.memory a len ≡ read m a len
  source_kept x a len k (inl h) =
      read_ext x.memory m a a len (λ i l. k (a + i) (inl (omega (arith, h, l))))
  source_kept x a len k (inr h) =
      read_ext x.memory m a a len (λ i l. k (a + i) (inr (omega (arith, h, l))))

  put_string-writes :
      (x : Exec) (used len a : ℕ) (rest : Exec → ℕ → Packed)
      → let bs = length_bytes len ++ read m a len in
        Agrees m x.memory x.exec_buffer x.exec_buffer_length
        → (a + len ≤ x.exec_buffer) ⊎ (x.exec_buffer + x.exec_buffer_length ≤ a)
        → used + length bs ≤ x.exec_buffer_length
        → put_string answers x used len a rest
          ≡ rest (wrote x (x.exec_buffer + used) bs) (used + length bs)
  unfolding put_string
  put_string-writes x used len a rest k apart room =
      let p = x.exec_buffer + used in
      let bs = length_bytes len ++ read m a len in
      let size : length bs ≡ length (length_bytes len) + len =
        length-append (length_bytes len) (read m a len)
        ∙ ap (λ (n : ℕ). length (length_bytes len) + n) (length-read m a len) in
      let fits : len ≤ x.exec_buffer_length = omega (arith, size, room) in
      let behind : (a + len ≤ p) ⊎ (p + length (length_bytes len) ≤ a) = elim apart [
        | inl h ↦ inl (omega (arith, h))
        | inr h ↦ inr (omega (arith, h, size, room))
      ] in
      let stored : pack_data x.memory p len a ≡ (write x.memory p bs, p + length bs) =
        write-data x.memory p len a behind
        ∙ ap
            (λ (l : List ℕ).
              (write x.memory p (length_bytes len ++ l), p + length (length_bytes len ++ l)))
            (source_kept x a len k apart) in
      let offset : p + length bs - p ≡ length bs = omega arith in
      rw (enough x len fits, stored, offset) refl

  pub put_value-writes :
      (x : Exec) (used : ℕ) (q : StmtParam) {t : ColumnType} {v : ParamData} {bs : List ℕ}
      (rest : Exec → ℕ → Packed)
      → Agrees m x.memory x.exec_buffer x.exec_buffer_length
      → Encodes m x.exec_buffer x.exec_buffer_length q.param_length t v bs
      → used + length bs ≤ x.exec_buffer_length
      → put_value answers x used q t v rest
        ≡ rest (wrote x (x.exec_buffer + used) bs) (used + length bs)
  unfolding put_value
  put_value-writes x used q rest k (long {n = n}) room =
      ap (λ (d : Mem). rest (record x { memory = d }) (used + 4))
        (write-int4 x.memory (x.exec_buffer + used) n)
  put_value-writes x used q rest k (longlong {n = n}) room =
      ap (λ (d : Mem). rest (record x { memory = d }) (used + 8))
        (write-int8 x.memory (x.exec_buffer + used) n)
  put_value-writes x used q rest k (float {bs = bs} h) room =
      ap (λ (n : ℕ). rest (wrote x (x.exec_buffer + used) bs) (used + n)) (sym h)
  put_value-writes x used q rest k (double {bs = bs} h) room =
      ap (λ (n : ℕ). rest (wrote x (x.exec_buffer + used) bs) (used + n)) (sym h)
  put_value-writes x used q rest k (string {a = a} h) room =
      put_string-writes x used q.param_length a rest k h room
  put_value-writes x used q rest k (blob {a = a} h) room =
      put_string-writes x used q.param_length a rest k h room
