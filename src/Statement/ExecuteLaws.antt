-- ===== src/Statement/ExecuteLaws.antt =====
-- Executing a statement sends the packet of the protocol.
use libattachsql.Prelude.{
  ℕ, ◌+◌, ◌-◌, ◌*◌, ◌≤◌, ◌≡◌, inl, inr, refl, ap, sym, ◌∙◌, arith, Bool, true, List, ◌∷◌, ◌++◌,
  length, length-append, ◌==◌, if◌then◌else◌, Option, none, some, [], ◌/◌, ◌≢◌, false, ap₂, bit_or,
  replicate,
}
use mathlib.Core.Path.{subst}
use mathlib.Core.List.{append_assoc}
use libattachsql.Prelude.Bits.{u16}
use libattachsql.Pack.Ints.{byte}
use libattachsql.Pack.DateTime.{bool_byte}
use libattachsql.Connect.Handshake.{int4_bytes}
use libattachsql.Prelude.Memory.{Mem, store, read, write_outside, read-write}
use libattachsql.Net.Connect.{Connect}
use libattachsql.Net.Response.{Platform}
use libattachsql.Command.Send.{packet_header_of, command_send, command_stmt_execute}
use libattachsql.Statement.Types.{
  StmtParam, ParamData, ColumnType, column_type_code, type_float, type_double, type_long,
  type_longlong, type_blob, type_string,
}
use libattachsql.Statement.PackLaws.{Encodes, long, longlong, float, double, string, blob, enough}
use libattachsql.Statement.Writes.{int2_bytes}
use libattachsql.Statement.Pack.{
  Exec, Realloc, packed, Packed, pack_execute, check_buffer_size, and_exec, pack_head, pack_params,
  stmt_param_unsigned_bit,
}
use libattachsql.Statement.Run.{Answers, Executed, with_exec, is_send, after_packing, stmt_execute}
use libattachsql.Statement.HeadLaws.{packet_bytes, front_bytes, head_bytes, started, packs}
use libattachsql.Statement.Laid.{Params, no_params, param, type_bytes, read_both, read_kept}
use libattachsql.Statement.PacketLaws.{pack_params-Laid}

pack_execute_lem :
    (answers : Realloc) (id : ℕ) (new_bind : Bool) (qs : List StmtParam) (vals : List ℕ) (x : Exec)
    → 2060 ≤ x.exec_buffer_length
    → Params x.memory x.exec_buffer x.exec_buffer_length qs vals
    → let packet = packet_bytes id new_bind qs vals in
      length packet ≤ x.exec_buffer_length
      → (y : Exec) × (pack_execute answers id new_bind qs x ≡ packed y (length packet))
        × (read y.memory y.exec_buffer (length packet) ≡ packet)
pack_execute_lem answers id new_bind qs vals x large params room =
    let front = front_bytes id new_bind qs in
    let b = x.exec_buffer in
    let s = started id new_bind qs x in
    let two = length-append front (type_bytes qs) in
    let three = length-append (front ++ type_bytes qs) vals in
    let from = length front + length (type_bytes qs) in
    let laid =
      pack_params-Laid answers x.memory (length front) 0 from s qs vals params
        (λ a out.
          write_outside x.memory b a front
            (elim out [ inl h ↦ inl h | inr h ↦ inr (omega (arith, h, two, three, room)) ]))
        (omega arith) (omega (arith, two, three, room)) (omega arith) in
    let types_at : b + length front + 0 * 2 ≡ b + length front = omega arith in
    let values_at : b + from ≡ b + length (front ++ type_bytes qs) = omega (arith, two) in
    let total : b + from + length vals - b ≡ length (packet_bytes id new_bind qs vals) =
      omega (arith, two, three) in
    let front_there =
      read_kept s.memory laid.last.memory b front
        (λ a h k. laid.keeps a (inl (omega (arith, k))) (inl (omega (arith, k))))
        (read-write x.memory b front) in
    let types_there : read laid.last.memory (b + length front) (length (type_bytes qs))
        ≡ type_bytes qs =
      ap (λ (a : ℕ). read laid.last.memory a (length (type_bytes qs))) (sym types_at)
      ∙ laid.holds_types in
    let values_there : read laid.last.memory (b + length (front ++ type_bytes qs)) (length vals)
        ≡ vals =
      ap (λ (a : ℕ). read laid.last.memory a (length vals)) (sym values_at) ∙ laid.holds_values in
    (
      laid.last,
      packs answers id new_bind qs x large params ∙ laid.ends ∙ ap (packed laid.last) total,
      ap (λ (a : ℕ). read laid.last.memory a (length (packet_bytes id new_bind qs vals))) laid.stays
          ∙ read_both laid.last.memory b (front ++ type_bytes qs) vals
              (read_both laid.last.memory b front (type_bytes qs) front_there types_there)
              values_there,
    )

-- The buffer of a statement, in the memory `m`.
abbrev pub exec_of : Mem → Connect → Exec
exec_of m c = record {
  memory = m;
  exec_buffer = c.stmt.exec_buffer;
  exec_buffer_length = c.stmt.exec_buffer_length;
}

-- What is sent when the packing has ended.
abbrev outcome_of : Platform → Option (List ℕ) → Connect → Exec → List ℕ → Executed
outcome_of e failure c y d =
    let s = command_send e failure (with_exec c y) command_stmt_execute d in
    record { done = is_send s.outcome; memory = y.memory; con = s.con; bytes = s.bytes }

outcome_sent :
    (e : Platform) (c : Connect) (y : Exec) (d : List ℕ)
    → c.write_buffer_extra ≡ 0
    → ((outcome_of e none c y d).done ≡ true)
      × ((outcome_of e none c y d).bytes ≡ packet_header_of (length d + 1) ++ (0x17 ∷ d))
unfolding command_send read packet_header_of
outcome_sent e c y d z =
    let count : length d + 1 + 0 ≡ length d + 1 = omega arith in
    (
      refl,
      ap
            (λ (n : ℕ).
              packet_header_of (length d + 1 + n)
              ++ (read (λ i. if i == 0 then 0x17 else c.write_buffer i) 0 (1 + n) ++ d))
            z
          ∙ ap (λ (n : ℕ). packet_header_of n ++ (0x17 ∷ d)) count,
    )

-- What the protocol of MySQL says of the types on the wire: a code, and a flag in the second byte.
abbrev pub protocol_type : ColumnType → ℕ
protocol_type type_float = 4
protocol_type type_double = 5
protocol_type type_long = 3
protocol_type type_longlong = 8
protocol_type type_blob = 252
protocol_type type_string = 254
protocol_type _ = 6

abbrev pub unsigned_flag : Bool → ℕ
unsigned_flag true = 128
unsigned_flag false = 0

abbrev pub protocol_types : List StmtParam → List ℕ
protocol_types [] = []
protocol_types (q ∷ qs) =
    protocol_type q.param_type ∷ unsigned_flag q.is_unsigned ∷ protocol_types qs

-- The packet of the protocol for at least one parameter, none of them NULL, that is bound anew: the
-- identifier, no cursor, the count 1, a mask without a bit, the mark of new types, the types and the
-- values.
abbrev pub protocol_packet : ℕ → List StmtParam → List ℕ → List ℕ
protocol_packet id qs vals =
    int4_bytes id
    ++ (0
        ∷ 1
        ∷ 0
        ∷ 0
        ∷ 0
        ∷ (replicate ((length qs + 7) / 8) 0 ++ (1 ∷ (protocol_types qs ++ vals))))

type_lem :
    {m : Mem} {b size len : ℕ} {t : ColumnType} {v : ParamData} {bs : List ℕ} (u : Bool)
    → Encodes m b size len t v bs
    → let type = u16 (column_type_code t) in
      int2_bytes (if u then bit_or type stmt_param_unsigned_bit else type)
      ≡ protocol_type t ∷ unsigned_flag u ∷ []
unfolding byte
type_lem true long = refl
type_lem false long = refl
type_lem true longlong = refl
type_lem false longlong = refl
type_lem true (float h) = refl
type_lem false (float h) = refl
type_lem true (double h) = refl
type_lem false (double h) = refl
type_lem true (string h) = refl
type_lem false (string h) = refl
type_lem true (blob h) = refl
type_lem false (blob h) = refl

types_lem :
    {m : Mem} {b size : ℕ} {qs : List StmtParam} {vals : List ℕ}
    → Params m b size qs vals
    → type_bytes qs ≡ protocol_types qs
types_lem no_params = refl
types_lem (param {q = q} kept enc more) = ap₂ ◌++◌ (type_lem q.is_unsigned enc) (types_lem more)

packet_lem :
    {m : Mem} {b size : ℕ} (id : ℕ) (qs : List StmtParam) (vals : List ℕ)
    → Params m b size qs vals
    → packet_bytes id true qs vals ≡ protocol_packet id qs vals
unfolding byte
packet_lem id qs vals params =
    let mask = replicate ((length qs + 7) / 8) 0 in
    ap (λ l. ((((int4_bytes id ++ (0 ∷ int4_bytes 1)) ++ mask) ++ (1 ∷ [])) ++ l) ++ vals)
      (types_lem params)
    ∙ ap (λ l. l ++ vals) (append_assoc (head_bytes id ((length qs + 7) / 8)) (1 ∷ []) _)
    ∙ append_assoc (head_bytes id ((length qs + 7) / 8)) (1 ∷ protocol_types qs) vals
    ∙ append_assoc (int4_bytes id ++ (0 ∷ int4_bytes 1)) mask (1 ∷ (protocol_types qs ++ vals))

-- The execution behind the first test of the buffer's size.
abbrev packing : Realloc → ℕ → Bool → List StmtParam → Exec → Packed
packing answers id new_bind qs x1 =
    let (x2, used, n) = pack_head id qs x1 in
    let x3 : Exec = record x2 {
      memory = store x2.memory (x2.exec_buffer + used) (bool_byte new_bind);
    } in
    pack_params answers (used + 1) qs 0 x3 (used + 1 + n * 2)

-- A buffer that is enlarged first is as if it had been there.
enlarged_first :
    (answers : Realloc) (id : ℕ) (new_bind : Bool) (qs : List StmtParam) (x y : Exec)
    → check_buffer_size answers 2060 x ≡ some y
    → 2060 ≤ y.exec_buffer_length
    → pack_execute answers id new_bind qs x ≡ pack_execute answers id new_bind qs y
unfolding pack_execute
enlarged_first answers id new_bind qs x y e large =
    ap (λ o. and_exec x o (packing answers id new_bind qs)) e
    ∙ sym (
        ap (λ o. and_exec y o (packing answers id new_bind qs))
          (enough answers x.memory y 2060 large))

-- A statement has at least one parameter, and its parameters hold numbers and strings, none NULL or
-- sent as long data, with the strings outside of the buffer; the types are new, as they always are, and
-- no extra bytes are in the write buffer. The buffer has 2060 bytes, if need be after the first of the
-- tests of its size, as in a first execution, and is not shorter than the packet of the protocol. Then
-- executing the statement succeeds where `uv_write` takes the bytes, and sends exactly this packet
-- behind the header and the command.
pub stmt_execute_lem :
    (e : Platform) (a : Answers) (m : Mem) (c : Connect) (vals : List ℕ) (x : Exec)
    → a.write_failure ≡ none
    → c.write_buffer_extra ≡ 0
    → c.stmt.new_bind ≡ true
    → c.stmt.param_data ≢ []
    → check_buffer_size a.realloc 2060 (exec_of m c) ≡ some x
    → 2060 ≤ x.exec_buffer_length
    → Params x.memory x.exec_buffer x.exec_buffer_length c.stmt.param_data vals
    → let packet = protocol_packet c.stmt.id c.stmt.param_data vals in
      length packet ≤ x.exec_buffer_length
      → (r : Executed) × (stmt_execute e a m c ≡ some r)
        × (r.done ≡ true)
        × (r.bytes ≡ packet_header_of (length packet + 1) ++ (0x17 ∷ packet))
unfolding stmt_execute after_packing
stmt_execute_lem e a m c vals x w z bound some_params first large params room =
    let qs = c.stmt.param_data in
    let packet = protocol_packet c.stmt.id qs vals in
    let same : packet_bytes c.stmt.id c.stmt.new_bind qs vals ≡ packet =
      ap (λ b. packet_bytes c.stmt.id b qs vals) bound ∙ packet_lem c.stmt.id qs vals params in
    let (y, done, there) =
      subst
        (λ (l : List ℕ).
          (y : Exec) × (pack_execute a.realloc c.stmt.id c.stmt.new_bind qs x ≡ packed y (length l))
          × (read y.memory y.exec_buffer (length l) ≡ l))
        same
        (pack_execute_lem a.realloc c.stmt.id c.stmt.new_bind qs vals x large params
          (subst (λ (l : List ℕ). length l ≤ x.exec_buffer_length) (sym same) room)) in
    let sent = outcome_sent e c y packet z in
    (
      outcome_of e none c y packet,
      ap (after_packing e a c) (
            enlarged_first a.realloc c.stmt.id c.stmt.new_bind qs (exec_of m c) x first large
            ∙ done)
          ∙ ap (λ (d : List ℕ). some (outcome_of e a.write_failure c y d)) there
          ∙ ap (λ (f : Option (List ℕ)). some (outcome_of e f c y packet)) w,
      sent.0,
      sent.1,
    )
