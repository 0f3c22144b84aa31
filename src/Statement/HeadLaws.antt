-- ===== src/Statement/HeadLaws.antt =====
-- What the packet of an execution holds before the types of the parameters.
use libattachsql.Prelude.{
  ℕ, zero, suc, ◌+◌, ◌*◌, ◌/◌, ◌≤◌, ◌≡◌, refl, ap, ap₂, ◌∙◌, arith, Bool, List, [], ◌∷◌, ◌++◌,
  length, length-append, Option, replicate,
}
use libattachsql.Prelude.Memory.{Mem, store, write}
use libattachsql.Pack.Ints.{pack_int4}
use libattachsql.Pack.DateTime.{bool_byte}
use libattachsql.Connect.Handshake.{int4_bytes}
use libattachsql.Statement.Types.{StmtParam}
use libattachsql.Statement.Pack.{
  Exec, Realloc, Packed, and_exec, null_mask, pack_head, pack_params, pack_execute,
}
use libattachsql.Statement.Writes.{write-int4, write-append}
use libattachsql.Statement.PackLaws.{encoded_not_null, enough}
use libattachsql.Statement.Laid.{Params, no_params, param, type_bytes, length-type_bytes}

length-replicate : (n x : ℕ) → length (replicate n x) ≡ n
length-replicate zero x = refl
length-replicate (suc n) x = ap suc (length-replicate n x)

null_mask-nothing :
    {m : Mem} {b size : ℕ} {qs : List StmtParam} {vals : List ℕ} (k p : ℕ) (d : Mem)
    → Params m b size qs vals
    → null_mask qs k p d ≡ (d, length qs)
unfolding null_mask
null_mask-nothing k p d no_params = refl
null_mask-nothing k p d (param {qs = qs} long enc more) =
    let one_more : length qs + 1 ≡ suc (length qs) = omega arith in
    rw (encoded_not_null _ _ _ _ enc, null_mask-nothing (k + 1) p d more)
      (ap (λ (n : ℕ). (d, n)) one_more)

-- The identifier, the flags, the count and a mask without a bit.
abbrev pub head_bytes : ℕ → ℕ → List ℕ
head_bytes id bytes = (int4_bytes id ++ (0 ∷ int4_bytes 1)) ++ replicate bytes 0

pub write-head :
    (d : Mem) (p id bytes : ℕ)
    → write (pack_int4 (store (pack_int4 d p id) (p + 4) 0) (p + 5) 1) (p + 9) (replicate bytes 0)
      ≡ write d p (head_bytes id bytes)
unfolding write
write-head d p id bytes =
    ap (λ (m : Mem). write (pack_int4 (store m (p + 4) 0) (p + 5) 1) (p + 9) (replicate bytes 0))
      (write-int4 d p id)
    ∙ ap (λ (m : Mem). write (pack_int4 m (p + 5) 1) (p + 9) (replicate bytes 0))
        (write-append d p (int4_bytes id) (0 ∷ []))
    ∙ ap (λ (m : Mem). write m (p + 9) (replicate bytes 0))
        (write-int4 (write d p (int4_bytes id ++ (0 ∷ []))) (p + 5) 1
          ∙ write-append d p (int4_bytes id ++ (0 ∷ [])) (int4_bytes 1))
    ∙ write-append d p (int4_bytes id ++ (0 ∷ int4_bytes 1)) (replicate bytes 0)

pack_head_lem :
    {m : Mem} {b size : ℕ} {qs : List StmtParam} {vals : List ℕ} (id : ℕ) (x : Exec)
    → Params m b size qs vals
    → pack_head id qs x ≡ (
      record x { memory = write x.memory x.exec_buffer (head_bytes id ((length qs + 7) / 8)) },
      9 + (length qs + 7) / 8,
      length qs,
    )
unfolding pack_head
pack_head_lem {qs = qs} id x params =
    let p = x.exec_buffer in
    let bytes = (length qs + 7) / 8 in
    let d =
      write (pack_int4 (store (pack_int4 x.memory p id) (p + 4) 0) (p + 5) 1) (p + 9)
        (replicate bytes 0) in
    ap (λ (r : Mem × ℕ). (record x { memory = r.0 }, 9 + bytes, r.1))
      (null_mask-nothing 0 (p + 9) d params
        ∙ ap (λ (w : Mem). (w, length qs)) (write-head x.memory p id bytes))

-- What stands before the types: the head, and whether the types are new.
abbrev pub front_bytes : ℕ → Bool → List StmtParam → List ℕ
front_bytes id new_bind qs = head_bytes id ((length qs + 7) / 8) ++ (bool_byte new_bind ∷ [])

-- What is packed where no parameter is NULL, so no bit of the mask is set. For no parameters at all
-- it has a byte that the protocol leaves out.
abbrev pub packet_bytes : ℕ → Bool → List StmtParam → List ℕ → List ℕ
packet_bytes id new_bind qs vals = (front_bytes id new_bind qs ++ type_bytes qs) ++ vals

pub length-front :
    (id : ℕ) (new_bind : Bool) (qs : List StmtParam)
    → length (front_bytes id new_bind qs) ≡ 10 + (length qs + 7) / 8
length-front id new_bind qs =
    let n = length-replicate ((length qs + 7) / 8) 0 in
    omega (arith, n, length-append (replicate ((length qs + 7) / 8) 0) (bool_byte new_bind ∷ []))

-- The execution up to the loop.
abbrev pub started : ℕ → Bool → List StmtParam → Exec → Exec
started id new_bind qs x = record x {
  memory = write x.memory x.exec_buffer (front_bytes id new_bind qs);
}

pub packs :
    {vals : List ℕ} (answers : Realloc) (id : ℕ) (new_bind : Bool) (qs : List StmtParam) (x : Exec)
    → 2060 ≤ x.exec_buffer_length
    → Params x.memory x.exec_buffer x.exec_buffer_length qs vals
    → pack_execute answers id new_bind qs x
      ≡ pack_params answers
          (length (front_bytes id new_bind qs))
          qs
          0
          (started id new_bind qs x)
          (length (front_bytes id new_bind qs) + length (type_bytes qs))
unfolding pack_execute write
packs answers id new_bind qs x large params =
    let bytes = (length qs + 7) / 8 in
    let head = head_bytes id bytes in
    let begin : Exec × ℕ × ℕ → Packed = λ (r : Exec × ℕ × ℕ).
      pack_params answers (r.1 + 1) qs 0
        (record r.0 { memory = store r.0.memory (r.0.exec_buffer + r.1) (bool_byte new_bind) })
        (r.1 + 1 + r.2 * 2) in
    let length_head : 9 + bytes ≡ length head =
      let n = length-replicate bytes 0 in omega (arith, n) in
    let stored : store (write x.memory x.exec_buffer head) (x.exec_buffer + (9 + bytes))
          (bool_byte new_bind)
        ≡ write x.memory x.exec_buffer (front_bytes id new_bind qs) =
      ap
        (λ (n : ℕ).
          store (write x.memory x.exec_buffer head) (x.exec_buffer + n) (bool_byte new_bind))
        length_head
      ∙ write-append x.memory x.exec_buffer head (bool_byte new_bind ∷ []) in
    let types_at : 9 + bytes + 1 ≡ length (front_bytes id new_bind qs) =
      omega (arith, length-front id new_bind qs) in
    let values_at : 9 + bytes + 1 + length qs * 2
        ≡ length (front_bytes id new_bind qs) + length (type_bytes qs) =
      omega (arith, length-front id new_bind qs, length-type_bytes qs) in
    ap (λ (o : Option Exec). and_exec x o (λ y. begin (pack_head id qs y)))
      (enough answers x.memory x 2060 large)
    ∙ ap begin (pack_head_lem id x params)
    ∙ ap
        (λ (d : Mem).
          pack_params answers (9 + bytes + 1) qs 0 (record x { memory = d })
            (9 + bytes + 1 + length qs * 2))
        stored
    ∙ ap₂ (λ (t v : ℕ). pack_params answers t qs 0 (started id new_bind qs x) v) types_at values_at
