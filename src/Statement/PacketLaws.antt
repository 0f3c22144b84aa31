-- ===== src/Statement/PacketLaws.antt =====
-- The packet of an execution, byte for byte.
use mathlib.Core.Path.{subst}
use libattachsql.Prelude.{
  ℕ, ◌+◌, ◌*◌, ◌≤◌, ◌≡◌, inl, inr, refl, ap, sym, ◌∙◌, arith, Bool, false, List, [], ◌∷◌, ◌++◌,
  length, length-append, if◌then◌else◌, Option,
}
use libattachsql.Prelude.Memory.{Mem, read, write_outside}
use libattachsql.Pack.Ints.{pack_int2}
use libattachsql.Statement.Types.{StmtParam}
use libattachsql.Statement.Pack.{
  Exec, Realloc, Packed, packed, check_buffer_size, datetime_size, type_bits, and_exec, put_value,
  put_param_type, pack_param, pack_params,
}
use libattachsql.Statement.Writes.{int2_bytes, write-int2}
use libattachsql.Statement.Laid.{Params, no_params, param, type_bytes, Laid, Laid-more, stored}
use libattachsql.Statement.PackLaws.{
  Encodes, encoded_not_null, Agrees, wrote, enough, put_value-writes,
}

module _ (answers : Realloc) (m : Mem) where
  pack_param-stores :
      (x : Exec) (types k used : ℕ) (q : StmtParam) {bs : List ℕ} (rest : Exec → ℕ → Packed)
      → q.is_long_data ≡ false
      → Agrees m x.memory x.exec_buffer x.exec_buffer_length
      → Encodes m x.exec_buffer x.exec_buffer_length q.param_length q.param_type q.param_value bs
      → types + k * 2 + 2 ≤ used
      → used + length bs ≤ x.exec_buffer_length
      → datetime_size ≤ x.exec_buffer_length
      → pack_param answers types k q x used rest
        ≡ rest
            (stored x (x.exec_buffer + types + k * 2) (x.exec_buffer + used) q bs)
            (used + length bs)
  unfolding pack_param put_param_type
  pack_param-stores x types k used q {bs} rest long agrees enc below room large =
      let p = x.exec_buffer + types + k * 2 in
      let x1 = wrote x p (int2_bytes (type_bits q)) in
      let agrees1 : Agrees m x1.memory x.exec_buffer x.exec_buffer_length = λ a out.
        write_outside x.memory p a (int2_bytes (type_bits q)) (elim out [
          | inl h ↦ inl (omega (arith, h))
          | inr h ↦ inr (omega (arith, h, below, room))
        ])
        ∙ agrees a out in
      let typed : record x { memory = pack_int2 x.memory p (type_bits q) } ≡ x1 =
        ap (λ (d : Mem). record x { memory = d }) (write-int2 x.memory p (type_bits q)) in
      ap
        (λ (y : Exec).
          if q.is_long_data
          then rest y used
          else and_exec y (check_buffer_size answers datetime_size y)
              (λ z. put_value answers z used q q.param_type q.param_value rest))
        typed
      ∙ ap
          (λ (b : Bool).
            if b
            then rest x1 used
            else and_exec x1 (check_buffer_size answers datetime_size x1)
                (λ z. put_value answers z used q q.param_type q.param_value rest))
          long
      ∙ ap
          (λ (o : Option Exec).
            and_exec x1 o (λ z. put_value answers z used q q.param_type q.param_value rest))
          (enough answers m x1 datetime_size large)
      ∙ put_value-writes answers m x1 used q rest agrees1 enc room

-- The loop over the parameters.
module _ (answers : Realloc) (m : Mem) where
  pub pack_params-Laid :
      (types k used : ℕ) (x : Exec) (qs : List StmtParam) (vals : List ℕ)
      → Params m x.exec_buffer x.exec_buffer_length qs vals
      → Agrees m x.memory x.exec_buffer x.exec_buffer_length
      → types + k * 2 + length (type_bytes qs) ≤ used
      → used + length vals ≤ x.exec_buffer_length
      → datetime_size ≤ x.exec_buffer_length
      → Laid x
          (x.exec_buffer + types + k * 2)
          (type_bytes qs)
          (x.exec_buffer + used)
          vals
          (pack_params answers types qs k x used)
  unfolding pack_params read
  pack_params-Laid types k used x [] vals no_params agrees below room large = record {
    last = x;
    ends = ap (packed x) (omega arith);
    stays = refl;
    holds_types = refl;
    holds_values = refl;
    keeps = λ a h l. refl;
  }
  pack_params-Laid types k used x (q ∷ qs) vals (param {bs = bs} {vals = rest} long enc more) agrees
        below room large =
      let p = x.exec_buffer + types + k * 2 in
      let v = x.exec_buffer + used in
      let x2 = stored x p v q bs in
      let sum = length-append bs rest in
      let agrees2 : Agrees m x2.memory x.exec_buffer x.exec_buffer_length = λ a out.
        write_outside (wrote x p (int2_bytes (type_bits q))).memory v a bs
          (elim out [ inl h ↦ inl (omega (arith, h)) | inr h ↦ inr (omega (arith, h, sum, room)) ])
        ∙ write_outside x.memory p a (int2_bytes (type_bits q)) (elim out [
          | inl h ↦ inl (omega (arith, h))
          | inr h ↦ inr (omega (arith, h, below, room))
        ])
        ∙ agrees a out in
      let next = pack_params answers types qs (k + 1) x2 (used + length bs) in
      let again : Exec → ℕ → Packed = λ y n. pack_params answers types qs (k + 1) y n in
      let turn : pack_params answers types (q ∷ qs) k x used ≡ next =
        ap (λ (b : Bool). if b then again x used else pack_param answers types k q x used again)
          (encoded_not_null m _ _ _ enc)
        ∙ pack_param-stores answers m x types k used q again long agrees enc (omega (arith, below))
            (omega (arith, sum, room)) large in
      let at_types : x.exec_buffer + types + (k + 1) * 2 ≡ p + 2 = omega arith in
      let at_values : x.exec_buffer + (used + length bs) ≡ v + length bs = omega arith in
      let later : Laid x2 (p + 2) (type_bytes qs) (v + length bs) rest next =
        subst (λ (y : ℕ). Laid x2 y (type_bytes qs) (v + length bs) rest next) at_types
          (subst
            (λ (y : ℕ). Laid x2 (x.exec_buffer + types + (k + 1) * 2) (type_bytes qs) y rest next)
            at_values
            (pack_params-Laid types (k + 1) (used + length bs) x2 qs rest more agrees2
              (omega (arith, below)) (omega (arith, sum, room)) large)) in
      subst (λ (r : Packed). Laid x p (type_bytes (q ∷ qs)) v (bs ++ rest) r) (sym turn)
        (Laid-more x p v (int2_bytes (type_bits q)) (type_bytes qs) bs rest next
          (omega (arith, below)) later)
