-- ===== src/Statement/Laid.antt =====
-- Where a packing leaves the types and the values of parameters.
use libattachsql.Prelude.{
  ℕ, ◌+◌, ◌-◌, ◌*◌, ◌≤◌, ◌<◌, ◌≡◌, ◌⊎◌, inl, inr, refl, ap, ap₂, ◌∙◌, arith, false, List, [], ◌∷◌,
  ◌++◌, length, length-append,
}
use libattachsql.Prelude.Memory.{Mem, read, write_outside, read-write, read_ext, read-add}
use libattachsql.Statement.Types.{StmtParam}
use libattachsql.Statement.Pack.{Exec, Packed, packed, type_bits}
use libattachsql.Statement.Writes.{int2_bytes}
use libattachsql.Statement.PackLaws.{Encodes, wrote}

-- Parameters of these types, none of them sent as long data, and the bytes of their values.
pub data Params (m : Mem) (b size : ℕ) : List StmtParam → List ℕ → Type 0 where
  no_params : Params m b size [] []
  param :
      {q : StmtParam} {qs : List StmtParam} {bs vals : List ℕ}
      → q.is_long_data ≡ false
      → Encodes m b size q.param_length q.param_type q.param_value bs
      → Params m b size qs vals
      → Params m b size (q ∷ qs) (bs ++ vals)

-- The types of the parameters on the wire.
abbrev pub type_bytes : List StmtParam → List ℕ
type_bytes [] = []
type_bytes (q ∷ qs) = int2_bytes (type_bits q) ++ type_bytes qs

pub length-type_bytes : (qs : List StmtParam) → length (type_bytes qs) ≡ 2 * length qs
length-type_bytes [] = refl
length-type_bytes (q ∷ qs) = omega (arith, length-type_bytes qs)

-- An address is not in the `n` bytes from `p` on.
abbrev pub Outside : ℕ → ℕ → ℕ → Type 0
Outside a p n = (a < p) ⊎ (p + n ≤ a)

-- The packing `r` ends with the bytes `types` at `p` and `vals` at `v`, the last of the packet, and
-- leaves the others as they are in `x`.
pub record Laid (x : Exec) (p : ℕ) (types : List ℕ) (v : ℕ) (vals : List ℕ) (r : Packed)
    : Type 0 where
  pub last : Exec
  pub ends : r ≡ packed last (v + length vals - x.exec_buffer)
  pub stays : last.exec_buffer ≡ x.exec_buffer
  pub holds_types : read last.memory p (length types) ≡ types
  pub holds_values : read last.memory v (length vals) ≡ vals
  pub keeps :
      (a : ℕ) → Outside a p (length types) → Outside a v (length vals) → last.memory a ≡ x.memory a

-- A range and what follows it.
pub read_both :
    (m : Mem) (p : ℕ) (xs ys : List ℕ)
    → read m p (length xs) ≡ xs
    → read m (p + length xs) (length ys) ≡ ys
    → read m p (length (xs ++ ys)) ≡ xs ++ ys
read_both m p xs ys h k =
    ap (read m p) (length-append xs ys) ∙ read-add m p (length xs) (length ys) ∙ ap₂ ◌++◌ h k

-- What was written stays where the rest of the packing leaves it.
pub read_kept :
    (m m' : Mem) (p : ℕ) (bs : List ℕ)
    → ((a : ℕ) → p ≤ a → a < p + length bs → m' a ≡ m a)
    → read m p (length bs) ≡ bs
    → read m' p (length bs) ≡ bs
read_kept m m' p bs k h =
    read_ext m' m p p (length bs) (λ i l. k (p + i) (omega arith) (omega (arith, l))) ∙ h

Outside-front : (a p n k : ℕ) {l : ℕ} → l ≡ n + k → Outside a p l → Outside a p n
Outside-front a p n k e (inl h) = inl h
Outside-front a p n k e (inr h) = inr (omega (arith, e, h))

Outside-back : (a p n k : ℕ) {l : ℕ} → l ≡ n + k → Outside a p l → Outside a (p + n) k
Outside-back a p n k e (inl h) = inl (omega (arith, h))
Outside-back a p n k e (inr h) = inr (omega (arith, e, h))

-- A type and a value in front of those that are laid.
pub Laid-more :
    (x : Exec) (p v : ℕ) (t ts bs vals : List ℕ) (r : Packed)
    → p + length t + length ts ≤ v
    → Laid (wrote (wrote x p t) v bs) (p + length t) ts (v + length bs) vals r
    → Laid x p (t ++ ts) v (bs ++ vals) r
Laid-more x p v t ts bs vals r below l =
    let x1 = wrote x p t in
    let x2 = wrote x1 v bs in
    let sum = length-append bs vals in
    let total = length-append t ts in
    record {
      last = l.last;
      ends =
          l.ends
          ∙ ap (λ (n : ℕ). packed l.last (n - x.exec_buffer))
              (let e : v + length bs + length vals ≡ v + length (bs ++ vals) = omega (arith, sum) in
                e);
      stays = l.stays;
      holds_types =
          read_both l.last.memory p t ts
            (read_kept x1.memory l.last.memory p t
              (λ a h k.
                l.keeps a (inl (omega (arith, k))) (inl (omega (arith, k, below)))
                ∙ write_outside x1.memory v a bs (inl (omega (arith, k, below))))
              (read-write x.memory p t))
            l.holds_types;
      holds_values =
          read_both l.last.memory v bs vals
            (read_kept x2.memory l.last.memory v bs
              (λ a h k. l.keeps a (inr (omega (arith, h, below))) (inl (omega (arith, k))))
              (read-write x1.memory v bs))
            l.holds_values;
      keeps = λ a out_types out_values.
          l.keeps a (Outside-back a p _ _ total out_types) (Outside-back a v _ _ sum out_values)
          ∙ write_outside x1.memory v a bs (Outside-front a v _ _ sum out_values)
          ∙ write_outside x.memory p a t (Outside-front a p _ _ total out_types);
    }

-- One parameter's type and value.
abbrev pub stored : Exec → ℕ → ℕ → StmtParam → List ℕ → Exec
stored x p v q bs = wrote (wrote x p (int2_bytes (type_bits q))) v bs
