-- ===== src/Prelude/Memory.antt =====
-- Byte memory as the C code addresses it: an address holds a byte, and address 0 is NULL.
use libattachsql.Prelude.Tests.{◌==◌, if◌then◌else◌, ltb, leb}
use libattachsql.Prelude.Lists.{length, drop}
use Prim.Native.Nat.{ℕ, zero, suc, ◌+◌, ◌-◌, ◌≤◌, ◌<◌}
use mathlib.Core.Path.{◌≡◌, refl, sym, ap, ap₂, ◌∙◌, fun_ext}
use mathlib.Core.Logic.{◌⊎◌, inl}
use native.Mathlib.Omega.{arith}
use mathlib.Core.Bool.{◌&&◌}
use mathlib.Core.List.{List, [], ◌∷◌, ◌++◌}

abbrev pub Mem : Type 0
Mem = ℕ → ℕ

-- `p[0] = v`.
abbrev pub store : Mem → ℕ → ℕ → Mem
store m p v q = if p == q then v else m q

-- `memcpy(to, from, n)` and `memmove`: all bytes are read before one is written.
abbrev pub copy : Mem → ℕ → ℕ → ℕ → Mem
copy m to from n q = if leb to q && ltb q (to + n) then m (from + (q - to)) else m q

-- The bytes of a list, written from `p` on.
unfoldable pub write : Mem → ℕ → List ℕ → Mem
write m p [] = m
write m p (b ∷ bs) = write (store m p b) (p + 1) bs

-- The `n` bytes from `p` on.
unfoldable pub read : Mem → ℕ → ℕ → List ℕ
read m p zero = []
read m p (suc n) = m p ∷ read m (p + 1) n

pub length-read : (m : Mem) (p n : ℕ) → length (read m p n) ≡ n
unfolding read
length-read m p zero = refl
length-read m p (suc n) = ap suc (length-read m (p + 1) n)

-- What is read depends on the bytes of the range alone.
pub read_ext :
    (m m' : Mem) (p p' n : ℕ)
    → ((i : ℕ) → i < n → m (p + i) ≡ m' (p' + i))
    → read m p n ≡ read m' p' n
unfolding read
read_ext m m' p p' zero h = refl
read_ext m m' p p' (suc n) h =
    ap₂ ◌∷◌ (ground (arith, h 0 (omega arith)))
      (read_ext m m' (p + 1) (p' + 1) n (λ i k. ground (arith, h (i + 1) (omega arith))))

pub read-add : (m : Mem) (p n k : ℕ) → read m p (n + k) ≡ read m p n ++ read m (p + n) k
unfolding read
read-add m p zero k = ground arith
read-add m p (suc n) k =
    let count : suc n + k ≡ suc (n + k) = omega arith in
    let from : p + suc n ≡ p + 1 + n = omega arith in
    rw (count, from) (ap (◌∷◌ (m p)) (read-add m (p + 1) n k))

pub drop-read : (m : Mem) (p n k : ℕ) → drop k (read m p n) ≡ read m (p + k) (n - k)
unfolding read
drop-read m p n zero = ground arith
drop-read m p zero (suc k) = ground arith
drop-read m p (suc n) (suc k) = ground (arith, drop-read m (p + 1) n k)

pub write_outside :
    (m : Mem) (p a : ℕ) (bs : List ℕ) → (a < p) ⊎ (p + length bs ≤ a) → write m p bs a ≡ m a
unfolding write
write_outside m p a [] h = refl
write_outside m p a (b ∷ bs) h =
    ground (arith, write_outside (store m p b) (p + 1) a bs (ground arith))

pub read-write : (m : Mem) (p : ℕ) (bs : List ℕ) → read (write m p bs) p (length bs) ≡ bs
unfolding write read
read-write m p [] = refl
read-write m p (b ∷ bs) = ground (
  arith,
  write_outside (store m p b) (p + 1) p bs (inl (omega arith)),
  read-write (store m p b) (p + 1) bs,
)

-- What is written behind bytes is read behind them.
pub read-write_behind :
    (m : Mem) (p q n : ℕ) (bs : List ℕ)
    → q ≡ p + n
    → read (write m q bs) p (n + length bs) ≡ read m p n ++ bs
read-write_behind m p q n bs e =
    read-add (write m q bs) p n (length bs)
    ∙ ap₂ ◌++◌ (read_ext _ m p p n (λ i k. write_outside m q (p + i) bs (inl (omega arith))))
        (ap (λ a. read (write m q bs) a (length bs)) (sym e) ∙ read-write m q bs)

-- A byte after bytes that were read elsewhere are written.
write-read_at :
    (m' m : Mem) (to from n q : ℕ)
    → write m' to (read m from n) q
      ≡ (if leb to q && ltb q (to + n) then m (from + (q - to)) else m' q)
unfolding write read
write-read_at m' m to from zero q = ground arith
write-read_at m' m to from (suc n) q =
    ground (arith, write-read_at (store m' to (m from)) m (to + 1) (from + 1) n q)

-- To copy is to write what is read.
pub copy-eq-write : (m : Mem) (to from n : ℕ) → copy m to from n ≡ write m to (read m from n)
copy-eq-write m to from n = fun_ext (λ q. sym (write-read_at m m to from n q))

append-inj :
    (xs xs' ys ys' : List ℕ)
    → length xs ≡ length xs'
    → xs ++ ys ≡ xs' ++ ys'
    → (xs ≡ xs') × (ys ≡ ys')
append-inj [] [] ys ys' n h = (refl, h)
append-inj [] (x ∷ xs') ys ys' n h = absurd (omega arith)
append-inj (x ∷ xs) [] ys ys' n h = absurd (omega arith)
append-inj (x ∷ xs) (x' ∷ xs') ys ys' n h =
    ground (arith, append-inj xs xs' ys ys' (omega arith), h)

-- Bytes that are read are read in parts.
pub read_split :
    (m : Mem) (p : ℕ) (xs ys : List ℕ)
    → read m p (length xs + length ys) ≡ xs ++ ys
    → (read m p (length xs) ≡ xs) × (read m (p + length xs) (length ys) ≡ ys)
read_split m p xs ys h =
    let joined = sym (read-add m p (length xs) (length ys)) ∙ h in
    append-inj _ xs (read m (p + length xs) (length ys)) ys (length-read m p (length xs)) joined
