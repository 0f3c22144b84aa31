-- ===== src/Statement/Writes.antt =====
-- What the pack functions store, as bytes that are written from an address on.
use libattachsql.Prelude.{
  ℕ, zero, suc, ◌+◌, ◌-◌, ◌≤◌, ◌≡◌, ◌⊎◌, inl, inr, refl, ap, ap₂, sym, ◌∙◌, arith, List, [], ◌∷◌,
  ◌++◌, length, length-append, ltb, leb, Bool-cases, if◌then◌else◌, ◌&&◌,
}
use libattachsql.Prelude.Memory.{
  Mem, store, copy, write, read, write_outside, read_ext, length-read,
}
use libattachsql.Prelude.Bits.{u8}
use libattachsql.Pack.Ints.{byte, pack_int2, pack_int3, pack_int4, pack_int8}
use libattachsql.Pack.Length.{pack_length, pack_data}

pub write-append :
    (m : Mem) (p : ℕ) (xs ys : List ℕ)
    → write (write m p xs) (p + length xs) ys ≡ write m p (xs ++ ys)
unfolding write
write-append m p [] ys = let e : p + 0 ≡ p = omega arith in rw e refl
write-append m p (x ∷ xs) ys =
    let e : p + suc (length xs) ≡ p + 1 + length xs = omega arith in
    rw e (write-append (store m p x) (p + 1) xs ys)

abbrev pub int2_bytes : ℕ → List ℕ
int2_bytes n = byte n 0 ∷ byte n 8 ∷ []

abbrev pub int3_bytes : ℕ → List ℕ
int3_bytes n = byte n 0 ∷ byte n 8 ∷ byte n 16 ∷ []

abbrev pub int8_bytes : ℕ → List ℕ
int8_bytes n =
    byte n 0 ∷ byte n 8 ∷ byte n 16 ∷ byte n 24 ∷ byte n 32 ∷ byte n 40 ∷ byte n 48 ∷ byte n 56 ∷ []

pub write-int2 : (m : Mem) (p n : ℕ) → pack_int2 m p n ≡ write m p (int2_bytes n)
unfolding pack_int2 write
write-int2 m p n = refl

pub write-int4 :
    (m : Mem) (p n : ℕ)
    → pack_int4 m p n ≡ write m p (byte n 0 ∷ byte n 8 ∷ byte n 16 ∷ byte n 24 ∷ [])
unfolding pack_int4 write
write-int4 m p n =
    let e2 : p + 1 + 1 ≡ p + 2 = omega arith in
    let e3 : p + 2 + 1 ≡ p + 3 = omega arith in rw (e2, e3) refl

pub write-int8 : (m : Mem) (p n : ℕ) → pack_int8 m p n ≡ write m p (int8_bytes n)
unfolding pack_int8 write
write-int8 m p n =
    let e2 : p + 1 + 1 ≡ p + 2 = omega arith in
    let e3 : p + 2 + 1 ≡ p + 3 = omega arith in
    let e4 : p + 3 + 1 ≡ p + 4 = omega arith in
    let e5 : p + 4 + 1 ≡ p + 5 = omega arith in
    let e6 : p + 5 + 1 ≡ p + 6 = omega arith in
    let e7 : p + 6 + 1 ≡ p + 7 = omega arith in rw (e2, e3, e4, e5, e6, e7) refl

write-int3 : (m : Mem) (p n : ℕ) → pack_int3 m p n ≡ write m p (int3_bytes n)
unfolding pack_int3 write
write-int3 m p n = let e2 : p + 1 + 1 ≡ p + 2 = omega arith in rw e2 refl

-- A length on the wire.
abbrev pub length_bytes : ℕ → List ℕ
length_bytes n =
    if leb n 0xfa
    then u8 n ∷ []
    else if leb n 0xffff
    then 0xfc ∷ int2_bytes n
    else if leb n 0xffffff
    then 0xfd ∷ int3_bytes n
    else 0xfe ∷ int8_bytes n

write-length :
    (m : Mem) (p n : ℕ)
    → pack_length m p n ≡ (write m p (length_bytes n), p + length (length_bytes n))
unfolding pack_length write
write-length m p n = elim (Bool-cases (leb n 0xfa)) [
  | inl a ↦ rw a refl
  | inr a ↦ elim (Bool-cases (leb n 0xffff)) [
    | inl b ↦
        let e : p + 1 + 2 ≡ p + 3 = omega arith in
        rw (a, b) (ap₂ (λ (x : Mem) (y : ℕ). (x, y)) (write-int2 (store m p 0xfc) (p + 1) n) e)
    | inr b ↦ elim (Bool-cases (leb n 0xffffff)) [
      | inl c ↦
          let e : p + 1 + 3 ≡ p + 4 = omega arith in
          rw (a, b, c) (ap₂ (λ (x : Mem) (y : ℕ). (x, y)) (write-int3 (store m p 0xfd) (p + 1) n) e)
      | inr c ↦
          let e : p + 1 + 8 ≡ p + 9 = omega arith in
          rw (a, b, c) (ap₂ (λ (x : Mem) (y : ℕ). (x, y)) (write-int8 (store m p 0xfe) (p + 1) n) e)
    ]
  ]
]

-- Where a byte of a copy comes from.
write-read :
    (m d : Mem) (p from n q : ℕ)
    → write d p (read m from n) q ≡ (if leb p q && ltb q (p + n) then m (from + (q - p)) else d q)
unfolding write read
write-read m d p from zero q = ground arith
write-read m d p from (suc n) q =
    ground (arith, write-read m (store d p (m from)) (p + 1) (from + 1) n q)

pub write-copy : (m : Mem) (p from n : ℕ) → copy m p from n ≡ write m p (read m from n)
write-copy m p from n i q = sym (write-read m m p from n q) i

-- What a range holds is not changed by what is written elsewhere.
pub read-write_elsewhere :
    (m : Mem) (a n p : ℕ) (bs : List ℕ)
    → (a + n ≤ p) ⊎ (p + length bs ≤ a)
    → read (write m p bs) a n ≡ read m a n
read-write_elsewhere m a n p bs (inl h) =
    read_ext (write m p bs) m a a n
      (λ i k. write_outside m p (a + i) bs (inl (omega (arith, h, k))))
read-write_elsewhere m a n p bs (inr h) =
    read_ext (write m p bs) m a a n
      (λ i k. write_outside m p (a + i) bs (inr (omega (arith, h, k))))

append-nil : (bs : List ℕ) → bs ++ [] ≡ bs
append-nil [] = refl
append-nil (b ∷ bs) = ap (◌∷◌ b) (append-nil bs)

-- A string with its length in front, of a source that is not where the length is written.
pub write-data :
    (m : Mem) (p n source : ℕ)
    → (source + n ≤ p) ⊎ (p + length (length_bytes n) ≤ source)
    → let bs = length_bytes n ++ read m source n in
      pack_data m p n source ≡ (write m p bs, p + length bs)
unfolding pack_data read
write-data m p n source h =
    let front = length_bytes n in
    let m' = write m p front in
    let bs = read m source n in
    let same : read m' source n ≡ bs = read-write_elsewhere m source n p front h in
    let size : length (front ++ bs) ≡ length front + n =
      length-append front bs ∙ ap (λ (k : ℕ). length front + k) (length-read m source n) in
    let whole : write m' (p + length front) bs ≡ write m p (front ++ bs) =
      write-append m p front bs in
    rw (write-length m p n) (elim (Bool-cases (ltb 0 n)) [
      | inl k ↦
          rw (k, size)
            (ap₂ (λ (x : Mem) (y : ℕ). (x, y))
              (write-copy m' (p + length front) source n
                ∙ ap (write m' (p + length front)) same
                ∙ whole)
              (omega arith))
      | inr k ↦
          let none_left : n ≡ 0 = ground arith in
          let empty : bs ≡ [] = ap (read m source) none_left in
          let front_only : front ++ bs ≡ front =
            ap (λ (l : List ℕ). front ++ l) empty ∙ append-nil front in
          rw (k, size)
            (ap₂ (λ (x : Mem) (y : ℕ). (x, y)) (sym (ap (write m p) front_only)) (omega arith))
    ])
