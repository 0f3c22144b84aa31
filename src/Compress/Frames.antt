-- ===== src/Compress/Frames.antt =====
-- The format of a compressed packet, as its header describes it: seven bytes with the size on the
-- wire, the number and the size of the packet, or 0 for one that is not compressed.
use libattachsql.Prelude.{
  ℕ, suc, ◌+◌, ◌^◌, ◌%◌, ◌<◌, ◌≡◌, sym, ap, ◌∙◌, arith, true, List, ◌∷◌, ◌++◌, length,
}
use libattachsql.Prelude.Memory.{Mem, read, length-read}
use libattachsql.Pack.Ints.{unpack_int3}
use libattachsql.Pack.IntLaws.{unpack_int3_of}
use libattachsql.Compress.Zlib.{Zlib}
use libattachsql.Compress.Send.{compressed_header}

-- The bytes `bs` are the packet with the number.
pub data Frames (zlib : Zlib) (number : ℕ) (packet : List ℕ) (bs : List ℕ) : Type 0 where
  plain :
      length packet < 2 ^ 24
      → bs ≡ compressed_header (length packet) number 0 ++ packet
      → Frames zlib number packet bs
  packed :
      (room : ℕ)
      → (zlib.compress room packet).0 ≡ true
      → length (zlib.compress room packet).1 < 2 ^ 24
      → 0 < length packet
      → length packet < 2 ^ 24
      → bs
        ≡ compressed_header (length (zlib.compress room packet).1) number (length packet)
          ++ (zlib.compress room packet).1
      → Frames zlib number packet bs

-- Seven bytes and those behind them, one by one.
seven :
    (m : Mem) (p k x₀ x₁ x₂ x₃ x₄ x₅ x₆ : ℕ) (bs : List ℕ)
    → read m p (suc (suc (suc (suc (suc (suc (suc k))))))) ≡ x₀ ∷ x₁ ∷ x₂ ∷ x₃ ∷ x₄ ∷ x₅ ∷ x₆ ∷ bs
    → (m p ≡ x₀)
      × (m (p + 1) ≡ x₁)
      × (m (p + 2) ≡ x₂)
      × (m (p + 3) ≡ x₃)
      × (m (p + 4) ≡ x₄)
      × (m (p + 4 + 1) ≡ x₅)
      × (m (p + 4 + 2) ≡ x₆)
      × (read m (p + 7) k ≡ bs)
unfolding read
seven m p k x₀ x₁ x₂ x₃ x₄ x₅ x₆ bs h = ground (arith, h)

-- A header and the bytes behind it, read back from memory.
pub header_lem :
    (m : Mem) (p n size number unpacked : ℕ) (bs : List ℕ)
    → read m p n ≡ compressed_header size number unpacked ++ bs
    → (n ≡ 7 + length bs)
      × (unpack_int3 m p ≡ size % 2 ^ 24)
      × (m (p + 3) ≡ number)
      × (unpack_int3 m (p + 4) ≡ unpacked % 2 ^ 24)
      × (read m (p + 7) (length bs) ≡ bs)
unfolding compressed_header
header_lem m p n size number unpacked bs h =
    let count : n ≡ suc (suc (suc (suc (suc (suc (suc (length bs))))))) =
      sym (length-read m p n) ∙ ap length h in
    let (a, b, c, d, e, f, g, rest) =
      seven m p (length bs) _ _ _ _ _ _ _ bs (sym (ap (read m p) count) ∙ h) in
    (
      omega (arith, count),
      unpack_int3_of m p size (a, b, c),
      d,
      unpack_int3_of m (p + 4) unpacked (e, f, g),
      rest,
    )
