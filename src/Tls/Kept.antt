-- ===== src/Tls/Kept.antt =====
-- The states in which nothing that was to be sent on an encrypted connection is lost.
use libattachsql.Prelude.{
  ℕ, ◌+◌, ◌-◌, ◌≤◌, ◌≡◌, refl, sym, ap, ap₂, ◌∙◌, arith, Bool, true, List, [], ◌++◌, drop, take,
  ◌⊎◌,
}
use libattachsql.Prelude.Memory.{Mem, read, drop-read}
use mathlib.Core.List.{append-nil}
use mathlib.Core.Path.{subst}
use libattachsql.Buffer.Ops.{Buffer}
use libattachsql.Buffer.Room.{IsValid}
use libattachsql.Buffer.Steps.{unread_bytes}
use libattachsql.Tls.Ssl.{OpenSsl, IsOpenSsl, Secured, count}

-- The read pointer moves on by `n`.
pub read_on-IsValid :
    (b : Buffer) (n : ℕ)
    → IsValid b
    → n ≤ b.buffer_write_ptr - b.buffer_read_ptr
    → IsValid (record b { buffer_read_ptr = b.buffer_read_ptr + n })
read_on-IsValid b n v h = ground arith

pub read_on_bytes :
    (m : Mem) (b : Buffer) (n : ℕ)
    → unread_bytes m (record b { buffer_read_ptr = b.buffer_read_ptr + n })
      ≡ drop n (unread_bytes m b)
read_on_bytes m b n =
    let left : b.buffer_write_ptr - (b.buffer_read_ptr + n)
        ≡ b.buffer_write_ptr - b.buffer_read_ptr - n =
      omega arith in
    ap (read m (b.buffer_read_ptr + n)) left
    ∙ sym (drop-read m b.buffer_read_ptr (b.buffer_write_ptr - b.buffer_read_ptr) n)

module _ (o : OpenSsl) (law : IsOpenSsl o) (written : ℕ → Bool) where
  -- What was to be sent so far: the bytes that `SSL_write` took, and those in the write buffer.
  abbrev pub sent : Secured o → List ℕ
  sent x = law.accepted x.ssl ++ unread_bytes x.memory x.write_buffer

  -- `SSL_write` has taken `ts`, and each byte of `bs` was given to it: it took all of them, or a
  -- front, and then of the rest, which was given to it at once, as many bytes as it answered.
  abbrev pub Given : List ℕ → List ℕ → Type 0
  Given bs ts =
      (ts ≡ bs)
      ⊎ ((s : o.Ssl) × (rest : List ℕ) × (law.accepted s ++ rest ≡ bs)
          × (ts ≡ law.accepted s ++ take (count (o.ssl_write s rest).1) rest))

  -- Behind the bytes `w`, `uv_write` was only given what OpenSSL has given since it had given `g`.
  abbrev pub Wired : List ℕ → List ℕ → Secured o → Type 0
  Wired w g x = (ts : List ℕ) × (x.wire ≡ w ++ ts) × (law.gave x.ssl ≡ g ++ ts)

  -- A state with a valid write buffer in which `bs` was to be sent, the read buffer is `b`, and
  -- OpenSSL has `rs` to be read, with the memory `m`. Nothing but what OpenSSL gave is sent.
  pub record Keeps (bs : List ℕ) (b : Buffer) (rs : List ℕ) (m : Mem) (w g : List ℕ) (x : Secured o)
      : Type 0 where
    pub has : x.has_write_buffer ≡ true
    pub valid : IsValid x.write_buffer
    pub same : sent x ≡ bs
    pub unread_in : x.con.read_buffer ≡ b
    pub ready : law.readable x.ssl ≡ rs
    pub memory_in : x.memory ≡ m
    pub wired : Wired w g x

  -- Another SSL object, which took nothing further, and other fields of the connection.
  pub with_ssl-Keeps :
      (bs : List ℕ) (b : Buffer) (rs : List ℕ) {rs' : List ℕ} (m : Mem) (w g : List ℕ)
      (x x' : Secured o)
      → x'.memory ≡ x.memory
      → x'.write_buffer ≡ x.write_buffer
      → x'.has_write_buffer ≡ x.has_write_buffer
      → x'.con.read_buffer ≡ x.con.read_buffer
      → law.accepted x'.ssl ≡ law.accepted x.ssl
      → law.readable x'.ssl ≡ rs
      → x'.wire ≡ x.wire
      → law.gave x'.ssl ≡ law.gave x.ssl
      → Keeps bs b rs' m w g x
      → Keeps bs b rs m w g x'
  with_ssl-Keeps bs b rs m w g x x' n wb h c a r out given k = record {
    has = h ∙ k.has;
    valid = subst IsValid (sym wb) k.valid;
    same = ap₂ ◌++◌ a (ap₂ unread_bytes n wb) ∙ k.same;
    unread_in = c ∙ k.unread_in;
    ready = r;
    memory_in = n ∙ k.memory_in;
    wired = (k.wired.0, out ∙ k.wired.1, given ∙ k.wired.2);
  }

  -- Every state keeps itself.
  pub Keeps-self :
      (x : Secured o)
      → x.has_write_buffer ≡ true
      → IsValid x.write_buffer
      → Keeps (sent x) x.con.read_buffer (law.readable x.ssl) x.memory x.wire (law.gave x.ssl) x
  Keeps-self x has v = record {
    has = has;
    valid = v;
    same = refl;
    unread_in = refl;
    ready = refl;
    memory_in = refl;
    wired = ([], sym (append-nil x.wire), sym (append-nil (law.gave x.ssl)));
  }
