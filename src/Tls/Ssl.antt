-- ===== src/Tls/Ssl.antt =====
-- OpenSSL as src/net.cc calls it, and the state that an encrypted connection keeps.
use libattachsql.Prelude.{ℕ, ◌+◌, ◌≤◌, ◌≡◌, Bool, List, ◌++◌, length, take}
use libattachsql.Prelude.Memory.{Mem}
use libattachsql.Buffer.Ops.{Buffer}
use libattachsql.Net.Connect.{Connect}

-- What `SSL_connect`, `SSL_read` and `SSL_write` answer: a number that is not negative, or an error
-- that is SSL_ERROR_WANT_READ or another, with the text of its reason.
pub data Answer : Type 0 where
  answered : ℕ → Answer
  want_read : Answer
  refused : List ℕ → Answer

abbrev pub count : Answer → ℕ
count (answered n) = n
count _ = 0

-- The calls on an SSL object and its two BIOs. `bio_read` is of the BIO that is written to the
-- network, `bio_write` of the one that is read from it; no bytes stand for an answer of 0 or less.
-- `SSL_read` takes its `int` as 32 bits, those of a negative one included.
pub record OpenSsl : Type 1 where
  pub Ssl : Type 0
  pub is_init_finished : Ssl → Bool
  pub ssl_connect : Ssl → Ssl × Answer
  pub ssl_write : Ssl → List ℕ → Ssl × Answer
  pub ssl_read : Ssl → ℕ → Ssl × Answer × List ℕ
  pub bio_write : Ssl → List ℕ → Ssl
  pub bio_read : Ssl → ℕ → Ssl × List ℕ
  pub bio_pending : Ssl → ℕ

-- What OpenSSL's manual says: `SSL_write` takes some bytes from the front, as many as it answers,
-- and no other call takes any; `SSL_read` gives as many as it answers and there is room for; what is
-- read from a BIO was pending in it. `gave` is
-- what was read from it so far. `readable` is what the peer sent and `SSL_read` has not given yet.
pub record IsOpenSsl (o : OpenSsl) : Type 0 where
  pub accepted : o.Ssl → List ℕ
  pub readable : o.Ssl → List ℕ
  pub gave : o.Ssl → List ℕ
  pub ssl_write-accepted :
      (s : o.Ssl) (bs : List ℕ)
      → (count (o.ssl_write s bs).1 ≤ length bs)
        × (accepted (o.ssl_write s bs).0 ≡ accepted s ++ take (count (o.ssl_write s bs).1) bs)
  pub ssl_connect-accepted : (s : o.Ssl) → accepted (o.ssl_connect s).0 ≡ accepted s
  pub ssl_read-accepted : (s : o.Ssl) (n : ℕ) → accepted (o.ssl_read s n).0 ≡ accepted s
  pub ssl_write-readable : (s : o.Ssl) (bs : List ℕ) → readable (o.ssl_write s bs).0 ≡ readable s
  pub ssl_connect-readable : (s : o.Ssl) → readable (o.ssl_connect s).0 ≡ readable s
  pub ssl_read-readable :
      (s : o.Ssl) (n : ℕ) → readable s ≡ (o.ssl_read s n).2 ++ readable (o.ssl_read s n).0
  pub bio_read-readable : (s : o.Ssl) (n : ℕ) → readable (o.bio_read s n).0 ≡ readable s
  pub ssl_read_within :
      (s : o.Ssl) (n : ℕ)
      → (length (o.ssl_read s n).2 ≡ count (o.ssl_read s n).1) × (count (o.ssl_read s n).1 ≤ n)
  pub bio_write-accepted : (s : o.Ssl) (bs : List ℕ) → accepted (o.bio_write s bs) ≡ accepted s
  pub ssl_write-gave : (s : o.Ssl) (bs : List ℕ) → gave (o.ssl_write s bs).0 ≡ gave s
  pub ssl_connect-gave : (s : o.Ssl) → gave (o.ssl_connect s).0 ≡ gave s
  pub ssl_read-gave : (s : o.Ssl) (n : ℕ) → gave (o.ssl_read s n).0 ≡ gave s
  pub bio_read-gave : (s : o.Ssl) (n : ℕ) → gave (o.bio_read s n).0 ≡ gave s ++ (o.bio_read s n).1
  pub bio_read-accepted : (s : o.Ssl) (n : ℕ) → accepted (o.bio_read s n).0 ≡ accepted s
  pub bio_read-pending :
      (s : o.Ssl) (n : ℕ)
      → o.bio_pending (o.bio_read s n).0 + length (o.bio_read s n).1 ≡ o.bio_pending s

-- The memory, the connection, its fields in `con->ssl`, and what `uv_write` was given so far, in how
-- many calls. The write buffer is only used where `has_write_buffer` says that it is not NULL.
pub record Secured (o : OpenSsl) : Type 0 where
  pub memory : Mem
  pub con : Connect
  pub ssl : o.Ssl
  pub handshake_done : Bool
  pub has_write_buffer : Bool
  pub write_buffer : Buffer
  pub bio_buffer : ℕ
  pub bio_buffer_size : ℕ
  pub ssl_read_buffer : Mem
  pub writes : ℕ
  pub wire : List ℕ
