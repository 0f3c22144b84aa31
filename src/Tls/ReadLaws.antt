-- ===== src/Tls/ReadLaws.antt =====
-- What arrives on an encrypted connection, and what a command sends on it.
use libattachsql.Prelude.{
  ℕ, ◌+◌, ◌^◌, ◌<◌, ◌≤◌, ◌≡◌, refl, sym, ap, ap₂, ◌∙◌, arith, Bool, true, Option, some, none, List,
  [], ◌∷◌, ◌++◌, length, leb, if_true,
}
use libattachsql.Prelude.Bits.{u32}
use libattachsql.Prelude.Memory.{read, write}
use mathlib.Core.Path.{subst}
use mathlib.Core.List.{append_assoc, append-nil, flatten}
use libattachsql.Buffer.Ops.{buffer_get_available, buffer_move_write_ptr}
use libattachsql.Buffer.Room.{IsValid, stale, free, get_available_lem}
use libattachsql.Buffer.Steps.{unread_bytes, receive, Step-refines}
use libattachsql.Net.Connect.{Connect, con_status_busy, command_status_send}
use libattachsql.Net.Response.{Platform}
use libattachsql.Net.Read.{ReadAnswers}
use libattachsql.Command.Send.{Command, command_send, sending}
use libattachsql.Tls.Ssl.{OpenSsl, IsOpenSsl, Answer, answered, want_read, refused, count, Secured}
use libattachsql.Tls.Run.{ssl_handle_error, total}
use libattachsql.Tls.Read.{
  decrypted, read_encrypted, SentTls, parts, command_sent, command_send_tls,
}
use libattachsql.Tls.Kept.{Keeps-self, Given, Wired, sent}
use libattachsql.Tls.Loop.{handle_error-Ends}
use libattachsql.Tls.Laws.{ssl_buffer_write-sent}

module _ (o : OpenSsl) (law : IsOpenSsl o) (written : ℕ → Bool) where
  -- The bytes that the peer sent and no one has read: those in the read buffer, and those that
  -- OpenSSL has yet to give.
  abbrev pub to_read : Secured o → List ℕ
  to_read x = unread_bytes x.memory x.con.read_buffer ++ law.readable x.ssl

  -- The read ends with a valid read buffer and these bytes to be read.
  abbrev pub Reads : List ℕ → Option (Secured o) → Type 0
  Reads bs r = (x : Secured o) × (r ≡ some x) × IsValid x.con.read_buffer × (to_read x ≡ bs)

  -- An error leaves everything as it was.
  refused_reads :
      (r : Answer) (x : Secured o)
      → x.has_write_buffer ≡ true
      → IsValid x.write_buffer
      → IsValid x.con.read_buffer
      → Reads (to_read x) (ssl_handle_error o written r x)
  refused_reads r x has w v =
      let (x', e, k) =
        handle_error-Ends o law written _ _ _ _ _ _ r x (Keeps-self o law written x has w) in
      (
        x',
        e,
        subst IsValid (sym k.unread_in) v,
        ap₂ ◌++◌ (ap₂ unread_bytes k.memory_in k.unread_in) k.ready,
      )

  decrypted_reads :
      (x : Secured o) (r : o.Ssl × Answer × List ℕ)
      → x.has_write_buffer ≡ true
      → IsValid x.write_buffer
      → IsValid x.con.read_buffer
      → length r.2 ≡ count r.1
      → count r.1 ≤ free x.con.read_buffer
      → law.readable x.ssl ≡ r.2 ++ law.readable r.0
      → Reads (to_read x) (decrypted o written x r)
  unfolding decrypted
  decrypted_reads x (s, answered n, bs) has w v len fits got =
      let b = x.con.read_buffer in
      let m = write x.memory b.buffer_write_ptr bs in
      let (valid, appended) =
        subst
          (λ (k : ℕ).
            IsValid (buffer_move_write_ptr b k)
            × (unread_bytes m (buffer_move_write_ptr b k) ≡ unread_bytes x.memory b ++ bs))
          len (Step-refines (receive {m = x.memory} {b = b} bs (omega (arith, len))) v) in
      (
        _,
        refl,
        valid,
        ap (λ us. us ++ law.readable s) appended
            ∙ append_assoc (unread_bytes x.memory b) bs (law.readable s)
            ∙ ap (λ rs. unread_bytes x.memory b ++ rs) (sym got),
      )
  decrypted_reads x (s, want_read, []) has w v len fits got =
      let x' = record x { ssl = s } in
      let (y, e, k, same) = refused_reads want_read x' has w v in
      (y, e, k, same ∙ ap (λ rs. unread_bytes x.memory x.con.read_buffer ++ rs) (sym got))
  decrypted_reads x (s, want_read, b ∷ bs) has w v len fits got = absurd (omega (arith, len))
  decrypted_reads x (s, refused text, []) has w v len fits got =
      let x' = record x { ssl = s } in
      let (y, e, k, same) = refused_reads (refused text) x' has w v in
      (y, e, k, same ∙ ap (λ rs. unread_bytes x.memory x.con.read_buffer ++ rs) (sym got))
  decrypted_reads x (s, refused text, b ∷ bs) has w v len fits got = absurd (omega (arith, len))

-- Encrypted bytes arrive on a connection whose buffers are there and valid, and whose read buffer has
-- no more stale bytes than free ones and fewer than 2 ^ 31. Whatever OpenSSL answers, the callback ends
-- with a valid read buffer, and the bytes in it followed by those that OpenSSL has yet to give are the
-- unread ones and then those that OpenSSL had to give with the new bytes: none is lost.
pub read_encrypted-reads :
    (o : OpenSsl) (law : IsOpenSsl o) (written : ℕ → Bool) (n : ℕ) (x : Secured o)
    → x.has_write_buffer ≡ true
    → IsValid x.write_buffer
    → IsValid x.con.read_buffer
    → stale x.con.read_buffer ≤ free x.con.read_buffer
    → free x.con.read_buffer < 2 ^ 31
    → let arrived = record x { ssl = o.bio_write x.ssl (read x.memory x.bio_buffer n) } in
      Reads o law written (to_read o law written arrived) (read_encrypted o written n x)
unfolding read_encrypted decrypted
read_encrypted-reads o law written n x has w v h small =
    let b = x.con.read_buffer in
    let s = o.bio_write x.ssl (read x.memory x.bio_buffer n) in
    let room = u32 (buffer_get_available (some b)) in
    let honest : leb (stale b) (free b) ≡ true = ground (arith, h) in
    let size = get_available_lem b v ∙ if_true _ _ _ honest in
    let within = law.ssl_read_within s room in
    decrypted_reads o law written (record x { ssl = s }) (o.ssl_read s room) has w v within.0
      (omega (arith, within, size)) (law.ssl_read-readable s room)

-- The parts that are given to SSL are those that are given to `uv_write`.
flatten-parts :
    (o : OpenSsl) (written : ℕ → Bool) (e : Platform) (c : Connect) (command : Command) (d : List ℕ)
    → flatten (parts o written c command d) ≡ (command_send e none c command d).bytes
unfolding flatten command_send
flatten-parts o written e c command [] = sym (append_assoc (sending c command 0).packet_header _ [])
flatten-parts o written e c command (b ∷ bs) =
    let header = (sending c command (length (b ∷ bs))).packet_header in
    let extra =
      read (sending c command (length (b ∷ bs))).write_buffer 0 (1 + c.write_buffer_extra) in
    ap (λ ds. header ++ (extra ++ ds)) (append-nil (b ∷ bs))
    ∙ sym (append_assoc header extra (b ∷ bs))

-- A command on an encrypted connection whose write buffer is there, valid and has room for it: it ends
-- and returns that it was sent, whatever OpenSSL and `uv_write` answer. The bytes that `SSL_write` has
-- taken, followed by those in the write buffer, are the ones before and then exactly the packet that
-- the command sends where the connection is not encrypted. Each of these bytes was given to
-- `SSL_write`, which has taken all of them, or of the last that it was given as many as it answered.
-- Nothing of it is sent in plain text:
-- `uv_write` is given only what OpenSSL gives for the network.
pub command_send_tls-sent :
    (o : OpenSsl) (law : IsOpenSsl o) (written : ℕ → Bool) (e : Platform)
    (failure : Option (List ℕ)) (a : ReadAnswers) (x : Secured o) (command : Command) (d : List ℕ)
    → x.handshake_done ≡ true
    → x.has_write_buffer ≡ true
    → IsValid x.write_buffer
    → total (parts o written x.con command d) + stale x.write_buffer ≤ free x.write_buffer
    → (r : SentTls o written) × (command_send_tls o written e failure a x command d ≡ some r)
      × (r.outcome ≡ command_status_send)
      × (r.state.con.status ≡ con_status_busy)
      × (sent o law written r.state
          ≡ sent o law written x ++ (command_send e none x.con command d).bytes)
      × Given o law written
          (sent o law written x ++ (command_send e none x.con command d).bytes)
          (law.accepted r.state.ssl)
      × Wired o law written x.wire (law.gave x.ssl) r.state
unfolding command_send_tls
command_send_tls-sent o law written e failure a x command d done has w room =
    let x₁ = record x { con = sending x.con command (length d) } in
    let (x', ends, _, same, given, out) =
      ssl_buffer_write-sent o law written a (parts o written x.con command d) x₁ has w room in
    let packet =
      ap (λ bs. sent o law written x ++ bs) (flatten-parts o written e x.con command d) in
    (
      _,
      if_true _ _ _ done ∙ ap (command_sent o written e command) ends,
      refl,
      refl,
      same ∙ packet,
      subst (λ (bs : List ℕ). Given o law written bs (law.accepted x'.ssl)) packet given,
      out,
    )
