-- ===== src/Tls/Laws.antt =====
-- What is sent on an encrypted connection is given to OpenSSL in order, none lost and none twice.
use libattachsql.Prelude.{
  ℕ, ◌+◌, ◌≤◌, ◌≡◌, refl, sym, ap, ap₂, ◌∙◌, arith, Bool, true, false, some, List, [], ◌∷◌, ◌++◌,
  length, ltb, if_true, not, leb, if_false, Bool-cases, inl, inr,
}
use libattachsql.Prelude.Memory.{Mem, write}
use mathlib.Core.Path.{subst}
use mathlib.Core.List.{append_assoc, append-nil, flatten}
use libattachsql.Buffer.Ops.{Buffer, buffer_get_available, buffer_move_write_ptr}
use libattachsql.Buffer.Room.{IsValid, stale, free, get_available_lem}
use libattachsql.Buffer.Steps.{unread_bytes, receive, Step-refines}
use libattachsql.Net.Read.{ReadAnswers}
use libattachsql.Tls.Ssl.{OpenSsl, IsOpenSsl, Secured}
use libattachsql.Tls.Run.{ssl_buffer_size, ssl_run, total, copied, with_room, ssl_buffer_write}
use libattachsql.Tls.Kept.{Keeps, Given, Keeps-self, Wired, with_ssl-Keeps, sent}
use libattachsql.Tls.Loop.{Flushed, handled-Flushed}

module _ (o : OpenSsl) (law : IsOpenSsl o) (written : ℕ → Bool) where
  run_starting :
      (bs : List ℕ) (b : Buffer) (rs : List ℕ) (m : Mem) (w g : List ℕ) (x : Secured o)
      → not (o.is_init_finished x.ssl) ≡ true
      → Keeps o law written bs b rs m w g x
      → Flushed o law written bs b rs m w g (ssl_run o written x)
  unfolding ssl_run
  run_starting bs b rs m w g x starting k =
      let r = o.ssl_connect x.ssl in
      let x' = record x { ssl = r.0 } in
      subst (Flushed o law written bs b rs m w g) (sym (if_true _ _ _ starting)) (
        handled-Flushed o law written bs b rs m w g r.1 x' (
          with_ssl-Keeps o law written bs b rs m w g x x' refl refl refl refl
            (law.ssl_connect-accepted x.ssl) (law.ssl_connect-readable x.ssl ∙ k.ready) refl
            (law.ssl_connect-gave x.ssl) k))

  run_finished :
      (bs : List ℕ) (b : Buffer) (rs : List ℕ) (m : Mem) (w g : List ℕ) (x : Secured o)
      → not (o.is_init_finished x.ssl) ≡ false
      → Keeps o law written bs b rs m w g x
      → Flushed o law written bs b
          (law.readable (o.ssl_read x.ssl ssl_buffer_size).0)
          m
          w
          g
          (ssl_run o written x)
  unfolding ssl_run
  run_finished bs b rs m w g x finished k =
      let r = o.ssl_read x.ssl ssl_buffer_size in
      let rs' = law.readable r.0 in
      let x' = record x { ssl = r.0; ssl_read_buffer = write x.ssl_read_buffer 0 r.2 } in
      subst (Flushed o law written bs b rs' m w g) (sym (if_false _ _ _ finished)) (
        handled-Flushed o law written bs b rs' m w g r.1 x' (
          with_ssl-Keeps o law written bs b rs' m w g x x' refl refl refl refl
            (law.ssl_read-accepted x.ssl ssl_buffer_size) refl refl
            (law.ssl_read-gave x.ssl ssl_buffer_size) k))

  copied-Keeps :
      (bufs : List (List ℕ)) (bs : List ℕ) (b : Buffer) (rs w g : List ℕ) (x : Secured o)
      → total bufs ≤ free x.write_buffer
      → Keeps o law written bs b rs x.memory w g x
      → Keeps o law written
          (bs ++ flatten bufs)
          b
          rs
          (copied o written bufs x).memory
          w
          g
          (copied o written bufs x)
  unfolding copied flatten
  copied-Keeps [] bs b rs w g x h k =
      subst (λ (l : List ℕ). Keeps o law written l b rs x.memory w g x) (sym (append-nil bs)) k
  copied-Keeps (ws ∷ bufs) bs b rs w g x h k =
      let now =
        Step-refines (receive {m = x.memory} {b = x.write_buffer} ws (omega arith)) k.valid in
      let x' = record x {
        memory = write x.memory x.write_buffer.buffer_write_ptr ws;
        write_buffer = buffer_move_write_ptr x.write_buffer (length ws);
      } in
      let one : Keeps o law written (bs ++ ws) b rs x'.memory w g x' = record {
        has = k.has;
        valid = now.0;
        same =
            ap (λ u. law.accepted x.ssl ++ u) now.1
            ∙ sym (append_assoc (law.accepted x.ssl) _ ws)
            ∙ ap (λ u. u ++ ws) k.same;
        unread_in = k.unread_in;
        ready = k.ready;
        memory_in = refl;
        wired = k.wired;
      } in
      subst
        (λ (l : List ℕ).
          Keeps o law written l b rs (copied o written bufs x').memory w g
            (copied o written bufs x'))
        (append_assoc bs ws (flatten bufs))
        (copied-Keeps bufs (bs ++ ws) b rs w g x' (unfold buffer_move_write_ptr in omega arith) one)

  -- The packet's parts are in the write buffer, and SSL runs.
  writes_on :
      (a : ReadAnswers) (bufs : List (List ℕ)) (x : Secured o)
      → x.has_write_buffer ≡ true
      → IsValid x.write_buffer
      → total bufs + stale x.write_buffer ≤ free x.write_buffer
      → ssl_buffer_write o written a bufs x ≡ ssl_run o written (copied o written bufs x)
  unfolding ssl_buffer_write with_room
  writes_on a bufs x has v h =
      let b = x.write_buffer in
      let honest : leb (stale b) (free b) ≡ true = ground (arith, h) in
      let size = get_available_lem b v ∙ if_true _ _ _ honest in
      let enough : ltb (buffer_get_available (some b)) (total bufs) ≡ false =
        ground (arith, size, h) in
      if_true _ _ _ has
      ∙ ap (λ (y : Secured o). ssl_run o written (copied o written bufs y)) (if_false _ _ _ enough)

-- On a connection whose write buffer is there, valid and has room for a packet's parts,
-- `ssl_buffer_write` ends, whatever OpenSSL and `uv_write` answer. The write buffer is valid again, and
-- the bytes that `SSL_write` has taken since the start of the connection, followed by those in the
-- write buffer, are the ones before the call and then the packet's. Each of these bytes was given to
-- `SSL_write`, which took as many as it answers. `uv_write` was given nothing but
-- what OpenSSL gave for the network in the call.
pub ssl_buffer_write-sent :
    (o : OpenSsl) (law : IsOpenSsl o) (written : ℕ → Bool) (a : ReadAnswers) (bufs : List (List ℕ))
    (x : Secured o)
    → x.has_write_buffer ≡ true
    → IsValid x.write_buffer
    → total bufs + stale x.write_buffer ≤ free x.write_buffer
    → (x' : Secured o) × (ssl_buffer_write o written a bufs x ≡ some x')
      × IsValid x'.write_buffer
      × (sent o law written x' ≡ sent o law written x ++ flatten bufs)
      × Given o law written (sent o law written x ++ flatten bufs) (law.accepted x'.ssl)
      × Wired o law written x.wire (law.gave x.ssl) x'
ssl_buffer_write-sent o law written a bufs x has v h =
    let bs = sent o law written x in
    let b = x.con.read_buffer in
    let rs = law.readable x.ssl in
    let w = x.wire in
    let g = law.gave x.ssl in
    let x₁ = copied o written bufs x in
    let k =
      copied-Keeps o law written bufs bs b rs w g x (omega arith)
        (Keeps-self o law written x has v) in
    let e = writes_on o law written a bufs x has v h in
    elim (Bool-cases (not (o.is_init_finished x₁.ssl))) [
      | inl starting ↦
          let (x', ends, k', offered) =
            run_starting o law written (bs ++ flatten bufs) b rs x₁.memory w g x₁ starting k in
          (x', e ∙ ends, k'.valid, k'.same, offered, k'.wired)
      | inr finished ↦
          let (x', ends, k', offered) =
            run_finished o law written (bs ++ flatten bufs) b rs x₁.memory w g x₁ finished k in
          (x', e ∙ ends, k'.valid, k'.same, offered, k'.wired)
    ]

-- Once the handshake is finished, on a connection whose write buffer is there and valid, `ssl_run`
-- ends, and what `SSL_read` gives it, up to 16384 of the bytes that the peer sent, is lost to the
-- packet loop: OpenSSL has only the rest of them to give, and the read buffer and the bytes in it are
-- as before.
pub ssl_run-discards :
    (o : OpenSsl) (law : IsOpenSsl o) (written : ℕ → Bool) (x : Secured o)
    → o.is_init_finished x.ssl ≡ true
    → x.has_write_buffer ≡ true
    → IsValid x.write_buffer
    → (x' : Secured o) × (ssl_run o written x ≡ some x')
      × (x'.con.read_buffer ≡ x.con.read_buffer)
      × (unread_bytes x'.memory x'.con.read_buffer ≡ unread_bytes x.memory x.con.read_buffer)
      × (law.readable x.ssl ≡ (o.ssl_read x.ssl ssl_buffer_size).2 ++ law.readable x'.ssl)
ssl_run-discards o law written x done has v =
    let (x', ends, k, offered) =
      run_finished o law written _ _ _ _ _ _ x (ground (arith, done))
        (Keeps-self o law written x has v) in
    (
      x',
      ends,
      k.unread_in,
      ap₂ unread_bytes k.memory_in k.unread_in,
      law.ssl_read-readable x.ssl ssl_buffer_size
          ∙ ap (λ rs. (o.ssl_read x.ssl ssl_buffer_size).2 ++ rs) (sym k.ready),
    )
