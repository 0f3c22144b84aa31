-- ===== src/Tls/Read.antt =====
-- What runs on an encrypted connection: the callbacks of reading, the poll and the commands, of
-- src/net.cc, src/connect.cc and src/command.cc, as built with OpenSSL and without zlib.
use libattachsql.Prelude.{
  ℕ, ◌+◌, Bool, ◌&&◌, Option, some, none, List, [], ◌∷◌, ◌++◌, length, ltb, if◌then◌else◌,
}
use libattachsql.Prelude.Bits.{u32}
use libattachsql.Prelude.Memory.{read, write, copy}
use libattachsql.Buffer.Ops.{ret_out_of_memory_error, buffer_get_available, buffer_move_write_ptr}
use libattachsql.Net.Connect.{Connect, CommandStatus, con_status_busy, command_status_send}
use libattachsql.Net.Response.{Platform}
use libattachsql.Net.Process.{Handshake}
use libattachsql.Net.Read.{
  ReadAnswers, Offered, on_alloc, ReadSize, read_bytes, read_failure, read_data_cb,
}
use libattachsql.Command.Send.{Command, Sent, command_send, expect, sending}
use libattachsql.Connect.Callback.{World, is_at_rest, run_uv_loop}
use libattachsql.Compress.Send.{send_failed}
use libattachsql.Tls.Ssl.{OpenSsl, Answer, answered, want_read, refused, Secured}
use libattachsql.Tls.Run.{ssl_handle_error, ssl_run, ssl_buffer_write}

-- Where the event loop may write how much, and the state after `on_alloc`.
pub record OfferedTls (o : OpenSsl) : Type 0 where
  pub state : Secured o
  pub base : ℕ
  pub len : ℕ

module _ (o : OpenSsl) (written : ℕ → Bool) where
  -- The buffer for encrypted bytes is made larger where it is too short; `bio` is what `realloc`
  -- answers.
  unfoldable pub with_bio : Option ℕ → ℕ → Secured o → Secured o
  with_bio bio suggested x =
      if x.handshake_done && ltb x.bio_buffer_size suggested
      then elim bio [
        | none ↦ record x { con = send_failed ret_out_of_memory_error x.con }
        | some p ↦ record x {
          memory = copy x.memory p x.bio_buffer x.bio_buffer_size;
          bio_buffer = p;
          bio_buffer_size = suggested;
        }
      ]
      else x

  -- The room in the read buffer is made, but not offered.
  abbrev pub offer_bio : Secured o → Option Offered → Option (OfferedTls o)
  offer_bio x none = none
  offer_bio x (some f) =
      let x' : Secured o = record x { memory = f.memory; con = f.con } in
      some (
        if x.handshake_done
        then record { state = x'; base = x.bio_buffer; len = x.bio_buffer_size }
        else record { state = x'; base = f.base; len = f.len })

  -- `on_alloc`
  unfoldable pub on_alloc_tls : Option ℕ → ReadAnswers → ℕ → Secured o → Option (OfferedTls o)
  on_alloc_tls bio a suggested x =
      let x' = with_bio bio suggested x in offer_bio x' (on_alloc a x'.memory suggested x'.con)

  -- What `SSL_read` answers, and has put behind what is in the read buffer.
  unfoldable pub decrypted : Secured o → o.Ssl × Answer × List ℕ → Option (Secured o)
  decrypted x (s, answered n, bs) = some (record x {
    ssl = s;
    memory = write x.memory x.con.read_buffer.buffer_write_ptr bs;
    con = record x.con { read_buffer = buffer_move_write_ptr x.con.read_buffer n };
  })
  decrypted x (s, want_read, bs) = ssl_handle_error o written want_read (record x { ssl = s })
  decrypted x (s, refused text, bs) =
      ssl_handle_error o written (refused text) (record x { ssl = s })

  -- `n` encrypted bytes have arrived in the buffer for them. The room is cast to an `int`, whose 32 bits
  -- `SSL_read` is given. One call of `SSL_read` is made, and the
  -- packet loop is left to the callback that checks for data.
  unfoldable pub read_encrypted : ℕ → Secured o → Option (Secured o)
  read_encrypted n x =
      let s = o.bio_write x.ssl (read x.memory x.bio_buffer n) in
      decrypted x (o.ssl_read s (u32 (buffer_get_available (some x.con.read_buffer))))

  abbrev pub with_con : Secured o → Option (Bool × Connect) → Option (Secured o)
  with_con x none = none
  with_con x (some (r, c)) = some (record x { con = c })

  -- `attachsql_read_data_cb`; an error of the event loop is as without OpenSSL.
  unfoldable pub read_data_cb_tls : Handshake → Platform → ReadSize → Secured o → Option (Secured o)
  read_data_cb_tls h e (read_failure text) x =
      with_con x (read_data_cb h e x.memory (read_failure text) x.con)
  read_data_cb_tls h e (read_bytes n) x =
      if x.handshake_done
      then read_encrypted n x
      else with_con x (read_data_cb h e x.memory (read_bytes n) x.con)

  abbrev pub and_loop : World → Option (Secured o) → Option (Secured o)
  and_loop w none = none
  and_loop w (some x) = some (record x { con = run_uv_loop w x.con })

  -- `attachsql_do_poll`, for a connection that is not NULL.
  unfoldable pub do_poll_tls : World → Secured o → Option (Secured o)
  do_poll_tls w x =
      if is_at_rest x.con.status
      then some x
      else if x.handshake_done
      then and_loop w (ssl_run o written x)
      else and_loop w (some x)

  -- What `attachsql_command_send` returns, and leaves.
  pub record SentTls : Type 0 where
    pub outcome : CommandStatus
    pub state : Secured o

  -- The parts that are sent: no part for no data.
  abbrev pub data_part : List ℕ → List (List ℕ)
  data_part [] = []
  data_part (b ∷ bs) = (b ∷ bs) ∷ []

  abbrev pub parts : Connect → Command → List ℕ → List (List ℕ)
  parts c command d =
      let c' = sending c command (length d) in
      c'.packet_header ∷ read c'.write_buffer 0 (1 + c.write_buffer_extra) ∷ data_part d

  -- `ssl_buffer_write` always returns 0.
  abbrev pub command_sent : Platform → Command → Option (Secured o) → Option SentTls
  command_sent e command none = none
  command_sent e command (some x) = some (record {
    outcome = command_status_send;
    state = record x {
      con = record (expect e command x.con) {
        command_status = command_status_send;
        status = con_status_busy;
      };
    };
  })

  abbrev pub sent_plain : Secured o → Sent → SentTls
  sent_plain x s = record {
    outcome = s.outcome;
    state = record x { con = s.con; writes = x.writes + 1; wire = x.wire ++ s.bytes };
  }

  -- `attachsql_command_send`; `failure` is the text of the error that `uv_write` answers on a
  -- connection that is not encrypted.
  unfoldable pub command_send_tls :
      Platform → Option (List ℕ) → ReadAnswers → Secured o → Command → List ℕ → Option SentTls
  command_send_tls e failure a x command d =
      if x.handshake_done
      then command_sent e command (
          ssl_buffer_write o written a (parts x.con command d)
            (record x { con = sending x.con command (length d) }))
      else some (sent_plain x (command_send e failure x.con command d))
