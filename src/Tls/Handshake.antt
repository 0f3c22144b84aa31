-- ===== src/Tls/Handshake.antt =====
-- `attachsql_handshake_response` of src/connect.cc and `attachsql_send_data` of src/net.cc, as built
-- with OpenSSL and without zlib: the part of the handshake that is sent in plain text, and the part
-- that is encrypted.
use libattachsql.Prelude.{
  ℕ, zero, suc, ◌+◌, ◌^◌, Bool, true, false, not, ◌&&◌, Option, some, none, List, [], ◌∷◌, ◌++◌,
  ◌==◌, length, replicate, if◌then◌else◌, bit_and, bit_or,
}
use libattachsql.Prelude.Memory.{read, write}
use libattachsql.Buffer.Ops.{ret_net_ssl_error, ret_bad_scramble, default_buffer_size}
use libattachsql.Net.Queue.{
  PacketType, packet_handshake_ssl, packet_response, packet_queue_peek, packet_queue_pop,
}
use libattachsql.Net.Connect.{Connect, command_status_send_failed, con_status_connect_failed}
use libattachsql.Net.Response.{Platform, push}
use libattachsql.Net.Read.{ReadAnswers}
use libattachsql.Connect.Handshake.{
  send_data, capabilities_of, int4_bytes, schema_bytes, pass_bytes,
}
use libattachsql.Tls.Ssl.{OpenSsl, Secured}
use libattachsql.Tls.Run.{ssl_run, ssl_buffer_write}

-- The calls that start SSL: two new BIOs, which are set; the state of a client; the handshake, whose
-- answer is not looked at.
pub record SslStart (o : OpenSsl) : Type 0 where
  pub set_bio : o.Ssl → o.Ssl
  pub set_connect_state : o.Ssl → o.Ssl
  pub do_handshake : o.Ssl → o.Ssl

-- A connection with, in `con->ssl`, the object that is not NULL where `has_ssl` says so, and
-- `enabled`.
pub record Greeting (o : OpenSsl) : Type 0 where
  pub secured : Secured o
  pub has_ssl : Bool
  pub enabled : Bool

-- ATTACHSQL_CAPABILITY_SSL
abbrev pub capability_ssl : ℕ
capability_ssl = 2 ^ 11

unfoldable pub is_handshake_ssl : PacketType → Bool
is_handshake_ssl packet_handshake_ssl = true
is_handshake_ssl _ = false

-- The response up to the user's name: all that is sent in plain text.
unfoldable pub short_response : Bool → Connect → List ℕ
short_response has_ssl c =
    int4_bytes (if has_ssl then bit_or (capabilities_of c) capability_ssl else capabilities_of c)
    ++ (int4_bytes default_buffer_size ++ (0 ∷ replicate 23 0))

-- The response up to and with the name of the user.
abbrev pub full_head : Bool → Connect → List ℕ
full_head has_ssl c = short_response has_ssl c ++ (c.user ++ (0 ∷ []))

module _ (o : OpenSsl) (written : ℕ → Bool) (start : SslStart o) where
  abbrev pub shaken : Greeting o → Option (Secured o) → Option (Greeting o)
  shaken g none = none
  shaken g (some x) = some (record g { secured = record x { handshake_done = true } })

  -- SSL starts with the first data that is sent once it is enabled.
  unfoldable pub start_ssl : Greeting o → Option (Greeting o)
  start_ssl g =
      let x = g.secured in
      if g.enabled && not x.handshake_done
      then shaken g (
          ssl_run o written
            (record x { ssl = start.do_handshake (start.set_connect_state (start.set_bio x.ssl)) }))
      else some g

  abbrev pub with_secured : Greeting o → Option (Secured o) → Option (Greeting o)
  with_secured g none = none
  with_secured g (some x) = some (record g { secured = x })

  -- The packet of the first `len` bytes of the write buffer. `ssl_buffer_write` returns 0.
  unfoldable pub send_packet : ReadAnswers → ℕ → Greeting o → Option (Greeting o)
  send_packet a len g =
      let x = g.secured in
      let c = send_data true len x.con in
      let bytes = read x.con.write_buffer 0 len in
      if x.handshake_done
      then with_secured g
          (ssl_buffer_write o written a (c.packet_header ∷ bytes ∷ []) (record x { con = c }))
      else some (record g {
        secured = record x {
          con = send_data (written x.writes) len x.con;
          writes = x.writes + 1;
          wire = x.wire ++ (c.packet_header ++ bytes);
        };
      })

  abbrev pub and_packet : ReadAnswers → ℕ → Option (Greeting o) → Option (Greeting o)
  and_packet a len none = none
  and_packet a len (some g) = send_packet a len g

  -- `attachsql_send_data` of `len` bytes of the write buffer.
  unfoldable pub send_data_tls : ReadAnswers → ℕ → Greeting o → Option (Greeting o)
  send_data_tls a len g = and_packet a len (start_ssl g)

  abbrev pub with_connect : (Connect → Connect) → Greeting o → Greeting o
  with_connect f g = record g { secured = record g.secured { con = f g.secured.con } }

  abbrev pub and_push : Platform → PacketType → Option (Greeting o) → Option (Greeting o)
  and_push e t none = none
  and_push e t (some g) = some (with_connect (push e t) g)

  -- The bytes are written to the front of the connection's write buffer.
  abbrev pub put_front : List ℕ → Greeting o → Greeting o
  put_front bs g = with_connect (λ c. record c { write_buffer = write c.write_buffer 0 bs }) g

  -- The whole response, with what stands for the password.
  unfoldable pub respond_tls :
      Platform → ReadAnswers → Option (List ℕ) → Greeting o → Option (Greeting o)
  respond_tls e a none g = some (
      with_connect (λ c. record c { local_errcode = ret_bad_scramble })
        (put_front (full_head g.has_ssl g.secured.con ++ (20 ∷ [])) g))
  respond_tls e a (some pass) g =
      let c = g.secured.con in
      let response = full_head g.has_ssl c ++ (pass ++ schema_bytes c.con_schema) in
      and_push e packet_response (send_data_tls a (length response) (put_front response g))

  -- The second entry: what is sent from here on is encrypted.
  unfoldable pub enable : Greeting o → Greeting o
  enable g =
      if g.has_ssl
      then with_connect (λ c. record c { queue = (packet_queue_pop c.queue).1 })
          (record g { enabled = true })
      else g

  -- The server does not know SSL. The message is `text`.
  unfoldable pub no_ssl : List ℕ → Greeting o → Greeting o
  no_ssl text g =
      with_connect
        (λ c. record c {
          local_errcode = ret_net_ssl_error;
          errmsg = text;
          command_status = command_status_send_failed;
          queue = record c.queue { next_packet_queue_used = 0 };
          status = con_status_connect_failed;
        })
        g

  abbrev pub and_again :
      (Greeting o → Option (Greeting o)) → Option (Greeting o) → Option (Greeting o)
  and_again again none = none
  and_again again (some g) = again g

  -- One entry, with `again` for the function's call of itself.
  unfoldable pub response_entry :
      Platform
      → (List ℕ → List ℕ)
      → List ℕ
      → ReadAnswers
      → (Greeting o → Option (Greeting o))
      → Greeting o
      → Option (Greeting o)
  response_entry e sha1 text a again g =
      let c = g.secured.con in
      let short = short_response g.has_ssl c in
      if g.has_ssl && (bit_and c.server_capabilities capability_ssl == 0)
      then some (no_ssl text g)
      else if g.has_ssl && not (is_handshake_ssl (packet_queue_peek c.queue))
      then and_again again
          (and_push e packet_handshake_ssl (send_data_tls a (length short) (put_front short g)))
      else respond_tls e a (pass_bytes sha1 c) (enable g)

  -- `attachsql_handshake_response` on fuel, one for each entry. The second entry is found by the
  -- packet type that the first has pushed.
  unfoldable pub handshake_response_tls :
      Platform → (List ℕ → List ℕ) → List ℕ → ReadAnswers → ℕ → Greeting o → Option (Greeting o)
  handshake_response_tls e sha1 text a zero g = none
  handshake_response_tls e sha1 text a (suc fuel) g =
      response_entry e sha1 text a (λ g'. handshake_response_tls e sha1 text a fuel g') g
