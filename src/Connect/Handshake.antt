-- ===== src/Connect/Handshake.antt =====
-- The handshake's handlers of src/connect.cc and `attachsql_send_data` of src/net.cc, as built
-- without zlib and OpenSSL. SHA-1 and what `uv_write` answers are arguments.
use libattachsql.Prelude.{
  ℕ, ◌+◌, ◌^◌, Bool, Option, none, some, List, [], ◌∷◌, ◌++◌, ◌==◌, length, replicate,
  if◌then◌else◌, bit_and, bit_or,
}
use libattachsql.Prelude.Bits.{u8, u32}
use libattachsql.Prelude.Memory.{Mem, read, write}
use libattachsql.Buffer.Ops.{
  ret_bad_protocol, ret_no_old_auth, ret_bad_scramble, ret_net_write_error, default_buffer_size,
}
use libattachsql.Pack.Ints.{byte, unpack_int2, unpack_int4}
use libattachsql.Net.Queue.{packet_response}
use libattachsql.Net.Connect.{Connect, command_status_send_failed, command_status_read_response}
use libattachsql.Net.Response.{
  Platform, push, at, packet_read_end, until_zero, packet_read_response,
}
use libattachsql.Net.Process.{Handshake}
use libattachsql.Connect.Scramble.{scramble_password}

-- The texts that are put in `errmsg`.
pub record Texts : Type 0 where
  pub incompatible_protocol : List ℕ
  pub old_protocol : List ℕ

-- `sha1`, the texts, and whether `uv_write` takes the response.
pub record Login : Type 0 where
  pub sha1 : List ℕ → List ℕ
  pub texts : Texts
  pub written : Bool

-- `attachsql_send_data` of `len` bytes of the write buffer.
unfoldable pub send_data : Bool → ℕ → Connect → Connect
send_data written len c =
    let number = u8 (c.packet_number + 1) in
    let c' : Connect = record c {
      packet_number = number;
      packet_header = byte len 0 ∷ byte len 8 ∷ byte len 16 ∷ number ∷ [];
      command_status = command_status_read_response;
    } in
    if written then c' else record c' {
      local_errcode = ret_net_write_error;
      command_status = command_status_send_failed;
      queue = record c'.queue { next_packet_queue_used = 0 };
    }

-- ATTACHSQL_CAPABILITY_CLIENT and ATTACHSQL_CAPABILITY_MULTI_RESULTS
abbrev pub capability_client : ℕ
capability_client = 2 ^ 0 + 2 ^ 1 + 2 ^ 2 + 2 ^ 3 + 2 ^ 9 + 2 ^ 13 + 2 ^ 15 + 2 ^ 19

abbrev pub capability_multi_results : ℕ
capability_multi_results = 2 ^ 17

abbrev pub capabilities_of : Connect → ℕ
capabilities_of c = u32 (
    bit_or (bit_or (bit_and c.server_capabilities capability_client) capability_multi_results)
      c.client_capabilities)

abbrev pub int4_bytes : ℕ → List ℕ
int4_bytes n = byte n 0 ∷ byte n 8 ∷ byte n 16 ∷ byte n 24 ∷ []

-- The response up to and with the user's name.
unfoldable pub response_head : Connect → List ℕ
response_head c =
    int4_bytes (capabilities_of c)
    ++ (int4_bytes default_buffer_size ++ (0 ∷ replicate 23 0 ++ (c.user ++ (0 ∷ []))))

unfoldable pub schema_bytes : Option (List ℕ) → List ℕ
schema_bytes none = 0 ∷ []
schema_bytes (some s) = s ++ (0 ∷ [])

-- What stands for the password, or `none` where the scramble is missing.
unfoldable pub tagged : Option (List ℕ) → Option (List ℕ)
tagged none = none
tagged (some token) = some (20 ∷ token)

unfoldable pub pass_of : (List ℕ → List ℕ) → List ℕ → List ℕ → Option (List ℕ)
pass_of sha1 [] scramble = some (0 ∷ [])
pass_of sha1 (p ∷ ps) scramble = tagged (scramble_password sha1 (p ∷ ps) scramble)

abbrev pub pass_bytes : (List ℕ → List ℕ) → Connect → Option (List ℕ)
pass_bytes sha1 c = pass_of sha1 c.pass c.scramble_buffer

-- The response, with what stands for the password, is written to the front of the write buffer.
unfoldable pub respond : Platform → Login → Connect → Option (List ℕ) → Connect
respond e l c none = record c {
  write_buffer = write c.write_buffer 0 (response_head c ++ (20 ∷ []));
  local_errcode = ret_bad_scramble;
}
respond e l c (some pass) =
    let response = response_head c ++ (pass ++ schema_bytes c.con_schema) in
    push e packet_response (
      send_data l.written (length response)
        (record c { write_buffer = write c.write_buffer 0 response }))

unfoldable pub handshake_response : Platform → Login → Connect → Connect
handshake_response e l c = respond e l c (pass_bytes l.sha1 c)

-- The packet's fields, from the pointer `p` behind the protocol version on. `strncpy` takes at most
-- 31 bytes of the server's version.
unfoldable pub handshake_fields : Login → Mem → ℕ → Connect → Connect
handshake_fields l m p c =
    let version = until_zero (read m p 31) in
    let q = p + length version + 1 in
    let capabilities = unpack_int2 m (q + 13) in
    let old = bit_and capabilities (2 ^ 9) == 0 in
    record c {
      server_version = version;
      thread_id = unpack_int4 m q;
      scramble_buffer = read m (q + 4) 8 ++ read m (q + 31) 12;
      server_capabilities = capabilities;
      local_errcode = if old then ret_no_old_auth else c.local_errcode;
      errmsg = if old then l.texts.old_protocol else c.errmsg;
      con_charset = m (q + 15);
      server_status = unpack_int2 m (q + 16);
      read_buffer = at (q + 44) c.read_buffer;
    }

unfoldable pub packet_read_handshake : Platform → Login → Mem → Connect → Connect
packet_read_handshake e l m c =
    let c' = if m c.read_buffer.buffer_read_ptr == 0xff then packet_read_response e m c else c in
    let p = c'.read_buffer.buffer_read_ptr in
    if m p == 10
    then handshake_response e l (packet_read_end (handshake_fields l m (p + 1) c'))
    else record c' { local_errcode = ret_bad_protocol; errmsg = l.texts.incompatible_protocol }

-- The two handlers that the packet loop takes.
abbrev pub handshake_of : Platform → Login → Handshake
handshake_of e l = record {
  read_handshake = packet_read_handshake e l;
  handshake_response = λ m. handshake_response e l;
}
