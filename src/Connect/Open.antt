-- ===== src/Connect/Open.antt =====
-- Opening a connection, of src/connect.cc. Name resolution and the libuv calls that fail at once are
-- arguments.
use libattachsql.Prelude.{
  ℕ, ◌==◌, ◌^◌, Bool, true, false, not, Option, none, some, List, length, bit_or, if◌then◌else◌,
}
use libattachsql.Buffer.Ops.{ret_dns_error, ret_out_of_memory_error, ret_connect_error, Ret}
use libattachsql.Net.Queue.{packet_handshake}
use libattachsql.Net.Connect.{
  Connect, ConStatus, CommandStatus, Protocol, protocol_unknown, protocol_uds, protocol_tcp,
  con_status_parameter_error, con_status_not_connected, con_status_connecting,
  con_status_connect_failed, con_status_busy, con_status_idle, con_status_ssl_error,
  con_status_net_error, command_status_connected, event_error, event_connected,
}
use libattachsql.Net.Response.{Platform, push}
use libattachsql.Connect.Errors.{
  Error, error_client_create, error_server_create, bad_parameter, unknown_connection_failure,
  of_errmsg, code_parameter, code_host_unknown, code_connect, code_ssl, code_server_lost,
  state_parameter, state_connection, state_lost,
}
use libattachsql.Connect.Callback.{World, send_callback, run_uv_loop}

-- The texts of the errors that `uv_loop_init` and `uv_getaddrinfo` answer at once, if they do.
pub record Opening : Type 0 where
  pub loop_failure : Option (List ℕ)
  pub dns_failure : Option (List ℕ)

abbrev pub is_not_connected : ConStatus → Bool
is_not_connected con_status_not_connected = true
is_not_connected _ = false

abbrev pub is_dns_error : Ret → Bool
is_dns_error ret_dns_error = true
is_dns_error _ = false

abbrev pub is_connected : CommandStatus → Bool
is_connected command_status_connected = true
is_connected _ = false

-- The protocol, as it is chosen where no option set one.
unfoldable pub choose_protocol : ℕ → Protocol → Protocol
choose_protocol port protocol_unknown = if port == 0 then protocol_uds else protocol_tcp
choose_protocol port protocol_uds = protocol_uds
choose_protocol port protocol_tcp = protocol_tcp

abbrev pub connect_failed : Ret → List ℕ → Connect → Connect
connect_failed r text c = record c {
  local_errcode = r;
  errmsg = text;
  status = con_status_connect_failed;
}

-- The `switch` on the protocol.
unfoldable pub start : World → Option (List ℕ) → Protocol → Connect → Connect
start w (some failure) protocol_tcp c = connect_failed ret_dns_error failure c
start w none protocol_tcp c = run_uv_loop w (record c { status = con_status_connecting })
start w dns protocol_uds c = run_uv_loop w (record c { status = con_status_connecting })
start w dns protocol_unknown c = record c { status = con_status_connect_failed }

unfoldable pub begin : World → Opening → Option (List ℕ) → Connect → Connect
begin w o none c =
    let p = choose_protocol c.port c.protocol in start w o.dns_failure p (record c { protocol = p })
begin w o (some failure) c = connect_failed ret_out_of_memory_error failure c

-- `attachsql_do_connect`; the event loop is made unless there is a pool.
unfoldable pub do_connect : World → Opening → Connect → Connect
do_connect w o c =
    if is_not_connected c.status
    then begin w o (if c.has_pool then none else o.loop_failure) c
    else c

-- The error of a connection that failed.
unfoldable pub failure_of : World → Connect → Option Error → Option Error
failure_of w c error =
    if is_dns_error c.local_errcode
    then error_client_create w.made code_host_unknown state_connection (of_errmsg c.errmsg) error
    else if not (c.server_errno == 0)
    then error_server_create w.made c error
    else if not (length c.errmsg == 0)
    then error_client_create w.made code_connect state_connection (of_errmsg c.errmsg) error
    else error_client_create w.made code_connect state_connection unknown_connection_failure error

-- A function's result, the connection after it, and what `*error` is.
pub record Outcome {ℓ} (A : Type ℓ) : Type ℓ where
  pub result : A
  pub con : Connect
  pub error : Option Error

abbrev pub fails {ℓ} : {A : Type ℓ} → World → A → Connect → Option Error → Outcome A
fails w r c error = record { result = r; con = send_callback w event_error error c; error = error }

-- The `switch` of `attachsql_connect`.
unfoldable pub connected : World → Option Error → ConStatus → Connect → Outcome Bool
connected w error con_status_parameter_error c =
    fails w false c (error_client_create w.made code_parameter state_parameter bad_parameter error)
connected w error con_status_not_connected c = record { result = true; con = c; error = error }
connected w error con_status_connecting c = record { result = true; con = c; error = error }
connected w error con_status_connect_failed c = fails w false c (failure_of w c error)
connected w error con_status_busy c = record { result = false; con = c; error = error }
connected w error con_status_idle c = record {
  result = true;
  con = (if is_connected c.command_status then send_callback w event_connected error c else c);
  error = error;
}
connected w error con_status_ssl_error c =
    fails w false c
      (error_client_create w.made code_ssl state_connection (of_errmsg c.errmsg) error)
connected w error con_status_net_error c =
    fails w false c
      (error_client_create w.made code_server_lost state_lost (of_errmsg c.errmsg) error)

-- `attachsql_connect`, for a connection that is not NULL.
unfoldable pub connect : World → Opening → Option Error → Connect → Outcome Bool
connect w o error c = let c' = do_connect w o c in connected w error c'.status c'

-- libattachsql2/constants.h
pub data ConOption : Type 0 where
  option_none option_compress option_found_rows option_ignore_sigpipe : ConOption
  option_interactive option_local_files option_multi_statements option_no_schema : ConOption
  option_ssl_no_verify option_semi_blocking : ConOption

-- The connection with the bit `n` of its capabilities set.
abbrev pub allow : ℕ → Connect → Bool × Connect
allow n c = (true, record c { client_capabilities = bit_or c.client_capabilities (2 ^ n) })

-- `attachsql_connect_set_option`, as built without zlib and OpenSSL.
unfoldable pub set_option : ConOption → Connect → Bool × Connect
set_option option_none c = (false, c)
set_option option_compress c = (false, c)
set_option option_found_rows c = allow 1 c
set_option option_ignore_sigpipe c = allow 11 c
set_option option_interactive c = allow 10 c
set_option option_local_files c = allow 7 c
set_option option_multi_statements c = allow 16 c
set_option option_no_schema c = allow 4 c
set_option option_ssl_no_verify c = (false, c)
set_option option_semi_blocking c = (true, record c { semi_block = true })

-- `on_connect`: the event loop calls it when the socket is connected, or failed with this text.
unfoldable pub on_connect : Platform → Option (List ℕ) → Connect → Connect
on_connect e (some failure) c = connect_failed ret_connect_error failure c
on_connect e none c = push e packet_handshake c
