-- ===== src/Net/Read.antt =====
-- The callbacks that fill the read buffer, as built without zlib and OpenSSL: `on_alloc` of
-- src/connect.cc, `attachsql_read_data_cb` of src/net.cc and `attachsql_check_for_data_cb`.
use libattachsql.Prelude.{ℕ, Bool, true, false, Option, some, none, List, ltb, if◌then◌else◌}
use libattachsql.Prelude.Memory.{Mem}
use libattachsql.Buffer.Ops.{
  Buffer, buffer_create, buffer_get_available, buffer_increase, buffer_move_write_ptr,
  ret_net_read_error,
}
use libattachsql.Net.Connect.{Connect, con_status_net_error, command_status_read_failed}
use libattachsql.Net.Response.{Platform}
use libattachsql.Net.Process.{Handshake, con_process_packets}

-- What the allocations answer: the struct and the block of a new buffer, and a larger block.
pub record ReadAnswers : Type 0 where
  pub object : Bool
  pub block : Option ℕ
  pub larger : Option ℕ

-- The memory and the connection after `on_alloc`, and where the event loop may write how much.
pub record Offered : Type 0 where
  pub memory : Mem
  pub con : Connect
  pub base : ℕ
  pub len : ℕ

abbrev pub offer : Mem → Connect → Buffer → Offered
offer m c b = record {
  memory = m;
  con = record c { has_read_buffer = true; read_buffer = b };
  base = b.buffer_write_ptr;
  len = buffer_get_available (some b);
}

-- Room is made once, whatever the result.
unfoldable pub offer_room : Option ℕ → Mem → ℕ → Connect → Buffer → Offered
offer_room larger m suggested c b =
    if ltb (buffer_get_available (some b)) suggested
    then (let r = buffer_increase larger m b in offer r.1 c r.2)
    else offer m c b

abbrev pub offer_new : Option ℕ → Mem → ℕ → Connect → Option Buffer → Option Offered
offer_new larger m suggested c none = none
offer_new larger m suggested c (some b) = some (offer_room larger m suggested c b)

-- `on_alloc`; `none` is a buffer that was not created, which is then read through NULL.
unfoldable pub on_alloc : ReadAnswers → Mem → ℕ → Connect → Option Offered
on_alloc a m suggested c =
    if c.has_read_buffer
    then some (offer_room a.larger m suggested c c.read_buffer)
    else offer_new a.larger m suggested c (buffer_create a.object a.block)

-- What `uv_read_start` calls back with: bytes that were written to the buffer, or an error's text.
pub data ReadSize : Type 0 where
  read_bytes : ℕ → ReadSize
  read_failure : List ℕ → ReadSize

-- `attachsql_read_data_cb`; `none` is a packet loop without fuel.
unfoldable pub read_data_cb :
    Handshake → Platform → Mem → ReadSize → Connect → Option (Bool × Connect)
read_data_cb h e m (read_failure failure) c = some (
  false,
  record c {
    local_errcode = ret_net_read_error;
    command_status = command_status_read_failed;
    queue = record c.queue { next_packet_queue_used = 0 };
    status = con_status_net_error;
    errmsg = failure;
  },
)
read_data_cb h e m (read_bytes n) c =
    con_process_packets h e m (record c { read_buffer = buffer_move_write_ptr c.read_buffer n })
