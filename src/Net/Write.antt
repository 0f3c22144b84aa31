-- ===== src/Net/Write.antt =====
-- `on_write` of src/net.cc: the event loop calls it when a write is done.
use libattachsql.Prelude.{ℕ, Option, some, none, List}
use libattachsql.Buffer.Ops.{ret_net_write_error}
use libattachsql.Net.Queue.{PacketType, packet_none, packet_queue_peek}
use libattachsql.Net.Connect.{
  Connect, con_status_idle, con_status_net_error, command_status_eof, command_status_send_failed,
}

unfoldable pub write_done : PacketType → Connect → Connect
write_done packet_none c = record c {
  status = con_status_idle;
  command_status = command_status_eof;
}
write_done _ c = c

-- `failure` is the text of the error that the write ended with, if it did.
unfoldable pub on_write : Option (List ℕ) → Connect → Connect
on_write none c = write_done (packet_queue_peek c.queue) c
on_write (some failure) c = record (write_done (packet_queue_peek c.queue) c) {
  local_errcode = ret_net_write_error;
  command_status = command_status_send_failed;
  queue = record c.queue { next_packet_queue_used = 0 };
  status = con_status_net_error;
  errmsg = failure;
}
