-- ===== src/Tls/Run.antt =====
-- `attachsql_ssl_run` and what it calls, `attachsql_ssl_buffer_write`, and the callbacks of reading
-- on an encrypted connection, of src/net.cc and src/connect.cc. Whether the k-th `uv_write` takes its
-- bytes is an argument.
use libattachsql.Prelude.{
  ℕ, zero, suc, ◌+◌, ◌*◌, Bool, true, not, ◌&&◌, Option, some, none, List, [], ◌∷◌, ◌++◌, length,
  ltb, if◌then◌else◌,
}
use libattachsql.Prelude.Memory.{read, write}
use libattachsql.Buffer.Ops.{
  Buffer, ret_net_ssl_error, ret_net_write_error, buffer_create, buffer_get_available,
  buffer_increase, buffer_move_write_ptr, buffer_unread_data,
}
use libattachsql.Net.Connect.{Connect, con_status_ssl_error, command_status_send_failed}
use libattachsql.Net.Read.{ReadAnswers}
use libattachsql.Compress.Send.{send_failed}
use libattachsql.Tls.Ssl.{OpenSsl, Answer, answered, want_read, refused, Secured}

-- `ssl_read_buffer` and `ssl_write_buffer`
abbrev pub ssl_buffer_size : ℕ
ssl_buffer_size = 1024 * 16

abbrev pub ssl_failed : List ℕ → Connect → Connect
ssl_failed text c = record c {
  local_errcode = ret_net_ssl_error;
  command_status = command_status_send_failed;
  queue = record c.queue { next_packet_queue_used = 0 };
  status = con_status_ssl_error;
  errmsg = text;
}

-- The loop over the lengths of what is to be sent.
abbrev pub total : List (List ℕ) → ℕ
total [] = 0
total (bs ∷ rest) = length bs + total rest

module _ (o : OpenSsl) (written : ℕ → Bool) where
  -- `bs` is handed to `uv_write`, with the SSL object as it is after the read of `bs`.
  abbrev pub handed_on : Secured o → o.Ssl → List ℕ → Secured o
  handed_on x s bs = record x {
    ssl = s;
    con = if written x.writes then x.con else send_failed ret_net_write_error x.con;
    writes = x.writes + 1;
    wire = x.wire ++ bs;
  }

  -- The loop of `ssl_data_check`, on fuel.
  unfoldable pub flush_step :
      (Secured o → Option (Secured o)) → Secured o → o.Ssl × List ℕ → Option (Secured o)
  flush_step rest x (s, []) = some (record x { ssl = s })
  flush_step rest x (s, b ∷ bs) = rest (handed_on x s (b ∷ bs))

  unfoldable pub flush : ℕ → Secured o → Option (Secured o)
  flush zero x = none
  flush (suc fuel) x = flush_step (λ x'. flush fuel x') x (o.bio_read x.ssl ssl_buffer_size)

  -- What `SSL_write` answers for the bytes of the write buffer.
  unfoldable pub after_write : Secured o → o.Ssl × Answer → Secured o
  after_write x (s, answered n) = record x {
    ssl = s;
    write_buffer = record x.write_buffer { buffer_read_ptr = x.write_buffer.buffer_read_ptr + n };
  }
  after_write x (s, want_read) = record x { ssl = s }
  after_write x (s, refused text) = record x { ssl = s; con = ssl_failed text x.con }

  unfoldable pub write_unread : Secured o → Secured o
  write_unread x =
      let n = buffer_unread_data x.write_buffer in
      if x.has_write_buffer && ltb 0 n
      then after_write x (o.ssl_write x.ssl (read x.memory x.write_buffer.buffer_read_ptr n))
      else x

  -- `attachsql_ssl_data_check`; the fuel is one more than the bytes that are pending.
  unfoldable pub ssl_data_check : Secured o → Option (Secured o)
  ssl_data_check x = let x' = write_unread x in flush (suc (o.bio_pending x'.ssl)) x'

  -- `attachsql_ssl_handle_error`, where the answer was an error.
  unfoldable pub ssl_handle_error : Answer → Secured o → Option (Secured o)
  ssl_handle_error (answered n) x = some x
  ssl_handle_error want_read x = ssl_data_check x
  ssl_handle_error (refused text) x = some (record x { con = ssl_failed text x.con })

  abbrev pub and_check : Option (Secured o) → Option (Secured o)
  and_check none = none
  and_check (some x) = ssl_data_check x

  -- `attachsql_ssl_run`. The bytes that `SSL_read` gives are put in `ssl_read_buffer`, which nothing
  -- else looks at.
  unfoldable pub ssl_run : Secured o → Option (Secured o)
  ssl_run x =
      if not (o.is_init_finished x.ssl)
      then (let r = o.ssl_connect x.ssl in
          and_check (ssl_handle_error r.1 (record x { ssl = r.0 })))
      else (let r = o.ssl_read x.ssl ssl_buffer_size in
          and_check (
            ssl_handle_error r.1
              (record x { ssl = r.0; ssl_read_buffer = write x.ssl_read_buffer 0 r.2 })))

  -- The copies behind what is in the write buffer.
  unfoldable pub copied : List (List ℕ) → Secured o → Secured o
  copied [] x = x
  copied (bs ∷ rest) x = copied rest (record x {
    memory = write x.memory x.write_buffer.buffer_write_ptr bs;
    write_buffer = buffer_move_write_ptr x.write_buffer (length bs);
  })

  unfoldable pub with_room : Option ℕ → ℕ → Secured o → Secured o
  with_room larger required x =
      if ltb (buffer_get_available (some x.write_buffer)) required
      then (let r = buffer_increase larger x.memory x.write_buffer in
          record x { memory = r.1; write_buffer = r.2 })
      else x

  abbrev pub copied_new : Option ℕ → List (List ℕ) → Secured o → Option Buffer → Option (Secured o)
  copied_new larger bufs x none = none
  copied_new larger bufs x (some b) = ssl_run (
      copied bufs
        (with_room larger (total bufs) (record x { has_write_buffer = true; write_buffer = b })))

  -- `attachsql_ssl_buffer_write`, which returns 0; `none` is a write buffer that was not created,
  -- which is then written through NULL.
  unfoldable pub ssl_buffer_write : ReadAnswers → List (List ℕ) → Secured o → Option (Secured o)
  ssl_buffer_write a bufs x =
      if x.has_write_buffer
      then ssl_run (copied bufs (with_room a.larger (total bufs) x))
      else copied_new a.larger bufs x (buffer_create a.object a.block)
