-- ===== src/Tests/Buffers.antt =====
-- src/buffer.cc and the packet queue of src/net.cc at concrete inputs.
use libattachsql.Prelude.{◌-◌, ◌^◌, ◌≡◌, refl, arith, true, some, [], ◌∷◌, inr}
use libattachsql.Prelude.Memory.{Mem, write}
use libattachsql.Buffer.Ops.{
  Buffer, default_buffer_size, buffer_create, buffer_get_available, buffer_move_write_ptr,
  buffer_packet_read_end, buffer_increase, buffer_grow, Ret,
}
use libattachsql.Buffer.Room.{IsValid, get_available_lem}
use libattachsql.Buffer.Steps.{
  receive, consume, enlarge, start, next, received, consumed, enlarged, unread_bytes, Run-refines,
}
use libattachsql.Net.Queue.{packet_response, packet_row, Queue, Memory, packet_queue_push}
use libattachsql.Net.QueueLaws.{to_stack, Fresh, InBlock, push_lem, push_overflow}

abbrev blank : Mem
blank a = 0

abbrev fresh : Buffer
fresh = record {
  buffer = 4096;
  buffer_size = default_buffer_size;
  buffer_used = 0;
  buffer_write_ptr = 4096;
  buffer_read_ptr = 4096;
  packet_end_ptr = 0;
}

-- Five bytes arrive, and a packet of three is consumed.
abbrev after_receive : Buffer
after_receive = record fresh { buffer_used = 5; buffer_write_ptr = 4101 }

-- The memory with these bytes, and the buffer with the packet consumed.
abbrev arrived : Mem
arrived = write blank 4096 (1 ∷ 2 ∷ 3 ∷ 4 ∷ 5 ∷ [])

abbrev after_consume : Buffer
after_consume = record after_receive { buffer_read_ptr = 4099; packet_end_ptr = 4099 }

-- The block is then enlarged, and two more bytes arrive.
abbrev larger : Ret × Mem × Buffer
larger = buffer_increase (some 4194304) arrived after_consume

Run-refines_example :
    let m' = write larger.1 larger.2.buffer_write_ptr (6 ∷ 7 ∷ []) in
    let b' = buffer_move_write_ptr larger.2 2 in
    IsValid b' × (unread_bytes m' b' ≡ 4 ∷ 5 ∷ 6 ∷ 7 ∷ [])
unfolding buffer_create buffer_move_write_ptr buffer_packet_read_end buffer_increase buffer_grow
    buffer_get_available
Run-refines_example =
    Run-refines blank 4096
      (received (6 ∷ 7 ∷ []) ∷ enlarged ∷ consumed 3 ∷ received (1 ∷ 2 ∷ 3 ∷ 4 ∷ 5 ∷ []) ∷ []) refl
      (omega arith) (omega arith)
      (next
        (next
          (next (next start (receive (1 ∷ 2 ∷ 3 ∷ 4 ∷ 5 ∷ []) (omega arith)))
            (consume 4100 4099 (omega arith) (omega arith)))
          (enlarge 4194304 refl (omega arith) (omega arith)))
        (receive (6 ∷ 7 ∷ []) (omega arith)))

-- A small block with 6 stale bytes and 4 free ones, and one with 2 stale bytes.
abbrev worn : Buffer
worn = record {
  buffer = 64;
  buffer_size = 16;
  buffer_used = 12;
  buffer_write_ptr = 76;
  buffer_read_ptr = 70;
  packet_end_ptr = 70;
}

abbrev worn-IsValid : IsValid worn
worn-IsValid = record {
  block = omega arith;
  unread = omega arith;
  read_in = omega arith;
  write_in = omega arith;
  used = refl;
  packet_in = inr (omega arith, omega arith);
  sized = omega arith;
}

-- 2 ^ 64 - 2 bytes are reported where 4 are free.
worn_available : buffer_get_available (some worn) ≡ 2 ^ 64 - 2
unfolding buffer_get_available
worn_available = refl

get_available_lem_example : buffer_get_available (some worn) ≡ 2 ^ 64 - 2
get_available_lem_example = get_available_lem worn worn-IsValid

abbrev enough : Memory
enough = record { malloc_done = true; realloc_done = true }

abbrev one_row : Queue
one_row = record {
  next_packet_queue = λ _. packet_row;
  next_packet_queue_size = 64;
  next_packet_queue_used = 1;
  allocated = 256;
}

push_lem_example :
    let r = packet_queue_push enough one_row packet_response in
    (r.0 ≡ true) × (to_stack r.1 ≡ packet_response ∷ packet_row ∷ []) × Fresh r.1 × InBlock r.1
push_lem_example =
    push_lem enough one_row packet_response refl
      (record { sizes = inr (refl, refl); within = omega arith }) (omega arith)

push_overflow_example :
    let full = record one_row { next_packet_queue_used = 64 } in
    ((packet_queue_push enough full packet_row).0 ≡ true)
    × ¬ InBlock (packet_queue_push enough full packet_row).1
push_overflow_example =
    push_overflow enough (record one_row { next_packet_queue_used = 64 }) packet_row refl refl
      (record { sizes = inr (refl, refl); within = omega arith }) refl
