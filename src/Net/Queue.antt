-- ===== src/Net/Queue.antt =====
-- The queue of expected packet types of src/net.cc. It is used as a stack.
use libattachsql.Prelude.{ℕ, ◌+◌, ◌*◌, ◌-◌, Bool, true, false, leb, ◌==◌, if◌then◌else◌}

-- src/constants.h
pub data PacketType : Type 0 where
  packet_none packet_handshake packet_handshake_ssl packet_response : PacketType
  packet_prepare_response packet_prepare_parameter packet_prepare_column : PacketType
  packet_column packet_row packet_stmt_row : PacketType

-- The three fields of the connection, and `allocated`: the bytes of the block behind
-- `next_packet_queue`, 0 while that is NULL.
pub record Queue : Type 0 where
  pub next_packet_queue : ℕ → PacketType
  pub next_packet_queue_size : ℕ
  pub next_packet_queue_used : ℕ
  pub allocated : ℕ

abbrev pub default_packet_queue_size : ℕ
default_packet_queue_size = 64

-- `sizeof(attachsql_packet_type_t)`
abbrev pub packet_type_size : ℕ
packet_type_size = 4

abbrev pub empty_queue : Queue
empty_queue = record {
  next_packet_queue = λ _. packet_none;
  next_packet_queue_size = 0;
  next_packet_queue_used = 0;
  allocated = 0;
}

abbrev pub put : (ℕ → PacketType) → ℕ → PacketType → ℕ → PacketType
put f i t j = if i == j then t else f j

-- The two blocks that make room; `done` is what the allocation answered, and the Boolean result is
-- whether the function goes on.
unfoldable pub queue_first : Bool → Queue → Bool × Queue
queue_first done q =
    if q.next_packet_queue_size == 0
    then (
      done,
      record q {
        next_packet_queue_size = default_packet_queue_size;
        allocated = if done then packet_type_size * default_packet_queue_size else 0;
      },
    )
    else (true, q)

unfoldable pub queue_enlarge : Bool → Queue → Bool × Queue
queue_enlarge done q =
    if leb q.next_packet_queue_size q.next_packet_queue_used
    then (if done
        then (
          true,
          record q {
            next_packet_queue_size = q.next_packet_queue_size * 2;
            allocated = q.next_packet_queue_size * 2;
          },
        )
        else (false, q))
    else (true, q)

unfoldable pub queue_append : Queue → PacketType → Queue
queue_append q t = record q {
  next_packet_queue = put q.next_packet_queue q.next_packet_queue_used t;
  next_packet_queue_used = q.next_packet_queue_used + 1;
}

-- What the two allocations answer, should they be made.
pub record Memory : Type 0 where
  pub malloc_done : Bool
  pub realloc_done : Bool

unfoldable pub packet_queue_push : Memory → Queue → PacketType → Bool × Queue
packet_queue_push a q t =
    let (on, q') = queue_first a.malloc_done q in
    let (on', q'') = queue_enlarge a.realloc_done q' in
    if on then (if on' then (true, queue_append q'' t) else (false, q'')) else (false, q')

unfoldable pub packet_queue_pop : Queue → PacketType × Queue
packet_queue_pop q = if q.next_packet_queue_used == 0 then (packet_none, q) else (
  q.next_packet_queue (q.next_packet_queue_used - 1),
  record q { next_packet_queue_used = q.next_packet_queue_used - 1 },
)

unfoldable pub packet_queue_peek : Queue → PacketType
packet_queue_peek q =
    if q.next_packet_queue_used == 0
    then packet_none
    else q.next_packet_queue (q.next_packet_queue_used - 1)
