-- ===== src/Net/ColumnRun.antt =====
-- From a result packet of src/net.cc through its column packets.
use libattachsql.Prelude.{
  ℕ, zero, suc, ◌+◌, ◌-◌, ◌^◌, ◌≤◌, ◌<◌, ◌≡◌, ◌≢◌, refl, ap, ap₂, ◌∙◌, true, ◌==◌, List, ◌∷◌,
  if◌then◌else◌, arith,
}
use libattachsql.Prelude.Bits.{u16}
use libattachsql.Prelude.Memory.{Mem}
use libattachsql.Pack.Length.{unpack_length}
use libattachsql.Net.Queue.{PacketType, packet_response, packet_column}
use libattachsql.Net.QueueLaws.{to_stack, rest, Fresh, push_lem}
use libattachsql.Net.Connect.{Connect, Result}
use libattachsql.Net.Response.{Platform, read_result}
use libattachsql.Net.Columns.{packet_read_column}

-- What follows when `k` of `n` columns are read.
abbrev pub expected : ℕ → ℕ → PacketType
expected n k = if k == n then packet_response else packet_column

-- `k` of the `n` columns are read, and `s` is what was expected before the result.
pub record Reading (n k : ℕ) (s : List PacketType) (c : Connect) : Type 0 where
  pub total : c.result.column_count ≡ n
  pub current : c.result.current_column ≡ k
  pub stacked : to_stack c.queue ≡ expected n k ∷ s
  pub fresh : Fresh c.queue

-- The packets after a result packet: the loop takes the expected type from the queue and opens the
-- packet, which leaves the result alone, and the handler reads it. `column` is the number of
-- columns read.
pub data ColumnRun (e : Platform) (c : Connect) : ℕ → Connect → Type 0 where
  result : ColumnRun e c 0 c
  column :
      {k : ℕ} {c₁ : Connect}
      → ColumnRun e c k c₁
      → (m : Mem) (c₂ : Connect) → c₂.result ≡ c₁.result
      → to_stack c₂.queue ≡ rest (to_stack c₁.queue)
      → Fresh c₂.queue
      → c₂.queue.next_packet_queue_used < 64
      → ColumnRun e c (suc k) (packet_read_column e m c₂)

module _ (e : Platform) (got : e.memory.malloc_done ≡ true) where
  column_queue :
      (m : Mem) (c : Connect)
      → Fresh c.queue
      → c.queue.next_packet_queue_used < 64
      → (to_stack (packet_read_column e m c).queue
          ≡ expected c.result.column_count (u16 (c.result.current_column + 1)) ∷ to_stack c.queue)
        × Fresh (packet_read_column e m c).queue
  unfolding packet_read_column
  column_queue m c v r =
      let t = expected c.result.column_count (u16 (c.result.current_column + 1)) in
      let done = push_lem e.memory c.queue t got v r in (done.1, done.2)

  column_result :
      (m : Mem) (c : Connect)
      → ((packet_read_column e m c).result.column_count ≡ c.result.column_count)
        × ((packet_read_column e m c).result.current_column ≡ u16 (c.result.current_column + 1))
  unfolding packet_read_column
  column_result m c = (refl, refl)

  column_reads :
      (n k : ℕ) (s : List PacketType) (m : Mem) (c : Connect)
      → c.result.column_count ≡ n
      → c.result.current_column ≡ k
      → k < 2 ^ 16 - 1
      → to_stack c.queue ≡ s
      → Fresh c.queue
      → c.queue.next_packet_queue_used < 64
      → Reading n (suc k) s (packet_read_column e m c)
  column_reads n k s m c total current low stacked v r =
      let queue = column_queue m c v r in
      let now = column_result m c in
      let next : u16 (c.result.current_column + 1) ≡ suc k = omega arith in
      record {
        total = now.0 ∙ total;
        current = now.1 ∙ next;
        stacked = queue.0 ∙ ap₂ ◌∷◌ (ap₂ expected total next) stacked;
        fresh = queue.1;
      }

  run_reads :
      (n k : ℕ) (s : List PacketType) (c : Connect) {c' : Connect}
      → n < 2 ^ 16
      → k ≤ n
      → Reading n 0 s c
      → ColumnRun e c k c'
      → Reading n k s c'
  run_reads n zero s c low h v result = v
  run_reads n (suc k) s c low h v (column r m c₂ same popped fresh room) =
      let ih = run_reads n k s c low (omega arith) v r in
      column_reads n k s m c₂ (ap (λ (x : Result). x.column_count) same ∙ ih.total)
        (ap (λ (x : Result). x.current_column) same ∙ ih.current) (omega arith)
        (popped ∙ ap rest ih.stacked) fresh room

  result_reads :
      (m : Mem) (c : Connect)
      → c.result.current_column ≡ 0
      → u16 (unpack_length e.plain m c.read_buffer.buffer_read_ptr).value ≢ 0
      → Fresh c.queue
      → c.queue.next_packet_queue_used < 64
      → Reading
          (u16 (unpack_length e.plain m c.read_buffer.buffer_read_ptr).value)
          0
          (to_stack c.queue)
          (read_result e m c)
  unfolding read_result
  result_reads m c z some_columns v r =
      let n = u16 (unpack_length e.plain m c.read_buffer.buffer_read_ptr).value in
      let done = push_lem e.memory c.queue packet_column got v r in
      let more : packet_column ≡ expected n 0 = ground arith in
      record {
        total = refl;
        current = z;
        stacked = done.1 ∙ ap (λ t. t ∷ to_stack c.queue) more;
        fresh = done.2;
      }

-- After a result packet that announces columns, their number cut to 16 bits and not 0, the handler
-- of column packets is run exactly that often: after `k` of them the index is `k`, and a column is
-- expected next while there are fewer than announced, and the response after the last, on top of
-- what was expected before. This holds if the index was 0, the queue was never enlarged and has
-- room, and its first allocation is made.
pub columns_read :
    (e : Platform) (m : Mem) (c : Connect) (k : ℕ) {c' : Connect}
    → e.memory.malloc_done ≡ true
    → c.result.current_column ≡ 0
    → u16 (unpack_length e.plain m c.read_buffer.buffer_read_ptr).value ≢ 0
    → Fresh c.queue
    → c.queue.next_packet_queue_used < 64
    → k ≤ u16 (unpack_length e.plain m c.read_buffer.buffer_read_ptr).value
    → ColumnRun e (read_result e m c) k c'
    → Reading
        (u16 (unpack_length e.plain m c.read_buffer.buffer_read_ptr).value)
        k
        (to_stack c.queue)
        c'
columns_read e m c k got z some_columns v r h run =
    run_reads e got _ k (to_stack c.queue) (read_result e m c) (omega arith) h
      (result_reads e got m c z some_columns v r) run
