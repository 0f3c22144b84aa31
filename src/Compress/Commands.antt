-- ===== src/Compress/Commands.antt =====
-- What a command on a compressed connection leaves, and within which bounds it writes.
use libattachsql.Prelude.{
  ℕ, ◌<◌, ◌≡◌, ◌⊎◌, inl, inr, refl, sym, ap, ◌∙◌, arith, Bool, true, not, ◌||◌, Option, some, none,
  List, length, if_true, Bool-cases, ltb,
}
use libattachsql.Net.Queue.{Queue, packet_queue_peek}
use libattachsql.Net.QueueLaws.{top, Fresh, push_lem, pop_lem}
use libattachsql.Net.Connect.{Connect, con_status_idle, con_status_busy, command_status_send}
use libattachsql.Net.Response.{Platform, push, has_compress}
use libattachsql.Net.Write.{on_write, write_done}
use libattachsql.Command.Send.{Command, command_stmt_prepare, command_code}
use libattachsql.Compress.Zlib.{Zlib, Compression}
use libattachsql.Compress.Send.{
  SendAnswers, SentZlib, Handed, minimum_compress_size, extra_sent, answer_to, numbered, enlarged,
  required_uncompressed, to_compress, hand_over, send_answer, send_large, send_small, send_gathered,
  send_compressed_packet, expect_compressed, command_send_compressed, command_send_zlib,
}
use mathlib.Core.Path.{subst}
use libattachsql.Query.Buffered.{is_idle}

-- Sending leaves the connection's status, and its queue unless it empties it.
abbrev emptied : Connect → Connect
emptied c = record c { queue = record c.queue { next_packet_queue_used = 0 } }

abbrev Kept : Connect → Connect → Type 0
Kept c c' = (c'.status ≡ c.status) × ((c'.queue ≡ c.queue) ⊎ (c'.queue ≡ (emptied c).queue))

hand_over-Kept :
    (a : SendAnswers) (z : Compression) (c : Connect) (packet : List ℕ)
    → Kept c (hand_over a z c packet).con
unfolding hand_over
hand_over-Kept a z c packet = elim (Bool-cases a.written) [
  | inl done ↦ rw done (refl, inl refl)
  | inr failed ↦ rw failed (refl, inr refl)
]

answer-Kept :
    (a : SendAnswers) (z : Compression) (c : Connect) (required : ℕ) (r : Bool × List ℕ)
    → Kept c (send_answer a z c required r).con
unfolding send_answer
answer-Kept a z c required (done, bs) =
    elim (Bool-cases (not done || ltb z.uncompressed_buffer_len (length bs))) [
      | inl failed ↦ rw failed (refl, inr refl)
      | inr sent ↦ rw sent (hand_over-Kept a _ c _)
    ]

large-Kept :
    (zlib : Zlib) (a : SendAnswers) (z : Compression) (c : Connect) (required : ℕ) (len : Option ℕ)
    → Kept c (send_large zlib a z c required len).con
unfolding send_large
large-Kept zlib a z c required none = (refl, inr refl)
large-Kept zlib a z c required (some len) = answer-Kept a _ c required _

gathered-Kept :
    (zlib : Zlib) (a : SendAnswers) (z : Compression) (c : Connect) (d : List ℕ) (command : ℕ)
    (len : Option ℕ)
    → Kept c (send_gathered zlib a z c d command len).con
unfolding send_gathered send_small
gathered-Kept zlib a z c d command none = (refl, inr refl)
gathered-Kept zlib a z c d command (some len) =
    elim (Bool-cases (ltb minimum_compress_size (length d))) [
      | inl large ↦ rw large (large-Kept zlib a _ (extra_sent c command) _ _)
      | inr few ↦ rw few (hand_over-Kept a _ (extra_sent c command) _)
    ]

-- A queue with room for one more entry has it when it is emptied, too.
abbrev Room : Connect → Type 0
Room c = Fresh c.queue × (c.queue.next_packet_queue_used < 64)

emptied-Room : (c : Connect) → Room c → Room (emptied c)
emptied-Room c r = elim r.0.sizes [
  | inl none_yet ↦ (record { sizes = inl (none_yet.0, refl); within = omega arith }, omega arith)
  | inr block ↦ (record { sizes = inr block; within = omega arith }, omega arith)
]

Kept-Room : (c c' : Connect) → Kept c c' → Room c → Room c'
Kept-Room c c' (_, inl same) r =
    subst (λ (q : Queue). Fresh q × (q.next_packet_queue_used < 64)) (sym same) r
Kept-Room c c' (_, inr none_left) r =
    subst (λ (q : Queue). Fresh q × (q.next_packet_queue_used < 64)) (sym none_left)
      (emptied-Room c r)

-- After a command, the end of its write changes nothing: an answer is expected.
write_ends :
    (c : Connect) (command : Command)
    → packet_queue_peek c.queue ≡ answer_to command
    → on_write none c ≡ c
unfolding on_write write_done
write_ends c command_stmt_prepare h = ap (λ t. write_done t c) h
write_ends c command h = ap (λ t. write_done t c) h

expected :
    (e : Platform) (command : Command) (h : Handed)
    → h.con.status ≡ con_status_idle
    → expect_compressed e command h ≡ record {
      outcome = command_status_send;
      handed = record h {
        con = record (push e (answer_to command) h.con) {
          command_status = command_status_send;
          status = con_status_busy;
        };
      };
    }
unfolding expect_compressed
expected e command h idle = if_true (is_idle h.con.status) _ _ (ap is_idle idle)

-- The command was sent, as far as its caller is told, the connection is busy and expects an answer,
-- and the end of the write does not change that.
abbrev pub AnswerExpected : Command → SentZlib → Type 0
AnswerExpected command s =
    (s.outcome ≡ command_status_send)
    × (s.handed.con.status ≡ con_status_busy)
    × (packet_queue_peek s.handed.con.queue ≡ answer_to command)
    × (on_write none s.handed.con ≡ s.handed.con)

-- Every command on an idle compressed connection, `stmt_close` and `stmt_reset` among them, and
-- whether or not anything was handed to `uv_write`, returns that it was sent and makes the connection
-- busy with an answer expected, where the queue was not yet enlarged and has room. The end of the
-- write then changes nothing, so a connection whose server does not answer stays busy.
pub command_send_zlib-expects :
    (e : Platform) (failure : Option (List ℕ)) (zlib : Zlib) (a : SendAnswers) (z : Compression)
    (c : Connect) (command : Command) (d : List ℕ)
    → has_compress c.client_capabilities ≡ true
    → c.status ≡ con_status_idle
    → e.memory.malloc_done ≡ true
    → Fresh c.queue
    → c.queue.next_packet_queue_used < 64
    → AnswerExpected command (command_send_zlib e failure zlib a z c command d)
unfolding command_send_zlib command_send_compressed send_compressed_packet
command_send_zlib-expects e failure zlib a z c command d h idle got v r =
    let c' = to_compress c (length d) in
    let n = command_code command in
    let sent = send_compressed_packet zlib a z c' d n in
    let kept =
      gathered-Kept zlib a (numbered z n) c' d n
        (enlarged a.larger_uncompressed z.uncompressed_buffer_len (required_uncompressed c' d n)) in
    let room = Kept-Room c' sent.con kept (v, r) in
    let same =
      if_true (has_compress c.client_capabilities) _ _ h
      ∙ expected e command sent (kept.0 ∙ idle) in
    let peeked =
      (pop_lem (push e (answer_to command) sent.con).queue).2
      ∙ ap top (push_lem e.memory sent.con.queue (answer_to command) got room.0 room.1).1 in
    subst (AnswerExpected command) (sym same) (refl, refl, peeked, write_ends _ command peeked)
