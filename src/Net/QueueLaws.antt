-- ===== src/Net/QueueLaws.antt =====
-- The packet queue refines a stack, as long as its block is large enough.
use libattachsql.Prelude.{
  ℕ, zero, suc, ◌+◌, ◌*◌, ◌-◌, ◌≤◌, ◌<◌, ◌≡◌, ◌≢◌, ◌⊎◌, inl, inr, refl, ap, ◌∙◌, arith, true, false,
  List, [], ◌∷◌, le→leb, lt→leb, ◌==◌,
}
use libattachsql.Net.Queue.{
  PacketType, packet_none, Queue, put, packet_type_size, Memory, packet_queue_push,
  packet_queue_pop, packet_queue_peek, queue_first, queue_enlarge, queue_append,
}

-- The stack, its top first.
abbrev pub stack_of : (ℕ → PacketType) → ℕ → List PacketType
stack_of f zero = []
stack_of f (suc n) = f n ∷ stack_of f n

abbrev pub to_stack : Queue → List PacketType
to_stack q = stack_of q.next_packet_queue q.next_packet_queue_used

abbrev pub top : List PacketType → PacketType
top [] = packet_none
top (t ∷ ts) = t

abbrev pub rest : List PacketType → List PacketType
rest [] = []
rest (t ∷ ts) = ts

-- Every entry lies in the block that is allocated.
abbrev pub InBlock : Queue → Type 0
InBlock q = packet_type_size * q.next_packet_queue_used ≤ q.allocated

-- The fields of a queue that was not enlarged yet.
pub record Fresh (q : Queue) : Type 0 where
  pub sizes :
      ((q.next_packet_queue_size ≡ 0) × (q.next_packet_queue_used ≡ 0))
      ⊎ ((q.next_packet_queue_size ≡ 64) × (q.allocated ≡ 256))
  pub within : q.next_packet_queue_used ≤ q.next_packet_queue_size

stack_of-put :
    (f : ℕ → PacketType) (i n : ℕ) (t : PacketType) → n ≤ i → stack_of (put f i t) n ≡ stack_of f n
stack_of-put f i zero t h = refl
stack_of-put f i (suc n) t h = ground (arith, stack_of-put f i n t)

to_stack-append : (q : Queue) (t : PacketType) → to_stack (queue_append q t) ≡ t ∷ to_stack q
unfolding queue_append
to_stack-append q t =
    let f = put q.next_packet_queue q.next_packet_queue_used t in
    let next : q.next_packet_queue_used + 1 ≡ suc q.next_packet_queue_used = omega arith in
    let at : f q.next_packet_queue_used ≡ t = ground arith in
    rw (next, at)
      (ap (◌∷◌ t) (stack_of-put q.next_packet_queue q.next_packet_queue_used _ t (omega arith)))

-- `push` in the three states of the block.
module _ (a : Memory) (q : Queue) (t : PacketType) (got : a.malloc_done ≡ true) where
  push_first :
      q.next_packet_queue_size ≡ 0
      → q.next_packet_queue_used ≡ 0
      → packet_queue_push a q t
        ≡ (true, queue_append (record q { next_packet_queue_size = 64; allocated = 256 }) t)
  unfolding packet_queue_push queue_first queue_enlarge
  push_first e z = rw (e, z, got)

  push_room :
      q.next_packet_queue_size ≢ 0
      → q.next_packet_queue_used < q.next_packet_queue_size
      → packet_queue_push a q t ≡ (true, queue_append q t)
  unfolding packet_queue_push queue_first queue_enlarge
  push_room ne h =
      let e : (q.next_packet_queue_size == 0) ≡ false = ground arith in
      rw (e, lt→leb q.next_packet_queue_size q.next_packet_queue_used h)

  push_full :
      q.next_packet_queue_size ≢ 0
      → q.next_packet_queue_size ≤ q.next_packet_queue_used
      → a.realloc_done ≡ true
      → packet_queue_push a q t ≡ (
        true,
        queue_append
            (record q {
              next_packet_queue_size = q.next_packet_queue_size * 2;
              allocated = q.next_packet_queue_size * 2;
            })
            t,
      )
  unfolding packet_queue_push queue_first queue_enlarge
  push_full ne h got2 =
      let e : (q.next_packet_queue_size == 0) ≡ false = ground arith in
      rw (e, le→leb q.next_packet_queue_size q.next_packet_queue_used h, got2)

-- In a queue that was not enlarged and has room for one more entry, or has no block yet, `push`
-- puts the type on top of the stack and reports success, if the first allocation is made; the
-- entries stay in the block, and the queue is again one that was not enlarged.
pub push_lem :
    (a : Memory) (q : Queue) (t : PacketType)
    → a.malloc_done ≡ true
    → Fresh q
    → q.next_packet_queue_used < 64
    → let r = packet_queue_push a q t in
      (r.0 ≡ true) × (to_stack r.1 ≡ t ∷ to_stack q) × Fresh r.1 × InBlock r.1
push_lem a q t got v h = elim v.sizes [
  | inl (e, z) ↦
      let q' = record q { next_packet_queue_size = 64; allocated = 256 } in
      rw (push_first a q t got e z) (
        refl,
        to_stack-append q' t,
        unfold queue_append in (record { sizes = inr (refl, refl); within = omega arith }),
        unfold queue_append in (omega arith),
      )
  | inr (e, b) ↦ rw (push_room a q t got (omega arith) (omega arith)) (
    refl,
    to_stack-append q t,
    unfold queue_append in (record { sizes = inr (e, b); within = omega arith }),
    unfold queue_append in (omega arith),
  )
]

-- Where 64 entries fill the block of a queue that was not enlarged, `push` reports success and
-- writes its entry outside the block: the new block has as many bytes as it should have entries.
pub push_overflow :
    (a : Memory) (q : Queue) (t : PacketType)
    → a.malloc_done ≡ true
    → a.realloc_done ≡ true
    → Fresh q
    → q.next_packet_queue_used ≡ 64
    → ((packet_queue_push a q t).0 ≡ true) × ¬ InBlock (packet_queue_push a q t).1
push_overflow a q t got got2 v h =
    let size : q.next_packet_queue_size ≡ 64 = elim v.sizes [
      | inl (e, z) ↦ absurd (omega arith)
      | inr (e, b) ↦ e
    ] in
    rw (push_full a q t got (omega arith) (omega arith) got2)
      (refl, unfold queue_append in (omega arith))

pop_cases :
    (q : Queue) (n : ℕ)
    → q.next_packet_queue_used ≡ n
    → ((packet_queue_pop q).0 ≡ top (to_stack q))
      × (to_stack (packet_queue_pop q).1 ≡ rest (to_stack q))
      × (packet_queue_peek q ≡ top (to_stack q))
unfolding packet_queue_pop packet_queue_peek
pop_cases q zero e = rw e (refl, refl, refl)
pop_cases q (suc n) e =
    let less : suc n - 1 ≡ n = omega arith in
    let some_left : (suc n == 0) ≡ false = ground arith in
    rw (e, less, some_left) (refl, refl, refl)

-- `pop` returns the top of the stack and leaves the rest, or `packet_none` and the empty stack;
-- `peek` returns the top without taking it.
pub pop_lem :
    (q : Queue)
    → ((packet_queue_pop q).0 ≡ top (to_stack q))
      × (to_stack (packet_queue_pop q).1 ≡ rest (to_stack q))
      × (packet_queue_peek q ≡ top (to_stack q))
pop_lem q = pop_cases q q.next_packet_queue_used refl

pub peek_empty : (q : Queue) → q.next_packet_queue_used ≡ 0 → packet_queue_peek q ≡ packet_none
peek_empty q z = (pop_cases q 0 z).2 ∙ ap (λ (n : ℕ). top (stack_of q.next_packet_queue n)) z
