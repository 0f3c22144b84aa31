-- ===== src/Tls/Loop.antt =====
-- The loops and branches of `attachsql_ssl_run` end, and lose nothing.
use libattachsql.Prelude.{
  ℕ, zero, suc, ◌+◌, ◌-◌, ◌<◌, ◌≤◌, ◌≡◌, refl, sym, ap, ◌∙◌, arith, Bool, ◌&&◌, Option, some, none,
  List, [], ◌∷◌, ◌++◌, length, take, take-append-drop, ltb, if_true, if_false, Bool-cases, inl, inr,
}
use libattachsql.Prelude.Memory.{Mem, read, length-read}
use mathlib.Core.Path.{subst}
use mathlib.Core.List.{append_assoc, append-nil}
use libattachsql.Buffer.Ops.{Buffer, buffer_unread_data}
use libattachsql.Buffer.Room.{unread_lem}
use libattachsql.Buffer.Steps.{unread_bytes}
use libattachsql.Net.Connect.{Connect}
use libattachsql.Tls.Ssl.{OpenSsl, IsOpenSsl, Answer, answered, want_read, refused, count, Secured}
use libattachsql.Tls.Run.{
  ssl_buffer_size, handed_on, flush_step, flush, after_write, write_unread, ssl_data_check,
  ssl_handle_error, and_check,
}
use libattachsql.Tls.Kept.{Keeps, Given, with_ssl-Keeps, read_on-IsValid, read_on_bytes}

module _ (o : OpenSsl) (law : IsOpenSsl o) (written : ℕ → Bool) (bs : List ℕ) (b : Buffer)
    (rs : List ℕ) (m : Mem) (w g : List ℕ) where
  abbrev pub Holds : Secured o → Type 0
  Holds x = Keeps o law written bs b rs m w g x

  -- A loop that ends in such a state.
  abbrev pub Ends : Option (Secured o) → Type 0
  Ends r = (x : Secured o) × (r ≡ some x) × Holds x

  handed_on-Holds :
      (x : Secured o) (s : o.Ssl) (ws : List ℕ)
      → law.accepted s ≡ law.accepted x.ssl
      → law.readable s ≡ rs
      → law.gave s ≡ law.gave x.ssl ++ ws
      → Holds x
      → Holds (handed_on o written x s ws)
  handed_on-Holds x s ws same ready given k =
      let x' = handed_on o written x s ws in
      let con : x'.con.read_buffer ≡ x.con.read_buffer = elim (Bool-cases (written x.writes)) [
        | inl taken ↦ ap (λ (c : Connect). c.read_buffer) (if_true _ _ _ taken)
        | inr failed ↦ ap (λ (c : Connect). c.read_buffer) (if_false _ _ _ failed)
      ] in
      let (ts, out, got) = k.wired in
      record {
        has = k.has;
        valid = k.valid;
        same = ap (λ a. a ++ unread_bytes x.memory x.write_buffer) same ∙ k.same;
        unread_in = con ∙ k.unread_in;
        ready = ready;
        memory_in = k.memory_in;
        wired = (
          ts ++ ws,
          ap (λ l. l ++ ws) out ∙ append_assoc w ts ws,
          given ∙ ap (λ l. l ++ ws) got ∙ append_assoc g ts ws,
        );
      }

  step-Ends :
      (fuel : ℕ) (rest : Secured o → Option (Secured o)) (x : Secured o) (r : o.Ssl × List ℕ)
      → ((x' : Secured o) → o.bio_pending x'.ssl < fuel → Holds x' → Ends (rest x'))
      → o.bio_pending r.0 + length r.1 < suc fuel
      → law.accepted r.0 ≡ law.accepted x.ssl
      → law.readable r.0 ≡ rs
      → law.gave r.0 ≡ law.gave x.ssl ++ r.1
      → Holds x
      → Ends (flush_step o written rest x r)
  unfolding flush_step
  step-Ends fuel rest x (s, []) go small same ready given k = (
    record x { ssl = s },
    refl,
    with_ssl-Keeps o law written bs b rs m w g x (record x { ssl = s }) refl refl refl refl same
        ready refl (given ∙ append-nil (law.gave x.ssl)) k,
  )
  step-Ends fuel rest x (s, y ∷ ws) go small same ready given k =
      go (handed_on o written x s (y ∷ ws)) (omega arith)
        (handed_on-Holds x s (y ∷ ws) same ready given k)

  flush-Ends :
      (fuel : ℕ) (x : Secured o)
      → o.bio_pending x.ssl < fuel
      → Holds x
      → Ends (flush o written fuel x)
  unfolding flush
  flush-Ends zero x h k = absurd (omega arith)
  flush-Ends (suc fuel) x h k =
      step-Ends fuel _ x (o.bio_read x.ssl ssl_buffer_size) (flush-Ends fuel)
        (omega (arith, law.bio_read-pending x.ssl ssl_buffer_size))
        (law.bio_read-accepted x.ssl ssl_buffer_size)
        (law.bio_read-readable x.ssl ssl_buffer_size ∙ k.ready)
        (law.bio_read-gave x.ssl ssl_buffer_size) k

  -- What `SSL_write` takes is taken from the front of the write buffer.
  after_write-Holds :
      (x : Secured o) (r : o.Ssl × Answer)
      → let unread = unread_bytes x.memory x.write_buffer in
        (count r.1 ≤ length unread)
          × (law.accepted r.0 ≡ law.accepted x.ssl ++ take (count r.1) unread)
        → law.readable r.0 ≡ rs
        → law.gave r.0 ≡ law.gave x.ssl
        → Holds x
        → Holds (after_write o written x r)
  unfolding after_write
  after_write-Holds x (s, answered n) h ready given k =
      let w = x.write_buffer in
      let unread = unread_bytes x.memory w in
      let len = length-read x.memory w.buffer_read_ptr (w.buffer_write_ptr - w.buffer_read_ptr) in
      record {
        has = k.has;
        valid = read_on-IsValid w n k.valid (omega (arith, len, h.0));
        same =
            ap
              (λ a.
                a ++ unread_bytes x.memory (record w { buffer_read_ptr = w.buffer_read_ptr + n }))
              h.1
            ∙ append_assoc (law.accepted x.ssl) (take n unread) _
            ∙ ap (λ u. law.accepted x.ssl ++ u)
                (ap (λ u. take n unread ++ u) (read_on_bytes x.memory w n)
                  ∙ take-append-drop n unread)
            ∙ k.same;
        unread_in = k.unread_in;
        ready = ready;
        memory_in = k.memory_in;
        wired = (k.wired.0, k.wired.1, given ∙ k.wired.2);
      }
  after_write-Holds x (s, want_read) h ready given k =
      with_ssl-Keeps o law written bs b rs m w g x _ refl refl refl refl
        (h.1 ∙ append-nil (law.accepted x.ssl)) ready refl given k
  after_write-Holds x (s, refused text) h ready given k =
      with_ssl-Keeps o law written bs b rs m w g x _ refl refl refl refl
        (h.1 ∙ append-nil (law.accepted x.ssl)) ready refl given k

  write_unread-Holds : (x : Secured o) → Holds x → Holds (write_unread o written x)
  unfolding write_unread
  write_unread-Holds x k =
      let p = x.write_buffer.buffer_read_ptr in
      let n = buffer_unread_data x.write_buffer in
      let w = o.ssl_write x.ssl (read x.memory p n) in
      let taken =
        subst
          (λ (k : ℕ).
            (count w.1 ≤ length (read x.memory p k))
            × (law.accepted w.0 ≡ law.accepted x.ssl ++ take (count w.1) (read x.memory p k)))
          (unread_lem x.write_buffer k.valid) (law.ssl_write-accepted x.ssl (read x.memory p n)) in
      elim (Bool-cases (x.has_write_buffer && ltb 0 n)) [
        | inl some_left ↦ subst Holds (sym (if_true _ _ _ some_left)) (
            after_write-Holds x w taken (law.ssl_write-readable x.ssl (read x.memory p n) ∙ k.ready)
              (law.ssl_write-gave x.ssl (read x.memory p n)) k)
        | inr none_left ↦ subst Holds (sym (if_false _ _ _ none_left)) k
      ]

  after_write_ssl : (x : Secured o) (r : o.Ssl × Answer) → (after_write o written x r).ssl ≡ r.0
  unfolding after_write
  after_write_ssl x (s, answered n) = refl
  after_write_ssl x (s, want_read) = refl
  after_write_ssl x (s, refused text) = refl

  write_unread-Given :
      (x : Secured o)
      → Holds x
      → Given o law written bs (law.accepted (write_unread o written x).ssl)
  unfolding write_unread read
  write_unread-Given x k =
      let p = x.write_buffer.buffer_read_ptr in
      let n = buffer_unread_data x.write_buffer in
      let whole : law.accepted x.ssl ++ read x.memory p n ≡ bs =
        ap (λ (i : ℕ). law.accepted x.ssl ++ read x.memory p i) (unread_lem x.write_buffer k.valid)
        ∙ k.same in
      let w = o.ssl_write x.ssl (read x.memory p n) in
      elim (Bool-cases (x.has_write_buffer && ltb 0 n)) [
        | inl some_left ↦ inr (
          x.ssl,
          read x.memory p n,
          whole,
          ap (λ (y : Secured o). law.accepted y.ssl) (if_true _ _ _ some_left)
              ∙ ap law.accepted (after_write_ssl x w)
              ∙ (law.ssl_write-accepted x.ssl (read x.memory p n)).1,
        )
        | inr none_left ↦
            let empty : n ≡ 0 = ground (arith, none_left, k.has) in
            inl (
              ap (λ (y : Secured o). law.accepted y.ssl) (if_false _ _ _ none_left)
              ∙ sym (append-nil (law.accepted x.ssl))
              ∙ ap (λ (i : ℕ). law.accepted x.ssl ++ read x.memory p i) (sym empty)
              ∙ whole)
      ]

  -- What ends leaves what `SSL_write` took as `ts`.
  abbrev Leaves : List ℕ → Option (Secured o) → Type 0
  Leaves ts none = Unit
  Leaves ts (some x) = law.accepted x.ssl ≡ ts

  step-Leaves :
      (ts : List ℕ) (rest : Secured o → Option (Secured o)) (x : Secured o) (r : o.Ssl × List ℕ)
      → ((x' : Secured o) → law.accepted x'.ssl ≡ ts → Leaves ts (rest x'))
      → law.accepted r.0 ≡ ts
      → Leaves ts (flush_step o written rest x r)
  unfolding flush_step
  step-Leaves ts rest x (s, []) go h = h
  step-Leaves ts rest x (s, y ∷ ws) go h = go (handed_on o written x s (y ∷ ws)) h

  flush-Leaves :
      (fuel : ℕ) (ts : List ℕ) (x : Secured o)
      → law.accepted x.ssl ≡ ts
      → Leaves ts (flush o written fuel x)
  unfolding flush
  flush-Leaves zero ts x h = tt
  flush-Leaves (suc fuel) ts x h =
      step-Leaves ts _ x (o.bio_read x.ssl ssl_buffer_size) (flush-Leaves fuel ts)
        (law.bio_read-accepted x.ssl ssl_buffer_size ∙ h)

  -- A run that ends in such a state, having given `SSL_write` all that was to be sent.
  abbrev pub Flushed : Option (Secured o) → Type 0
  Flushed r = (x : Secured o) × (r ≡ some x) × Holds x × Given o law written bs (law.accepted x.ssl)

  data_check-Flushed : (x : Secured o) → Holds x → Flushed (ssl_data_check o written x)
  unfolding ssl_data_check
  data_check-Flushed x k =
      let x₁ = write_unread o written x in
      let (x', e, k') = flush-Ends _ x₁ (omega arith) (write_unread-Holds x k) in
      let left : law.accepted x'.ssl ≡ law.accepted x₁.ssl =
        subst (Leaves (law.accepted x₁.ssl)) e (flush-Leaves _ _ x₁ refl) in
      (x', e, k', subst (Given o law written bs) (sym left) (write_unread-Given x k))

  pub handle_error-Ends :
      (r : Answer) (x : Secured o) → Holds x → Ends (ssl_handle_error o written r x)
  unfolding ssl_handle_error
  handle_error-Ends (answered n) x k = (x, refl, k)
  handle_error-Ends want_read x k = let (x', e, k', offered) = data_check-Flushed x k in (x', e, k')
  handle_error-Ends (refused text) x k = (
    _,
    refl,
    with_ssl-Keeps o law written bs b rs m w g x _ refl refl refl refl refl k.ready refl refl k,
  )

  and_check-Flushed : (r : Option (Secured o)) → Ends r → Flushed (and_check o written r)
  and_check-Flushed r (x, e, k) =
      let (x', e', k', offered) = data_check-Flushed x k in
      (x', ap (and_check o written) e ∙ e', k', offered)

  -- The answer of `SSL_connect` or `SSL_read` is handled, and then the data.
  pub handled-Flushed :
      (r : Answer) (x : Secured o)
      → Holds x
      → Flushed (and_check o written (ssl_handle_error o written r x))
  handled-Flushed r x k = and_check-Flushed _ (handle_error-Ends r x k)
