-- ===== src/Connect/HandshakeLaws.antt =====
-- The handshake's handlers have the law that the packet loop asks for, and their response fits the
-- write buffer.
use mathlib.Core.Option.{some-injective}
use mathlib.Core.Path.{subst}
use libattachsql.Prelude.{
  ℕ, zero, suc, ◌≤◌, ◌≡◌, ◌⊎◌, inl, inr, refl, ap, ◌∙◌, arith, true, false, Option, none, some,
  List, [], ◌∷◌, ◌++◌, ◌==◌, length, length-append, Bool-cases, Option-cases,
}
use libattachsql.Prelude.Memory.{Mem, write_outside}
use libattachsql.Buffer.Ops.{buffer_packet_read_end}
use libattachsql.Net.Connect.{Connect}
use libattachsql.Net.Response.{Platform, packet_read_response}
use libattachsql.Net.Ends.{read_end_anywhere, read_end_again, response_ends}
use libattachsql.Net.ProcessLaws.{IsHandshake}
use libattachsql.Connect.Scramble.{scramble_password, xor_all}
use libattachsql.Connect.ScrambleLaws.{IsDigest}
use libattachsql.Connect.Handshake.{
  Login, send_data, response_head, schema_bytes, pass_bytes, pass_of, tagged, respond,
  handshake_response, handshake_fields, packet_read_handshake, handshake_of,
}

sent_alone :
    (written : _) (n : ℕ) (c : Connect)
    → ((send_data written n c).read_buffer ≡ c.read_buffer)
      × ((send_data written n c).write_buffer ≡ c.write_buffer)
unfolding send_data
sent_alone true n c = (refl, refl)
sent_alone false n c = (refl, refl)

respond_alone :
    (e : Platform) (l : Login) (c : Connect) (o : Option (List ℕ))
    → (respond e l c o).read_buffer ≡ c.read_buffer
unfolding respond
respond_alone e l c none = refl
respond_alone e l c (some t) = (sent_alone l.written _ _).0

response_alone :
    (e : Platform) (l : Login) (c : Connect)
    → (handshake_response e l c).read_buffer ≡ c.read_buffer
unfolding handshake_response
response_alone e l c = respond_alone e l c (pass_bytes l.sha1 c)

handshake_ends :
    (e : Platform) (l : Login) (m : Mem) (c : Connect)
    → ((packet_read_handshake e l m c).read_buffer ≡ buffer_packet_read_end c.read_buffer)
      ⊎ ((packet_read_handshake e l m c).read_buffer ≡ c.read_buffer)
unfolding packet_read_handshake handshake_fields
handshake_ends e l m c = elim (Bool-cases (m c.read_buffer.buffer_read_ptr == 0xff)) [
  | inl h ↦
      let c' = packet_read_response e m c in
      elim (Bool-cases (m c'.read_buffer.buffer_read_ptr == 10)) [
        | inl k ↦
            rw (h, k)
              (inl (
                response_alone e l _
                ∙ (read_end_anywhere c'.read_buffer _
                    ∙ (ap buffer_packet_read_end (response_ends e m c)
                        ∙ read_end_again c.read_buffer _))))
        | inr k ↦ rw (h, k) (inl (response_ends e m c))
      ]
  | inr h ↦ elim (Bool-cases (m c.read_buffer.buffer_read_ptr == 10)) [
    | inl k ↦ rw (h, k) (inl (response_alone e l _ ∙ read_end_anywhere c.read_buffer _))
    | inr k ↦ rw (h, k) (inr refl)
  ]
]

-- The handlers of the handshake end their packet or leave the buffer alone, whatever the server
-- sends, the user gives and the write answers: they have the law that the packet loop asks for.
pub handshake_of-IsHandshake : (e : Platform) (l : Login) → IsHandshake (handshake_of e l)
handshake_of-IsHandshake e l = record {
  read_handshake_lem = handshake_ends e l;
  handshake_response_lem = λ m c. inr (response_alone e l c);
}

head_fits : (c : Connect) → length c.user ≤ 16 → length (response_head c) ≤ 49
unfolding response_head
head_fits c h = omega (arith, length-append c.user (0 ∷ []))

schema_fits :
    (c : Connect)
    → ((s : List ℕ) → c.con_schema ≡ some s → length s ≤ 64)
    → length (schema_bytes c.con_schema) ≤ 65
unfolding schema_bytes
schema_fits c h = elim (Option-cases c.con_schema) [
  | inl e ↦ rw e (omega arith)
  | inr (s, e) ↦ rw e (omega (arith, length-append s (0 ∷ []), h s e))
]

length-xor_all : (xs ys : List ℕ) → length (xor_all xs ys) ≤ length xs
unfolding xor_all
length-xor_all [] ys = omega arith
length-xor_all (x ∷ xs) [] = omega arith
length-xor_all (x ∷ xs) (y ∷ ys) = omega (arith, length-xor_all xs ys)

token_fits :
    (sha1 : List ℕ → List ℕ) (pass scramble token : List ℕ)
    → IsDigest sha1
    → scramble_password sha1 pass scramble ≡ some token
    → length token ≤ 20
unfolding scramble_password
token_fits sha1 pass [] token d e = absurd (ground arith)
token_fits sha1 pass (zero ∷ scramble) token d e = absurd (ground arith)
token_fits sha1 pass (suc b ∷ scramble) token d e =
    subst (λ (t : List ℕ). length t ≤ 20) (some-injective _ _ e)
      (omega (arith, length-xor_all _ (sha1 pass), d.digest_length _))

tagged_fits :
    (o : Option (List ℕ)) (t : List ℕ)
    → ((token : List ℕ) → o ≡ some token → length token ≤ 20)
    → tagged o ≡ some t
    → length t ≤ 21
unfolding tagged
tagged_fits none t h e = absurd (ground arith)
tagged_fits (some token) t h e =
    subst (λ (x : List ℕ). length x ≤ 21) (some-injective _ _ e) (omega (arith, h token refl))

pass_fits :
    (sha1 : List ℕ → List ℕ) (pass scramble t : List ℕ)
    → IsDigest sha1
    → pass_of sha1 pass scramble ≡ some t
    → length t ≤ 21
unfolding pass_of
pass_fits sha1 [] scramble t d e =
    subst (λ (x : List ℕ). length x ≤ 21) (some-injective _ _ e) (omega arith)
pass_fits sha1 (p ∷ ps) scramble t d e =
    tagged_fits (scramble_password sha1 (p ∷ ps) scramble) t
      (λ token h. token_fits sha1 (p ∷ ps) scramble token d h) e

respond_within :
    (e : Platform) (l : Login) (c : Connect) (o : Option (List ℕ)) (i : ℕ)
    → length c.user ≤ 16
    → ((s : List ℕ) → c.con_schema ≡ some s → length s ≤ 64)
    → ((t : List ℕ) → o ≡ some t → length t ≤ 21)
    → 1024 ≤ i
    → (respond e l c o).write_buffer i ≡ c.write_buffer i
unfolding respond
respond_within e l c none i u s t k =
    write_outside c.write_buffer 0 i (response_head c ++ (20 ∷ []))
      (inr (omega (arith, length-append (response_head c) (20 ∷ []), head_fits c u)))
respond_within e l c (some pass) i u s t k =
    let after = schema_bytes c.con_schema in
    ap (λ (f : ℕ → ℕ). f i) (sent_alone l.written _ _).1
    ∙ write_outside c.write_buffer 0 i (response_head c ++ (pass ++ after)) (
        inr (
          omega (
            arith,
            length-append (response_head c) (pass ++ after),
            length-append pass after,
            head_fits c u,
            schema_fits c s,
            t pass refl,
          )))

-- For a user name of at most 16 bytes and a schema of at most 64, the lengths that
-- `attachsql_connect_create` lets pass, the handshake's response does not write behind the 1024
-- bytes of the write buffer, whatever the password.
pub handshake_response_within :
    (e : Platform) (l : Login) (c : Connect) (i : ℕ)
    → IsDigest l.sha1
    → length c.user ≤ 16
    → ((s : List ℕ) → c.con_schema ≡ some s → length s ≤ 64)
    → 1024 ≤ i
    → (handshake_response e l c).write_buffer i ≡ c.write_buffer i
unfolding handshake_response
handshake_response_within e l c i d u s k =
    respond_within e l c (pass_bytes l.sha1 c) i u s
      (λ t h. pass_fits l.sha1 c.pass c.scramble_buffer t d h) k
