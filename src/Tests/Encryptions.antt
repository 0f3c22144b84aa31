-- ===== src/Tests/Encryptions.antt =====
-- Encrypted connections at concrete inputs.
use libattachsql.Prelude.{
  ℕ, ◌+◌, ◌≡◌, ◌≤◌, refl, sym, ap, arith, Bool, true, some, none, List, [], ◌∷◌, ◌++◌, length,
  length-append, length-take, take, drop, take-append-drop,
}
use libattachsql.Prelude.Memory.{read}
use libattachsql.Buffer.Ops.{Buffer, default_buffer_size}
use libattachsql.Buffer.Room.{IsValid}
use libattachsql.Buffer.Steps.{unread_bytes}
use libattachsql.Net.Connect.{con_status_busy, command_status_send}
use libattachsql.Net.Read.{ReadAnswers}
use libattachsql.Command.Send.{command_query, command_send, packet_header_of}
use libattachsql.Tls.Ssl.{OpenSsl, IsOpenSsl, answered, Secured}
use libattachsql.Tls.Run.{ssl_run}
use libattachsql.Tls.Read.{SentTls, read_encrypted, command_send_tls}
use libattachsql.Tls.Kept.{Given, Wired, sent}
use libattachsql.Tls.Laws.{ssl_run-discards}
use libattachsql.Tls.ReadLaws.{Reads, to_read, read_encrypted-reads, command_send_tls-sent}
use libattachsql.Tests.Handlers.{platform, waiting, ok_packet, received-IsValid}

-- SSL without encryption: what it took, what it has to give, what is pending for the network, and
-- what it has given for it.
abbrev Plain : Type 0
Plain = List ℕ × List ℕ × List ℕ × List ℕ

abbrev plain : OpenSsl
plain = record {
  Ssl = Plain;
  is_init_finished = λ s. true;
  ssl_connect = λ s. (s, answered 1);
  ssl_write = λ s bs. ((s.0 ++ bs, s.1, s.2 ++ bs, s.3), answered (length bs));
  ssl_read = λ s n. ((s.0, drop n s.1, s.2, s.3), answered (length (take n s.1)), take n s.1);
  bio_write = λ s bs. (s.0, s.1 ++ bs, s.2, s.3);
  bio_read = λ s n. ((s.0, s.1, drop n s.2, s.3 ++ take n s.2), take n s.2);
  bio_pending = λ s. length s.2;
}

take_all : (bs : List ℕ) → take (length bs) bs ≡ bs
take_all [] = refl
take_all (b ∷ bs) = ap (◌∷◌ b) (take_all bs)

length_parts : (n : ℕ) (bs : List ℕ) → length (drop n bs) + length (take n bs) ≡ length bs
length_parts n bs =
    omega (arith, length-append (take n bs) (drop n bs), ap length (take-append-drop n bs))

length-take-le : (n : ℕ) (bs : List ℕ) → length (take n bs) ≤ n
length-take-le n bs = omega (arith, length-take n bs)

abbrev plain-IsOpenSsl : IsOpenSsl plain
plain-IsOpenSsl = record {
  accepted = λ s. s.0;
  readable = λ s. s.1;
  gave = λ s. s.3;
  ssl_write-gave = λ s bs. refl;
  ssl_connect-gave = λ s. refl;
  ssl_read-gave = λ s n. refl;
  bio_read-gave = λ s n. refl;
  ssl_write-accepted = λ s bs. (omega arith, ap (λ l. s.0 ++ l) (sym (take_all bs)));
  ssl_connect-accepted = λ s. refl;
  ssl_read-accepted = λ s n. refl;
  ssl_write-readable = λ s bs. refl;
  ssl_connect-readable = λ s. refl;
  ssl_read-readable = λ s n. sym (take-append-drop n s.1);
  bio_read-readable = λ s n. refl;
  ssl_read_within = λ s n. (refl, length-take-le n s.1);
  bio_write-accepted = λ s bs. refl;
  bio_read-accepted = λ s n. refl;
  bio_read-pending = λ s n. length_parts n s.2;
}

abbrev read_answers : ReadAnswers
read_answers = record { object = true; block = some 65536; larger = none }

abbrev out_buffer : Buffer
out_buffer = record {
  buffer = 8388608;
  buffer_size = default_buffer_size;
  buffer_used = 5;
  buffer_write_ptr = 8388613;
  buffer_read_ptr = 8388610;
  packet_end_ptr = 0;
}

-- Two records of the server are there to be read, and a byte for the network is pending.
abbrev secured : Secured plain
secured = record {
  memory = ok_packet;
  con = waiting;
  ssl = ([], 1 ∷ 2 ∷ [], 7 ∷ [], []);
  handshake_done = true;
  has_write_buffer = true;
  write_buffer = out_buffer;
  bio_buffer = 4096;
  bio_buffer_size = 65536;
  ssl_read_buffer = λ i. 0;
  writes = 0;
  wire = [];
}

out-IsValid : IsValid out_buffer
out-IsValid = ground arith

abbrev taken : ℕ → Bool
taken k = true

ssl_run-discards_example :
    (x' : Secured plain) × (ssl_run plain taken secured ≡ some x')
    × (x'.con.read_buffer ≡ waiting.read_buffer)
    × (unread_bytes x'.memory x'.con.read_buffer ≡ unread_bytes ok_packet waiting.read_buffer)
    × (1 ∷ 2 ∷ [] ≡ (1 ∷ 2 ∷ []) ++ plain-IsOpenSsl.readable x'.ssl)
ssl_run-discards_example =
    ssl_run-discards plain plain-IsOpenSsl taken secured refl refl out-IsValid

read_encrypted-reads_example :
    let arrived = record secured { ssl = ([], 1 ∷ 2 ∷ read ok_packet 4096 3, 7 ∷ [], []) } in
    Reads plain plain-IsOpenSsl taken
      (to_read plain plain-IsOpenSsl taken arrived)
      (read_encrypted plain taken 3 secured)
read_encrypted-reads_example =
    read_encrypted-reads plain plain-IsOpenSsl taken 3 secured refl out-IsValid received-IsValid
      (omega arith) (omega arith)

command_send_tls-sent_example :
    (r : SentTls plain taken) × (command_send_tls plain taken platform none read_answers secured
        command_query
        (83 ∷ 69 ∷ [])
      ≡ some r)
    × (r.outcome ≡ command_status_send)
    × (r.state.con.status ≡ con_status_busy)
    × (sent plain plain-IsOpenSsl taken r.state
        ≡ sent plain plain-IsOpenSsl taken secured
          ++ (command_send platform none waiting command_query (83 ∷ 69 ∷ [])).bytes)
    × Given plain plain-IsOpenSsl taken
        (sent plain plain-IsOpenSsl taken secured
          ++ (command_send platform none waiting command_query (83 ∷ 69 ∷ [])).bytes)
        (plain-IsOpenSsl.accepted r.state.ssl)
    × Wired plain plain-IsOpenSsl taken [] [] r.state
command_send_tls-sent_example =
    command_send_tls-sent plain plain-IsOpenSsl taken platform none read_answers secured
      command_query (83 ∷ 69 ∷ []) refl refl out-IsValid
      (unfold read packet_header_of in omega arith)
