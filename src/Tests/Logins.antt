-- ===== src/Tests/Logins.antt =====
-- The handshake at concrete inputs.
use libattachsql.Prelude.{
  ℕ, zero, suc, ◌%◌, ◌≤◌, ◌≡◌, refl, arith, true, some, List, [], ◌∷◌, ◌++◌, length, replicate,
}
use libattachsql.Net.Connect.{Connect}
use libattachsql.Net.ProcessLaws.{IsHandshake}
use libattachsql.Connect.Scramble.{xor_all, scramble_password}
use libattachsql.Connect.ScrambleLaws.{
  AllBytes, no_byte, one_byte, IsDigest, scramble_password-checked,
}
use libattachsql.Connect.Handshake.{Login, handshake_response, handshake_of}
use libattachsql.Connect.HandshakeLaws.{handshake_of-IsHandshake, handshake_response_within}
use libattachsql.Tests.Handlers.{platform, waiting}
use mathlib.Core.Option.{some-injective}
use mathlib.Core.Path.{subst}

-- Twenty times the length of the message.
abbrev digest : List ℕ → List ℕ
digest x = replicate 20 (length x % 256)

replicate-AllBytes : (n b : ℕ) → b % 256 ≡ b → AllBytes (replicate n b)
replicate-AllBytes zero b h = no_byte
replicate-AllBytes (suc n) b h = one_byte (omega arith) (replicate-AllBytes n b h)

digest-IsDigest : IsDigest digest
digest-IsDigest = record {
  digest_length = λ x. refl;
  digest_bytes = λ x. replicate-AllBytes 20 (length x % 256) (omega arith);
}

scramble_password-checked_example :
    (token : List ℕ) × (scramble_password digest (115 ∷ []) (7 ∷ 8 ∷ []) ≡ some token)
    × (digest (xor_all token (digest ((7 ∷ 8 ∷ []) ++ digest (digest (115 ∷ [])))))
        ≡ digest (digest (115 ∷ [])))
scramble_password-checked_example =
    scramble_password-checked digest (115 ∷ []) 6 (8 ∷ []) digest-IsDigest

abbrev login : Login
login = record {
  sha1 = digest;
  texts = record { incompatible_protocol = 1 ∷ []; old_protocol = 2 ∷ [] };
  written = true;
}

handshake_of-IsHandshake_example : IsHandshake (handshake_of platform login)
handshake_of-IsHandshake_example = handshake_of-IsHandshake platform login

abbrev logging_in : Connect
logging_in = record waiting {
  user = 114 ∷ 111 ∷ [];
  pass = 115 ∷ [];
  con_schema = some (116 ∷ []);
  scramble_buffer = 7 ∷ 8 ∷ [];
}

schema_length : (s : List ℕ) → logging_in.con_schema ≡ some s → length s ≤ 64
schema_length s e = subst (λ (t : List ℕ). length t ≤ 64) (some-injective _ _ e) (omega arith)

handshake_response_within_example :
    (handshake_response platform login logging_in).write_buffer 1024 ≡ 0
handshake_response_within_example =
    handshake_response_within platform login logging_in 1024 digest-IsDigest (omega arith)
      schema_length (omega arith)
