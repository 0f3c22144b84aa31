-- ===== src/Tls/Setup.antt =====
-- `attachsql_connect_set_ssl` of src/connect.cc. What OpenSSL answers to the files and the ciphers is
-- an argument.
use libattachsql.Prelude.{ℕ, Bool, true, false, not, Option, none, some, List, if◌then◌else◌}
use libattachsql.Net.Connect.{Connect}
use libattachsql.Connect.Errors.{
  Error, error_client_create, code_parameter, code_ssl, state_parameter, invalid_connection,
  of_errmsg,
}

-- Which calls answer 1.
pub record SetupAnswers : Type 0 where
  pub cipher_list_set : Bool
  pub locations_loaded : Bool
  pub certificate_used : Bool
  pub private_key_used : List ℕ → Bool
  pub private_key_checked : Bool

pub record SetupTexts : Type 0 where
  pub cipher_text : List ℕ
  pub authority_text : List ℕ
  pub certificate_text : List ℕ
  pub load_key_text : List ℕ
  pub check_key_text : List ℕ

-- What the function returns, and leaves: `has_ssl` says that an SSL object was made, and `verifies`
-- that the server's certificate is asked for.
pub record Setup : Type 0 where
  pub done : Bool
  pub con : Option Connect
  pub error : Option Error
  pub has_ssl : Bool
  pub verifies : Bool

abbrev pub setup_failed : Bool → List ℕ → Option Error → Connect → Setup
setup_failed made text error c = record {
  done = false;
  con = some (record c { errmsg = text });
  error = error_client_create made code_ssl state_parameter (of_errmsg text) error;
  has_ssl = false;
  verifies = false;
}

unfoldable pub setup_done : Bool → Option Error → Connect → Setup
setup_done verify error c = record {
  done = true;
  con = some c;
  error = error;
  has_ssl = true;
  verifies = verify;
}

-- The key is in the file of the certificate where none is given.
abbrev pub key_file : List ℕ → Option (List ℕ) → List ℕ
key_file cert none = cert
key_file cert (some key) = key

-- The certificate and its key.
unfoldable pub set_certificate :
    Bool
    → SetupAnswers
    → SetupTexts
    → Bool
    → Option Error
    → Option (List ℕ)
    → Option (List ℕ)
    → Connect
    → Setup
set_certificate made a t verify error key none c = setup_done verify error c
set_certificate made a t verify error key (some cert) c =
    if not a.certificate_used
    then setup_failed made t.certificate_text error c
    else if not (a.private_key_used (key_file cert key))
    then setup_failed made t.load_key_text error c
    else if not a.private_key_checked
    then setup_failed made t.check_key_text error c
    else setup_done verify error c

unfoldable pub cipher_fails : SetupAnswers → Option (List ℕ) → Bool
cipher_fails a none = false
cipher_fails a (some cipher) = not a.cipher_list_set

-- `attachsql_connect_set_ssl`; `made` says that `error` is not NULL and that `new` answers a struct.
unfoldable pub set_ssl :
    Bool
    → SetupAnswers
    → SetupTexts
    → Option (List ℕ)
    → Option (List ℕ)
    → Option (List ℕ)
    → Bool
    → Option Error
    → Option Connect
    → Setup
set_ssl made a t key cert cipher verify error none = record {
  done = false;
  con = none;
  error = error_client_create made code_parameter state_parameter invalid_connection error;
  has_ssl = false;
  verifies = false;
}
set_ssl made a t key cert cipher verify error (some c) =
    if cipher_fails a cipher
    then setup_failed made t.cipher_text error c
    else if not a.locations_loaded
    then setup_failed made t.authority_text error c
    else set_certificate made a t verify error key cert c
