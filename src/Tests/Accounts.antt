-- ===== src/Tests/Accounts.antt =====
-- The theorems on accounts, applied.
use discord_sftp_drive.Base.{
  ℕ, ◌≡◌, refl, Str, str_eq, true, false, none, some, [], ◌∷◌, replicate, length, lookup,
  str_eq_refl,
}
use discord_sftp_drive.Exec.{ok}
use discord_sftp_drive.Seal.{Bytes}
use discord_sftp_drive.Crypto.Wrap.{Settings, pbkdf2_sha256, wrap_master_key, settings_to_record}
use discord_sftp_drive.Crypto.Stream.{transform}
use discord_sftp_drive.Accounts.Books.{User, Rig, Books, Verified, matches, mismatch}
use discord_sftp_drive.Accounts.Keystore.{
  adopt_legacy_record, load_record, ensure_usable, first_record, bootstrap, wrap, store_record,
}
use discord_sftp_drive.Accounts.Keystore.Usable.{Secured, ensure_usable-Secured}
use discord_sftp_drive.Accounts.Users.{
  keystore_id, find, find_user, create_env_user, insert_user, is_registered, sync_env_user,
  authenticate,
}
use discord_sftp_drive.Accounts.Users.Cost.{authenticate-cost}
use discord_sftp_drive.Accounts.Login.{Server, start_accounts, check_credentials, validate_password}
use discord_sftp_drive.Accounts.Login.Startup.{HasKey, start_accounts-check}
use discord_sftp_drive.Accounts.Login.Own.{Admitted, validate_password-Admitted}
use discord_sftp_drive.Tests.Setting.{Channel, env}
use discord_sftp_drive.Tests.Ciphers.{aes, kdf}

abbrev pub verify_text : Str → Str → Verified
verify_text stored password = elim (str_eq stored (0 ∷ password)) [
  | true ↦ matches
  | false ↦ mismatch
]

pub verify_own : (password : Str) (n : ℕ) → verify_text (0 ∷ password) password ≡ matches
unfolding str_eq
verify_own password n = rw (str_eq_refl (0 ∷ password))

abbrev a_master_key : Bytes
a_master_key = replicate 32 5

pub length-key : (n : ℕ) → length a_master_key ≡ 32
length-key n = refl

-- A hash is the password behind a byte.
abbrev pub rig : Rig
rig = record {
  aes = aes;
  kdf = kdf;
  store_up = λ n. true;
  clock = λ n. n;
  salt = λ n. n ∷ [];
  nonce = λ n. n ∷ [];
  master_key = λ n. a_master_key;
  uuid = λ n. n ∷ [];
  hash = λ password n. 0 ∷ password;
  dummy = 0 ∷ [];
  verify = verify_text;
  length-master_key = length-key;
  verify-hash = verify_own;
  hash-truthy = λ password n e. cc;
}

abbrev nothing_yet : Books
nothing_yet = record { keystore = []; users = []; calls = 0; draws = 0; verifications = 0 }

abbrev pub alice : Str
alice = 97 ∷ []

abbrev pub secret : Str
secret = 115 ∷ []

abbrev costs : Settings
costs = pbkdf2_sha256 9

ensure_usable-Secured_example :
    Secured rig alice secret none
      (98 ∷ [])
      nothing_yet
      (ensure_usable rig alice secret none costs false nothing_yet).0
      (ensure_usable rig alice secret none costs false nothing_yet).1
unfolding str_eq
ensure_usable-Secured_example =
    ensure_usable-Secured rig alice secret none (98 ∷ []) refl costs false nothing_yet

abbrev a_row : User
a_row = record {
  id = 0 ∷ [];
  username = alice;
  password_hash = some (0 ∷ secret);
  root_id = 114 ∷ [];
  created_at = 0;
  disabled = false;
}

first_start : (start_accounts rig alice secret none (114 ∷ []) costs false nothing_yet).0 ≡ ok a_row
unfolding start_accounts sync_env_user find find_user create_env_user insert_user is_registered
    adopt_legacy_record load_record keystore_id ensure_usable first_record bootstrap wrap
    wrap_master_key transform settings_to_record store_record lookup str_eq
first_start = refl

start_accounts-check_example :
    (let b' = (start_accounts rig alice secret none (114 ∷ []) costs false nothing_yet).1 in
      (key : Bytes) × HasKey rig a_row secret key b'
      × ((check_credentials rig alice secret b').0 ≡ ok (some (a_row, key))))
start_accounts-check_example =
    start_accounts-check rig alice secret none (114 ∷ []) costs nothing_yet false a_row tt
      (λ n. refl) refl first_start

abbrev pub a_server : Server Channel
a_server = record {
  books = (start_accounts rig alice secret none (114 ∷ []) costs false nothing_yet).1;
  world = record { channel = []; nodes = []; versions = []; held = []; calls = 0; nonces = 0 };
  session = none;
}

validate_password-Admitted_example :
    Admitted rig
      (λ key. env)
      alice
      secret
      a_server
      (validate_password rig (λ key. env) alice secret a_server).0
      (validate_password rig (λ key. env) alice secret a_server).1
validate_password-Admitted_example =
    validate_password-Admitted rig (λ key. env) alice secret a_server

abbrev one_row : Books
one_row = record nothing_yet { users = a_row ∷ [] }

authenticate-cost_example : (authenticate rig (98 ∷ []) secret one_row).1.verifications ≡ 1
authenticate-cost_example =
    authenticate-cost rig (98 ∷ []) secret one_row ((0 ∷ secret, refl, refl), tt) refl
