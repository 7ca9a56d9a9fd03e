-- ===== src/Accounts/Books.antt =====
-- The collections `keystore` and `users`, and what their operations draw on. Either collection has a
-- unique index on `id`, so a document is found by its id or not at all.
use discord_sftp_drive.Base.{ℕ, ◌+◌, ◌≡◌, Str, Bool, Option, List, [], length, if◌then◌else◌}
use discord_sftp_drive.Exec.{Exec, ok, raise, database_error}
use discord_sftp_drive.Seal.{Bytes}
use discord_sftp_drive.Crypto.Stream.{Aes}
use discord_sftp_drive.Crypto.Wrap.{Kdf, Wrapped, key_size}

-- A document of `users`. `none` is a field that is missing.
pub record User : Type 0 where
  pub id : Str
  pub username : Str
  pub password_hash : Option Str
  pub root_id : Str
  pub created_at : ℕ
  pub disabled : Bool

-- What `PasswordHasher.verify` does: it answers, or raises one of the two errors that are caught.
pub data Verified : Type 0 where
  matches mismatch invalid_hash : Verified

-- What the process runs with: whether the n-th call of the store succeeds, what the n-th draw of
-- `os.urandom` and of `uuid4` gives, the clock, and the libraries. `hash` and `verify` are
-- `PasswordHasher` under `password_hash_settings()`.
pub record Rig : Type 0 where
  pub aes : Aes
  pub kdf : Kdf
  pub store_up : ℕ → Bool
  pub clock : ℕ → ℕ
  pub salt : ℕ → Bytes
  pub nonce : ℕ → Bytes
  pub master_key : ℕ → Bytes
  pub uuid : ℕ → Str
  pub hash : Str → ℕ → Str
  -- `_dummy(settings)`
  pub dummy : Str
  pub verify : Str → Str → Verified
  -- `os.urandom(32)` gives 32 bytes
  pub length-master_key : (n : ℕ) → length (master_key n) ≡ key_size
  -- a fresh hash is of its password, and is a text
  pub verify-hash : (password : Str) (n : ℕ) → verify (hash password n) password ≡ matches
  pub hash-truthy : (password : Str) (n : ℕ) → (hash password n ≡ []) → ⊥

pub record Books : Type 0 where
  pub keystore : List (Str × Wrapped)
  pub users : List User
  pub calls : ℕ
  pub draws : ℕ
  -- how many times `PasswordHasher.verify` ran
  pub verifications : ℕ

module _ (rig : Rig) where
  -- One call of the store: it fails as a whole, or runs.
  abbrev pub call : {A : Type 0} → Exec Books A → Exec Books A
  call m b =
      let b' = record b { calls = b.calls + 1 } in
      if rig.store_up b.calls then m b' else (raise database_error, b')

-- A fresh draw of random bytes.
abbrev pub draw : Exec Books ℕ
draw b = (ok b.draws, record b { draws = b.draws + 1 })
