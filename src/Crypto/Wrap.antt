-- ===== src/Crypto/Wrap.antt =====
-- The master key under the password (src/crypto.py: `kdf_settings`, `_settings_to_record`,
-- `_settings_from_record`, `derive_kek`, `wrap_master_key`, `unwrap_master_key`).
use discord_sftp_drive.Base.{
  ℕ, ◌≡◌, refl, Str, str_eq, str_eq_refl, Bool, false, ◌&&◌, Option, none, some, ◌==◌, arith,
  length, or_else, if◌then◌else◌,
}
use discord_sftp_drive.Seal.{Bytes}
use discord_sftp_drive.Crypto.Stream.{Aes, transform, transform-twice}

abbrev pub key_size : ℕ
key_size = 32

-- The derivation functions by their stored names, and their costs.
pub data Settings : Type 0 where
  pbkdf2_sha256 : ℕ → Settings
  argon2id : ℕ → ℕ → ℕ → Settings

pub data KdfName : Type 0 where
  named_pbkdf2_sha256 named_argon2id : KdfName
  unknown : Str → KdfName

pub record Overrides : Type 0 where
  pub iterations : Option ℕ
  pub time_cost : Option ℕ
  pub memory_kib : Option ℕ
  pub parallelism : Option ℕ

-- A stored document. `none` is a field that is missing or that `int` or `fromhex` refuses.
pub record Wrapped : Type 0 where
  pub kdf : KdfName
  pub kdf_iterations : Option ℕ
  pub kdf_time_cost : Option ℕ
  pub kdf_memory_kib : Option ℕ
  pub kdf_parallelism : Option ℕ
  pub kdf_salt : Option Bytes
  pub nonce : Option Bytes
  pub ciphertext : Option Bytes
  pub hmac : Option Bytes

-- `kdf_settings`; `none` is `KeyUnwrapError`.
unfoldable pub kdf_settings : KdfName → Overrides → Option Settings
kdf_settings named_pbkdf2_sha256 o = some (pbkdf2_sha256 (or_else o.iterations 600000))
kdf_settings named_argon2id o =
    some (argon2id (or_else o.time_cost 3) (or_else o.memory_kib 65536) (or_else o.parallelism 1))
kdf_settings (unknown name) o = none

-- `_settings_to_record`, with the four fields that `wrap_master_key` adds.
unfoldable pub settings_to_record : Settings → Bytes → Bytes → Bytes → Bytes → Wrapped
settings_to_record (pbkdf2_sha256 iterations) salt nonce ciphertext tag = record {
  kdf = named_pbkdf2_sha256;
  kdf_iterations = some iterations;
  kdf_time_cost = none;
  kdf_memory_kib = none;
  kdf_parallelism = none;
  kdf_salt = some salt;
  nonce = some nonce;
  ciphertext = some ciphertext;
  hmac = some tag;
}
settings_to_record (argon2id time_cost memory_kib parallelism) salt nonce ciphertext tag = record {
  kdf = named_argon2id;
  kdf_iterations = none;
  kdf_time_cost = some time_cost;
  kdf_memory_kib = some memory_kib;
  kdf_parallelism = some parallelism;
  kdf_salt = some salt;
  nonce = some nonce;
  ciphertext = some ciphertext;
  hmac = some tag;
}

-- `_settings_from_record`: every parameter is required.
unfoldable pub settings_from_record : Wrapped → Option Settings
settings_from_record r = elim r.kdf [
  | named_pbkdf2_sha256 ↦ elim r.kdf_iterations [ none ↦ none | some n ↦ some (pbkdf2_sha256 n) ]
  | named_argon2id ↦ elim r.kdf_time_cost [
    | none ↦ none
    | some t ↦ elim r.kdf_memory_kib [
      | none ↦ none
      | some m ↦ elim r.kdf_parallelism [ none ↦ none | some p ↦ some (argon2id t m p) ]
    ]
  ]
  | unknown name ↦ none
]

unfoldable pub settings_eq : Settings → Settings → Bool
settings_eq (pbkdf2_sha256 m) (pbkdf2_sha256 n) = m == n
settings_eq (pbkdf2_sha256 m) (argon2id t k p) = false
settings_eq (argon2id t k p) (pbkdf2_sha256 n) = false
settings_eq (argon2id t k p) (argon2id u l q) = (t == u) && ((k == l) && (p == q))

-- `record_matches_settings`
unfoldable pub record_matches_settings : Wrapped → Settings → Bool
record_matches_settings r s = elim (settings_from_record r) [
  | none ↦ false
  | some t ↦ settings_eq t s
]

-- The libraries: the password hashes, HKDF for each of the two labels, HMAC.
pub record Kdf : Type 0 where
  pub derive : Settings → Str → Bytes → Bytes
  pub enc_subkey : Bytes → Bytes
  pub mac_subkey : Bytes → Bytes
  pub mac : Bytes → Bytes → Bytes → Bytes

module _ (aes : Aes) (kdf : Kdf) where
  -- `wrap_master_key`; `none` is the `ValueError` on a key of another size.
  unfoldable pub wrap_master_key : Str → Bytes → Settings → Bytes → Bytes → Option Wrapped
  wrap_master_key password master_key settings salt nonce =
      let kek = kdf.derive settings password salt in
      let ciphertext = transform aes (kdf.enc_subkey kek) nonce master_key 0 in
      if length master_key == key_size
      then some (
          settings_to_record settings salt nonce ciphertext
            (kdf.mac (kdf.mac_subkey kek) nonce ciphertext))
      else none

  -- The end of `unwrap_master_key`, on a well-formed record.
  unfoldable pub open_with : Bytes → Bytes → Bytes → Bytes → Option Bytes
  open_with kek nonce ciphertext expected =
      if str_eq expected (kdf.mac (kdf.mac_subkey kek) nonce ciphertext)
      then some (transform aes (kdf.enc_subkey kek) nonce ciphertext 0)
      else none

  -- `unwrap_master_key`; `none` is `KeyUnwrapError`.
  unfoldable pub unwrap_master_key : Str → Wrapped → Option Bytes
  unwrap_master_key password r = elim (settings_from_record r) [
    | none ↦ none
    | some settings ↦ elim r.kdf_salt [
      | none ↦ none
      | some salt ↦ elim r.nonce [
        | none ↦ none
        | some nonce ↦ elim r.ciphertext [
          | none ↦ none
          | some ciphertext ↦ elim r.hmac [
            | none ↦ none
            | some expected ↦
                open_with (kdf.derive settings password salt) nonce ciphertext expected
          ]
        ]
      ]
    ]
  ]

  unwrap_record :
      (password : Str) (settings : Settings) (salt nonce ciphertext tag : Bytes)
      → unwrap_master_key password (settings_to_record settings salt nonce ciphertext tag)
        ≡ open_with (kdf.derive settings password salt) nonce ciphertext tag
  unfolding unwrap_master_key settings_to_record settings_from_record
  unwrap_record password (pbkdf2_sha256 n) salt nonce ciphertext tag = refl
  unwrap_record password (argon2id t m p) salt nonce ciphertext tag = refl

  wrap_runs :
      (password : Str) (key : Bytes) (settings : Settings) (salt nonce : Bytes) (r : Wrapped)
      → wrap_master_key password key settings salt nonce ≡ some r
      → (let kek = kdf.derive settings password salt in
          let ciphertext = transform aes (kdf.enc_subkey kek) nonce key 0 in
          r
          ≡ settings_to_record settings salt nonce ciphertext
              (kdf.mac (kdf.mac_subkey kek) nonce ciphertext))
  unfolding wrap_master_key
  wrap_runs password key settings salt nonce r h = ground arith

  -- A record that wrapping gives is opened by the same password, to the key that was wrapped,
  -- whichever derivation function and costs it was made with.
  pub wrap-unwrap :
      (password : Str) (key : Bytes) (settings : Settings) (salt nonce : Bytes) (r : Wrapped)
      → wrap_master_key password key settings salt nonce ≡ some r
      → unwrap_master_key password r ≡ some key
  unfolding open_with
  wrap-unwrap password key settings salt nonce r h =
      let kek = kdf.derive settings password salt in
      rw
        (
          wrap_runs password key settings salt nonce r h,
          unwrap_record,
          str_eq_refl,
          transform-twice aes (kdf.enc_subkey kek) nonce key 0,
        )
        refl
