-- ===== src/Accounts/Keystore.antt =====
-- The wrapped master keys, one for an account (src/keystore.py).
pub mod Safety
pub mod Usable
use discord_sftp_drive.Base.{
  ℕ, ◌*◌, Str, str_eq, Bool, true, false, not, Option, none, some, List, [], ◌∷◌, ltb,
  if◌then◌else◌, lookup, insert, is_some, is_empty, ◌&&◌,
}
use discord_sftp_drive.Exec.{
  Exec, Error, ok, raise, pure, fail, ◌>>=◌, ◌>>◌, catch, refuse, keystore_error, key_unwrap_error,
  value_error, attribute_error,
}
use discord_sftp_drive.Seal.{Bytes}
use discord_sftp_drive.Crypto.Wrap.{
  Settings, pbkdf2_sha256, argon2id, KdfName, named_pbkdf2_sha256, named_argon2id, unknown, Wrapped,
  wrap_master_key, unwrap_master_key, record_matches_settings,
}
use discord_sftp_drive.Accounts.Books.{Rig, Books, call, draw}

-- `LEGACY_ID`
abbrev pub legacy_id : Str
legacy_id = b'm' ∷ b'a' ∷ b's' ∷ b't' ∷ b'e' ∷ b'r' ∷ []

-- What `_warn_if_weak` says.
pub data Weakness : Type 0 where
  few_iterations little_memory short_time : Weakness

-- `_warn_if_weak`
unfoldable pub weaknesses : Settings → List Weakness
weaknesses (pbkdf2_sha256 iterations) = if ltb iterations 100000 then few_iterations ∷ [] else []
weaknesses (argon2id time_cost memory_kib parallelism) =
    let late = if ltb time_cost 2 then short_time ∷ [] else [] in
    if ltb memory_kib (19 * 1024) then little_memory ∷ late else late

-- `$set: {"id": …}` on the first document with that id.
unfoldable pub rename_key : Str → Str → List (Str × Wrapped) → List (Str × Wrapped)
rename_key old new [] = []
rename_key old new ((i, r) ∷ m) =
    if str_eq i old then (new, r) ∷ m else (i, r) ∷ rename_key old new m

module _ (rig : Rig) where
  -- `load_record`
  unfoldable pub load_record : Str → Exec Books (Option Wrapped)
  load_record id = call rig (λ b. (ok (lookup id b.keystore), b))

  -- `_store`
  unfoldable pub store_record : Str → Wrapped → Exec Books (Unit {0})
  store_record id r = call rig (λ b. (ok tt, record b { keystore = insert id r b.keystore }))

  -- `adopt_legacy_record`: whether the record was moved.
  unfoldable pub adopt_legacy_record : Str → Exec Books Bool
  adopt_legacy_record id = if str_eq id legacy_id then pure false else (do
    own ← load_record id
    if is_some own then pure false else (do
      legacy ← load_record legacy_id
      if not (is_some legacy) then pure false else (do
        call rig (λ b. (ok tt, record b { keystore = rename_key legacy_id id b.keystore }))
        pure true)))

  -- `wrap_master_key`, which draws a salt and a nonce, and raises `ValueError`.
  unfoldable pub wrap : Str → Bytes → Settings → Exec Books Wrapped
  wrap password key settings = do
    n ← draw
    elim (wrap_master_key rig.aes rig.kdf password key settings (rig.salt n) (rig.nonce n)) [
      | none ↦ fail value_error
      | some r ↦ pure r
    ]

  -- `unwrap_master_key`, which raises `KeyUnwrapError`.
  unfoldable pub unwrap : Str → Wrapped → Exec Books Bytes
  unwrap password r = elim (unwrap_master_key rig.aes rig.kdf password r) [
    | none ↦ fail key_unwrap_error
    | some key ↦ pure key
  ]

  -- `bootstrap`
  unfoldable pub bootstrap : Str → Str → Settings → Exec Books (Unit {0})
  bootstrap id password settings = do
    n ← draw
    r ← wrap password (rig.master_key n) settings
    store_record id r

  -- `open_master_key`
  unfoldable pub open_master_key : Str → Str → Exec Books Bytes
  open_master_key id password = do
    found ← load_record id
    elim found [ none ↦ fail keystore_error | some r ↦ unwrap password r ]

  -- `_replace_wrapping`: a new record is stored only once it is known to open to the same key.
  unfoldable pub replace_wrapping : Str → Bytes → Str → Settings → Exec Books (Unit {0})
  replace_wrapping id key password settings = do
    r ← wrap password key settings
    elim (unwrap_master_key rig.aes rig.kdf password r) [
      | none ↦ fail keystore_error
      | some reopened ↦ if str_eq reopened key then store_record id r else fail keystore_error
    ]

  -- `rewrap`; `unwrap_master_key` of `None` is an `AttributeError`.
  unfoldable pub rewrap : Str → Str → Str → Settings → Exec Books (Unit {0})
  rewrap id old_password new_password settings = do
    found ← load_record id
    elim found [
      | none ↦ fail attribute_error
      | some r ↦ do key ← unwrap old_password r; replace_wrapping id key new_password settings
    ]

  -- `upgrade_kdf`: whether anything was written.
  unfoldable pub upgrade_kdf : Str → Str → Settings → Exec Books Bool
  upgrade_kdf id password settings = do
    found ← load_record id
    elim found [
      | none ↦ pure false
      | some r ↦
          if record_matches_settings r settings
          then pure false
          else (do key ← unwrap password r; replace_wrapping id key password settings; pure true)
    ]

  -- `except KeyUnwrapError as exc: raise KeystoreError`
  unfoldable pub as_keystore_error : Error → Exec Books (Unit {0})
  as_keystore_error key_unwrap_error b = (raise keystore_error, b)
  as_keystore_error e b = (raise e, b)

  -- `not old_password` where it is unset or empty
  unfoldable pub given : Option Str → Option Str
  given none = none
  given (some password) = if is_empty password then none else some password

  -- `ensure_usable`, where there is no record for the account yet.
  unfoldable pub first_record : Str → Str → Settings → Exec Books (Unit {0})
  first_record id password settings = do
    others ← call rig (λ b. (ok b.keystore, b))
    if is_empty others then bootstrap id password settings else fail keystore_error

  -- `ensure_usable`, where the password opens the record.
  unfoldable pub keep_or_upgrade : Str → Str → Settings → Bool → Exec Books (Unit {0})
  keep_or_upgrade id password settings upgrade =
      if upgrade then upgrade_kdf id password settings >> pure tt else pure tt

  -- `ensure_usable`, where the password does not open the record.
  unfoldable pub change_password : Str → Str → Option Str → Settings → Exec Books (Unit {0})
  change_password id password old settings = elim (given old) [
    | none ↦ fail keystore_error
    | some old_password ↦ catch (rewrap id old_password password settings) as_keystore_error
  ]

  -- `ensure_usable`, where there is a record.
  unfoldable pub check_record :
      Str → Str → Option Str → Settings → Bool → Wrapped → Exec Books (Unit {0})
  check_record id password old settings upgrade r =
      elim (unwrap_master_key rig.aes rig.kdf password r) [
        | some key ↦ keep_or_upgrade id password settings upgrade
        | none ↦ change_password id password old settings
      ]

  -- `ensure_usable`
  unfoldable pub ensure_usable : Str → Str → Option Str → Settings → Bool → Exec Books (Unit {0})
  ensure_usable id password old settings upgrade = do
    found ← load_record id
    elim found [
      | none ↦ first_record id password settings
      | some r ↦ check_record id password old settings upgrade r
    ]
