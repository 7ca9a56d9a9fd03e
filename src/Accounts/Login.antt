-- ===== src/Accounts/Login.antt =====
-- The accounts put together: the start of the server (src/main.py: `start_server` up to the socket)
-- and a login over SFTP (src/sftp.py: `validate_password`).
pub mod Startup
pub mod Own
use discord_sftp_drive.Base.{Str, Bool, true, false, Option, none, some, if◌then◌else◌}
use discord_sftp_drive.Exec.{
  Exec, Error, ok, raise, pure, fail, ◌>>=◌, ◌>>◌, catch, modify, not_found, not_a_directory,
  is_a_directory, already_exists, not_empty, unsupported, failed_state, negative_size,
  predates_tags, keystore_error, key_unwrap_error, config_error,
}
use discord_sftp_drive.Seal.{Bytes}
use discord_sftp_drive.Crypto.Wrap.{Settings}
use discord_sftp_drive.Model.{Env, World}
use discord_sftp_drive.Vfs.Resolve.{ensure_root}
use discord_sftp_drive.Accounts.Books.{User, Rig, Books}
use discord_sftp_drive.Accounts.Keystore.{adopt_legacy_record, ensure_usable, open_master_key}
use discord_sftp_drive.Accounts.Users.{keystore_id, authenticate, sync_env_user}

-- `users.Session`
pub record Session : Type 0 where
  pub key : Bytes
  pub root_id : Str
  pub username : Str

-- What a login sees: the accounts, the file system's world, and the session of the connection.
pub record Server (C : Type 0) : Type 0 where
  pub books : Books
  pub world : World C
  pub session : Option Session

-- The subclasses of `VFSError`.
unfoldable pub is_vfs_error : Error → Bool
is_vfs_error not_found = true
is_vfs_error not_a_directory = true
is_vfs_error is_a_directory = true
is_vfs_error already_exists = true
is_vfs_error not_empty = true
is_vfs_error unsupported = true
is_vfs_error failed_state = true
is_vfs_error negative_size = true
is_vfs_error predates_tags = true
is_vfs_error e = false

module _ (rig : Rig) where
  -- `except KeystoreError as exc: raise ConfigError`
  unfoldable pub as_config_error : Error → Exec Books (Unit {0})
  as_config_error keystore_error b = (raise config_error, b)
  as_config_error e b = (raise e, b)

  -- `start_server`, from the account to the check of its key.
  unfoldable pub start_accounts : Str → Str → Option Str → Str → Settings → Bool → Exec Books User
  start_accounts username password old root_id settings upgrade = do
    user ← sync_env_user rig username password root_id
    adopt_legacy_record rig (keystore_id user)
    catch (ensure_usable rig (keystore_id user) password old settings upgrade) as_config_error
    pure user

  -- `except (KeyUnwrapError, KeystoreError): return False`
  unfoldable pub no_key : Error → Exec Books (Option Bytes)
  no_key key_unwrap_error b = (ok none, b)
  no_key keystore_error b = (ok none, b)
  no_key e b = (raise e, b)

  unfoldable pub try_key : User → Str → Exec Books (Option Bytes)
  try_key user password =
      catch (do key ← open_master_key rig (keystore_id user) password; pure (some key)) no_key

  -- The credentials and the key: what both servers ask for first.
  unfoldable pub check_credentials : Str → Str → Exec Books (Option (User × Bytes))
  check_credentials username password = do
    found ← authenticate rig username password
    elim found [
      | none ↦ pure none
      | some user ↦ do
        key ← try_key user password
        elim key [ none ↦ pure none | some k ↦ pure (some (user, k)) ]
    ]

module _ {C : Type 0} where
  abbrev pub on_books : {A : Type 0} → Exec Books A → Exec (Server C) A
  on_books m s = let (r, b) = m s.books in (r, record s { books = b })

  abbrev pub on_world : {A : Type 0} → Exec (World C) A → Exec (Server C) A
  on_world m s = let (r, w) = m s.world in (r, record s { world = w })

module _ {C : Type 0} (rig : Rig) (env_of : Bytes → Env C) where
  unfoldable pub not_served : Error → Exec (World C) Bool
  not_served e = if is_vfs_error e then pure false else fail e

  -- `DiscordVFS(key, root_id).ensure_root()`, and whether the tree can be served.
  unfoldable pub serve_root : Bytes → Str → Exec (World C) Bool
  serve_root key root_id = catch (ensure_root (env_of key) root_id >> pure true) not_served

  -- `validate_password`
  unfoldable pub validate_password : Str → Str → Exec (Server C) Bool
  validate_password username password = do
    found ← on_books (check_credentials rig username password)
    elim found [
      | none ↦ pure false
      | some (user, key) ↦ do
        served ← on_world (serve_root key user.root_id)
        if served
            then (do
              modify (λ s. record s {
                session =
                    some (record { key = key; root_id = user.root_id; username = user.username });
              })
              pure true)
            else pure false
    ]
