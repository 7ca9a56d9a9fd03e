-- ===== src/Accounts/Users.antt =====
-- The accounts as rows (src/users.py): who may log in.
pub mod Synced
pub mod Cost
use discord_sftp_drive.Base.{
  ◌+◌, Str, str_eq, Bool, true, false, Option, none, some, List, [], ◌∷◌, ◌++◌, ◌||◌, if◌then◌else◌,
  is_empty,
}
use discord_sftp_drive.Exec.{Exec, ok, raise, pure, ◌>>=◌, ◌>>◌, duplicate_key}
use discord_sftp_drive.Accounts.Books.{
  User, Verified, matches, mismatch, invalid_hash, Rig, Books, call, draw,
}

-- `keystore_id`
unfoldable pub keystore_id : User → Str
keystore_id user = b'u' ∷ b's' ∷ b'e' ∷ b'r' ∷ b':' ∷ user.id

unfoldable pub find_user : (User → Bool) → List User → Option User
find_user p [] = none
find_user p (u ∷ us) = if p u then some u else find_user p us

unfoldable pub named : Str → User → Bool
named username u = str_eq u.username username

unfoldable pub with_id : Str → User → Bool
with_id id u = str_eq u.id id

-- The two unique indexes of `users`.
unfoldable pub is_registered : User → List User → Bool
is_registered u [] = false
is_registered u (v ∷ vs) = (str_eq v.id u.id || str_eq v.username u.username) || is_registered u vs

unfoldable pub set_hash : Str → Str → List User → List User
set_hash id hash [] = []
set_hash id hash (u ∷ us) =
    if with_id id u then record u { password_hash = some hash } ∷ us else u ∷ set_hash id hash us

-- `True` of `verify`; what it raises is a login that does not succeed.
unfoldable pub succeeds : Verified → Bool
succeeds matches = true
succeeds mismatch = false
succeeds invalid_hash = false

module _ (rig : Rig) where
  -- A run of `PasswordHasher.verify`, counted.
  unfoldable pub run_verify : Str → Str → Exec Books Bool
  run_verify stored password b =
      (ok (succeeds (rig.verify stored password)), record b { verifications = b.verifications + 1 })

  -- `_verify`
  unfoldable pub verify_hash : Option Str → Str → Exec Books Bool
  verify_hash none password = pure false
  verify_hash (some stored) password =
      if is_empty stored then pure false else run_verify stored password

  -- `find`
  unfoldable pub find : Str → Exec Books (Option User)
  find username = call rig (λ b. (ok (find_user (named username) b.users), b))

  -- `authenticate`; `dummy` is what `_dummy` hashed for the current costs.
  unfoldable pub authenticate : Str → Str → Exec Books (Option User)
  authenticate username password = do
    found ← find username
    elim found [
      | none ↦ run_verify rig.dummy password >> pure none
      | some user ↦ if user.disabled then run_verify rig.dummy password >> pure none else (do
        right ← verify_hash user.password_hash password
        if right then pure (some user) else pure none)
    ]

  unfoldable pub insert_user : User → Exec Books (Unit {0})
  insert_user user = call rig (λ b.
      if is_registered user b.users
      then (raise duplicate_key, b)
      else (ok tt, record b { users = b.users ++ user ∷ [] }))

  -- `sync_env_user`, where the name has no row yet.
  unfoldable pub create_env_user : Str → Str → Str → Exec Books User
  create_env_user username password root_id = do
    n ← draw
    let user : User = record {
      id = rig.uuid n;
      username = username;
      password_hash = some (rig.hash password n);
      root_id = root_id;
      created_at = rig.clock n;
      disabled = false;
    }
    insert_user user
    pure user

  -- `sync_env_user`, where the stored hash is of another password.
  unfoldable pub update_hash : User → Str → Exec Books User
  update_hash user password = do
    n ← draw
    let updated = rig.hash password n
    call rig (λ b. (ok tt, record b { users = set_hash user.id updated b.users }))
    pure (record user { password_hash = some updated })

  -- `sync_env_user`
  unfoldable pub sync_env_user : Str → Str → Str → Exec Books User
  sync_env_user username password root_id = do
    found ← find username
    elim found [
      | none ↦ create_env_user username password root_id
      | some user ↦ do
        right ← verify_hash user.password_hash password
        if right then pure user else update_hash user password
    ]
