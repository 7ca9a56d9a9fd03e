-- ===== src/Accounts/Login/Own.antt =====
-- What a login gives (src/sftp.py: `validate_password`, src/users.py: `authenticate`): the key and the
-- tree of the account that the password is of, and nothing otherwise.
use discord_sftp_drive.Base.{
  ◌+◌, ◌≡◌, refl, ap, sym, ◌∙◌, Str, Bool, true, false, none, some, arith, Bool-cases, Option-cases,
  inl, inr, lookup,
}
use discord_sftp_drive.Exec.{Result, Result-cases, ok, raise}
use discord_sftp_drive.Seal.{Bytes}
use discord_sftp_drive.Crypto.Wrap.{Wrapped}
use discord_sftp_drive.Model.{Env}
use discord_sftp_drive.Accounts.Books.{User, Rig, Books}
use discord_sftp_drive.Accounts.Keystore.{load_record, open_master_key, unwrap}
use discord_sftp_drive.Accounts.Keystore.Safety.{Opens}
use discord_sftp_drive.Accounts.Users.{
  keystore_id, find_user, named, run_verify, verify_hash, find, authenticate,
}
use discord_sftp_drive.Accounts.Users.Synced.{Matches, verify_hash-Matches, verify_hash_keys}
use discord_sftp_drive.Accounts.Login.{
  Server, no_key, try_key, check_credentials, serve_root, validate_password,
}

module _ (rig : Rig) where
  -- The name's row: enabled, with a hash that the password matches.
  abbrev pub Knows : Str → Str → User → Books → Type 0
  Knows username password user b =
      (find_user (named username) b.users ≡ some user)
      × (user.disabled ≡ false)
      × Matches rig password user

  module _ (username password : Str) (b : Books) where
    authenticate-Knows :
        (user : User)
        → (authenticate rig username password b).0 ≡ ok (some user)
        → Knows username password user b
          × ((authenticate rig username password b).1.keystore ≡ b.keystore)
    unfolding authenticate find run_verify
    authenticate-Knows user h = elim (Option-cases (find_user (named username) b.users)) [
      | inl absent ↦ absurd (ground arith)
      | inr (row, found) ↦ elim (Bool-cases row.disabled) [
        | inl off ↦ absurd (ground arith)
        | inr enabled ↦
            let b1 : Books = record b { calls = b.calls + 1 } in
            elim (Result-cases (verify_hash rig row.password_hash password b1).0) [
              | inr (e, bad) ↦ absurd (ground arith)
              | inl (false, wrong) ↦ absurd (ground arith)
              | inl (true, right) ↦
                  let same : row ≡ user = ground arith in
                  let kept : (authenticate rig username password b).1.keystore ≡ b.keystore =
                    ground (arith, verify_hash_keys rig row.password_hash password b1) in
                  (
                    (
                      found ∙ ap some same,
                      ap (λ u. u.disabled) (sym same) ∙ enabled,
                      rw (← same) (verify_hash-Matches rig row password b1 right),
                    ),
                    kept,
                  )
            ]
      ]
    ]

  try_key-Opens :
      (user : User) (password : Str) (b : Books) (key : Bytes)
      → (try_key rig user password b).0 ≡ ok (some key)
      → (r : Wrapped) × (lookup (keystore_id user) b.keystore ≡ some r) × Opens rig password r key
  unfolding try_key open_master_key load_record unwrap no_key
  try_key-Opens user password b key h = elim (Option-cases (lookup (keystore_id user) b.keystore)) [
    | inl absent ↦ absurd (ground arith)
    | inr (r, found) ↦ (r, found, ground arith)
  ]

  -- The name's row knows the password, which opens the row's own record to the key.
  abbrev pub Owns : Str → Str → User → Bytes → Books → Type 0
  Owns username password user key b =
      Knows username password user b
      × ((r : Wrapped) × (lookup (keystore_id user) b.keystore ≡ some r) × Opens rig password r key)

  pub check_credentials-Owns :
      (username password : Str) (b : Books) (user : User) (key : Bytes)
      → (check_credentials rig username password b).0 ≡ ok (some (user, key))
      → Owns username password user key b
  unfolding check_credentials
  check_credentials-Owns username password b user key h =
      let b1 = (authenticate rig username password b).1 in
      elim (Result-cases (authenticate rig username password b).0) [
        | inr (e, bad) ↦ absurd (ground arith)
        | inl (none, refused) ↦ absurd (ground arith)
        | inl (some row, known) ↦ elim (Result-cases (try_key rig row password b1).0) [
          | inr (e, bad) ↦ absurd (ground arith)
          | inl (none, shut) ↦ absurd (ground arith)
          | inl (some k, opened) ↦
              let (knows, keys) = authenticate-Knows username password b row known in
              let (r, found, opens) = try_key-Opens row password b1 k opened in
              let got : check_credentials rig username password b
                  ≡ (ok (some (row, k)), (try_key rig row password b1).1) =
                rw (check_credentials, known, opened) in
              let same_row : row ≡ user = ground arith in
              let same_key : k ≡ key = ground arith in
              rw (← same_row, ← same_key) (knows, (r, rw (← keys) found, opens))
        ]
      ]

module _ {C : Type 0} (rig : Rig) (env_of : Bytes → Env C) where
  -- What a login leaves as the session of the connection.
  abbrev pub Admitted : Str → Str → Server C → Result Bool → Server C → Type 0
  Admitted username password s (ok true) s' =
      (user : User) × (key : Bytes) × Owns rig username password user key s.books
      × (s'.session ≡ some (record { key = key; root_id = user.root_id; username = user.username }))
  Admitted username password s (ok false) s' = s'.session ≡ s.session
  Admitted username password s (raise e) s' = s'.session ≡ s.session

  -- A login that succeeds gives the connection the tree and the name of the row that the user name
  -- finds, which is enabled and whose hash the password matches, with the key to which the password
  -- opens that row's own record. A login that does not succeed leaves the session as it was.
  pub validate_password-Admitted :
      (username password : Str) (s : Server C)
      → Admitted username password s
          (validate_password rig env_of username password s).0
          (validate_password rig env_of username password s).1
  unfolding validate_password
  validate_password-Admitted username password s =
      elim (Result-cases (check_credentials rig username password s.books).0) [
        | inr (e, bad) ↦ rw (validate_password, bad) refl
        | inl (none, refused) ↦ rw (validate_password, refused) refl
        | inl (some (user, key), known) ↦
            elim (Result-cases (serve_root rig env_of key user.root_id s.world).0) [
              | inr (e, bad) ↦ rw (validate_password, known, bad) refl
              | inl (false, unserved) ↦ rw (validate_password, known, unserved) refl
              | inl (true, served) ↦
                  rw (validate_password, known, served)
                    (
                      user,
                      key,
                      check_credentials-Owns rig username password s.books user key known,
                      refl,
                    )
            ]
      ]
