-- ===== src/Accounts/Login/Startup.antt =====
-- From the start of the server to a login (src/main.py, src/users.py, src/keystore.py): the account of
-- the environment can log in.
use mathlib.Core.Path.{subst}
use discord_sftp_drive.Base.{
  ℕ, ◌∷◌, length, str_eq, str_eq_iff, ◌+◌, ◌≡◌, ap, Str, Bool, true, false, Option, some, arith,
  Bool-cases, inl, inr, lookup,
}
use discord_sftp_drive.Exec.{Result-cases, ok, Error, keystore_error}
use discord_sftp_drive.Seal.{Bytes}
use discord_sftp_drive.Crypto.Wrap.{Settings, Wrapped}
use discord_sftp_drive.Accounts.Books.{User, Rig, Books}
use discord_sftp_drive.Accounts.Keystore.{
  adopt_legacy_record, load_record, open_master_key, unwrap, ensure_usable,
}
use discord_sftp_drive.Accounts.Keystore.Safety.{Opens}
use discord_sftp_drive.Accounts.Keystore.Usable.{Secured, ensure_usable-Secured}
use discord_sftp_drive.Accounts.Users.{
  keystore_id, run_verify, verify_hash, find, authenticate, sync_env_user,
}
use discord_sftp_drive.Accounts.Users.Synced.{HasDistinctIds, Ready, sync_env_user-Ready}
use discord_sftp_drive.Accounts.Login.{as_config_error, start_accounts, try_key, check_credentials}

str_eq-longer : (s : Str) → str_eq s (0 ∷ s) ≡ false
str_eq-longer s = elim (Bool-cases (str_eq s (0 ∷ s))) [
  | inr apart ↦ apart
  | inl same ↦ absurd (omega (arith, ap length ((str_eq_iff s (0 ∷ s)).0 same)))
]

module _ (rig : Rig) where
  adopt_rows : (id : Str) (b : Books) → (adopt_legacy_record rig id b).1.users ≡ b.users
  unfolding adopt_legacy_record load_record
  adopt_rows id b = ground arith

  -- The account's record opens, by the password, to the key.
  abbrev pub HasKey : User → Str → Bytes → Books → Type 0
  HasKey user password key b =
      (r : Wrapped) × (lookup (keystore_id user) b.keystore ≡ some r) × Opens rig password r key

  ensure-ok :
      (id password : Str) (old : Option Str) (s : Settings) (upgrade : Bool) (b : Books)
      → (ensure_usable rig id password old s upgrade b).0 ≡ ok tt
      → (r : Wrapped) × (key : Bytes) × (lookup id
            (ensure_usable rig id password old s upgrade b).1.keystore
          ≡ some r)
        × Opens rig password r key
        × ((ensure_usable rig id password old s upgrade b).1.users ≡ b.users)
  ensure-ok id password old s upgrade b h =
      let (r, key, found, opens, was, others, rows) =
        subst
          (λ x.
            Secured rig id password old (0 ∷ id) b x
              (ensure_usable rig id password old s upgrade b).1)
          h (ensure_usable-Secured rig id password old (0 ∷ id) (str_eq-longer id) s upgrade b) in
      (r, key, found, opens, rows)

  authenticate-Ready :
      (username password : Str) (b : Books) (user : User)
      → rig.store_up b.calls ≡ true
      → user.disabled ≡ false
      → Ready rig username password user b
      → authenticate rig username password b
        ≡ (ok (some user), record b { calls = b.calls + 1; verifications = b.verifications + 1 })
  unfolding authenticate find verify_hash run_verify
  authenticate-Ready username password b user up enabled (found, (stored, set, full, right)) =
      rw (authenticate, find, up, found, enabled, verify_hash, set, full, run_verify, right)

  check-Ready :
      (username password : Str) (b : Books) (user : User) (key : Bytes)
      → ((n : ℕ) → rig.store_up n ≡ true)
      → user.disabled ≡ false
      → Ready rig username password user b
      → HasKey user password key b
      → (check_credentials rig username password b).0 ≡ ok (some (user, key))
  unfolding check_credentials try_key open_master_key load_record unwrap
  check-Ready username password b user key up enabled ready (r, found, opens) = rw (
    check_credentials,
    authenticate-Ready username password b user (up b.calls) enabled ready,
    try_key,
    open_master_key,
    load_record,
    up (b.calls + 1),
    found,
    unwrap,
    opens,
  )

  as_config_error_raises :
      (e : Error) (b : Books) (u : Unit {0}) → (as_config_error rig e b).0 ≡ ok u → ⊥
  unfolding as_config_error
  as_config_error_raises keystore_error b u h = cc
  as_config_error_raises e b u h = ground arith

  module _ (username password : Str) (old : Option Str) (root_id : Str) (s : Settings)
      (b : Books) where
    start_accounts-ok :
        (upgrade : Bool) (user : User)
        → HasDistinctIds b.users
        → (start_accounts rig username password old root_id s upgrade b).0 ≡ ok user
        → (let b' = (start_accounts rig username password old root_id s upgrade b).1 in
            Ready rig username password user b' × ((key : Bytes) × HasKey user password key b'))
    unfolding start_accounts
    start_accounts-ok upgrade user distinct h =
        elim (Result-cases (sync_env_user rig username password root_id b).0) [
          | inr (e, bad) ↦ absurd (ground arith)
          | inl (row, synced) ↦
              let b1 = (sync_env_user rig username password root_id b).1 in
              let id = keystore_id row in
              let b2 = (adopt_legacy_record rig id b1).1 in
              let (found, right) =
                sync_env_user-Ready rig username password root_id b row distinct synced in
              elim (Result-cases (adopt_legacy_record rig id b1).0) [
                | inr (e, bad) ↦ absurd (ground arith)
                | inl (moved, adopted) ↦
                    elim (Result-cases (ensure_usable rig id password old s upgrade b2).0) [
                      | inr (e, bad) ↦
                          let b3 = (ensure_usable rig id password old s upgrade b2).1 in
                          absurd (elim (Result-cases (as_config_error rig e b3).0) [
                            | inl (u, good) ↦ as_config_error_raises e b3 u good
                            | inr (e', worse) ↦ ground arith
                          ])
                      | inl (u, usable) ↦
                          let (r, key, there, opens, rows) =
                            ensure-ok id password old s upgrade b2 usable in
                          let e : start_accounts rig username password old root_id s upgrade b
                              ≡ (ok row, (ensure_usable rig id password old s upgrade b2).1) =
                            rw (start_accounts, synced, adopted, usable) in
                          let same : row ≡ user = ground arith in
                          rw (e, ← same)
                            ((rw (rows, adopt_rows) found, right), (key, (r, there, opens)))
                    ]
              ]
        ]

    -- After a start of the server that got through, on accounts with distinct ids and while the
    -- store answers, the configured name and password pass the check of a login, unless the account
    -- is disabled: they give the account that the start gave, with the key that its record opens to.
    pub start_accounts-check :
        (upgrade : Bool) (user : User)
        → HasDistinctIds b.users
        → ((n : ℕ) → rig.store_up n ≡ true)
        → user.disabled ≡ false
        → (start_accounts rig username password old root_id s upgrade b).0 ≡ ok user
        → (let b' = (start_accounts rig username password old root_id s upgrade b).1 in
            (key : Bytes) × HasKey user password key b'
            × ((check_credentials rig username password b').0 ≡ ok (some (user, key))))
    start_accounts-check upgrade user distinct up enabled h =
        let (ready, (key, holds)) = start_accounts-ok upgrade user distinct h in
        let b' = (start_accounts rig username password old root_id s upgrade b).1 in
        (key, holds, check-Ready username password b' user key up enabled ready holds)
