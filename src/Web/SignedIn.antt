-- ===== src/Web/SignedIn.antt =====
-- What a sign-in gives, and what it leaves alone (src/web.py: `login`).
use discord_sftp_drive.Base.{
  ℕ, ◌≡◌, refl, ◌⊎◌, inl, inr, Str, str_eq_refl, true, false, ◌||◌, none, some, ◌==◌, ==_iff,
  lookup, lookup-insert, is_empty, Bool-cases, Option-cases,
}
use discord_sftp_drive.Exec.{Result-cases}
use discord_sftp_drive.Seal.{Bytes}
use discord_sftp_drive.Model.{Env}
use discord_sftp_drive.Guard.{busy, waits, Entered, enter, check}
use discord_sftp_drive.Sessions.{create}
use discord_sftp_drive.Accounts.Books.{User, Rig}
use discord_sftp_drive.Accounts.Login.{check_credentials, serve_root}
use discord_sftp_drive.Accounts.Login.Own.{Owns, check_credentials-Owns}
use discord_sftp_drive.Web.SignIn.{
  App, Credentials, Response, signed_in, refused, open_session, serve_account, after_check,
  verify_login, login, windows,
}

Entered-cases : (e : Entered) → (e ≡ busy) ⊎ (e ≡ waits)
Entered-cases busy = inl refl
Entered-cases waits = inr refl

module _ {C : Type 0} (rig : Rig) (env_of : Bytes → Env C) (id csrf : Str) where
  -- The guard lets the sender try.
  abbrev pub IsAllowed : Credentials → ℕ → App C → Type 0
  IsAllowed c now app = (check c.address c.device_id now app.counters).0 ≡ 0

  -- What a sign-in leaves.
  abbrev pub SignedIn : Credentials → ℕ → App C → Response → App C → Type 0
  SignedIn c now app (signed_in s) app' =
      (user : User) × (key : Bytes) × IsAllowed c now app
      × Owns rig c.username c.password user key app.books
      × (s.key ≡ key)
      × (s.root_id ≡ user.root_id)
      × (s.username ≡ user.username)
      × (lookup id app'.sessions.sessions ≡ some s)
  SignedIn c now app (refused code) app' =
      (app'.sessions ≡ app.sessions) × (IsAllowed c now app ⊎ (app'.books ≡ app.books))

  module _ (c : Credentials) (now later : ℕ) (app : App C) (allowed : IsAllowed c now app) where
    open_session-SignedIn :
        (user : User) (key : Bytes) (app1 : App C)
        → app1.sessions ≡ app.sessions
        → Owns rig c.username c.password user key app.books
        → (let (r, app') = open_session rig env_of id csrf c later user key app1 in
            SignedIn c now app r app')
    unfolding open_session create
    open_session-SignedIn user key app1 same owns = elim (Option-cases (windows c)) [
      | inl infinite ↦ rw (open_session, infinite) (same, inl allowed)
      | inr (w, asked) ↦
          rw (open_session, asked)
            (user, key, allowed, owns, refl, refl, refl, rw (lookup-insert, str_eq_refl) refl)
    ]

    serve_account-SignedIn :
        (user : User) (key : Bytes) (app1 : App C)
        → app1.sessions ≡ app.sessions
        → Owns rig c.username c.password user key app.books
        → (let (r, app') = serve_account rig env_of id csrf c later user key app1 in
            SignedIn c now app r app')
    unfolding serve_account
    serve_account-SignedIn user key app1 same owns =
        let app' : App C = record app1 {
          world = (serve_root rig env_of key user.root_id app1.world).1;
        } in
        elim (Result-cases (serve_root rig env_of key user.root_id app1.world).0) [
          | inr (e, bad) ↦ rw (serve_account, bad) (same, inl allowed)
          | inl (false, unserved) ↦ rw (serve_account, unserved) (same, inl allowed)
          | inl (true, served) ↦
              rw (serve_account, served) (open_session-SignedIn user key app' same owns)
        ]

    verify_login-SignedIn :
        (app1 : App C)
        → app1.sessions ≡ app.sessions
        → app1.books ≡ app.books
        → (let (r, app') = verify_login rig env_of id csrf c later app1 in
            SignedIn c now app r app')
    unfolding verify_login after_check
    verify_login-SignedIn app1 same books =
        let app2 : App C = record app1 {
          books = (check_credentials rig c.username c.password app1.books).1;
        } in
        elim (Result-cases (check_credentials rig c.username c.password app1.books).0) [
          | inr (e, bad) ↦ rw (verify_login, bad) (same, inl allowed)
          | inl (none, wrong) ↦ rw (verify_login, wrong) (same, inl allowed)
          | inl (some (user, key), known) ↦
              rw (verify_login, known)
                (serve_account-SignedIn user key app2 same (
                  check_credentials-Owns rig c.username c.password app.books user key
                    (rw (← books) known)))
        ]

  -- A sign-in that succeeds was allowed by the guard, and gives a session, stored under the token
  -- that was drawn, with the key, the tree and the name of the enabled account that the user name
  -- finds, whose hash the password matches and whose own record it opens to that key. Any other
  -- answer leaves the sessions as they were; and while the guard refuses the sender, the accounts
  -- are not asked at all.
  pub login-SignedIn :
      (c : Credentials) (now later : ℕ) (app : App C)
      → (let (r, app') = login rig env_of id csrf c now later app in SignedIn c now app r app')
  unfolding login
  login-SignedIn c now later app = elim (Bool-cases (is_empty c.username || is_empty c.password)) [
    | inl blank ↦ rw (login, blank) (refl, inr refl)
    | inr given ↦ elim (Bool-cases ((check c.address c.device_id now app.counters).0 == 0)) [
      | inr locked ↦ rw (login, given, locked) (refl, inr refl)
      | inl free ↦
          let allowed = (==_iff (check c.address c.device_id now app.counters).0 0).0 free in
          let checked : App C = record app {
            counters = (check c.address c.device_id now app.counters).1;
          } in
          elim (Entered-cases (enter app.slots).0) [
            | inl full ↦ rw (login, given, free, full) (refl, inr refl)
            | inr open' ↦
                rw (login, given, free, open')
                  (verify_login-SignedIn c now later app allowed checked refl refl)
          ]
    ]
  ]
