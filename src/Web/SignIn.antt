-- ===== src/Web/SignIn.antt =====
-- A sign-in (src/web.py: `login`, `_positive_int`, `revoke_other_sessions`): the guard, the accounts,
-- the file system and the sessions, in the order in which the handler asks them.
use discord_sftp_drive.Base.{
  ℕ, zero, suc, Str, not, ◌||◌, Option, none, some, [], ◌==◌, if◌then◌else◌, is_empty, or_else, ℤ,
  pos, negsuc,
}
use discord_sftp_drive.Exec.{Result, ok, raise}
use discord_sftp_drive.Seal.{Bytes}
use discord_sftp_drive.Model.{Env, World}
use discord_sftp_drive.Guard.{
  Counters, Slots, busy, waits, enter, check, record_failure, record_success,
}
use discord_sftp_drive.Sessions.{WebSession, SessionStore, create, drop_others, count_for_tree}
use discord_sftp_drive.Accounts.Books.{User, Rig, Books}
use discord_sftp_drive.Accounts.Login.{check_credentials, serve_root}
use discord_sftp_drive.Web.Gate.{error_status}

-- What the process keeps. `slots` is the semaphore with its queue, as the handler finds it.
pub record App (C : Type 0) : Type 0 where
  pub books : Books
  pub world : World C
  pub sessions : SessionStore
  pub counters : Counters
  pub slots : Slots

-- What the body asks for as a window: what `int` raises TypeError or ValueError on, what it turns
-- into a number, or the `Infinity` of Python's JSON, on which it raises OverflowError.
pub data Window : Type 0 where
  unreadable : Window
  whole : ℤ → Window
  infinite : Window

-- The body, with a missing field as the empty text, and what the request says of its sender.
pub record Credentials : Type 0 where
  pub username : Str
  pub password : Str
  pub idle_seconds : Window
  pub absolute_seconds : Window
  pub address : Str
  pub device_id : Str

pub data Response : Type 0 where
  signed_in : WebSession → Response
  refused : ℕ → Response

-- `_positive_int`; `none` is the OverflowError, which it does not catch.
unfoldable pub positive_int : Window → Option (Option ℕ)
positive_int unreadable = some none
positive_int (whole (pos zero)) = some none
positive_int (whole (pos (suc n))) = some (some (suc n))
positive_int (whole (negsuc n)) = some none
positive_int infinite = none

-- The arguments `idle` and `absolute` of `create`
unfoldable pub windows : Credentials → Option (Option ℕ × Option ℕ)
windows c = elim (positive_int c.idle_seconds) [
  | none ↦ none
  | some idle ↦ elim (positive_int c.absolute_seconds) [
    | none ↦ none
    | some absolute ↦ some (idle, absolute)
  ]
]

module _ {C : Type 0} (rig : Rig) (env_of : Bytes → Env C) (id csrf : Str) where
  -- The end of `login`, on the account and its key. `id` and `csrf` are the tokens that are drawn.
  -- A window that is infinite is an unhandled error, behind `record_success`.
  unfoldable pub open_session : Credentials → ℕ → User → Bytes → App C → Response × App C
  open_session c now user key app =
      let welcome = record app { counters = record_success c.address c.device_id app.counters } in
      elim (windows c) [
        | none ↦ (refused 500, welcome)
        | some (idle, absolute) ↦
            let (s, sessions) =
              create id csrf user.username user.root_id key idle absolute now app.sessions in
            (signed_in s, record welcome { sessions = sessions })
      ]

  -- `login`, behind the check of the credentials
  unfoldable pub serve_account : Credentials → ℕ → User → Bytes → App C → Response × App C
  serve_account c now user key app =
      let (r, world) = serve_root rig env_of key user.root_id app.world in
      let app' = record app { world = world } in
      elim r [
        | raise e ↦ (refused (error_status e), app')
        | ok served ↦ if served then open_session c now user key app' else (refused 500, app')
      ]

  unfoldable pub after_check :
      Credentials → ℕ → Result (Option (User × Bytes)) → App C → Response × App C
  after_check c now (raise e) app = (refused (error_status e), app)
  after_check c now (ok none) app =
      (refused 401, record app { counters = record_failure c.address c.device_id now app.counters })
  after_check c now (ok (some (user, key))) app = serve_account c now user key app

  unfoldable pub verify_login : Credentials → ℕ → App C → Response × App C
  verify_login c now app =
      let (r, books) = check_credentials rig c.username c.password app.books in
      after_check c now r (record app { books = books })

  -- `login`: the guard is asked at the time `now`, and what comes of the check is noted `later`.
  unfoldable pub login : Credentials → ℕ → ℕ → App C → Response × App C
  login c now later app =
      let (wait, counters) = check c.address c.device_id now app.counters in
      let checked = record app { counters = counters } in
      if is_empty c.username || is_empty c.password
      then (refused 400, app)
      else if not (wait == 0)
      then (refused 429, checked)
      else elim (enter app.slots).0 [
        | busy ↦ (refused 503, checked)
        | waits ↦ verify_login c later checked
      ]

-- `revoke_other_sessions`: how many were signed out, and how many are left on the tree.
unfoldable pub revoke_other_sessions :
    WebSession → Option Str → ℕ → SessionStore → (ℕ × ℕ) × SessionStore
revoke_other_sessions s cookie now store =
    let (dropped, store') = drop_others s.root_id (or_else cookie []) store in
    ((dropped, count_for_tree s.root_id now store'), store')
