-- ===== src/Web/Gate.antt =====
-- What every request passes (src/web.py: `auth_middleware`, `error_middleware`, `_status_for`).
use discord_sftp_drive.Base.{
  ℕ, Str, str_eq, Bool, true, false, not, ◌&&◌, ◌||◌, Option, none, some, [], ◌∷◌, if◌then◌else◌,
  or_else,
}
use discord_sftp_drive.Exec.{
  Error, not_found, not_a_directory, is_a_directory, already_exists, not_empty, unsupported,
  integrity,
}
use discord_sftp_drive.Vfs.Move.{starts_with}
use discord_sftp_drive.Sessions
use discord_sftp_drive.Sessions.{WebSession, SessionStore, drop}
use discord_sftp_drive.Accounts.Login.{is_vfs_error}

pub data Method : Type 0 where
  get head options post put patch delete : Method

-- `_MUTATING`
unfoldable pub is_mutating : Method → Bool
is_mutating post = true
is_mutating put = true
is_mutating patch = true
is_mutating delete = true
is_mutating method = false

-- What the handlers read of a request; a cookie or a header that is missing is `none`.
pub record Request : Type 0 where
  pub method : Method
  pub path : Str
  pub session_cookie : Option Str
  pub csrf_header : Option Str

-- "/api/login", "/api/session", "/api/health" and "/api/"
abbrev pub api_prefix : Str
api_prefix = b'/' ∷ b'a' ∷ b'p' ∷ b'i' ∷ b'/' ∷ []

abbrev pub login_path : Str
login_path = b'/' ∷ b'a' ∷ b'p' ∷ b'i' ∷ b'/' ∷ b'l' ∷ b'o' ∷ b'g' ∷ b'i' ∷ b'n' ∷ []

abbrev pub session_path : Str
session_path =
    b'/' ∷ b'a' ∷ b'p' ∷ b'i' ∷ b'/' ∷ b's' ∷ b'e' ∷ b's' ∷ b's' ∷ b'i' ∷ b'o' ∷ b'n' ∷ []

abbrev pub health_path : Str
health_path = b'/' ∷ b'a' ∷ b'p' ∷ b'i' ∷ b'/' ∷ b'h' ∷ b'e' ∷ b'a' ∷ b'l' ∷ b't' ∷ b'h' ∷ []

-- `request.path in _PUBLIC_PATHS`
unfoldable pub is_public : Str → Bool
is_public path = str_eq path login_path || (str_eq path session_path || str_eq path health_path)

-- What becomes of a request: it reaches its handler with `request["session"]`, or it is refused.
pub data Gate : Type 0 where
  reaches : Option WebSession → Gate
  refused : ℕ → Gate

unfoldable pub check_csrf : Request → WebSession → Gate
check_csrf r s =
    if is_mutating r.method && not (str_eq (or_else r.csrf_header []) s.csrf_token)
    then refused 403
    else reaches (some s)

-- `auth_middleware`; `now` is the monotonic clock as `store.get` reads it.
unfoldable pub auth_middleware : Request → ℕ → SessionStore → Gate × SessionStore
auth_middleware r now store =
    let (session, store') = Sessions.get (or_else r.session_cookie []) now store in
    (
      if is_public r.path || not (starts_with api_prefix r.path)
          then reaches session
          else elim session [ none ↦ refused 401 | some s ↦ check_csrf r s ],
      store',
    )

-- `_status_for`
unfoldable pub status_for : Error → ℕ
status_for not_found = 404
status_for already_exists = 409
status_for not_empty = 409
status_for is_a_directory = 400
status_for not_a_directory = 400
status_for unsupported = 501
status_for e = 400

-- `error_middleware`, on what a handler raises that is no response already
unfoldable pub error_status : Error → ℕ
error_status integrity = 500
error_status e = if is_vfs_error e then status_for e else 500

-- `logout`
unfoldable pub logout : Request → SessionStore → Bool × SessionStore
logout r store = drop (or_else r.session_cookie []) store
