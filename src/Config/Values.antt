-- ===== src/Config/Values.antt =====
-- The variables of the environment, what `check` may report, and the tests on single values
-- (src/config.py).
use discord_sftp_drive.Base.{
  ℕ, ◌+◌, ◌*◌, ◌≡◌, Str, str_eq, Bool, true, false, ◌&&◌, ◌||◌, ◌==◌, Option, none, some, [], ◌∷◌,
  ℤ, pos, negsuc, ltb, if◌then◌else◌, is_empty,
}
use discord_sftp_drive.Seal.{Bytes}
use discord_sftp_drive.Crypto.Wrap.{KdfName, named_argon2id, named_pbkdf2_sha256, unknown}

pub data Number : Type 0 where
  sftp_port web_port pbkdf2_iterations argon2_time_cost argon2_memory_kib : Number
  argon2_parallelism web_session_idle_seconds web_session_absolute_seconds : Number
  web_login_concurrency web_login_queue trash_retention_days trash_sweep_seconds : Number
  trash_sweep_batch incoming_max_age_hours discord_max_concurrency : Number

-- `_FILE_BACKED`
pub data Secret : Type 0 where
  discord_bot_token mongo_uri sftp_password sftp_password_old : Secret

-- A variable of the environment; `secret_file` is the name with `_FILE` behind it.
pub data Variable : Type 0 where
  number : Number → Variable
  secret secret_file : Secret → Variable
  sftp_user db_backend discord_user_id discord_channel_id kdf : Variable

pub data Problem : Type 0 where
  both_set unreadable not_utf8 : Secret → Problem
  not_set : Variable → Problem
  short_password unsupported_backend no_target unsupported_kdf : Problem
  not_an_integer out_of_range below_floor : Number → Problem
  lanes_without_memory idle_above_absolute : Problem

-- What config.py sets as defaults, those of crypto.py among them.
unfoldable pub default_value : Number → ℕ
default_value sftp_port = 2222
default_value web_port = 8080
default_value pbkdf2_iterations = 600000
default_value argon2_time_cost = 3
default_value argon2_memory_kib = 65536
default_value argon2_parallelism = 1
default_value web_session_idle_seconds = 600
default_value web_session_absolute_seconds = 7200
default_value web_login_concurrency = 2
default_value web_login_queue = 16
default_value trash_retention_days = 30
default_value trash_sweep_seconds = 900
default_value trash_sweep_batch = 25
default_value incoming_max_age_hours = 24
default_value discord_max_concurrency = 4

-- `_KDF_COST_VARIABLES` and `_WEB_INTEGER_FLOORS`, and the floor of the last check.
unfoldable pub floor : Number → ℕ
floor argon2_memory_kib = 8
floor trash_retention_days = 0
floor n = 1

-- The environment, the files that a `_FILE` names, and `int`; a default is written in decimal.
pub record Environment : Type 0 where
  pub get : Variable → Option Str
  -- `open(path, "rb").read()`; `none` is an `OSError`
  pub read_file : Str → Option Bytes
  -- whether `raw.decode("utf-8")` succeeds, to the text with those bytes
  pub is_utf8 : Bytes → Bool
  pub int : Str → Option ℤ
  pub default_text : Number → Str
  pub int-empty : int [] ≡ none
  pub int-default : (n : Number) → int (default_text n) ≡ some (pos (default_value n))

-- `not value`
abbrev pub is_unset : Option Str → Bool
is_unset none = true
is_unset (some s) = is_empty s

-- `_read_secret_file`, behind the reading: at most one newline is taken off.
unfoldable pub strip_newline : Bytes → Bytes
strip_newline [] = []
strip_newline (c ∷ []) = if c == 10 then [] else c ∷ []
strip_newline (c ∷ d ∷ []) = if c == 13 && d == 10 then [] else c ∷ (if d == 10 then [] else d ∷ [])
strip_newline (c ∷ d ∷ e ∷ rest) = c ∷ strip_newline (d ∷ e ∷ rest)

-- "mongo", "sqlite"; "argon2id", "pbkdf2-sha256"
abbrev pub mongo : Str
mongo = b'm' ∷ b'o' ∷ b'n' ∷ b'g' ∷ b'o' ∷ []

abbrev pub sqlite : Str
sqlite = b's' ∷ b'q' ∷ b'l' ∷ b'i' ∷ b't' ∷ b'e' ∷ []

abbrev pub argon2id_name : Str
argon2id_name = b'a' ∷ b'r' ∷ b'g' ∷ b'o' ∷ b'n' ∷ b'2' ∷ b'i' ∷ b'd' ∷ []

abbrev pub pbkdf2_name : Str
pbkdf2_name =
    b'p' ∷ b'b' ∷ b'k' ∷ b'd' ∷ b'f' ∷ b'2' ∷ b'-' ∷ b's' ∷ b'h' ∷ b'a' ∷ b'2' ∷ b'5' ∷ b'6' ∷ []

unfoldable pub kdf_name : Str → KdfName
kdf_name s =
    if str_eq s argon2id_name
    then named_argon2id
    else if str_eq s pbkdf2_name
    then named_pbkdf2_sha256
    else unknown s

-- `value < floor`
unfoldable pub is_below : ℕ → ℤ → Bool
is_below low (negsuc n) = true
is_below low (pos n) = ltb n low

-- `not 1 <= port <= 65535`
unfoldable pub is_no_port : ℤ → Bool
is_no_port (negsuc n) = true
is_no_port (pos n) = ltb n 1 || ltb 65535 n

-- `a < b`
unfoldable pub is_less : ℤ → ℤ → Bool
is_less (pos m) (pos n) = ltb m n
is_less (pos m) (negsuc n) = false
is_less (negsuc m) (pos n) = true
is_less (negsuc m) (negsuc n) = ltb n m

-- `8 * lanes`
unfoldable pub eight_times : ℤ → ℤ
eight_times (pos n) = pos (8 * n)
eight_times (negsuc n) = negsuc (8 * n + 7)

abbrev pub min_password_bytes : ℕ
min_password_bytes = 12

-- What `kdf_settings` gives: the function, with those of the costs that are its own.
pub data Derivation : Type 0 where
  by_pbkdf2 : ℤ → Derivation
  by_argon2id : ℤ → ℤ → ℤ → Derivation
