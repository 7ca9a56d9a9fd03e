-- ===== src/Config/Check.antt =====
-- What `check` reports, in its order, and what the settings functions give (src/config.py). A problem
-- is a constructor in place of its text.
use discord_sftp_drive.Base.{
  Str, str_eq, Bool, not, ◌&&◌, ◌||◌, concat, Option, none, some, List, [], ◌∷◌, ℤ, ltb,
  if◌then◌else◌, length, is_empty, or_else,
}
use discord_sftp_drive.Seal.{Bytes}
use discord_sftp_drive.Crypto.Wrap.{KdfName, named_argon2id, named_pbkdf2_sha256, unknown}
use discord_sftp_drive.Config.Values.{
  Derivation, by_pbkdf2, by_argon2id, kdf_name, Number, Secret, Problem, floor, Environment,
  is_unset, strip_newline, mongo, sqlite, argon2id_name, pbkdf2_name, is_below, is_no_port, is_less,
  eight_times, min_password_bytes, sftp_port, web_port, pbkdf2_iterations, argon2_time_cost,
  argon2_memory_kib, argon2_parallelism, web_session_idle_seconds, web_session_absolute_seconds,
  web_login_concurrency, web_login_queue, trash_retention_days, trash_sweep_seconds,
  trash_sweep_batch, incoming_max_age_hours, discord_max_concurrency, discord_bot_token, mongo_uri,
  sftp_password, sftp_password_old, number, secret, secret_file, sftp_user, db_backend,
  discord_user_id, discord_channel_id, kdf, both_set, unreadable, not_utf8, not_set, short_password,
  unsupported_backend, no_target, unsupported_kdf, not_an_integer, out_of_range, below_floor,
  lanes_without_memory, idle_above_absolute,
}

-- `crypto.kdf_settings`, on the parsed costs; another name raises `KeyUnwrapError`.
unfoldable pub derivation : KdfName → ℤ → ℤ → ℤ → ℤ → Option Derivation
derivation named_pbkdf2_sha256 iterations time_cost memory lanes = some (by_pbkdf2 iterations)
derivation named_argon2id iterations time_cost memory lanes =
    some (by_argon2id time_cost memory lanes)
derivation (unknown name) iterations time_cost memory lanes = none

module _ (env : Environment) where
  -- `_read_secret_file` and its errors
  unfoldable pub read_secret : Secret → Option Bytes → Option Str × List Problem
  read_secret name none = (none, unreadable name ∷ [])
  read_secret name (some raw) =
      let text = strip_newline raw in
      if env.is_utf8 text then (some text, []) else (none, not_utf8 name ∷ [])

  -- `_resolve`: the value, and the problem if there is one.
  unfoldable pub resolve : Secret → Option Str × List Problem
  resolve name =
      let direct = env.get (secret name) in
      elim (env.get (secret_file name)) [
        | none ↦ (direct, [])
        | some path ↦
            if is_empty path
            then (direct, [])
            else if is_unset direct
            then read_secret name (env.read_file path)
            else (none, both_set name ∷ [])
      ]

  -- A required secret, reported once.
  unfoldable pub require_secret : Secret → List Problem
  require_secret name =
      let (v, problems) = resolve name in
      if is_empty problems && is_unset v then not_set (secret name) ∷ [] else []

  unfoldable pub check_user : List Problem
  check_user = if is_unset (env.get sftp_user) then not_set sftp_user ∷ [] else []

  unfoldable pub check_password : List Problem
  check_password = elim (resolve sftp_password).0 [
    | none ↦ []
    | some password ↦
        if not (is_empty password) && ltb (length password) min_password_bytes
        then short_password ∷ []
        else []
  ]

  -- `if backend and backend not in _SUPPORTED_BACKENDS`
  unfoldable pub check_backend : List Problem
  check_backend = elim (env.get db_backend) [
    | none ↦ []
    | some s ↦
        if is_empty s || (str_eq s mongo || str_eq s sqlite) then [] else unsupported_backend ∷ []
  ]

  unfoldable pub check_target : List Problem
  check_target =
      if is_unset (env.get discord_user_id) && is_unset (env.get discord_channel_id)
      then no_target ∷ []
      else []

  -- A variable that is set: an integer that passes its test.
  unfoldable pub check_number : (ℤ → Bool) → Number → Problem → List Problem
  check_number bad n problem = elim (env.get (number n)) [
    | none ↦ []
    | some raw ↦ if is_empty raw then [] else elim (env.int raw) [
      | none ↦ not_an_integer n ∷ []
      | some value ↦ if bad value then problem ∷ [] else []
    ]
  ]

  unfoldable pub check_port : Number → List Problem
  check_port n = check_number is_no_port n (out_of_range n)

  unfoldable pub check_floor : Number → List Problem
  check_floor n = check_number (is_below (floor n)) n (below_floor n)

  unfoldable pub check_kdf : List Problem
  check_kdf = elim (env.get kdf) [
    | none ↦ []
    | some s ↦
        if is_empty s || (str_eq s argon2id_name || str_eq s pbkdf2_name)
        then []
        else unsupported_kdf ∷ []
  ]

  -- A constant of the module: `os.getenv(NAME, default)`.
  unfoldable pub constant : Number → Str
  constant n = or_else (env.get (number n)) (env.default_text n)

  -- `int(env.get(NAME) or NAME)`
  unfoldable pub effective : Number → Option ℤ
  effective n =
      let given = or_else (env.get (number n)) [] in
      env.int (if is_empty given then constant n else given)

  -- A test on two settings that parse.
  unfoldable pub check_pair : Option ℤ → Option ℤ → (ℤ → ℤ → Bool) → Problem → List Problem
  check_pair none b bad problem = []
  check_pair (some m) none bad problem = []
  check_pair (some m) (some n) bad problem = if bad m n then problem ∷ [] else []

  unfoldable pub check_lanes : List Problem
  check_lanes =
      check_pair (effective argon2_parallelism) (effective argon2_memory_kib)
        (λ lanes memory. is_less memory (eight_times lanes)) lanes_without_memory

  unfoldable pub check_windows : List Problem
  check_windows =
      check_pair (effective web_session_idle_seconds) (effective web_session_absolute_seconds)
        (λ idle absolute. is_less absolute idle) idle_above_absolute

  -- `check`, in the order in which it reports
  unfoldable pub check_parts : List (List Problem)
  check_parts =
      (resolve discord_bot_token).1
      ∷ (resolve mongo_uri).1
      ∷ (resolve sftp_password).1
      ∷ (resolve sftp_password_old).1
      ∷ require_secret discord_bot_token
      ∷ check_user
      ∷ require_secret sftp_password
      ∷ check_password
      ∷ check_backend
      ∷ check_target
      ∷ check_port sftp_port
      ∷ check_kdf
      ∷ check_floor pbkdf2_iterations
      ∷ check_floor argon2_time_cost
      ∷ check_floor argon2_memory_kib
      ∷ check_floor argon2_parallelism
      ∷ check_lanes
      ∷ check_floor web_session_idle_seconds
      ∷ check_floor web_session_absolute_seconds
      ∷ check_floor web_login_concurrency
      ∷ check_floor web_login_queue
      ∷ check_floor trash_retention_days
      ∷ check_floor trash_sweep_seconds
      ∷ check_floor trash_sweep_batch
      ∷ check_floor incoming_max_age_hours
      ∷ check_port web_port
      ∷ check_windows
      ∷ check_floor discord_max_concurrency
      ∷ []

  unfoldable pub check : List Problem
  check = concat check_parts

  -- `int(NAME)` of a settings function; `none` is its `ValueError`.
  unfoldable pub setting : Number → Option ℤ
  setting n = env.int (constant n)

  -- `web_session_limits`: idle and absolute
  unfoldable pub web_session_limits : Option (ℤ × ℤ)
  web_session_limits = elim (setting web_session_idle_seconds) [
    | none ↦ none
    | some idle ↦ elim (setting web_session_absolute_seconds) [
      | none ↦ none
      | some absolute ↦ some (idle, absolute)
    ]
  ]

  -- `web_login_limits`: concurrency and queue
  unfoldable pub web_login_limits : Option (ℤ × ℤ)
  web_login_limits = elim (setting web_login_concurrency) [
    | none ↦ none
    | some concurrency ↦ elim (setting web_login_queue) [
      | none ↦ none
      | some queue ↦ some (concurrency, queue)
    ]
  ]

  -- `password_hash_settings`: time cost, memory cost and parallelism
  unfoldable pub password_hash_settings : Option (ℤ × ℤ × ℤ)
  password_hash_settings = elim (setting argon2_time_cost) [
    | none ↦ none
    | some time_cost ↦ elim (setting argon2_memory_kib) [
      | none ↦ none
      | some memory ↦ elim (setting argon2_parallelism) [
        | none ↦ none
        | some lanes ↦ some (time_cost, memory, lanes)
      ]
    ]
  ]

  -- `KDF`: `os.getenv("KDF", crypto.DEFAULT_KDF)`
  unfoldable pub chosen_kdf : Str
  chosen_kdf = or_else (env.get kdf) argon2id_name

  -- `kdf_settings`; `none` is a `ValueError` or a `KeyUnwrapError`.
  unfoldable pub kdf_settings : Option Derivation
  kdf_settings = elim (setting pbkdf2_iterations) [
    | none ↦ none
    | some iterations ↦ elim password_hash_settings [
      | none ↦ none
      | some (time_cost, memory, lanes) ↦
          derivation (kdf_name chosen_kdf) iterations time_cost memory lanes
    ]
  ]
