-- ===== src/Config/Empty.antt =====
-- An environment that passes the check and fails a settings function (src/config.py: `check`).
use discord_sftp_drive.Base.{◌≡◌, refl, Str, Option, none, some, List, [], ◌∷◌, concat, All}
use discord_sftp_drive.Config.Checked.{concat-nil}
use discord_sftp_drive.Config.Values.{sftp_port, Variable, number, Environment}
use discord_sftp_drive.Config.Check.{
  check_number, check_port, check_floor, constant, effective, check_pair, check_lanes,
  check_windows, check_parts, check, setting, check_user, check_password, check_backend,
  check_target, check_kdf, require_secret, resolve, read_secret,
}

nil-concat {ℓ} : {A : Type ℓ} (xss : List (List A)) → All (λ xs. xs ≡ []) xss → concat xss ≡ []
nil-concat [] all = refl
nil-concat (xs ∷ xss) all = rw all.0 (nil-concat xss all.1)

-- The environment with `SFTP_PORT=` in it.
unfoldable pub empty_port : (Variable → Option Str) → Variable → Option Str
empty_port get (number sftp_port) = some []
empty_port get v = get v

abbrev pub with_empty_port : Environment → Environment
with_empty_port env = record env { get = empty_port env.get }

-- In any environment in which `check` finds no problem, `SFTP_PORT` may be set to the empty text:
-- `check` still finds no problem, and `sftp_port` raises.
pub check-empty_port :
    (env : Environment)
    → check env ≡ []
    → (check (with_empty_port env) ≡ []) × (setting (with_empty_port env) sftp_port ≡ none)
unfolding check check_parts check_port check_number check_floor check_user check_password
    check_backend check_target check_kdf check_lanes check_windows effective require_secret resolve
    read_secret setting constant empty_port check_pair
check-empty_port env h =
    let all = concat-nil (check_parts env) h in
    let (p0, r0) = all in
    let (p1, r1) = r0 in
    let (p2, r2) = r1 in
    let (p3, r3) = r2 in
    let (p4, r4) = r3 in
    let (p5, r5) = r4 in
    let (p6, r6) = r5 in
    let (p7, r7) = r6 in
    let (p8, r8) = r7 in
    let (p9, r9) = r8 in
    (
      nil-concat (check_parts (with_empty_port env))
          (p0, (p1, (p2, (p3, (p4, (p5, (p6, (p7, (p8, (p9, (refl, r9.1))))))))))),
      env.int-empty,
    )
