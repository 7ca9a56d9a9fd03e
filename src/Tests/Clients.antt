-- ===== src/Tests/Clients.antt =====
-- The theorems on the client of Discord and on the settings, applied.
use discord_sftp_drive.Base.{
  ℕ, zero, suc, List, ◌==◌, ◌||◌, str_eq, false, is_empty, if◌then◌else◌, ◌≡◌, ◌≢◌, ◌≤◌, refl, Str,
  true, Option, none, some, [], ◌∷◌, arith, replicate, ℤ, pos,
}
use discord_sftp_drive.Rate.{Headers}
use discord_sftp_drive.Client.Permissions.{
  Bits, Role, Channel, Member, Replies, administrator, missing_permissions, missing_from, problems,
  role_of, check_guild,
}
use discord_sftp_drive.Client.Granted.{is_granted, is_allowed, check_guild-reports}
use discord_sftp_drive.Client.Request.{
  max_attempts, Reply, response, dropped, Jitter, Wire, request,
}
use discord_sftp_drive.Client.Attempts.{Concluded, is_transient, meaning, request-Concluded}
use discord_sftp_drive.Client.World.{Body, Host, Client}
use discord_sftp_drive.Client.Urls.{get_attachment_url, upload_chunk}
use discord_sftp_drive.Client.Cached.{
  Served, Uploaded, get_attachment_url-Served, upload_chunk-Uploaded,
}
use discord_sftp_drive.Config.Values.{
  Number, kdf, sftp_port, Variable, number, secret, discord_user_id, sftp_user, Environment,
  default_value, floor, is_less, eight_times, web_port,
}
use discord_sftp_drive.Config.Check.{
  check, check_parts, resolve, require_secret, check_user, check_password, check_backend,
  check_target, check_port, check_number, check_kdf, check_floor, check_lanes, check_pair,
  check_windows, effective, constant, setting,
}
use discord_sftp_drive.Config.Checked.{IsPort, HasWindows, HasCosts, HasDerivation, check-passes}
use discord_sftp_drive.Config.Empty.{with_empty_port, check-empty_port}

-- The largest delay that may be drawn.
abbrev jitter : Jitter
jitter = record {
  uniform = λ n lo hi. hi;
  uniform_above = λ n lo hi h. h;
  uniform_below = λ n lo hi h. omega arith;
}

abbrev no_headers : Headers
no_headers = record { bucket = none; remaining = none; reset_after = none }

abbrev a_body : Body
a_body = record { id = 7 ∷ []; attachments = record { url = 8 ∷ []; size = 2 } ∷ [] }

-- The transport fails first, then Discord itself; then a message comes back, every time.
abbrev net : ℕ → Reply Body
net n = elim n [
  | zero ↦ dropped none
  | suc m ↦ elim m [
    | zero ↦ response 503 no_headers false none a_body
    | suc k ↦ response 200 no_headers false none a_body
  ]
]

abbrev a_wire : Wire
a_wire = record {
  attempts = 0;
  slept = [];
  waited = [];
  limiter = record { buckets = []; routes = []; global_until = 0 };
}

request-Concluded_example :
    Concluded is_transient meaning net max_attempts a_wire
      (request jitter (λ n. n) net (1 ∷ []) a_wire).0
      (request jitter (λ n. n) net (1 ∷ []) a_wire).1
request-Concluded_example = request-Concluded jitter (λ n. n) net (1 ∷ []) a_wire

abbrev host : Host
host = record {
  user_id = none;
  channel_id = 49 ∷ [];
  net = net;
  cdn = λ n. dropped none;
  jitter = jitter;
  clock = λ n. n;
  is_digit = λ s. false;
  query_ex = λ s. none;
  int16 = λ s. none;
}

abbrev a_client : Client
a_client = record { wire = a_wire; cdn_wire = a_wire; dm_channel = none; urls = [] }

get_attachment_url-Served_example :
    Served host 0
      (7 ∷ [])
      a_client
      (get_attachment_url host 0 (7 ∷ []) false a_client).0
      (get_attachment_url host 0 (7 ∷ []) false a_client).1
get_attachment_url-Served_example =
    get_attachment_url-Served host 0 (7 ∷ []) false a_client (omega arith)

upload_chunk-Uploaded_example :
    Uploaded host
      (5 ∷ 6 ∷ [])
      (upload_chunk host (5 ∷ 6 ∷ []) a_client).0
      (upload_chunk host (5 ∷ 6 ∷ []) a_client).1
upload_chunk-Uploaded_example = upload_chunk-Uploaded host (5 ∷ 6 ∷ []) a_client

abbrev variables : Variable → Option Str
variables (secret s) = some (replicate 12 65)
variables sftp_user = some (97 ∷ [])
variables discord_user_id = some (49 ∷ [])
variables v = none

abbrev one_letter : Str → Option ℤ
one_letter [] = none
one_letter (c ∷ cs) = some (pos c)

-- A toy `int`: a text stands for its first letter.
abbrev environment : Environment
environment = record {
  get = variables;
  read_file = λ path. none;
  is_utf8 = λ raw. true;
  int = one_letter;
  default_text = λ n. default_value n ∷ [];
  int-empty = refl;
  int-default = λ n. refl;
}

environment_passes : check environment ≡ []
unfolding check check_parts resolve require_secret check_user check_password check_backend
    check_target check_port check_number check_kdf check_floor check_lanes check_pair check_windows
    effective constant is_less eight_times default_value
environment_passes = refl

none_empty : (n : Number) → variables (number n) ≢ some []
none_empty n e = cc

has_name : variables kdf ≢ some []
has_name e = cc

check-passes_example :
    ((v : ℕ) × (setting environment sftp_port ≡ some (pos v)) × (floor sftp_port ≤ v))
    × IsPort environment sftp_port
    × IsPort environment web_port
    × HasWindows environment
    × HasCosts environment
    × HasDerivation environment
check-passes_example = check-passes environment sftp_port none_empty has_name environment_passes

check-empty_port_example :
    (check (with_empty_port environment) ≡ [])
    × (setting (with_empty_port environment) sftp_port ≡ none)
check-empty_port_example = check-empty_port environment environment_passes

-- A guild in which everyone may all but attach files, which the channel allows to one of the roles.
abbrev bit_is : List ℕ → Bits
bit_is [] i = false
bit_is (b ∷ bs) i = b == i || bit_is bs i

abbrev everyone : Role
everyone = record { id = 103 ∷ []; permissions = bit_is (10 ∷ 11 ∷ 16 ∷ []) }

abbrev bots : Role
bots = record { id = 98 ∷ []; permissions = bit_is [] }

abbrev drive_channel : Channel
drive_channel = record {
  guild_id = some (103 ∷ []);
  overwrites = record { id = 98 ∷ []; allow = bit_is (15 ∷ []); deny = bit_is [] } ∷ [];
}

abbrev the_bot : Member
the_bot = record { roles = (98 ∷ []) ∷ []; user_id = none }

abbrev answers : Replies
answers = record {
  me = some 200;
  dm = none;
  channel = some (200, drive_channel);
  member = some (200, the_bot);
  roles = some (200, everyone ∷ bots ∷ []);
}

everyone_run : role_of (103 ∷ []) (everyone ∷ bots ∷ []) ≡ some everyone
unfolding role_of str_eq
everyone_run = refl

check_guild-reports_example : check_guild (103 ∷ []) drive_channel answers ≡ (
    let missing =
      missing_from (is_allowed (103 ∷ []) drive_channel everyone (everyone ∷ bots ∷ []) the_bot) in
    if (is_granted everyone (everyone ∷ bots ∷ []) the_bot administrator
        || is_allowed
            (103 ∷ [])
            drive_channel
            everyone
            (everyone ∷ bots ∷ [])
            the_bot
            administrator)
      || is_empty missing
    then problems []
    else problems (missing_permissions missing ∷ []))
check_guild-reports_example =
    check_guild-reports (103 ∷ []) drive_channel answers the_bot (everyone ∷ bots ∷ []) everyone
      refl refl everyone_run
