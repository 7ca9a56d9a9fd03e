-- ===== src/Tests/Servers.antt =====
-- The theorems on the locks of directories and on the web server, applied.
use discord_sftp_drive.Base.{
  zero, ◌≡◌, refl, Str, str_eq, true, false, some, [], ◌∷◌, arith, lookup, insert, pos,
}
use discord_sftp_drive.Sessions
use discord_sftp_drive.Sessions.{SessionStore, is_expired, expired_at}
use discord_sftp_drive.Vfs.Move.{starts_with}
use discord_sftp_drive.Locks.Table.{
  idle, set_at, holds_dir, insert_dir, wanted_dirs, entry_for, count_in, set_holder, move, enter,
  queue, acquire, System, init, Reach, start, later,
}
use discord_sftp_drive.Locks.Exclusion.{dir-exclusive}
use discord_sftp_drive.Web.Gate.{
  Request, post, reaches, is_public, is_mutating, check_csrf, auth_middleware,
}
use discord_sftp_drive.Web.Guarded.{IsAuthorized, auth_middleware-IsAuthorized}
use discord_sftp_drive.Web.SignIn.{App, Credentials, unreadable, whole, login}
use discord_sftp_drive.Web.SignedIn.{SignedIn, login-SignedIn}
use discord_sftp_drive.Tests.Setting.{Channel, env}
use discord_sftp_drive.Tests.Services.{a_session, with_session}
use discord_sftp_drive.Tests.Accounts.{rig, alice, secret, a_server}

-- One task enters for a directory, is counted for its lock, and gets it.
abbrev a_dir : Str
a_dir = 100 ∷ []

abbrev entered : System
entered = record {
  table = init.table;
  tasks = set_at init.tasks 0 (record idle { wanted = wanted_dirs (a_dir ∷ []) [] });
}

abbrev queued : System
queued = record {
  table = count_in (entry_for a_dir init.table).0 (entry_for a_dir init.table).1;
  tasks = set_at entered.tasks 0 (record idle { waiting = some (a_dir, 0) });
}

abbrev locked : System
locked = record {
  table = set_holder 0 (some 0) queued.table;
  tasks = set_at queued.tasks 0 (record idle { taken = (a_dir, 0) ∷ [] });
}

locked-Reach : Reach 2 locked
unfolding wanted_dirs insert_dir holds_dir entry_for count_in
locked-Reach =
    later
      (later
        (later start
          (move 0 init.table _ (omega arith) (enter (a_dir ∷ []) refl refl refl refl) refl))
        (move 0 queued.table _ (omega arith) (queue a_dir [] refl refl refl refl) refl))
      (move 0 locked.table _ (omega arith) (acquire a_dir 0 refl refl refl refl) refl)

holds_run : holds_dir a_dir (locked.tasks 0).taken ≡ true
unfolding holds_dir str_eq
holds_run = refl

dir-exclusive_example : zero ≡ zero
dir-exclusive_example = dir-exclusive 2 locked a_dir zero zero locked-Reach holds_run holds_run

-- A deletion of "/api/fs" under the cookie and with the token of the session.
abbrev a_request : Request
a_request = record {
  method = post;
  path = 47 ∷ 97 ∷ 112 ∷ 105 ∷ 47 ∷ 102 ∷ 115 ∷ [];
  session_cookie = some (1 ∷ []);
  csrf_header = some (2 ∷ []);
}

request_private : is_public a_request.path ≡ false
unfolding is_public str_eq
request_private = refl

request_api : starts_with discord_sftp_drive.Web.Gate.api_prefix a_request.path ≡ true
unfolding starts_with
request_api = refl

request_run : (auth_middleware a_request 9 with_session).0 ≡ reaches (some a_session)
unfolding auth_middleware is_public starts_with check_csrf is_mutating str_eq Sessions.get
    Sessions.create Sessions.clamp Sessions.clamp_one Sessions.sweep Sessions.ids_where
    Sessions.drop_each insert lookup is_expired expired_at
request_run = refl

auth_middleware-IsAuthorized_example : IsAuthorized a_request 9 with_session (some a_session)
auth_middleware-IsAuthorized_example =
    auth_middleware-IsAuthorized a_request 9 with_session (some a_session) request_private
      request_api request_run

abbrev an_app : App Channel
an_app = record {
  books = a_server.books;
  world = a_server.world;
  sessions = record { idle_ceiling = 10; absolute_ceiling = 100; sessions = []; ended = [] };
  counters = [];
  slots = record { concurrency = 1; queue = 4; running = 0; waiting = 0 };
}

abbrev by_alice : Credentials
by_alice = record {
  username = alice;
  password = secret;
  idle_seconds = unreadable;
  absolute_seconds = whole (pos 100);
  address = 8 ∷ [];
  device_id = 9 ∷ [];
}

login-SignedIn_example :
    SignedIn rig
      (λ key. env)
      (1 ∷ [])
      (2 ∷ [])
      by_alice
      7
      an_app
      (login rig (λ key. env) (1 ∷ []) (2 ∷ []) by_alice 7 8 an_app).0
      (login rig (λ key. env) (1 ∷ []) (2 ∷ []) by_alice 7 8 an_app).1
login-SignedIn_example = login-SignedIn rig (λ key. env) (1 ∷ []) (2 ∷ []) by_alice 7 8 an_app
