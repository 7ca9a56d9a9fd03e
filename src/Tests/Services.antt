-- ===== src/Tests/Services.antt =====
-- The theorems on sessions, the login guard, jobs and rate limits, applied.
use discord_sftp_drive.Base.{
  ℕ, zero, suc, ◌+◌, ◌*◌, ◌≤◌, ◌<◌, ◌≡◌, ◌≢◌, refl, true, false, Option, none, some, List, [], ◌∷◌,
  ◌++◌, Str, arith, pos, replicate, length, All, drop, ◌⊎◌, ◌&&◌, not,
}
use discord_sftp_drive.Sessions.{SessionStore, WebSession, clamp, create, get, object_of}
use discord_sftp_drive.Sessions.Bounds.{
  Later, at_once, next, get_step, get-deadline, ended-Cleared, drop_step, Cleared,
}
use discord_sftp_drive.Guard.{Counter, Key, addr, check, record_success, record_failure, penalty}
use discord_sftp_drive.Guard.Lockouts.{fail_all, address-locked, success-locked, failure-elsewhere}
use discord_sftp_drive.Guard.Admission.{slots-bounded}
use discord_sftp_drive.Jobs.{
  Job, new_job, Round, purged, run, finished, start_check, register, done, running,
}
use discord_sftp_drive.Jobs.Progress.{Concluded, run-finished}
use discord_sftp_drive.Jobs.Single.{count_running, start-race}
use discord_sftp_drive.Rate.{Limiter}
use discord_sftp_drive.Rate.Pacing.{Window, grants, grants-bounded}

abbrev empty_sessions : SessionStore
empty_sessions = record { idle_ceiling = 10; absolute_ceiling = 100; sessions = []; ended = [] }

abbrev pub a_session : WebSession
a_session = record {
  id = 1 ∷ [];
  csrf_token = 2 ∷ [];
  username = 3 ∷ [];
  root_id = 4 ∷ [];
  key = 5 ∷ [];
  vfs = some (5 ∷ [], 4 ∷ []);
  created_at = 7;
  last_seen = 9;
  idle_seconds = 10;
  absolute_seconds = 100;
}

abbrev pub with_session : SessionStore
with_session = (create (1 ∷ []) (2 ∷ []) (3 ∷ []) (4 ∷ []) (5 ∷ []) none none 7 empty_sessions).1

-- The session is used once more, and dropped.
abbrev used_session : SessionStore
used_session = (get (1 ∷ []) 8 with_session).1

used-Later : Later (1 ∷ []) with_session used_session
used-Later = next at_once (get_step (1 ∷ []) 8)

get_run : (get (1 ∷ []) 9 used_session).0 ≡ some a_session
unfolding get create clamp discord_sftp_drive.Sessions.clamp_one discord_sftp_drive.Sessions.sweep
    discord_sftp_drive.Sessions.ids_where discord_sftp_drive.Sessions.drop_each
    discord_sftp_drive.Base.insert discord_sftp_drive.Base.lookup discord_sftp_drive.Base.str_eq
    discord_sftp_drive.Sessions.is_expired discord_sftp_drive.Sessions.expired_at
get_run = refl

get-deadline_example : (9 < 7 + 100) × (100 ≤ 100)
unfolding create clamp discord_sftp_drive.Sessions.clamp_one discord_sftp_drive.Sessions.sweep
    discord_sftp_drive.Sessions.ids_where discord_sftp_drive.Sessions.drop_each
get-deadline_example =
    get-deadline (1 ∷ []) (2 ∷ []) (3 ∷ []) (4 ∷ []) (5 ∷ []) none none 7 empty_sessions
      used_session 9 a_session used-Later get_run

abbrev dropped_session : SessionStore
dropped_session = (discord_sftp_drive.Sessions.drop (1 ∷ []) used_session).1

ended-Cleared_example :
    (s : WebSession) × (object_of (1 ∷ []) dropped_session ≡ some s)
    × (((discord_sftp_drive.Base.lookup (1 ∷ []) dropped_session.sessions ≡ some s)
          × (s.key ≡ 5 ∷ [])
          × (s.vfs ≡ some (5 ∷ [], 4 ∷ [])))
        ⊎ ((discord_sftp_drive.Base.lookup (1 ∷ []) dropped_session.sessions ≡ none) × Cleared s))
ended-Cleared_example =
    ended-Cleared (1 ∷ []) (2 ∷ []) (3 ∷ []) (4 ∷ []) (5 ∷ []) none none 7 empty_sessions
      dropped_session (next used-Later (drop_step (1 ∷ [])))

abbrev devices : List Str
devices = replicate 20 (1 ∷ [])

address-locked_example : 0 < (check (8 ∷ []) (2 ∷ []) 50 (fail_all (8 ∷ []) 50 devices [])).0
address-locked_example = address-locked (8 ∷ []) (2 ∷ []) 50 devices [] (omega arith)

abbrev locked_counter : Counter
locked_counter = record { failures = 20; locked_until = 80; last_touched = 50 }

locked_found :
    discord_sftp_drive.Guard.counter_of (addr (8 ∷ [])) ((addr (8 ∷ []), locked_counter) ∷ [])
    ≡ some locked_counter
unfolding discord_sftp_drive.Guard.counter_of discord_sftp_drive.Guard.key_eq
    discord_sftp_drive.Base.str_eq
locked_found = refl

success-locked_example :
    0
    < (check
        (8 ∷ [])
        (2 ∷ [])
        60
        (record_success (8 ∷ []) (1 ∷ []) ((addr (8 ∷ []), locked_counter) ∷ []))).0
success-locked_example =
    success-locked (8 ∷ []) (1 ∷ []) (2 ∷ []) 60 locked_counter
      ((addr (8 ∷ []), locked_counter) ∷ []) locked_found (omega arith)

abbrev here : Str
here = 8 ∷ []

abbrev there : Str
there = 9 ∷ []

elsewhere : here ≢ there
elsewhere e = cc

failure-elsewhere_example :
    (check (9 ∷ []) (2 ∷ []) 60 (record_failure (8 ∷ []) (1 ∷ []) 60 [])).0
    ≡ (check (9 ∷ []) (2 ∷ []) 60 []).0
failure-elsewhere_example = failure-elsewhere (8 ∷ []) (9 ∷ []) (1 ∷ []) (2 ∷ []) 60 60 [] elsewhere

slots-bounded_example : (0 ≤ 2) × (1 ≤ 16)
unfolding discord_sftp_drive.Guard.enter
slots-bounded_example = slots-bounded 2 16 _ (
    discord_sftp_drive.Guard.Admission.next discord_sftp_drive.Guard.Admission.start
      discord_sftp_drive.Guard.Admission.enter_step)

abbrev a_job : Job
a_job = new_job (1 ∷ []) (2 ∷ []) (3 ∷ []) (4 ∷ []) 5 1

abbrev b_job : Job
b_job = new_job (9 ∷ []) (2 ∷ []) (3 ∷ []) (4 ∷ []) 5 1

abbrev a_round : Round
a_round = record {
  session_open = true;
  cancel_seen = false;
  filename = 6 ∷ [];
  outcome = purged 1 5;
}

run-finished_example : Concluded (a_round ∷ []) 70 a_job (run (a_round ∷ []) 70 a_job)
run-finished_example = run-finished (a_round ∷ []) 70 a_job

start_free : (start_check (3 ∷ []) 0 []).0 ≡ true
unfolding start_check discord_sftp_drive.Jobs.sweep discord_sftp_drive.Jobs.running_for_tree
start_free = refl

start-race_example :
    count_running (3 ∷ []) (register b_job (register a_job (start_check (3 ∷ []) 0 []).1)) ≡ 2
unfolding start_check discord_sftp_drive.Jobs.sweep discord_sftp_drive.Jobs.running_for_tree
    discord_sftp_drive.Jobs.runs_on finished discord_sftp_drive.Jobs.is_running new_job register
    discord_sftp_drive.Base.insert discord_sftp_drive.Base.lookup discord_sftp_drive.Base.str_eq
start-race_example = start-race (3 ∷ []) 0 a_job b_job [] refl refl refl refl refl refl

abbrev a_limiter : Limiter
a_limiter = record {
  buckets = (2 ∷ [], record { remaining = some (pos 1); reset_at = 50 }) ∷ [];
  routes = (1 ∷ [], 2 ∷ []) ∷ [];
  global_until = 30;
}

a_limiter-Window : Window (1 ∷ []) 1 50 a_limiter
unfolding discord_sftp_drive.Base.lookup discord_sftp_drive.Base.str_eq
a_limiter-Window = record {
  id = 2 ∷ [];
  bucket = record { remaining = some (pos 1); reset_at = 50 };
  routed = refl;
  known = refl;
  left = refl;
  resets = refl;
}

grants-bounded_example : (grants (1 ∷ []) (31 ∷ 32 ∷ 33 ∷ []) a_limiter).0 ≤ 1
grants-bounded_example =
    grants-bounded (1 ∷ []) 1 50 (31 ∷ 32 ∷ 33 ∷ []) a_limiter a_limiter-Window
      (omega arith, (omega arith, (omega arith, tt)))
