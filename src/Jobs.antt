-- ===== src/Jobs.antt =====
-- Batch purges in the background (src/jobs.py): `Job`, `JobRegistry`, and the loop of `_run`.
-- What each round of the loop meets -- whether the session is still there, whether the job was
-- cancelled, what the file system's `purge` did -- is an argument. Times are whole seconds.
pub mod Progress
pub mod Single
use discord_sftp_drive.Base.{
  ℕ, ◌+◌, Str, str_eq, Bool, true, false, not, ◌&&◌, Option, none, some, List, [], ◌∷◌, leb,
  if◌then◌else◌, lookup, insert, is_some, map, length, filter_by,
}

abbrev pub retain_seconds : ℕ
retain_seconds = 300

pub data JobState : Type 0 where
  running done cancelled failed : JobState

unfoldable pub is_running : JobState → Bool
is_running running = true
is_running done = false
is_running cancelled = false
is_running failed = false

pub record Job : Type 0 where
  pub id : Str
  pub kind : Str
  pub root_id : Str
  pub session_id : Str
  pub total_attachments : ℕ
  pub total_entries : ℕ
  pub done_attachments : ℕ
  pub done_entries : ℕ
  pub nodes : ℕ
  pub state : JobState
  pub current : Str
  pub error : Str
  pub cancel_requested : Bool
  pub finished_at : Option ℕ

-- The property `finished`
unfoldable pub finished : Job → Bool
finished job = not (is_running job.state)

abbrev pub Registry : Type 0
Registry = List (Str × Job)

unfoldable pub runs_on : Str → Job → Bool
runs_on root_id job = str_eq job.root_id root_id && not (finished job)

-- `running_for_tree`
unfoldable pub running_for_tree : Str → Registry → Option Job
running_for_tree root_id [] = none
running_for_tree root_id ((i, job) ∷ jobs) =
    if runs_on root_id job then some job else running_for_tree root_id jobs

-- A job that `sweep` forgets.
unfoldable pub is_over : ℕ → Job → Bool
is_over now job = elim job.finished_at [
  | none ↦ false
  | some t ↦ finished job && leb (t + retain_seconds) now
]

-- `sweep`
unfoldable pub sweep : ℕ → Registry → Registry
sweep now jobs = filter_by (λ e. not (is_over now e.1)) jobs

-- `get`
unfoldable pub get : Str → Str → Registry → Option Job
get id root_id jobs = elim (lookup id jobs) [
  | none ↦ none
  | some job ↦ if str_eq job.root_id root_id then some job else none
]

-- `list_for_tree`
unfoldable pub list_for_tree : Str → Registry → List Job
list_for_tree root_id jobs = map (λ e. e.1) (filter_by (λ e. str_eq e.1.root_id root_id) jobs)

-- `cancel`: the job that it was asked of, and the answer.
unfoldable pub cancel : Job → Bool × Job
cancel job = if finished job then (false, job) else (true, record job { cancel_requested = true })

-- `cancel_all`
unfoldable pub cancel_all : Registry → Registry
cancel_all [] = []
cancel_all ((i, job) ∷ jobs) = (i, (cancel job).1) ∷ cancel_all jobs

-- `start_purge` up to its first `await`: refused while a purge runs on the tree.
unfoldable pub start_check : Str → ℕ → Registry → Bool × Registry
start_check root_id now jobs =
    let swept = sweep now jobs in (not (is_some (running_for_tree root_id swept)), swept)

unfoldable pub new_job : Str → Str → Str → Str → ℕ → ℕ → Job
new_job id kind root_id session_id attachments entries = record {
  id = id;
  kind = kind;
  root_id = root_id;
  session_id = session_id;
  total_attachments = attachments;
  total_entries = entries;
  done_attachments = 0;
  done_entries = 0;
  nodes = 0;
  state = running;
  current = [];
  error = [];
  cancel_requested = false;
  finished_at = none;
}

-- `start_purge` behind the counting of the costs.
unfoldable pub register : Job → Registry → Registry
register job jobs = insert job.id job jobs

-- What `vfs.purge` did for one node, with the number of attachments that it ticked off.
pub data Outcome : Type 0 where
  purged : ℕ → ℕ → Outcome
  stopped : ℕ → ℕ → Outcome
  gone : ℕ → Outcome
  unsupported : ℕ → Str → Outcome
  crashed : ℕ → Str → Outcome
  -- `asyncio.CancelledError`: the task itself is cancelled
  interrupted : ℕ → Outcome

pub record Round : Type 0 where
  pub session_open : Bool
  pub cancel_seen : Bool
  pub filename : Str
  pub outcome : Outcome

-- "server stopped"
abbrev pub server_stopped : Str
server_stopped =
    b's' ∷ b'e' ∷ b'r' ∷ b'v' ∷ b'e' ∷ b'r' ∷ b' ' ∷ b's' ∷ b't' ∷ b'o' ∷ b'p' ∷ b'p' ∷ b'e' ∷ b'd'
    ∷ []

-- One round: the job, and whether the loop goes on.
unfoldable pub after_purge : Outcome → Job → Bool × Job
after_purge (purged n ticks) job = (
  true,
  record job {
    done_attachments = job.done_attachments + ticks;
    nodes = job.nodes + n;
    done_entries = job.done_entries + 1;
  },
)
after_purge (stopped n ticks) job = (
  false,
  record job {
    done_attachments = job.done_attachments + ticks;
    nodes = job.nodes + n;
    state = cancelled;
  },
)
after_purge (gone ticks) job = (
  true,
  record job {
    done_attachments = job.done_attachments + ticks;
    done_entries = job.done_entries + 1;
  },
)
after_purge (unsupported ticks why) job = (
  false,
  record job { done_attachments = job.done_attachments + ticks; state = failed; error = why },
)
after_purge (crashed ticks why) job = (
  false,
  record job { done_attachments = job.done_attachments + ticks; state = failed; error = why },
)
after_purge (interrupted ticks) job = (
  false,
  record job {
    done_attachments = job.done_attachments + ticks;
    state = cancelled;
    error = server_stopped;
  },
)

abbrev pub session_ended : Str
session_ended =
    b's' ∷ b'e' ∷ b's' ∷ b's' ∷ b'i' ∷ b'o' ∷ b'n' ∷ b' ' ∷ b'e' ∷ b'n' ∷ b'd' ∷ b'e' ∷ b'd' ∷ []

unfoldable pub round : Round → Job → Bool × Job
round r job =
    if not r.session_open
    then (false, record job { state = cancelled; error = session_ended })
    else if r.cancel_seen
    then (false, record job { state = cancelled })
    else after_purge r.outcome (record job { current = r.filename })

-- The loop, with its `else`.
unfoldable pub run_loop : List Round → Job → Job
run_loop [] job = record job { state = done }
run_loop (r ∷ rs) job =
    let (on, job') = round r job in let rest = run_loop rs job' in if on then rest else job'

-- The `finally`
unfoldable pub close : ℕ → Job → Job
close now job = record job {
  current = [];
  finished_at = some now;
  state = if is_running job.state then done else job.state;
}

-- `_run`; that it raises `CancelledError` again, behind its `finally`, is seen by nobody.
unfoldable pub run : List Round → ℕ → Job → Job
run rounds now job = close now (run_loop rounds job)
