-- ===== src/Jobs/Progress.antt =====
-- How a job ends (src/jobs.py: `_run`): by the first of its rounds that stops it.
use discord_sftp_drive.Base.{
  ℕ, ◌+◌, ◌≡◌, refl, ◌⊎◌, true, false, Option, none, some, List, [], ◌∷◌, ◌++◌, Str, arith, length,
  or_else, All, Option-cases, Bool-cases, inl, inr,
}
use discord_sftp_drive.Jobs.{
  Job, JobState, done, cancelled, failed, is_running, Round, Outcome, purged, stopped, gone,
  unsupported, crashed, interrupted, after_purge, session_ended, server_stopped, round, run_loop,
  close, run,
}

-- The attachments that a purge ticks off.
unfoldable pub ticks_of : Outcome → ℕ
ticks_of (purged n t) = t
ticks_of (stopped n t) = t
ticks_of (gone t) = t
ticks_of (unsupported t why) = t
ticks_of (crashed t why) = t
ticks_of (interrupted t) = t

unfoldable pub all_ticks : List Round → ℕ
all_ticks [] = 0
all_ticks (r ∷ rs) = ticks_of r.outcome + all_ticks rs

-- Whether a purge stops the job, in which state, and with which message.
unfoldable pub stop_after : Outcome → Option (JobState × Option Str)
stop_after (purged n t) = none
stop_after (gone t) = none
stop_after (stopped n t) = some (cancelled, none)
stop_after (unsupported t why) = some (failed, some why)
stop_after (crashed t why) = some (failed, some why)
stop_after (interrupted t) = some (cancelled, some server_stopped)

-- Whether a round stops the job: with which ticks, state, and message.
unfoldable pub stop_of : Round → Option (ℕ × JobState × Option Str)
stop_of r = elim r.session_open [
  | false ↦ some (0, cancelled, some session_ended)
  | true ↦ elim r.cancel_seen [
    | true ↦ some (0, cancelled, none)
    | false ↦ elim (stop_after r.outcome) [
      | none ↦ none
      | some (state, error) ↦ some (ticks_of r.outcome, state, error)
    ]
  ]
]

-- No round stops the job.
abbrev pub RunsOut : List Round → Job → Job → Type 0
RunsOut rs job job' =
    All (λ r. stop_of r ≡ none) rs
    × (job'.state ≡ done)
    × (job'.error ≡ job.error)
    × (job'.done_entries ≡ job.done_entries + length rs)
    × (job'.done_attachments ≡ job.done_attachments + all_ticks rs)

-- The round behind `before` is the first that stops it.
abbrev pub StopsAt : List Round → Round → ℕ → JobState → Option Str → Job → Job → Type 0
StopsAt before r ticks state error job job' =
    All (λ q. stop_of q ≡ none) before
    × (stop_of r ≡ some (ticks, state, error))
    × (job'.state ≡ state)
    × (job'.error ≡ or_else error job.error)
    × (job'.done_entries ≡ job.done_entries + length before)
    × (job'.done_attachments ≡ job.done_attachments + (all_ticks before + ticks))

abbrev pub Ends : List Round → Job → Job → Type 0
Ends rs job job' =
    RunsOut rs job job'
    ⊎ ((before : List Round) × (r : Round) × (after : List Round) × (ticks : ℕ) × (state : JobState)
        × (error : Option Str) × (rs ≡ before ++ r ∷ after)
        × StopsAt before r ticks state error job job')

abbrev pub Concluded : List Round → ℕ → Job → Job → Type 0
Concluded rs now job job' = Ends rs job job' × (job'.current ≡ []) × (job'.finished_at ≡ some now)

after_purge-on :
    (o : Outcome) (job : Job)
    → stop_after o ≡ none
    → ((after_purge o job).0 ≡ true)
      × ((after_purge o job).1.error ≡ job.error)
      × ((after_purge o job).1.done_entries ≡ job.done_entries + 1)
      × ((after_purge o job).1.done_attachments ≡ job.done_attachments + ticks_of o)
unfolding after_purge stop_after ticks_of
after_purge-on (purged n t) job h = (refl, refl, refl, refl)
after_purge-on (gone t) job h = (refl, refl, refl, refl)
after_purge-on (stopped n t) job h = cc
after_purge-on (unsupported t why) job h = cc
after_purge-on (crashed t why) job h = cc
after_purge-on (interrupted t) job h = cc

after_purge-off :
    (o : Outcome) (job : Job) (state : JobState) (error : Option Str)
    → stop_after o ≡ some (state, error)
    → ((after_purge o job).0 ≡ false)
      × ((after_purge o job).1.state ≡ state)
      × ((after_purge o job).1.error ≡ or_else error job.error)
      × ((after_purge o job).1.done_entries ≡ job.done_entries)
      × ((after_purge o job).1.done_attachments ≡ job.done_attachments + ticks_of o)
      × (is_running state ≡ false)
unfolding after_purge stop_after ticks_of is_running
after_purge-off (purged n t) job s e h = cc
after_purge-off (gone t) job s e h = cc
after_purge-off (stopped n t) job s e h = ground arith
after_purge-off (unsupported t why) job s e h = ground arith
after_purge-off (crashed t why) job s e h = ground arith
after_purge-off (interrupted t) job s e h = ground arith

round-on :
    (r : Round) (job : Job)
    → stop_of r ≡ none
    → ((round r job).0 ≡ true)
      × ((round r job).1.error ≡ job.error)
      × ((round r job).1.done_entries ≡ job.done_entries + 1)
      × ((round r job).1.done_attachments ≡ job.done_attachments + ticks_of r.outcome)
unfolding round stop_of
round-on r job h = elim (Bool-cases r.session_open) [
  | inr ended ↦ cc (rw (stop_of, ended) at h)
  | inl open' ↦ elim (Bool-cases r.cancel_seen) [
    | inl asked ↦ cc (rw (stop_of, open', asked) at h)
    | inr quiet ↦ elim (Option-cases (stop_after r.outcome)) [
      | inl on ↦
          rw (round, open', quiet)
            (after_purge-on r.outcome (record job { current = r.filename }) on)
      | inr (why, off) ↦ cc (rw (stop_of, open', quiet, off) at h)
    ]
  ]
]

round-off :
    (r : Round) (job : Job) (ticks : ℕ) (state : JobState) (error : Option Str)
    → stop_of r ≡ some (ticks, state, error)
    → ((round r job).0 ≡ false)
      × ((round r job).1.state ≡ state)
      × ((round r job).1.error ≡ or_else error job.error)
      × ((round r job).1.done_entries ≡ job.done_entries)
      × ((round r job).1.done_attachments ≡ job.done_attachments + ticks)
      × (is_running state ≡ false)
unfolding round stop_of is_running
round-off r job ticks state error h = elim (Bool-cases r.session_open) [
  | inr ended ↦
      let e : some (0, cancelled, some session_ended) ≡ some (ticks, state, error) =
        rw (stop_of, ended) at h in
      ground arith
  | inl open' ↦ elim (Bool-cases r.cancel_seen) [
    | inl asked ↦
        let e : some (0, cancelled, none) ≡ some (ticks, state, error) =
          rw (stop_of, open', asked) at h in
        ground arith
    | inr quiet ↦ elim (Option-cases (stop_after r.outcome)) [
      | inl on ↦ cc (rw (stop_of, open', quiet, on) at h)
      | inr ((s, err), off) ↦
          let e : some (ticks_of r.outcome, s, err) ≡ some (ticks, state, error) =
            rw (stop_of, open', quiet, off) at h in
          let done' = after_purge-off r.outcome (record job { current = r.filename }) s err off in
          rw (round, open', quiet) (ground arith)
    ]
  ]
]

-- Past a round that does not stop the job.
Ends-on :
    (r : Round) (rs : List Round) (job job1 job' : Job)
    → stop_of r ≡ none
    → job1.error ≡ job.error
    → job1.done_entries ≡ job.done_entries + 1
    → job1.done_attachments ≡ job.done_attachments + ticks_of r.outcome
    → Ends rs job1 job'
    → Ends (r ∷ rs) job job'
unfolding all_ticks
Ends-on r rs job job1 job' on err count att (inl (all, state, e, n, a)) =
    inl ((on, all), state, cc, omega arith, omega arith)
Ends-on r rs job job1 job' on err count att
      (inr (before, q, after, ticks, state, error, split, (all, off, s, e, n, a))) =
    inr (
      r ∷ before,
      q,
      after,
      ticks,
      state,
      error,
      rw split refl,
      ((on, all), off, s, rw (← err) e, omega arith, omega arith),
    )

run_loop-Ends :
    (rs : List Round) (job : Job)
    → Ends rs job (run_loop rs job) × (is_running (run_loop rs job).state ≡ false)
unfolding run_loop is_running all_ticks
run_loop-Ends [] job = (inl (tt, refl, refl, omega arith, omega arith), refl)
run_loop-Ends (r ∷ rs) job = elim (Option-cases (stop_of r)) [
  | inl on ↦
      let (goes, err, count, att) = round-on r job on in
      let (ends, over) = run_loop-Ends rs (round r job).1 in
      rw goes
        (Ends-on r rs job (round r job).1 (run_loop rs (round r job).1) on err count att ends, over)
  | inr ((ticks, state, error), off) ↦
      let (halts, s, e, n, a, over) = round-off r job ticks state error off in
      rw halts (
        inr ([], r, rs, ticks, state, error, refl, (tt, off, s, e, omega arith, omega arith)),
        rw s over,
      )
]

-- Whatever its rounds meet, a cancellation of the task among them, a job ends, at the time that it
-- reads, by the first round that stops it: where the session has ended, the job was cancelled, or
-- the purge was stopped, failed, or was interrupted, it gets that round's state and message, and
-- counts one entry for each round before and what all of them and this one ticked off. If there is
-- none, it is done, and counts every round.
pub run-finished : (rs : List Round) (now : ℕ) (job : Job) → Concluded rs now job (run rs now job)
unfolding run close
run-finished rs now job = let (ends, over) = run_loop-Ends rs job in rw over (ends, refl, refl)
