-- ===== src/Jobs/Single.antt =====
-- How many purges run on one tree (src/jobs.py: `JobRegistry`).
use discord_sftp_drive.Base.{
  ℕ, suc, ◌≤◌, ◌≡◌, refl, Str, str_eq, true, false, none, [], ◌∷◌, arith, Bool-cases, inl, inr,
  if◌then◌else◌, is_some, insert, lookup,
}
use discord_sftp_drive.Jobs.{
  Job, Registry, is_running, finished, runs_on, running_for_tree, is_over, sweep, cancel,
  cancel_all, start_check, register,
}

-- The purges that run on a tree.
unfoldable pub count_running : Str → Registry → ℕ
count_running root_id [] = 0
count_running root_id ((i, job) ∷ jobs) =
    let rest = count_running root_id jobs in if runs_on root_id job then suc rest else rest

count-sweep :
    (root_id : Str) (now : ℕ) (jobs : Registry)
    → count_running root_id (sweep now jobs) ≡ count_running root_id jobs
unfolding count_running sweep is_over runs_on
count-sweep root_id now [] = refl
count-sweep root_id now ((i, job) ∷ jobs) = elim (Bool-cases (is_over now job)) [
  | inl over ↦ ground (arith, count-sweep root_id now jobs)
  | inr kept ↦ rw (kept, count-sweep root_id now jobs) refl
]

count-none :
    (root_id : Str) (jobs : Registry)
    → is_some (running_for_tree root_id jobs) ≡ false
    → count_running root_id jobs ≡ 0
unfolding count_running running_for_tree
count-none root_id [] h = refl
count-none root_id ((i, job) ∷ jobs) h = elim (Bool-cases (runs_on root_id job)) [
  | inl on ↦ cc (rw on at h)
  | inr off ↦ rw off (count-none root_id jobs (rw off at h))
]

count-insert :
    (root_id id : Str) (job : Job) (jobs : Registry)
    → count_running root_id (insert id job jobs) ≤ suc (count_running root_id jobs)
unfolding count_running insert
count-insert root_id id job [] = ground arith
count-insert root_id id job ((i, old) ∷ jobs) = elim (Bool-cases (str_eq i id)) [
  | inl here ↦ rw here (ground arith)
  | inr there ↦ rw there (ground (arith, count-insert root_id id job jobs))
]

-- If the check passes, and the job is registered in the registry that the check left, then at most
-- one purge runs on the tree.
start-single :
    (root_id : Str) (now : ℕ) (job : Job) (jobs : Registry)
    → (start_check root_id now jobs).0 ≡ true
    → count_running root_id (register job (start_check root_id now jobs).1) ≤ 1
unfolding start_check register
start-single root_id now job jobs free =
    let quiet : is_some (running_for_tree root_id (sweep now jobs)) ≡ false = ground arith in
    omega (
      arith,
      count-none root_id (sweep now jobs) quiet,
      count-insert root_id job.id job (sweep now jobs),
    )

count-fresh :
    (root_id id : Str) (job : Job) (jobs : Registry)
    → lookup id jobs ≡ none
    → runs_on root_id job ≡ true
    → count_running root_id (insert id job jobs) ≡ suc (count_running root_id jobs)
unfolding count_running insert lookup
count-fresh root_id id job [] absent on = rw on refl
count-fresh root_id id job ((i, old) ∷ jobs) absent on = elim (Bool-cases (str_eq i id)) [
  | inl here ↦ cc (rw here at absent)
  | inr there ↦ rw there (ground (arith, count-fresh root_id id job jobs (rw there at absent) on))
]

-- If two starts on one tree are both checked before either is registered, both checks pass, and the
-- jobs have fresh ids, then after both registrations two purges run on the tree.
pub start-race :
    (root_id : Str) (now : ℕ) (first second : Job) (jobs : Registry)
    → (start_check root_id now jobs).0 ≡ true
    → (start_check root_id now (start_check root_id now jobs).1).0 ≡ true
    → runs_on root_id first ≡ true
    → runs_on root_id second ≡ true
    → lookup first.id (start_check root_id now jobs).1 ≡ none
    → lookup second.id (register first (start_check root_id now jobs).1) ≡ none
    → count_running root_id (register second (register first (start_check root_id now jobs).1)) ≡ 2
unfolding start_check register
start-race root_id now first second jobs free1 free2 on1 on2 fresh1 fresh2 =
    let swept = sweep now jobs in
    let quiet : is_some (running_for_tree root_id swept) ≡ false = ground arith in
    omega (
      arith,
      count-none root_id swept quiet,
      count-fresh root_id first.id first swept fresh1 on1,
      count-fresh root_id second.id second (insert first.id first swept) fresh2 on2,
    )

-- Asking every job to stop ends none and starts none.
pub cancel_all-count :
    (root_id : Str) (jobs : Registry)
    → count_running root_id (cancel_all jobs) ≡ count_running root_id jobs
unfolding count_running cancel_all cancel runs_on finished
cancel_all-count root_id [] = refl
cancel_all-count root_id ((i, job) ∷ jobs) = elim (Bool-cases (is_running job.state)) [
  | inl on ↦ rw (on, cancel_all-count root_id jobs) (ground arith)
  | inr off ↦ rw (off, cancel_all-count root_id jobs) (ground arith)
]
