-- ===== src/Guard/Admission.antt =====
-- How many key derivations run and wait at once (src/webauth.py: `_Slot`).
use discord_sftp_drive.Base.{ℕ, ◌≤◌, ◌≡◌, refl, some, arith}
use discord_sftp_drive.Guard.{Slots, enter, admit, give_up, leave}

pub data Step : Slots → Slots → Type 0 where
  enter_step : {s : Slots} → Step s (enter s).1
  admit_step : {s t : Slots} → admit s ≡ some t → Step s t
  give_up_step : {s t : Slots} → give_up s ≡ some t → Step s t
  leave_step : {s t : Slots} → leave s ≡ some t → Step s t

pub data Reachable (concurrency queue : ℕ) : Slots → Type 0 where
  start :
      Reachable concurrency queue
        (record { concurrency = concurrency; queue = queue; running = 0; waiting = 0 })
  next : {s t : Slots} → Reachable concurrency queue s → Step s t → Reachable concurrency queue t

abbrev Bounded : ℕ → ℕ → Slots → Type 0
Bounded c q s = (s.concurrency ≡ c) × (s.queue ≡ q) × (s.running ≤ c) × (s.waiting ≤ q)

Step-Bounded : (c q : ℕ) (s t : Slots) → Bounded c q s → Step s t → Bounded c q t
unfolding enter admit give_up leave
Step-Bounded c q s _ b enter_step = ground arith
Step-Bounded c q s t b (admit_step e) = ground arith
Step-Bounded c q s t b (give_up_step e) = ground arith
Step-Bounded c q s t b (leave_step e) = ground arith

-- In every state that logins which come, are let in, are cancelled and end lead to, at most
-- `concurrency` derivations run and at most `queue` wait.
pub slots-bounded : (c q : ℕ) (s : Slots) → Reachable c q s → (s.running ≤ c) × (s.waiting ≤ q)
slots-bounded c q s r = let b = go s r in (b.2, b.3)
  where
    go : (u : Slots) → Reachable c q u → Bounded c q u
    go _ start = (refl, refl, omega arith, omega arith)
    go _ (next {s} {t} r step) = Step-Bounded c q s t (go s r) step
