-- ===== src/Locks/Counting.antt =====
-- How often the tasks refer to a lock.
use discord_sftp_drive.Base.{
  ℕ, zero, suc, ◌+◌, ◌≤◌, ◌<◌, ◌≡◌, refl, Str, Bool, true, false, Option, none, some, List, [], ◌∷◌,
  ◌==◌, ==_iff, str_eq, str_eq_refl, ◌&&◌, ◌||◌, Bool-cases, inl, inr, if◌then◌else◌, arith,
}
use discord_sftp_drive.Locks.Table.{Task, idle, set_at}

unfoldable pub total : ℕ → (ℕ → ℕ) → ℕ
total zero f = 0
total (suc n) f = total n f + f n

total-same :
    (n i : ℕ) (f g : ℕ → ℕ)
    → ((j : ℕ) → (j == i) ≡ false → g j ≡ f j)
    → n ≤ i
    → total n g ≡ total n f
unfolding total
total-same zero i f g same h = refl
total-same (suc n) i f g same h =
    let e : g n ≡ f n = same n (ground arith) in omega (arith, total-same n i f g same)

-- The numbers but one are the same.
pub total-set :
    (n i : ℕ) (f g : ℕ → ℕ)
    → ((j : ℕ) → (j == i) ≡ false → g j ≡ f j)
    → i < n
    → total n g + f i ≡ total n f + g i
unfolding total
total-set zero i f g same h = absurd (omega arith)
total-set (suc n) i f g same h = elim (Bool-cases (n == i)) [
  | inl last ↦ let e : n ≡ i = (==_iff n i).0 last in rw e (omega (arith, total-same i i f g same))
  | inr before ↦
      let e : g n ≡ f n = same n before in
      let below : i < n = ground arith in omega (arith, total-set n i f g same below)
]

pub le-total : (n i : ℕ) (f : ℕ → ℕ) → i < n → f i ≤ total n f
unfolding total
le-total zero i f h = absurd (omega arith)
le-total (suc n) i f h = elim (Bool-cases (n == i)) [
  | inl last ↦ let e : n ≡ i = (==_iff n i).0 last in rw e (omega arith)
  | inr before ↦ let below : i < n = ground arith in omega (arith, le-total n i f below)
]

-- How often `o` stands in what a task has taken.
unfoldable pub count_taken : ℕ → List (Str × ℕ) → ℕ
count_taken o [] = 0
count_taken o ((d, p) ∷ ts) = (if p == o then 1 else 0) + count_taken o ts

unfoldable pub count_waiting : ℕ → Option (Str × ℕ) → ℕ
count_waiting o none = 0
count_waiting o (some (d, p)) = if p == o then 1 else 0

unfoldable pub refs : ℕ → Task → ℕ
refs o k = count_waiting o k.waiting + count_taken o k.taken

unfoldable pub all_refs : ℕ → ℕ → (ℕ → Task) → ℕ
all_refs n o tasks = total n (λ i. refs o (tasks i))

-- One task is replaced.
pub all_refs-set :
    (n o i : ℕ) (tasks : ℕ → Task) (k : Task)
    → i < n
    → all_refs n o (set_at tasks i k) + refs o (tasks i) ≡ all_refs n o tasks + refs o k
unfolding all_refs
all_refs-set n o i tasks k h =
    let self : (i == i) ≡ true = ground arith in
    let e : refs o (set_at tasks i k i) ≡ refs o k = rw self refl in
    omega (
      arith,
      total-set n i (λ j. refs o (tasks j)) (λ j. refs o (set_at tasks i k j)) (λ j h. rw h refl),
      e,
    )

pub refs-le : (n o i : ℕ) (tasks : ℕ → Task) → i < n → refs o (tasks i) ≤ all_refs n o tasks
unfolding all_refs
refs-le n o i tasks h = le-total n i (λ j. refs o (tasks j)) h

-- Whether the directory was taken by that lock.
unfoldable pub has_taken : Str → ℕ → List (Str × ℕ) → Bool
has_taken d o [] = false
has_taken d o ((e, p) ∷ ts) = (str_eq e d && p == o) || has_taken d o ts

pub has_taken-count :
    (d : Str) (o : ℕ) (ts : List (Str × ℕ)) → has_taken d o ts ≡ true → 1 ≤ count_taken o ts
unfolding has_taken count_taken
has_taken-count d o [] h = cc
has_taken-count d o ((e, p) ∷ ts) h = ground (arith, has_taken-count d o ts)

pub count_taken-zero :
    (o : ℕ) (ts : List (Str × ℕ)) → ((d : Str) → has_taken d o ts ≡ false) → count_taken o ts ≡ 0
unfolding has_taken count_taken
count_taken-zero o [] h = refl
count_taken-zero o ((e, p) ∷ ts) h =
    let rest : count_taken o ts ≡ 0 = count_taken-zero o ts (λ d. ground (arith, h d)) in
    ground (arith, h e, str_eq_refl e)

pub all_refs-idle : (n o : ℕ) → all_refs n o (λ i. idle) ≡ 0
unfolding all_refs total refs count_waiting count_taken
all_refs-idle zero o = refl
all_refs-idle (suc n) o = omega (arith, all_refs-idle n o)
