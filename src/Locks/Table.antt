-- ===== src/Locks/Table.antt =====
-- The registry of locks, and what a task does to it between two awaits (src/vfs.py: `_DirLock`,
-- `_locked_dirs`, `_forget`). A lock is an object with an identity: the registry may come to hold
-- another one for the same directory.
use discord_sftp_drive.Base.{
  ℕ, suc, ◌-◌, ◌<◌, ◌≡◌, Str, str_eq, str_le, Bool, false, ◌&&◌, ◌||◌, Option, none, some, List, [],
  ◌∷◌, ◌==◌, if◌then◌else◌, is_empty,
}

-- `_DirLock`; the holder is what `asyncio.Lock` keeps as whether it is locked, with the task named.
pub record DirLock : Type 0 where
  pub users : ℕ
  pub holder : Option ℕ

-- `registry` is `_dir_locks`; `locks` are the objects, those from `next` on not yet made.
pub record Table : Type 0 where
  pub registry : Str → Option ℕ
  pub locks : ℕ → DirLock
  pub next : ℕ

-- A task in `_locked_dirs`: what is left of `wanted`, the entry that it is counted for and awaits,
-- and `taken`, last first. The directories of `taken` are `_dirs_held_by[task]`.
pub record Task : Type 0 where
  pub wanted : List Str
  pub waiting : Option (Str × ℕ)
  pub taken : List (Str × ℕ)

abbrev pub idle : Task
idle = record { wanted = []; waiting = none; taken = [] }

abbrev pub set_at {ℓ} : {A : Type ℓ} → (ℕ → A) → ℕ → A → ℕ → A
set_at f i a j = if j == i then a else f j

abbrev pub set_key {ℓ} : {A : Type ℓ} → (Str → A) → Str → A → Str → A
set_key f d a e = if str_eq e d then a else f e

unfoldable pub holds_dir : Str → List (Str × ℕ) → Bool
holds_dir d [] = false
holds_dir d ((e, o) ∷ ts) = str_eq e d || holds_dir d ts

-- A set in sorted order: an element that is there already is not put in again.
unfoldable pub insert_dir : Str → List Str → List Str
insert_dir d [] = d ∷ []
insert_dir d (e ∷ es) =
    let rest = insert_dir d es in
    if str_eq d e then e ∷ es else if str_le d e then d ∷ e ∷ es else e ∷ rest

-- `sorted({d for d in dir_ids if d} - held)`
unfoldable pub wanted_dirs : List Str → List (Str × ℕ) → List Str
wanted_dirs [] held = []
wanted_dirs (d ∷ ds) held =
    let rest = wanted_dirs ds held in
    if is_empty d || holds_dir d held then rest else insert_dir d rest

abbrev pub new_lock : DirLock
new_lock = record { users = 0; holder = none }

-- `_dir_locks.get(dir_id)`, and a new entry where there is none
unfoldable pub entry_for : Str → Table → ℕ × Table
entry_for d t = elim (t.registry d) [
  | some o ↦ (o, t)
  | none ↦ (
    t.next,
    record t {
      registry = set_key t.registry d (some t.next);
      locks = set_at t.locks t.next new_lock;
      next = suc t.next;
    },
  )
]

-- `entry.users += 1`
unfoldable pub count_in : ℕ → Table → Table
count_in o t = record t {
  locks = set_at t.locks o (record (t.locks o) { users = suc (t.locks o).users });
}

-- `entry.lock.acquire()` and `entry.lock.release()`
unfoldable pub set_holder : ℕ → Option ℕ → Table → Table
set_holder o who t = record t { locks = set_at t.locks o (record (t.locks o) { holder = who }) }

-- `_dir_locks.get(dir_id) is entry`
unfoldable pub is_entry : Option ℕ → ℕ → Bool
is_entry none o = false
is_entry (some p) o = p == o

-- `_forget`
unfoldable pub forget : Str → ℕ → Table → Table
forget d o t =
    let users = (t.locks o).users - 1 in
    record t {
      locks = set_at t.locks o (record (t.locks o) { users = users });
      registry =
          if users == 0 && is_entry (t.registry d) o then set_key t.registry d none else t.registry;
    }

-- What the task `i` does in one go.
pub data Move (i : ℕ) (t : Table) (k : Task) (t' : Table) (k' : Task) : Type 0 where
  -- it enters `_locked_dirs`
  enter :
      (dirs : List Str)
      → k.wanted ≡ []
      → k.waiting ≡ none
      → t' ≡ t
      → k' ≡ record k { wanted = wanted_dirs dirs k.taken }
      → Move i t k t' k'
  -- it is counted for the next entry, and awaits the lock
  queue :
      (d : Str) (ds : List Str)
      → k.wanted ≡ d ∷ ds
      → k.waiting ≡ none
      → t' ≡ count_in (entry_for d t).0 (entry_for d t).1
      → k' ≡ record k { wanted = ds; waiting = some (d, (entry_for d t).0) }
      → Move i t k t' k'
  -- the lock is free, and the task gets it
  acquire :
      (d : Str) (o : ℕ)
      → k.waiting ≡ some (d, o)
      → (t.locks o).holder ≡ none
      → t' ≡ set_holder o (some i) t
      → k' ≡ record k { waiting = none; taken = (d, o) ∷ k.taken }
      → Move i t k t' k'
  -- it is cancelled while it waits
  cancel :
      (d : Str) (o : ℕ)
      → k.waiting ≡ some (d, o)
      → t' ≡ forget d o t
      → k' ≡ record k { wanted = []; waiting = none }
      → Move i t k t' k'
  -- it leaves, and releases the last lock that it took
  release :
      (d : Str) (o : ℕ) (ts : List (Str × ℕ))
      → k.wanted ≡ []
      → k.waiting ≡ none
      → k.taken ≡ (d, o) ∷ ts
      → t' ≡ forget d o (set_holder o none t)
      → k' ≡ record k { taken = ts }
      → Move i t k t' k'

pub record System : Type 0 where
  pub table : Table
  pub tasks : ℕ → Task

-- One of `n` tasks moves.
pub data Step (n : ℕ) (s : System) (s' : System) : Type 0 where
  move :
      (i : ℕ) (t : Table) (k : Task)
      → i < n
      → Move i s.table (s.tasks i) t k
      → s' ≡ record { table = t; tasks = set_at s.tasks i k }
      → Step n s s'

abbrev pub init : System
init = record {
  table = record { registry = λ d. none; locks = λ o. new_lock; next = 0 };
  tasks = λ i. idle;
}

pub data Reach (n : ℕ) : System → Type 0 where
  start : Reach n init
  later : {s s' : System} → Reach n s → Step n s s' → Reach n s'
