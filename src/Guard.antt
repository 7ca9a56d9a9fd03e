-- ===== src/Guard.antt =====
-- What guards the login endpoint (src/webauth.py): `LoginGuard` and its slots. Times are whole
-- seconds of the monotonic clock; an address and a device id are strings.
pub mod Lockouts
pub mod Admission
use discord_sftp_drive.Base.{
  ℕ, zero, suc, ◌+◌, ◌-◌, ◌*◌, ◌^◌, Str, str_eq, Bool, true, false, not, ◌&&◌, Option, none, some,
  List, [], ◌∷◌, leb, ltb, ◌==◌, if◌then◌else◌, min, max, filter_by,
}

abbrev pub device_threshold : ℕ
device_threshold = 5

abbrev pub address_threshold : ℕ
address_threshold = 20

abbrev pub base_lockout_seconds : ℕ
base_lockout_seconds = 30

abbrev pub max_lockout_seconds : ℕ
max_lockout_seconds = 900

abbrev pub forget_after_seconds : ℕ
forget_after_seconds = 3600

-- `("pair", address, device)` or `("addr", address)`
pub data Key : Type 0 where
  pair : Str → Str → Key
  addr : Str → Key

unfoldable pub key_eq : Key → Key → Bool
key_eq (pair a d) (pair b e) = str_eq a b && str_eq d e
key_eq (pair a d) (addr b) = false
key_eq (addr a) (pair b e) = false
key_eq (addr a) (addr b) = str_eq a b

pub record Counter : Type 0 where
  pub failures : ℕ
  pub locked_until : ℕ
  pub last_touched : ℕ

abbrev pub Counters : Type 0
Counters = List (Key × Counter)

-- `device_id or "-"`
unfoldable pub device_or_dash : Str → Str
device_or_dash [] = b'-' ∷ []
device_or_dash (c ∷ cs) = c ∷ cs

unfoldable pub pair_key : Str → Str → Key
pair_key address device = pair address (device_or_dash device)

-- `_threshold`
unfoldable pub threshold : Key → ℕ
threshold (pair a d) = device_threshold
threshold (addr a) = address_threshold

unfoldable pub counter_of : Key → Counters → Option Counter
counter_of k [] = none
counter_of k ((j, c) ∷ m) = if key_eq j k then some c else counter_of k m

unfoldable pub put_counter : Key → Counter → Counters → Counters
put_counter k c [] = (k, c) ∷ []
put_counter k c ((j, d) ∷ m) = if key_eq j k then (k, c) ∷ m else (j, d) ∷ put_counter k c m

unfoldable pub pop_counter : Key → Counters → Counters
pop_counter k m = filter_by (λ e. not (key_eq e.0 k)) m

-- `_forget_stale`
unfoldable pub is_stale : ℕ → Counter → Bool
is_stale now c = ltb (c.last_touched + forget_after_seconds) now && leb c.locked_until now

unfoldable pub forget_stale : ℕ → Counters → Counters
forget_stale now m = filter_by (λ e. not (is_stale now e.1)) m

-- What `check` finds for one key: the seconds to wait, 0 for none.
unfoldable pub wait_for : ℕ → Option Counter → ℕ
wait_for now none = 0
wait_for now (some c) = if ltb now c.locked_until then c.locked_until - now + 1 else 0

-- `check`: the seconds that `LoginLocked` carries, 0 where it does not raise.
unfoldable pub check : Str → Str → ℕ → Counters → ℕ × Counters
check address device now m =
    let kept = forget_stale now m in
    (
      max (wait_for now (counter_of (pair_key address device) kept))
          (wait_for now (counter_of (addr address) kept)),
      kept,
    )

-- `min(BASE_LOCKOUT_SECONDS * (2 ** over), MAX_LOCKOUT_SECONDS)`
unfoldable pub penalty : ℕ → ℕ
penalty over = min (base_lockout_seconds * 2 ^ over) max_lockout_seconds

abbrev pub or_new : Option Counter → Counter
or_new none = record { failures = 0; locked_until = 0; last_touched = 0 }
or_new (some c) = c

-- One round of the loop of `record_failure`.
unfoldable pub failed_once : Key → ℕ → Counter → Counter
failed_once k now c =
    let failures = c.failures + 1 in
    record {
      failures = failures;
      locked_until =
          if leb (threshold k) failures
          then now + penalty (failures - threshold k)
          else c.locked_until;
      last_touched = now;
    }

unfoldable pub count_failure : Key → ℕ → Counters → Counters
count_failure k now m = put_counter k (failed_once k now (or_new (counter_of k m))) m

-- `record_failure`
unfoldable pub record_failure : Str → Str → ℕ → Counters → Counters
record_failure address device now m =
    count_failure (addr address) now (count_failure (pair_key address device) now m)

-- `record_success`
unfoldable pub record_success : Str → Str → Counters → Counters
record_success address device m = pop_counter (pair_key address device) m

-- The derivations that run (`_semaphore`), those that wait for it, and the two limits.
pub record Slots : Type 0 where
  pub concurrency : ℕ
  pub queue : ℕ
  pub running : ℕ
  pub waiting : ℕ

pub data Entered : Type 0 where
  busy waits : Entered

-- `__aenter__` up to the semaphore: refused, or in the queue.
unfoldable pub enter : Slots → Entered × Slots
enter s = if leb s.queue s.waiting then (busy, s) else (waits, record s { waiting = s.waiting + 1 })

-- The semaphore lets one of those that wait go on.
unfoldable pub admit : Slots → Option Slots
admit s =
    if ltb s.running s.concurrency && ltb 0 s.waiting
    then some (record s { running = s.running + 1; waiting = s.waiting - 1 })
    else none

-- One that waits is cancelled: the `finally` of `__aenter__`.
unfoldable pub give_up : Slots → Option Slots
give_up s = if ltb 0 s.waiting then some (record s { waiting = s.waiting - 1 }) else none

-- `__aexit__`
unfoldable pub leave : Slots → Option Slots
leave s = if ltb 0 s.running then some (record s { running = s.running - 1 }) else none
