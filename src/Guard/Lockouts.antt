-- ===== src/Guard/Lockouts.antt =====
-- Lockouts (src/webauth.py): who is refused, for how long, and who is not.
use discord_sftp_drive.Base.{
  ℕ, zero, suc, ◌+◌, ◌-◌, ◌^◌, ◌≤◌, ◌<◌, ◌≡◌, ◌≢◌, refl, ◌∙◌, Str, str_eq, str_eq_iff, str_eq_refl,
  true, false, ◌⊎◌, some, List, [], ◌∷◌, arith, length, leb, Bool-cases, inl, inr, if◌then◌else◌,
}
use discord_sftp_drive.Guard.{
  Key, pair, addr, key_eq, Counter, Counters, counter_of, put_counter, pop_counter, is_stale,
  forget_stale, wait_for, check, penalty, or_new, failed_once, count_failure, record_failure,
  record_success, pair_key, threshold, device_or_dash, base_lockout_seconds, max_lockout_seconds,
}

key_eq_iff : (j k : Key) → key_eq j k ≡ true → j ≡ k
unfolding key_eq
key_eq_iff (pair a d) (pair b e) h = ground (arith, str_eq_iff a b, str_eq_iff d e)
key_eq_iff (pair a d) (addr b) h = cc
key_eq_iff (addr a) (pair b e) h = cc
key_eq_iff (addr a) (addr b) h = ground (arith, str_eq_iff a b)

key_eq_refl : (k : Key) → key_eq k k ≡ true
unfolding key_eq
key_eq_refl (pair a d) = rw (str_eq_refl a, str_eq_refl d) refl
key_eq_refl (addr a) = str_eq_refl a

counter_of-put :
    (k j : Key) (c : Counter) (m : Counters)
    → counter_of j (put_counter k c m) ≡ (if key_eq k j then some c else counter_of j m)
unfolding counter_of put_counter
counter_of-put k j c [] = refl
counter_of-put k j c ((i, d) ∷ m) = elim (Bool-cases (key_eq i k)) [
  | inl here ↦ let same = key_eq_iff i k here in rw here (rw (← same) (ground arith))
  | inr there ↦ elim (Bool-cases (key_eq i j)) [
    | inl hit ↦
        let same = key_eq_iff i j hit in
        let other : key_eq k j ≡ false = elim (Bool-cases (key_eq k j)) [
          | inl bad ↦ cc (key_eq_iff k j bad, same, there, key_eq_refl k)
          | inr good ↦ good
        ] in
        rw (there, hit, other) refl
    | inr miss ↦ rw (there, miss, counter_of-put k j c m) refl
  ]
]

counter_of-forget :
    (k : Key) (now : ℕ) (c : Counter) (m : Counters)
    → counter_of k m ≡ some c
    → is_stale now c ≡ false
    → counter_of k (forget_stale now m) ≡ some c
unfolding counter_of forget_stale
counter_of-forget k now c [] h fresh = h
counter_of-forget k now c ((j, d) ∷ m) h fresh = elim (Bool-cases (key_eq j k)) [
  | inl here ↦ let same : d ≡ c = ground arith in rw (same, fresh) (rw here refl)
  | inr there ↦ elim (Bool-cases (is_stale now d)) [
    | inl old ↦ rw old (counter_of-forget k now c m (ground arith) fresh)
    | inr kept ↦ rw (kept, there) (counter_of-forget k now c m (ground arith) fresh)
  ]
]

-- One key's counter does not depend on the others, whatever is forgotten.
forget-put_other :
    (j k : Key) (now : ℕ) (c : Counter) (m : Counters)
    → key_eq k j ≡ false
    → counter_of j (forget_stale now (put_counter k c m)) ≡ counter_of j (forget_stale now m)
unfolding counter_of forget_stale put_counter
forget-put_other j k now c [] other = elim (Bool-cases (is_stale now c)) [
  | inl old ↦ rw old refl
  | inr kept ↦ rw (kept, other) refl
]
forget-put_other j k now c ((i, d) ∷ m) other = elim (Bool-cases (key_eq i k)) [
  | inl here ↦ let same = key_eq_iff i k here in rw (here, same) (ground arith)
  | inr there ↦ elim (Bool-cases (is_stale now d)) [
    | inl old ↦ rw (there, old) (forget-put_other j k now c m other)
    | inr kept ↦ rw (there, kept, forget-put_other j k now c m other) refl
  ]
]

pow-pos : (n : ℕ) → 0 < 2 ^ n
pow-pos zero = omega arith
pow-pos (suc n) = omega (arith, pow-pos n)

-- A lockout lasts at least half a minute and at most a quarter of an hour, however many failures.
penalty-bounds :
    (over : ℕ) → (base_lockout_seconds ≤ penalty over) × (penalty over ≤ max_lockout_seconds)
unfolding penalty
penalty-bounds over = (omega (arith, pow-pos over), omega arith)

-- Failures from one address, on a list of devices, all at one time.
unfoldable pub fail_all : Str → ℕ → List Str → Counters → Counters
fail_all address now [] m = m
fail_all address now (d ∷ ds) m = fail_all address now ds (record_failure address d now m)

record_failure-addr :
    (a d : Str) (now : ℕ) (m : Counters)
    → counter_of (addr a) (record_failure a d now m)
      ≡ some (failed_once (addr a) now (or_new (counter_of (addr a) m)))
unfolding record_failure count_failure pair_key key_eq
record_failure-addr a d now m =
    rw
      (
        counter_of-put (addr a) (addr a),
        str_eq_refl a,
        counter_of-put (pair a (device_or_dash d)) (addr a),
      )
      refl

record Marked (a : Str) (now n : ℕ) (m : Counters) : Type 0 where
  counter : Counter
  found : counter_of (addr a) m ≡ some counter
  counted : n ≤ counter.failures
  touched : counter.last_touched ≡ now
  locked : (leb 20 counter.failures ≡ false) ⊎ (now < counter.locked_until)

Marked-failed :
    (a d : Str) (now n : ℕ) (m : Counters)
    → n ≤ (or_new (counter_of (addr a) m)).failures
    → Marked a now (suc n) (record_failure a d now m)
unfolding failed_once threshold
Marked-failed a d now n m le =
    let c = failed_once (addr a) now (or_new (counter_of (addr a) m)) in
    record {
      counter = c;
      found = record_failure-addr a d now m;
      counted = omega arith;
      touched = refl;
      locked = elim (Bool-cases (leb 20 c.failures)) [
        | inr under ↦ inl under
        | inl over ↦ inr (rw over (omega (arith, (penalty-bounds (c.failures - 20)).0)))
      ];
    }

Marked-all :
    (a : Str) (now n : ℕ) (ds : List Str) (m : Counters)
    → Marked a now n m
    → Marked a now (n + length ds) (fail_all a now ds m)
unfolding fail_all
Marked-all a now n [] m h = let e : n + 0 ≡ n = omega arith in rw e h
Marked-all a now n (d ∷ ds) m h =
    let e : n + suc (length ds) ≡ suc n + length ds = omega arith in
    rw e (
      Marked-all a now (suc n) ds (record_failure a d now m)
        (Marked-failed a d now n m (rw h.found h.counted)))

Marked-check :
    (a e : Str) (now n : ℕ) (m : Counters) → 20 ≤ n → Marked a now n m → 0 < (check a e now m).0
unfolding check wait_for is_stale
Marked-check a e now n m many h =
    let fresh : is_stale now h.counter ≡ false = ground (arith, h.touched) in
    let kept = counter_of-forget (addr a) now h.counter m h.found fresh in
    elim h.locked [
      | inl under ↦ absurd (ground (arith, h.counted))
      | inr locked ↦ rw kept (ground arith)
    ]

-- After at least twenty failures from one address, all at one time and from any devices, `check`
-- refuses the address at that time, whatever device it claims to be.
pub address-locked :
    (a e : Str) (now : ℕ) (ds : List Str) (m : Counters)
    → 20 ≤ length ds
    → 0 < (check a e now (fail_all a now ds m)).0
unfolding fail_all
address-locked a e now [] m many = absurd (omega arith)
address-locked a e now (d ∷ ds) m many =
    Marked-check a e now (1 + length ds) (fail_all a now ds (record_failure a d now m))
      (omega arith)
      (Marked-all a now 1 ds (record_failure a d now m) (Marked-failed a d now 0 m (omega arith)))

forget-pop_addr :
    (a : Str) (k : Key) (m : Counters)
    → key_eq (addr a) k ≡ false
    → counter_of (addr a) (pop_counter k m) ≡ counter_of (addr a) m
unfolding counter_of pop_counter
forget-pop_addr a k [] other = refl
forget-pop_addr a k ((j, d) ∷ m) other = elim (Bool-cases (key_eq j k)) [
  | inl gone ↦ elim (Bool-cases (key_eq j (addr a))) [
    | inl bad ↦ let same = key_eq_iff j (addr a) bad in cc (same, gone, other)
    | inr miss ↦ rw (gone, miss) (forget-pop_addr a k m other)
  ]
  | inr kept ↦ rw (kept, forget-pop_addr a k m other) refl
]

-- While an address is locked, a success from one of its devices does not open it: `check` still
-- refuses every device of it.
pub success-locked :
    (a d e : Str) (now : ℕ) (c : Counter) (m : Counters)
    → counter_of (addr a) m ≡ some c
    → now < c.locked_until
    → 0 < (check a e now (record_success a d m)).0
unfolding check record_success wait_for is_stale pair_key key_eq
success-locked a d e now c m found locked =
    let k = pair a (device_or_dash d) in
    let fresh : is_stale now c ≡ false = ground arith in
    let still = forget-pop_addr a k m refl ∙ found in
    let kept = counter_of-forget (addr a) now c (pop_counter k m) still fresh in
    rw kept (ground arith)

-- A failure from one address does not change what `check` answers to any device of another.
pub failure-elsewhere :
    (a b d e : Str) (t now : ℕ) (m : Counters)
    → a ≢ b
    → (check b e now (record_failure a d t m)).0 ≡ (check b e now m).0
unfolding check record_failure count_failure pair_key key_eq
failure-elsewhere a b d e t now m ne =
    let other : str_eq a b ≡ false = ground (arith, str_eq_iff a b) in
    rw
      (
        forget-put_other (pair b (device_or_dash e)) (addr a) now _ _ refl,
        forget-put_other (addr b) (addr a) now _ _ other,
        forget-put_other (pair b (device_or_dash e)) (pair a (device_or_dash d)) now _ _
            (rw other refl),
        forget-put_other (addr b) (pair a (device_or_dash d)) now _ _ refl,
      )
      refl
