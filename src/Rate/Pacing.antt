-- ===== src/Rate/Pacing.antt =====
-- How requests are paced (src/ratelimit.py: `acquire`, `_delay`, `note_429`).
use discord_sftp_drive.Base.{
  ℕ, zero, suc, ◌+◌, ◌-◌, ◌≤◌, ◌<◌, ◌≡◌, refl, ap, lt→ltb, ◌⊎◌, Str, str_eq_refl, true, ◌&&◌,
  Option, none, some, List, [], ◌∷◌, arith, All, ltb, lookup, lookup-insert, pos, if◌then◌else◌,
  Bool-cases, Option-cases, inl, inr,
}
use discord_sftp_drive.Rate.{
  Bucket, Limiter, bucket_for, is_spent, one_less, bucket_delay, delay, spend_bucket, spend,
  try_acquire, note_429,
}

bucket_delay-wake :
    (now later : ℕ) (b : Option Bucket)
    → now + bucket_delay now b ≤ later
    → bucket_delay later b ≡ 0
unfolding bucket_delay
bucket_delay-wake now later none h = refl
bucket_delay-wake now later (some b) h = elim (Option-cases b.remaining) [
  | inl unknown ↦ rw (bucket_delay, unknown)
  | inr (n, known) ↦ elim (Bool-cases (is_spent n)) [
    | inr left ↦ rw (bucket_delay, known, left)
    | inl spent ↦ elim (Bool-cases (ltb later b.reset_at)) [
      | inr past ↦ rw (bucket_delay, known, spent, past)
      | inl early ↦
          let before : ltb now b.reset_at ≡ true = ground arith in
          let whole : bucket_delay now (some b) ≡ b.reset_at - now =
            rw (bucket_delay, known, spent, before) in
          absurd (ground arith)
    ]
  ]
]

-- A request that slept for the delay it was given, on a limiter that nobody changed in between,
-- goes through.
acquire-after_sleep :
    (route : Str) (now later : ℕ) (l : Limiter)
    → now + delay route now l ≤ later
    → (try_acquire route later l).0 ≡ none
unfolding try_acquire delay
acquire-after_sleep route now later l h =
    let global : l.global_until - later ≡ 0 = omega arith in
    rw (try_acquire, global, bucket_delay-wake now later (bucket_for route l) (omega arith)) refl

-- Before a global limit that was noted is over, a request on any route is told to wait.
global-stops :
    (route : Str) (noted now retry_after : ℕ) (l : Limiter)
    → now < noted + retry_after
    → (try_acquire route now (note_429 true retry_after noted l)).0
      ≡ some (delay route now (note_429 true retry_after noted l))
unfolding try_acquire delay note_429
global-stops route noted now retry_after l h = ground arith

-- How many of a route's requests at these times went through.
unfoldable pub grants : Str → List ℕ → Limiter → ℕ × Limiter
grants route [] l = (0, l)
grants route (now ∷ times) l =
    let (answer, l') = try_acquire route now l in
    let (n, last) = grants route times l' in
    elim answer [ none ↦ (suc n, last) | some _ ↦ (n, last) ]

-- A route whose bucket has `n` requests left until `reset`.
pub record Window (route : Str) (n reset : ℕ) (l : Limiter) : Type 0 where
  pub id : Str
  pub bucket : Bucket
  pub routed : lookup route l.routes ≡ some id
  pub known : lookup id l.buckets ≡ some bucket
  pub left : bucket.remaining ≡ some (pos n)
  pub resets : bucket.reset_at ≡ reset

Window-delay :
    (route : Str) (n reset now : ℕ) (l : Limiter) (w : Window route n reset l)
    → bucket_delay now (bucket_for route l)
      ≡ (if is_spent (pos n) && ltb now reset then reset - now else 0)
unfolding bucket_for bucket_delay
Window-delay route n reset now l w =
    rw (bucket_for, w.routed, w.known, bucket_delay, w.left, w.resets) refl

Window-spend :
    (route : Str) (n reset : ℕ) (l : Limiter)
    → Window route (suc n) reset l
    → Window route n reset (spend route l)
unfolding spend spend_bucket one_less
Window-spend route n reset l w =
    rw (spend, w.routed, w.known)
      (record {
        id = w.id;
        bucket = spend_bucket w.bucket;
        routed = w.routed;
        known = rw (lookup-insert, str_eq_refl) refl;
        left = rw w.left refl;
        resets = w.resets;
      })

try_acquire-cases :
    (route : Str) (now : ℕ) (l : Limiter)
    → ((delay route now l ≡ 0) × (try_acquire route now l ≡ (none, spend route l)))
      ⊎ ((d : ℕ) × (delay route now l ≡ d) × (try_acquire route now l ≡ (some d, l)))
unfolding try_acquire
try_acquire-cases route now l = go (delay route now l) refl
  where
    go :
        (d : ℕ)
        → delay route now l ≡ d
        → ((delay route now l ≡ 0) × (try_acquire route now l ≡ (none, spend route l)))
          ⊎ ((d : ℕ) × (delay route now l ≡ d) × (try_acquire route now l ≡ (some d, l)))
    go zero e = inl (e, rw (try_acquire, e) refl)
    go (suc d) e = inr (suc d, e, rw (try_acquire, e) refl)

-- An `acquire` that nobody disturbs sleeps at most once: its second round goes through.
acquire-sleeps_once :
    (route : Str) (now d : ℕ) (l : Limiter)
    → (try_acquire route now l).0 ≡ some d
    → (try_acquire route (now + d) (try_acquire route now l).1).0 ≡ none
acquire-sleeps_once route now d l h = elim (try_acquire-cases route now l) [
  | inl (_, through) ↦ absurd (cc (h, ap (λ r. r.0) through))
  | inr (d', told, waits) ↦
      let same : d' ≡ d = cc (h, ap (λ r. r.0) waits) in
      rw (waits) (acquire-after_sleep route now (now + d) l (omega (arith, told, same)))
]

grants_through :
    (route : Str) (now : ℕ) (times : List ℕ) (l : Limiter)
    → try_acquire route now l ≡ (none, spend route l)
    → (grants route (now ∷ times) l).0 ≡ suc (grants route times (spend route l)).0
unfolding grants
grants_through route now times l e =
    rw (grants, e) (ap (λ m. suc (grants route times m).0) (ap (λ r. r.1) e))

grants_waits :
    (route : Str) (now d : ℕ) (times : List ℕ) (l : Limiter)
    → try_acquire route now l ≡ (some d, l)
    → (grants route (now ∷ times) l).0 ≡ (grants route times l).0
unfolding grants
grants_waits route now d times l e =
    rw (grants, e) (ap (λ m. (grants route times m).0) (ap (λ r. r.1) e))

-- On a route whose bucket has `n` requests left, of requests at any times before the reset no more
-- than `n` go through.
pub grants-bounded :
    (route : Str) (n reset : ℕ) (times : List ℕ) (l : Limiter)
    → Window route n reset l
    → All (λ t. t < reset) times
    → (grants route times l).0 ≤ n
unfolding grants delay is_spent
grants-bounded route n reset [] l w h = omega arith
grants-bounded route zero reset (now ∷ times) l w h = elim (try_acquire-cases route now l) [
  | inr (d, _, waits) ↦
      rw (grants_waits route now d times l waits) (grants-bounded route zero reset times l w h.1)
  | inl (free, through) ↦
      let blocked : bucket_delay now (bucket_for route l) ≡ reset - now =
        rw (Window-delay route zero reset now l w, lt→ltb now reset h.0) refl in
      absurd (omega (arith, h.0))
]
grants-bounded route (suc n) reset (now ∷ times) l w h = elim (try_acquire-cases route now l) [
  | inr (d, _, waits) ↦
      rw (grants_waits route now d times l waits) (grants-bounded route (suc n) reset times l w h.1)
  | inl (free, through) ↦ rw (grants_through route now times l through) (
      omega (
        arith,
        grants-bounded route n reset times (spend route l) (Window-spend route n reset l w) h.1,
      ))
]
