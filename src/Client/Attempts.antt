-- ===== src/Client/Attempts.antt =====
-- How a request ends (src/discord_api.py: `_request`, `download_chunk`): by the first reply, among the
-- next five, that another attempt would not change.
use mathlib.Core.Path.{subst}
use discord_sftp_drive.Base.{
  ℕ, zero, suc, ◌+◌, ◌<◌, ◌≤◌, not, ◌&&◌, List, [], length-append, ◌≡◌, refl, sym, ap, ◌⊎◌, inl,
  inr, Str, Bool, true, false, ◌||◌, Option, none, some, ◌==◌, if◌then◌else◌, length, arith,
}
use discord_sftp_drive.Rate.{Limiter, acquire}
use discord_sftp_drive.Client.Request.{
  max_attempts, is_ok, is_retryable, Reply, response, garbled, dropped, Failure, api, crash,
  Verdict, returns, raises, retries, Answer, got, error, Jitter, Wire, judge, judge_raised,
  judge_download, enter_slot, give_up, sleep_between, note_attempt, attempt_loop, learn, request,
  download_chunk,
}

-- An acquisition of the limiter's slot sleeps at most once.
acquire_once : (route : Str) (now : ℕ) (l : Limiter) → length (acquire route now l).0 ≤ 1
unfolding acquire
acquire_once route now l = ground arith

-- Whether an exception is one that is caught and tried again.
abbrev pub is_api : Failure → Bool
is_api (api status) = true
is_api crash = false

module _ {B : Type 0} where
  -- Whether another attempt may meet something else: for `_request`, and for `download_chunk`.
  abbrev pub is_transient : Reply B → Bool
  is_transient (dropped status) = true
  is_transient (garbled status h f) = not (status == 204) && is_api f
  is_transient (response status h is_global retry_after body) = status == 429 || is_retryable status

  abbrev pub is_transient_download : Reply B → Bool
  is_transient_download (dropped status) = true
  is_transient_download (garbled status h f) = is_api f
  is_transient_download (response status h is_global retry_after body) = is_retryable status

  -- What a reply means to the caller: for `_request`, and for `download_chunk`.
  abbrev pub meaning : Reply B → Answer B
  meaning (dropped status) = error (api status)
  meaning (garbled status h f) = if status == 204 then got none else error f
  meaning (response status h is_global retry_after body) =
      if is_ok status
      then got (if status == 204 then none else some body)
      else error (api (some status))

  abbrev pub meaning_download : Reply B → Answer B
  meaning_download (dropped status) = error (api status)
  meaning_download (garbled status h f) = error f
  meaning_download (response status h is_global retry_after body) =
      if is_ok status then got (some body) else error (api (some status))

  -- The `k` replies from the `n`-th on are transient.
  abbrev pub Transients : (Reply B → Bool) → (ℕ → Reply B) → ℕ → ℕ → Type 0
  Transients transient net n zero = Unit
  Transients transient net n (suc k) =
      (transient (net n) ≡ true) × Transients transient net (suc n) k

  -- The request took `k + 1` attempts of at most `left`, with a sleep between any two, and at most one
  -- wait in the limiter's slot for each; all replies
  -- but the last were transient; the last was not, unless it was the last attempt; and the answer is
  -- what the last one means.
  abbrev pub Concluded :
      (Reply B → Bool) → (Reply B → Answer B) → (ℕ → Reply B) → ℕ → Wire → Answer B → Wire → Type 0
  Concluded transient means net left w a w' =
      (k : ℕ) × (k < left)
      × (w'.attempts ≡ w.attempts + suc k)
      × (length w'.slept ≡ length w.slept + k)
      × (length w'.waited ≤ length w.waited + suc k)
      × Transients transient net w.attempts k
      × ((transient (net (w.attempts + k)) ≡ false) ⊎ (suc k ≡ left))
      × (a ≡ means (net (w.attempts + k)))

  abbrev Agrees : (Reply B → Bool) → (Reply B → Answer B) → Verdict B → Reply B → Type 0
  Agrees transient means (returns b) r = (transient r ≡ false) × (means r ≡ got b)
  Agrees transient means (raises f) r = (transient r ≡ false) × (means r ≡ error f)
  Agrees transient means (retries f d) r = (transient r ≡ true) × (means r ≡ error f)

  Verdict-cases :
      (v : Verdict B)
      → ((b : Option B) × (v ≡ returns b))
        ⊎ (((f : Failure) × (v ≡ raises f)) ⊎ ((f : Failure) × (d : ℕ) × (v ≡ retries f d)))
  Verdict-cases (returns b) = inl (b, refl)
  Verdict-cases (raises f) = inr (inl (f, refl))
  Verdict-cases (retries f d) = inr (inr (f, d, refl))

  judge-Agrees :
      (jitter : Jitter) (n attempt : ℕ) (r : Reply B)
      → Agrees is_transient meaning (judge jitter n attempt r) r
  unfolding judge judge_raised is_ok is_retryable
  judge-Agrees jitter n attempt (dropped status) = (refl, refl)
  judge-Agrees jitter n attempt (garbled status h (api s)) = ground arith
  judge-Agrees jitter n attempt (garbled status h crash) = ground arith
  judge-Agrees jitter n attempt (response status h g d body) = ground arith

  judge_download-Agrees :
      (jitter : Jitter) (n attempt : ℕ) (r : Reply B)
      → Agrees is_transient_download meaning_download (judge_download jitter n attempt r) r
  unfolding judge_download judge_raised is_ok is_retryable
  judge_download-Agrees jitter n attempt (dropped status) = (refl, refl)
  judge_download-Agrees jitter n attempt (garbled status h (api s)) = ground arith
  judge_download-Agrees jitter n attempt (garbled status h crash) = ground arith
  judge_download-Agrees jitter n attempt (response status h g d body) = ground arith

  module _ (transient : Reply B → Bool) (means : Reply B → Answer B)
      (verdict : ℕ → ℕ → Reply B → Verdict B)
      (agrees : (n attempt : ℕ) (r : Reply B) → Agrees transient means (verdict n attempt r) r)
      (pass : ℕ → Limiter → List ℕ × Limiter)
      (once : (n : ℕ) (l : Limiter) → length (pass n l).0 ≤ 1)
      (tell : Reply B → ℕ → Limiter → Limiter) (net : ℕ → Reply B) where
    -- The reply at hand ends the request.
    Concluded-here :
        (left : ℕ) (w w' : Wire) (a : Answer B)
        → w'.attempts ≡ suc w.attempts
        → w'.slept ≡ w.slept
        → length w'.waited ≤ suc (length w.waited)
        → (transient (net w.attempts) ≡ false) ⊎ (1 ≡ suc left)
        → means (net w.attempts) ≡ a
        → Concluded transient means net (suc left) w a w'
    Concluded-here left w w' a es sl wt end e =
        let same : w.attempts + 0 ≡ w.attempts = omega arith in
        (
          0,
          omega arith,
          omega arith,
          rw sl (omega arith),
          omega arith,
          tt,
          rw same end,
          rw same (sym e),
        )

    -- It asks for another attempt, which ends as said.
    Concluded-later :
        (left : ℕ) (w w1 w' : Wire) (a : Answer B)
        → w1.attempts ≡ suc w.attempts
        → length w1.slept ≡ suc (length w.slept)
        → length w1.waited ≤ suc (length w.waited)
        → transient (net w.attempts) ≡ true
        → Concluded transient means net left w1 a w'
        → Concluded transient means net (suc left) w a w'
    Concluded-later left w w1 w' a es sl wt again (k, lt, at, naps, waits, before, end, e) =
        let place : w1.attempts + k ≡ w.attempts + suc k = omega arith in
        let last : (transient (net (w.attempts + suc k)) ≡ false) ⊎ (suc k ≡ left) =
          rw (← place) end in
        (
          suc k,
          omega arith,
          omega arith,
          omega arith,
          omega arith,
          (again, rw (← es) before),
          elim last [ inl settled ↦ inl settled | inr out ↦ inr (ap suc out) ],
          rw (← place) e,
        )

    waits :
        (tells : ℕ → Limiter → Limiter) (w : Wire)
        → length (note_attempt pass tells w).waited ≤ suc (length w.waited)
    unfolding note_attempt
    waits tells w =
        omega
          (arith, length-append (pass w.attempts w.limiter).0 w.waited, once w.attempts w.limiter)

    agreed :
        (n attempt : ℕ) (v : Verdict B)
        → verdict n attempt (net n) ≡ v
        → Agrees transient means v (net n)
    agreed n attempt v e =
        subst (λ x. Agrees transient means x (net n)) e (agrees n attempt (net n))

    -- One round, from what holds if it asks for another attempt.
    round-Concluded :
        (left attempt : ℕ) (last : Option Failure) (w : Wire)
        → ((f : Failure) (d : ℕ)
            → verdict w.attempts attempt (net w.attempts) ≡ retries f d
            → (let w1 = sleep_between left d (note_attempt pass (tell (net w.attempts)) w) in
                let (a, w') = attempt_loop verdict pass tell net left (attempt + 1) (some f) w1 in
                Concluded transient means net (suc left) w a w'))
        → (let (a, w') = attempt_loop verdict pass tell net (suc left) attempt last w in
            Concluded transient means net (suc left) w a w')
    unfolding attempt_loop note_attempt
    round-Concluded left attempt last w later =
        let n = w.attempts in
        let w1 = note_attempt pass (tell (net n)) w in
        elim (Verdict-cases (verdict n attempt (net n))) [
          | inl (b, e) ↦
              let (settled, meant) = agreed n attempt (returns b) e in
              rw (attempt_loop, e)
                (Concluded-here left w w1 (got b) refl refl (waits (tell (net w.attempts)) w)
                  (inl settled) meant)
          | inr (inl (f, e)) ↦
              let (settled, meant) = agreed n attempt (raises f) e in
              rw (attempt_loop, e)
                (Concluded-here left w w1 (error f) refl refl (waits (tell (net w.attempts)) w)
                  (inl settled) meant)
          | inr (inr (f, d, e)) ↦ rw (attempt_loop, e) (later f d e)
        ]

    pub attempt_loop-Concluded :
        (left attempt : ℕ) (last : Option Failure) (w : Wire)
        → (let (a, w') = attempt_loop verdict pass tell net (suc left) attempt last w in
            Concluded transient means net (suc left) w a w')
    unfolding attempt_loop note_attempt sleep_between give_up
    attempt_loop-Concluded zero attempt last w = round-Concluded 0 attempt last w λ f d e.
        let (again, meant) = agreed w.attempts attempt (retries f d) e in
        Concluded-here 0 w (note_attempt pass (tell (net w.attempts)) w) (error f) refl refl
          (waits (tell (net w.attempts)) w) (inr refl) meant
    attempt_loop-Concluded (suc left) attempt last w =
        round-Concluded (suc left) attempt last w λ f d e.
          let (again, meant) = agreed w.attempts attempt (retries f d) e in
          let w1 = sleep_between (suc left) d (note_attempt pass (tell (net w.attempts)) w) in
          let (a, w') = attempt_loop verdict pass tell net (suc left) (attempt + 1) (some f) w1 in
          Concluded-later (suc left) w w1 w' a refl refl (waits (tell (net w.attempts)) w) again
            (attempt_loop-Concluded left (attempt + 1) (some f) w1)

  -- A request takes at most five attempts, with one backoff between any two of them; beside that, no
  -- attempt waits more than once in the limiter's slot, where no other task uses the limiter. All
  -- replies but the last were failures of the transport, in the body too, a 429, or one of the four
  -- server errors that are retried; so was the last only if it was the fifth. The answer is what the
  -- last reply means: its body below 400, nothing for a 204, and an error otherwise, with the status
  -- of the response or of the failure, if it has one.
  pub request-Concluded :
      (jitter : Jitter) (clock : ℕ → ℕ) (net : ℕ → Reply B) (route : Str) (w : Wire)
      → (let (a, w') = request jitter clock net route w in
          Concluded is_transient meaning net max_attempts w a w')
  unfolding request enter_slot
  request-Concluded jitter clock net route w =
      attempt_loop-Concluded is_transient meaning (judge jitter) (judge-Agrees jitter)
        (enter_slot clock route) (λ n l. acquire_once route (clock (n + n)) l) (learn clock route)
        net 4 0 none w

  -- So does a download, which does not retry a 429.
  pub download_chunk-Concluded :
      (jitter : Jitter) (net : ℕ → Reply B) (w : Wire)
      → (let (a, w') = download_chunk jitter net w in
          Concluded is_transient_download meaning_download net max_attempts w a w')
  unfolding download_chunk
  download_chunk-Concluded jitter net w =
      attempt_loop-Concluded is_transient_download meaning_download (judge_download jitter)
        (judge_download-Agrees jitter) (λ n l. ([], l)) (λ n l. omega arith) (λ reply n l. l) net 4
        0 none w
