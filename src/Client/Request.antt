-- ===== src/Client/Request.antt =====
-- One request with its retries (src/discord_api.py: `_backoff`, `_request`, `download_chunk`,
-- `_probe`). What the network answers is a list of replies, one for each attempt. Times are
-- milliseconds.
use discord_sftp_drive.Base.{
  ℕ, zero, suc, ◌+◌, ◌*◌, ◌/◌, ◌^◌, ◌≤◌, Str, Bool, ◌||◌, Option, none, some, List, [], ◌∷◌, ◌++◌,
  ◌==◌, ltb, if◌then◌else◌, min,
}
use discord_sftp_drive.Rate.{Limiter, Headers, acquire, update, note_429}

-- `_MAX_ATTEMPTS`
abbrev pub max_attempts : ℕ
max_attempts = 5

abbrev backoff_base : ℕ
backoff_base = 500

abbrev backoff_cap : ℕ
backoff_cap = 8000

-- `response.ok`
unfoldable pub is_ok : ℕ → Bool
is_ok status = ltb status 400

-- `status in _RETRYABLE_STATUS`
unfoldable pub is_retryable : ℕ → Bool
is_retryable status = status == 500 || (status == 502 || (status == 503 || status == 504))

-- What is raised: a `DiscordAPIError`, or a `ClientError` in its stead, with the status if it has one;
-- or an exception of another class.
pub data Failure : Type 0 where
  api : Option ℕ → Failure
  crash : Failure

-- What one attempt meets: a response, by its status, its rate-limit headers, `X-RateLimit-Global`,
-- the `retry_after` of its body, and its body; a response whose body, where it is read, raises; or a
-- `ClientError`, with its `status` if it has one, or a timeout.
pub data Reply (B : Type 0) : Type 0 where
  response : ℕ → Headers → Bool → Option ℕ → B → Reply B
  garbled : ℕ → Headers → Failure → Reply B
  dropped : Option ℕ → Reply B

-- What an attempt comes to: a result, an error for the caller, or another attempt after a sleep.
pub data Verdict (B : Type 0) : Type 0 where
  returns : Option B → Verdict B
  raises : Failure → Verdict B
  retries : Failure → ℕ → Verdict B

pub data Answer (B : Type 0) : Type 0 where
  got : Option B → Answer B
  error : Failure → Answer B

-- `random.uniform`: a number between its arguments.
pub record Jitter : Type 0 where
  pub uniform : ℕ → ℕ → ℕ → ℕ
  pub uniform_above : (n lo hi : ℕ) → lo ≤ hi → lo ≤ uniform n lo hi
  pub uniform_below : (n lo hi : ℕ) → lo ≤ hi → uniform n lo hi ≤ hi

-- What the attempts of a request leave: the attempts, the sleeps between them and those in the
-- limiter's slot, last first, and the limiter.
pub record Wire : Type 0 where
  pub attempts : ℕ
  pub slept : List ℕ
  pub waited : List ℕ
  pub limiter : Limiter

-- `_backoff`; the n-th attempt of the process draws the n-th number.
unfoldable pub backoff : Jitter → ℕ → ℕ → ℕ
backoff jitter n attempt =
    let ceiling = min backoff_cap (backoff_base * 2 ^ attempt) in
    jitter.uniform n (ceiling / 2) ceiling

-- `getattr(last, "status", None)`
unfoldable pub give_up : Option Failure → Failure
give_up none = api none
give_up (some f) = f

-- `if attempt + 1 < _MAX_ATTEMPTS: await asyncio.sleep(…)`
unfoldable pub sleep_between : ℕ → ℕ → Wire → Wire
sleep_between zero d w = w
sleep_between (suc left) d w = record w { slept = d ∷ w.slept }

-- An attempt, behind the limiter's slot.
unfoldable pub note_attempt :
    (ℕ → Limiter → List ℕ × Limiter) → (ℕ → Limiter → Limiter) → Wire → Wire
note_attempt pass tell w =
    let (waits, l) = pass w.attempts w.limiter in
    record w { attempts = suc w.attempts; waited = waits ++ w.waited; limiter = tell w.attempts l }

-- `limiter.slot`: the wait of the n-th attempt, which reads the clock for the (2 n)-th time; the clock
-- is read once more when the response is there.
unfoldable pub enter_slot : (ℕ → ℕ) → Str → ℕ → Limiter → List ℕ × Limiter
enter_slot clock route n l = acquire route (clock (n + n)) l

-- `float(data.get("retry_after", 1.0))`
unfoldable pub retry_delay : Option ℕ → ℕ
retry_delay none = 1000
retry_delay (some d) = d

module _ {B : Type 0} (jitter : Jitter) where
  -- What is raised while the attempt is made: a `ClientError` or a timeout is tried again.
  unfoldable pub judge_raised : ℕ → ℕ → Failure → Verdict B
  judge_raised n attempt (api status) = retries (api status) (backoff jitter n attempt)
  judge_raised n attempt crash = raises crash

  -- An attempt of `_request`; the body of a 204 is not read.
  unfoldable pub judge : ℕ → ℕ → Reply B → Verdict B
  judge n attempt (dropped status) = judge_raised n attempt (api status)
  judge n attempt (garbled status h f) =
      if status == 204 then returns none else judge_raised n attempt f
  judge n attempt (response status h is_global retry_after body) =
      if status == 429
      then retries (api (some 429)) (retry_delay retry_after)
      else if is_retryable status
      then retries (api (some status)) (backoff jitter n attempt)
      else if is_ok status
      then (if status == 204 then returns none else returns (some body))
      else raises (api (some status))

  -- An attempt of `download_chunk`, which holds a 429 for an error of the caller.
  unfoldable pub judge_download : ℕ → ℕ → Reply B → Verdict B
  judge_download n attempt (dropped status) = judge_raised n attempt (api status)
  judge_download n attempt (garbled status h f) = judge_raised n attempt f
  judge_download n attempt (response status h is_global retry_after body) =
      if is_ok status
      then returns (some body)
      else if is_retryable status
      then retries (api (some status)) (backoff jitter n attempt)
      else raises (api (some status))

module _ {B : Type 0} where
  -- The loop of `_request` and of `download_chunk`, with as many attempts left. The network's reply
  -- to the n-th attempt of the process is `net n`.
  unfoldable pub attempt_loop :
      (ℕ → ℕ → Reply B → Verdict B)
      → (ℕ → Limiter → List ℕ × Limiter)
      → (Reply B → ℕ → Limiter → Limiter)
      → (ℕ → Reply B)
      → ℕ
      → ℕ
      → Option Failure
      → Wire
      → Answer B × Wire
  attempt_loop verdict pass tell net zero attempt last w = (error (give_up last), w)
  attempt_loop verdict pass tell net (suc left) attempt last w =
      let reply = net w.attempts in
      let w' = note_attempt pass (tell reply) w in
      elim (verdict w.attempts attempt reply) [
        | returns b ↦ (got b, w')
        | raises f ↦ (error f, w')
        | retries f d ↦
            attempt_loop verdict pass tell net left (attempt + 1) (some f) (sleep_between left d w')
      ]

  -- What the limiter learns from the headers of an attempt.
  unfoldable pub learn_headers : (ℕ → ℕ) → Str → Reply B → ℕ → Limiter → Limiter
  learn_headers clock route (dropped status) n l = l
  learn_headers clock route (garbled status h f) n l = update route h (clock (suc (n + n))) l
  learn_headers clock route (response status h is_global retry_after body) n l =
      update route h (clock (suc (n + n))) l

  -- What it learns from an attempt of `_request`: of a 429, its delay too.
  unfoldable pub learn : (ℕ → ℕ) → Str → Reply B → ℕ → Limiter → Limiter
  learn clock route (dropped status) n l = learn_headers clock route (dropped status) n l
  learn clock route (garbled status h f) n l = learn_headers clock route (garbled status h f) n l
  learn clock route (response status h is_global retry_after body) n l =
      let told = learn_headers clock route (response status h is_global retry_after body) n l in
      if status == 429
      then note_429 is_global (retry_delay retry_after) (clock (suc (n + n))) told
      else told

  -- `_request`, on its route
  unfoldable pub request : Jitter → (ℕ → ℕ) → (ℕ → Reply B) → Str → Wire → Answer B × Wire
  request jitter clock net route w =
      attempt_loop (judge jitter) (enter_slot clock route) (learn clock route) net max_attempts 0
        none w

  -- `download_chunk`, which no limiter paces
  unfoldable pub download_chunk : Jitter → (ℕ → Reply B) → Wire → Answer B × Wire
  download_chunk jitter net w =
      attempt_loop (judge_download jitter) (λ n l. ([], l)) (λ reply n l. l) net max_attempts 0 none
        w

  -- What `_probe` makes of a response whose body is no JSON: its text, which is left out here. Where
  -- the body cannot be read, the `ClientError` has no status, and goes to the caller.
  unfoldable pub probe_garbled : ℕ → Failure → Option (ℕ × Option B)
  probe_garbled status (api none) = if status == 204 then some (status, none) else none
  probe_garbled status (api (some s)) = some (status, none)
  probe_garbled status crash = some (status, none)

  -- `_probe`: one attempt, whose status is handed back; `none` is the transport's failure.
  unfoldable pub probe : (ℕ → ℕ) → (ℕ → Reply B) → Str → Wire → Option (ℕ × Option B) × Wire
  probe clock net route w =
      let reply = net w.attempts in
      let w' = note_attempt (enter_slot clock route) (learn_headers clock route reply) w in
      elim reply [
        | dropped status ↦ (none, w')
        | garbled status h f ↦ (probe_garbled status f, w')
        | response status h is_global retry_after body ↦
            (some (status, if status == 204 then none else some body), w')
      ]
