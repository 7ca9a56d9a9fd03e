-- ===== src/Rate.antt =====
-- Discord's rate limits (src/ratelimit.py): `RateLimiter`. Times are whole ticks of the monotonic
-- clock; a limiter's lock makes each round of `acquire` one step.
pub mod Pacing
use discord_sftp_drive.Base.{
  ℕ, zero, suc, ◌+◌, ◌-◌, Str, str_eq, Bool, true, false, not, ◌&&◌, ◌||◌, Option, none, some, List,
  [], ◌∷◌, ◌++◌, ltb, if◌then◌else◌, max, lookup, insert, ℤ, pos, negsuc, split_on, intercalate,
  or_else,
}

abbrev channels : Str
channels = b'c' ∷ b'h' ∷ b'a' ∷ b'n' ∷ b'n' ∷ b'e' ∷ b'l' ∷ b's' ∷ []

abbrev guilds : Str
guilds = b'g' ∷ b'u' ∷ b'i' ∷ b'l' ∷ b'd' ∷ b's' ∷ []

abbrev webhooks : Str
webhooks = b'w' ∷ b'e' ∷ b'b' ∷ b'h' ∷ b'o' ∷ b'o' ∷ b'k' ∷ b's' ∷ []

-- `part in _MAJOR_PARENTS`
unfoldable pub is_major_parent : Str → Bool
is_major_parent part = str_eq part channels || (str_eq part guilds || str_eq part webhooks)

-- The loop of `route_key`; `is_digit` is `str.isdigit`, which turns on Unicode tables.
unfoldable pub collapse_ids : (Str → Bool) → Bool → List Str → List Str
collapse_ids is_digit keep_major [] = []
collapse_ids is_digit keep_major (part ∷ parts) =
    (if keep_major || not (is_digit part) then part else b'{' ∷ b'i' ∷ b'd' ∷ b'}' ∷ [])
    ∷ collapse_ids is_digit (is_major_parent part) parts

-- `route_key`
unfoldable pub route_key : (Str → Bool) → Str → Str → Str
route_key is_digit method endpoint =
    method
    ++ (b' ' ∷ intercalate (b'/' ∷ []) (collapse_ids is_digit false (split_on b'/' endpoint)))

-- `_Bucket`; `none` is "not learned yet".
pub record Bucket : Type 0 where
  pub remaining : Option ℤ
  pub reset_at : ℕ

pub record Limiter : Type 0 where
  pub buckets : List (Str × Bucket)
  pub routes : List (Str × Str)
  pub global_until : ℕ

-- `_bucket_for`
unfoldable pub bucket_for : Str → Limiter → Option Bucket
bucket_for route l = elim (lookup route l.routes) [ none ↦ none | some id ↦ lookup id l.buckets ]

-- `remaining <= 0`
unfoldable pub is_spent : ℤ → Bool
is_spent (pos zero) = true
is_spent (pos (suc n)) = false
is_spent (negsuc n) = true

-- `remaining - 1`
unfoldable pub one_less : ℤ → ℤ
one_less (pos zero) = negsuc 0
one_less (pos (suc n)) = pos n
one_less (negsuc n) = negsuc (suc n)

-- What a bucket makes a request wait for.
unfoldable pub bucket_delay : ℕ → Option Bucket → ℕ
bucket_delay now none = 0
bucket_delay now (some b) = elim b.remaining [
  | none ↦ 0
  | some n ↦ if is_spent n && ltb now b.reset_at then b.reset_at - now else 0
]

-- `_delay`
unfoldable pub delay : Str → ℕ → Limiter → ℕ
delay route now l = max (l.global_until - now) (bucket_delay now (bucket_for route l))

unfoldable pub spend_bucket : Bucket → Bucket
spend_bucket b = record b {
  remaining = elim b.remaining [ none ↦ none | some n ↦ some (one_less n) ];
}

-- `bucket.remaining -= 1`
unfoldable pub spend : Str → Limiter → Limiter
spend route l = elim (lookup route l.routes) [
  | none ↦ l
  | some id ↦ elim (lookup id l.buckets) [
    | none ↦ l
    | some b ↦ record l { buckets = insert id (spend_bucket b) l.buckets }
  ]
]

-- One round of `acquire`: whether it went through, or for how long it sleeps.
unfoldable pub try_acquire : Str → ℕ → Limiter → Option ℕ × Limiter
try_acquire route now l = elim (delay route now l) [
  | zero ↦ (none, spend route l)
  | suc d ↦ (some (suc d), l)
]

-- `acquire`, by a task that nobody disturbs: the sleeps, and the limiter behind them. The second
-- round goes through, since the first one's sleep was as long as it was told to be.
unfoldable pub acquire : Str → ℕ → Limiter → List ℕ × Limiter
acquire route now l =
    let (wait, l') = try_acquire route now l in
    elim wait [ none ↦ ([], l') | some d ↦ (d ∷ [], (try_acquire route (now + d) l').1) ]

-- The headers that `update` reads; a number that does not parse raises in between.
pub record Headers : Type 0 where
  pub bucket : Option Str
  pub remaining : Option (Option ℤ)
  pub reset_after : Option (Option ℕ)

unfoldable pub set_reset : Option (Option ℕ) → ℕ → Bucket → Bucket
set_reset none now b = b
set_reset (some none) now b = b
set_reset (some (some d)) now b = record b { reset_at = now + d }

unfoldable pub read_headers : Headers → ℕ → Bucket → Bucket
read_headers h now b = elim h.remaining [
  | none ↦ set_reset h.reset_after now b
  | some none ↦ b
  | some (some n) ↦ set_reset h.reset_after now (record b { remaining = some n })
]

-- `update`
unfoldable pub update : Str → Headers → ℕ → Limiter → Limiter
update route h now l = elim h.bucket [
  | none ↦ l
  | some id ↦
      let b : Bucket = or_else (lookup id l.buckets) (record { remaining = none; reset_at = 0 }) in
      record l {
        routes = insert route id l.routes;
        buckets = insert id (read_headers h now b) l.buckets;
      }
]

-- `note_429`: only a global limit is noted, since a route's own stands in its bucket.
unfoldable pub note_429 : Bool → ℕ → ℕ → Limiter → Limiter
note_429 is_global retry_after now l =
    if is_global then record l { global_until = max l.global_until (now + retry_after) } else l
