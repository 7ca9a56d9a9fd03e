-- ===== src/Config/Checked.antt =====
-- What an environment that passes the check is good for, and one that passes it and is not
-- (src/config.py: `check`, the settings functions).
use discord_sftp_drive.Base.{
  ℕ, zero, suc, ◌*◌, ◌≤◌, ◌≡◌, ◌≢◌, refl, sym, ◌∙◌, inl, inr, ◌⊎◌, str_eq, str_eq_refl, Bool-cases,
  Bool, false, some, List, [], ◌∷◌, ℤ, pos, negsuc, ltb, if◌then◌else◌, concat, All, get_elem?,
  arith, Option-cases,
}
use discord_sftp_drive.Config.Values.{
  Number, sftp_port, web_port, pbkdf2_iterations, argon2_time_cost, argon2_memory_kib,
  argon2_parallelism, web_session_idle_seconds, web_session_absolute_seconds, web_login_concurrency,
  web_login_queue, trash_retention_days, trash_sweep_seconds, trash_sweep_batch,
  incoming_max_age_hours, discord_max_concurrency, number, Problem, out_of_range, below_floor,
  Environment, kdf, kdf_name, argon2id_name, pbkdf2_name, by_pbkdf2, by_argon2id, default_value,
  floor, is_below, is_no_port, is_less, eight_times, idle_above_absolute, lanes_without_memory,
}
use discord_sftp_drive.Crypto.Wrap.{named_argon2id, named_pbkdf2_sha256}
use discord_sftp_drive.Config.Check.{
  check_number, check_port, check_floor, constant, effective, check_pair, check_lanes,
  check_windows, check_parts, check, setting, web_session_limits, password_hash_settings,
  kdf_settings, chosen_kdf, derivation, check_kdf,
}

pub concat-nil {ℓ} : {A : Type ℓ} (xss : List (List A)) → concat xss ≡ [] → All (λ xs. xs ≡ []) xss
concat-nil [] h = tt
concat-nil ([] ∷ xss) h = (refl, concat-nil xss h)
concat-nil ((x ∷ xs) ∷ xss) h = cc

All-at {ℓ κ} :
    {A : Type ℓ} (P : A → Type κ) (xs : List A) (i : ℕ) (x : A)
    → All P xs
    → get_elem? xs i ≡ some x
    → P x
All-at P [] i x all h = cc
All-at P (y ∷ ys) zero x all h = let same : y ≡ x = cc in rw (← same) all.0
All-at P (y ∷ ys) (suc i) x all h = All-at P ys i x all.1 h

floor-passes : (low : ℕ) (z : ℤ) → is_below low z ≡ false → (v : ℕ) × (z ≡ pos v) × (low ≤ v)
unfolding is_below
floor-passes low (pos v) h = (v, refl, ground arith)
floor-passes low (negsuc v) h = cc

port-passes : (z : ℤ) → is_no_port z ≡ false → (v : ℕ) × (z ≡ pos v) × (1 ≤ v) × (v ≤ 65535)
unfolding is_no_port
port-passes (pos v) h = (v, refl, ground arith, ground arith)
port-passes (negsuc v) h = cc

module _ (env : Environment) where
  -- No number is set to the empty text, nor is `KDF`.
  abbrev pub NoneEmpty : Type 0
  NoneEmpty = (n : Number) → env.get (number n) ≢ some []

  abbrev pub HasName : Type 0
  HasName = env.get kdf ≢ some []

  part_passes :
      (i : ℕ) (part : List Problem)
      → check env ≡ []
      → get_elem? (check_parts env) i ≡ some part
      → part ≡ []
  unfolding check
  part_passes i part h at =
      All-at (λ xs. xs ≡ []) (check_parts env) i part (concat-nil (check_parts env) h) at

  number_passes :
      (bad : ℤ → Bool) (n : Number) (problem : Problem)
      → env.get (number n) ≢ some []
      → bad (pos (default_value n)) ≡ false
      → check_number env bad n problem ≡ []
      → (z : ℤ) × (setting env n ≡ some z) × (bad z ≡ false)
  unfolding check_number setting constant
  number_passes bad n problem full good h = elim (Option-cases (env.get (number n))) [
    | inl unset ↦ (pos (default_value n), rw (setting, constant, unset) (env.int-default n), good)
    | inr ([], set) ↦ absurd (full set)
    | inr (c ∷ cs, set) ↦ elim (Option-cases (env.int (c ∷ cs))) [
      | inl bad' ↦ absurd (ground arith)
      | inr (z, parsed) ↦ (z, rw (setting, constant, set) parsed, ground arith)
    ]
  ]

  effective-setting : (n : Number) → env.get (number n) ≢ some [] → effective env n ≡ setting env n
  unfolding effective setting constant
  effective-setting n full = elim (Option-cases (env.get (number n))) [
    | inl unset ↦ rw (effective, setting, constant, unset) refl
    | inr ([], set) ↦ absurd (full set)
    | inr (c ∷ cs, set) ↦ rw (effective, setting, constant, set) refl
  ]

  floor_passes :
      (i : ℕ) (n : Number)
      → NoneEmpty
      → check env ≡ []
      → is_below (floor n) (pos (default_value n)) ≡ false
      → get_elem? (check_parts env) i ≡ some (check_floor env n)
      → (v : ℕ) × (setting env n ≡ some (pos v)) × (floor n ≤ v)
  unfolding check_floor
  floor_passes i n full h good at =
      let (z, set, fine) =
        number_passes (is_below (floor n)) n (below_floor n) (full n) good
          (part_passes i (check_floor env n) h at) in
      let (v, e, low) = floor-passes (floor n) z fine in (v, rw (← e) set, low)

  port_passes :
      (i : ℕ) (n : Number)
      → NoneEmpty
      → check env ≡ []
      → is_no_port (pos (default_value n)) ≡ false
      → get_elem? (check_parts env) i ≡ some (check_port env n)
      → (v : ℕ) × (setting env n ≡ some (pos v)) × (1 ≤ v) × (v ≤ 65535)
  unfolding check_port
  port_passes i n full h good at =
      let (z, set, fine) =
        number_passes is_no_port n (out_of_range n) (full n) good
          (part_passes i (check_port env n) h at) in
      let (v, e, low, high) = port-passes z fine in (v, rw (← e) set, low, high)

  -- Whichever number: it parses, and is not below its floor.
  setting_passes :
      (n : Number)
      → NoneEmpty
      → check env ≡ []
      → (v : ℕ) × (setting env n ≡ some (pos v)) × (floor n ≤ v)
  unfolding check_parts is_below is_no_port floor default_value
  setting_passes sftp_port full h =
      let (v, set, low, high) = port_passes 10 sftp_port full h refl refl in (v, set, low)
  setting_passes web_port full h =
      let (v, set, low, high) = port_passes 25 web_port full h refl refl in (v, set, low)
  setting_passes pbkdf2_iterations full h = floor_passes 12 pbkdf2_iterations full h refl refl
  setting_passes argon2_time_cost full h = floor_passes 13 argon2_time_cost full h refl refl
  setting_passes argon2_memory_kib full h = floor_passes 14 argon2_memory_kib full h refl refl
  setting_passes argon2_parallelism full h = floor_passes 15 argon2_parallelism full h refl refl
  setting_passes web_session_idle_seconds full h =
      floor_passes 17 web_session_idle_seconds full h refl refl
  setting_passes web_session_absolute_seconds full h =
      floor_passes 18 web_session_absolute_seconds full h refl refl
  setting_passes web_login_concurrency full h =
      floor_passes 19 web_login_concurrency full h refl refl
  setting_passes web_login_queue full h = floor_passes 20 web_login_queue full h refl refl
  setting_passes trash_retention_days full h = floor_passes 21 trash_retention_days full h refl refl
  setting_passes trash_sweep_seconds full h = floor_passes 22 trash_sweep_seconds full h refl refl
  setting_passes trash_sweep_batch full h = floor_passes 23 trash_sweep_batch full h refl refl
  setting_passes incoming_max_age_hours full h =
      floor_passes 24 incoming_max_age_hours full h refl refl
  setting_passes discord_max_concurrency full h =
      floor_passes 27 discord_max_concurrency full h refl refl

  abbrev pub IsPort : Number → Type 0
  IsPort n = (v : ℕ) × (setting env n ≡ some (pos v)) × (1 ≤ v) × (v ≤ 65535)

  -- The two windows of a session: the idle one can be reached, and is not zero.
  abbrev pub HasWindows : Type 0
  HasWindows =
      (idle : ℕ) × (absolute : ℕ) × (web_session_limits env ≡ some (pos idle, pos absolute))
      × (1 ≤ idle)
      × (idle ≤ absolute)

  -- The costs of Argon2id: 8 KiB or more for each of at least one lane.
  abbrev pub HasCosts : Type 0
  HasCosts =
      (time_cost : ℕ) × (memory : ℕ) × (lanes : ℕ) × (password_hash_settings env
        ≡ some (pos time_cost, pos memory, pos lanes))
      × (1 ≤ time_cost)
      × (1 ≤ lanes)
      × (8 * lanes ≤ memory)

  -- A derivation that is supported, at costs that are not zero.
  abbrev pub HasDerivation : Type 0
  HasDerivation =
      ((iterations : ℕ) × (kdf_settings env ≡ some (by_pbkdf2 (pos iterations))) × (1 ≤ iterations))
      ⊎ ((time_cost : ℕ) × (memory : ℕ) × (lanes : ℕ) × (kdf_settings env
            ≡ some (by_argon2id (pos time_cost) (pos memory) (pos lanes)))
          × (1 ≤ time_cost)
          × (1 ≤ lanes)
          × (8 * lanes ≤ memory))

  -- The name is one of the two.
  check-kdf_name :
      HasName
      → check env ≡ []
      → (kdf_name (chosen_kdf env) ≡ named_argon2id)
        ⊎ (kdf_name (chosen_kdf env) ≡ named_pbkdf2_sha256)
  unfolding check_parts check_kdf kdf_name chosen_kdf
  check-kdf_name named h =
      let part : check_kdf env ≡ [] = part_passes 11 (check_kdf env) h refl in
      elim (Option-cases (env.get kdf)) [
        | inl unset ↦ inl (rw (chosen_kdf, unset, str_eq_refl) refl)
        | inr ([], set) ↦ absurd (named set)
        | inr (c ∷ cs, set) ↦ elim (Bool-cases (str_eq (c ∷ cs) argon2id_name)) [
          | inl first ↦ inl (rw (chosen_kdf, set, first) refl)
          | inr other ↦ elim (Bool-cases (str_eq (c ∷ cs) pbkdf2_name)) [
            | inl second ↦ inr (rw (chosen_kdf, set, other, second) refl)
            | inr neither ↦ cc (rw (check_kdf, set, other, neither) at part)
          ]
        ]
      ]

  check-HasWindows : NoneEmpty → check env ≡ [] → HasWindows
  unfolding web_session_limits floor check_parts check_windows check_pair is_less
  check-HasWindows full h =
      let (idle, set, low) = setting_passes web_session_idle_seconds full h in
      let (absolute, set', low') = setting_passes web_session_absolute_seconds full h in
      let e = effective-setting web_session_idle_seconds (full web_session_idle_seconds) in
      let e' = effective-setting web_session_absolute_seconds (full web_session_absolute_seconds) in
      let part : check_windows env ≡ [] = part_passes 26 (check_windows env) h refl in
      let less : (if ltb absolute idle then idle_above_absolute ∷ [] else []) ≡ [] =
        sym (rw (check_windows, e ∙ set, e' ∙ set') refl) ∙ part in
      (idle, absolute, rw (web_session_limits, set, set') refl, low, ground arith)

  check-HasCosts : NoneEmpty → check env ≡ [] → HasCosts
  unfolding password_hash_settings floor check_parts check_lanes check_pair is_less eight_times
  check-HasCosts full h =
      let (time_cost, set, low) = setting_passes argon2_time_cost full h in
      let (memory, set', low') = setting_passes argon2_memory_kib full h in
      let (lanes, set'', low'') = setting_passes argon2_parallelism full h in
      let e' = effective-setting argon2_memory_kib (full argon2_memory_kib) in
      let e'' = effective-setting argon2_parallelism (full argon2_parallelism) in
      let part : check_lanes env ≡ [] = part_passes 16 (check_lanes env) h refl in
      let less : (if ltb memory (8 * lanes) then lanes_without_memory ∷ [] else []) ≡ [] =
        sym (rw (check_lanes, e'' ∙ set'', e' ∙ set') refl) ∙ part in
      (
        time_cost,
        memory,
        lanes,
        rw (password_hash_settings, set, set', set'') refl,
        low,
        low'',
        ground arith,
      )

  check-HasDerivation : NoneEmpty → HasName → check env ≡ [] → HasDerivation
  unfolding kdf_settings derivation floor
  check-HasDerivation full named h =
      let (iterations, set, low) = setting_passes pbkdf2_iterations full h in
      let (time_cost, memory, lanes, costs, t_low, l_low, enough) = check-HasCosts full h in
      elim (check-kdf_name named h) [
        | inl argon ↦ inr (
          time_cost,
          memory,
          lanes,
          rw (kdf_settings, set, costs, argon) refl,
          t_low,
          l_low,
          enough,
        )
        | inr pbkdf ↦ inl (iterations, rw (kdf_settings, set, costs, pbkdf) refl, low)
      ]

  -- In an environment in which `check` finds no problem, and which sets neither a number nor `KDF` to
  -- the empty text, each number parses and is at least its floor, both ports are between 1 and 65535,
  -- the session windows are not zero and the idle one fits into the absolute one, the costs of
  -- password hashes are not zero, with at least 8 KiB for each of at least one lane, and
  -- `kdf_settings` gives one of the two derivations, at costs for which the same holds.
  pub check-passes :
      (n : Number)
      → NoneEmpty
      → HasName
      → check env ≡ []
      → ((v : ℕ) × (setting env n ≡ some (pos v)) × (floor n ≤ v))
        × IsPort sftp_port
        × IsPort web_port
        × HasWindows
        × HasCosts
        × HasDerivation
  unfolding check_parts is_no_port default_value
  check-passes n full named h = (
    setting_passes n full h,
    port_passes 10 sftp_port full h refl refl,
    port_passes 25 web_port full h refl refl,
    check-HasWindows full h,
    check-HasCosts full h,
    check-HasDerivation full named h,
  )
