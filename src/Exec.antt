-- ===== src/Exec.antt =====
-- Coroutines that change the world and may raise. What was written before a raise stays written,
-- so the state comes back beside the error too. `errors` names every exception the models raise.
use discord_sftp_drive.Base.{◌≡◌, refl, Bool, true, false, ◌⊎◌, inl, inr}

pub data Error : Type 0 where
  not_found not_a_directory is_a_directory already_exists not_empty unsupported : Error
  failed_state negative_size integrity lock_not_held : Error
  discord_error database_error duplicate_key : Error
  predates_tags : Error
  keystore_error key_unwrap_error value_error attribute_error config_error : Error

pub data Result {ℓ} (A : Type ℓ) : Type ℓ where
  ok : A → Result A
  raise : Error → Result A

abbrev pub Exec {ℓ} : Type ℓ → Type ℓ → Type ℓ
Exec S A = S → Result A × S

module _ {ℓ} {S A : Type ℓ} where
  abbrev pub pure : A → Exec S A
  pure a s = (ok a, s)

  abbrev pub fail : Error → Exec S A
  fail e s = (raise e, s)

  abbrev pub gets : (S → A) → Exec S A
  gets f s = (ok (f s), s)

  abbrev pub lift : Result A → Exec S A
  lift r s = (r, s)

module _ {ℓ} {S A B : Type ℓ} where
  abbrev pub continue : Result A → (A → Exec S B) → Exec S B
  continue (ok a) f s = f a s
  continue (raise e) f s = (raise e, s)

  infixl 10 ◌>>=◌ ◌>>◌
  abbrev pub ◌>>=◌ : Exec S A → (A → Exec S B) → Exec S B
  ◌>>=◌ m f s = let (r, s') = m s in continue r f s'

  abbrev pub ◌>>◌ : Exec S A → Exec S B → Exec S B
  m >> n = m >>= λ _. n

-- `try: m` with `except e: handler e`.
abbrev pub catch {ℓ} : {S A : Type ℓ} → Exec S A → (Error → Exec S A) → Exec S A
catch {S} {A} m handler s = let (r, s') = m s in go r s'
  where
    go : Result A → S → Result A × S
    go (ok a) t = (ok a, t)
    go (raise e) t = handler e t

abbrev pub modify {ℓ} : {S : Type ℓ} → (S → S) → Exec S (Unit {ℓ})
modify f s = (ok tt, f s)

abbrev pub when {ℓ} : {S : Type ℓ} → Bool → Exec S (Unit {ℓ}) → Exec S (Unit {ℓ})
when true m s = m s
when false m s = (ok tt, s)

-- `if bad: raise e`
abbrev pub refuse {ℓ} : {S : Type ℓ} → Bool → Error → Exec S (Unit {ℓ})
refuse true e s = (raise e, s)
refuse false e s = (ok tt, s)

pub Result-cases {ℓ} :
    {A : Type ℓ} (r : Result A) → ((a : A) × (r ≡ ok a)) ⊎ ((e : Error) × (r ≡ raise e))
Result-cases (ok a) = inl (a, refl)
Result-cases (raise e) = inr (e, refl)
