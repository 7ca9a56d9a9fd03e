-- ===== src/Accounts/Users/Synced.antt =====
-- The account of the environment after `sync_env_user` (src/users.py).
use mathlib.Core.Path.{subst}
use discord_sftp_drive.Base.{
  ◌+◌, ◌≡◌, ◌≢◌, refl, ap, sym, ◌∙◌, Str, ℕ, str_eq, str_eq_iff, str_eq_refl, Bool, true, false,
  Option, none, some, List, [], ◌∷◌, ◌++◌, arith, Bool-cases, Option-cases, inl, inr, is_empty,
}
use discord_sftp_drive.Exec.{Result-cases, ok}
use discord_sftp_drive.Accounts.Books.{User, Rig, Books}
use discord_sftp_drive.Accounts.Users.{
  find_user, named, with_id, set_hash, succeeds, run_verify, verify_hash, find, insert_user,
  create_env_user, update_hash, sync_env_user,
}

-- The unique index on `id`: no later row has the id of an earlier one.
abbrev pub HasDistinctIds : List User → Type 0
HasDistinctIds [] = Unit
HasDistinctIds (u ∷ us) = (find_user (with_id u.id) us ≡ none) × HasDistinctIds us

is_empty-false : (s : Str) → ((s ≡ []) → ⊥) → is_empty s ≡ false
is_empty-false [] h = absurd (h refl)
is_empty-false (c ∷ cs) h = refl

find-append :
    (p : User → Bool) (us : List User) (u : User)
    → find_user p us ≡ none
    → p u ≡ true
    → find_user p (us ++ u ∷ []) ≡ some u
unfolding find_user
find-append p [] u absent yes' = rw yes'
find-append p (v ∷ us) u absent yes' = elim (Bool-cases (p v)) [
  | inl here ↦ absurd (ground arith)
  | inr past ↦ rw (find_user, past) (find-append p us u (ground arith) yes')
]

has_id_of_found :
    (p : User → Bool) (us : List User) (u : User)
    → find_user p us ≡ some u
    → find_user (with_id u.id) us ≢ none
unfolding find_user with_id
has_id_of_found p [] u found absent = cc
has_id_of_found p (v ∷ us) u found absent = elim (Bool-cases (p v)) [
  | inl here ↦ ground (arith, str_eq_refl u.id)
  | inr past ↦ ground (arith, has_id_of_found p us u)
]

find-set_hash :
    (username hash : Str) (us : List User) (u : User)
    → HasDistinctIds us
    → find_user (named username) us ≡ some u
    → find_user (named username) (set_hash u.id hash us)
      ≡ some (record u { password_hash = some hash })
unfolding find_user set_hash named with_id
find-set_hash username hash [] u distinct found = cc
find-set_hash username hash (v ∷ us) u distinct found =
    elim (Bool-cases (str_eq v.username username)) [
      | inl here ↦ ground (arith, str_eq_refl v.id)
      | inr past ↦
          let later : find_user (named username) us ≡ some u = ground arith in
          elim (Bool-cases (str_eq v.id u.id)) [
            | inl same ↦
                let e : v.id ≡ u.id = (str_eq_iff v.id u.id).0 same in
                absurd (
                  has_id_of_found (named username) us u later
                    (subst (λ i. find_user (with_id i) us ≡ none) e distinct.0))
            | inr apart ↦
                rw (set_hash, apart, find_user, past)
                  (find-set_hash username hash us u distinct.1 later)
          ]
    ]

module _ (rig : Rig) where
  -- The row has a hash that the password matches.
  abbrev pub Matches : Str → User → Type 0
  Matches password u =
      (stored : Str) × (u.password_hash ≡ some stored)
      × (is_empty stored ≡ false)
      × (succeeds (rig.verify stored password) ≡ true)

  hash-Matches :
      (password : Str) (n : ℕ) (u : User)
      → Matches password (record u { password_hash = some (rig.hash password n) })
  unfolding succeeds
  hash-Matches password n u = (
    rig.hash password n,
    refl,
    is_empty-false (rig.hash password n) (rig.hash-truthy password n),
    rw (rig.verify-hash password n) refl,
  )

  pub verify_hash-Matches :
      (u : User) (password : Str) (b : Books)
      → (verify_hash rig u.password_hash password b).0 ≡ ok true
      → Matches password u
  unfolding verify_hash run_verify
  verify_hash-Matches u password b h = elim (Option-cases u.password_hash) [
    | inl unset ↦ absurd (ground arith)
    | inr (stored, set) ↦ (stored, set, ground arith, ground arith)
  ]

  -- The name finds the row, and the row has a hash that the password matches.
  abbrev pub Ready : Str → Str → User → Books → Type 0
  Ready username password user b =
      (find_user (named username) b.users ≡ some user) × Matches password user

  create-ok :
      (username password root_id : Str) (b : Books) (user : User)
      → find_user (named username) b.users ≡ none
      → (create_env_user rig username password root_id b).0 ≡ ok user
      → Ready username password user (create_env_user rig username password root_id b).1
  unfolding create_env_user insert_user named
  create-ok username password root_id b user absent h =
      let new : User = record {
        id = rig.uuid b.draws;
        username = username;
        password_hash = some (rig.hash password b.draws);
        root_id = root_id;
        created_at = rig.clock b.draws;
        disabled = false;
      } in
      let e : user ≡ new = ground arith in
      let rows : (create_env_user rig username password root_id b).1.users ≡ b.users ++ new ∷ [] =
        ground arith in
      rw (e, rows)
        (
          find-append (named username) b.users new absent (str_eq_refl username),
          hash-Matches password b.draws new,
        )

  update-ok :
      (username password : Str) (b : Books) (old user : User)
      → HasDistinctIds b.users
      → find_user (named username) b.users ≡ some old
      → (update_hash rig old password b).0 ≡ ok user
      → Ready username password user (update_hash rig old password b).1
  unfolding update_hash
  update-ok username password b old user distinct found h =
      let hash = rig.hash password b.draws in
      let new : User = record old { password_hash = some hash } in
      let e : user ≡ new = ground arith in
      let rows : (update_hash rig old password b).1.users ≡ set_hash old.id hash b.users =
        ground arith in
      rw (e, rows)
        (find-set_hash username hash b.users old distinct found, hash-Matches password b.draws old)

  pub verify_hash_rows :
      (hash : Option Str) (password : Str) (b : Books)
      → (verify_hash rig hash password b).1.users ≡ b.users
  unfolding verify_hash run_verify
  verify_hash_rows hash password b = ground arith

  pub verify_hash_keys :
      (hash : Option Str) (password : Str) (b : Books)
      → (verify_hash rig hash password b).1.keystore ≡ b.keystore
  unfolding verify_hash run_verify
  verify_hash_keys hash password b = ground arith

  sync_old :
      (username password root_id : Str) (b : Books) (old user : User)
      → HasDistinctIds b.users
      → rig.store_up b.calls ≡ true
      → find_user (named username) b.users ≡ some old
      → (sync_env_user rig username password root_id b).0 ≡ ok user
      → Ready username password user (sync_env_user rig username password root_id b).1
  unfolding sync_env_user find
  sync_old username password root_id b old user distinct up found h =
      let b1 : Books = record b { calls = b.calls + 1 } in
      let b2 = (verify_hash rig old.password_hash password b1).1 in
      let rows : b2.users ≡ b.users = verify_hash_rows old.password_hash password b1 in
      let there : find_user (named username) b2.users ≡ some old = rw rows found in
      elim (Result-cases (verify_hash rig old.password_hash password b1).0) [
        | inr (e, bad) ↦ absurd (ground arith)
        | inl (true, right) ↦
            let e : sync_env_user rig username password root_id b ≡ (ok old, b2) =
              rw (sync_env_user, find, up, found, right) in
            let same : old ≡ user = ground arith in
            rw (e, ← same) (there, verify_hash-Matches old password b1 right)
        | inl (false, wrong) ↦
            let e : sync_env_user rig username password root_id b
                ≡ update_hash rig old password b2 =
              rw (sync_env_user, find, up, found, wrong) in
            rw e (
              update-ok username password b2 old user (subst HasDistinctIds (sym rows) distinct)
                there (sym (ap (λ x. x.0) e) ∙ h))
      ]

  pub sync_env_user-Ready :
      (username password root_id : Str) (b : Books) (user : User)
      → HasDistinctIds b.users
      → (sync_env_user rig username password root_id b).0 ≡ ok user
      → Ready username password user (sync_env_user rig username password root_id b).1
  unfolding sync_env_user find
  sync_env_user-Ready username password root_id b user distinct h =
      let b1 : Books = record b { calls = b.calls + 1 } in
      elim (Bool-cases (rig.store_up b.calls)) [
        | inr down ↦ absurd (ground arith)
        | inl up ↦ elim (Option-cases (find_user (named username) b.users)) [
          | inl absent ↦
              let e : sync_env_user rig username password root_id b
                  ≡ create_env_user rig username password root_id b1 =
                rw (sync_env_user, find, up, absent) in
              rw e (create-ok username password root_id b1 user absent (sym (ap (λ x. x.0) e) ∙ h))
          | inr (old, found) ↦ sync_old username password root_id b old user distinct up found h
        ]
      ]
