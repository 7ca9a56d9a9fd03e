-- ===== src/Accounts/Users/Cost.antt =====
-- What a login costs (src/users.py: `authenticate`): a name that does not exist takes as many
-- verifications as a wrong password does.
use discord_sftp_drive.Base.{
  ◌+◌, ◌≡◌, Str, Bool, true, false, some, List, [], ◌∷◌, arith, Bool-cases, Option-cases, inl, inr,
  All, is_empty,
}
use discord_sftp_drive.Accounts.Books.{User, Rig, Books}
use discord_sftp_drive.Accounts.Users.{
  find_user, named, run_verify, verify_hash, find, authenticate,
}

-- The row has a hash.
abbrev pub HasHash : User → Type 0
HasHash u = (stored : Str) × (u.password_hash ≡ some stored) × (is_empty stored ≡ false)

All-found :
    (p : User → Bool) (us : List User) (u : User)
    → All HasHash us
    → find_user p us ≡ some u
    → HasHash u
unfolding find_user
All-found p [] u all found = cc
All-found p (v ∷ us) u all found = elim (Bool-cases (p v)) [
  | inl here ↦
      let (stored, set, full) = all.0 in
      let same : v ≡ u = ground arith in (stored, ground arith, full)
  | inr past ↦ All-found p us u all.1 (ground arith)
]

-- Where every row has a hash and the store answers, `authenticate` runs exactly one verification of
-- a password, whether the name exists or not, the account is disabled or not, and the password is
-- right or wrong.
pub authenticate-cost :
    (rig : Rig) (username password : Str) (b : Books)
    → All HasHash b.users
    → rig.store_up b.calls ≡ true
    → (authenticate rig username password b).1.verifications ≡ b.verifications + 1
unfolding authenticate find verify_hash run_verify
authenticate-cost rig username password b all up =
    elim (Option-cases (find_user (named username) b.users)) [
      | inl absent ↦ ground arith
      | inr (user, found) ↦
          let (stored, set, full) = All-found (named username) b.users user all found in
          ground arith
    ]
