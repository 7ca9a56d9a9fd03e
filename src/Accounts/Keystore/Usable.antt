-- ===== src/Accounts/Keystore/Usable.antt =====
-- The check at startup (src/keystore.py: `ensure_usable`): whatever it meets, the key that opens an
-- account's files stays the one that its record opens to.
use discord_sftp_drive.Base.{
  ◌+◌, ◌≡◌, refl, ◌⊎◌, inl, inr, Str, str_eq, str_eq_refl, Bool, true, false, Option, none, some,
  arith, Bool-cases, Option-cases, lookup, lookup-insert, is_empty,
}
use discord_sftp_drive.Exec.{Result, Result-cases, ok, raise, Error}
use discord_sftp_drive.Seal.{Bytes}
use discord_sftp_drive.Crypto.Wrap.{Settings, Wrapped, unwrap_master_key}
use discord_sftp_drive.Accounts.Books.{Rig, Books}
use discord_sftp_drive.Accounts.Keystore.{
  load_record, rewrap, upgrade_kdf, as_keystore_error, given, first_record, change_password,
  ensure_usable, bootstrap, keep_or_upgrade, check_record,
}
use discord_sftp_drive.Accounts.Keystore.Safety.{
  Untouched, Opens, Written, bootstrap-raise, bootstrap-ok, rewrap-raise, rewrap-ok, upgrade-raise,
  upgrade-ok,
}

module _ (rig : Rig) (id password : Str) (old : Option Str) where
  -- The key that the server can get at: by the password, or else by the old one.
  abbrev pub reachable : Wrapped → Option Bytes
  reachable r = elim (unwrap_master_key rig.aes rig.kdf password r) [
    | some key ↦ some key
    | none ↦ elim (given rig old) [
      | none ↦ none
      | some old_password ↦ unwrap_master_key rig.aes rig.kdf old_password r
    ]
  ]

  -- There was no record at all, or the account had one whose key the server could get at.
  abbrev pub WasKey : Bytes → Books → Type 0
  WasKey key b =
      (is_empty b.keystore ≡ true)
      ⊎ ((r : Wrapped) × (lookup id b.keystore ≡ some r) × (reachable r ≡ some key))

  -- What the check leaves: all that is stored, on an error. On success a record that the password
  -- opens, to the key that the server could get at before, unless nothing was stored; the record of
  -- any other account `j`, and all rows.
  abbrev pub Secured : Str → Books → Result (Unit {0}) → Books → Type 0
  Secured j b (raise e) b' = Untouched b b'
  Secured j b (ok _) b' =
      (r : Wrapped) × (key : Bytes) × (lookup id b'.keystore ≡ some r)
      × Opens rig password r key
      × WasKey key b
      × (lookup j b'.keystore ≡ lookup j b.keystore)
      × (b'.users ≡ b.users)

  module _ (j : Str) (other : str_eq id j ≡ false) where
    Written-Secured :
        (key : Bytes) (b b' : Books) (u : Unit {0})
        → WasKey key b
        → Written rig id password key b b'
        → Secured j b (ok u) b'
    Written-Secured key b b' u was (r, opens, stored, rows) = (
      r,
      key,
      rw (stored, lookup-insert, str_eq_refl) refl,
      opens,
      was,
      rw (stored, lookup-insert, other) refl,
      rows,
    )

    kept-Secured :
        (r : Wrapped) (key : Bytes) (b b' : Books) (u : Unit {0})
        → lookup id b.keystore ≡ some r
        → Opens rig password r key
        → Untouched b b'
        → Secured j b (ok u) b'
    kept-Secured r key b b' u found opens (same, rows) = (
      r,
      key,
      rw same found,
      opens,
      inr (r, found, rw (reachable, opens) refl),
      rw same refl,
      rows,
    )

    -- From what a call leaves when it raises, and when it does not.
    Secured-intro :
        (b : Books) (x : Result (Unit {0}) × Books)
        → ((e : Error) → x.0 ≡ raise e → Untouched b x.1)
        → ((u : Unit {0}) → x.0 ≡ ok u → Secured j b (ok u) x.1)
        → Secured j b x.0 x.1
    Secured-intro b (ok u, b') bad good = good u refl
    Secured-intro b (raise e, b') bad good = bad e refl

    first_record-Secured :
        (s : Settings) (b : Books)
        → lookup id b.keystore ≡ none
        → Secured j b (first_record rig id password s b).0 (first_record rig id password s b).1
    unfolding first_record
    first_record-Secured s b absent = elim (Bool-cases (rig.store_up b.calls)) [
      | inr down ↦ rw (first_record, down) (refl, refl)
      | inl up ↦ elim (Bool-cases (is_empty b.keystore)) [
        | inr orphan ↦ rw (first_record, up, orphan) (refl, refl)
        | inl fresh ↦
            let b' : Books = record b { calls = b.calls + 1 } in
            rw (first_record, up, fresh)
              (Secured-intro b (bootstrap rig id password s b')
                (bootstrap-raise rig id password s b')
                (λ u h.
                  Written-Secured (rig.master_key b.draws) b (bootstrap rig id password s b').1 u
                    (inl fresh) (bootstrap-ok rig id password s b' u h)))
      ]
    ]

    change_password-Secured :
        (s : Settings) (b : Books) (r : Wrapped)
        → lookup id b.keystore ≡ some r
        → unwrap_master_key rig.aes rig.kdf password r ≡ none
        → Secured j b
            (change_password rig id password old s b).0
            (change_password rig id password old s b).1
    unfolding change_password as_keystore_error
    change_password-Secured s b r found shut = elim (Option-cases (given rig old)) [
      | inl unset ↦ rw (change_password, unset) (refl, refl)
      | inr (former, set) ↦ elim (Result-cases (rewrap rig id former password s b).0) [
        | inr (e, bad) ↦ ground (arith, rewrap-raise rig id former password s b e)
        | inl (u, good) ↦
            let (key, opens, written) = rewrap-ok rig id former password s b u r good found in
            rw (change_password, set, good)
              (Written-Secured key b (rewrap rig id former password s b).1 u
                (inr (r, found, rw (reachable, shut, set, opens) refl)) written)
      ]
    ]

    keep_or_upgrade-Secured :
        (s : Settings) (upgrade : Bool) (b : Books) (r : Wrapped) (key : Bytes)
        → lookup id b.keystore ≡ some r
        → Opens rig password r key
        → Secured j b
            (keep_or_upgrade rig id password s upgrade b).0
            (keep_or_upgrade rig id password s upgrade b).1
    unfolding keep_or_upgrade
    keep_or_upgrade-Secured s false b r key found opens =
        kept-Secured r key b b tt found opens (refl, refl)
    keep_or_upgrade-Secured s true b r key found opens =
        elim (Result-cases (upgrade_kdf rig id password s b).0) [
          | inr (e, bad) ↦ ground (arith, upgrade-raise rig id password s b e)
          | inl (u, good) ↦
              rw (keep_or_upgrade, good)
                (elim (upgrade-ok rig id password s b u r key good found opens) [
                  | inl same ↦
                      kept-Secured r key b (upgrade_kdf rig id password s b).1 tt found opens same
                  | inr written ↦
                      Written-Secured key b (upgrade_kdf rig id password s b).1 tt
                        (inr (r, found, rw (reachable, opens) refl)) written
                ])
        ]

    -- Whatever the check at startup meets: if it raises, all that is stored is as before. If it does
    -- not, the account has a record that the configured password opens; either no account had a
    -- record before, or this one had, and that record's key, by the password or else by the old one,
    -- is the same; and the record of any other account and all rows are as before.
    pub ensure_usable-Secured :
        (s : Settings) (upgrade : Bool) (b : Books)
        → Secured j b
            (ensure_usable rig id password old s upgrade b).0
            (ensure_usable rig id password old s upgrade b).1
    unfolding ensure_usable load_record check_record
    ensure_usable-Secured s upgrade b =
        let b' : Books = record b { calls = b.calls + 1 } in
        elim (Bool-cases (rig.store_up b.calls)) [
          | inr down ↦ rw (ensure_usable, load_record, down) (refl, refl)
          | inl up ↦ elim (Option-cases (lookup id b.keystore)) [
            | inl absent ↦
                rw (ensure_usable, load_record, up, absent) (first_record-Secured s b' absent)
            | inr (r, found) ↦ elim (Option-cases (unwrap_master_key rig.aes rig.kdf password r)) [
              | inl shut ↦
                  rw (ensure_usable, load_record, up, found, check_record, shut)
                    (change_password-Secured s b' r found shut)
              | inr (key, opens) ↦
                  rw (ensure_usable, load_record, up, found, check_record, opens)
                    (keep_or_upgrade-Secured s upgrade b' r key found opens)
            ]
          ]
        ]
