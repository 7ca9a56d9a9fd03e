-- ===== src/Accounts/Keystore/Safety.antt =====
-- No operation on a wrapped key loses it (src/keystore.py): what a failed one leaves, and what a
-- successful one leaves.
use discord_sftp_drive.Base.{
  ◌+◌, ◌≡◌, ap, sym, ◌⊎◌, inl, inr, ◌∙◌, Str, Bool, true, some, arith, Bool-cases, Option-cases,
  lookup, insert,
}
use discord_sftp_drive.Exec.{Result-cases, ok, raise, Error}
use discord_sftp_drive.Seal.{Bytes}
use discord_sftp_drive.Crypto.Wrap.{
  Settings, Wrapped, wrap_master_key, unwrap_master_key, record_matches_settings, wrap-unwrap,
}
use discord_sftp_drive.Accounts.Books.{Rig, Books}
use discord_sftp_drive.Accounts.Keystore.{
  load_record, store_record, wrap, unwrap, bootstrap, replace_wrapping, rewrap, upgrade_kdf,
}

-- Nothing that is stored has changed.
abbrev pub Untouched : Books → Books → Type 0
Untouched b b' = (b'.keystore ≡ b.keystore) × (b'.users ≡ b.users)

module _ (rig : Rig) where
  -- The record opens, by the password, to the key.
  abbrev pub Opens : Str → Wrapped → Bytes → Type 0
  Opens password r key = unwrap_master_key rig.aes rig.kdf password r ≡ some key

  -- One record was written, under the account's id, and the password opens it to the key.
  abbrev pub Written : Str → Str → Bytes → Books → Books → Type 0
  Written id password key b b' =
      (r : Wrapped) × Opens password r key
      × (b'.keystore ≡ insert id r b.keystore)
      × (b'.users ≡ b.users)

  pub replace-raise :
      (id : Str) (key : Bytes) (password : Str) (s : Settings) (b : Books) (e : Error)
      → (replace_wrapping rig id key password s b).0 ≡ raise e
      → Untouched b (replace_wrapping rig id key password s b).1
  unfolding replace_wrapping wrap store_record
  replace-raise id key password s b e h = ground arith

  pub replace-ok :
      (id : Str) (key : Bytes) (password : Str) (s : Settings) (b : Books) (u : Unit {0})
      → (replace_wrapping rig id key password s b).0 ≡ ok u
      → Written id password key b (replace_wrapping rig id key password s b).1
  unfolding replace_wrapping wrap store_record
  replace-ok id key password s b u h =
      elim (Option-cases
        (wrap_master_key rig.aes rig.kdf password key s (rig.salt b.draws) (rig.nonce b.draws))) [
          | inl refused ↦ absurd (ground arith)
          | inr (r, made) ↦ (
            r,
            wrap-unwrap rig.aes rig.kdf password key s (rig.salt b.draws) (rig.nonce b.draws) r
                made,
            ground arith,
            ground arith,
          )
        ]

  pub bootstrap-raise :
      (id password : Str) (s : Settings) (b : Books) (e : Error)
      → (bootstrap rig id password s b).0 ≡ raise e
      → Untouched b (bootstrap rig id password s b).1
  unfolding bootstrap wrap store_record
  bootstrap-raise id password s b e h = ground arith

  pub bootstrap-ok :
      (id password : Str) (s : Settings) (b : Books) (u : Unit {0})
      → (bootstrap rig id password s b).0 ≡ ok u
      → Written id password (rig.master_key b.draws) b (bootstrap rig id password s b).1
  unfolding bootstrap wrap store_record
  bootstrap-ok id password s b u h =
      let n = b.draws in
      let key = rig.master_key n in
      elim (Option-cases
        (wrap_master_key rig.aes rig.kdf password key s (rig.salt (n + 1)) (rig.nonce (n + 1)))) [
          | inl refused ↦ absurd (ground arith)
          | inr (r, made) ↦ (
            r,
            wrap-unwrap rig.aes rig.kdf password key s (rig.salt (n + 1)) (rig.nonce (n + 1)) r
                made,
            ground arith,
            ground arith,
          )
        ]

  pub rewrap-raise :
      (id old new : Str) (s : Settings) (b : Books) (e : Error)
      → (rewrap rig id old new s b).0 ≡ raise e
      → Untouched b (rewrap rig id old new s b).1
  unfolding rewrap load_record unwrap
  rewrap-raise id old new s b e h = elim (Option-cases (lookup id b.keystore)) [
    | inl missing ↦ ground arith
    | inr (r, found) ↦ elim (Option-cases (unwrap_master_key rig.aes rig.kdf old r)) [
      | inl shut ↦ ground arith
      | inr (key, opened) ↦
          ground (arith, replace-raise id key new s (record b { calls = b.calls + 1 }) e)
    ]
  ]

  rewrap_opened :
      (id old new : Str) (s : Settings) (b : Books) (r : Wrapped) (key : Bytes)
      → rig.store_up b.calls ≡ true
      → lookup id b.keystore ≡ some r
      → Opens old r key
      → rewrap rig id old new s b
        ≡ replace_wrapping rig id key new s (record b { calls = b.calls + 1 })
  unfolding rewrap load_record unwrap
  rewrap_opened id old new s b r key up found opened =
      rw (rewrap, load_record, unwrap, up, found, opened)

  pub rewrap-ok :
      (id old new : Str) (s : Settings) (b : Books) (u : Unit {0}) (r : Wrapped)
      → (rewrap rig id old new s b).0 ≡ ok u
      → lookup id b.keystore ≡ some r
      → (key : Bytes) × Opens old r key × Written id new key b (rewrap rig id old new s b).1
  unfolding rewrap load_record unwrap
  rewrap-ok id old new s b u r h found =
      elim (Option-cases (unwrap_master_key rig.aes rig.kdf old r)) [
        | inl shut ↦ absurd (ground arith)
        | inr (key, opened) ↦ elim (Bool-cases (rig.store_up b.calls)) [
          | inr down ↦ absurd (ground arith)
          | inl up ↦
              let e = rewrap_opened id old new s b r key up found opened in
              (
                key,
                opened,
                rw e (
                    replace-ok id key new s (record b { calls = b.calls + 1 }) u
                      (sym (ap (λ x. x.0) e) ∙ h)),
              )
        ]
      ]

  pub upgrade-raise :
      (id password : Str) (s : Settings) (b : Books) (e : Error)
      → (upgrade_kdf rig id password s b).0 ≡ raise e
      → Untouched b (upgrade_kdf rig id password s b).1
  unfolding upgrade_kdf load_record unwrap
  upgrade-raise id password s b e h = elim (Option-cases (lookup id b.keystore)) [
    | inl missing ↦ ground arith
    | inr (r, found) ↦ elim (Option-cases (unwrap_master_key rig.aes rig.kdf password r)) [
      | inl shut ↦ ground arith
      | inr (key, opened) ↦
          ground (arith, replace-raise id key password s (record b { calls = b.calls + 1 }) e)
    ]
  ]

  pub upgrade-ok :
      (id password : Str) (s : Settings) (b : Books) (done : Bool) (r : Wrapped) (key : Bytes)
      → (upgrade_kdf rig id password s b).0 ≡ ok done
      → lookup id b.keystore ≡ some r
      → Opens password r key
      → Untouched b (upgrade_kdf rig id password s b).1
        ⊎ Written id password key b (upgrade_kdf rig id password s b).1
  unfolding upgrade_kdf load_record unwrap
  upgrade-ok id password s b done r key h found opened = elim (Bool-cases (rig.store_up b.calls)) [
    | inr down ↦ absurd (ground arith)
    | inl up ↦ elim (Bool-cases (record_matches_settings r s)) [
      | inl current ↦ inl (ground arith)
      | inr stale ↦
          let b' : Books = record b { calls = b.calls + 1 } in
          elim (Result-cases (replace_wrapping rig id key password s b').0) [
            | inr (e, bad) ↦ absurd (ground arith)
            | inl (u, good) ↦
                let e : (upgrade_kdf rig id password s b).1
                    ≡ (replace_wrapping rig id key password s b').1 =
                  rw (upgrade_kdf, load_record, unwrap, up, found, stale, opened, good) in
                inr (rw e (replace-ok id key password s b' u good))
          ]
    ]
  ]
