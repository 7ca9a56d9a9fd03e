-- ===== src/Sessions/Bounds.antt =====
-- The lifetimes of sessions and what is left of an ended one (src/websession.py: `SessionStore`).
use discord_sftp_drive.Base.{
  ℕ, ◌+◌, ◌≤◌, ◌<◌, ◌≡◌, refl, ◌∙◌, Str, str_eq, false, Option, none, some, List, [], ◌∷◌, arith,
  lookup, insert, remove, lookup-insert, lookup-remove, str_eq_refl, str_eq_iff, ◌⊎◌, Bool-cases,
  Option-cases, inl, inr, is_empty,
}
use discord_sftp_drive.Seal.{Bytes}
use discord_sftp_drive.Sessions.{
  WebSession, SessionStore, clamp, clamp_one, expired_at, is_expired, cleared, drop, drop_each,
  drop_all, ids_where, sweep, create, get, drop_others, object_of,
}

-- With ceilings that are not zero, whatever a client asks for, it gets no more than the ceilings, an
-- idle window that fits into the absolute one, and one that is not zero.
clamp-bounds :
    (store : SessionStore) (idle_wish absolute_wish : Option ℕ)
    → 0 < store.idle_ceiling
    → 0 < store.absolute_ceiling
    → ((clamp store idle_wish absolute_wish).0 ≤ store.idle_ceiling)
      × ((clamp store idle_wish absolute_wish).1 ≤ store.absolute_ceiling)
      × ((clamp store idle_wish absolute_wish).0 ≤ (clamp store idle_wish absolute_wish).1)
      × (0 < (clamp store idle_wish absolute_wish).0)
unfolding clamp clamp_one
clamp-bounds store idle_wish absolute_wish hi ha =
    (ground arith, ground arith, ground arith, ground arith)

-- One operation of the store. A token is drawn once, so another session gets another id than `id`.
pub data Step (id : Str) : SessionStore → SessionStore → Type 0 where
  create_step :
      {store : SessionStore} (other csrf username root_id : Str) (key : Bytes)
      (idle_wish absolute_wish : Option ℕ) (now : ℕ)
      → str_eq other id ≡ false
      → Step id store (create other csrf username root_id key idle_wish absolute_wish now store).1
  get_step : {store : SessionStore} (k : Str) (now : ℕ) → Step id store (get k now store).1
  drop_step : {store : SessionStore} (k : Str) → Step id store (drop k store).1
  drop_all_step : {store : SessionStore} → Step id store (drop_all store)
  sweep_step : {store : SessionStore} (now : ℕ) → Step id store (sweep now store).1
  drop_others_step :
      {store : SessionStore} (root_id keep : Str) → Step id store (drop_others root_id keep store).1

-- Any number of operations.
pub data Later (id : Str) (s : SessionStore) : SessionStore → Type 0 where
  at_once : Later id s s
  next : {t u : SessionStore} → Later id s t → Step id t u → Later id s u

abbrev pub Cleared : WebSession → Type 0
Cleared s = (s.key ≡ []) × (s.vfs ≡ none)

-- What a session was made with: its time, its window, its key and its tree.
module _ (id root : Str) (t m : ℕ) (key : Bytes) where
  abbrev Made : WebSession → Type 0
  Made s =
      (s.created_at ≡ t) × (s.absolute_seconds ≡ m) × (s.key ≡ key) × (s.vfs ≡ some (key, root))

  -- It is stored as it was made, or it is an object that is not stored, and is cleared.
  abbrev Followed : SessionStore → Type 0
  Followed store =
      ((s : WebSession) × (lookup id store.sessions ≡ some s) × Made s)
      ⊎ ((s : WebSession) × (lookup id store.sessions ≡ none)
          × (lookup id store.ended ≡ some s)
          × Cleared s)

  Made-like :
      (x s : WebSession)
      → x.created_at ≡ s.created_at
      → x.absolute_seconds ≡ s.absolute_seconds
      → x.key ≡ s.key
      → x.vfs ≡ s.vfs
      → Made s
      → Made x
  Made-like x s born window keyed rooted (b, w, k, r) =
      (born ∙ b, window ∙ w, keyed ∙ k, rooted ∙ r)

  drop-Followed : (k : Str) (store : SessionStore) → Followed store → Followed (drop k store).1
  unfolding drop cleared lookup
  drop-Followed k store f = elim (Option-cases (lookup k store.sessions)) [
    | inl absent ↦ rw (drop, absent) f
    | inr (x, there) ↦
        let e : (drop k store).1 ≡ record store {
          sessions = remove k store.sessions;
          ended = (k, cleared x) ∷ store.ended;
        } =
          rw (drop, there) refl in
        let gone = lookup-remove k id store.sessions in
        elim (Bool-cases (str_eq k id)) [
          | inl same ↦ rw e (inr (cleared x, rw (gone, same) refl, rw same refl, (refl, refl)))
          | inr other ↦ elim f [
            | inl (s, found, made) ↦ rw e (inl (s, rw (gone, other) found, made))
            | inr (s, absent, ended, clear) ↦
                rw e (inr (s, rw (gone, other) absent, rw other ended, clear))
          ]
        ]
  ]

  drop_each-Followed :
      (ids : List Str) (store : SessionStore) → Followed store → Followed (drop_each ids store)
  unfolding drop_each
  drop_each-Followed [] store f = f
  drop_each-Followed (k ∷ ids) store f =
      drop_each-Followed ids (drop k store).1 (drop-Followed k store f)

  -- Something else is stored, or the session with another time of its last use.
  insert-Followed :
      (k : Str) (x : WebSession) (store : SessionStore)
      → Followed store
      → (str_eq k id ≡ false)
        ⊎ ((s : WebSession) × (lookup k store.sessions ≡ some s)
            × (x.created_at ≡ s.created_at)
            × (x.absolute_seconds ≡ s.absolute_seconds)
            × (x.key ≡ s.key)
            × (x.vfs ≡ s.vfs))
      → Followed (record store { sessions = insert k x store.sessions })
  insert-Followed k x store f how =
      let put = lookup-insert k id x store.sessions in
      elim (Bool-cases (str_eq k id)) [
        | inr other ↦ elim f [
          | inl (s, found, live) ↦ inl (s, rw (put, other) found, live)
          | inr (s, absent, ended, clear) ↦ inr (s, rw (put, other) absent, ended, clear)
        ]
        | inl same ↦ elim how [
          | inl apart ↦ cc
          | inr (s, there, born, window, keyed, rooted) ↦
              let here : lookup id store.sessions ≡ some s =
                rw (← (str_eq_iff k id).0 same) there in
              elim f [
                | inl (s', found, live) ↦
                    let e : s' ≡ s = cc in
                    inl (
                      x,
                      rw (put, same) refl,
                      Made-like x s born window keyed rooted (rw e at live),
                    )
                | inr (s', absent, ended, clear) ↦ cc
              ]
        ]
      ]

  get-Followed :
      (k : Str) (now : ℕ) (store : SessionStore) → Followed store → Followed (get k now store).1
  unfolding get
  get-Followed k now store f = elim (Bool-cases (is_empty k)) [
    | inl blank ↦ rw (get, blank) f
    | inr real ↦ elim (Option-cases (lookup k store.sessions)) [
      | inl absent ↦ rw (get, real, absent) f
      | inr (s, there) ↦ elim (Bool-cases (is_expired s now)) [
        | inl over ↦ rw (get, real, there, over) (drop-Followed k store f)
        | inr open' ↦
            rw (get, real, there, open')
              (insert-Followed k (record s { last_seen = now }) store f
                (inr (s, there, refl, refl, refl, refl)))
      ]
    ]
  ]

  Step-Followed : (s u : SessionStore) → Followed s → Step id s u → Followed u
  unfolding drop_all sweep drop_others create
  Step-Followed s _ f
        (create_step other csrf username root_id k idle_wish absolute_wish now apart) =
      let dead = ids_where (λ id s. is_expired s now) s.sessions in
      insert-Followed other _ (drop_each dead s) (drop_each-Followed dead s f) (inl apart)
  Step-Followed s _ f (get_step k now) = get-Followed k now s f
  Step-Followed s _ f (drop_step k) = drop-Followed k s f
  Step-Followed s _ f drop_all_step = drop_each-Followed _ s f
  Step-Followed s _ f (sweep_step now) = drop_each-Followed _ s f
  Step-Followed s _ f (drop_others_step root_id keep) = drop_each-Followed _ s f

  Later-Followed : (s u : SessionStore) → Followed s → Later id s u → Followed u
  Later-Followed s _ f at_once = f
  Later-Followed s u f (next {t = v} l step) = Step-Followed v u (Later-Followed s v f l) step

get-live :
    (id : Str) (now : ℕ) (store : SessionStore) (s : WebSession)
    → (get id now store).0 ≡ some s
    → (old : WebSession) × (lookup id store.sessions ≡ some old)
      × (is_expired old now ≡ false)
      × (s ≡ record old { last_seen = now })
unfolding get
get-live id now store s h = elim (Bool-cases (is_empty id)) [
  | inl blank ↦ cc (rw (get, blank) at h)
  | inr real ↦ elim (Option-cases (lookup id store.sessions)) [
    | inl absent ↦ cc (rw (get, real, absent) at h)
    | inr (old, there) ↦ elim (Bool-cases (is_expired old now)) [
      | inl over ↦ cc (rw (get, real, there, over) at h)
      | inr open' ↦
          let e : some (record old { last_seen = now }) ≡ some s =
            rw (get, real, there, open') at h in
          (old, there, open', cc)
    ]
  ]
]

drop_each-ceiling :
    (ids : List Str) (store : SessionStore)
    → (drop_each ids store).absolute_ceiling ≡ store.absolute_ceiling
unfolding drop_each drop
drop_each-ceiling [] store = refl
drop_each-ceiling (k ∷ ids) store = elim (Option-cases (lookup k store.sessions)) [
  | inl absent ↦ drop_each-ceiling ids (drop k store).1 ∙ rw (drop, absent) refl
  | inr (x, there) ↦ drop_each-ceiling ids (drop k store).1 ∙ rw (drop, there) refl
]

-- A session that is made at the time `t`.
module _ (id csrf username root : Str) (key : Bytes) (idle_wish absolute_wish : Option ℕ) (t : ℕ)
    (before after : SessionStore) where
  abbrev pub made : WebSession × SessionStore
  made = create id csrf username root key idle_wish absolute_wish t before

  made-Followed : Followed id root t made.0.absolute_seconds key made.1
  unfolding create
  made-Followed = inl (made.0, rw (lookup-insert, str_eq_refl) refl, (refl, refl, refl, refl))

  -- However often a session was used since it was made, and whatever else was done to the store, as
  -- long as no other session gets its id, it is served only before the end of the window that it was
  -- given, counted from when it was made, and that window is no longer than the ceiling.
  pub get-deadline :
      (now : ℕ) (s : WebSession)
      → Later id made.1 after
      → (get id now after).0 ≡ some s
      → (now < t + made.0.absolute_seconds) × (made.0.absolute_seconds ≤ before.absolute_ceiling)
  unfolding is_expired expired_at create clamp clamp_one sweep
  get-deadline now s later h =
      let dead = ids_where (λ id s. is_expired s t) before.sessions in
      let same = drop_each-ceiling dead before in
      let (old, there, open', e) = get-live id now after s h in
      let young : now < old.created_at + old.absolute_seconds = ground arith in
      elim (Later-Followed id root t made.0.absolute_seconds key made.1 after made-Followed later) [
        | inl (s', found, live) ↦
            let one : s' ≡ old = cc in
            let (born, window) : (old.created_at ≡ t)
                × (old.absolute_seconds ≡ made.0.absolute_seconds) =
              rw (← one) (live.0, live.1) in
            (ground arith, ground arith)
        | inr (s', absent, ended, clear) ↦ cc
      ]

  -- Whatever was done to the store since a session was made, as long as no other session gets its
  -- id, whoever refers to its object reads it as it is stored, with its key and its file system, or
  -- it is not stored any more and has lost both.
  pub ended-Cleared :
      Later id made.1 after
      → (s : WebSession) × (object_of id after ≡ some s)
        × (((lookup id after.sessions ≡ some s) × (s.key ≡ key) × (s.vfs ≡ some (key, root)))
            ⊎ ((lookup id after.sessions ≡ none) × Cleared s))
  unfolding object_of
  ended-Cleared later =
      elim (Later-Followed id root t made.0.absolute_seconds key made.1 after made-Followed later) [
        | inl (s, found, made_at) ↦
            (s, rw (object_of, found) refl, inl (found, made_at.2, made_at.3))
        | inr (s, absent, ended, clear) ↦ (s, rw (object_of, absent) ended, inr (absent, clear))
      ]
