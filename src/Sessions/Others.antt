-- ===== src/Sessions/Others.antt =====
-- Which sessions `drop_others` (src/websession.py) leaves.
use discord_sftp_drive.Base.{
  ◌≡◌, refl, Str, str_eq, str_eq_iff, Bool, true, false, not, ◌&&◌, none, some, List, [], ◌∷◌,
  arith, lookup, lookup-remove, Bool-cases, Option-cases, inl, inr, if◌then◌else◌,
}
use discord_sftp_drive.Sessions.{WebSession, SessionStore, drop, drop_each, ids_where, drop_others}

unfoldable is_one_of : Str → List Str → Bool
is_one_of k [] = false
is_one_of k (i ∷ ids) = if str_eq i k then true else is_one_of k ids

lookup-drop :
    (i k : Str) (store : SessionStore)
    → lookup k (drop i store).1.sessions ≡ (if str_eq i k then none else lookup k store.sessions)
unfolding drop
lookup-drop i k store = elim (Option-cases (lookup i store.sessions)) [
  | inr (s, there) ↦ rw (drop, there, lookup-remove) refl
  | inl absent ↦ elim (Bool-cases (str_eq i k)) [
    | inr other ↦ rw (drop, absent, other) refl
    | inl same ↦ let e = (str_eq_iff i k).0 same in rw (drop, absent, same) (rw (← e) absent)
  ]
]

lookup-drop_each :
    (ids : List Str) (k : Str) (store : SessionStore)
    → lookup k (drop_each ids store).sessions
      ≡ (if is_one_of k ids then none else lookup k store.sessions)
unfolding drop_each is_one_of
lookup-drop_each [] k store = refl
lookup-drop_each (i ∷ ids) k store =
    rw (lookup-drop_each ids k (drop i store).1, lookup-drop i k store) (ground arith)

is_one_of-ids :
    (p : Str → WebSession → Bool) (k : Str) (s : WebSession) (m : List (Str × WebSession))
    → lookup k m ≡ some s
    → p k s ≡ true
    → is_one_of k (ids_where p m) ≡ true
unfolding is_one_of ids_where lookup
is_one_of-ids p k s [] h e = cc
is_one_of-ids p k s ((i, t) ∷ m) h e = elim (Bool-cases (str_eq i k)) [
  | inl here ↦
      let same_key = (str_eq_iff i k).0 here in
      let same : t ≡ s = cc (rw here at h) in
      let hit : p i t ≡ true = rw (same_key, same) e in rw hit (rw here refl)
  | inr there ↦
      let rest = is_one_of-ids p k s m (rw there at h) e in
      elim (Bool-cases (p i t)) [
        | inl doomed ↦ rw (doomed, there) rest
        | inr spared ↦ rw spared rest
      ]
]

-- A session on the tree that can still be found after `drop_others` is the one to keep.
drop_others-only :
    (root_id keep id : Str) (store : SessionStore) (s : WebSession)
    → lookup id (drop_others root_id keep store).1.sessions ≡ some s
    → s.root_id ≡ root_id
    → id ≡ keep
unfolding drop_others
drop_others-only root_id keep id store s h mine = elim (Bool-cases (str_eq id keep)) [
  | inl same ↦ (str_eq_iff id keep).0 same
  | inr other ↦
      let doomed =
        ids_where (λ i t. str_eq t.root_id root_id && not (str_eq i keep)) store.sessions in
      let left = lookup-drop_each doomed id store in
      elim (Bool-cases (is_one_of id doomed)) [
        | inl gone ↦ cc (h, rw gone at left)
        | inr stays ↦
            let was : lookup id store.sessions ≡ some s = cc (h, rw stays at left) in
            let meant : (str_eq s.root_id root_id && not (str_eq id keep)) ≡ true =
              ground (arith, str_eq_iff s.root_id root_id) in
            cc (
              stays,
              is_one_of-ids (λ i t. str_eq t.root_id root_id && not (str_eq i keep)) id s
                  store.sessions was meant,
            )
      ]
]
