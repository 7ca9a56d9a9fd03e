-- ===== src/Sessions.antt =====
-- HTTP sessions (src/websession.py): `WebSession` and `SessionStore`. Times are whole seconds of
-- the monotonic clock, and every operation takes the time at which it reads it.
pub mod Bounds
pub mod Others
use discord_sftp_drive.Base.{
  ℕ, ◌+◌, ◌-◌, Str, str_eq, Bool, true, false, not, ◌&&◌, ◌||◌, Option, none, some, List, [], ◌∷◌,
  ◌++◌, leb, ltb, ◌==◌, if◌then◌else◌, min, max, length, filter_by, lookup, insert, remove, map,
  is_empty,
}
use discord_sftp_drive.Seal.{Bytes}

pub record WebSession : Type 0 where
  pub id : Str
  pub csrf_token : Str
  pub username : Str
  pub root_id : Str
  pub key : Bytes
  -- `vfs`: the key and the tree that it is built on; none once the session is dropped
  pub vfs : Option (Bytes × Str)
  pub created_at : ℕ
  pub last_seen : ℕ
  pub idle_seconds : ℕ
  pub absolute_seconds : ℕ

pub data Expiry : Type 0 where
  live idle absolute : Expiry

-- `expired_at`; `now - last_seen >= idle_seconds` in integers.
unfoldable pub expired_at : WebSession → ℕ → Expiry
expired_at s now =
    if leb (s.last_seen + s.idle_seconds) now
    then idle
    else if leb (s.created_at + s.absolute_seconds) now
    then absolute
    else live

-- `bool(expired_at(now))`
unfoldable pub is_expired : WebSession → ℕ → Bool
is_expired s now = elim (expired_at s now) [ live ↦ false | idle ↦ true | absolute ↦ true ]

-- `expires_in`, `idle_expires_in`, `absolute_expires_in`
unfoldable pub expires_in : WebSession → ℕ → ℕ
expires_in s now = min (s.last_seen + s.idle_seconds) (s.created_at + s.absolute_seconds) - now

unfoldable pub idle_expires_in : WebSession → ℕ → ℕ
idle_expires_in s now = s.last_seen + s.idle_seconds - now

unfoldable pub absolute_expires_in : WebSession → ℕ → ℕ
absolute_expires_in s now = s.created_at + s.absolute_seconds - now

-- The objects `WebSession` that there are, by their ids: those that `_sessions` refers to, as they
-- are, and in `ended` those that it does not refer to any more, last first. A job or a request that
-- runs keeps its reference to such an object, and reads what `object_of` gives.
pub record SessionStore : Type 0 where
  pub idle_ceiling : ℕ
  pub absolute_ceiling : ℕ
  pub sessions : List (Str × WebSession)
  pub ended : List (Str × WebSession)

-- What a reference to the object with the id reads.
unfoldable pub object_of : Str → SessionStore → Option WebSession
object_of id store = elim (lookup id store.sessions) [
  | some s ↦ some s
  | none ↦ lookup id store.ended
]

-- `ceiling if not wish or wish <= 0 else min(int(wish), ceiling)`
unfoldable pub clamp_one : ℕ → Option ℕ → ℕ
clamp_one ceiling none = ceiling
clamp_one ceiling (some wish) = if wish == 0 then ceiling else min wish ceiling

-- `clamp`
unfoldable pub clamp : SessionStore → Option ℕ → Option ℕ → ℕ × ℕ
clamp store idle_wish absolute_wish =
    let chosen_absolute = clamp_one store.absolute_ceiling absolute_wish in
    (min (clamp_one store.idle_ceiling idle_wish) chosen_absolute, chosen_absolute)

-- What `drop` does to the object.
unfoldable pub cleared : WebSession → WebSession
cleared s = record s { key = []; vfs = none }

-- `drop`: whether there was such a session.
unfoldable pub drop : Str → SessionStore → Bool × SessionStore
drop id store = elim (lookup id store.sessions) [
  | none ↦ (false, store)
  | some s ↦ (
    true,
    record store { sessions = remove id store.sessions; ended = (id, cleared s) ∷ store.ended },
  )
]

unfoldable pub drop_each : List Str → SessionStore → SessionStore
drop_each [] store = store
drop_each (id ∷ ids) store = drop_each ids (drop id store).1

-- `drop_all`
unfoldable pub drop_all : SessionStore → SessionStore
drop_all store = drop_each (map (λ e. e.0) store.sessions) store

-- `[sid for sid, s in _sessions.items() if p(sid, s)]`
unfoldable pub ids_where : (Str → WebSession → Bool) → List (Str × WebSession) → List Str
ids_where p [] = []
ids_where p ((id, s) ∷ m) = let rest = ids_where p m in if p id s then id ∷ rest else rest

-- `sweep`
unfoldable pub sweep : ℕ → SessionStore → ℕ × SessionStore
sweep now store =
    let dead = ids_where (λ id s. is_expired s now) store.sessions in
    (length dead, drop_each dead store)

-- `create`; the two tokens are `secrets.token_urlsafe`.
unfoldable pub create :
    Str
    → Str
    → Str
    → Str
    → Bytes
    → Option ℕ
    → Option ℕ
    → ℕ
    → SessionStore
    → WebSession × SessionStore
create id csrf username root_id key idle_wish absolute_wish now store =
    let swept = (sweep now store).1 in
    let chosen = clamp swept idle_wish absolute_wish in
    let s : WebSession = record {
      id = id;
      csrf_token = csrf;
      username = username;
      root_id = root_id;
      key = key;
      vfs = some (key, root_id);
      created_at = now;
      last_seen = now;
      idle_seconds = chosen.0;
      absolute_seconds = chosen.1;
    } in
    (s, record swept { sessions = insert id s swept.sessions })

-- `get`
unfoldable pub get : Str → ℕ → SessionStore → Option WebSession × SessionStore
get id now store = if is_empty id then (none, store) else elim (lookup id store.sessions) [
  | none ↦ (none, store)
  | some s ↦
      if is_expired s now
      then (none, (drop id store).1)
      else let touched = record s { last_seen = now } in
        (some touched, record store { sessions = insert id touched store.sessions })
]

-- `trees.setdefault(root_id, session)`
unfoldable pub set_default : Str → WebSession → List (Str × WebSession) → List (Str × WebSession)
set_default k s trees = elim (lookup k trees) [ none ↦ insert k s trees | some _ ↦ trees ]

unfoldable pub trees_of :
    ℕ → List (Str × WebSession) → List (Str × WebSession) → List (Str × WebSession)
trees_of now trees [] = trees
trees_of now trees ((id, s) ∷ m) =
    trees_of now (if is_expired s now then trees else set_default s.root_id s trees) m

-- `live_by_tree`
unfoldable pub live_by_tree : ℕ → SessionStore → List WebSession
live_by_tree now store = map (λ e. e.1) (trees_of now [] store.sessions)

-- `count_for_tree`
unfoldable pub count_for_tree : Str → ℕ → SessionStore → ℕ
count_for_tree root_id now store =
    length (ids_where (λ id s. str_eq s.root_id root_id && not (is_expired s now)) store.sessions)

-- `drop_others`
unfoldable pub drop_others : Str → Str → SessionStore → ℕ × SessionStore
drop_others root_id keep store =
    let doomed =
      ids_where (λ id s. str_eq s.root_id root_id && not (str_eq id keep)) store.sessions in
    (length doomed, drop_each doomed store)
