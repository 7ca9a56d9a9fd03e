-- ===== src/Store.antt =====
-- The collection `nodes` as the file system queries it (src/sqlitedb.py): documents in the order
-- of insertion, the first match of a filter, `$set` and `$unset` in place, and the two unique
-- indexes that src/db.py declares. Every call may fail before it has done anything.
use discord_sftp_drive.Base.{
  ◌+◌, Str, str_eq, Bool, true, false, not, ◌&&◌, ◌||◌, Option, none, some, List, [], ◌∷◌, ◌++◌,
  if◌then◌else◌, filter_by, is_some,
}
use discord_sftp_drive.Exec.{Exec, database_error, duplicate_key, ok, raise}
use discord_sftp_drive.Model.{Node, Env, World}

-- `field == value` of a filter; an absent field and an explicit null are one.
unfoldable pub opt_eq : Option Str → Option Str → Bool
opt_eq none none = true
opt_eq none (some b) = false
opt_eq (some a) none = false
opt_eq (some a) (some b) = str_eq a b

-- `{"id": i}`
unfoldable pub has_id : Str → Node → Bool
has_id i n = str_eq n.id i

-- `{"parent_id": p}`
unfoldable pub has_parent : Str → Node → Bool
has_parent p n = opt_eq n.parent_id (some p)

unfoldable pub is_live : Node → Bool
is_live n = not (is_some n.trashed_at)

-- `{"parent_id": p, "filename": f, "trashed_at": None}`
unfoldable pub is_live_at : Str → Str → Node → Bool
is_live_at p f n = has_parent p n && (opt_eq n.filename (some f) && is_live n)

unfoldable pub find_first : (Node → Bool) → List Node → Option Node
find_first p [] = none
find_first p (n ∷ ns) = if p n then some n else find_first p ns

unfoldable pub update_first : (Node → Bool) → (Node → Node) → List Node → List Node
update_first p f [] = []
update_first p f (n ∷ ns) = if p n then f n ∷ ns else n ∷ update_first p f ns

unfoldable pub delete_first : (Node → Bool) → List Node → List Node
delete_first p [] = []
delete_first p (n ∷ ns) = if p n then ns else n ∷ delete_first p ns

-- A key of an index over a field that may be null.
unfoldable pub same_key : Option Str → Option Str → Bool
same_key none b = false
same_key (some x) none = false
same_key (some x) (some y) = str_eq x y

-- Whether two documents break one of the unique indexes: on `id`, and on (`parent_id`,
-- `filename`) over live documents, where SQLite holds two nulls for different.
unfoldable pub collides : Node → Node → Bool
collides a b =
    str_eq a.id b.id
    || (is_live a
        && is_live b
        && same_key a.parent_id b.parent_id
        && same_key a.filename b.filename)

unfoldable pub is_taken : Node → List Node → Bool
is_taken n [] = false
is_taken n (m ∷ ms) = collides n m || is_taken n ms

module _ {C : Type 0} (env : Env C) where
  -- One call: it fails as a whole, or runs.
  abbrev pub call : {A : Type 0} → Exec (World C) A → Exec (World C) A
  call m w =
      let w' = record w { calls = w.calls + 1 } in
      if env.store_up w.calls then m w' else (raise database_error, w')

  unfoldable pub find_one : (Node → Bool) → Exec (World C) (Option Node)
  find_one p = call (λ w. (ok (find_first p w.nodes), w))

  unfoldable pub find : (Node → Bool) → Exec (World C) (List Node)
  find p = call (λ w. (ok (filter_by p w.nodes), w))

  unfoldable pub insert_one : Node → Exec (World C) (Unit {0})
  insert_one n = call (λ w.
      if is_taken n w.nodes
      then (raise duplicate_key, w)
      else (ok tt, record w { nodes = w.nodes ++ n ∷ [] }))

  unfoldable pub delete_one : Str → Exec (World C) (Unit {0})
  delete_one i = call (λ w. (ok tt, record w { nodes = delete_first (has_id i) w.nodes }))

  -- The documents that stay, for the uniqueness of the one that changes.
  unfoldable pub update_one : Str → (Node → Node) → Exec (World C) (Unit {0})
  update_one i f = call (λ w. elim (find_first (has_id i) w.nodes) [
    | none ↦ (ok tt, w)
    | some n ↦
        if is_taken (f n) (delete_first (has_id i) w.nodes)
        then (raise duplicate_key, w)
        else (ok tt, record w { nodes = update_first (has_id i) f w.nodes })
  ])
