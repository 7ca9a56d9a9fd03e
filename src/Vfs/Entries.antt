-- ===== src/Vfs/Entries.antt =====
-- A directory's set of entries (src/vfs.py): the lock that a structural change holds, the staged
-- tag, and its promotion.
use discord_sftp_drive.Base.{
  ℕ, Str, str_eq, Bool, true, false, not, ◌&&◌, ◌||◌, Option, none, some, List, [], ◌∷◌, ◌++◌,
  filter_by,
}
use discord_sftp_drive.Exec.{
  Exec, pure, fail, refuse, ◌>>=◌, ◌>>◌, integrity, not_found, lock_not_held,
}
use discord_sftp_drive.Seal.{Bytes}
use discord_sftp_drive.Model.{Node, Env, World}
use discord_sftp_drive.Store.{find_one, find, update_one, has_id, has_parent}
use discord_sftp_drive.Vfs.Tags.{tag_version, entries_of, entries_verify, dir_mac, now}

abbrev pub Entry : Type 0
Entry = Str × Str

unfoldable pub entry_eq : Entry → Entry → Bool
entry_eq (i, f) (j, g) = str_eq i j && str_eq f g

-- `e in xs`
unfoldable pub is_entry_in : Entry → List Entry → Bool
is_entry_in e [] = false
is_entry_in e (x ∷ xs) = entry_eq x e || is_entry_in e xs

-- `[e for e in current if e not in dropped] + list(add)`
unfoldable pub next_entries : List Entry → List Entry → List Entry → List Entry
next_entries current add dropped = filter_by (λ e. not (is_entry_in e dropped)) current ++ add

unfoldable pub is_held : Str → List Str → Bool
is_held d [] = false
is_held d (x ∷ xs) = str_eq x d || is_held d xs

module _ {C : Type 0} (env : Env C) where
  -- `async with _locked_dirs(*dirs)`, as one task meets it: the directories are held while the
  -- body runs, and whatever it raised they are held no longer. A task that already holds one
  -- keeps it. How tasks wait for each other is the module `Locks`.
  unfoldable pub locked_dirs : {A : Type 0} → List Str → Exec (World C) A → Exec (World C) A
  locked_dirs dirs m w =
      let (r, w') = m (record w { held = dirs ++ w.held }) in (r, record w' { held = w.held })

  -- `children`: the trashed ones too. `live_children`: not those.
  unfoldable pub children : Str → Exec (World C) (List Node)
  children d = find env (has_parent d)

  -- `_stage_entries`: the next entry tag, parked in `entries_mac_pending`, and returned for
  -- `promote`. The recorded tag is checked first, against the children that are there.
  unfoldable pub stage_entries : Str → List Entry → List Entry → Exec (World C) Bytes
  stage_entries dir_id add dropped = do
    λ w. refuse (not (is_held dir_id w.held)) lock_not_held w
    found ← find_one env (λ n. has_id dir_id n && n.is_dir)
    elim found [
      | none ↦ fail not_found
      | some node ↦ do
        kids ← children dir_id
        let current = entries_of kids
        refuse (not (entries_verify env dir_id current node.entries_mac node.entries_mac_pending))
            integrity
        let staged = env.seal.dir_entries_tag dir_id (next_entries current add dropped)
        time ← now env
        update_one env dir_id (λ n. record n { entries_mac_pending = staged; modified_at = time })
        pure staged
    ]

  -- The `commit` that `_stage_entries` returns.
  unfoldable pub promote : Str → Bytes → Exec (World C) (Unit {0})
  promote dir_id staged =
      update_one env dir_id (λ n. record n { entries_mac = staged; entries_mac_pending = [] })

  -- `_new_dir_doc`
  unfoldable pub new_dir_doc : Str → Option Str → Str → ℕ → ℕ → Node
  new_dir_doc node_id parent_id filename permissions time =
      let bare : Node = record {
        id = node_id;
        parent_id = parent_id;
        filename = some filename;
        is_dir = true;
        size = 0;
        permissions = permissions;
        created_at = time;
        modified_at = time;
        accessed_at = none;
        chunks = [];
        mac = [];
        tag_version = tag_version;
        trashed_at = none;
        entries_mac = [];
        entries_mac_pending = [];
      } in
      record bare { mac = dir_mac env bare; entries_mac = env.seal.dir_entries_tag node_id [] }
