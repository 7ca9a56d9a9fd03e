-- ===== src/Vfs/Restore.antt =====
-- Bringing a node back from the trash, and listing the trash (src/vfs.py: `restore`,
-- `_trashed_items`, `list_trash`).
use discord_sftp_drive.Base.{
  Str, str_eq, str_le, Bool, true, false, not, Option, none, some, List, [], ◌∷◌, ◌==◌, ltb,
  if◌then◌else◌, is_some, or_else,
}
use discord_sftp_drive.Exec.{
  Exec, ok, pure, fail, refuse, ◌>>=◌, ◌>>◌, not_found, unsupported, already_exists,
}
use discord_sftp_drive.Seal.{Bytes}
use discord_sftp_drive.Model.{Node, Env, World}
use discord_sftp_drive.Store.{find_one, find, update_one, is_live_at}
use discord_sftp_drive.Path.{join}
use discord_sftp_drive.Vfs.Tags.{tag_version, node_mac, verify_node, now, set_version}
use discord_sftp_drive.Vfs.Entries.{locked_dirs, stage_entries, promote}
use discord_sftp_drive.Vfs.Resolve.{get_node_by_id}
use discord_sftp_drive.Vfs.Trash.{
  OnConflict, refuse_it, skip, replace, keep_both, Restored, set_trashed, free_name, ancestors_of,
}

-- An item of `_trashed_items`.
pub record Item : Type 0 where
  pub node : Node
  pub parent_path : Str
  pub path : Str

-- The name under which a node comes back, or `none` for `skip`.
abbrev pub Landing : Type 0
Landing = Option Str

module _ {C : Type 0} (env : Env C) where
  -- What `on_conflict` does about the node that has taken the name.
  unfoldable pub settle : OnConflict → Node → Str → Str → Exec (World C) Landing
  settle skip occupant parent original = pure none
  settle replace occupant parent original = do
    verified ← verify_node env occupant
    time ← now env
    set_trashed env verified (some time)
    pure (some original)
  settle keep_both occupant parent original = do
    name ← free_name env 998 2 parent original
    pure (some name)
  settle refuse_it occupant parent original = fail already_exists

  -- Only a new name changes what the parent's entry tag covers.
  unfoldable pub stage_new_name : Str → Str → Str → Str → Exec (World C) (Option Bytes)
  stage_new_name parent i name original = if str_eq name original then pure none else (do
    staged ← stage_entries env parent ((i, name) ∷ []) ((i, original) ∷ [])
    pure (some staged))

  abbrev pub promote_if : Str → Option Bytes → Exec (World C) (Unit {0})
  promote_if parent none = pure tt
  promote_if parent (some staged) = promote env parent staged

  -- The one write that brings the node back, under its own or a new name.
  unfoldable pub write_restored : Node → Str → Exec (World C) (Unit {0})
  write_restored n name = do
    let mac = node_mac env (record n { filename = some name; trashed_at = none })
    update_one env n.id (λ stored. record stored {
      filename = some name;
      mac = mac;
      tag_version = tag_version;
      trashed_at = none;
    })
    λ w. (ok tt, if n.is_dir then w else set_version env n.id mac w)

  -- The body under the directory's lock.
  unfoldable pub land : Node → Str → Str → OnConflict → Exec (World C) Restored
  land n parent parent_path on_conflict = do
    let original = or_else n.filename []
    occupant ← find_one env (is_live_at parent original)
    landing ← elim occupant [
      | none ↦ pure (some original)
      | some o ↦ settle on_conflict o parent original
    ]
    elim landing [
      | none ↦ pure (record { restored = false; conflict = true; path = none })
      | some name ↦ do
        staged ← stage_new_name parent n.id name original
        write_restored n name
        promote_if parent staged
        pure (record {
          restored = true;
          conflict = is_some occupant;
          path = some (join parent_path name);
        })
    ]

  -- `item.sort(key=…)`: newest first, then by the lower-cased name.
  unfoldable pub comes_first : Item → Item → Bool
  comes_first a b =
      let ta = or_else a.node.trashed_at 0 in
      let tb = or_else b.node.trashed_at 0 in
      if ltb tb ta
      then true
      else if ta == tb
      then str_le (env.lower (or_else a.node.filename [])) (env.lower (or_else b.node.filename []))
      else false

  unfoldable pub insert_item : Item → List Item → List Item
  insert_item a [] = a ∷ []
  insert_item a (b ∷ bs) = if comes_first a b then a ∷ b ∷ bs else b ∷ insert_item a bs

  unfoldable pub sort_items : List Item → List Item
  sort_items [] = []
  sort_items (a ∷ bs) = insert_item a (sort_items bs)

  module _ (root_id : Str) where
    -- `restore`
    unfoldable pub restore : Str → OnConflict → Exec (World C) Restored
    restore node_id on_conflict = do
      found ← get_node_by_id env node_id
      elim found [
        | none ↦ fail not_found
        | some n ↦ do
          refuse (not (is_some n.trashed_at)) not_found
          above ← ancestors_of env root_id n
          elim above [
            | none ↦ fail not_found
            | some a ↦ do
              refuse (is_some a.blocked_by) unsupported
              locked_dirs env (or_else n.parent_id [] ∷ [])
                  (land n (or_else n.parent_id []) a.parent_path on_conflict)
          ]
      ]

    -- The loop of `_trashed_items`: each item that is in this tree and not under a trashed
    -- directory, with its tag checked.
    unfoldable pub place_items : List Node → Exec (World C) (List Item)
    place_items [] = pure []
    place_items (n ∷ ns) = do
      above ← ancestors_of env root_id n
      elim above [
        | none ↦ place_items ns
        | some a ↦ elim (is_some a.blocked_by) [
          | true ↦ place_items ns
          | false ↦ do
            verified ← verify_node env n
            rest ← place_items ns
            pure (
                record {
                  node = verified;
                  parent_path = a.parent_path;
                  path = join a.parent_path (or_else verified.filename []);
                }
                ∷ rest)
        ]
      ]

    -- `_trashed_items`
    unfoldable pub trashed_items : (Node → Bool) → Exec (World C) (List Item)
    trashed_items query = do
      candidates ← find env query
      items ← place_items candidates
      pure (sort_items items)

    -- `list_trash`: the nodes with a positive `trashed_at`.
    unfoldable pub list_trash : Exec (World C) (List Item)
    list_trash = trashed_items (λ n. ltb 0 (or_else n.trashed_at 0))
