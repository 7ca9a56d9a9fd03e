-- ===== src/Vfs/Move.antt =====
-- Renaming and moving (src/vfs.py: `rename`).
use discord_sftp_drive.Base.{
  Str, str_eq, Bool, true, false, not, ◌&&◌, Option, none, some, List, [], ◌∷◌, ◌++◌, ◌==◌,
  if◌then◌else◌, is_empty, or_else,
}
use discord_sftp_drive.Exec.{
  Exec, ok, pure, refuse, ◌>>=◌, ◌>>◌, unsupported, already_exists, not_empty,
}
use discord_sftp_drive.Seal.{Bytes}
use discord_sftp_drive.Model.{Node, Env, World}
use discord_sftp_drive.Store.{update_one}
use discord_sftp_drive.Path.{root, slash, normalize_path, split_path}
use discord_sftp_drive.Vfs.Tags.{tag_version, node_mac, now, set_version}
use discord_sftp_drive.Vfs.Entries.{locked_dirs, stage_entries, promote}
use discord_sftp_drive.Vfs.Resolve.{get_node, require_node, require_dir, live_children}
use discord_sftp_drive.Vfs.Trash.{set_trashed}
use discord_sftp_drive.Vfs.Purge.{purge}
use discord_sftp_drive.Vfs.Create.{parent_path}

-- `s.startswith(prefix)`
unfoldable pub starts_with : Str → Str → Bool
starts_with [] s = true
starts_with (p ∷ ps) [] = false
starts_with (p ∷ ps) (c ∷ cs) = p == c && starts_with ps cs

-- The directories whose staged tags are still to be promoted.
abbrev pub Staged : Type 0
Staged = List (Str × Bytes)

module _ {C : Type 0} (env : Env C) where
  -- One staging where both ends are one directory, else one for each end.
  unfoldable pub stage_move : Node → Str → Str → Str → Exec (World C) Staged
  stage_move n source target name =
      let leaving = (n.id, or_else n.filename []) ∷ [] in
      let arriving = (n.id, name) ∷ [] in
      if str_eq source target
      then (do staged ← stage_entries env target arriving leaving; pure ((target, staged) ∷ []))
      else (do
        out ← stage_entries env source [] leaving
        into ← stage_entries env target arriving []
        pure ((source, out) ∷ (target, into) ∷ []))

  unfoldable pub promote_all : Staged → Exec (World C) (Unit {0})
  promote_all [] = pure tt
  promote_all ((d, staged) ∷ rest) = do promote env d staged; promote_all rest

  -- The retag and the one write that moves a node.
  unfoldable pub write_moved : Node → Str → Str → Exec (World C) (Unit {0})
  write_moved n target name = do
    let mac = node_mac env (record n { parent_id = some target; filename = some name })
    update_one env n.id (λ stored. record stored {
      parent_id = some target;
      filename = some name;
      mac = mac;
      tag_version = tag_version;
    })
    λ w. (ok tt, if n.is_dir then w else set_version env n.id mac w)

  module _ (root_id : Str) where
    -- The target that is there already: it goes through the trash and is destroyed.
    unfoldable pub clear_target : Bool → Option Node → Exec (World C) (Unit {0})
    clear_target overwrite none = pure tt
    clear_target overwrite (some existing) = do
      refuse (not overwrite) already_exists
      kids ← (if existing.is_dir then live_children env existing.id else pure [])
      refuse (not (is_empty kids)) not_empty
      time ← now env
      set_trashed env existing (some time)
      purge env root_id (λ _. false) existing.id
      pure tt

    -- `rename` under the locks of both ends.
    unfoldable pub move_locked : Node → Str → Str → Str → Str → Bool → Exec (World C) (Unit {0})
    move_locked n new source target name overwrite = do
      existing ← get_node env root_id new
      clear_target overwrite existing
      commits ← stage_move n source target name
      write_moved n target name
      promote_all commits

    -- `rename`
    unfoldable pub rename : Str → Str → Bool → Exec (World C) (Unit {0})
    rename old_path new_path overwrite = do
      let old = normalize_path old_path
      let new = normalize_path new_path
      refuse (str_eq old root) unsupported
      refuse (str_eq new root) already_exists
      n ← require_node env root_id old
      if str_eq old new then pure tt else do
        refuse (n.is_dir && starts_with (old ++ slash ∷ []) new) unsupported
        parent ← require_dir env root_id (parent_path new)
        let source = or_else n.parent_id []
        locked_dirs env (source ∷ parent.id ∷ [])
            (move_locked n new source parent.id (split_path new).1 overwrite)
