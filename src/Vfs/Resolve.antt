-- ===== src/Vfs/Resolve.antt =====
-- Resolving a path (src/vfs.py: `get_node`, `require_node`, `require_dir`, `ensure_root`,
-- `entries_of`, `list_dir`). A `DiscordVFS` is the session's tree: its `root_id`.
use discord_sftp_drive.Base.{
  ℕ, Str, true, false, not, ◌&&◌, ◌%◌, Option, none, some, List, [], ◌∷◌, ◌==◌, if◌then◌else◌,
  is_empty,
}
use discord_sftp_drive.Exec.{
  Exec, pure, fail, refuse, ◌>>=◌, ◌>>◌, not_found, not_a_directory, integrity, predates_tags,
}
use discord_sftp_drive.Model.{Node, Env, World}
use discord_sftp_drive.Store.{
  find_one, find, insert_one, update_one, has_id, is_live_at, is_live, has_parent,
}
use discord_sftp_drive.Path.{walk_parts}
use discord_sftp_drive.Vfs.Tags.{tag_version, verify_node, entries_verify, entries_of, now}
use discord_sftp_drive.Vfs.Entries.{children, new_dir_doc}

abbrev pub default_file_mode : ℕ
default_file_mode = 0o644

abbrev pub default_dir_mode : ℕ
default_dir_mode = 0o755

-- `int(permissions) & PERMISSION_MASK`, with the mask 0o7777
abbrev pub mask_mode : ℕ → ℕ
mask_mode m = m % 4096

module _ {C : Type 0} (env : Env C) where
  -- `_verify_node(key, await find_one(...))`: a miss passes through.
  unfoldable pub verify_found : Option Node → Exec (World C) (Option Node)
  verify_found none = pure none
  verify_found (some n) = do n' ← verify_node env n; pure (some n')

  -- The loop of `get_node`: every segment is checked on the way down.
  unfoldable pub walk : Option Node → List Str → Exec (World C) (Option Node)
  walk node [] = pure node
  walk none (part ∷ parts) = pure none
  walk (some n) (part ∷ parts) = elim n.is_dir [
    | false ↦ pure none
    | true ↦ do
      found ← find_one env (is_live_at n.id part)
      next ← verify_found found
      walk next parts
  ]

  unfoldable pub get_node_by_id : Str → Exec (World C) (Option Node)
  get_node_by_id i = do found ← find_one env (has_id i); verify_found found

  -- `live_children`
  unfoldable pub live_children : Str → Exec (World C) (List Node)
  live_children d = find env (λ n. has_parent d n && is_live n)

  -- The loop of `entries_of`: the live children, each trashed one with its own tag checked.
  unfoldable pub keep_live : List Node → Exec (World C) (List Node)
  keep_live [] = pure []
  keep_live (n ∷ ns) =
      if is_live n
      then (do rest ← keep_live ns; pure (n ∷ rest))
      else (do verify_node env n; keep_live ns)

  -- `DiscordVFS.entries_of`: the tag is checked over every child, then the trash is left out.
  unfoldable pub list_entries : Node → Exec (World C) (List Node)
  list_entries d = do
    kids ← children env d.id
    refuse (not (entries_verify env d.id (entries_of kids) d.entries_mac d.entries_mac_pending))
        integrity
    keep_live kids

  module _ (root_id : Str) where
    -- `get_node`
    unfoldable pub get_node : Str → Exec (World C) (Option Node)
    get_node path = do top ← get_node_by_id root_id; walk top (walk_parts path)

    -- `require_node`
    unfoldable pub require_node : Str → Exec (World C) Node
    require_node path = do
      found ← get_node path
      elim found [ none ↦ fail not_found | some n ↦ pure n ]

    -- `require_dir`
    unfoldable pub require_dir : Str → Exec (World C) Node
    require_dir path = do n ← require_node path; if n.is_dir then pure n else fail not_a_directory

    -- `list_dir`
    unfoldable pub list_dir : Str → Exec (World C) (List Node)
    list_dir path = do d ← require_dir path; list_entries d

    -- `ensure_root`: a root without a current tag is tagged only while it is empty.
    unfoldable pub ensure_root : Exec (World C) (Unit {0})
    ensure_root = do
      found ← find_one env (has_id root_id)
      elim found [
        | none ↦ do
          time ← now env
          insert_one env (new_dir_doc env root_id none [] default_dir_mode time)
        | some existing ↦ if existing.tag_version == tag_version then pure tt else (do
          kids ← children env root_id
          refuse (not (is_empty kids)) predates_tags
          time ← now env
          update_one env root_id (λ _.
              new_dir_doc env root_id none [] default_dir_mode
                (if existing.created_at == 0 then time else existing.created_at)))
      ]
