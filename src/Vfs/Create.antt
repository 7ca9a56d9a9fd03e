-- ===== src/Vfs/Create.antt =====
-- New nodes, and the metadata of old ones (src/vfs.py: `makedir`, `_create_file`,
-- `_apply_metadata`, `set_metadata`, `truncate`). The uuid of a new node is an argument.
use discord_sftp_drive.Base.{
  ℕ, Str, str_eq, Bool, false, not, ◌||◌, Option, none, some, [], ◌∷◌, if◌then◌else◌, ℤ, is_some,
  or_else,
}
use discord_sftp_drive.Exec.{Exec, ok, pure, refuse, ◌>>=◌, ◌>>◌, already_exists, is_a_directory}
use discord_sftp_drive.Model.{Node, Env, World}
use discord_sftp_drive.Store.{insert_one, update_one}
use discord_sftp_drive.Path.{root, normalize_path, split_path}
use discord_sftp_drive.Vfs.Tags.{tag_version, file_mac, now, set_version}
use discord_sftp_drive.Vfs.Chunks.{resize_node}
use discord_sftp_drive.Vfs.Entries.{locked_dirs, stage_entries, promote, new_dir_doc}
use discord_sftp_drive.Vfs.Resolve.{
  get_node, require_node, require_dir, default_file_mode, default_dir_mode, mask_mode,
}

-- The fields that a client may set; `none` is left alone.
pub record Metadata : Type 0 where
  pub permissions : Option ℕ
  pub mtime : Option ℕ
  pub atime : Option ℕ

unfoldable pub is_blank : Metadata → Bool
is_blank m = not (is_some m.permissions || is_some m.mtime || is_some m.atime)

-- The `update` of `_apply_metadata`.
unfoldable pub with_metadata : Metadata → Node → Node
with_metadata m n = record n {
  permissions = elim m.permissions [ none ↦ n.permissions | some p ↦ mask_mode p ];
  modified_at = or_else m.mtime n.modified_at;
  accessed_at = elim m.atime [ none ↦ n.accessed_at | some t ↦ some t ];
}

-- A file document with no contents yet.
unfoldable pub bare_file : Str → Option Str → Option Str → ℕ → ℕ → ℕ → Node
bare_file i parent name permissions created time = record {
  id = i;
  parent_id = parent;
  filename = name;
  is_dir = false;
  size = 0;
  permissions = permissions;
  created_at = created;
  modified_at = time;
  accessed_at = none;
  chunks = [];
  mac = [];
  tag_version = tag_version;
  trashed_at = none;
  entries_mac = [];
  entries_mac_pending = [];
}

-- `split_path(normalized)[0]`, where the path is not the root.
abbrev pub parent_path : Str → Str
parent_path path = or_else (split_path path).0 root

module _ {C : Type 0} (env : Env C) where
  -- An empty file has its tag from the start.
  unfoldable pub new_file : Str → Option Str → Option Str → ℕ → ℕ → ℕ → Node
  new_file i parent name permissions created time =
      let n = bare_file i parent name permissions created time in record n { mac = file_mac env n }

  -- `_apply_metadata`
  unfoldable pub apply_metadata : Metadata → Node → Exec (World C) Node
  apply_metadata m n =
      if is_blank m
      then pure n
      else (do update_one env n.id (with_metadata m); pure (with_metadata m n))

  -- Stage, insert, promote: the node that `makedir` and `_create_file` add to a directory.
  unfoldable pub insert_entry : Str → Str → Node → (World C → World C) → Exec (World C) (Unit {0})
  insert_entry parent name n after = do
    staged ← stage_entries env parent ((n.id, name) ∷ []) []
    insert_one env n
    λ w. (ok tt, after w)
    promote env parent staged

  module _ (root_id : Str) where
    -- `makedir`
    unfoldable pub makedir : Str → Option ℕ → Str → Exec (World C) Node
    makedir path permissions uuid = do
      let normalized = normalize_path path
      refuse (str_eq normalized root) already_exists
      found ← get_node env root_id normalized
      refuse (is_some found) already_exists
      let name = (split_path normalized).1
      parent ← require_dir env root_id (parent_path normalized)
      time ← now env
      let mode : ℕ = elim permissions [ none ↦ default_dir_mode | some p ↦ mask_mode p ]
      let n = new_dir_doc env uuid (some parent.id) name mode time
      locked_dirs env (parent.id ∷ []) (insert_entry parent.id name n (λ w. w))
      pure n

    -- `_create_file`
    unfoldable pub create_file : Str → Str → Exec (World C) Node
    create_file normalized uuid = do
      let name = (split_path normalized).1
      parent ← require_dir env root_id (parent_path normalized)
      time ← now env
      let n = new_file uuid (some parent.id) (some name) default_file_mode time time
      locked_dirs env (parent.id ∷ []) (insert_entry parent.id name n (set_version env n.id n.mac))
      pure n

    -- `set_metadata` by path
    unfoldable pub set_metadata : Str → Metadata → Exec (World C) Node
    set_metadata path m = do n ← require_node env root_id path; apply_metadata m n

    -- `truncate` by path
    unfoldable pub truncate : Str → ℤ → Exec (World C) Node
    truncate path size = do
      n ← require_node env root_id path
      refuse n.is_dir is_a_directory
      resize_node env n size
