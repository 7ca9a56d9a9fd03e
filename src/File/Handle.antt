-- ===== src/File/Handle.antt =====
-- The state of a `DiscordFile`, its derived positions, `seek` and `_sync` (src/vfs.py).
use discord_sftp_drive.Base.{
  ℕ, ◌+◌, Str, str_eq, Bool, true, false, Option, none, some, List, [], leb, if◌then◌else◌, max,
  length, lookup,
}
use discord_sftp_drive.Exec.{Exec, ok, fail, ◌>>=◌, ◌>>◌, not_found}
use discord_sftp_drive.Seal.{Bytes}
use discord_sftp_drive.Model.{Chunk, Node, Env, World}
use discord_sftp_drive.Store.{find_one, has_id}
use discord_sftp_drive.Vfs.Tags.{sort_by_offset, verify_node}
use discord_sftp_drive.Vfs.Chunks.{covered_end}

-- Where a finished overwrite goes: `_replaces`.
pub record Target : Type 0 where
  pub parent_id : Str
  pub filename : Str

pub record Handle : Type 0 where
  pub node : Node
  -- `node["_created_by_handle"]`
  pub created : Bool
  pub readable : Bool
  pub writable : Bool
  pub append_mode : Bool
  pub replaces : Option Target
  pub buffer : Bytes
  -- `_chunk_cache`: chunk index to plaintext, least recently used first
  pub cache : List (ℕ × Bytes)
  -- `_chunks`, sorted by offset; `_chunk_starts` is its offsets
  pub chunks : List Chunk
  pub closed : Bool
  pub failed : Bool
  pub chunks_uploaded : ℕ
  pub attachments_released : ℕ
  pub orphans : ℕ
  pub node_removed : Option Bool
  pub pinned_mtime : Option ℕ

pub record State (C : Type 0) : Type 0 where
  pub world : World C
  pub file : Handle

-- An action on the world alone.
abbrev pub on_world : {C A : Type 0} → Exec (World C) A → Exec (State C) A
on_world m s = let (r, w) = m s.world in (r, record s { world = w })

abbrev pub on_file : {C : Type 0} → (Handle → Handle) → Exec (State C) (Unit {0})
on_file f s = (ok tt, record s { file = f s.file })

-- `_reindex`
unfoldable pub reindex : Handle → Handle
reindex h = record h { chunks = sort_by_offset h.node.chunks }

-- `DiscordFile.__init__`
unfoldable pub new_handle : Node → Bool → Bool → Bool → Bool → Option Target → Handle
new_handle node created readable writable append replaces = reindex (record {
  node = node;
  created = created;
  readable = readable;
  writable = writable;
  append_mode = append;
  replaces = replaces;
  buffer = [];
  cache = [];
  chunks = [];
  closed = false;
  failed = false;
  chunks_uploaded = 0;
  attachments_released = 0;
  orphans = 0;
  node_removed = none;
  pinned_mtime = none;
})

-- `_append_position`: the end of the chunks and of what is still in the buffer.
unfoldable pub append_position : Handle → ℕ
append_position h = covered_end h.node.chunks + length h.buffer

-- `_end_of_file`
unfoldable pub end_of_file : Handle → ℕ
end_of_file h = max h.node.size (append_position h)

-- The property `size`: bytes that a failed handle still buffers do not count.
unfoldable pub size : Handle → ℕ
size h = if h.failed then h.node.size else end_of_file h

pub data Whence : Type 0 where
  seek_data seek_hole : Whence
  other : ℕ → Whence

pub data Sought : Type 0 where
  at : ℕ → Sought
  no_such_position : Sought
  not_implemented : Sought

unfoldable pub seek_at : ℕ → ℕ → Whence → Sought
seek_at end offset seek_data = if leb end offset then no_such_position else at offset
seek_at end offset seek_hole = if leb end offset then no_such_position else at end
seek_at end offset (other _) = not_implemented

-- `seek`: the file is all data, and its one hole is the end.
unfoldable pub seek : Handle → ℕ → Whence → Sought
seek h offset whence = seek_at (size h) offset whence

-- The fields that `_sync` copies from the stored document.
unfoldable pub refreshed : Node → Handle → Handle
refreshed latest h = reindex (record h {
  node = record h.node {
    size = latest.size;
    chunks = latest.chunks;
    mac = latest.mac;
    modified_at = latest.modified_at;
    parent_id = latest.parent_id;
    filename = latest.filename;
  };
  cache = [];
})

-- Whether the version table knows of a later commit than the handle's.
unfoldable pub is_current : List (Str × Bytes) → Node → Bool
is_current versions n = elim (lookup n.id versions) [ none ↦ true | some v ↦ str_eq v n.mac ]

module _ {C : Type 0} (env : Env C) where
  -- `_sync`: nothing while the version table knows of no other commit.
  unfoldable pub sync : Exec (State C) (Unit {0})
  sync s =
      if is_current s.world.versions s.file.node
      then (ok tt, s)
      else (do
        found ← on_world (find_one env (has_id s.file.node.id))
        elim found [
          | none ↦ fail not_found
          | some latest ↦ do on_world (verify_node env latest); on_file (refreshed latest)
        ])
          s

  -- `refresh`
  unfoldable pub refresh : Exec (State C) (Unit {0})
  refresh = sync
