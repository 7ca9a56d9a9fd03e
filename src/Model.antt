-- ===== src/Model.antt =====
-- The data that the file system works on (the node schema at the top of src/vfs.py), and the
-- world outside the process: the metadata store, the Discord channel, and what a process keeps
-- in module-level dictionaries.
use discord_sftp_drive.Base.{ℕ, Str, Bool, Option, none, some, List, ◌≡◌, ◌≢◌}
use discord_sftp_drive.Seal.{Bytes, Seal}

-- An entry of a file's `chunks`. Message ids are Discord's own and opaque: numbers.
pub record Chunk : Type 0 where
  pub index : ℕ
  pub message_id : ℕ
  pub nonce : Bytes
  pub hmac : Bytes
  pub offset : ℕ
  pub size : ℕ

-- A document of the collection `nodes`. A tag that a document lacks is the empty string.
pub record Node : Type 0 where
  pub id : Str
  pub parent_id : Option Str
  pub filename : Option Str
  pub is_dir : Bool
  pub size : ℕ
  pub permissions : ℕ
  pub created_at : ℕ
  pub modified_at : ℕ
  pub accessed_at : Option ℕ
  pub chunks : List Chunk
  pub mac : Bytes
  pub tag_version : ℕ
  pub trashed_at : Option ℕ
  pub entries_mac : Bytes
  pub entries_mac_pending : Bytes

-- Discord, as `discord_api` is called: any operation may fail, and the channel may change in ways
-- that nobody sees. `stored` is what a later download of a message would be served.
pub record Discord (C : Type 0) : Type 0 where
  pub upload : Bytes → C → Option ℕ × C
  pub download : ℕ → C → Option Bytes × C
  pub delete : ℕ → C → Bool × C
  pub stored : ℕ → C → Option Bytes
  -- a message id is new, and its attachment is the one that was sent
  pub upload_fresh : (b : Bytes) (c : C) (m : ℕ) → (upload b c).0 ≡ some m → stored m c ≡ none
  pub upload_stores :
      (b : Bytes) (c : C) (m : ℕ) → (upload b c).0 ≡ some m → stored m (upload b c).1 ≡ some b
  -- what was there stays there
  pub upload_keeps :
      (b : Bytes) (c : C) (j : ℕ) (x : Bytes)
      → stored j c ≡ some x
      → stored j (upload b c).1 ≡ some x
  pub download_sound : (m : ℕ) (c : C) (b : Bytes) → (download m c).0 ≡ some b → stored m c ≡ some b
  pub download_keeps : (m : ℕ) (c : C) (j : ℕ) → stored j (download m c).1 ≡ stored j c
  pub delete_keeps : (m : ℕ) (c : C) (j : ℕ) → j ≢ m → stored j (delete m c).1 ≡ stored j c

-- A channel that does not fail. Only the theorems that promise success assume it.
pub record IsReliable {C : Type 0} (d : Discord C) : Type 0 where
  pub uploads : (b : Bytes) (c : C) → (d.upload b c).0 ≢ none
  pub downloads : (m : ℕ) (c : C) (b : Bytes) → d.stored m c ≡ some b → (d.download m c).0 ≡ some b

-- What a process runs with: the session's key, Discord, whether the n-th call of the metadata
-- store succeeds, the clock as the n-th call reads it, the n-th nonce of `os.urandom`, the methods
-- of `str` that turn on Unicode tables, and the constants of config.py.
pub record Env (C : Type 0) : Type 0 where
  pub seal : Seal
  pub discord : Discord C
  pub store_up : ℕ → Bool
  pub clock : ℕ → ℕ
  pub nonce : ℕ → Bytes
  -- `str.lower`, `str.casefold`, `str.strip`
  pub lower : Str → Str
  pub casefold : Str → Str
  pub strip : Str → Str
  pub max_chunk_size : ℕ
  pub chunk_cache_size : ℕ

pub record World (C : Type 0) : Type 0 where
  pub channel : C
  pub nodes : List Node
  -- `_node_versions`: node id to the mac last committed for it
  pub versions : List (Str × Bytes)
  -- `_dirs_held_by` of the current task
  pub held : List Str
  pub calls : ℕ
  pub nonces : ℕ
