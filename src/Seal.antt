-- ===== src/Seal.antt =====
-- What the file system uses of the cryptography (src/crypto.py), for one session key: the
-- functions that `vfs.py` imports, with the laws that it relies on. `Crypto.Keyed` fills this
-- interface from the definitions of crypto.py.
use discord_sftp_drive.Base.{ℕ, Str, Bool, Option, List, [], ◌≡◌, ◌≢◌, length, str_eq}

-- `bytes`; a tag or a nonce is kept decoded, and a tag that is absent is the empty string.
abbrev pub Bytes : Type 0
Bytes = List ℕ

pub record ChunkPlace : Type 0 where
  pub file_id : Str
  pub index : ℕ
  pub offset : ℕ
  pub size : ℕ

pub record FileShape : Type 0 where
  pub file_id : Str
  pub parent_id : Str
  pub filename : Str
  pub size : ℕ
  pub chunk_tags : List Bytes
  pub trashed_at : Option ℕ

pub record DirShape : Type 0 where
  pub dir_id : Str
  pub parent_id : Str
  pub filename : Str
  pub trashed_at : Option ℕ

pub record Seal : Type 0 where
  -- `transform(key, nonce, data)`
  pub transform : Bytes → Bytes → Bytes
  -- `chunk_tag(key, nonce, ciphertext, …)`, `node_tag`, `dir_tag`, `dir_entries_tag`
  pub chunk_tag : Bytes → Bytes → ChunkPlace → Bytes
  pub node_tag : FileShape → Bytes
  pub dir_tag : DirShape → Bytes
  pub dir_entries_tag : Str → List (Str × Str) → Bytes
  pub transform_inv : (n p : Bytes) → transform n (transform n p) ≡ p
  pub length-transform : (n p : Bytes) → length (transform n p) ≡ length p
  pub chunk_tag-ne-nil : (n ct : Bytes) (p : ChunkPlace) → chunk_tag n ct p ≢ []
  pub node_tag-ne-nil : (s : FileShape) → node_tag s ≢ []
  pub dir_tag-ne-nil : (s : DirShape) → dir_tag s ≢ []
  pub dir_entries_tag-ne-nil : (i : Str) (es : List (Str × Str)) → dir_entries_tag i es ≢ []

-- `verify_chunk`, `verify_node` and `verify_dir` compare a recorded tag with a fresh one:
-- a missing tag is a failure, not a pass.
unfoldable pub tag_matches : Bytes → Bytes → Bool
tag_matches recorded fresh = str_eq recorded fresh
