-- ===== src/Vfs/Tags.antt =====
-- Integrity tags over nodes (src/vfs.py): what each tag covers, the checks on a node that has been
-- read, and the one write that changes a file's contents.
use discord_sftp_drive.Base.{
  ℕ, Str, Bool, true, not, Option, List, [], ◌∷◌, map, leb, ◌==◌, if◌then◌else◌, or_else, insert,
  remove,
}
use discord_sftp_drive.Exec.{Exec, ok, pure, fail, gets, modify, ◌>>=◌, ◌>>◌, integrity}
use discord_sftp_drive.Seal.{Bytes, FileShape, DirShape, tag_matches}
use discord_sftp_drive.Model.{Chunk, Node, Env, World}
use discord_sftp_drive.Store.{update_one}

abbrev pub tag_version : ℕ
tag_version = 3

-- `sorted(chunks, key=lambda c: c["offset"])`, which is stable.
unfoldable pub insert_by_offset : Chunk → List Chunk → List Chunk
insert_by_offset c [] = c ∷ []
insert_by_offset c (d ∷ ds) =
    if leb c.offset d.offset then c ∷ d ∷ ds else d ∷ insert_by_offset c ds

unfoldable pub sort_by_offset : List Chunk → List Chunk
sort_by_offset [] = []
sort_by_offset (c ∷ cs) = insert_by_offset c (sort_by_offset cs)

-- `_chunk_tags`
unfoldable pub chunk_tags : Node → List Bytes
chunk_tags n = map (λ c. c.hmac) (sort_by_offset n.chunks)

-- `_entries_of`
unfoldable pub entries_of : List Node → List (Str × Str)
entries_of [] = []
entries_of (n ∷ ns) = (n.id, or_else n.filename []) ∷ entries_of ns

unfoldable pub file_shape : Node → FileShape
file_shape n = record {
  file_id = n.id;
  parent_id = or_else n.parent_id [];
  filename = or_else n.filename [];
  size = n.size;
  chunk_tags = chunk_tags n;
  trashed_at = n.trashed_at;
}

unfoldable pub dir_shape : Node → DirShape
dir_shape n = record {
  dir_id = n.id;
  parent_id = or_else n.parent_id [];
  filename = or_else n.filename [];
  trashed_at = n.trashed_at;
}

-- The `$set` of `_content_update`.
unfoldable pub with_content : Node → Bytes → ℕ → Node → Node
with_content n mac when stored = record stored {
  size = n.size;
  chunks = n.chunks;
  mac = mac;
  tag_version = tag_version;
  modified_at = when;
}

-- `_node_versions.pop(i, None)`
abbrev pub forget_version : {C : Type 0} → Str → World C → World C
forget_version i w = record w { versions = remove i w.versions }

module _ {C : Type 0} (env : Env C) where
  -- `_file_mac`, `_dir_mac`
  unfoldable pub file_mac : Node → Bytes
  file_mac n = env.seal.node_tag (file_shape n)

  unfoldable pub dir_mac : Node → Bytes
  dir_mac n = env.seal.dir_tag (dir_shape n)

  -- The tag of a node, whichever kind it is.
  unfoldable pub node_mac : Node → Bytes
  node_mac n = if n.is_dir then dir_mac n else file_mac n

  -- `_now()`
  abbrev pub now : Exec (World C) ℕ
  now = gets (λ w. env.clock w.calls)

  abbrev pub set_version : Str → Bytes → World C → World C
  set_version i mac w = record w { versions = insert i mac w.versions }

  -- `_verify_node`
  unfoldable pub verify_node : Node → Exec (World C) Node
  verify_node n =
      if not (n.tag_version == tag_version)
      then fail integrity
      else if n.is_dir
      then (if tag_matches n.mac (dir_mac n) then pure n else fail integrity)
      else if tag_matches n.mac (file_mac n)
      then (λ w. (ok n, set_version n.id n.mac w))
      else fail integrity

  -- `crypto.verify_dir_entries`
  unfoldable pub entries_verify : Str → List (Str × Str) → Bytes → Bytes → Bool
  entries_verify dir_id entries recorded pending =
      let actual = env.seal.dir_entries_tag dir_id entries in
      if tag_matches recorded actual then true else tag_matches pending actual

  -- `_commit_content`: the node comes back with the tag and the time that were written.
  unfoldable pub commit_content : Node → Option ℕ → Exec (World C) Node
  commit_content n mtime = do
    clock ← now
    let when = or_else mtime clock
    let mac = file_mac n
    update_one env n.id (with_content n mac when)
    modify (set_version n.id mac)
    pure (record n { mac = mac; modified_at = when })
