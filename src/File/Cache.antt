-- ===== src/File/Cache.antt =====
-- The chunks that a handle keeps decrypted (src/vfs.py: `_locate_chunk`, `_chunk_bytes`).
use discord_sftp_drive.Base.{
  ℕ, ◌+◌, Option, none, some, List, [], ◌∷◌, ◌++◌, leb, ◌==◌, not, if◌then◌else◌, length, filter_by,
}
use discord_sftp_drive.Exec.{Exec, ok, pure, ◌>>=◌, ◌>>◌}
use discord_sftp_drive.Seal.{Bytes}
use discord_sftp_drive.Model.{Chunk, Env}
use discord_sftp_drive.Vfs.Chunks.{fetch_chunk}
use discord_sftp_drive.File.Handle.{State, on_world, on_file}

-- `_chunks[bisect_right(_chunk_starts, pos) - 1]`: in a list sorted by offset, the last chunk that
-- starts at `pos` or before.
unfoldable pub last_starting : Option Chunk → ℕ → List Chunk → Option Chunk
last_starting best at [] = best
last_starting best at (c ∷ cs) = if leb c.offset at then last_starting (some c) at cs else best

-- `_locate_chunk`, at a position that is not negative.
unfoldable pub locate_chunk : ℕ → List Chunk → Option Chunk
locate_chunk at chunks = elim (last_starting none at chunks) [
  | none ↦ none
  | some c ↦ if leb (c.offset + c.size) at then none else some c
]

unfoldable pub cached : ℕ → List (ℕ × Bytes) → Option Bytes
cached i [] = none
cached i ((j, b) ∷ cache) = if j == i then some b else cached i cache

-- `cache[i] = b; cache.move_to_end(i)`
unfoldable pub put_last : ℕ → Bytes → List (ℕ × Bytes) → List (ℕ × Bytes)
put_last i b cache = filter_by (λ e. not (e.0 == i)) cache ++ (i, b) ∷ []

-- `while len(cache) > limit: cache.popitem(last=False)`
unfoldable pub evict : ℕ → List (ℕ × Bytes) → List (ℕ × Bytes)
evict limit [] = []
evict limit (e ∷ cache) =
    let rest = evict limit cache in if leb (length (e ∷ cache)) limit then e ∷ cache else rest

module _ {C : Type 0} (env : Env C) where
  -- `_chunk_bytes`
  unfoldable pub chunk_bytes : Chunk → Exec (State C) Bytes
  chunk_bytes c s = elim (cached c.index s.file.cache) [
    | some b ↦ (ok b, record s { file = record s.file { cache = put_last c.index b s.file.cache } })
    | none ↦
        (do
          plaintext ← on_world (fetch_chunk env s.file.node.id c)
          on_file (λ h. record h {
            cache = evict env.chunk_cache_size (put_last c.index plaintext h.cache);
          })
          pure plaintext)
          s
  ]
