-- ===== src/File/Writing.antt =====
-- Writing through a handle (src/vfs.py: `write_at`, `_append`, `_write_random`, `_append_now`,
-- `_replace_chunk`, `_flush_buffer`, `_upload_chunk`).
use discord_sftp_drive.Base.{
  ℕ, zero, suc, ◌+◌, ◌-◌, true, false, not, none, some, List, [], ◌∷◌, ◌++◌, leb, ltb, ◌==◌,
  is_empty, if◌then◌else◌, ℤ, pos, negsuc, length, take, drop, replicate, min, max,
}
use discord_sftp_drive.Exec.{
  Exec, ok, raise, pure, fail, catch, ◌>>=◌, ◌>>◌, unsupported, failed_state,
}
use discord_sftp_drive.Seal.{Bytes}
use discord_sftp_drive.Model.{Chunk, Env}
use discord_sftp_drive.Vfs.Tags.{commit_content}
use discord_sftp_drive.Vfs.Chunks.{covered_end, upload_sealed, safe_delete_message}
use discord_sftp_drive.File.Handle.{
  State, on_world, on_file, reindex, append_position, end_of_file, sync,
}
use discord_sftp_drive.File.Cache.{locate_chunk, chunk_bytes, put_last}
use discord_sftp_drive.File.Unwind.{rollback, release}

-- The chunk dictionary is shared by `node["chunks"]` and `_chunks`: to assign its fields is to put
-- the new chunk in the place of the one with its index.
unfoldable pub swap_chunk : Chunk → List Chunk → List Chunk
swap_chunk new [] = []
swap_chunk new (c ∷ cs) = if c.index == new.index then new ∷ cs else c ∷ swap_chunk new cs

-- `patched[start:start + take] = view[...]`
unfoldable pub patch : ℕ → Bytes → Bytes → Bytes
patch start new old = take start old ++ (new ++ drop (start + length new) old)

module _ {C : Type 0} (env : Env C) where
  -- `_upload_chunk`. Either unwinding path releases its own attachment before `_rollback`.
  unfoldable pub upload_chunk : Bytes → Exec (State C) (Unit {0})
  upload_chunk [] s = (ok tt, s)
  upload_chunk (b ∷ bs) s =
      let data' = b ∷ bs in
      let n = s.file.node in
      let offset = covered_end n.chunks in
      (do
        chunk ←
            catch (on_world (upload_sealed env n.id (length n.chunks) offset data'))
              (λ e. do rollback env; fail e)
        on_file (λ h. record h { chunks_uploaded = h.chunks_uploaded + 1 })
        n' ←
            catch
              (on_world (
                commit_content env
                  (record n {
                    chunks = n.chunks ++ chunk ∷ [];
                    size = max n.size (offset + length data');
                  })
                  s.file.pinned_mtime))
              (λ e. do release env chunk.message_id; rollback env; fail e)
        on_file (λ h. reindex (record h { node = n' })))
        s

  -- `_flush_buffer`
  unfoldable pub flush_buffer : Exec (State C) (Unit {0})
  flush_buffer s =
      if is_empty s.file.buffer
      then (ok tt, s)
      else (do upload_chunk s.file.buffer; on_file (λ h. record h { buffer = [] })) s

  -- The loop of `_append`: whole chunks leave the buffer.
  unfoldable pub drain : ℕ → Exec (State C) (Unit {0})
  drain zero s = (ok tt, s)
  drain (suc fuel) s = elim (leb env.max_chunk_size (length s.file.buffer)) [
    | false ↦ (ok tt, s)
    | true ↦
        (do
          upload_chunk (take env.max_chunk_size s.file.buffer)
          on_file (λ h. record h { buffer = drop env.max_chunk_size h.buffer })
          drain fuel)
          s
  ]

  -- `_append`
  unfoldable pub append : Bytes → Exec (State C) ℕ
  append data' s =
      let buffer = s.file.buffer ++ data' in
      (do
        on_file (λ h. record h { buffer = buffer })
        drain (suc (length buffer))
        pure (length data'))
        s

  -- `_append_now`: chunks at once, nothing buffered.
  unfoldable pub append_now : ℕ → Bytes → Exec (State C) (Unit {0})
  append_now zero data' s = (ok tt, s)
  append_now (suc fuel) [] s = (ok tt, s)
  append_now (suc fuel) (b ∷ bs) s =
      (do
        upload_chunk (take env.max_chunk_size (b ∷ bs))
        append_now fuel (drop env.max_chunk_size (b ∷ bs)))
        s

  -- `_replace_chunk`: the old attachment goes only when nothing refers to it any more.
  unfoldable pub replace_chunk : Chunk → Bytes → Exec (State C) (Unit {0})
  replace_chunk c plaintext s =
      let n = s.file.node in
      (do
        sealed ← on_world (upload_sealed env n.id c.index c.offset plaintext)
        let new = record c {
          message_id = sealed.message_id;
          nonce = sealed.nonce;
          hmac = sealed.hmac;
        }
        n' ←
            catch
              (on_world (
                commit_content env (record n { chunks = swap_chunk new n.chunks })
                  s.file.pinned_mtime))
              (λ e. do on_world (safe_delete_message env sealed.message_id); fail e)
        on_file (λ h. record h { node = n' })
        on_world (safe_delete_message env c.message_id)
        on_file (λ h. reindex (record h { cache = put_last c.index plaintext h.cache })))
        s

  -- The loop of `_write_random`: patch the chunks from `at` on; what is left of the data.
  unfoldable pub patch_chunks : ℕ → ℕ → Bytes → Exec (State C) Bytes
  patch_chunks zero at rest s = (ok rest, s)
  patch_chunks (suc fuel) at [] s = (ok [], s)
  patch_chunks (suc fuel) at (b ∷ bs) s = elim (ltb at (covered_end s.file.node.chunks)) [
    | false ↦ (ok (b ∷ bs), s)
    | true ↦ elim (locate_chunk at s.file.chunks) [
      | none ↦ (ok (b ∷ bs), s)
      | some c ↦
          (do
            let start = at - c.offset
            let count = min (length (b ∷ bs)) (c.size - start)
            old ← chunk_bytes env c
            replace_chunk c (patch start (take count (b ∷ bs)) old)
            patch_chunks fuel (at + count) (drop count (b ∷ bs)))
            s
    ]
  ]

  -- A write past the end of the data puts zeros into the gap first.
  unfoldable pub fill_gap : ℕ → Exec (State C) (Unit {0})
  fill_gap offset s =
      let gap = offset - covered_end s.file.node.chunks in append_now gap (replicate gap 0) s

  -- `_write_random`
  unfoldable pub write_random : ℕ → Bytes → Exec (State C) ℕ
  write_random offset data' = do
    flush_buffer
    fill_gap offset
    rest ← patch_chunks (length data') offset data'
    append_now (length rest) rest
    pure (length data')

  -- `write_at` from `_sync` on.
  unfoldable pub write_synced : ℕ → Bytes → Exec (State C) ℕ
  write_synced offset data' s =
      let s' = record s { file = record s.file { pinned_mtime = none } } in
      let offset' = if s.file.append_mode then end_of_file s.file else offset in
      if offset' == append_position s.file then append data' s' else write_random offset' data' s'

  -- `write_at`
  unfoldable pub write_at : ℤ → Bytes → Exec (State C) ℕ
  write_at offset data' s =
      if not s.file.writable
      then (raise unsupported, s)
      else if s.file.failed
      then (raise failed_state, s)
      else if is_empty data'
      then (ok 0, s)
      else elim offset [
        | negsuc _ ↦ (raise unsupported, s)
        | pos at ↦ (do sync env; write_synced at data') s
      ]
