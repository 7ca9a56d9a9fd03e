-- ===== src/File/Reading.antt =====
-- Reading through a handle (src/vfs.py: `read_at`).
use discord_sftp_drive.Base.{
  ℕ, zero, suc, ◌+◌, ◌-◌, true, false, not, ◌&&◌, none, some, [], ◌++◌, leb, is_empty,
  if◌then◌else◌, ℤ, pos, negsuc, length, take, drop, replicate, min,
}
use discord_sftp_drive.Exec.{Exec, ok, raise, ◌>>=◌, ◌>>◌, unsupported}
use discord_sftp_drive.Seal.{Bytes}
use discord_sftp_drive.Model.{Env}
use discord_sftp_drive.File.Handle.{State, sync}
use discord_sftp_drive.File.Cache.{locate_chunk, chunk_bytes}
use discord_sftp_drive.File.Writing.{flush_buffer}

module _ {C : Type 0} (env : Env C) where
  -- The loop of `read_at`: `remaining` bytes from `at` on, behind those already read. Each round
  -- that goes on reads at least one byte, so `remaining` rounds are enough.
  unfoldable pub read_loop : ℕ → ℕ → ℕ → Bytes → Exec (State C) Bytes
  read_loop zero at remaining out s = (ok out, s)
  read_loop (suc fuel) at zero out s = (ok out, s)
  read_loop (suc fuel) at (suc remaining') out s =
      let remaining = suc remaining' in
      elim (leb s.file.node.size at) [
        | true ↦ (ok out, s)
        | false ↦ elim (locate_chunk at s.file.chunks) [
          | none ↦
              let count = min remaining (s.file.node.size - at) in
              read_loop fuel (at + count) (remaining - count) (out ++ replicate count 0) s
          | some c ↦
              (do
                bytes ← chunk_bytes env c
                let start = at - c.offset
                let count = min remaining (length bytes - start)
                λ t. elim (leb (length bytes) start) [
                  | true ↦ (ok out, t)
                  | false ↦
                      read_loop fuel (at + count) (remaining - count)
                        (out ++ take count (drop start bytes)) t
                ])
                s
        ]
      ]

  -- What a reader must see is uploaded first, unless the handle has failed.
  unfoldable pub flush_for_reader : Exec (State C) (Unit {0})
  flush_for_reader s =
      if not (is_empty s.file.buffer) && not s.file.failed then flush_buffer env s else (ok tt, s)

  unfoldable pub read_from : ℤ → ℕ → Exec (State C) Bytes
  read_from (negsuc _) count s = (ok [], s)
  read_from (pos at) count s = read_loop count at count [] s

  -- `read_at`
  unfoldable pub read_at : ℤ → ℕ → Exec (State C) Bytes
  read_at offset count s =
      if not s.file.readable
      then (raise unsupported, s)
      else (do sync env; flush_for_reader; read_from offset count) s
