-- ===== src/File/Writes.antt =====
-- `write_at` (src/vfs.py) against the bytes of the file: one POSIX write, whether the bytes are
-- buffered, appended, or patched into chunks that are there.
use discord_sftp_drive.Base.{
  ℕ, ◌≡◌, sym, true, false, List, ◌∷◌, length, ◌==◌, ==_iff, Bool-cases, inl, inr, if◌then◌else◌,
  pos,
}
use discord_sftp_drive.Exec.{ok, Result}
use discord_sftp_drive.Seal.{Bytes}
use discord_sftp_drive.Model.{Env}
use discord_sftp_drive.File.Handle.{State, append_position, end_of_file, sync}
use discord_sftp_drive.File.Writing.{write_synced, write_at}
use discord_sftp_drive.File.Contents.{contents}
use discord_sftp_drive.File.Commit.{Healthy}
use discord_sftp_drive.File.Uploads.{Ready}
use discord_sftp_drive.File.Splice.{overwrite}
use discord_sftp_drive.File.RandomWrites.{
  Written, unpinned, Ready-unpinned, append-Written, write_random-Written,
}

module _ {C : Type 0} (env : Env C) (healthy : Healthy env) where
  -- Where the bytes go: an append handle writes at the end, whatever the offset says.
  abbrev pub write_position : State C → ℕ → ℕ
  write_position s offset = if s.file.append_mode then end_of_file s.file else offset

  Written-unpinned :
      (s : State C) {m : Result ℕ × State C} {count : ℕ} {bytes : Bytes}
      → Written env healthy (unpinned env healthy s) m count bytes
      → Written env healthy s m count bytes
  Written-unpinned s w = record {
    after = w.after;
    pieces = w.pieces;
    result = w.result;
    ready = w.ready;
    contents_eq = w.contents_eq;
    mode = w.mode;
    buffered = w.buffered;
  }

  write_synced-Written :
      (s : State C) (ps : List Bytes) (data' : Bytes) (offset : ℕ)
      → Ready env s ps
      → Written env healthy s
          (write_synced env offset data' s)
          (length data')
          (overwrite (write_position s offset) data' (contents s ps))
  unfolding write_synced append_position contents
  write_synced-Written s ps data' offset r =
      elim (Bool-cases (write_position s offset == append_position s.file)) [
        | inl here ↦
            rw (write_synced, here)
              (Written-unpinned s (
                append-Written env healthy (unpinned env healthy s) ps data'
                  (write_position s offset) (Ready-unpinned env healthy s ps r)
                  (sym ((==_iff (write_position s offset) (append_position s.file)).0 here))))
        | inr there ↦
            rw (write_synced, there)
              (Written-unpinned s (
                write_random-Written env healthy (unpinned env healthy s) ps data'
                  (write_position s offset) (Ready-unpinned env healthy s ps r)))
      ]

  write_at_runs :
      (s : State C) (offset b : ℕ) (bs : Bytes)
      → s.file.writable ≡ true
      → s.file.failed ≡ false
      → sync env s ≡ (ok tt, s)
      → write_at env (pos offset) (b ∷ bs) s ≡ write_synced env offset (b ∷ bs) s
  unfolding write_at
  write_at_runs s offset b bs writable works current = simp (write_at, writable, works, current)

  pub sync-current : (s : State C) (ps : List Bytes) → Ready env s ps → sync env s ≡ (ok tt, s)
  unfolding sync
  sync-current s ps r = rw (sync, r.intact.current)

  -- Where neither the store nor Discord fails, a write of at least one byte, at an offset that is
  -- not negative, through a writable handle that has not failed and whose file is intact, returns
  -- the number of bytes given. The file is intact again, and shows what it showed, overwritten at
  -- the offset, or at its end in append mode; less than one chunk stays buffered.
  pub write_at-overwrite :
      (s : State C) (ps : List Bytes) (offset b : ℕ) (bs : Bytes)
      → Ready env s ps
      → s.file.writable ≡ true
      → s.file.failed ≡ false
      → Written env healthy s
          (write_at env (pos offset) (b ∷ bs) s)
          (length (b ∷ bs))
          (overwrite (write_position s offset) (b ∷ bs) (contents s ps))
  write_at-overwrite s ps offset b bs r writable works =
      rw (write_at_runs s offset b bs writable works (sync-current s ps r))
        (write_synced-Written s ps (b ∷ bs) offset r)
