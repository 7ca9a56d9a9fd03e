-- ===== src/File/ReadBack.antt =====
-- `read_at` (src/vfs.py) against the bytes of the file, and behind `write_at`.
use discord_sftp_drive.Base.{
  ℕ, ◌+◌, ◌-◌, ◌≡◌, refl, ◌∙◌, true, false, List, [], ◌∷◌, ◌++◌, arith, length, concat, take, drop,
  Bool-cases, inl, inr, is_empty, pos, length-append, length-take, length-replicate, replicate,
  drop-append_ge, take-append_le, take_all,
}
use mathlib.Core.List.{append-nil}
use discord_sftp_drive.Exec.{ok, Result}
use discord_sftp_drive.Seal.{Bytes}
use discord_sftp_drive.Model.{Env}
use discord_sftp_drive.File.Handle.{State, sync}
use discord_sftp_drive.File.Writing.{flush_buffer, write_at}
use discord_sftp_drive.File.Reading.{read_at, read_from, flush_for_reader}
use discord_sftp_drive.File.Contents.{contents, committed}
use discord_sftp_drive.File.Commit.{Healthy}
use discord_sftp_drive.File.Fetch.{after_read}
use discord_sftp_drive.File.Reads.{read_loop-Intact}
use discord_sftp_drive.File.Uploads.{Ready, Placed}
use discord_sftp_drive.File.Flushes.{flush-Placed}
use discord_sftp_drive.File.Splice.{overwrite, with_hole_size}
use discord_sftp_drive.File.Writes.{write_at-overwrite, write_position, sync-current}

module _ {C : Type 0} (env : Env C) (healthy : Healthy env) where
  -- A read that went well: what it returns, and a file that shows the same bytes afterwards.
  pub record Answered (s : State C) (ps : List Bytes) (m : Result Bytes × State C) (out : Bytes)
      : Type 0 where
    pub after : State C
    pub pieces : List Bytes
    pub result : m ≡ (ok out, after)
    pub ready : Ready env after pieces
    pub contents_eq : contents after pieces ≡ contents s ps

  flush_for_reader_eq :
      (s : State C) → s.file.failed ≡ false → flush_for_reader env s ≡ flush_buffer env s
  unfolding flush_for_reader flush_buffer
  flush_for_reader_eq s works = elim (Bool-cases (is_empty s.file.buffer)) [
    | inl e ↦ simp (flush_for_reader, flush_buffer, e)
    | inr e ↦ simp (flush_for_reader, e, works)
  ]

  read_at_runs :
      (s t t' : State C) (offset count : ℕ) (out : Bytes)
      → s.file.readable ≡ true
      → sync env s ≡ (ok tt, s)
      → flush_for_reader env s ≡ (ok tt, t)
      → read_from env (pos offset) count t ≡ (ok out, t')
      → read_at env (pos offset) count s ≡ (ok out, t')
  unfolding read_at
  read_at_runs s t t' offset count out readable e1 e2 e3 = simp (read_at, readable, e1, e2, e3)

  -- What is committed once the buffer is uploaded is what the file showed.
  committed-flushed :
      (s : State C) (ps : List Bytes)
      → (v : Placed env healthy s (flush_buffer env s) tt (concat ps ++ s.file.buffer) [])
      → committed v.after v.pieces ≡ contents s ps
  unfolding committed contents
  committed-flushed s ps v = rw v.concat_eq (
      with_hole_size s.file.node.size v.after.file.node.size (concat ps ++ s.file.buffer) v.grows
        v.bounded)

  contents-committed :
      (s : State C) (ps : List Bytes) → s.file.buffer ≡ [] → contents s ps ≡ committed s ps
  unfolding committed contents
  contents-committed s ps e = rw (e, append-nil)

  contents-after_read :
      (s : State C) (ps : List Bytes) (channel : C) (cache : List (ℕ × Bytes))
      → contents (after_read env healthy.reliable s channel cache) ps ≡ contents s ps
  unfolding contents
  contents-after_read s ps channel cache = refl

  -- Where neither the store nor Discord fails, a read at an offset that is not negative, through a
  -- readable handle that has not failed and whose file is intact, gives the bytes from the offset
  -- on, as many as were asked for and are there, those that were buffered among them. The file is
  -- intact again and shows the same bytes.
  pub read_at-contents :
      (s : State C) (ps : List Bytes) (offset count : ℕ)
      → Ready env s ps
      → s.file.readable ≡ true
      → s.file.failed ≡ false
      → Answered s ps (read_at env (pos offset) count s) (take count (drop offset (contents s ps)))
  unfolding read_from
  read_at-contents s ps offset count r readable works =
      let v = flush-Placed env healthy s ps r in
      let shown = committed-flushed s ps v in
      let l =
        read_loop-Intact env healthy.reliable count offset count [] v.after v.pieces (omega arith)
          v.ready.intact in
      record {
        after = after_read env healthy.reliable v.after l.channel l.cache;
        pieces = v.pieces;
        result = rw (← shown) (
            read_at_runs s v.after (after_read env healthy.reliable v.after l.channel l.cache)
              offset count (take count (drop offset (committed v.after v.pieces))) readable
              (sync-current env healthy s ps r) (flush_for_reader_eq s works ∙ v.result) l.result);
        ready = record { intact = l.intact; row = v.ready.row };
        contents_eq =
            contents-after_read v.after v.pieces l.channel l.cache
            ∙ (contents-committed v.after v.pieces v.buffer_eq ∙ shown);
      }

  overwrite-read :
      (offset : ℕ) (new bytes : Bytes)
      → take (length new) (drop offset (overwrite offset new bytes)) ≡ new
  unfolding overwrite
  overwrite-read offset new bytes =
      let front = take offset (bytes ++ replicate (offset - length bytes) 0) in
      let back = drop (offset + length new) bytes in
      rw
        (
          drop-append_ge offset 0 front (new ++ back) (
              omega (
                arith,
                length-take offset (bytes ++ replicate (offset - length bytes) 0),
                length-append bytes (replicate (offset - length bytes) 0),
                length-replicate {A = ℕ} (offset - length bytes) 0,
              )),
          take-append_le (length new) new back (omega arith),
        )
        (take_all (length new) new (omega arith))

  -- Under the same conditions, through a handle that is both readable and writable and not in
  -- append mode, a read of what was just written at an offset gives the bytes that were written.
  pub write_at-read_at :
      (s : State C) (ps : List Bytes) (offset b : ℕ) (bs : Bytes)
      → Ready env s ps
      → s.file.writable ≡ true
      → s.file.readable ≡ true
      → s.file.append_mode ≡ false
      → s.file.failed ≡ false
      → (t u : State C) × (write_at env (pos offset) (b ∷ bs) s ≡ (ok (length (b ∷ bs)), t))
        × (read_at env (pos offset) (length (b ∷ bs)) t ≡ (ok (b ∷ bs), u))
  write_at-read_at s ps offset b bs r writable readable plain works =
      let w = write_at-overwrite env healthy s ps offset b bs r writable works in
      let a =
        read_at-contents w.after w.pieces offset (length (b ∷ bs)) w.ready (w.mode.0 ∙ readable)
          (w.mode.3 ∙ works) in
      let place : write_position env healthy s offset ≡ offset = rw plain refl in
      (
        w.after,
        a.after,
        w.result,
        a.result ∙ rw (w.contents_eq, place, overwrite-read offset (b ∷ bs) (contents s ps)) refl,
      )
