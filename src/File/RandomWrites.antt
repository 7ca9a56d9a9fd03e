-- ===== src/File/RandomWrites.antt =====
-- `_write_random` (src/vfs.py) against the bytes of the file: a gap that is filled, the chunks that are
-- patched, and the rest appended; and `_append`, behind the end.
use discord_sftp_drive.Base.{
  ℕ, ◌-◌, ◌≤◌, ◌<◌, ◌≡◌, refl, ap, ◌∙◌, none, List, [], ◌++◌, arith, length, concat, take, drop,
  replicate, min, max, length-append, length-replicate, length-take,
}
use mathlib.Core.List.{append-nil, append_assoc}
use discord_sftp_drive.Exec.{ok, Result}
use discord_sftp_drive.Seal.{Bytes}
use discord_sftp_drive.Model.{Env}
use discord_sftp_drive.File.Handle.{State, append_position}
use discord_sftp_drive.File.Writing.{
  patch, append, append_now, fill_gap, patch_chunks, flush_buffer, write_random,
}
use discord_sftp_drive.File.Layout.{total, covered_end-Laid}
use discord_sftp_drive.File.Contents.{contents, SameMode, SameMode-trans}
use discord_sftp_drive.File.Commit.{Healthy}
use discord_sftp_drive.File.Uploads.{Ready, Placed}
use discord_sftp_drive.File.Flushes.{flush-Placed, append_now-Placed}
use discord_sftp_drive.File.Drains.{append-Drained}
use discord_sftp_drive.File.Patches.{Patched, patch-Patched}
use discord_sftp_drive.File.Splice.{overwrite, with_hole_size, length-patch}
use discord_sftp_drive.File.Overwrites.{append-overwrite, patch-overwrite}

module _ {C : Type 0} (env : Env C) (healthy : Healthy env) where
  -- A write of `count` bytes that went well, and what the file shows then. Less than a chunk is
  -- ever held back.
  pub record Written (s : State C) (m : Result ℕ × State C) (count : ℕ) (bytes : Bytes)
      : Type 0 where
    pub after : State C
    pub pieces : List Bytes
    pub result : m ≡ (ok count, after)
    pub ready : Ready env after pieces
    pub contents_eq : contents after pieces ≡ bytes
    pub mode : SameMode s after
    pub buffered : length after.file.buffer < env.max_chunk_size

  abbrev pub unpinned : State C → State C
  unpinned s = record s { file = record s.file { pinned_mtime = none } }

  pub Ready-unpinned : (s : State C) (ps : List Bytes) → Ready env s ps → Ready env (unpinned s) ps
  Ready-unpinned s ps r = record {
    intact = record {
      laid = r.intact.laid;
      opens = r.intact.opens;
      distinct = r.intact.distinct;
      sized = r.intact.sized;
      indexed = r.intact.indexed;
      coherent = r.intact.coherent;
      current = r.intact.current;
    };
    row = r.row;
  }

  pub append_position-Laid :
      (s : State C) (ps : List Bytes)
      → Ready env s ps
      → append_position s.file ≡ length (concat ps ++ s.file.buffer)
  unfolding append_position
  append_position-Laid s ps r = omega (
    arith,
    covered_end-Laid 0 s.file.node.chunks ps r.intact.laid,
    length-append (concat ps) s.file.buffer,
  )

  pub append-Written :
      (s : State C) (ps : List Bytes) (data' : Bytes) (at : ℕ)
      → Ready env s ps
      → append_position s.file ≡ at
      → Written s (append env data' s) (length data') (overwrite at data' (contents s ps))
  unfolding contents
  append-Written s ps data' at r e =
      let d = append-Drained env healthy s ps data' r in
      let bytes = concat ps ++ s.file.buffer in
      record {
        after = d.after;
        pieces = d.pieces;
        result = d.result;
        ready = d.ready;
        contents_eq =
            rw (d.all_eq, ← append_assoc)
              (with_hole_size s.file.node.size d.after.file.node.size (bytes ++ data') d.grows
                  (rw append_assoc d.bounded)
                ∙ append-overwrite at s.file.node.size data' bytes
                    (omega (arith, append_position-Laid s ps r)));
        mode = d.mode;
        buffered = d.short;
      }

  -- The gap up to the offset is filled.
  fill-Placed :
      (s : State C) (ps : List Bytes) (offset : ℕ)
      → Ready env s ps
      → Placed env healthy s
          (fill_gap env offset s)
          tt
          (concat ps ++ replicate (offset - total ps) 0)
          s.file.buffer
  unfolding fill_gap
  fill-Placed s ps offset r = rw (covered_end-Laid 0 s.file.node.chunks ps r.intact.laid) (
      append_now-Placed env healthy (offset - total ps) (replicate (offset - total ps) 0) s ps
        (omega (arith, length-replicate {A = ℕ} (offset - total ps) 0)) r)

  write_random_runs :
      (s t1 t2 t3 t4 : State C) (offset : ℕ) (data' rest : Bytes)
      → flush_buffer env s ≡ (ok tt, t1)
      → fill_gap env offset t1 ≡ (ok tt, t2)
      → patch_chunks env (length data') offset data' t2 ≡ (ok rest, t3)
      → append_now env (length rest) rest t3 ≡ (ok tt, t4)
      → write_random env offset data' s ≡ (ok (length data'), t4)
  unfolding write_random
  write_random_runs s t1 t2 t3 t4 offset data' rest e1 e2 e3 e4 = rw (write_random, e1, e2, e3, e4)

  pub write_random-Written :
      (s : State C) (ps : List Bytes) (data' : Bytes) (offset : ℕ)
      → Ready env s ps
      → Written s
          (write_random env offset data' s)
          (length data')
          (overwrite offset data' (contents s ps))
  unfolding contents
  write_random-Written s ps data' offset r = record {
    after = v4.after;
    pieces = v4.pieces;
    result =
        write_random_runs s v1.after v2.after v3.after v4.after offset data' rest v1.result
          v2.result v3.result v4.result;
    ready = v4.ready;
    contents_eq =
        rw (v4.buffer_eq, v3.buffer_eq, v2.buffer_eq, v1.buffer_eq, append-nil, final)
          (with_hole_size s.file.node.size v4.after.file.node.size _
              (omega (arith, v1.grows, v2.grows, v3.size_eq, v4.grows)) bound
            ∙ patch-overwrite offset s.file.node.size avail data' bytes refl);
    mode = SameMode-trans s v1.after v4.after v1.mode (
        SameMode-trans v1.after v2.after v4.after v2.mode
          (SameMode-trans v2.after v3.after v4.after v3.mode v4.mode));
    buffered = rw (v4.buffer_eq, v3.buffer_eq, v2.buffer_eq, v1.buffer_eq) healthy.chunk_size;
  }
    where
      bytes : Bytes
      bytes = concat ps ++ s.file.buffer

      filled : Bytes
      filled = bytes ++ replicate (offset - length bytes) 0

      avail : ℕ
      avail = min (length data') (length filled - offset)

      rest : Bytes
      rest = drop avail data'

      v1 : Placed env healthy s (flush_buffer env s) tt bytes []
      v1 = flush-Placed env healthy s ps r

      v2 :
          Placed env healthy v1.after
            (fill_gap env offset v1.after)
            tt
            (concat v1.pieces ++ replicate (offset - total v1.pieces) 0)
            v1.after.file.buffer
      v2 = fill-Placed v1.after v1.pieces offset v1.ready

      filled_eq : concat v2.pieces ≡ filled
      filled_eq = v2.concat_eq ∙ rw v1.concat_eq refl

      v3 :
          Patched env healthy v2.after
            (patch_chunks env (length data') offset data' v2.after)
            rest
            (patch offset (take avail data') (concat v2.pieces))
      v3 =
          patch-Patched env healthy (length data') offset avail data' v2.after v2.pieces
            (omega arith) (rw filled_eq refl) v2.ready

      v4 :
          Placed env healthy v3.after
            (append_now env (length rest) rest v3.after)
            tt
            (concat v3.pieces ++ rest)
            v3.after.file.buffer
      v4 =
          append_now-Placed env healthy (length rest) rest v3.after v3.pieces (omega arith) v3.ready

      final : concat v4.pieces ≡ patch offset (take avail data') filled ++ rest
      final = v4.concat_eq ∙ rw (v3.concat_eq, filled_eq) refl

      patched_length : length (patch offset (take avail data') filled) ≡ length filled
      patched_length = length-patch offset (take avail data') filled (
          omega (
            arith,
            length-take avail data',
            length-append bytes (replicate (offset - length bytes) 0),
            length-replicate {A = ℕ} (offset - length bytes) 0,
          ))

      bound :
          v4.after.file.node.size
          ≤ max s.file.node.size (length (patch offset (take avail data') filled ++ rest))
      bound = omega (
        arith,
        v1.bounded,
        v2.bounded,
        v3.size_eq,
        v4.bounded,
        patched_length,
        ap length v1.concat_eq,
        ap length v2.concat_eq,
        ap length filled_eq,
        ap length final,
        ap length v4.concat_eq,
        ap length v3.concat_eq,
        length-append (patch offset (take avail data') filled) rest,
        length-append bytes (replicate (offset - length bytes) 0),
      )
