-- ===== src/File/Drains.antt =====
-- Buffered appending (src/vfs.py: `_append`) on an intact file where nothing fails.
use discord_sftp_drive.Base.{
  ℕ, zero, suc, ◌≤◌, ◌<◌, ◌≡◌, refl, ap, ◌∙◌, true, false, List, ◌++◌, arith, length, concat, max,
  take, drop, leb, leb→le, Bool-cases, inl, inr, length-append, take-append-drop, length-take,
  length-drop,
}
use mathlib.Core.List.{append_assoc}
use discord_sftp_drive.Exec.{ok, Result}
use discord_sftp_drive.Seal.{Bytes}
use discord_sftp_drive.Model.{Env}
use discord_sftp_drive.File.Handle.{State}
use discord_sftp_drive.File.Writing.{upload_chunk, drain, append}
use discord_sftp_drive.File.Contents.{SameMode, SameMode-trans}
use discord_sftp_drive.File.Commit.{Healthy}
use discord_sftp_drive.File.Uploads.{Ready, Placed, upload-Placed}
use discord_sftp_drive.File.Flushes.{set_buffer, Ready-set_buffer}

module _ {C : Type 0} (env : Env C) (healthy : Healthy env) where
  -- The chunks and the buffer hold `all` together, and less than a chunk is buffered.
  pub record Drained {A : Type 0} (s : State C) (m : Result A × State C) (a : A) (all : Bytes)
      : Type 0 where
    pub after : State C
    pub pieces : List Bytes
    pub result : m ≡ (ok a, after)
    pub ready : Ready env after pieces
    pub all_eq : concat pieces ++ after.file.buffer ≡ all
    pub short : length after.file.buffer < env.max_chunk_size
    pub mode : SameMode s after
    pub grows : s.file.node.size ≤ after.file.node.size
    pub bounded : after.file.node.size ≤ max s.file.node.size (length all)

  -- One round of the loop, in front of the others.
  abbrev drained_once :
      (s : State C) (ps : List Bytes)
      → Placed env healthy s
          (upload_chunk env (take env.max_chunk_size s.file.buffer) s)
          tt
          (concat ps ++ take env.max_chunk_size s.file.buffer)
          s.file.buffer
      → State C
  drained_once s ps u = set_buffer env healthy (drop env.max_chunk_size u.after.file.buffer) u.after

  drain-step :
      (fuel : ℕ) (s : State C) (ps : List Bytes)
      → leb env.max_chunk_size (length s.file.buffer) ≡ true
      → (u : Placed env healthy s
          (upload_chunk env (take env.max_chunk_size s.file.buffer) s)
          tt
          (concat ps ++ take env.max_chunk_size s.file.buffer)
          s.file.buffer)
      → Drained
          (drained_once s ps u)
          (drain env fuel (drained_once s ps u))
          tt
          (concat u.pieces ++ (drained_once s ps u).file.buffer)
      → Drained s (drain env (suc fuel) s) tt (concat ps ++ s.file.buffer)
  unfolding drain
  drain-step fuel s ps full u v =
      let first = take env.max_chunk_size s.file.buffer in
      let all : concat u.pieces ++ drop env.max_chunk_size u.after.file.buffer
          ≡ concat ps ++ s.file.buffer =
        rw (u.concat_eq, u.buffer_eq, append_assoc, take-append-drop) refl in
      record {
        after = v.after;
        pieces = v.pieces;
        result = rw (drain, full, u.result) v.result;
        ready = v.ready;
        all_eq = v.all_eq ∙ all;
        short = v.short;
        mode = SameMode-trans s (drained_once s ps u) v.after u.mode v.mode;
        grows = omega (arith, u.grows, v.grows);
        bounded = omega (
          arith,
          u.bounded,
          v.bounded,
          ap length all,
          length-append (concat ps) first,
          length-append (concat ps) s.file.buffer,
          length-take env.max_chunk_size s.file.buffer,
        );
      }

  drain-done :
      (fuel : ℕ) (s : State C) (ps : List Bytes)
      → leb env.max_chunk_size (length s.file.buffer) ≡ false
      → Ready env s ps
      → Drained s (drain env (suc fuel) s) tt (concat ps ++ s.file.buffer)
  unfolding drain
  drain-done fuel s ps short r = record {
    after = s;
    pieces = ps;
    result = rw (drain, short);
    ready = r;
    all_eq = refl;
    short = ground arith;
    mode = (refl, refl, refl, refl);
    grows = omega arith;
    bounded = omega arith;
  }

  pub drain-Drained :
      (fuel : ℕ) (s : State C) (ps : List Bytes)
      → length s.file.buffer < fuel
      → Ready env s ps
      → Drained s (drain env fuel s) tt (concat ps ++ s.file.buffer)
  drain-Drained zero s ps lt r = absurd (omega arith)
  drain-Drained (suc fuel) s ps lt r =
      elim (Bool-cases (leb env.max_chunk_size (length s.file.buffer))) [
        | inr short ↦ drain-done fuel s ps short r
        | inl full ↦
            let buffer = s.file.buffer in
            let fits = leb→le env.max_chunk_size (length buffer) full in
            let u =
              upload-Placed env healthy s ps (take env.max_chunk_size buffer)
                (omega (arith, length-take env.max_chunk_size buffer, healthy.chunk_size)) r in
            drain-step fuel s ps full u (
              drain-Drained fuel (drained_once s ps u) u.pieces
                (rw u.buffer_eq
                  (omega (arith, length-drop env.max_chunk_size buffer, healthy.chunk_size)))
                (Ready-set_buffer env healthy u.after u.pieces
                  (drop env.max_chunk_size u.after.file.buffer) u.ready))
      ]

  -- `_append`
  pub append-Drained :
      (s : State C) (ps : List Bytes) (data' : Bytes)
      → Ready env s ps
      → Drained s (append env data' s) (length data') (concat ps ++ (s.file.buffer ++ data'))
  unfolding append
  append-Drained s ps data' r =
      let buffer = s.file.buffer ++ data' in
      let v =
        drain-Drained (suc (length buffer)) (set_buffer env healthy buffer s) ps (omega arith)
          (Ready-set_buffer env healthy s ps buffer r) in
      record {
        after = v.after;
        pieces = v.pieces;
        result = rw (append, v.result);
        ready = v.ready;
        all_eq = v.all_eq;
        short = v.short;
        mode = v.mode;
        grows = v.grows;
        bounded = v.bounded;
      }
