-- ===== src/File/Flushes.antt =====
-- Emptying the buffer (src/vfs.py: `_flush_buffer`), and appending without it (`_append_now`), on an
-- intact file where nothing fails.
use discord_sftp_drive.Base.{
  ℕ, zero, suc, ◌≤◌, ◌≡◌, refl, ap, ◌∙◌, List, [], ◌∷◌, ◌++◌, arith, length, concat, take, drop,
  Bool-cases, inl, inr, is_empty, length-append, take-append-drop, length-take, length-drop,
}
use mathlib.Core.List.{append_assoc, append-nil}
use discord_sftp_drive.Seal.{Bytes}
use discord_sftp_drive.Model.{Env}
use discord_sftp_drive.File.Handle.{State}
use discord_sftp_drive.File.Writing.{flush_buffer, append_now}
use discord_sftp_drive.File.Contents.{SameMode-trans}
use discord_sftp_drive.File.Commit.{Healthy}
use discord_sftp_drive.File.Uploads.{
  Ready, Placed, Placed-here, upload-Placed, is_empty-eq, is_empty-lt,
}

module _ {C : Type 0} (env : Env C) (healthy : Healthy env) where
  abbrev pub set_buffer : Bytes → State C → State C
  set_buffer b s = record s { file = record s.file { buffer = b } }

  pub Ready-set_buffer :
      (s : State C) (ps : List Bytes) (b : Bytes) → Ready env s ps → Ready env (set_buffer b s) ps
  Ready-set_buffer s ps b r = record {
    intact = record {
      laid = r.intact.laid;
      opens = r.intact.opens;
      distinct = r.intact.distinct;
      sized = r.intact.sized;
      indexed = r.intact.indexed;
      coherent = r.intact.coherent;
      current = r.intact.current;
    };
    row = r.row;
  }

  -- `_flush_buffer`
  pub flush-Placed :
      (s : State C) (ps : List Bytes)
      → Ready env s ps
      → Placed env healthy s (flush_buffer env s) tt (concat ps ++ s.file.buffer) []
  unfolding flush_buffer
  flush-Placed s ps r = elim (Bool-cases (is_empty s.file.buffer)) [
    | inl empty ↦
        let nothing : s.file.buffer ≡ [] = is_empty-eq s.file.buffer empty in
        record {
          after = s;
          pieces = ps;
          result = rw (flush_buffer, empty);
          ready = r;
          concat_eq = rw (nothing, append-nil);
          buffer_eq = nothing;
          mode = (refl, refl, refl, refl);
          grows = omega arith;
          bounded = omega arith;
        }
    | inr full ↦
        let u = upload-Placed env healthy s ps s.file.buffer (is_empty-lt s.file.buffer full) r in
        record {
          after = set_buffer [] u.after;
          pieces = u.pieces;
          result = rw (flush_buffer, full, u.result);
          ready = Ready-set_buffer u.after u.pieces [] u.ready;
          concat_eq = u.concat_eq;
          buffer_eq = refl;
          mode = u.mode;
          grows = u.grows;
          bounded = u.bounded;
        }
  ]

  -- `_append_now`
  pub append_now-Placed :
      (fuel : ℕ) (data' : Bytes) (s : State C) (ps : List Bytes)
      → length data' ≤ fuel
      → Ready env s ps
      → Placed env healthy s (append_now env fuel data' s) tt (concat ps ++ data') s.file.buffer
  unfolding append_now
  append_now-Placed zero [] s ps le r = Placed-here env healthy s ps r
  append_now-Placed zero (b ∷ bs) s ps le r = absurd (omega arith)
  append_now-Placed (suc fuel) [] s ps le r = Placed-here env healthy s ps r
  append_now-Placed (suc fuel) (b ∷ bs) s ps le r =
      let first = take env.max_chunk_size (b ∷ bs) in
      let rest = drop env.max_chunk_size (b ∷ bs) in
      let u =
        upload-Placed env healthy s ps first
          (omega (arith, length-take env.max_chunk_size (b ∷ bs), healthy.chunk_size)) r in
      let v =
        append_now-Placed fuel rest u.after u.pieces
          (omega (arith, length-drop env.max_chunk_size (b ∷ bs), healthy.chunk_size)) u.ready in
      let all : concat u.pieces ++ rest ≡ concat ps ++ b ∷ bs =
        rw (u.concat_eq, append_assoc, take-append-drop) refl in
      record {
        after = v.after;
        pieces = v.pieces;
        result = rw (append_now, u.result) v.result;
        ready = v.ready;
        concat_eq = v.concat_eq ∙ all;
        buffer_eq = v.buffer_eq ∙ u.buffer_eq;
        mode = SameMode-trans s u.after v.after u.mode v.mode;
        grows = omega (arith, u.grows, v.grows);
        bounded = omega (
          arith,
          u.bounded,
          v.bounded,
          ap length all,
          length-append (concat ps) first,
          length-append (concat ps) (b ∷ bs),
          length-take env.max_chunk_size (b ∷ bs),
        );
      }
