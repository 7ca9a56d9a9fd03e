-- ===== src/File/Patches.antt =====
-- The loop of `_write_random` (src/vfs.py) on an intact file where nothing fails.
use discord_sftp_drive.Base.{
  ℕ, zero, suc, ◌+◌, ◌-◌, ◌≤◌, ◌<◌, ◌≡◌, refl, ◌∙◌, true, false, some, List, [], ◌∷◌, ◌++◌, arith,
  length, concat, take, drop, min, ltb, ltb→lt, Bool-cases, inl, inr, lt→ltb, le→ltb,
  take-append-drop, drop-drop, take-add, length-take, length-drop, length-append, concat-append,
}
use discord_sftp_drive.Exec.{ok, Result}
use discord_sftp_drive.Seal.{Bytes}
use discord_sftp_drive.Model.{Chunk, Env}
use discord_sftp_drive.Vfs.Chunks.{covered_end}
use discord_sftp_drive.File.Handle.{State}
use discord_sftp_drive.File.Cache.{locate_chunk, chunk_bytes}
use discord_sftp_drive.File.Writing.{patch, patch_chunks, replace_chunk}
use discord_sftp_drive.File.Layout.{Located, total, covered_end-Laid, locate-Laid}
use discord_sftp_drive.File.Contents.{SameMode, SameMode-trans}
use discord_sftp_drive.File.Commit.{Healthy}
use discord_sftp_drive.File.Fetch.{Fetched, chunk_bytes-Intact, after_read}
use discord_sftp_drive.File.Uploads.{Ready}
use discord_sftp_drive.File.Replaces.{Replaced, replace-Replaced}
use discord_sftp_drive.File.Splice.{length-patch, patch-piece, patch-patch}

patch-nil : (at : ℕ) (bytes : Bytes) → patch at [] bytes ≡ bytes
unfolding patch
patch-nil at bytes = let e : at + 0 ≡ at = omega arith in rw (e, take-append-drop at bytes)

module _ {C : Type 0} (env : Env C) (healthy : Healthy env) where
  pub record Patched (s : State C) (m : Result Bytes × State C) (rest bytes : Bytes) : Type 0 where
    pub after : State C
    pub pieces : List Bytes
    pub result : m ≡ (ok rest, after)
    pub ready : Ready env after pieces
    pub concat_eq : concat pieces ≡ bytes
    pub buffer_eq : after.file.buffer ≡ s.file.buffer
    pub mode : SameMode s after
    pub size_eq : after.file.node.size ≡ s.file.node.size

  patch_chunks_step :
      (fuel at b count : ℕ) (bs old : Bytes) (s t t' : State C) (c : Chunk)
      → ltb at (covered_end s.file.node.chunks) ≡ true
      → locate_chunk at s.file.chunks ≡ some c
      → chunk_bytes env c s ≡ (ok old, t)
      → min (length (b ∷ bs)) (c.size - (at - c.offset)) ≡ count
      → replace_chunk env c (patch (at - c.offset) (take count (b ∷ bs)) old) t ≡ (ok tt, t')
      → patch_chunks env (suc fuel) at (b ∷ bs) s
        ≡ patch_chunks env fuel (at + count) (drop count (b ∷ bs)) t'
  unfolding patch_chunks
  patch_chunks_step fuel at b count bs old s t t' c inside found bytes eq done =
      rw (patch_chunks, inside, found, bytes, eq, done)

  patch_chunks_stop :
      (fuel at b : ℕ) (bs : Bytes) (s : State C)
      → ltb at (covered_end s.file.node.chunks) ≡ false
      → patch_chunks env (suc fuel) at (b ∷ bs) s ≡ (ok (b ∷ bs), s)
  unfolding patch_chunks
  patch_chunks_stop fuel at b bs s past = rw (patch_chunks, past)

  Patched-here :
      (s : State C) (ps : List Bytes) (at : ℕ) (rest : Bytes)
      → Ready env s ps
      → Patched s (ok rest, s) rest (patch at [] (concat ps))
  Patched-here s ps at rest r = record {
    after = s;
    pieces = ps;
    result = refl;
    ready = r;
    concat_eq = rw (patch-nil at (concat ps));
    buffer_eq = refl;
    mode = (refl, refl, refl, refl);
    size_eq = refl;
  }

  Ready-after_read :
      (s : State C) (ps : List Bytes) {c : Chunk} {p : Bytes}
      → Ready env s ps
      → (f : Fetched env healthy.reliable s ps c p)
      → Ready env (after_read env healthy.reliable s f.channel f.cache) ps
  Ready-after_read s ps r f = record { intact = f.intact; row = r.row }

  -- One round in front of the others.
  Patched-round :
      (s t : State C) (ps pieces : List Bytes) (at count avail : ℕ) (data' : Bytes)
      {m : Result Bytes × State C}
      → t.file.buffer ≡ s.file.buffer
      → SameMode s t
      → t.file.node.size ≡ s.file.node.size
      → concat pieces ≡ patch at (take count data') (concat ps)
      → count ≤ avail
      → avail ≤ length data'
      → at + avail ≤ total ps
      → Patched t m
          (drop (avail - count) (drop count data'))
          (patch (at + count) (take (avail - count) (drop count data')) (concat pieces))
      → Patched s m (drop avail data') (patch at (take avail data') (concat ps))
  Patched-round s t ps pieces at count avail data' eb em es ec le fits inside v = record {
    after = v.after;
    pieces = v.pieces;
    result = v.result ∙ rw (drop-drop count (avail - count) avail data' (omega arith)) refl;
    ready = v.ready;
    concat_eq =
        v.concat_eq
        ∙ rw (ec, take-add count (avail - count) avail data' (omega arith))
            (patch-patch at (at + count) (take count data')
              (take (avail - count) (drop count data')) (concat ps)
              (omega (arith, length-take count data'))
              (omega
                (arith, length-take (avail - count) (drop count data'), length-drop count data')));
    buffer_eq = v.buffer_eq ∙ eb;
    mode = SameMode-trans s t v.after em v.mode;
    size_eq = v.size_eq ∙ es;
  }

  -- The recursive call is handed in.
  patch-round :
      (fuel at b : ℕ) (bs : Bytes) (s : State C) (ps : List Bytes)
      → at < total ps
      → Ready env s ps
      → ((count : ℕ) (t : State C) (qs : List Bytes)
          → 0 < count
          → total qs ≡ total ps
          → Ready env t qs
          → Patched t
              (patch_chunks env fuel (at + count) (drop count (b ∷ bs)) t)
              (drop (min (length (b ∷ bs)) (total ps - at) - count) (drop count (b ∷ bs)))
              (patch
                (at + count)
                (take (min (length (b ∷ bs)) (total ps - at) - count) (drop count (b ∷ bs)))
                (concat qs)))
      → Patched s
          (patch_chunks env (suc fuel) at (b ∷ bs) s)
          (drop (min (length (b ∷ bs)) (total ps - at)) (b ∷ bs))
          (patch at (take (min (length (b ∷ bs)) (total ps - at)) (b ∷ bs)) (concat ps))
  patch-round fuel at b bs s ps inside r rest =
      rw
        (patch_chunks_step fuel at b count bs l.p s t v.after l.c
          (lt→ltb at (covered_end s.file.node.chunks) (omega (arith, end_eq)))
          (rw r.intact.indexed found.1) f.result refl v.result)
        (Patched-round s v.after ps (l.pre ++ new ∷ l.post) at count avail (b ∷ bs) v.buffer_eq
          v.mode v.size_eq piece (omega (arith, l.size_eq, l.offset_eq, l.starts, inner))
          (omega arith) (omega arith)
          (rest count v.after (l.pre ++ new ∷ l.post) (omega (arith, l.ends, l.starts, l.size_eq))
            same_total v.ready))
    where
      avail : ℕ
      avail = min (length (b ∷ bs)) (total ps - at)

      end_eq : covered_end s.file.node.chunks ≡ total ps
      end_eq = covered_end-Laid 0 s.file.node.chunks ps r.intact.laid

      found :
          (l : Located 0 0 s.file.node.chunks ps at) × (locate_chunk at s.file.node.chunks
            ≡ some l.c)
      found = locate-Laid at s.file.node.chunks ps r.intact.laid inside

      l : Located 0 0 s.file.node.chunks ps at
      l = found.0

      f : Fetched env healthy.reliable s ps l.c l.p
      f = chunk_bytes-Intact env healthy.reliable s ps r.intact l

      t : State C
      t = after_read env healthy.reliable s f.channel f.cache

      count : ℕ
      count = min (length (b ∷ bs)) (l.c.size - (at - l.c.offset))

      new : Bytes
      new = patch (at - l.c.offset) (take count (b ∷ bs)) l.p

      fits : (at - l.c.offset) + length (take count (b ∷ bs)) ≤ length l.p
      fits = omega (arith, length-take count (b ∷ bs), l.size_eq, l.ends, l.starts)

      v : Replaced env healthy t (replace_chunk env l.c new t) (l.pre ++ new ∷ l.post)
      v =
          replace-Replaced env healthy t ps new (Ready-after_read s ps r f) l
            (length-patch (at - l.c.offset) (take count (b ∷ bs)) l.p fits)

      piece : concat (l.pre ++ new ∷ l.post) ≡ patch at (take count (b ∷ bs)) (concat ps)
      piece = rw l.pieces_eq (
          patch-piece l.pre l.p l.post at (at - l.c.offset) (take count (b ∷ bs))
            (omega (arith, l.offset_eq, l.starts)) fits)

      inner : total l.pre + length l.p ≤ total ps
      inner =
          rw (l.pieces_eq, concat-append l.pre (l.p ∷ l.post))
            (omega (
              arith,
              length-append (concat l.pre) (l.p ++ concat l.post),
              length-append l.p (concat l.post),
            ))

      same_total : total (l.pre ++ new ∷ l.post) ≡ total ps
      same_total = rw piece (
          length-patch at (take count (b ∷ bs)) (concat ps)
            (omega (arith, length-take count (b ∷ bs), inner, l.offset_eq, l.starts, l.size_eq)))

  -- The loop of `_write_random`.
  pub patch-Patched :
      (fuel at avail : ℕ) (data' : Bytes) (s : State C) (ps : List Bytes)
      → length data' ≤ fuel
      → min (length data') (total ps - at) ≡ avail
      → Ready env s ps
      → Patched s
          (patch_chunks env fuel at data' s)
          (drop avail data')
          (patch at (take avail data') (concat ps))
  unfolding patch_chunks
  patch-Patched zero at avail [] s ps le e r =
      let z : avail ≡ 0 = omega arith in rw z (Patched-here s ps at [] r)
  patch-Patched zero at avail (b ∷ bs) s ps le e r = absurd (omega arith)
  patch-Patched (suc fuel) at avail [] s ps le e r =
      let z : avail ≡ 0 = omega arith in rw z (Patched-here s ps at [] r)
  patch-Patched (suc fuel) at avail (b ∷ bs) s ps le e r = elim (Bool-cases (ltb at (total ps))) [
    | inl inside ↦ rw (← e) (
        patch-round fuel at b bs s ps (ltb→lt at (total ps) inside) r (λ count t qs pos' same r'.
          patch-Patched fuel (at + count) _ (drop count (b ∷ bs)) t qs
            (omega (arith, length-drop count (b ∷ bs)))
            (omega (arith, length-drop count (b ∷ bs), same)) r'))
    | inr past ↦
        let z : avail ≡ 0 = ground arith in
        rw
          (
            z,
            patch_chunks_stop fuel at b bs s (
                le→ltb at (covered_end s.file.node.chunks) (
                  let end_eq = covered_end-Laid 0 s.file.node.chunks ps r.intact.laid in
                  ground arith)),
          )
          (Patched-here s ps at (b ∷ bs) r)
  ]
