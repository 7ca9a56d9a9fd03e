-- ===== src/File/Reads.antt =====
-- `read_at` (src/vfs.py) against the bytes of the file, round by round.
use discord_sftp_drive.Base.{
  ℕ, zero, suc, ◌+◌, ◌-◌, ◌≤◌, ◌<◌, ◌≡◌, refl, ◌∙◌, true, false, none, some, List, [], ◌∷◌, ◌++◌,
  arith, length, concat, take, drop, replicate, min, Bool-cases, inl, inr, leb, leb→le, lt→leb,
  take-add, drop-drop, drop_all,
}
use mathlib.Core.List.{append_assoc, append-nil}
use discord_sftp_drive.Exec.{ok, Result, continue}
use discord_sftp_drive.Seal.{Bytes}
use discord_sftp_drive.Model.{Chunk, Env, IsReliable}
use discord_sftp_drive.File.Handle.{State}
use discord_sftp_drive.File.Cache.{locate_chunk, chunk_bytes}
use discord_sftp_drive.File.Reading.{read_loop}
use discord_sftp_drive.File.Layout.{Located, total, locate-Laid, locate-hole}
use discord_sftp_drive.File.Contents.{Intact, committed, take-piece, take-hole, length-with_hole}
use discord_sftp_drive.File.Fetch.{after_read, chunk_bytes-Intact}

-- One round's bytes, then the rest.
take-round :
    (remaining count at : ℕ) (bytes piece : Bytes)
    → count ≤ remaining
    → take count (drop at bytes) ≡ piece
    → take remaining (drop at bytes) ≡ piece ++ take (remaining - count) (drop (at + count) bytes)
take-round remaining count at bytes piece le e =
    take-add count (remaining - count) remaining (drop at bytes) (omega arith)
    ∙ rw (e, drop-drop at count (at + count) bytes refl) refl

module _ {C : Type 0} (env : Env C) (reliable : IsReliable env.discord) where
  -- What a read returns and leaves behind.
  pub record Read (s : State C) (ps : List Bytes) (m : Result Bytes × State C) (out : Bytes)
      : Type 0 where
    pub channel : C
    pub cache : List (ℕ × Bytes)
    pub result : m ≡ (ok out, after_read env reliable s channel cache)
    pub intact : Intact env (after_read env reliable s channel cache) ps

  Read-done :
      (s : State C) (ps : List Bytes) (out : Bytes) → Intact env s ps → Read s ps (ok out, s) out
  Read-done s ps out h = record {
    channel = s.world.channel;
    cache = s.file.cache;
    result = refl;
    intact = h;
  }

  Read-after :
      (s : State C) (ps : List Bytes) (channel : C) (cache : List (ℕ × Bytes))
      {m : Result Bytes × State C} {out : Bytes}
      → Read (after_read env reliable s channel cache) ps m out
      → Read s ps m out
  Read-after s ps channel cache r = record {
    channel = r.channel;
    cache = r.cache;
    result = r.result;
    intact = r.intact;
  }

  read_loop_past :
      (fuel at r : ℕ) (out : Bytes) (s : State C)
      → leb s.file.node.size at ≡ true
      → read_loop env (suc fuel) at (suc r) out s ≡ (ok out, s)
  unfolding read_loop
  read_loop_past fuel at r out s e = rw (read_loop, e)

  read_loop_hole :
      (fuel at r count : ℕ) (out : Bytes) (s : State C)
      → leb s.file.node.size at ≡ false
      → locate_chunk at s.file.chunks ≡ none
      → min (suc r) (s.file.node.size - at) ≡ count
      → read_loop env (suc fuel) at (suc r) out s
        ≡ read_loop env fuel (at + count) (suc r - count) (out ++ replicate count 0) s
  unfolding read_loop
  read_loop_hole fuel at r count out s e found eq = rw (read_loop, e, found, eq)

  read_loop_chunk :
      (fuel at r count : ℕ) (out : Bytes) (s t : State C) (c : Chunk) (p : Bytes)
      → leb s.file.node.size at ≡ false
      → locate_chunk at s.file.chunks ≡ some c
      → chunk_bytes env c s ≡ (ok p, t)
      → leb (length p) (at - c.offset) ≡ false
      → min (suc r) (length p - (at - c.offset)) ≡ count
      → read_loop env (suc fuel) at (suc r) out s
        ≡ read_loop env fuel
            (at + count)
            (suc r - count)
            (out ++ take count (drop (at - c.offset) p))
            t
  unfolding read_loop
  read_loop_chunk fuel at r count out s t c p e found bytes inside eq =
      rw (read_loop, e, found, bytes, continue, inside, eq)

  -- A round's bytes in front of what the rest of the loop reads.
  Read-round :
      (s : State C) (ps : List Bytes) (at remaining count : ℕ) (out piece : Bytes)
      {m : Result Bytes × State C}
      → count ≤ remaining
      → take count (drop at (committed s ps)) ≡ piece
      → Read s ps m
          ((out ++ piece) ++ take (remaining - count) (drop (at + count) (committed s ps)))
      → Read s ps m (out ++ take remaining (drop at (committed s ps)))
  Read-round s ps at remaining count out piece le e h =
      rw (take-round remaining count at (committed s ps) piece le e, ← append_assoc) h

  take_past : (n at size : ℕ) (bytes : Bytes) → length bytes ≤ at → take n (drop at bytes) ≡ []
  take_past n at size bytes h = rw (drop_all at bytes h) (take_nil n)
    where
      take_nil : (k : ℕ) → take {A = ℕ} k [] ≡ []
      take_nil zero = refl
      take_nil (suc k) = refl

  length-committed :
      (s : State C) (ps : List Bytes) → Intact env s ps → length (committed s ps) ≡ s.file.node.size
  unfolding committed
  length-committed s ps h = length-with_hole s.file.node.size (concat ps) h.sized

  take-committed :
      (s : State C) (ps : List Bytes) (at count : ℕ)
      → (l : Located 0 0 s.file.node.chunks ps at) → count + (at - l.c.offset) ≤ length l.p
      → take count (drop at (committed s ps)) ≡ take count (drop (at - l.c.offset) l.p)
  unfolding committed
  take-committed s ps at count l le = rw l.pieces_eq (
      take-piece l.pre l.p l.post (replicate (s.file.node.size - total (l.pre ++ l.p ∷ l.post)) 0)
        at (at - l.c.offset) count (omega (arith, l.offset_eq, l.starts)) le)

  -- A round inside a chunk, and a round inside the hole.
  round_chunk :
      (fuel at r : ℕ) (out : Bytes) (s : State C) (ps : List Bytes)
      → Intact env s ps
      → leb s.file.node.size at ≡ false
      → (l : Located 0 0 s.file.node.chunks ps at) → locate_chunk at s.file.node.chunks ≡ some l.c
      → ((count : ℕ) (out' : Bytes) (t : State C)
          → 0 < count
          → Intact env t ps
          → Read t ps
              (read_loop env fuel (at + count) (suc r - count) out' t)
              (out' ++ take (suc r - count) (drop (at + count) (committed t ps))))
      → Read s ps
          (read_loop env (suc fuel) at (suc r) out s)
          (out ++ take (suc r) (drop at (committed s ps)))
  unfolding committed
  round_chunk fuel at r out s ps h inside l found rest =
      let f = chunk_bytes-Intact env reliable s ps h l in
      let t = after_read env reliable s f.channel f.cache in
      let count = min (suc r) (length l.p - (at - l.c.offset)) in
      let piece = take count (drop (at - l.c.offset) l.p) in
      rw
        (read_loop_chunk fuel at r count out s t l.c l.p inside (rw h.indexed found) f.result
          (lt→leb (length l.p) (at - l.c.offset) (omega (arith, l.ends, l.starts))) refl)
        (Read-round s ps at (suc r) count out piece (omega arith)
          (take-committed s ps at count l (omega (arith, l.ends, l.starts)))
          (Read-after s ps f.channel f.cache
            (rest count (out ++ piece) t (omega (arith, l.ends, l.starts)) f.intact)))

  round_hole :
      (fuel at r : ℕ) (out : Bytes) (s : State C) (ps : List Bytes)
      → Intact env s ps
      → leb s.file.node.size at ≡ false
      → total ps ≤ at
      → ((count : ℕ) (out' : Bytes) (t : State C)
          → 0 < count
          → Intact env t ps
          → Read t ps
              (read_loop env fuel (at + count) (suc r - count) out' t)
              (out' ++ take (suc r - count) (drop (at + count) (committed t ps))))
      → Read s ps
          (read_loop env (suc fuel) at (suc r) out s)
          (out ++ take (suc r) (drop at (committed s ps)))
  unfolding committed
  round_hole fuel at r out s ps h inside past rest =
      let count = min (suc r) (s.file.node.size - at) in
      let fits : at < s.file.node.size = ground arith in
      rw
        (read_loop_hole fuel at r count out s inside
          (rw h.indexed (locate-hole at s.file.node.chunks ps h.laid past)) refl)
        (Read-round s ps at (suc r) count out (replicate count 0) (omega arith)
          (take-hole (concat ps) s.file.node.size at count past (omega arith))
          (rest count (out ++ replicate count 0) s (omega arith) h))

  -- The loop reads exactly what the file holds from `at` on, up to `remaining` bytes.
  pub read_loop-Intact :
      (fuel at remaining : ℕ) (out : Bytes) (s : State C) (ps : List Bytes)
      → remaining ≤ fuel
      → Intact env s ps
      → Read s ps
          (read_loop env fuel at remaining out s)
          (out ++ take remaining (drop at (committed s ps)))
  unfolding read_loop
  read_loop-Intact zero at zero out s ps le h = rw append-nil (Read-done s ps out h)
  read_loop-Intact zero at (suc r) out s ps le h = absurd (omega arith)
  read_loop-Intact (suc fuel) at zero out s ps le h = rw append-nil (Read-done s ps out h)
  read_loop-Intact (suc fuel) at (suc r) out s ps le h = go (λ count out' t pos' h'.
      read_loop-Intact fuel (at + count) (suc r - count) out' t ps (omega arith) h')
    where
      go :
          ((count : ℕ) (out' : Bytes) (t : State C)
            → 0 < count
            → Intact env t ps
            → Read t ps
                (read_loop env fuel (at + count) (suc r - count) out' t)
                (out' ++ take (suc r - count) (drop (at + count) (committed t ps))))
          → Read s ps
              (read_loop env (suc fuel) at (suc r) out s)
              (out ++ take (suc r) (drop at (committed s ps)))
      go rest = elim (Bool-cases (leb s.file.node.size at)) [
        | inl past ↦
            rw
              (
                read_loop_past fuel at r out s past,
                take_past (suc r) at 0 (committed s ps)
                    (omega (arith, length-committed s ps h, leb→le s.file.node.size at past)),
                append-nil,
              )
              (Read-done s ps out h)
        | inr inside ↦ elim (Bool-cases (leb (total ps) at)) [
          | inl past ↦ round_hole fuel at r out s ps h inside (leb→le (total ps) at past) rest
          | inr here ↦
              let (l, found) = locate-Laid at s.file.node.chunks ps h.laid (ground arith) in
              round_chunk fuel at r out s ps h inside l found rest
        ]
      ]
