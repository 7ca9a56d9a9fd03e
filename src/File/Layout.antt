-- ===== src/File/Layout.antt =====
-- The chunks of a file, contiguous from offset 0 and numbered in order, against the plaintexts
-- that they hold: what sorting, `_covered_end` and `_locate_chunk` (src/vfs.py) then compute.
use discord_sftp_drive.Base.{
  ℕ, suc, ◌+◌, ◌≤◌, ◌<◌, ◌≡◌, refl, ap, Option, none, some, List, [], ◌∷◌, ◌++◌, arith, length,
  concat, length-append, if◌then◌else◌, leb, ltb, lt→ltb, ltb→lt, Bool-cases, inl, inr, ◌∙◌,
}
use discord_sftp_drive.Seal.{Bytes}
use discord_sftp_drive.Model.{Chunk}
use discord_sftp_drive.Vfs.Tags.{sort_by_offset, insert_by_offset}
use discord_sftp_drive.Vfs.Chunks.{covered_end, last_chunk}
use discord_sftp_drive.File.Cache.{locate_chunk, last_starting}

-- From the index `i` and the offset `off` on, the chunks lie one behind the other, none empty.
abbrev pub Laid : ℕ → ℕ → List Chunk → List Bytes → Type 0
Laid i off [] [] = Unit
Laid i off [] (p ∷ ps) = ⊥
Laid i off (c ∷ cs) [] = ⊥
Laid i off (c ∷ cs) (p ∷ ps) =
    (c.index ≡ i)
    × (c.offset ≡ off)
    × (c.size ≡ length p)
    × (0 < length p)
    × Laid (suc i) (off + length p) cs ps

abbrev pub total : List Bytes → ℕ
total ps = length (concat ps)

total-cons : (p : Bytes) (ps : List Bytes) → total (p ∷ ps) ≡ length p + total ps
total-cons p ps = length-append p (concat ps)

pub sort-Laid :
    (i off : ℕ) (cs : List Chunk) (ps : List Bytes) → Laid i off cs ps → sort_by_offset cs ≡ cs
unfolding sort_by_offset insert_by_offset
sort-Laid i off [] ps h = refl
sort-Laid i off (c ∷ []) (p ∷ ps) h = refl
sort-Laid i off (c ∷ d ∷ cs) (p ∷ q ∷ ps) h =
    rw (sort-Laid (suc i) (off + length p) (d ∷ cs) (q ∷ ps) h.4) (ground arith)
sort-Laid i off (c ∷ d ∷ cs) (p ∷ []) h = absurd h.4
sort-Laid i off (c ∷ cs) [] h = absurd h

last-Laid :
    (i off : ℕ) (c : Chunk) (cs : List Chunk) (p : Bytes) (ps : List Bytes)
    → Laid i off (c ∷ cs) (p ∷ ps)
    → (last_chunk c cs).offset + (last_chunk c cs).size ≡ off + (length p + total ps)
unfolding last_chunk
last-Laid i off c [] p [] h = omega arith
last-Laid i off c [] p (q ∷ ps) h = absurd h.4
last-Laid i off c (d ∷ ds) p [] h = absurd h.4
last-Laid i off c (d ∷ ds) p (q ∷ ps) h =
    rw (last_chunk, lt→ltb c.offset d.offset (omega arith))
      (omega (arith, last-Laid (suc i) (off + length p) d ds q ps h.4, total-cons q ps))

pub covered_end-Laid :
    (i : ℕ) (cs : List Chunk) (ps : List Bytes) → Laid i 0 cs ps → covered_end cs ≡ total ps
unfolding covered_end
covered_end-Laid i [] [] h = refl
covered_end-Laid i [] (p ∷ ps) h = absurd h
covered_end-Laid i (c ∷ cs) [] h = absurd h
covered_end-Laid i (c ∷ cs) (p ∷ ps) h = omega (arith, last-Laid i 0 c cs p ps h, total-cons p ps)

pub length-Laid :
    (i off : ℕ) (cs : List Chunk) (ps : List Bytes) → Laid i off cs ps → length cs ≡ length ps
length-Laid i off [] [] h = refl
length-Laid i off [] (p ∷ ps) h = absurd h
length-Laid i off (c ∷ cs) [] h = absurd h
length-Laid i off (c ∷ cs) (p ∷ ps) h = ap suc (length-Laid (suc i) (off + length p) cs ps h.4)

-- One more chunk at the end.
pub Laid-snoc :
    (i off : ℕ) (cs : List Chunk) (ps : List Bytes) (c : Chunk) (p : Bytes)
    → Laid i off cs ps
    → c.index ≡ i + length cs
    → c.offset ≡ off + total ps
    → c.size ≡ length p
    → 0 < length p
    → Laid i off (cs ++ c ∷ []) (ps ++ p ∷ [])
Laid-snoc i off [] [] c p h ei eo es pos = (omega arith, omega arith, es, pos, tt)
Laid-snoc i off [] (q ∷ ps) c p h ei eo es pos = absurd h
Laid-snoc i off (d ∷ cs) [] c p h ei eo es pos = absurd h
Laid-snoc i off (d ∷ cs) (q ∷ ps) c p h ei eo es pos = (
  h.0,
  h.1,
  h.2,
  h.3,
  Laid-snoc (suc i) (off + length q) cs ps c p h.4 (omega arith) (omega (arith, total-cons q ps)) es
      pos,
)

-- A chunk of the list, with what stands before and behind it.
pub record Located (i off : ℕ) (cs : List Chunk) (ps : List Bytes) (at : ℕ) : Type 0 where
  pub cpre : List Chunk
  pub c : Chunk
  pub cpost : List Chunk
  pub pre : List Bytes
  pub p : Bytes
  pub post : List Bytes
  pub chunks_eq : cs ≡ cpre ++ c ∷ cpost
  pub pieces_eq : ps ≡ pre ++ p ∷ post
  pub same_length : length cpre ≡ length pre
  pub index_eq : c.index ≡ i + length pre
  pub offset_eq : c.offset ≡ off + total pre
  pub size_eq : c.size ≡ length p
  pub starts : c.offset ≤ at
  pub ends : at < c.offset + length p

last_starting_stop :
    (i off at : ℕ) (cs : List Chunk) (ps : List Bytes) (best : Option Chunk)
    → Laid i off cs ps
    → at < off
    → last_starting best at cs ≡ best
unfolding last_starting
last_starting_stop i off at [] ps best h lt = refl
last_starting_stop i off at (c ∷ cs) [] best h lt = absurd h
last_starting_stop i off at (c ∷ cs) (p ∷ ps) best h lt = ground arith

last_starting_step :
    (at : ℕ) (c : Chunk) (cs : List Chunk) (best : Option Chunk)
    → c.offset ≤ at
    → last_starting best at (c ∷ cs) ≡ last_starting (some c) at cs
unfolding last_starting
last_starting_step at c cs best h = ground arith

Located-cons :
    (i off at : ℕ) (c : Chunk) (cs : List Chunk) (p : Bytes) (ps : List Bytes)
    → Located (suc i) (off + length p) cs ps at
    → Located i off (c ∷ cs) (p ∷ ps) at
Located-cons i off at c cs p ps l = record {
  cpre = c ∷ l.cpre;
  c = l.c;
  cpost = l.cpost;
  pre = p ∷ l.pre;
  p = l.p;
  post = l.post;
  chunks_eq = ap (◌∷◌ c) l.chunks_eq;
  pieces_eq = ap (◌∷◌ p) l.pieces_eq;
  same_length = ap suc l.same_length;
  index_eq = omega (arith, l.index_eq);
  offset_eq = omega (arith, l.offset_eq, total-cons p l.pre);
  size_eq = l.size_eq;
  starts = l.starts;
  ends = l.ends;
}

-- Inside the data, `bisect_right` finds the chunk that covers the position.
last_starting-Laid :
    (i off at : ℕ) (cs : List Chunk) (ps : List Bytes) (best : Option Chunk)
    → Laid i off cs ps
    → off ≤ at
    → at < off + total ps
    → (l : Located i off cs ps at) × (last_starting best at cs ≡ some l.c)
unfolding Located-cons
last_starting-Laid i off at [] [] best h lo hi = absurd (omega arith)
last_starting-Laid i off at [] (p ∷ ps) best h lo hi = absurd h
last_starting-Laid i off at (c ∷ cs) [] best h lo hi = absurd h
last_starting-Laid i off at (c ∷ cs) (p ∷ ps) best h lo hi =
    elim (Bool-cases (ltb at (off + length p))) [
      | inl here ↦ (
        record {
          cpre = [];
          c = c;
          cpost = cs;
          pre = [];
          p = p;
          post = ps;
          chunks_eq = refl;
          pieces_eq = refl;
          same_length = refl;
          index_eq = omega arith;
          offset_eq = omega arith;
          size_eq = h.2;
          starts = omega arith;
          ends = omega (arith, ltb→lt at (off + length p) here);
        },
        last_starting_step at c cs best (omega arith)
            ∙ last_starting_stop (suc i) (off + length p) at cs ps (some c) h.4
                (ltb→lt at (off + length p) here),
      )
      | inr later ↦
          let (l, e) =
            last_starting-Laid (suc i) (off + length p) at cs ps (some c) h.4 (ground arith)
              (omega (arith, total-cons p ps)) in
          (Located-cons i off at c cs p ps l, last_starting_step at c cs best (omega arith) ∙ e)
    ]

-- `_locate_chunk` inside the data.
pub locate-Laid :
    (at : ℕ) (cs : List Chunk) (ps : List Bytes)
    → Laid 0 0 cs ps
    → at < total ps
    → (l : Located 0 0 cs ps at) × (locate_chunk at cs ≡ some l.c)
unfolding locate_chunk
locate-Laid at cs ps h lt =
    let (l, e) = last_starting-Laid 0 0 at cs ps none h (omega arith) (omega arith) in
    (l, rw (locate_chunk, e) (ground (arith, l.ends, l.size_eq)))

abbrev EndsBefore : ℕ → Option Chunk → Type 0
EndsBefore at none = Unit
EndsBefore at (some c) = c.offset + c.size ≤ at

last_starting-EndsBefore :
    (i off at : ℕ) (cs : List Chunk) (ps : List Bytes) (best : Option Chunk)
    → Laid i off cs ps
    → off + total ps ≤ at
    → EndsBefore at best
    → EndsBefore at (last_starting best at cs)
unfolding last_starting
last_starting-EndsBefore i off at [] ps best h le b = b
last_starting-EndsBefore i off at (c ∷ cs) [] best h le b = absurd h
last_starting-EndsBefore i off at (c ∷ cs) (p ∷ ps) best h le b =
    rw (last_starting_step at c cs best (omega (arith, total-cons p ps))) (
      last_starting-EndsBefore (suc i) (off + length p) at cs ps (some c) h.4
        (omega (arith, total-cons p ps)) (omega (arith, total-cons p ps)))

locate_none :
    (at : ℕ) (o : Option Chunk)
    → EndsBefore at o
    → (elim o as (λ _. Option Chunk) [
      | none ↦ none
      | some c ↦ if leb (c.offset + c.size) at then none else some c
    ])
      ≡ none
locate_none at none h = refl
locate_none at (some c) h = ground arith

-- Past the data there is no chunk.
pub locate-hole :
    (at : ℕ) (cs : List Chunk) (ps : List Bytes)
    → Laid 0 0 cs ps
    → total ps ≤ at
    → locate_chunk at cs ≡ none
unfolding locate_chunk
locate-hole at cs ps h le =
    locate_none at (last_starting none at cs)
      (last_starting-EndsBefore 0 0 at cs ps none h (omega arith) tt)
