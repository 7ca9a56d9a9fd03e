-- ===== src/Path/Normal.antt =====
-- What `normalize_path` (src/vfs.py) leaves of a path.
use discord_sftp_drive.Base.{
  ℕ, ◌≡◌, ◌≢◌, refl, ap, Str, str_eq, str_eq_iff, false, List, [], ◌∷◌, ◌++◌, map, ◌==◌, arith, All,
  split_on, intercalate, prepend, Bool-cases, inl, inr,
}
use mathlib.Core.List.{append-nil}
use discord_sftp_drive.Path.{
  slash, backslash, dot, dot_dot, to_slash, pop, take_part, collapse, reverse_onto, segments,
  normalize_path,
}

-- A byte of a segment.
abbrev Plain : ℕ → Type 0
Plain c = (c ≢ slash) × (c ≢ backslash)

-- A segment that names something: not empty, not `.` and not `..`, and in one piece.
abbrev pub IsSegment : Str → Type 0
IsSegment p = (p ≢ []) × (p ≢ dot) × (p ≢ dot_dot) × All Plain p

to_slash-ne_backslash : (c : ℕ) → to_slash c ≢ backslash
unfolding to_slash
to_slash-ne_backslash c e = ground arith

split_on-Plain : (s : Str) → All (All Plain) (split_on slash (map to_slash s))
unfolding split_on
split_on-Plain [] = (tt, tt)
split_on-Plain (c ∷ s) = elim (Bool-cases (to_slash c == slash)) [
  | inl cut ↦ rw cut (tt, split_on-Plain s)
  | inr kept ↦
      let ne : to_slash c ≢ slash = ground arith in
      rw kept (
        longer (split_on slash (map to_slash s)) (to_slash c) (ne, to_slash-ne_backslash c)
          (split_on-Plain s))
]
  where
    longer :
        (pieces : List Str) (c : ℕ)
        → Plain c
        → All (All Plain) pieces
        → All (All Plain) (prepend c pieces)
    longer [] c p h = ((p, tt), tt)
    longer (piece ∷ pieces) c p h = ((p, h.0), h.1)

pop-All : (parts : List Str) → All IsSegment parts → All IsSegment (pop parts)
pop-All [] h = tt
pop-All (p ∷ ps) h = h.1

take_part-All :
    (part : Str) (parts : List Str)
    → All Plain part
    → All IsSegment parts
    → All IsSegment (take_part part parts)
unfolding take_part
take_part-All [] parts plain h = h
take_part-All (c ∷ cs) parts plain h = elim (Bool-cases (str_eq (c ∷ cs) dot)) [
  | inl here ↦ rw here h
  | inr named ↦ elim (Bool-cases (str_eq (c ∷ cs) dot_dot)) [
    | inl up ↦ rw (named, up) (pop-All parts h)
    | inr down ↦
        rw (named, down)
          (
            (
              (λ e. cc),
              (λ e. cc (named, (str_eq_iff (c ∷ cs) dot).1 e)),
              (λ e. cc (down, (str_eq_iff (c ∷ cs) dot_dot).1 e)),
              plain,
            ),
            h,
          )
  ]
]

collapse-All :
    (parts rest : List Str)
    → All (All Plain) rest
    → All IsSegment parts
    → All IsSegment (collapse parts rest)
unfolding collapse
collapse-All parts [] plain h = h
collapse-All parts (part ∷ rest) plain h =
    collapse-All (take_part part parts) rest plain.1 (take_part-All part parts plain.0 h)

reverse_onto-All :
    (xs out : List Str) → All IsSegment xs → All IsSegment out → All IsSegment (reverse_onto xs out)
unfolding reverse_onto
reverse_onto-All [] out hx ho = ho
reverse_onto-All (x ∷ xs) out hx ho = reverse_onto-All xs (x ∷ out) hx.1 (hx.0, ho)

-- Every segment that a client's path resolves through is a name: not empty, not `.`, not `..`, and
-- without a slash or a backslash in it.
pub segments-IsSegment : (path : Str) → All IsSegment (segments path)
unfolding segments
segments-IsSegment path =
    reverse_onto-All (collapse [] (split_on slash (map to_slash path))) []
      (collapse-All [] (split_on slash (map to_slash path)) (split_on-Plain path) tt) tt

Plain-eq : (c : ℕ) → Plain c → (c == slash) ≡ false
Plain-eq c p = let ne = p.0 in ground arith

split_on_ordinary : (p : Str) → All Plain p → split_on slash p ≡ p ∷ []
unfolding split_on
split_on_ordinary [] h = refl
split_on_ordinary (c ∷ p) h = rw (Plain-eq c h.0, split_on_ordinary p h.1)

split_on-append :
    (p rest : Str) → All Plain p → split_on slash (p ++ (slash ∷ rest)) ≡ p ∷ split_on slash rest
unfolding split_on
split_on-append [] rest h = refl
split_on-append (c ∷ p) rest h = rw (Plain-eq c h.0, split_on-append p rest h.1)

split_on-intercalate :
    (p : Str) (ps : List Str)
    → All IsSegment (p ∷ ps)
    → split_on slash (intercalate (slash ∷ []) (p ∷ ps)) ≡ p ∷ ps
unfolding intercalate
split_on-intercalate p [] h = split_on_ordinary p h.0.3
split_on-intercalate p (q ∷ qs) h =
    rw (split_on-append p (intercalate (slash ∷ []) (q ∷ qs)) h.0.3, split_on-intercalate q qs h.1)

to_slash_ordinary : (s : Str) → All Plain s → map to_slash s ≡ s
unfolding to_slash
to_slash_ordinary [] h = refl
to_slash_ordinary (c ∷ s) h =
    let ne = h.0.1 in
    let same : (c == backslash) ≡ false = ground arith in rw (same, to_slash_ordinary s h.1)

map-to_slash-append : (a b : Str) → map to_slash (a ++ b) ≡ map to_slash a ++ map to_slash b
map-to_slash-append [] b = refl
map-to_slash-append (c ∷ a) b = rw (map-to_slash-append a b)

map-to_slash-intercalate :
    (ps : List Str)
    → All IsSegment ps
    → map to_slash (intercalate (slash ∷ []) ps) ≡ intercalate (slash ∷ []) ps
unfolding intercalate to_slash
map-to_slash-intercalate [] h = refl
map-to_slash-intercalate (p ∷ []) h = to_slash_ordinary p h.0.3
map-to_slash-intercalate (p ∷ q ∷ qs) h =
    rw
      (
        map-to_slash-append p (slash ∷ intercalate (slash ∷ []) (q ∷ qs)),
        to_slash_ordinary p h.0.3,
        map-to_slash-intercalate (q ∷ qs) h.1,
      )
      refl

take_part_segment : (p : Str) (parts : List Str) → IsSegment p → take_part p parts ≡ p ∷ parts
unfolding take_part
take_part_segment [] parts h = absurd (h.0 refl)
take_part_segment (c ∷ cs) parts h =
    let a = h.1 in
    let b = h.2 in
    let named : str_eq (c ∷ cs) dot ≡ false = ground (arith, str_eq_iff (c ∷ cs) dot) in
    let down : str_eq (c ∷ cs) dot_dot ≡ false = ground (arith, str_eq_iff (c ∷ cs) dot_dot) in
    rw (named, down) refl

collapse_segments :
    (parts ps : List Str) → All IsSegment ps → collapse parts ps ≡ reverse_onto ps parts
unfolding collapse reverse_onto
collapse_segments parts [] h = refl
collapse_segments parts (p ∷ ps) h =
    rw (take_part_segment p parts h.0) (collapse_segments (p ∷ parts) ps h.1)

reverse_onto_twice :
    (xs ys out : List Str) → reverse_onto (reverse_onto xs ys) out ≡ reverse_onto ys (xs ++ out)
unfolding reverse_onto
reverse_onto_twice [] ys out = refl
reverse_onto_twice (x ∷ xs) ys out = reverse_onto_twice xs (x ∷ ys) out

segments_again :
    (ps : List Str) → All IsSegment ps → segments (slash ∷ intercalate (slash ∷ []) ps) ≡ ps
unfolding segments split_on to_slash collapse take_part reverse_onto intercalate
segments_again [] h = refl
segments_again (p ∷ ps) h =
    rw
      (
        map-to_slash-intercalate (p ∷ ps) h,
        split_on-intercalate p ps h,
        collapse_segments [] (p ∷ ps) h,
        reverse_onto_twice (p ∷ ps) [] [],
      )
      (append-nil (p ∷ ps))

-- Normalising a path that is normal already changes nothing.
normalize_path_idem : (path : Str) → normalize_path (normalize_path path) ≡ normalize_path path
unfolding normalize_path
normalize_path_idem path =
    ap (λ ps. slash ∷ intercalate (slash ∷ []) ps)
      (segments_again (segments path) (segments-IsSegment path))
