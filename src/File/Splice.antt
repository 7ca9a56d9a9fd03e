-- ===== src/File/Splice.antt =====
-- Byte strings patched in place: what one POSIX write does to the bytes of a file.
use discord_sftp_drive.Base.{
  ℕ, ◌+◌, ◌-◌, ◌≤◌, ◌<◌, ◌≡◌, refl, sym, List, ◌∷◌, ◌++◌, arith, length, concat, take, drop,
  replicate, max, take-append_le, take-append_ge, drop-append_le, drop-append_ge, drop-drop,
  drop_all, take_all, length-append, length-take, length-drop, length-replicate, concat-append,
  replicate-add, drop-replicate, take-replicate, Bool-cases, inl, inr, leb, leb→le,
}
use mathlib.Core.List.{append_assoc}
use discord_sftp_drive.Seal.{Bytes}
use discord_sftp_drive.File.Writing.{patch}
use discord_sftp_drive.File.Layout.{total}
use discord_sftp_drive.File.Contents.{with_hole}

-- POSIX `pwrite`: a gap up to the offset is filled with zeros, the data replace what they cover,
-- and the rest stays.
unfoldable pub overwrite : ℕ → Bytes → Bytes → Bytes
overwrite offset new bytes =
    take offset (bytes ++ replicate (offset - length bytes) 0)
    ++ (new ++ drop (offset + length new) bytes)

pub length-patch :
    (start : ℕ) (new old : Bytes)
    → start + length new ≤ length old
    → length (patch start new old) ≡ length old
unfolding patch
length-patch start new old le = omega (
  arith,
  length-append (take start old) (new ++ drop (start + length new) old),
  length-append new (drop (start + length new) old),
  length-take start old,
  length-drop (start + length new) old,
)

-- Patching one piece is patching the whole at the piece's place.
pub patch-piece :
    (pre : List Bytes) (p : Bytes) (post : List Bytes) (at start : ℕ) (new : Bytes)
    → total pre + start ≡ at
    → start + length new ≤ length p
    → concat (pre ++ patch start new p ∷ post) ≡ patch at new (concat (pre ++ p ∷ post))
unfolding patch
patch-piece pre p post at start new e le =
    rw
      (
        concat-append pre (p ∷ post),
        concat-append pre ((take start p ++ (new ++ drop (start + length new) p)) ∷ post),
        take-append_ge at start (concat pre) (p ++ concat post) e,
        take-append_le start p (concat post) (omega arith),
        drop-append_ge (at + length new) (start + length new) (concat pre) (p ++ concat post)
            (omega arith),
        drop-append_le (start + length new) p (concat post) le,
      )
      (simp append_assoc)

-- Two patches, one behind the other, are one.
pub patch-patch :
    (at at' : ℕ) (a b bytes : Bytes)
    → at + length a ≡ at'
    → at' + length b ≤ length bytes
    → patch at' b (patch at a bytes) ≡ patch at (a ++ b) bytes
unfolding patch
patch-patch at at' a b bytes e le =
    rw
      (
        take-append_ge at' (length a) (take at bytes) (a ++ drop (at + length a) bytes)
            (omega (arith, length-take at bytes)),
        take-append_le (length a) a (drop (at + length a) bytes) (omega arith),
        take_all (length a) a (omega arith),
        drop-append_ge (at' + length b) (length a + length b) (take at bytes)
            (a ++ drop (at + length a) bytes) (omega (arith, length-take at bytes)),
        drop-append_ge (length a + length b) (length b) a (drop (at + length a) bytes) refl,
        drop-drop (at + length a) (length b) (at + length (a ++ b)) bytes
            (omega (arith, length-append a b)),
      )
      (simp append_assoc)

-- A recorded size up to the end of the bytes makes no hole.
pub with_hole_size :
    (size size' : ℕ) (bytes : Bytes)
    → size ≤ size'
    → size' ≤ max size (length bytes)
    → with_hole size' bytes ≡ with_hole size bytes
with_hole_size size size' bytes lo hi =
    let e : size' - length bytes ≡ size - length bytes = omega arith in rw e

-- Behind `n` bytes of a file with a hole: the rest of the bytes, or the rest of the hole.
pub drop-with_hole_in :
    (n size : ℕ) (bytes : Bytes)
    → n ≤ length bytes
    → drop n (with_hole size bytes) ≡ drop n bytes ++ replicate (size - length bytes) 0
drop-with_hole_in n size bytes le = drop-append_le n bytes (replicate (size - length bytes) 0) le

pub drop-with_hole_past :
    (n size : ℕ) (bytes : Bytes)
    → length bytes ≤ n
    → drop n (with_hole size bytes) ≡ replicate (size - n) 0
drop-with_hole_past n size bytes le = elim (Bool-cases (leb n (max size (length bytes)))) [
  | inl inside ↦
      rw
        (drop-append_ge n (n - length bytes) bytes (replicate (size - length bytes) 0)
          (omega arith))
        (drop-replicate {A = ℕ} (n - length bytes) (size - length bytes) (size - n) 0
          (omega (arith, leb→le n (max size (length bytes)) inside)))
  | inr outside ↦
      let far : max size (length bytes) < n = ground arith in
      let none' : size - n ≡ 0 = omega arith in
      rw none' (
        drop_all n (with_hole size bytes) (
          omega (
            arith,
            length-append bytes (replicate (size - length bytes) 0),
            length-replicate {A = ℕ} (size - length bytes) 0,
          )))
]

-- The bytes before the offset, with zeros in the gap, are the same with a hole or without.
pub take-padded :
    (n size : ℕ) (bytes : Bytes)
    → take n (with_hole size bytes ++ replicate (n - length (with_hole size bytes)) 0)
      ≡ take n (bytes ++ replicate (n - length bytes) 0)
take-padded n size bytes =
    let hole = size - length bytes in
    let e = length-append bytes (replicate hole 0) in
    let l = length-replicate {A = ℕ} hole 0 in
    let gap = n - length (with_hole size bytes) in
    rw
      (
        append_assoc bytes (replicate hole 0) (replicate gap 0),
        ← replicate-add {A = ℕ} hole gap (hole + gap) 0 refl,
      )
      (elim (Bool-cases (leb n (length bytes))) [
        | inl inside ↦
            rw (take-append_le n bytes (replicate (hole + gap) 0) (leb→le n (length bytes) inside))
              (sym (
                take-append_le n bytes (replicate (n - length bytes) 0)
                  (leb→le n (length bytes) inside)))
        | inr outside ↦
            let far : length bytes < n = ground arith in
            rw
              (
                take-append_ge n (n - length bytes) bytes (replicate (hole + gap) 0) (omega arith),
                take-replicate {A = ℕ} (n - length bytes) (hole + gap) 0 (omega (arith, e, l)),
                take-append_ge n (n - length bytes) bytes (replicate (n - length bytes) 0)
                    (omega arith),
                take-replicate {A = ℕ} (n - length bytes) (n - length bytes) 0 (omega arith),
              )
              refl
      ])
