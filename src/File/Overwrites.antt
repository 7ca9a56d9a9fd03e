-- ===== src/File/Overwrites.antt =====
-- One POSIX write on a file, as an append, and as a gap that is filled, a patch, and an append.
use discord_sftp_drive.Base.{
  ℕ, ◌+◌, ◌-◌, ◌≤◌, ◌<◌, ◌≡◌, refl, ◌++◌, arith, length, take, drop, replicate, min, max, drop_all,
  take_all, length-append, length-take, length-drop, length-replicate, take-append-drop, Bool-cases,
  inl, inr, leb, leb→le,
}
use mathlib.Core.List.{append_assoc, append-nil}
use discord_sftp_drive.Seal.{Bytes}
use discord_sftp_drive.File.Writing.{patch}
use discord_sftp_drive.File.Contents.{with_hole}
use discord_sftp_drive.File.Splice.{overwrite, drop-with_hole_in, drop-with_hole_past, take-padded}

-- What one write does to a file of `size` bytes whose data end with `bytes`.
overwrite-with_hole :
    (offset size : ℕ) (new bytes : Bytes)
    → overwrite offset new (with_hole size bytes)
      ≡ take offset (bytes ++ replicate (offset - length bytes) 0)
        ++ (new ++ drop (offset + length new) (with_hole size bytes))
unfolding overwrite
overwrite-with_hole offset size new bytes = rw (take-padded offset size bytes)

-- Appending at the end of the data.
pub append-overwrite :
    (offset size : ℕ) (new bytes : Bytes)
    → length bytes ≡ offset
    → with_hole size (bytes ++ new) ≡ overwrite offset new (with_hole size bytes)
append-overwrite offset size new bytes e =
    let none' : offset - length bytes ≡ 0 = omega arith in
    let left : size - length (bytes ++ new) ≡ size - (offset + length new) =
      omega (arith, length-append bytes new) in
    rw
      (
        overwrite-with_hole offset size new bytes,
        none',
        append-nil,
        take_all offset bytes (omega arith),
        drop-with_hole_past (offset + length new) size bytes (omega arith),
        left,
      )
      (append_assoc bytes new (replicate (size - (offset + length new)) 0))

-- The patched part of the data and the appended part are the data.
patched-appended :
    (offset avail : ℕ) (new filled : Bytes)
    → offset ≤ length filled
    → min (length new) (length filled - offset) ≡ avail
    → patch offset (take avail new) filled ++ drop avail new
      ≡ take offset filled ++ (new ++ drop (offset + length new) filled)
unfolding patch
patched-appended offset avail new filled le e =
    let cut = length-take avail new in
    elim (Bool-cases (leb (length new) (length filled - offset))) [
      | inl fits ↦
          let whole : avail ≡ length new =
            omega (arith, leb→le (length new) (length filled - offset) fits) in
          rw
            (
              whole,
              take_all (length new) new (omega arith),
              drop_all (length new) new (omega arith),
              append-nil,
            )
            refl
      | inr over ↦
          let short : length filled - offset < length new = ground arith in
          rw
            (
              drop_all (offset + length (take avail new)) filled (omega arith),
              drop_all (offset + length new) filled (omega arith),
              append-nil,
              append-nil,
              append_assoc,
              take-append-drop avail new,
            )
            refl
    ]

-- What is behind the data, with the hole.
behind :
    (offset size n : ℕ) (bytes : Bytes)
    → offset ≤ n
    → drop n (bytes ++ replicate (offset - length bytes) 0)
        ++ replicate (size - max (length bytes) n) 0
      ≡ drop n (with_hole size bytes)
behind offset size n bytes le = elim (Bool-cases (leb n (length bytes))) [
  | inl inside ↦
      let fits = leb→le n (length bytes) inside in
      let none' : offset - length bytes ≡ 0 = omega arith in
      let same : max (length bytes) n ≡ length bytes = omega arith in
      rw (none', append-nil, same, drop-with_hole_in n size bytes fits) refl
  | inr outside ↦
      let far : length bytes < n = ground arith in
      let same : max (length bytes) n ≡ n = omega arith in
      rw
        (
          drop_all n (bytes ++ replicate (offset - length bytes) 0) (
              omega (
                arith,
                length-append bytes (replicate (offset - length bytes) 0),
                length-replicate {A = ℕ} (offset - length bytes) 0,
              )),
          same,
          drop-with_hole_past n size bytes (omega arith),
        )
        refl
]

-- Filling the gap, patching what is covered, and appending what is left.
pub patch-overwrite :
    (offset size avail : ℕ) (new bytes : Bytes)
    → min (length new) (length (bytes ++ replicate (offset - length bytes) 0) - offset) ≡ avail
    → with_hole size (
        patch offset (take avail new) (bytes ++ replicate (offset - length bytes) 0)
        ++ drop avail new)
      ≡ overwrite offset new (with_hole size bytes)
patch-overwrite offset size avail new bytes e =
    let filled = bytes ++ replicate (offset - length bytes) 0 in
    let n = offset + length new in
    let lf = length-append bytes (replicate (offset - length bytes) 0) in
    let lr = length-replicate {A = ℕ} (offset - length bytes) 0 in
    let first = take offset filled in
    let rest = drop n filled in
    let ly : length (first ++ (new ++ rest)) ≡ max (length bytes) n = omega (
      arith,
      lf,
      lr,
      length-append first (new ++ rest),
      length-append new rest,
      length-take offset filled,
      length-drop n filled,
    ) in
    rw
      (
        patched-appended offset avail new filled (omega (arith, lf, lr)) e,
        ly,
        overwrite-with_hole offset size new bytes,
        ← behind offset size n bytes (omega arith),
      )
      (simp append_assoc)
