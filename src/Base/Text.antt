-- ===== src/Base/Text.antt =====
-- Python's `str`, as its UTF-8 bytes: `encode("utf-8")` is then the identity, splitting at an
-- ASCII character is splitting at a byte, and the order of code points is the order of bytes.
use Prim.Native.Nat.{ℕ}
use mathlib.Core.Path.{◌≡◌, refl}
use mathlib.Core.Logic.{◌↔◌}
use mathlib.Core.Bool.{Bool, true, false, ◌&&◌}
use mathlib.Core.List.{List, [], ◌∷◌, ◌++◌}
use native.Mathlib.Omega.{arith}
use discord_sftp_drive.Base.Tests.{◌==◌, ltb, if◌then◌else◌}

abbrev pub Str : Type 0
Str = List ℕ

unfoldable pub str_eq : Str → Str → Bool
str_eq [] [] = true
str_eq [] (y ∷ ys) = false
str_eq (x ∷ xs) [] = false
str_eq (x ∷ xs) (y ∷ ys) = x == y && str_eq xs ys

pub str_eq_iff : (a b : Str) → (str_eq a b ≡ true) ↔ (a ≡ b)
unfolding str_eq
str_eq_iff [] [] = ground arith
str_eq_iff [] (y ∷ ys) = ground arith
str_eq_iff (x ∷ xs) [] = ground arith
str_eq_iff (x ∷ xs) (y ∷ ys) = ground (arith, str_eq_iff xs ys)

pub str_eq_refl : (a : Str) → str_eq a a ≡ true
str_eq_refl a = (str_eq_iff a a).1 refl

-- `a <= b` of Python's strings.
unfoldable pub str_le : Str → Str → Bool
str_le [] ys = true
str_le (x ∷ xs) [] = false
str_le (x ∷ xs) (y ∷ ys) =
    let rest = str_le xs ys in if ltb x y then true else if x == y then rest else false

-- `s.split(sep)` for a separator of one byte: the pieces, in order, the empty ones too.
abbrev pub prepend : ℕ → List Str → List Str
prepend c [] = (c ∷ []) ∷ []
prepend c (piece ∷ pieces) = (c ∷ piece) ∷ pieces

unfoldable pub split_on : ℕ → Str → List Str
split_on sep [] = [] ∷ []
split_on sep (c ∷ rest) = if c == sep then [] ∷ split_on sep rest else prepend c (split_on sep rest)

-- `sep.join(pieces)`
unfoldable pub intercalate : Str → List Str → Str
intercalate sep [] = []
intercalate sep (piece ∷ []) = piece
intercalate sep (piece ∷ next ∷ more) = piece ++ (sep ++ intercalate sep (next ∷ more))
