-- ===== src/Crypto/Codec.antt =====
-- Fixed-width integers and length prefixes (src/crypto.py: `int.to_bytes`, `_length_prefixed`).
use discord_sftp_drive.Base.{
  ℕ, zero, suc, ◌+◌, ◌*◌, ◌/◌, ◌%◌, ◌^◌, ◌<◌, ◌≡◌, refl, sym, ◌∙◌, List, [], ◌∷◌, ◌++◌, arith,
  length, length-append,
}
use mathlib.Core.List.{append_assoc}
use discord_sftp_drive.Seal.{Bytes}

-- `n.to_bytes(width, "big")`, for an `n` that fits.
unfoldable pub be : ℕ → ℕ → Bytes
be zero n = []
be (suc width) n = be width (n / 256) ++ n % 256 ∷ []

-- `_length_prefixed`
unfoldable pub length_prefixed : Bytes → Bytes
length_prefixed value = be 8 (length value) ++ value

-- Tags one behind the other.
unfoldable pub all_prefixed : List Bytes → Bytes
all_prefixed [] = []
all_prefixed (value ∷ values) = length_prefixed value ++ all_prefixed values

pub length-be : (width n : ℕ) → length (be width n) ≡ width
unfolding be
length-be zero n = refl
length-be (suc width) n =
    omega (arith, length-append (be width (n / 256)) (n % 256 ∷ []), length-be width (n / 256))

-- Two parts of equal length can be told apart.
pub append-split : (a b x y : Bytes) → length a ≡ length b → a ++ x ≡ b ++ y → (a ≡ b) × (x ≡ y)
append-split [] [] x y e h = (refl, h)
append-split [] (c ∷ b) x y e h = absurd (omega arith)
append-split (c ∷ a) [] x y e h = absurd (omega arith)
append-split (c ∷ a) (d ∷ b) x y e h =
    let (p, q) = append-split a b x y (omega arith) cc in
    let first : c ≡ d = cc in (rw (first, p), q)

pub be-injective :
    (width m n : ℕ) → m < 256 ^ width → n < 256 ^ width → be width m ≡ be width n → m ≡ n
unfolding be
be-injective zero m n hm hn h = omega arith
be-injective (suc width) m n hm hn h =
    let (p, q) =
      append-split (be width (m / 256)) (be width (n / 256)) (m % 256 ∷ []) (n % 256 ∷ [])
        (length-be width (m / 256) ∙ sym (length-be width (n / 256))) h in
    let digit : m % 256 ≡ n % 256 = cc in
    let rest : m / 256 ≡ n / 256 =
      be-injective width (m / 256) (n / 256) (omega arith) (omega arith) p in
    omega arith

abbrev pub limit : ℕ
limit = 18446744073709551616

-- Eight bytes of a number, then anything.
pub be8-split :
    (m n : ℕ) (x y : Bytes) → m < limit → n < limit → be 8 m ++ x ≡ be 8 n ++ y → (m ≡ n) × (x ≡ y)
be8-split m n x y hm hn h =
    let (p, q) = append-split (be 8 m) (be 8 n) x y (length-be 8 m ∙ sym (length-be 8 n)) h in
    (be-injective 8 m n hm hn p, q)

-- A length-prefixed value, then anything.
pub length_prefixed-split :
    (a b x y : Bytes)
    → length a < limit
    → length b < limit
    → length_prefixed a ++ x ≡ length_prefixed b ++ y
    → (a ≡ b) × (x ≡ y)
unfolding length_prefixed
length_prefixed-split a b x y ha hb h =
    let e : be 8 (length a) ++ (a ++ x) ≡ be 8 (length b) ++ (b ++ y) =
      sym (append_assoc (be 8 (length a)) a x) ∙ (h ∙ append_assoc (be 8 (length b)) b y) in
    let (same, rest) = be8-split (length a) (length b) (a ++ x) (b ++ y) ha hb e in
    append-split a b x y same rest

-- `int.from_bytes(b, "big")`, behind a value that was read.
unfoldable pub from_be : ℕ → Bytes → ℕ
from_be value [] = value
from_be value (b ∷ bs) = from_be (value * 256 + b) bs

from_be-append :
    (value : ℕ) (xs : Bytes) (b : ℕ) → from_be value (xs ++ b ∷ []) ≡ from_be value xs * 256 + b
unfolding from_be
from_be-append value [] b = refl
from_be-append value (x ∷ xs) b = from_be-append (value * 256 + x) xs b

-- Bytes of a number that fits read as it.
pub from_be-be : (width n : ℕ) → n < 256 ^ width → from_be 0 (be width n) ≡ n
unfolding be from_be
from_be-be zero n lt = omega arith
from_be-be (suc width) n lt =
    let rest = from_be-be width (n / 256) (omega arith) in
    omega (arith, from_be-append 0 (be width (n / 256)) (n % 256), rest)
