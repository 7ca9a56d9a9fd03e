-- ===== src/Crypto/Stream.antt =====
-- AES-256-CTR (src/crypto.py: `_counter_block`, `transform`): its own inverse, at any offset.
use discord_sftp_drive.Base.{
  ℕ, zero, suc, ◌+◌, ◌*◌, ◌/◌, ◌%◌, ◌^◌, ◌≡◌, refl, ap, sym, [], ◌∷◌, ◌++◌, arith, length, drop,
  replicate,
}
use discord_sftp_drive.Seal.{Bytes}
use discord_sftp_drive.Crypto.Codec.{be, from_be, from_be-be}

abbrev pub block_size : ℕ
block_size = 16

-- `_counter_block`
unfoldable pub counter_block : Bytes → ℕ → Bytes
counter_block nonce block_index = be 16 ((from_be 0 nonce + block_index) % 256 ^ 16)

-- Every byte with the keystream's byte at its place.
unfoldable pub mixed : (ℕ → ℕ → ℕ) → (ℕ → ℕ) → ℕ → Bytes → Bytes
mixed mix stream at [] = []
mixed mix stream at (b ∷ bs) = mix (stream at) b ∷ mixed mix stream (at + 1) bs

-- CTR mode: byte `i` of the keystream is byte `i % 16` of what the block cipher makes of a counter,
-- which is the big-endian number in the first block, and goes up by one, modulo 2 ^ 128, for every
-- block of 16 bytes.
unfoldable pub ctr_stream : (Bytes → ℕ → ℕ → ℕ) → Bytes → Bytes → ℕ → ℕ
ctr_stream block_byte key first i = block_byte key ((from_be 0 first + i / 16) % 256 ^ 16) (i % 16)

-- The cipher of the library: `block_byte` is AES on a counter, and an encryptor in CTR mode adds the
-- keystream to the data.
pub record Aes : Type 0 where
  pub update : Bytes → Bytes → Bytes → Bytes
  pub block_byte : Bytes → ℕ → ℕ → ℕ
  pub mix : ℕ → ℕ → ℕ
  pub mix_twice : (s b : ℕ) → mix s (mix s b) ≡ b
  pub update_eq :
      (key block data' : Bytes)
      → update key block data' ≡ mixed mix (ctr_stream block_byte key block) 0 data'

-- A counter that starts later, at the counter of a block.
counter_shift :
    (v k i : ℕ) → ((v + k) % 256 ^ 16 + i / 16) % 256 ^ 16 ≡ (v + (16 * k + i) / 16) % 256 ^ 16
counter_shift v k i = omega arith

ctr_stream-counter_block :
    (block_byte : Bytes → ℕ → ℕ → ℕ) (key nonce : Bytes) (k i : ℕ)
    → ctr_stream block_byte key (counter_block nonce k) i
      ≡ ctr_stream block_byte key nonce (block_size * k + i)
unfolding ctr_stream counter_block
ctr_stream-counter_block block_byte key nonce k i =
    let v = from_be 0 nonce in
    let read : from_be 0 (be 16 ((v + k) % 256 ^ 16)) ≡ (v + k) % 256 ^ 16 =
      from_be-be 16 ((v + k) % 256 ^ 16) (omega arith) in
    let place : (16 * k + i) % 16 ≡ i % 16 = omega arith in
    rw (read, counter_shift v k i, place) refl

length-mixed :
    (mix : ℕ → ℕ → ℕ) (stream : ℕ → ℕ) (at : ℕ) (bs : Bytes)
    → length (mixed mix stream at bs) ≡ length bs
unfolding mixed
length-mixed mix stream at [] = refl
length-mixed mix stream at (b ∷ bs) = ap suc (length-mixed mix stream (at + 1) bs)

drop-mixed :
    (mix : ℕ → ℕ → ℕ) (stream : ℕ → ℕ) (n at to : ℕ) (bs : Bytes)
    → at + n ≡ to
    → drop n (mixed mix stream at bs) ≡ mixed mix stream to (drop n bs)
unfolding mixed
drop-mixed mix stream zero at to bs e = let same : at ≡ to = omega arith in rw same
drop-mixed mix stream (suc n) at to [] e = refl
drop-mixed mix stream (suc n) at to (b ∷ bs) e =
    drop-mixed mix stream n (at + 1) to bs (omega arith)

mixed-shift :
    (mix : ℕ → ℕ → ℕ) (s t : ℕ → ℕ) (d at to : ℕ) (bs : Bytes)
    → ((i : ℕ) → s i ≡ t (d + i))
    → d + at ≡ to
    → mixed mix s at bs ≡ mixed mix t to bs
unfolding mixed
mixed-shift mix s t d at to [] h e = refl
mixed-shift mix s t d at to (b ∷ bs) h e =
    rw (h at, e, mixed-shift mix s t d (at + 1) (to + 1) bs h (omega arith)) refl

mixed-twice :
    (aes : Aes) (stream : ℕ → ℕ) (at : ℕ) (bs : Bytes)
    → mixed aes.mix stream at (mixed aes.mix stream at bs) ≡ bs
unfolding mixed
mixed-twice aes stream at [] = refl
mixed-twice aes stream at (b ∷ bs) = rw (aes.mix_twice, mixed-twice aes stream (at + 1) bs)

drop-filler : (n : ℕ) (bs : Bytes) → drop n (replicate n 0 ++ bs) ≡ bs
drop-filler zero bs = refl
drop-filler (suc n) bs = drop-filler n bs

module _ (aes : Aes) where
  -- `transform`: as many filler bytes as the offset stands inside its block.
  unfoldable pub transform : Bytes → Bytes → Bytes → ℕ → Bytes
  transform key nonce [] offset = []
  transform key nonce (b ∷ bs) offset =
      let skew = offset % block_size in
      drop skew
        (aes.update key (counter_block nonce (offset / block_size)) (replicate skew 0 ++ b ∷ bs))

  transform_eq :
      (key nonce data' : Bytes) (offset : ℕ)
      → transform key nonce data' offset
        ≡ mixed aes.mix (ctr_stream aes.block_byte key nonce) offset data'
  unfolding transform mixed
  transform_eq key nonce [] offset = refl
  transform_eq key nonce (b ∷ bs) offset =
      let skew = offset % block_size in
      let k = offset / block_size in
      let stream = ctr_stream aes.block_byte key (counter_block nonce k) in
      rw
        (
          transform,
          aes.update_eq,
          drop-mixed aes.mix stream skew 0 skew (replicate skew 0 ++ b ∷ bs) (omega arith),
          drop-filler skew (b ∷ bs),
        )
        (mixed-shift aes.mix stream (ctr_stream aes.block_byte key nonce) (block_size * k) skew
          offset (b ∷ bs) (ctr_stream-counter_block aes.block_byte key nonce k) (omega arith))

  -- At every offset, a second transformation undoes the first.
  pub transform-twice :
      (key nonce data' : Bytes) (offset : ℕ)
      → transform key nonce (transform key nonce data' offset) offset ≡ data'
  transform-twice key nonce data' offset =
      rw (transform_eq key nonce data' offset, transform_eq)
        (mixed-twice aes (ctr_stream aes.block_byte key nonce) offset data')

  -- The bytes from an offset on, transformed at that offset, are what the transformation of the
  -- whole has from that offset on.
  pub transform-drop :
      (key nonce data' : Bytes) (offset : ℕ)
      → transform key nonce (drop offset data') offset ≡ drop offset (transform key nonce data' 0)
  transform-drop key nonce data' offset =
      rw (transform_eq, transform_eq key nonce data' 0)
        (sym (
          drop-mixed aes.mix (ctr_stream aes.block_byte key nonce) offset 0 offset data'
            (omega arith)))

  -- The ciphertext is as long as the plaintext.
  pub length-transform :
      (key nonce data' : Bytes) (offset : ℕ)
      → length (transform key nonce data' offset) ≡ length data'
  length-transform key nonce data' offset =
      rw transform_eq (length-mixed aes.mix (ctr_stream aes.block_byte key nonce) offset data')
