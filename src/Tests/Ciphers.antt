-- ===== src/Tests/Ciphers.antt =====
-- The theorems on cryptography, applied.
use discord_sftp_drive.Base.{
  ℕ, ◌+◌, ◌≡◌, ◌≢◌, refl, none, some, [], ◌∷◌, arith, replicate, drop, ◌-◌, ◌%◌, ◌==◌,
  if◌then◌else◌,
}
use discord_sftp_drive.Seal.{Bytes, ChunkPlace, FileShape, DirShape}
use discord_sftp_drive.Crypto.Payloads.{
  chunk_payload, node_payload, dir_payload, entries_payload, chunk_payload-injective,
  node_payload-injective, payloads-apart,
}
use discord_sftp_drive.Crypto.Stream.{
  Aes, mixed, ctr_stream, transform, transform-twice, transform-drop,
}
use discord_sftp_drive.Crypto.Wrap.{
  Kdf, Settings, pbkdf2_sha256, Wrapped, wrap_master_key, unwrap_master_key, wrap-unwrap,
}

abbrev a_nonce : Bytes
a_nonce = 7 ∷ []

abbrev a_text : Bytes
a_text = 9 ∷ []

abbrev a_place : ChunkPlace
a_place = record { file_id = 1 ∷ []; index = 2; offset = 3; size = 4 }

chunk_payload-injective_example :
    (a_nonce ≡ a_nonce)
    × (a_text ≡ a_text)
    × (a_place.file_id ≡ a_place.file_id)
    × (a_place.index ≡ a_place.index)
    × (a_place.offset ≡ a_place.offset)
    × (a_place.size ≡ a_place.size)
chunk_payload-injective_example =
    chunk_payload-injective a_nonce a_nonce a_text a_text a_place a_place refl (omega arith)
      (omega arith) (omega arith, omega arith, omega arith, omega arith)
      (omega arith, omega arith, omega arith, omega arith) refl

abbrev a_shape : FileShape
a_shape = record {
  file_id = 1 ∷ [];
  parent_id = 2 ∷ [];
  filename = 3 ∷ [];
  size = 4;
  chunk_tags = (5 ∷ []) ∷ [];
  trashed_at = some 0;
}

node_payload-injective_example :
    (a_shape.file_id ≡ a_shape.file_id)
    × (a_shape.parent_id ≡ a_shape.parent_id)
    × (a_shape.filename ≡ a_shape.filename)
    × (a_shape.size ≡ a_shape.size)
    × (a_shape.trashed_at ≡ a_shape.trashed_at)
    × (a_shape.chunk_tags ≡ a_shape.chunk_tags)
node_payload-injective_example =
    node_payload-injective (λ s. s) a_shape a_shape
      (
        omega arith,
        omega arith,
        omega arith,
        omega arith,
        omega arith,
        omega arith,
        (omega arith, tt),
      )
      (
        omega arith,
        omega arith,
        omega arith,
        omega arith,
        omega arith,
        omega arith,
        (omega arith, tt),
      )
      refl

abbrev a_dir_shape : DirShape
a_dir_shape = record { dir_id = 1 ∷ []; parent_id = 2 ∷ []; filename = 3 ∷ []; trashed_at = none }

payloads-apart_example :
    (chunk_payload (7 ∷ []) (9 ∷ []) a_place ≢ node_payload (λ s. s) a_shape)
    × (chunk_payload (7 ∷ []) (9 ∷ []) a_place ≢ dir_payload (λ s. s) a_dir_shape)
    × (chunk_payload (7 ∷ []) (9 ∷ []) a_place ≢ entries_payload (λ s. s) (1 ∷ []) [])
    × (node_payload (λ s. s) a_shape ≢ dir_payload (λ s. s) a_dir_shape)
    × (node_payload (λ s. s) a_shape ≢ entries_payload (λ s. s) (1 ∷ []) [])
    × (dir_payload (λ s. s) a_dir_shape ≢ entries_payload (λ s. s) (1 ∷ []) [])
payloads-apart_example =
    payloads-apart (λ s. s) (7 ∷ []) (9 ∷ []) a_place a_shape a_dir_shape (1 ∷ []) []

pub mixed_none : (stream : ℕ → ℕ) (at : ℕ) (bs : Bytes) → mixed (λ s b. b) stream at bs ≡ bs
unfolding mixed
mixed_none stream at [] = refl
mixed_none stream at (b ∷ bs) = rw (mixed_none stream (at + 1) bs)

-- A keystream that is added by doing nothing.
abbrev pub aes : Aes
aes = record {
  update = λ key block bs. bs;
  block_byte = λ key counter j. 0;
  mix = λ s b. b;
  mix_twice = λ s b. refl;
  update_eq = λ key block bs. rw (mixed_none (ctr_stream (λ key counter j. 0) key block) 0 bs);
}

-- A keystream of the counters; an odd byte of it turns the last bit.
abbrev flip : ℕ → ℕ → ℕ
flip s b = if s % 2 == 0 then b else if b % 2 == 0 then b + 1 else b - 1

flip-flip : (s b : ℕ) → flip s (flip s b) ≡ b
flip-flip s b = ground arith

abbrev flipping : Aes
flipping = record {
  update = λ key block bs. mixed flip (ctr_stream (λ key counter j. counter + j) key block) 0 bs;
  block_byte = λ key counter j. counter + j;
  mix = flip;
  mix_twice = flip-flip;
  update_eq = λ key block bs. refl;
}

transform-twice_example :
    transform flipping (1 ∷ []) (2 ∷ []) (transform flipping (1 ∷ []) (2 ∷ []) (3 ∷ 4 ∷ []) 17) 17
    ≡ 3 ∷ 4 ∷ []
transform-twice_example = transform-twice flipping (1 ∷ []) (2 ∷ []) (3 ∷ 4 ∷ []) 17

transform-drop_example :
    transform flipping (1 ∷ []) (2 ∷ []) (drop 1 (3 ∷ 4 ∷ [])) 1
    ≡ drop 1 (transform flipping (1 ∷ []) (2 ∷ []) (3 ∷ 4 ∷ []) 0)
transform-drop_example = transform-drop flipping (1 ∷ []) (2 ∷ []) (3 ∷ 4 ∷ []) 1

abbrev pub kdf : Kdf
kdf = record {
  derive = λ s pw salt. pw;
  enc_subkey = λ k. k;
  mac_subkey = λ k. k;
  mac = λ k n ct. k;
}

abbrev a_key : Bytes
a_key = replicate 32 5

abbrev a_wrapped : Wrapped
a_wrapped = record {
  kdf = discord_sftp_drive.Crypto.Wrap.named_pbkdf2_sha256;
  kdf_iterations = some 9;
  kdf_time_cost = none;
  kdf_memory_kib = none;
  kdf_parallelism = none;
  kdf_salt = some (3 ∷ []);
  nonce = some (4 ∷ []);
  ciphertext = some a_key;
  hmac = some (1 ∷ []);
}

wrap_run :
    wrap_master_key aes kdf (1 ∷ []) a_key (pbkdf2_sha256 9) (3 ∷ []) (4 ∷ []) ≡ some a_wrapped
unfolding wrap_master_key transform discord_sftp_drive.Crypto.Wrap.settings_to_record
wrap_run = refl

wrap-unwrap_example : unwrap_master_key aes kdf (1 ∷ []) a_wrapped ≡ some a_key
wrap-unwrap_example =
    wrap-unwrap aes kdf (1 ∷ []) a_key (pbkdf2_sha256 9) (3 ∷ []) (4 ∷ []) a_wrapped wrap_run
