-- ===== src/Tests/Setting.antt =====
-- A channel that never fails, a toy seal, and a process that runs with them.
use discord_sftp_drive.Base.{
  ℕ, zero, suc, ◌+◌, ◌≡◌, ◌≢◌, refl, ap, Option, none, some, List, [], ◌∷◌, ◌++◌, length, arith,
  true,
}
use discord_sftp_drive.Seal.{Bytes, Seal}
use discord_sftp_drive.Model.{Discord, IsReliable, Env}
use discord_sftp_drive.File.Commit.{Healthy}

-- The messages in the order of posting; a deleted one is empty.
abbrev pub Channel : Type 0
Channel = List (Option Bytes)

abbrev pub message_at : ℕ → Channel → Option Bytes
message_at i [] = none
message_at zero (m ∷ ms) = m
message_at (suc i) (m ∷ ms) = message_at i ms

abbrev pub erase : ℕ → Channel → Channel
erase i [] = []
erase zero (m ∷ ms) = none ∷ ms
erase (suc i) (m ∷ ms) = m ∷ erase i ms

pub message_at-fresh : (c : Channel) → message_at (length c) c ≡ none
message_at-fresh [] = refl
message_at-fresh (m ∷ c) = message_at-fresh c

pub message_at-posted :
    (b : Bytes) (c : Channel) → message_at (length c) (c ++ some b ∷ []) ≡ some b
message_at-posted b [] = refl
message_at-posted b (m ∷ c) = message_at-posted b c

pub message_at-kept :
    (b : Bytes) (c : Channel) (j : ℕ) (x : Bytes)
    → message_at j c ≡ some x
    → message_at j (c ++ some b ∷ []) ≡ some x
message_at-kept b [] j x h = cc
message_at-kept b (m ∷ c) zero x h = h
message_at-kept b (m ∷ c) (suc j) x h = message_at-kept b c j x h

pub message_at-erase :
    (m : ℕ) (c : Channel) (j : ℕ) → j ≢ m → message_at j (erase m c) ≡ message_at j c
message_at-erase m [] j ne = refl
message_at-erase zero (x ∷ c) zero ne = absurd (ne refl)
message_at-erase zero (x ∷ c) (suc j) ne = refl
message_at-erase (suc m) (x ∷ c) zero ne = refl
message_at-erase (suc m) (x ∷ c) (suc j) ne = message_at-erase m c j (λ e. ne (ap suc e))

abbrev pub channel : Discord Channel
channel = record {
  upload = λ b c. (some (length c), c ++ some b ∷ []);
  download = λ m c. (message_at m c, c);
  delete = λ m c. (true, erase m c);
  stored = message_at;
  upload_fresh = λ b c m e. let same : length c ≡ m = cc in rw (← same) (message_at-fresh c);
  upload_stores = λ b c m e. let same : length c ≡ m = cc in rw (← same) (message_at-posted b c);
  upload_keeps = message_at-kept;
  download_sound = λ m c b e. e;
  download_keeps = λ m c j. refl;
  delete_keeps = message_at-erase;
}

pub channel-IsReliable : IsReliable channel
channel-IsReliable = record { uploads = λ b c e. cc; downloads = λ m c b e. e }

abbrev pub seal : Seal
seal = record {
  transform = λ n p. p;
  chunk_tag = λ n ct p. 1 ∷ (n ++ ct);
  node_tag = λ s. 2 ∷ (s.file_id ++ s.filename);
  dir_tag = λ s. 3 ∷ (s.dir_id ++ s.filename);
  dir_entries_tag = λ i es. 4 ∷ length es ∷ i;
  transform_inv = λ n p. refl;
  length-transform = λ n p. refl;
  chunk_tag-ne-nil = λ n ct p e. cc;
  node_tag-ne-nil = λ s e. cc;
  dir_tag-ne-nil = λ s e. cc;
  dir_entries_tag-ne-nil = λ i es e. cc;
}

-- Chunks of three bytes, two of them kept.
abbrev pub env : Env Channel
env = record {
  seal = seal;
  discord = channel;
  store_up = λ n. true;
  clock = λ n. 100 + n;
  nonce = λ n. n ∷ [];
  lower = λ s. s;
  casefold = λ s. s;
  strip = λ s. s;
  max_chunk_size = 3;
  chunk_cache_size = 2;
}

abbrev pub env-Healthy : Healthy env
env-Healthy = record { store = λ n. refl; reliable = channel-IsReliable; chunk_size = omega arith }
