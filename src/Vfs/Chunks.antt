-- ===== src/Vfs/Chunks.antt =====
-- One chunk's way to Discord and back, and the length of a file (src/vfs.py: `_covered_end`,
-- `_safe_delete_message`, `_fetch_chunk`, `_resize_node`).
use discord_sftp_drive.Base.{
  ℕ, ◌+◌, ◌-◌, Str, Bool, Option, none, some, List, [], ◌∷◌, ◌++◌, leb, ltb, if◌then◌else◌, ℤ, pos,
  negsuc, length, take,
}
use discord_sftp_drive.Exec.{
  Exec, ok, raise, pure, fail, catch, ◌>>=◌, ◌>>◌, discord_error, integrity, negative_size,
}
use discord_sftp_drive.Seal.{Bytes, ChunkPlace, tag_matches}
use discord_sftp_drive.Model.{Chunk, Node, Env, World}
use discord_sftp_drive.Vfs.Tags.{sort_by_offset, commit_content}

-- `max(chunks, key=lambda c: c["offset"])`: the first of the largest.
unfoldable pub last_chunk : Chunk → List Chunk → Chunk
last_chunk c [] = c
last_chunk c (d ∷ ds) = last_chunk (if ltb c.offset d.offset then d else c) ds

-- `_covered_end`: just past the last chunk, where real data stops.
unfoldable pub covered_end : List Chunk → ℕ
covered_end [] = 0
covered_end (c ∷ cs) = let last = last_chunk c cs in last.offset + last.size

unfoldable pub place : Str → Chunk → ChunkPlace
place file_id c = record { file_id = file_id; index = c.index; offset = c.offset; size = c.size }

-- The chunks of a file against the size that it is to get.
pub record Cut : Type 0 where
  pub keep : List Chunk
  pub drop : List Chunk
  pub straddler : Option Chunk

unfoldable pub cut_at : ℕ → List Chunk → Cut
cut_at size [] = record { keep = []; drop = []; straddler = none }
cut_at size (c ∷ cs) =
    let rest = cut_at size cs in
    if leb size c.offset
    then record rest { drop = c ∷ rest.drop }
    else if ltb size (c.offset + c.size)
    then record rest { straddler = elim rest.straddler [ none ↦ some c | some d ↦ some d ] }
    else record rest { keep = c ∷ rest.keep }

abbrev pub to_list : Option Chunk → List Chunk
to_list none = []
to_list (some c) = c ∷ []

module _ {C : Type 0} (env : Env C) where
  abbrev pub generate_nonce : Exec (World C) Bytes
  generate_nonce w = (ok (env.nonce w.nonces), record w { nonces = w.nonces + 1 })

  -- Encrypt under a fresh nonce, tag, upload: the chunk to record. `_upload_chunk`,
  -- `_replace_chunk` and `_resize_node` each write these lines out.
  unfoldable pub upload_sealed : Str → ℕ → ℕ → Bytes → Exec (World C) Chunk
  upload_sealed file_id index offset plaintext = do
    nonce ← generate_nonce
    let ciphertext = env.seal.transform nonce plaintext
    let tag =
        env.seal.chunk_tag nonce ciphertext
          (record { file_id = file_id; index = index; offset = offset; size = length plaintext })
    λ w.
        let (answer, channel) = env.discord.upload ciphertext w.channel in
        elim answer [
          | none ↦ (raise discord_error, record w { channel = channel })
          | some m ↦ (
            ok (record {
              index = index;
              message_id = m;
              nonce = nonce;
              hmac = tag;
              offset = offset;
              size = length plaintext;
            }),
            record w { channel = channel },
          )
        ]

  -- `_safe_delete_message`: whether the attachment went away; never raises.
  unfoldable pub safe_delete_message : ℕ → Exec (World C) Bool
  safe_delete_message m w =
      let (gone, channel) = env.discord.delete m w.channel in
      (ok gone, record w { channel = channel })

  unfoldable pub delete_messages : List Chunk → Exec (World C) (Unit {0})
  delete_messages [] = pure tt
  delete_messages (c ∷ cs) = do safe_delete_message c.message_id; delete_messages cs

  -- `_fetch_chunk`: authenticated before it is decrypted.
  unfoldable pub fetch_chunk : Str → Chunk → Exec (World C) Bytes
  fetch_chunk file_id c w =
      let (answer, channel) = env.discord.download c.message_id w.channel in
      let w' = record w { channel = channel } in
      elim answer [
        | none ↦ (raise discord_error, w')
        | some ciphertext ↦
            if tag_matches c.hmac (env.seal.chunk_tag c.nonce ciphertext (place file_id c))
            then (ok (env.seal.transform c.nonce ciphertext), w')
            else (raise integrity, w')
      ]

  -- The chunk that the new end falls inside, shortened under a fresh nonce.
  unfoldable pub trim_straddler : Str → ℕ → Option Chunk → Exec (World C) (Option Chunk)
  trim_straddler file_id size none = pure none
  trim_straddler file_id size (some c) = do
    plaintext ← fetch_chunk file_id c
    replacement ← upload_sealed file_id c.index c.offset (take (size - c.offset) plaintext)
    pure (some replacement)

  abbrev pub delete_if : Option Chunk → Exec (World C) (Unit {0})
  delete_if none = pure tt
  delete_if (some c) = do safe_delete_message c.message_id; pure tt

  -- `_resize_node`. Nothing is deleted before the metadata write has landed; if that write fails,
  -- the node stays as it was and the replacement goes.
  unfoldable pub resize_node : Node → ℤ → Exec (World C) Node
  resize_node n (negsuc _) = fail negative_size
  resize_node n (pos size) = do
    let parts = cut_at size (sort_by_offset n.chunks)
    replacement ← trim_straddler n.id size parts.straddler
    n' ←
        catch
          (commit_content env (record n { chunks = parts.keep ++ to_list replacement; size = size })
            none)
          (λ e. do delete_if replacement; fail e)
    delete_messages parts.drop
    delete_if parts.straddler
    pure n'
