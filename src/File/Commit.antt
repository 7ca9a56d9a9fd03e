-- ===== src/File/Commit.antt =====
-- Writing a file's contents and sealing a chunk (src/vfs.py: `_commit_content` and the upload in
-- front of it) where neither the store nor Discord fails.
use discord_sftp_drive.Base.{
  ℕ, ◌+◌, ◌<◌, ◌≡◌, refl, Str, str_eq_refl, true, false, Option, none, some, List, [], ◌∷◌, arith,
  length, Option-cases, inl, inr, or_else, insert, lookup-insert,
}
use discord_sftp_drive.Exec.{ok}
use discord_sftp_drive.Seal.{Bytes}
use discord_sftp_drive.Model.{Chunk, Node, Env, World, IsReliable}
use discord_sftp_drive.Store.{
  find_first, update_first, delete_first, has_id, is_taken, collides, is_live, update_one,
}
use discord_sftp_drive.Vfs.Tags.{commit_content, with_content, file_mac}
use discord_sftp_drive.Vfs.Chunks.{upload_sealed, place}
use discord_sftp_drive.File.Handle.{is_current}
use discord_sftp_drive.File.Contents.{Opens, Keeps}

-- The store answers, Discord does not fail, and a chunk holds at least one byte.
pub record Healthy {C : Type 0} (env : Env C) : Type 0 where
  pub store : (n : ℕ) → env.store_up n ≡ true
  pub reliable : IsReliable env.discord
  pub chunk_size : 0 < env.max_chunk_size

-- The document with this id, if there is one, breaks no unique index: what the store's own
-- indexes guarantee of any collection that it holds.
abbrev pub RowFits : Str → List Node → Type 0
RowFits i ns =
    (n : Node) → find_first (has_id i) ns ≡ some n → is_taken n (delete_first (has_id i) ns) ≡ false

is_taken-with_content :
    (n : Node) (mac : Bytes) (t : ℕ) (m : Node) (ns : List Node)
    → is_taken (with_content n mac t m) ns ≡ is_taken m ns
unfolding is_taken collides is_live with_content
is_taken-with_content n mac t m [] = refl
is_taken-with_content n mac t m (x ∷ ns) = rw (is_taken-with_content n mac t m ns)

-- The write changes the first match only, and leaves its keys.
find-update :
    (i : Str) (n : Node) (mac : Bytes) (t : ℕ) (ns : List Node)
    → find_first (has_id i) (update_first (has_id i) (with_content n mac t) ns)
      ≡ (elim (find_first (has_id i) ns) as (λ _. Option Node) [
        | none ↦ none
        | some m ↦ some (with_content n mac t m)
      ])
unfolding find_first update_first has_id with_content
find-update i n mac t [] = refl
find-update i n mac t (m ∷ ns) = ground (arith, find-update i n mac t ns)

delete-update :
    (i : Str) (n : Node) (mac : Bytes) (t : ℕ) (ns : List Node)
    → delete_first (has_id i) (update_first (has_id i) (with_content n mac t) ns)
      ≡ delete_first (has_id i) ns
unfolding delete_first update_first has_id with_content
delete-update i n mac t [] = refl
delete-update i n mac t (m ∷ ns) = ground (arith, delete-update i n mac t ns)

update_none :
    (i : Str) (f : Node → Node) (ns : List Node)
    → find_first (has_id i) ns ≡ none
    → update_first (has_id i) f ns ≡ ns
unfolding find_first update_first
update_none i f [] h = refl
update_none i f (m ∷ ns) h = ground (arith, update_none i f ns)

pub RowFits-update :
    (i : Str) (n : Node) (mac : Bytes) (t : ℕ) (ns : List Node)
    → RowFits i ns
    → RowFits i (update_first (has_id i) (with_content n mac t) ns)
RowFits-update i n mac t ns fits m found = elim (Option-cases (find_first (has_id i) ns)) [
  | inl absent ↦ cc (find-update i n mac t ns, absent)
  | inr (m', there) ↦
      let written : m ≡ with_content n mac t m' = ground (arith, find-update i n mac t ns) in
      rw (written, delete-update i n mac t ns, is_taken-with_content n mac t m') (fits m' there)
]

module _ {C : Type 0} (env : Env C) (healthy : Healthy env) where
  -- The world after a content write.
  abbrev pub committed_world : Node → ℕ → World C → World C
  committed_world n when w = record w {
    nodes = update_first (has_id n.id) (with_content n (file_mac env n) when) w.nodes;
    versions = insert n.id (file_mac env n) w.versions;
    calls = w.calls + 1;
  }

  update_one-Healthy :
      (n : Node) (mac : Bytes) (t : ℕ) (w : World C)
      → RowFits n.id w.nodes
      → update_one env n.id (with_content n mac t) w ≡ (
        ok tt,
        record w {
          nodes = update_first (has_id n.id) (with_content n mac t) w.nodes;
          calls = w.calls + 1;
        },
      )
  unfolding update_one
  update_one-Healthy n mac t w fits = elim (Option-cases (find_first (has_id n.id) w.nodes)) [
    | inl absent ↦ rw (
      update_one,
      healthy.store w.calls,
      absent,
      update_none n.id (with_content n mac t) w.nodes absent,
    )
    | inr (m, there) ↦
        rw (update_one, healthy.store w.calls, there, is_taken-with_content n mac t m, fits m there)
  ]

  pub commit-Healthy :
      (n : Node) (mtime : Option ℕ) (w : World C)
      → RowFits n.id w.nodes
      → commit_content env n mtime w ≡ (
        ok (record n { mac = file_mac env n; modified_at = or_else mtime (env.clock w.calls) }),
        committed_world n (or_else mtime (env.clock w.calls)) w,
      )
  unfolding commit_content
  commit-Healthy n mtime w fits =
      rw (update_one-Healthy n (file_mac env n) (or_else mtime (env.clock w.calls)) w fits)

  -- A handle that has just committed is current.
  pub is_current-committed :
      (n : Node) (mac : Bytes) (versions : List (Str × Bytes))
      → n.mac ≡ mac
      → is_current (insert n.id mac versions) n ≡ true
  unfolding is_current
  is_current-committed n mac versions e =
      rw (is_current, lookup-insert, str_eq_refl, e, str_eq_refl)

  -- What sealing and uploading a plaintext gives.
  pub record Sealed (id : Str) (index offset : ℕ) (p : Bytes) (w : World C) : Type 0 where
    pub c : Chunk
    pub channel : C
    pub result :
        upload_sealed env id index offset p w
        ≡ (ok c, record w { channel = channel; nonces = w.nonces + 1 })
    pub index_eq : c.index ≡ index
    pub offset_eq : c.offset ≡ offset
    pub size_eq : c.size ≡ length p
    pub opens : Opens env channel id c p
    pub keeps : Keeps env w.channel channel
    pub fresh : env.discord.stored c.message_id w.channel ≡ none

  pub upload-Healthy :
      (id : Str) (index offset : ℕ) (p : Bytes) (w : World C) → Sealed id index offset p w
  unfolding upload_sealed place
  upload-Healthy id index offset p w =
      let nonce = env.nonce w.nonces in
      let ct = env.seal.transform nonce p in
      elim (Option-cases (env.discord.upload ct w.channel).0) [
        | inl lost ↦ absurd (healthy.reliable.uploads ct w.channel lost)
        | inr (m, sent) ↦ record {
          c = record {
            index = index;
            message_id = m;
            nonce = nonce;
            hmac =
                env.seal.chunk_tag nonce ct
                  (record { file_id = id; index = index; offset = offset; size = length p });
            offset = offset;
            size = length p;
          };
          channel = (env.discord.upload ct w.channel).1;
          result = rw (upload_sealed, sent);
          index_eq = refl;
          offset_eq = refl;
          size_eq = refl;
          opens = (
            ct,
            env.discord.upload_stores ct w.channel m sent,
            refl,
            env.seal.transform_inv nonce p,
          );
          keeps = λ j x st. env.discord.upload_keeps ct w.channel j x st;
          fresh = env.discord.upload_fresh ct w.channel m sent;
        }
      ]
