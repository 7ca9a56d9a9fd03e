-- ===== src/File/Fetch.antt =====
-- `_chunk_bytes` (src/vfs.py) on an intact file.
use discord_sftp_drive.Base.{
  ℕ, ◌≡◌, Str, Bool, not, none, some, List, [], ◌∷◌, arith, length, All, All-append, get_elem?,
  get_elem?-append, filter_by, ◌==◌, leb, Bool-cases, Option-cases, inl, inr, str_eq_refl,
}
use mathlib.Core.Path.{subst₂}
use discord_sftp_drive.Exec.{ok}
use discord_sftp_drive.Seal.{Bytes, tag_matches}
use discord_sftp_drive.Model.{Chunk, Env, World, IsReliable}
use discord_sftp_drive.Vfs.Chunks.{fetch_chunk}
use discord_sftp_drive.File.Handle.{State}
use discord_sftp_drive.File.Cache.{chunk_bytes, cached, put_last, evict}
use discord_sftp_drive.File.Layout.{Located}
use discord_sftp_drive.File.Contents.{
  Opens, AllOpen, Intact, Coherent, Keeps, AllOpen-Keeps, AllOpen-middle,
}

All-filter {ℓ κ} :
    {A : Type ℓ} (P : A → Type κ) (q : A → Bool) (xs : List A) → All P xs → All P (filter_by q xs)
All-filter P q [] h = h
All-filter P q (x ∷ xs) h = elim (Bool-cases (q x)) [
  | inl e ↦ rw e (h.0, All-filter P q xs h.1)
  | inr e ↦ rw e (All-filter P q xs h.1)
]

All-put_last :
    (P : ℕ × Bytes → Type 0) (i : ℕ) (b : Bytes) (cache : List (ℕ × Bytes))
    → P (i, b)
    → All P cache
    → All P (put_last i b cache)
unfolding put_last
All-put_last P i b cache p h =
    All-append P (filter_by (λ e. not (e.0 == i)) cache) ((i, b) ∷ [])
      (All-filter P (λ e. not (e.0 == i)) cache h) (p, tt)

All-evict :
    (P : ℕ × Bytes → Type 0) (limit : ℕ) (cache : List (ℕ × Bytes))
    → All P cache
    → All P (evict limit cache)
unfolding evict
All-evict P limit [] h = h
All-evict P limit (e ∷ cache) h = elim (Bool-cases (leb (length (e ∷ cache)) limit)) [
  | inl fits ↦ rw fits h
  | inr over ↦ rw over (All-evict P limit cache h.1)
]

cached-All :
    (P : ℕ × Bytes → Type 0) (i : ℕ) (cache : List (ℕ × Bytes)) (b : Bytes)
    → All P cache
    → cached i cache ≡ some b
    → P (i, b)
unfolding cached
cached-All P i [] b h e = cc
cached-All P i ((j, b') ∷ cache) b h e = elim (Bool-cases (j == i)) [
  | inl here ↦
      let same_key : j ≡ i = ground arith in
      let same_value : b' ≡ b = ground arith in rw (← same_key, ← same_value) h.0
  | inr there ↦ cached-All P i cache b h.1 (ground arith)
]

module _ {C : Type 0} (env : Env C) (reliable : IsReliable env.discord) where
  -- An authentic chunk is downloaded, verified and decrypted.
  pub fetch-Opens :
      (id : Str) (c : Chunk) (p : Bytes) (w : World C)
      → Opens env w.channel id c p
      → fetch_chunk env id c w
        ≡ (ok p, record w { channel = (env.discord.download c.message_id w.channel).1 })
  unfolding fetch_chunk tag_matches
  fetch-Opens id c p w (ct, st, tag, dec) =
      ground (arith, reliable.downloads c.message_id w.channel ct, str_eq_refl c.hmac)

  -- What reading may change: the cache and the channel.
  abbrev pub after_read : State C → C → List (ℕ × Bytes) → State C
  after_read s channel cache = record {
    world = record s.world { channel = channel };
    file = record s.file { cache = cache };
  }

  pub Intact-after_read :
      (s : State C) (ps : List Bytes) (channel : C) (cache : List (ℕ × Bytes))
      → Intact env s ps
      → Keeps env s.world.channel channel
      → Coherent cache ps
      → Intact env (after_read s channel cache) ps
  Intact-after_read s ps channel cache h keeps coherent = record {
    laid = h.laid;
    opens = AllOpen-Keeps env s.file.node.id s.file.node.chunks ps keeps h.opens;
    distinct = h.distinct;
    sized = h.sized;
    indexed = h.indexed;
    coherent = coherent;
    current = h.current;
  }

  pub record Fetched (s : State C) (ps : List Bytes) (c : Chunk) (p : Bytes) : Type 0 where
    pub channel : C
    pub cache : List (ℕ × Bytes)
    pub result : chunk_bytes env c s ≡ (ok p, after_read s channel cache)
    pub intact : Intact env (after_read s channel cache) ps

  Located-Opens :
      (s : State C) (ps : List Bytes) {at : ℕ}
      → Intact env s ps
      → (l : Located 0 0 s.file.node.chunks ps at)
      → Opens env s.world.channel s.file.node.id l.c l.p
  Located-Opens s ps h l =
      AllOpen-middle env s.world.channel s.file.node.id l.cpre l.c l.cpost l.pre l.p l.post
        l.same_length
        (subst₂ (AllOpen env s.world.channel s.file.node.id) l.chunks_eq l.pieces_eq h.opens)

  Located-piece :
      {cs : List Chunk} {ps : List Bytes} {at : ℕ} (l : Located 0 0 cs ps at)
      → get_elem? ps l.c.index ≡ some l.p
  Located-piece l =
      let e : l.c.index ≡ length l.pre = omega (arith, l.index_eq) in
      rw (l.pieces_eq, e) (get_elem?-append l.pre l.p l.post)

  chunk_bytes-hit :
      (s : State C) (ps : List Bytes) {at : ℕ} (b : Bytes)
      → Intact env s ps
      → (l : Located 0 0 s.file.node.chunks ps at) → cached l.c.index s.file.cache ≡ some b
      → Fetched s ps l.c l.p
  unfolding chunk_bytes
  chunk_bytes-hit s ps b h l hit =
      let piece =
        cached-All (λ e. get_elem? ps e.0 ≡ some e.1) l.c.index s.file.cache b h.coherent hit in
      let same : b ≡ l.p = cc (piece, Located-piece l) in
      record {
        channel = s.world.channel;
        cache = put_last l.c.index l.p s.file.cache;
        result = rw (chunk_bytes, hit, same);
        intact =
            Intact-after_read s ps s.world.channel (put_last l.c.index l.p s.file.cache) h
              (λ j x st. st)
              (All-put_last (λ e. get_elem? ps e.0 ≡ some e.1) l.c.index l.p s.file.cache
                (Located-piece l) h.coherent);
      }

  chunk_bytes-miss :
      (s : State C) (ps : List Bytes) {at : ℕ}
      → Intact env s ps
      → (l : Located 0 0 s.file.node.chunks ps at) → cached l.c.index s.file.cache ≡ none
      → Fetched s ps l.c l.p
  unfolding chunk_bytes
  chunk_bytes-miss s ps h l miss =
      let ch = (env.discord.download l.c.message_id s.world.channel).1 in
      let cache' = put_last l.c.index l.p s.file.cache in
      record {
        channel = ch;
        cache = evict env.chunk_cache_size cache';
        result = rw (
          chunk_bytes,
          miss,
          fetch-Opens s.file.node.id l.c l.p s.world (Located-Opens s ps h l),
        );
        intact =
            Intact-after_read s ps ch (evict env.chunk_cache_size cache') h
              (λ j x st. rw (env.discord.download_keeps l.c.message_id s.world.channel j) st)
              (All-evict (λ e. get_elem? ps e.0 ≡ some e.1) env.chunk_cache_size cache'
                (All-put_last (λ e. get_elem? ps e.0 ≡ some e.1) l.c.index l.p s.file.cache
                  (Located-piece l) h.coherent));
      }

  pub chunk_bytes-Intact :
      (s : State C) (ps : List Bytes) {at : ℕ}
      → Intact env s ps
      → (l : Located 0 0 s.file.node.chunks ps at) → Fetched s ps l.c l.p
  chunk_bytes-Intact s ps h l = elim (Option-cases (cached l.c.index s.file.cache)) [
    | inl miss ↦ chunk_bytes-miss s ps h l miss
    | inr (b, hit) ↦ chunk_bytes-hit s ps b h l hit
  ]
