-- ===== src/File/Contents.antt =====
-- What an open file holds: the invariant of a `DiscordFile` (src/vfs.py) over the plaintexts of its
-- chunks, and the byte string that a client sees.
use discord_sftp_drive.Base.{
  ◌∙◌, ℕ, ◌+◌, ◌-◌, ◌≤◌, ◌≡◌, ◌≢◌, Str, true, some, List, [], ◌∷◌, ◌++◌, arith, length, concat, All,
  get_elem?, replicate, take, drop, drop-append_ge, drop-append_le, take-append_le, length-drop,
  concat-append, take-replicate, drop-replicate, length-append, length-replicate,
}
use mathlib.Core.List.{append_assoc}
use discord_sftp_drive.Seal.{Bytes}
use discord_sftp_drive.Model.{Chunk, Env}
use discord_sftp_drive.Vfs.Chunks.{place}
use discord_sftp_drive.File.Handle.{State, is_current}
use discord_sftp_drive.File.Layout.{Laid, total}

-- No two chunks share a message.
abbrev pub Others : ℕ → List Chunk → Type 0
Others m cs = All (λ c. c.message_id ≢ m) cs

abbrev pub Distinct : List Chunk → Type 0
Distinct [] = Unit
Distinct (c ∷ cs) = Others c.message_id cs × Distinct cs

-- Every plaintext in the cache is the one of its chunk.
abbrev pub Coherent : List (ℕ × Bytes) → List Bytes → Type 0
Coherent cache ps = All (λ e. get_elem? ps e.0 ≡ some e.1) cache

module _ {C : Type 0} (env : Env C) where
  -- The chunk's attachment is there, authentic in its place, and decrypts to `p`.
  abbrev pub Opens : C → Str → Chunk → Bytes → Type 0
  Opens ch id c p =
      (ct : Bytes) × (env.discord.stored c.message_id ch ≡ some ct)
      × (c.hmac ≡ env.seal.chunk_tag c.nonce ct (place id c))
      × (env.seal.transform c.nonce ct ≡ p)

  abbrev pub AllOpen : C → Str → List Chunk → List Bytes → Type 0
  AllOpen ch id [] [] = Unit
  AllOpen ch id [] (p ∷ ps) = ⊥
  AllOpen ch id (c ∷ cs) [] = ⊥
  AllOpen ch id (c ∷ cs) (p ∷ ps) = Opens ch id c p × AllOpen ch id cs ps

  -- The invariant of an open file over the plaintexts `ps` of its chunks.
  pub record Intact (s : State C) (ps : List Bytes) : Type 0 where
    pub laid : Laid 0 0 s.file.node.chunks ps
    pub opens : AllOpen s.world.channel s.file.node.id s.file.node.chunks ps
    pub distinct : Distinct s.file.node.chunks
    pub sized : total ps ≤ s.file.node.size
    pub indexed : s.file.chunks ≡ s.file.node.chunks
    pub coherent : Coherent s.file.cache ps
    pub current : is_current s.world.versions s.file.node ≡ true

  -- Nothing that is stored gets lost.
  abbrev pub Keeps : C → C → Type 0
  Keeps ch ch' =
      (j : ℕ) (x : Bytes) → env.discord.stored j ch ≡ some x → env.discord.stored j ch' ≡ some x

  pub AllOpen-Keeps :
      {ch ch' : C} (id : Str) (cs : List Chunk) (ps : List Bytes)
      → Keeps ch ch'
      → AllOpen ch id cs ps
      → AllOpen ch' id cs ps
  AllOpen-Keeps id [] [] k h = tt
  AllOpen-Keeps id [] (p ∷ ps) k h = h
  AllOpen-Keeps id (c ∷ cs) [] k h = h
  AllOpen-Keeps id (c ∷ cs) (p ∷ ps) k ((ct, st, tag, dec), rest) =
      ((ct, k c.message_id ct st, tag, dec), AllOpen-Keeps id cs ps k rest)

  -- Deleting a message that no chunk refers to changes nothing.
  pub AllOpen-delete :
      (m : ℕ) (ch : C) (id : Str) (cs : List Chunk) (ps : List Bytes)
      → Others m cs
      → AllOpen ch id cs ps
      → AllOpen (env.discord.delete m ch).1 id cs ps
  AllOpen-delete m ch id [] [] o h = tt
  AllOpen-delete m ch id [] (p ∷ ps) o h = h
  AllOpen-delete m ch id (c ∷ cs) [] o h = h
  AllOpen-delete m ch id (c ∷ cs) (p ∷ ps) (ne, o) ((ct, st, tag, dec), rest) = (
    (ct, rw (env.discord.delete_keeps m ch c.message_id ne) st, tag, dec),
    AllOpen-delete m ch id cs ps o rest,
  )

  pub AllOpen-middle :
      (ch : C) (id : Str) (cpre : List Chunk) (c : Chunk) (cpost : List Chunk) (pre : List Bytes)
      (p : Bytes) (post : List Bytes)
      → length cpre ≡ length pre
      → AllOpen ch id (cpre ++ c ∷ cpost) (pre ++ p ∷ post)
      → Opens ch id c p
  AllOpen-middle ch id [] c cpost [] p post e h = h.0
  AllOpen-middle ch id [] c cpost (q ∷ pre) p post e h = absurd (omega arith)
  AllOpen-middle ch id (d ∷ cpre) c cpost [] p post e h = absurd (omega arith)
  AllOpen-middle ch id (d ∷ cpre) c cpost (q ∷ pre) p post e h =
      AllOpen-middle ch id cpre c cpost pre p post (omega arith) h.1

  pub AllOpen-snoc :
      (ch : C) (id : Str) (cs : List Chunk) (ps : List Bytes) (c : Chunk) (p : Bytes)
      → AllOpen ch id cs ps
      → Opens ch id c p
      → AllOpen ch id (cs ++ c ∷ []) (ps ++ p ∷ [])
  AllOpen-snoc ch id [] [] c p h o = (o, tt)
  AllOpen-snoc ch id [] (q ∷ ps) c p h o = absurd h
  AllOpen-snoc ch id (d ∷ cs) [] c p h o = absurd h
  AllOpen-snoc ch id (d ∷ cs) (q ∷ ps) c p h o = (h.0, AllOpen-snoc ch id cs ps c p h.1 o)

-- What a handle was opened for, and whether it has failed.
abbrev pub SameMode : {C : Type 0} → State C → State C → Type 0
SameMode s t =
    (t.file.readable ≡ s.file.readable)
    × (t.file.writable ≡ s.file.writable)
    × (t.file.append_mode ≡ s.file.append_mode)
    × (t.file.failed ≡ s.file.failed)

pub SameMode-trans : {C : Type 0} (s t u : State C) → SameMode s t → SameMode t u → SameMode s u
SameMode-trans s t u a b = (b.0 ∙ a.0, b.1 ∙ a.1, b.2 ∙ a.2, b.3 ∙ a.3)

-- The bytes of the chunks, and zeros where the recorded size runs past them.
abbrev pub with_hole : ℕ → Bytes → Bytes
with_hole size bytes = bytes ++ replicate (size - length bytes) 0

-- What is committed; what a client sees, buffered bytes included.
unfoldable pub committed : {C : Type 0} → State C → List Bytes → Bytes
committed s ps = with_hole s.file.node.size (concat ps)

unfoldable pub contents : {C : Type 0} → State C → List Bytes → Bytes
contents s ps = with_hole s.file.node.size (concat ps ++ s.file.buffer)

-- The bytes of one piece, cut out of the whole.
pub take-piece :
    (pre : List Bytes) (p : Bytes) (post : List Bytes) (tail : Bytes) (at start count : ℕ)
    → total pre + start ≡ at
    → count + start ≤ length p
    → take count (drop at (concat (pre ++ p ∷ post) ++ tail)) ≡ take count (drop start p)
take-piece pre p post tail at start count e le =
    rw (concat-append pre (p ∷ post), append_assoc, drop-append_ge at start, append_assoc)
      (rw (drop-append_le start p (concat post ++ tail) (omega arith)) (
        take-append_le count (drop start p) (concat post ++ tail)
          (omega (arith, length-drop start p))))

-- The bytes of the hole are zeros.
pub take-hole :
    (bytes : Bytes) (size at count : ℕ)
    → length bytes ≤ at
    → at + count ≤ size
    → take count (drop at (with_hole size bytes)) ≡ replicate count 0
take-hole bytes size at count le fits =
    rw
      (
        drop-append_ge at (at - length bytes) bytes (replicate (size - length bytes) 0)
            (omega arith),
        drop-replicate {A = ℕ} (at - length bytes) (size - length bytes) (size - at) 0
            (omega arith),
      )
      (take-replicate {A = ℕ} count (size - at) 0 (omega arith))

pub length-with_hole :
    (size : ℕ) (bytes : Bytes) → length bytes ≤ size → length (with_hole size bytes) ≡ size
length-with_hole size bytes h = omega (
  arith,
  length-append bytes (replicate (size - length bytes) 0),
  length-replicate {A = ℕ} (size - length bytes) 0,
)
