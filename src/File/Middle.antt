-- ===== src/File/Middle.antt =====
-- One chunk of a file replaced by another in its place (src/vfs.py: `_replace_chunk`): what the
-- parts of the invariant say of the list with the new chunk.
use discord_sftp_drive.Base.{
  ℕ, suc, ◌+◌, ◌≡◌, ◌≢◌, ap, sym, Str, not, false, some, List, [], ◌∷◌, ◌++◌, arith, length,
  All-append, get_elem?, get_elem?-append, get_elem?-append_ne, filter_by, ◌==◌, Bool-cases, inl,
  inr,
}
use discord_sftp_drive.Seal.{Bytes}
use discord_sftp_drive.Model.{Chunk, Env}
use discord_sftp_drive.File.Writing.{swap_chunk}
use discord_sftp_drive.File.Cache.{put_last}
use discord_sftp_drive.File.Layout.{Laid}
use discord_sftp_drive.File.Contents.{Others, Distinct, Coherent, Opens, AllOpen}

pub Laid-middle :
    (i off : ℕ) (cpre : List Chunk) (c c' : Chunk) (cpost : List Chunk) (pre : List Bytes)
    (p p' : Bytes) (post : List Bytes)
    → Laid i off (cpre ++ c ∷ cpost) (pre ++ p ∷ post)
    → length cpre ≡ length pre
    → c'.index ≡ c.index
    → c'.offset ≡ c.offset
    → c'.size ≡ c.size
    → length p' ≡ length p
    → Laid i off (cpre ++ c' ∷ cpost) (pre ++ p' ∷ post)
Laid-middle i off [] c c' cpost [] p p' post h e ei eo es ep =
    (omega (arith, h.0), omega (arith, h.1), omega (arith, h.2), omega (arith, h.3), rw ep h.4)
Laid-middle i off [] c c' cpost (q ∷ pre) p p' post h e ei eo es ep = absurd (omega arith)
Laid-middle i off (d ∷ cpre) c c' cpost [] p p' post h e ei eo es ep = absurd (omega arith)
Laid-middle i off (d ∷ cpre) c c' cpost (q ∷ pre) p p' post h e ei eo es ep = (
  h.0,
  h.1,
  h.2,
  h.3,
  Laid-middle (suc i) (off + length q) cpre c c' cpost pre p p' post h.4 (omega arith) ei eo es ep,
)

-- The chunk with the new one's index is the one that is replaced, and no other.
pub swap-middle :
    (i off : ℕ) (cpre : List Chunk) (c new : Chunk) (cpost : List Chunk) (pre : List Bytes)
    (p : Bytes) (post : List Bytes)
    → Laid i off (cpre ++ c ∷ cpost) (pre ++ p ∷ post)
    → length cpre ≡ length pre
    → new.index ≡ c.index
    → c.index ≡ i + length pre
    → swap_chunk new (cpre ++ c ∷ cpost) ≡ cpre ++ new ∷ cpost
unfolding swap_chunk
swap-middle i off [] c new cpost pre p post h e en ei = ground arith
swap-middle i off (d ∷ cpre) c new cpost [] p post h e en ei = absurd (omega arith)
swap-middle i off (d ∷ cpre) c new cpost (q ∷ pre) p post h e en ei =
    let other : (d.index == new.index) ≡ false = ground (arith, h.0) in
    rw other (
      ap (◌∷◌ d) (
        swap-middle (suc i) (off + length q) cpre c new cpost pre p post h.4 (omega arith) en
          (omega arith)))

pub Others-at :
    (m : ℕ) (cpre : List Chunk) (c : Chunk) (cpost : List Chunk)
    → Others m (cpre ++ c ∷ cpost)
    → c.message_id ≢ m
Others-at m [] c cpost o = o.0
Others-at m (d ∷ cpre) c cpost o = Others-at m cpre c cpost o.1

Others-middle :
    (m : ℕ) (cpre : List Chunk) (c c' : Chunk) (cpost : List Chunk)
    → c'.message_id ≢ m
    → Others m (cpre ++ c ∷ cpost)
    → Others m (cpre ++ c' ∷ cpost)
Others-middle m [] c c' cpost ne o = (ne, o.1)
Others-middle m (d ∷ cpre) c c' cpost ne o = (o.0, Others-middle m cpre c c' cpost ne o.1)

pub Distinct-middle :
    (cpre : List Chunk) (c c' : Chunk) (cpost : List Chunk)
    → Distinct (cpre ++ c ∷ cpost)
    → Others c'.message_id (cpre ++ c ∷ cpost)
    → Distinct (cpre ++ c' ∷ cpost)
Distinct-middle [] c c' cpost d o = (o.1, d.1)
Distinct-middle (x ∷ cpre) c c' cpost d o = (
  Others-middle x.message_id cpre c c' cpost (λ e. o.0 (sym e)) d.0,
  Distinct-middle cpre c c' cpost d.1 o.1,
)

-- The replaced chunk's message is not used any more.
pub Others-replaced :
    (cpre : List Chunk) (c c' : Chunk) (cpost : List Chunk)
    → Distinct (cpre ++ c ∷ cpost)
    → Others c'.message_id (cpre ++ c ∷ cpost)
    → Others c.message_id (cpre ++ c' ∷ cpost)
Others-replaced [] c c' cpost d o = (λ e. o.0 (sym e), d.0)
Others-replaced (x ∷ cpre) c c' cpost d o =
    (λ e. Others-at x.message_id cpre c cpost d.0 (sym e), Others-replaced cpre c c' cpost d.1 o.1)

pub AllOpen-replace :
    {C : Type 0} (env : Env C) (ch : C) (id : Str) (cpre : List Chunk) (c c' : Chunk)
    (cpost : List Chunk) (pre : List Bytes) (p p' : Bytes) (post : List Bytes)
    → length cpre ≡ length pre
    → AllOpen env ch id (cpre ++ c ∷ cpost) (pre ++ p ∷ post)
    → Opens env ch id c' p'
    → AllOpen env ch id (cpre ++ c' ∷ cpost) (pre ++ p' ∷ post)
AllOpen-replace env ch id [] c c' cpost [] p p' post e h o = (o, h.1)
AllOpen-replace env ch id [] c c' cpost (q ∷ pre) p p' post e h o = absurd (omega arith)
AllOpen-replace env ch id (d ∷ cpre) c c' cpost [] p p' post e h o = absurd (omega arith)
AllOpen-replace env ch id (d ∷ cpre) c c' cpost (q ∷ pre) p p' post e h o =
    (h.0, AllOpen-replace env ch id cpre c c' cpost pre p p' post (omega arith) h.1 o)

Coherent-kept :
    (cache : List (ℕ × Bytes)) (pre : List Bytes) (p p' : Bytes) (post : List Bytes)
    → Coherent cache (pre ++ p ∷ post)
    → Coherent (filter_by (λ e. not (e.0 == length pre)) cache) (pre ++ p' ∷ post)
Coherent-kept [] pre p p' post h = tt
Coherent-kept (e ∷ cache) pre p p' post h = elim (Bool-cases (e.0 == length pre)) [
  | inl here ↦ rw here (Coherent-kept cache pre p p' post h.1)
  | inr there ↦
      let ne : e.0 ≢ length pre = ground arith in
      rw there
        (rw (get_elem?-append_ne pre p p' post e.0 ne) h.0, Coherent-kept cache pre p p' post h.1)
]

-- The cache with the new plaintext.
pub Coherent-put :
    (cache : List (ℕ × Bytes)) (pre : List Bytes) (p p' : Bytes) (post : List Bytes) (i : ℕ)
    → i ≡ length pre
    → Coherent cache (pre ++ p ∷ post)
    → Coherent (put_last i p' cache) (pre ++ p' ∷ post)
unfolding put_last
Coherent-put cache pre p p' post i e h = rw e (
    All-append (λ e. get_elem? (pre ++ p' ∷ post) e.0 ≡ some e.1)
      (filter_by (λ e. not (e.0 == length pre)) cache) ((length pre, p') ∷ [])
      (Coherent-kept cache pre p p' post h) (get_elem?-append pre p' post, tt))
