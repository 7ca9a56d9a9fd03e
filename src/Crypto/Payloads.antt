-- ===== src/Crypto/Payloads.antt =====
-- The bytes under each tag (src/crypto.py: `chunk_tag`, `node_tag`, `dir_tag`, `dir_entries_tag`):
-- and what they determine. NFC normalisation is a parameter.
use discord_sftp_drive.Base.{
  or_else, get_elem?, ℕ, suc, ◌<◌, ◌≡◌, ◌≢◌, refl, ap, sym, ◌∙◌, Str, str_le, str_eq, Bool, ◌&&◌,
  ◌||◌, not, Option, none, some, List, [], ◌∷◌, ◌++◌, arith, length, All, map, if◌then◌else◌,
}
use discord_sftp_drive.Seal.{Bytes, ChunkPlace, FileShape, DirShape}
use discord_sftp_drive.Crypto.Codec.{
  be, length_prefixed, all_prefixed, limit, length-be, append-split, be8-split,
  length_prefixed-split,
}

abbrev chunk_label : Bytes
chunk_label = b'c' ∷ b'h' ∷ b'u' ∷ b'n' ∷ b'k' ∷ []

abbrev node_label : Bytes
node_label = b'n' ∷ b'o' ∷ b'd' ∷ b'e' ∷ b'3' ∷ []

abbrev dir_label : Bytes
dir_label = b'd' ∷ b'i' ∷ b'r' ∷ b'2' ∷ []

abbrev entries_label : Bytes
entries_label = b'd' ∷ b'i' ∷ b'r' ∷ b'e' ∷ b'n' ∷ b't' ∷ b's' ∷ []

-- `chunk_tag`
unfoldable pub chunk_payload : Bytes → Bytes → ChunkPlace → Bytes
chunk_payload nonce ciphertext p =
    chunk_label
    ++ (length_prefixed p.file_id
        ++ (be 8 p.index
            ++ (be 8 p.offset ++ (be 8 p.size ++ (nonce ++ (length_prefixed ciphertext ++ []))))))

-- `_trash_marker`
unfoldable pub trash_marker : Option ℕ → Bytes
trash_marker none = 0 ∷ be 8 0
trash_marker (some time) = 1 ∷ be 8 time

-- `sorted` of the entries, by id and then by name.
unfoldable pub entry_le : Str × Str → Str × Str → Bool
entry_le (i, f) (j, g) = (str_le i j && not (str_eq i j)) || (str_eq i j && str_le f g)

unfoldable pub insert_entry : Str × Str → List (Str × Str) → List (Str × Str)
insert_entry e [] = e ∷ []
insert_entry e (d ∷ ds) = if entry_le e d then e ∷ d ∷ ds else d ∷ insert_entry e ds

unfoldable pub sort_entries : List (Str × Str) → List (Str × Str)
sort_entries [] = []
sort_entries (e ∷ es) = insert_entry e (sort_entries es)

unfoldable pub entries_bytes : List (Str × Str) → Bytes
entries_bytes [] = []
entries_bytes ((i, f) ∷ es) = length_prefixed i ++ (length_prefixed f ++ entries_bytes es)

module _ (nfc : Str → Str) where
  -- `node_tag`
  unfoldable pub node_payload : FileShape → Bytes
  node_payload s =
      node_label
      ++ (length_prefixed s.file_id
          ++ (length_prefixed s.parent_id
              ++ (length_prefixed (nfc s.filename)
                  ++ (be 8 s.size
                      ++ (trash_marker s.trashed_at
                          ++ (be 8 (length s.chunk_tags) ++ all_prefixed s.chunk_tags))))))

  -- `dir_tag`
  unfoldable pub dir_payload : DirShape → Bytes
  dir_payload s =
      dir_label
      ++ (length_prefixed s.dir_id
          ++ (length_prefixed s.parent_id
              ++ (length_prefixed (nfc s.filename) ++ trash_marker s.trashed_at)))

  -- `dir_entries_tag`
  unfoldable pub entries_payload : Str → List (Str × Str) → Bytes
  entries_payload dir_id entries =
      let items = sort_entries (map (λ e. (e.0, nfc e.1)) entries) in
      entries_label ++ (length_prefixed dir_id ++ (be 8 (length items) ++ entries_bytes items))

-- What `int.to_bytes(8, "big")` takes.
abbrev pub PlaceFits : ChunkPlace → Type 0
PlaceFits p = (length p.file_id < limit) × (p.index < limit) × (p.offset < limit) × (p.size < limit)

-- A chunk's tag covers its bytes, its nonce and its place: with nonces of one length, and with
-- lengths, indices and offsets that fit into eight bytes, equal bytes under the tag come from one
-- nonce, one ciphertext and one place.
pub chunk_payload-injective :
    (n m ct dt : Bytes) (p q : ChunkPlace)
    → length n ≡ length m
    → length ct < limit
    → length dt < limit
    → PlaceFits p
    → PlaceFits q
    → chunk_payload n ct p ≡ chunk_payload m dt q
    → (n ≡ m)
      × (ct ≡ dt)
      × (p.file_id ≡ q.file_id)
      × (p.index ≡ q.index)
      × (p.offset ≡ q.offset)
      × (p.size ≡ q.size)
unfolding chunk_payload
chunk_payload-injective n m ct dt p q same_length hc hd hp hq h =
    let (_, h1) = append-split chunk_label chunk_label _ _ refl h in
    let (id_eq, h2) = length_prefixed-split p.file_id q.file_id _ _ hp.0 hq.0 h1 in
    let (index_eq, h3) = be8-split p.index q.index _ _ hp.1 hq.1 h2 in
    let (offset_eq, h4) = be8-split p.offset q.offset _ _ hp.2 hq.2 h3 in
    let (size_eq, h5) = be8-split p.size q.size _ _ hp.3 hq.3 h4 in
    let (nonce_eq, h6) = append-split n m _ _ same_length h5 in
    let (ct_eq, h7) = length_prefixed-split ct dt _ _ hc hd h6 in
    (nonce_eq, ct_eq, id_eq, index_eq, offset_eq, size_eq)

length-trash_marker : (a : Option ℕ) → length (trash_marker a) ≡ 9
unfolding trash_marker
length-trash_marker none = ap suc (length-be 8 0)
length-trash_marker (some t) = ap suc (length-be 8 t)

abbrev pub TimeFits : Option ℕ → Type 0
TimeFits none = Unit
TimeFits (some t) = t < limit

-- The epoch is not "not trashed".
trash_marker-injective :
    (a b : Option ℕ) → TimeFits a → TimeFits b → trash_marker a ≡ trash_marker b → a ≡ b
unfolding trash_marker
trash_marker-injective none none ha hb h = refl
trash_marker-injective none (some t) ha hb h = cc
trash_marker-injective (some t) none ha hb h = cc
trash_marker-injective (some t) (some u) ha hb h =
    let rest : be 8 t ≡ be 8 u = cc in
    let (e, _) = be8-split t u [] [] ha hb (ap (λ x. x ++ []) rest) in ap some e

all_prefixed-injective :
    (ts us : List Bytes)
    → length ts ≡ length us
    → All (λ t. length t < limit) ts
    → All (λ t. length t < limit) us
    → all_prefixed ts ≡ all_prefixed us
    → ts ≡ us
unfolding all_prefixed
all_prefixed-injective [] [] e ht hu h = refl
all_prefixed-injective [] (u ∷ us) e ht hu h = absurd (omega arith)
all_prefixed-injective (t ∷ ts) [] e ht hu h = absurd (omega arith)
all_prefixed-injective (t ∷ ts) (u ∷ us) e ht hu h =
    let (p, q) = length_prefixed-split t u _ _ ht.0 hu.0 h in
    let rest = all_prefixed-injective ts us (omega arith) ht.1 hu.1 q in rw (p, rest)

abbrev pub ShapeFits : (Str → Str) → FileShape → Type 0
ShapeFits nfc s =
    (length s.file_id < limit)
    × (length s.parent_id < limit)
    × (length (nfc s.filename) < limit)
    × (s.size < limit)
    × TimeFits s.trashed_at
    × (length s.chunk_tags < limit)
    × All (λ t. length t < limit) s.chunk_tags

abbrev pub DirFits : (Str → Str) → DirShape → Type 0
DirFits nfc s =
    (length s.dir_id < limit)
    × (length s.parent_id < limit)
    × (length (nfc s.filename) < limit)
    × TimeFits s.trashed_at

-- A file's tag covers it whole: where all numbers fit into eight bytes, equal bytes under the tag
-- come from one identity, place, normalised name, length and trash state, and from the same list of
-- chunk tags, so that no chunk can go missing.
pub node_payload-injective :
    (nfc : Str → Str) (s t : FileShape)
    → ShapeFits nfc s
    → ShapeFits nfc t
    → node_payload nfc s ≡ node_payload nfc t
    → (s.file_id ≡ t.file_id)
      × (s.parent_id ≡ t.parent_id)
      × (nfc s.filename ≡ nfc t.filename)
      × (s.size ≡ t.size)
      × (s.trashed_at ≡ t.trashed_at)
      × (s.chunk_tags ≡ t.chunk_tags)
unfolding node_payload
node_payload-injective nfc s t hs ht h =
    let (_, h1) = append-split node_label node_label _ _ refl h in
    let (id_eq, h2) = length_prefixed-split s.file_id t.file_id _ _ hs.0 ht.0 h1 in
    let (parent_eq, h3) = length_prefixed-split s.parent_id t.parent_id _ _ hs.1 ht.1 h2 in
    let (name_eq, h4) = length_prefixed-split (nfc s.filename) (nfc t.filename) _ _ hs.2 ht.2 h3 in
    let (size_eq, h5) = be8-split s.size t.size _ _ hs.3 ht.3 h4 in
    let (marker_eq, h6) =
      append-split (trash_marker s.trashed_at) (trash_marker t.trashed_at) _ _
        (length-trash_marker s.trashed_at ∙ sym (length-trash_marker t.trashed_at)) h5 in
    let (count_eq, h7) = be8-split (length s.chunk_tags) (length t.chunk_tags) _ _ hs.5 ht.5 h6 in
    (
      id_eq,
      parent_eq,
      name_eq,
      size_eq,
      trash_marker-injective s.trashed_at t.trashed_at hs.4 ht.4 marker_eq,
      all_prefixed-injective s.chunk_tags t.chunk_tags count_eq hs.6 ht.6 h7,
    )

-- Where all numbers fit into eight bytes, equal bytes under two directories' tags come from one
-- identity, place, normalised name and trash state.
dir_payload-injective :
    (nfc : Str → Str) (s t : DirShape)
    → DirFits nfc s
    → DirFits nfc t
    → dir_payload nfc s ≡ dir_payload nfc t
    → (s.dir_id ≡ t.dir_id)
      × (s.parent_id ≡ t.parent_id)
      × (nfc s.filename ≡ nfc t.filename)
      × (s.trashed_at ≡ t.trashed_at)
unfolding dir_payload
dir_payload-injective nfc s t hs ht h =
    let (_, h1) = append-split dir_label dir_label _ _ refl h in
    let (id_eq, h2) = length_prefixed-split s.dir_id t.dir_id _ _ hs.0 ht.0 h1 in
    let (parent_eq, h3) = length_prefixed-split s.parent_id t.parent_id _ _ hs.1 ht.1 h2 in
    let (name_eq, h4) = length_prefixed-split (nfc s.filename) (nfc t.filename) _ _ hs.2 ht.2 h3 in
    (id_eq, parent_eq, name_eq, trash_marker-injective s.trashed_at t.trashed_at hs.3 ht.3 h4)

abbrev byte_at : ℕ → Bytes → ℕ
byte_at i b = or_else (get_elem? b i) 0

-- The bytes under the tags of a chunk, of a file, of a directory and of a directory's entries are
-- never the same for two different kinds.
pub payloads-apart :
    (nfc : Str → Str) (n ct : Bytes) (p : ChunkPlace) (s : FileShape) (d : DirShape) (i : Str)
    (es : List (Str × Str))
    → (chunk_payload n ct p ≢ node_payload nfc s)
      × (chunk_payload n ct p ≢ dir_payload nfc d)
      × (chunk_payload n ct p ≢ entries_payload nfc i es)
      × (node_payload nfc s ≢ dir_payload nfc d)
      × (node_payload nfc s ≢ entries_payload nfc i es)
      × (dir_payload nfc d ≢ entries_payload nfc i es)
unfolding chunk_payload node_payload dir_payload entries_payload
payloads-apart nfc n ct p s d i es = (
  (λ h. let e : 99 ≡ 110 = ap (byte_at 0) h in omega arith),
  (λ h. let e : 99 ≡ 100 = ap (byte_at 0) h in omega arith),
  (λ h. let e : 99 ≡ 100 = ap (byte_at 0) h in omega arith),
  (λ h. let e : 110 ≡ 100 = ap (byte_at 0) h in omega arith),
  (λ h. let e : 110 ≡ 100 = ap (byte_at 0) h in omega arith),
  (λ h. let e : 50 ≡ 101 = ap (byte_at 3) h in omega arith),
)
