-- ===== src/Client/Eviction.antt =====
-- The cache of URLs as a list (src/discord_api.py: `_remember_url`).
use discord_sftp_drive.Base.{
  ℕ, zero, suc, ◌-◌, ◌≤◌, ◌<◌, ◌≡◌, refl, inl, inr, Str, str_eq, str_eq_refl, none, some, [], ◌∷◌,
  ◌++◌, length, drop, length-append, length-drop, drop-append_le, arith, Bool-cases,
}
use discord_sftp_drive.Client.World.{url_cache_size, Signed, UrlCache}
use discord_sftp_drive.Client.Urls.{find_url, pop_url, put_last, evict}

pub find-popped : (id : Str) (m : UrlCache) → find_url id (pop_url id m) ≡ none
unfolding find_url pop_url
find-popped id [] = refl
find-popped id ((i, s) ∷ m) = ground (arith, find-popped id m)

find-drop : (id : Str) (n : ℕ) (m : UrlCache) → find_url id m ≡ none → find_url id (drop n m) ≡ none
unfolding find_url
find-drop id zero m h = h
find-drop id (suc n) [] h = refl
find-drop id (suc n) ((i, s) ∷ m) h = find-drop id n m (ground arith)

pub find-append_last :
    (id : Str) (s : Signed) (m : UrlCache)
    → find_url id m ≡ none
    → find_url id (m ++ (id, s) ∷ []) ≡ some s
unfolding find_url
find-append_last id s [] h = rw (str_eq_refl id)
find-append_last id s ((i, t) ∷ m) h = elim (Bool-cases (str_eq i id)) [
  | inl same ↦ absurd (ground arith)
  | inr other ↦ rw (find_url, other) (find-append_last id s m (ground arith))
]

length-pop_url : (id : Str) (m : UrlCache) → length (pop_url id m) ≤ length m
unfolding pop_url
length-pop_url id [] = omega arith
length-pop_url id ((i, s) ∷ m) = ground (arith, length-pop_url id m)

pub length-pop_found :
    (id : Str) (m : UrlCache) (s : Signed)
    → find_url id m ≡ some s
    → length (pop_url id m) < length m
unfolding pop_url find_url
length-pop_found id [] s h = cc
length-pop_found id ((i, t) ∷ m) s h = ground (arith, length-pop_url id m, length-pop_found id m s)

-- The entry that was put last survives the eviction.
pub find-evict :
    (id : Str) (s : Signed) (m : UrlCache) → find_url id (evict (put_last id s m)) ≡ some s
unfolding evict put_last
find-evict id s m =
    let rest = pop_url id m in
    let n = length (rest ++ (id, s) ∷ []) - url_cache_size in
    let within : n ≤ length rest = omega (arith, length-append rest ((id, s) ∷ [])) in
    rw (drop-append_le n rest ((id, s) ∷ []) within)
      (find-append_last id s (drop n rest) (find-drop id n rest (find-popped id m)))

pub length-evict : (m : UrlCache) → length (evict m) ≤ url_cache_size
unfolding evict
length-evict m = omega (arith, length-drop (length m - url_cache_size) m)
