-- ===== src/Client/Cached.antt =====
-- The cache of attachment URLs (src/discord_api.py: `_remember_url`, `get_attachment_url`,
-- `upload_chunk`): bounded, and never served close to an expiry.
use discord_sftp_drive.Base.{
  ℕ, ◌≤◌, ◌<◌, ◌≡◌, refl, sym, ap, ◌∙◌, ◌⊎◌, inl, inr, Str, Bool, true, false, none, some, List, [],
  ◌∷◌, ◌++◌, ◌==◌, ==_iff, length, length-append, arith, Bool-cases, Option-cases,
}
use discord_sftp_drive.Seal.{Bytes}
use discord_sftp_drive.Rate.{route_key}
use discord_sftp_drive.Client.Request.{Failure, crash}
use discord_sftp_drive.Client.Attempts.{request-Concluded}
use discord_sftp_drive.Client.World.{
  url_cache_size, UrlCache, Attachment, Signed, Host, Client, Outcome, value, failed, ◌>>=◌,
}
use discord_sftp_drive.Client.Urls.{
  find_url, pop_url, put_last, first_attachment, url_expiry, remember_url, ask, target_channel,
  message_path, is_fresh, remember_first, resolve_url, get_attachment_url, get, post, channels_path,
  messages_path, dm_path, open_dm, safe_delete, keep_whole, upload_chunk,
}
use discord_sftp_drive.Client.Eviction.{
  find-popped, find-append_last, find-evict, length-evict, length-pop_found,
}

Outcome-cases :
    {A : Type 0} (r : Outcome A) → ((a : A) × (r ≡ value a)) ⊎ ((f : Failure) × (r ≡ failed f))
Outcome-cases (value a) = inl (a, refl)
Outcome-cases (failed f) = inr (f, refl)

module _ (host : Host) where
  ask-more :
      (method endpoint : Str) (c : Client)
      → (c.wire.attempts < (ask host method endpoint c).1.wire.attempts)
        × ((ask host method endpoint c).1.urls ≡ c.urls)
  unfolding ask
  ask-more method endpoint c =
      let (k, lt, at, naps, waits, before, end, e) =
        request-Concluded host.jitter host.clock host.net (route_key host.is_digit method endpoint)
          c.wire in
      (omega arith, refl)

  -- What a call leaves of the cache and of the count of attempts, as far as it made any.
  abbrev Kept : Client → Client → Type 0
  Kept c c' = (c.wire.attempts ≤ c'.wire.attempts) × (c'.urls ≡ c.urls)

  open_dm-Kept : (c : Client) → Kept c (open_dm host c).1
  unfolding open_dm
  open_dm-Kept c =
      let (more, same) = ask-more post dm_path c in
      elim (Outcome-cases (ask host post dm_path c).0) [
        | inr (f, bad) ↦ rw (open_dm, bad) (omega arith, same)
        | inl (none, empty) ↦ rw (open_dm, empty) (omega arith, same)
        | inl (some body, told) ↦ rw (open_dm, told) (omega arith, same)
      ]

  target-Kept : (c : Client) → Kept c (target_channel host c).1
  unfolding target_channel
  target-Kept c = elim (Option-cases c.dm_channel) [
    | inr (id, open') ↦ rw (target_channel, open') (omega arith, refl)
    | inl closed ↦ elim (Option-cases host.user_id) [
      | inl nobody ↦ rw (target_channel, closed, nobody) (omega arith, refl)
      | inr (user, set) ↦ rw (target_channel, closed, set) (open_dm-Kept c)
    ]
  ]

  -- The URL came from Discord just now, and the bounded cache remembers it with what it says of its
  -- expiry.
  abbrev pub Resolved : Str → Client → Str → Client → Type 0
  Resolved id c url c' =
      (c.wire.attempts < c'.wire.attempts)
      × (find_url id c'.urls ≡ some (record { url = url; expiry = url_expiry host url }))
      × (length c'.urls ≤ url_cache_size)

  -- The end of a resolution, and of an upload.
  abbrev Remembers : Str → Str → Client → Type 0
  Remembers id url c' =
      (find_url id c'.urls ≡ some (record { url = url; expiry = url_expiry host url }))
      × (length c'.urls ≤ url_cache_size)

  remember_url-Remembers :
      (id url : Str) (c : Client) → Remembers id url (remember_url host id url c).1
  unfolding remember_url
  remember_url-Remembers id url c =
      let s : Signed = record { url = url; expiry = url_expiry host url } in
      (find-evict id s c.urls, length-evict (put_last id s c.urls))

  remember_first-Remembers :
      (id : Str) (attachments : List Attachment) (c : Client) (url : Str)
      → (remember_first host id attachments c).0 ≡ value url
      → Remembers id url (remember_first host id attachments c).1
        × ((remember_first host id attachments c).1.wire ≡ c.wire)
  unfolding remember_first remember_url
  remember_first-Remembers id [] c url h = cc
  remember_first-Remembers id (a ∷ rest) c url h =
      let same : a.url ≡ url = ground arith in rw (← same) (remember_url-Remembers id a.url c, refl)

  resolve-Resolved :
      (id : Str) (c : Client) (url : Str)
      → (resolve_url host id c).0 ≡ value url
      → Resolved id c url (resolve_url host id c).1
  unfolding resolve_url remember_url
  resolve-Resolved id c url h =
      let c1 = (target_channel host c).1 in
      let (later, same) = target-Kept c in
      elim (Outcome-cases (target_channel host c).0) [
        | inr (f, bad) ↦ absurd (ground arith)
        | inl (channel, found) ↦
            let path = message_path channel id in
            let (more, kept) = ask-more get path c1 in
            elim (Outcome-cases (ask host get path c1).0) [
              | inr (f, bad) ↦ absurd (ground arith)
              | inl (none, empty) ↦ absurd (ground arith)
              | inl (some body, told) ↦
                  let c2 = (ask host get path c1).1 in
                  let e : resolve_url host id c ≡ remember_first host id body.attachments c2 =
                    rw (resolve_url, found, told) in
                  let ((there, small), wire) =
                    remember_first-Remembers id body.attachments c2 url
                      (sym (ap (λ x. x.0) e) ∙ h) in
                  rw e (rw wire (omega arith), there, small)
            ]
      ]

  -- What an answer of `get_attachment_url` is.
  abbrev pub Served : ℕ → Str → Client → Outcome Str → Client → Type 0
  Served now id c (failed f) c' = Unit
  Served now id c (value url) c' =
      ((s : Signed) × (find_url id c.urls ≡ some s)
        × (s.url ≡ url)
        × (is_fresh now s.expiry ≡ true)
        × (find_url id c'.urls ≡ some s)
        × ((older : UrlCache) × (c'.urls ≡ older ++ (id, s) ∷ []))
        × (length c'.urls ≤ url_cache_size))
      ⊎ Resolved id c url c'

  resolve-Served :
      (now : ℕ) (id : Str) (c : Client)
      → Served now id c (resolve_url host id c).0 (resolve_url host id c).1
  resolve-Served now id c = elim (Outcome-cases (resolve_url host id c).0) [
    | inr (f, bad) ↦ rw bad tt
    | inl (url, good) ↦ rw good (inr (resolve-Resolved id c url good))
  ]

  -- On a cache of at most 4096 entries, a URL that `get_attachment_url` gives was cached for the
  -- message, with no expiry or one more than 300 seconds away, and is now the last entry of the
  -- cache, whose first ones are evicted first; or it was asked of Discord just now and is cached.
  -- Either way the cache keeps its bound.
  pub get_attachment_url-Served :
      (now : ℕ) (id : Str) (refresh : Bool) (c : Client)
      → length c.urls ≤ url_cache_size
      → Served now id c
          (get_attachment_url host now id refresh c).0
          (get_attachment_url host now id refresh c).1
  unfolding get_attachment_url put_last
  get_attachment_url-Served now id true c small = resolve-Served now id c
  get_attachment_url-Served now id false c small = elim (Option-cases (find_url id c.urls)) [
    | inl absent ↦ rw (get_attachment_url, absent) (resolve-Served now id c)
    | inr (s, found) ↦ elim (Bool-cases (is_fresh now s.expiry)) [
      | inr lapsed ↦ rw (get_attachment_url, found, lapsed) (resolve-Served now id c)
      | inl fresh ↦
          rw (get_attachment_url, found, fresh)
            (inl (
              s,
              found,
              refl,
              fresh,
              find-append_last id s (pop_url id c.urls) (find-popped id c.urls),
              (pop_url id c.urls, refl),
              omega (
                arith,
                length-append (pop_url id c.urls) ((id, s) ∷ []),
                length-pop_found id c.urls s found,
              ),
            ))
    ]
  ]

  -- What an upload that succeeds has made sure of.
  abbrev pub Uploaded : Bytes → Outcome (Str × Attachment) → Client → Type 0
  Uploaded file_bytes (failed f) c' = Unit
  Uploaded file_bytes (value (id, a)) c' =
      (a.size ≡ length file_bytes)
      × (find_url id c'.urls ≡ some (record { url = a.url; expiry = url_expiry host a.url }))
      × (length c'.urls ≤ url_cache_size)

  keep_whole-Uploaded :
      (file_bytes : Bytes) (id : Str) (a : Attachment) (c : Client)
      → Uploaded file_bytes
          (keep_whole host (length file_bytes) id a c).0
          (keep_whole host (length file_bytes) id a c).1
  unfolding keep_whole remember_url safe_delete
  keep_whole-Uploaded file_bytes id a c = elim (Bool-cases (a.size == length file_bytes)) [
    | inr short ↦ rw (keep_whole, short) tt
    | inl whole ↦
        let (there, small) = remember_url-Remembers id a.url c in
        rw (keep_whole, whole) ((==_iff a.size (length file_bytes)).0 whole, there, small)
  ]

  first-Uploaded :
      (file_bytes : Bytes) (id : Str) (attachments : List Attachment) (c : Client)
      → (let (r, c') =
            (first_attachment attachments crash >>= keep_whole host (length file_bytes) id) c in
          Uploaded file_bytes r c')
  first-Uploaded file_bytes id [] c = tt
  first-Uploaded file_bytes id (a ∷ rest) c = keep_whole-Uploaded file_bytes id a c

  -- An upload that succeeds gives an attachment as long as the bytes that were sent, and its URL is
  -- in the bounded cache.
  pub upload_chunk-Uploaded :
      (file_bytes : Bytes) (c : Client)
      → Uploaded file_bytes (upload_chunk host file_bytes c).0 (upload_chunk host file_bytes c).1
  unfolding upload_chunk
  upload_chunk-Uploaded file_bytes c = elim (Outcome-cases (target_channel host c).0) [
    | inr (f, bad) ↦ rw (upload_chunk, bad) tt
    | inl (channel, found) ↦
        let c1 = (target_channel host c).1 in
        let path = channels_path ++ (channel ++ messages_path) in
        elim (Outcome-cases (ask host post path c1).0) [
          | inr (f, bad) ↦ rw (upload_chunk, found, bad) tt
          | inl (none, empty) ↦ rw (upload_chunk, found, empty) tt
          | inl (some body, told) ↦
              rw (upload_chunk, found, told)
                (first-Uploaded file_bytes body.id body.attachments (ask host post path c1).1)
        ]
  ]
