-- ===== src/Client/Urls.antt =====
-- Attachments by their message ids (src/discord_api.py: `_url_expiry`, `_remember_url`,
-- `get_attachment_url`, `upload_chunk`, `delete_message`, `download_attachment`). Ids are strings, as
-- in Discord's JSON; `now` is `time.time()`.
use discord_sftp_drive.Base.{
  ℕ, ◌+◌, ◌-◌, Str, str_eq, Bool, true, false, not, ◌||◌, Option, none, some, List, [], ◌∷◌, ◌++◌,
  ◌==◌, ltb, if◌then◌else◌, length, drop, filter_by, is_empty,
}
use discord_sftp_drive.Seal.{Bytes}
use discord_sftp_drive.Rate.{route_key}
use discord_sftp_drive.Client.Request.{
  Failure, api, crash, Answer, got, error, request, download_chunk,
}
use discord_sftp_drive.Client.World.{
  url_expiry_margin, url_cache_size, Attachment, Body, Signed, UrlCache, Host, Outcome, Call, pure,
  fail, ◌>>=◌, ◌>>◌, value, failed,
}

unfoldable pub find_url : Str → UrlCache → Option Signed
find_url id [] = none
find_url id ((i, s) ∷ m) = if str_eq i id then some s else find_url id m

-- `_url_cache.pop(message_id, None)`
unfoldable pub pop_url : Str → UrlCache → UrlCache
pop_url id m = filter_by (λ e. not (str_eq e.0 id)) m

-- `move_to_end`, with the entry given
unfoldable pub put_last : Str → Signed → UrlCache → UrlCache
put_last id s m = pop_url id m ++ (id, s) ∷ []

-- `while len(…) > _URL_CACHE_SIZE: popitem(last=False)`
unfoldable pub evict : UrlCache → UrlCache
evict m = drop (length m - url_cache_size) m

unfoldable pub to_outcome : Answer Body → Outcome (Option Body)
to_outcome (got b) = value b
to_outcome (error f) = failed f

unfoldable pub to_bytes : Answer Bytes → Outcome Bytes
to_bytes (got none) = failed crash
to_bytes (got (some b)) = value b
to_bytes (error f) = failed f

-- A result that is subscripted: `None["id"]` is a `TypeError`.
abbrev pub need : Option Body → Call Body
need none = fail crash
need (some b) = pure b

-- `result["attachments"][0]`
abbrev pub first_attachment : List Attachment → Failure → Call Attachment
first_attachment [] f = fail f
first_attachment (a ∷ rest) f = pure a

-- "/channels/", "/messages" and "/users/@me/channels"
abbrev pub channels_path : Str
channels_path = b'/' ∷ b'c' ∷ b'h' ∷ b'a' ∷ b'n' ∷ b'n' ∷ b'e' ∷ b'l' ∷ b's' ∷ b'/' ∷ []

abbrev pub messages_path : Str
messages_path = b'/' ∷ b'm' ∷ b'e' ∷ b's' ∷ b's' ∷ b'a' ∷ b'g' ∷ b'e' ∷ b's' ∷ []

abbrev pub dm_path : Str
dm_path =
    b'/' ∷ b'u' ∷ b's' ∷ b'e' ∷ b'r' ∷ b's' ∷ b'/' ∷ b'@' ∷ b'm' ∷ b'e' ∷ b'/' ∷ b'c' ∷ b'h' ∷ b'a'
    ∷ b'n' ∷ b'n' ∷ b'e' ∷ b'l' ∷ b's' ∷ []

abbrev pub post : Str
post = b'P' ∷ b'O' ∷ b'S' ∷ b'T' ∷ []

abbrev pub get : Str
get = b'G' ∷ b'E' ∷ b'T' ∷ []

abbrev pub delete : Str
delete = b'D' ∷ b'E' ∷ b'L' ∷ b'E' ∷ b'T' ∷ b'E' ∷ []

unfoldable pub message_path : Str → Str → Str
message_path channel id = channels_path ++ (channel ++ (messages_path ++ (b'/' ∷ id)))

-- `expiry is None or time.time() < expiry - _URL_EXPIRY_MARGIN`
unfoldable pub is_fresh : ℕ → Option ℕ → Bool
is_fresh now none = true
is_fresh now (some expiry) = ltb (now + url_expiry_margin) expiry

-- `exc.status in (403, 404)`
unfoldable pub is_stale : Failure → Bool
is_stale crash = false
is_stale (api none) = false
is_stale (api (some status)) = status == 403 || status == 404

module _ (host : Host) where
  -- `_url_expiry`
  unfoldable pub url_expiry : Str → Option ℕ
  url_expiry url = elim (host.query_ex url) [
    | none ↦ none
    | some raw ↦ if is_empty raw then none else host.int16 raw
  ]

  -- `_remember_url`
  unfoldable pub remember_url : Str → Str → Call (Unit {0})
  remember_url id url c = (
    value tt,
    record c { urls = evict (put_last id (record { url = url; expiry = url_expiry url }) c.urls) },
  )

  unfoldable pub ask : Str → Str → Call (Option Body)
  ask method endpoint c =
      let (a, w) =
        request host.jitter host.clock host.net (route_key host.is_digit method endpoint) c.wire in
      (to_outcome a, record c { wire = w })

  -- The channel of direct messages with the configured user.
  unfoldable pub open_dm : Call Str
  open_dm = do
    result ← ask post dm_path
    body ← need result
    (λ c. (value body.id, record c { dm_channel = some body.id }))

  -- `get_target_channel_id`
  unfoldable pub target_channel : Call Str
  target_channel c = elim c.dm_channel [
    | some id ↦ (value id, c)
    | none ↦ elim host.user_id [ none ↦ (value host.channel_id, c) | some user ↦ open_dm c ]
  ]

  -- `delete_message`
  unfoldable pub delete_message : Str → Call (Unit {0})
  delete_message id = do
    channel ← target_channel
    ask delete (message_path channel id)
    (λ c. (value tt, record c { urls = pop_url id c.urls }))

  -- `_safe_delete`
  unfoldable pub safe_delete : Str → Call (Unit {0})
  safe_delete id c = (value tt, (delete_message id c).1)

  -- The end of `upload_chunk`: what Discord stored is as long as what was sent, or is dropped.
  unfoldable pub keep_whole : ℕ → Str → Attachment → Call (Str × Attachment)
  keep_whole sent id attachment =
      if attachment.size == sent
      then remember_url id attachment.url >> pure (id, attachment)
      else safe_delete id >> fail (api none)

  -- `upload_chunk`: the message id, the URL and the size.
  unfoldable pub upload_chunk : Bytes → Call (Str × Attachment)
  upload_chunk file_bytes = do
    channel ← target_channel
    result ← ask post (channels_path ++ (channel ++ messages_path))
    body ← need result
    attachment ← first_attachment body.attachments crash
    keep_whole (length file_bytes) body.id attachment

  unfoldable pub remember_first : Str → List Attachment → Call Str
  remember_first id attachments = do
    attachment ← first_attachment attachments (api none)
    remember_url id attachment.url
    pure attachment.url

  -- `get_attachment_url`, past the cache
  unfoldable pub resolve_url : Str → Call Str
  resolve_url id = do
    channel ← target_channel
    result ← ask get (message_path channel id)
    body ← need result
    remember_first id body.attachments

  -- `get_attachment_url`
  unfoldable pub get_attachment_url : ℕ → Str → Bool → Call Str
  get_attachment_url now id refresh c =
      if refresh then resolve_url id c else elim (find_url id c.urls) [
        | none ↦ resolve_url id c
        | some s ↦
            if is_fresh now s.expiry
            then (value s.url, record c { urls = put_last id s c.urls })
            else resolve_url id c
      ]

  unfoldable pub fetch : Str → Call Bytes
  fetch url c =
      let (a, w) = download_chunk host.jitter host.cdn c.cdn_wire in
      (to_bytes a, record c { cdn_wire = w })

  -- The second round of `download_attachment`
  unfoldable pub download_again : ℕ → Str → Call Bytes
  download_again now id = do url ← get_attachment_url now id true; fetch url

  -- `download_attachment`
  unfoldable pub download_attachment : ℕ → Str → Call Bytes
  download_attachment now id = do
    url ← get_attachment_url now id false
    (λ c.
        let (r, c') = fetch url c in
        elim r [
          | value b ↦ (value b, c')
          | failed f ↦ if is_stale f then download_again now id c' else (failed f, c')
        ])
