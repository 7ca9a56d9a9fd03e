-- ===== src/Client/World.antt =====
-- What the client keeps, and what its calls come to (src/discord_api.py: class `DiscordAPI`). Ids are
-- strings, as in Discord's JSON.
use discord_sftp_drive.Base.{ℕ, Str, Bool, Option, List}
use discord_sftp_drive.Seal.{Bytes}
use discord_sftp_drive.Client.Request.{Reply, Failure, Jitter, Wire}

-- `_URL_EXPIRY_MARGIN`
abbrev pub url_expiry_margin : ℕ
url_expiry_margin = 300

-- `_URL_CACHE_SIZE`
abbrev pub url_cache_size : ℕ
url_cache_size = 4096

pub record Attachment : Type 0 where
  pub url : Str
  pub size : ℕ

-- What the client reads of a message or of a channel.
pub record Body : Type 0 where
  pub id : Str
  pub attachments : List Attachment

-- An entry of `_url_cache`; `none` is an expiry that the URL does not say.
pub record Signed : Type 0 where
  pub url : Str
  pub expiry : Option ℕ

abbrev pub UrlCache : Type 0
UrlCache = List (Str × Signed)

-- The configured target, what the network answers to the n-th attempt, the clock, which an attempt
-- reads when it enters and when its response is there, and the libraries: the first
-- `ex` of a URL's query, and `int(raw, 16)`.
pub record Host : Type 0 where
  pub user_id : Option Str
  pub channel_id : Str
  pub net : ℕ → Reply Body
  pub cdn : ℕ → Reply Bytes
  pub jitter : Jitter
  pub clock : ℕ → ℕ
  pub is_digit : Str → Bool
  pub query_ex : Str → Option Str
  pub int16 : Str → Option ℕ

-- `DiscordAPI`: the attempts of its two HTTP sessions, `dm_channel_id`, and `_url_cache`, least
-- recently used first.
pub record Client : Type 0 where
  pub wire : Wire
  pub cdn_wire : Wire
  pub dm_channel : Option Str
  pub urls : UrlCache

pub data Outcome (A : Type 0) : Type 0 where
  value : A → Outcome A
  failed : Failure → Outcome A

abbrev pub Call : Type 0 → Type 0
Call A = Client → Outcome A × Client

module _ {A : Type 0} where
  abbrev pub pure : A → Call A
  pure a c = (value a, c)

  abbrev pub fail : Failure → Call A
  fail f c = (failed f, c)

module _ {A B : Type 0} where
  abbrev pub continue : Outcome A → (A → Call B) → Call B
  continue (value a) f c = f a c
  continue (failed e) f c = (failed e, c)

  infixl 10 ◌>>=◌ ◌>>◌
  abbrev pub ◌>>=◌ : Call A → (A → Call B) → Call B
  ◌>>=◌ m f c = let (r, c') = m c in continue r f c'

  abbrev pub ◌>>◌ : Call A → Call B → Call B
  m >> n = m >>= λ _. n
