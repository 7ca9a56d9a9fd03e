-- ===== src/Client.antt =====
-- The client of Discord's HTTP interface (src/discord_api.py): requests with their retries, and the
-- attachments by their message ids.
pub mod Request
pub mod Attempts
pub mod World
pub mod Urls
pub mod Eviction
pub mod Cached
pub mod Permissions
pub mod Granted
