-- ===== src/Lib.antt =====
-- Discord SFTP Drive: a file system whose bytes are attachments in a Discord channel and whose
-- metadata are documents of a database, served over SFTP and HTTP (the Python package in src/).
--
-- The parts and how they interact. A client's operation reaches `DiscordVFS` (src/vfs.py), which
-- resolves paths over the collection `nodes`, checks the integrity tag of every node it reads, and
-- opens a `DiscordFile`. The handle cuts a file into chunks, encrypts and tags each (src/crypto.py),
-- posts it, and commits the new list of chunks to the file's document. Structural changes of a
-- directory stage the tag of its next set of entries, make the change, and promote the tag. Beside
-- the file system stand the HTTP sessions that hold the keys (src/websession.py), the guard of the
-- login (src/webauth.py), background purges (src/jobs.py), and the limiter of requests to Discord
-- (src/ratelimit.py). A login over HTTP (src/web.py) or SFTP (src/sftp.py) authenticates against the
-- accounts (src/users.py), and opens the account's wrapped master key (src/keystore.py), which the
-- start of the server (src/main.py) has made sure that the configured password opens. The client of
-- Discord (src/discord_api.py) tries each request again where that may help. The configuration is
-- checked as a whole before anything starts (src/config.py).
--
-- The files.
--   Base, Exec: shared helpers; coroutines that change a world and may raise are functions
--     `Exec S A`, whose state comes back beside the error too.
--   Seal, Model: the interfaces to the cryptography and to Discord, the documents (`Node`, `Chunk`),
--     and the world that coroutines change (`World`).
--   Store: `nodes` as src/sqlitedb.py serves it: `find_one`, `find`, `insert_one`, `update_one`,
--     `delete_one`, with the unique indexes of src/db.py.
--   Path: `normalize_path`, `split_path`, `_join`; Path.Normal is about normal paths.
--   Vfs: src/vfs.py below the handles. Tags (`_verify_node`, `_commit_content`), Chunks
--     (`_fetch_chunk`, `_resize_node`), Entries (`_stage_entries`), Resolve (`get_node`), Trash,
--     Restore, Purge, Create, Overwrite (`_begin_overwrite`, `_finish_overwrite`), Move (`rename`),
--     Search (`search`); Rows, Crash and Insert are about the entry tags of a directory, Lookups is
--     about `get_node`, Trashing about `_set_trashed`, Scanning and Searching about `search`.
--   File: class `DiscordFile`. Handle (its fields), Cache, Writing (`write_at`), Reading
--     (`read_at`), Unwind (`_rollback`), Closing (`close`, `truncate_to`, `open`). Layout,
--     Contents, Fetch, Reads, Commit, Uploads, Flushes, Drains, Middle, Replaces, Splice,
--     Overwrites, Patches, RandomWrites, Writes, ReadBack and Failures carry the proofs. The
--     invariant of an open file is `Ready`: over the plaintexts of its chunks, the chunks lie one
--     behind the other from offset 0, every attachment is authentic in its place, the cache is
--     coherent, and the handle knows the last commit. `contents` is the byte string that a client
--     sees, `overwrite` is one POSIX write on it.
--   Crypto: src/crypto.py. Codec and Payloads (the bytes under each tag), Stream (`transform`), Wrap
--     (`wrap_master_key`), Keyed (the interface `Seal` filled from them).
--   Sessions, Guard, Jobs, Rate: src/websession.py, src/webauth.py, src/jobs.py, src/ratelimit.py.
--   Accounts: Books (the two collections, and argon2-cffi and Crypto.Wrap as an interface), Keystore
--     (src/keystore.py; Safety and Usable are about it), Users (src/users.py; Synced and Cost are about
--     it), Login (`start_server` up to the socket, `validate_password`; Startup and Own are about it).
--   Client: src/discord_api.py. Request (`_request`, `download_chunk` as its attempts), World and Urls
--     (the calls, with the cache of signed URLs), Permissions (`check_reachability` on what its probes
--     answer); Attempts, Eviction, Cached and Granted carry the proofs.
--   Config: src/config.py. Values, Check (`check`, the settings functions); Checked and Empty are about
--     what an environment that passes the check gives.
--   Locks: `_locked_dirs` and `_forget` of src/vfs.py. Table has what a task does between two awaits,
--     and the steps of many tasks; Counting, Moves and Exclusion carry the invariant `Inv`.
--   Web: src/web.py. Gate (`auth_middleware`, `error_middleware`), SignIn (`login`,
--     `revoke_other_sessions`); Guarded and SignedIn are about them.
--   Tests: concrete settings, runs, and each theorem applied.
--
-- Choices. Strings are their UTF-8 bytes; ids of messages are numbers. Each call of the metadata
-- store may fail as a whole (`store_up`), each call of Discord may fail in ways that nobody sees; a
-- theorem that promises success assumes `Healthy`. Hashes, ciphers and what Python's `str` takes
-- from Unicode tables are parameters with their documented laws. Times are whole units of a clock.
--
-- Bounds and fuel. `read_loop`, `patch_chunks` and `append_now` take as many rounds as there are
-- bytes left, and every round handles at least one; `drain` takes one more than the bytes in the
-- buffer. Their theorems give the result, so the fuel is enough. `climb` and `levels` visit each
-- document once, and take as many rounds as there are documents. `search_loop` takes two rounds more
-- than `max_nodes`, and its theorem says that this is enough. Eight-byte fields of a payload
-- hold numbers below 2 ^ 64, which the theorems on payloads ask for.
--
-- Not modelled: the text of SQL statements, `iter_messages` in src/discord_api.py, the file
-- operations of src/sftp.py and the routes of src/web.py behind the login, which translate to and
-- from the operations of the file system, and the life of the process in src/main.py and
-- src/standalone.py. The waiting of tasks for each other is in Locks alone: an operation of Vfs or
-- of a file runs as one task, to its end, so its cancellation in between is not modelled; that of
-- a job, and that of a task that waits for a lock, is.
pub mod Base
pub mod Exec
pub mod Seal
pub mod Model
pub mod Store
pub mod Path
pub mod Vfs
pub mod File
pub mod Tests
pub mod Sessions
pub mod Guard
pub mod Crypto
pub mod Jobs
pub mod Rate
pub mod Accounts
pub mod Client
pub mod Config
pub mod Locks
pub mod Web
