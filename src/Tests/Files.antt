-- ===== src/Tests/Files.antt =====
-- A file of one chunk, opened for reading and writing, with a byte in the buffer.
use discord_sftp_drive.Base.{
  ℕ, ◌≡◌, refl, true, false, none, some, List, [], ◌∷◌, ◌++◌, Str, pos, length, arith,
}
use discord_sftp_drive.Exec.{ok}
use discord_sftp_drive.Model.{Chunk, Node}
use discord_sftp_drive.File.Handle.{Handle, State}
use discord_sftp_drive.File.Reading.{read_at}
use discord_sftp_drive.File.Writing.{write_at}
use discord_sftp_drive.File.Contents.{contents}
use discord_sftp_drive.File.Uploads.{Ready}
use discord_sftp_drive.File.Splice.{overwrite}
use discord_sftp_drive.File.RandomWrites.{Written}
use discord_sftp_drive.File.Writes.{write_at-overwrite}
use discord_sftp_drive.File.ReadBack.{Answered, read_at-contents, write_at-read_at}
use discord_sftp_drive.Tests.Setting.{Channel, env, env-Healthy}

abbrev pub a_chunk : Chunk
a_chunk = record {
  index = 0;
  message_id = 0;
  nonce = 7 ∷ [];
  hmac = 1 ∷ 7 ∷ 10 ∷ 20 ∷ [];
  offset = 0;
  size = 2;
}

abbrev pub a_node : Node
a_node = record {
  id = 5 ∷ [];
  parent_id = some (9 ∷ []);
  filename = some (97 ∷ []);
  is_dir = false;
  size = 2;
  permissions = 420;
  created_at = 1;
  modified_at = 1;
  accessed_at = none;
  chunks = a_chunk ∷ [];
  mac = 2 ∷ 5 ∷ 97 ∷ [];
  tag_version = 3;
  trashed_at = none;
  entries_mac = [];
  entries_mac_pending = [];
}

abbrev pub opened : State Channel
opened = record {
  world = record {
    channel = some (10 ∷ 20 ∷ []) ∷ [];
    nodes = a_node ∷ [];
    versions = [];
    held = [];
    calls = 0;
    nonces = 0;
  };
  file = record {
    node = a_node;
    created = false;
    readable = true;
    writable = true;
    append_mode = false;
    replaces = none;
    buffer = 30 ∷ [];
    cache = [];
    chunks = a_chunk ∷ [];
    closed = false;
    failed = false;
    chunks_uploaded = 0;
    attachments_released = 0;
    orphans = 0;
    node_removed = none;
    pinned_mtime = none;
  };
}

opened-Ready : Ready env opened ((10 ∷ 20 ∷ []) ∷ [])
unfolding discord_sftp_drive.File.Handle.is_current discord_sftp_drive.Base.lookup
    discord_sftp_drive.Store.is_taken discord_sftp_drive.Store.delete_first
    discord_sftp_drive.Store.has_id discord_sftp_drive.Base.str_eq
opened-Ready = record {
  intact = record {
    laid = (refl, refl, refl, omega arith, tt);
    opens = ((10 ∷ 20 ∷ [], refl, refl, refl), tt);
    distinct = (tt, tt);
    sized = omega arith;
    indexed = refl;
    coherent = tt;
    current = refl;
  };
  row = λ n e. refl;
}

write_at-overwrite_example :
    Written env env-Healthy opened
      (write_at env (pos 1) (40 ∷ 50 ∷ 60 ∷ 70 ∷ []) opened)
      4
      (overwrite 1 (40 ∷ 50 ∷ 60 ∷ 70 ∷ []) (contents opened ((10 ∷ 20 ∷ []) ∷ [])))
write_at-overwrite_example =
    write_at-overwrite env env-Healthy opened ((10 ∷ 20 ∷ []) ∷ []) 1 40 (50 ∷ 60 ∷ 70 ∷ [])
      opened-Ready refl refl

overwrite_run :
    overwrite 1 (40 ∷ 50 ∷ 60 ∷ 70 ∷ []) (contents opened ((10 ∷ 20 ∷ []) ∷ []))
    ≡ 10 ∷ 40 ∷ 50 ∷ 60 ∷ 70 ∷ []
unfolding overwrite contents
overwrite_run = refl

read_at-contents_example :
    Answered env env-Healthy opened
      ((10 ∷ 20 ∷ []) ∷ [])
      (read_at env (pos 1) 5 opened)
      (20 ∷ 30 ∷ [])
unfolding contents
read_at-contents_example =
    read_at-contents env env-Healthy opened ((10 ∷ 20 ∷ []) ∷ []) 1 5 opened-Ready refl refl

write_at-read_at_example :
    (t u : State Channel) × (write_at env (pos 4) (40 ∷ 50 ∷ []) opened ≡ (ok 2, t))
    × (read_at env (pos 4) 2 t ≡ (ok (40 ∷ 50 ∷ []), u))
write_at-read_at_example =
    write_at-read_at env env-Healthy opened ((10 ∷ 20 ∷ []) ∷ []) 4 40 (50 ∷ []) opened-Ready refl
      refl refl refl
