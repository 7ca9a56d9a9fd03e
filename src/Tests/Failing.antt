-- ===== src/Tests/Failing.antt =====
-- The theorems on failures and on directories, applied: a metadata store that is down, and a
-- directory with one file in it.
use discord_sftp_drive.Base.{
  ℕ, ◌≡◌, ◌≢◌, refl, true, false, Option, none, some, List, [], ◌∷◌, ◌++◌, Str, arith,
}
use discord_sftp_drive.Exec.{ok, raise, database_error}
use discord_sftp_drive.Model.{Env, Node, World}
use discord_sftp_drive.Store.{find_first, has_id}
use discord_sftp_drive.Vfs.Tags.{entries_verify}
use discord_sftp_drive.Vfs.Entries.{stage_entries}
use discord_sftp_drive.Vfs.Create.{insert_entry}
use discord_sftp_drive.Vfs.Rows.{entries_in}
use discord_sftp_drive.Vfs.Crash.{Settled, Listable}
use discord_sftp_drive.Vfs.Insert.{insert_entry-Listable, insert_entry-Settled, stage-unsettled}
use discord_sftp_drive.File.Writing.{upload_chunk}
use discord_sftp_drive.File.Failures.{Untouched, upload_chunk-failed}
use discord_sftp_drive.Tests.Setting.{Channel, env}
use discord_sftp_drive.Tests.Files.{opened, a_node}

-- The store fails at every call.
abbrev down : Env Channel
down = record env { store_up = λ n. false }

upload_chunk-down : (upload_chunk down (1 ∷ 2 ∷ []) opened).0 ≡ raise database_error
unfolding upload_chunk discord_sftp_drive.Vfs.Chunks.upload_sealed
    discord_sftp_drive.Vfs.Chunks.covered_end discord_sftp_drive.Vfs.Chunks.last_chunk
    discord_sftp_drive.Vfs.Tags.commit_content discord_sftp_drive.Store.update_one
    discord_sftp_drive.File.Unwind.release discord_sftp_drive.Vfs.Chunks.safe_delete_message
    discord_sftp_drive.File.Unwind.tally_delete discord_sftp_drive.File.Unwind.rollback
upload_chunk-down = refl

upload_chunk-failed_example : Untouched down opened (upload_chunk down (1 ∷ 2 ∷ []) opened).1
upload_chunk-failed_example =
    upload_chunk-failed down opened (1 ∷ 2 ∷ []) database_error refl upload_chunk-down

-- A directory `9` with the file of `opened` in it, and a new file.
abbrev pub a_dir : Node
a_dir = record a_node {
  id = 9 ∷ [];
  parent_id = none;
  filename = some [];
  is_dir = true;
  size = 0;
  chunks = [];
  mac = 3 ∷ 9 ∷ [];
  entries_mac = 4 ∷ 1 ∷ 9 ∷ [];
}

abbrev b_node : Node
b_node = record a_node { id = 6 ∷ []; filename = some (98 ∷ []); chunks = []; size = 0 }

abbrev pub drive : World Channel
drive = record {
  channel = [];
  nodes = a_dir ∷ a_node ∷ [];
  versions = [];
  held = (9 ∷ []) ∷ [];
  calls = 0;
  nonces = 0;
}

drive-Settled : Settled env (9 ∷ []) drive.nodes
unfolding find_first has_id discord_sftp_drive.Base.str_eq discord_sftp_drive.Store.has_parent
    discord_sftp_drive.Store.opt_eq discord_sftp_drive.Vfs.Tags.entries_of
drive-Settled n found = let same : a_dir ≡ n = cc in rw (← same) refl

other_id : b_node.id ≢ 9 ∷ []
other_id e = cc

insert_entry-Listable_example :
    Listable env (9 ∷ []) (insert_entry env (9 ∷ []) (98 ∷ []) b_node (λ w. w) drive).1.nodes
insert_entry-Listable_example =
    insert_entry-Listable env (9 ∷ []) (98 ∷ []) b_node (λ w. w) drive drive-Settled other_id refl
      refl (λ u. refl)

insert_entry_run : (insert_entry env (9 ∷ []) (98 ∷ []) b_node (λ w. w) drive).0 ≡ ok tt
unfolding insert_entry stage_entries discord_sftp_drive.Vfs.Entries.is_held
    discord_sftp_drive.Base.str_eq discord_sftp_drive.Store.find_one discord_sftp_drive.Store.find
    discord_sftp_drive.Store.insert_one discord_sftp_drive.Store.update_one find_first has_id
    discord_sftp_drive.Store.has_parent discord_sftp_drive.Store.opt_eq
    discord_sftp_drive.Vfs.Entries.children discord_sftp_drive.Vfs.Tags.entries_of entries_verify
    discord_sftp_drive.Seal.tag_matches discord_sftp_drive.Store.is_taken
    discord_sftp_drive.Store.collides discord_sftp_drive.Store.delete_first
    discord_sftp_drive.Store.update_first discord_sftp_drive.Store.is_live
    discord_sftp_drive.Store.same_key discord_sftp_drive.Vfs.Entries.promote
    discord_sftp_drive.Vfs.Entries.next_entries discord_sftp_drive.Vfs.Entries.is_entry_in
insert_entry_run = refl

insert_entry-Settled_example :
    Settled env (9 ∷ []) (insert_entry env (9 ∷ []) (98 ∷ []) b_node (λ w. w) drive).1.nodes
insert_entry-Settled_example =
    insert_entry-Settled env (9 ∷ []) (98 ∷ []) b_node (λ w. w) drive refl refl (λ u. refl)
      insert_entry_run

-- The same directory after a crash between an insertion and its promotion.
abbrev pub crashed_dir : Node
crashed_dir = record a_dir { entries_mac = 4 ∷ 0 ∷ 9 ∷ []; entries_mac_pending = 4 ∷ 1 ∷ 9 ∷ [] }

abbrev crashed : World Channel
crashed = record drive { nodes = crashed_dir ∷ a_node ∷ [] }

abbrev staged_dir : Node
staged_dir = record crashed_dir { entries_mac_pending = 4 ∷ 2 ∷ 9 ∷ []; modified_at = 102 }

stage_run :
    stage_entries env (9 ∷ []) ((6 ∷ [], 98 ∷ []) ∷ []) [] crashed
    ≡ (ok (4 ∷ 2 ∷ 9 ∷ []), record crashed { nodes = staged_dir ∷ a_node ∷ []; calls = 3 })
unfolding stage_entries discord_sftp_drive.Vfs.Entries.is_held discord_sftp_drive.Base.str_eq
    discord_sftp_drive.Store.find_one discord_sftp_drive.Store.find
    discord_sftp_drive.Store.update_one find_first has_id discord_sftp_drive.Store.has_parent
    discord_sftp_drive.Store.opt_eq discord_sftp_drive.Vfs.Entries.children
    discord_sftp_drive.Vfs.Tags.entries_of entries_verify discord_sftp_drive.Seal.tag_matches
    discord_sftp_drive.Store.is_taken discord_sftp_drive.Store.collides
    discord_sftp_drive.Store.delete_first discord_sftp_drive.Store.update_first
    discord_sftp_drive.Store.is_live discord_sftp_drive.Store.same_key
    discord_sftp_drive.Vfs.Entries.next_entries discord_sftp_drive.Vfs.Entries.is_entry_in
stage_run = refl

crashed_entries : entries_in (9 ∷ []) crashed.nodes ≡ (5 ∷ [], 97 ∷ []) ∷ []
unfolding discord_sftp_drive.Base.str_eq discord_sftp_drive.Store.has_parent
    discord_sftp_drive.Store.opt_eq discord_sftp_drive.Vfs.Tags.entries_of
crashed_entries = refl

stale_tag :
    crashed_dir.entries_mac ≢ env.seal.dir_entries_tag (9 ∷ []) (entries_in (9 ∷ []) crashed.nodes)
stale_tag = rw crashed_entries (λ e. cc)

other_tag : (4 ∷ 2 ∷ 9 ∷ []) ≢ env.seal.dir_entries_tag (9 ∷ []) (entries_in (9 ∷ []) crashed.nodes)
other_tag = rw crashed_entries (λ e. cc)

crashed_found : find_first (has_id (9 ∷ [])) crashed.nodes ≡ some crashed_dir
unfolding find_first has_id discord_sftp_drive.Base.str_eq
crashed_found = refl

staged_found :
    find_first
      (has_id (9 ∷ []))
      (stage_entries env (9 ∷ []) ((6 ∷ [], 98 ∷ []) ∷ []) [] crashed).1.nodes
    ≡ some staged_dir
unfolding find_first has_id discord_sftp_drive.Base.str_eq
staged_found = rw stage_run refl

stage_good :
    (stage_entries env (9 ∷ []) ((6 ∷ [], 98 ∷ []) ∷ []) [] crashed).0 ≡ ok (4 ∷ 2 ∷ 9 ∷ [])
stage_good = rw stage_run refl

stage-unsettled_example :
    entries_verify env
      (9 ∷ [])
      (entries_in (9 ∷ []) (stage_entries env (9 ∷ []) ((6 ∷ [], 98 ∷ []) ∷ []) [] crashed).1.nodes)
      (4 ∷ 0 ∷ 9 ∷ [])
      (4 ∷ 2 ∷ 9 ∷ [])
    ≡ false
stage-unsettled_example =
    stage-unsettled env (9 ∷ []) ((6 ∷ [], 98 ∷ []) ∷ []) [] crashed (4 ∷ 2 ∷ 9 ∷ []) crashed_dir
      staged_dir crashed_found stale_tag stage_good other_tag staged_found
