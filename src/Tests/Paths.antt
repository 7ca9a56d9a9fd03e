-- ===== src/Tests/Paths.antt =====
-- The theorems on paths, lookups and ended sessions, applied.
use discord_sftp_drive.Base.{
  ◌≡◌, refl, true, false, none, some, List, [], ◌∷◌, ◌++◌, Str, All, is_empty,
}
use discord_sftp_drive.Exec.{ok}
use discord_sftp_drive.Path.{segments, normalize_path, walk_parts}
use discord_sftp_drive.Path.Normal.{IsSegment, segments-IsSegment}
use discord_sftp_drive.Vfs.Resolve.{get_node}
use discord_sftp_drive.Seal.{tag_matches}
use discord_sftp_drive.Model.{Node}
use discord_sftp_drive.Store.{find_first, has_id}
use discord_sftp_drive.Vfs.Tags.{node_mac}
use discord_sftp_drive.Vfs.Trash.{set_trashed}
use discord_sftp_drive.Vfs.Trashing.{set_trashed-verifies}
use discord_sftp_drive.Vfs.Lookups.{IsGood, get_node-IsGood}
use discord_sftp_drive.Vfs.Search.{search}
use discord_sftp_drive.Vfs.Searching.{Searched, walk_all, search-Searched}
use discord_sftp_drive.Tests.Setting.{env}
use discord_sftp_drive.Tests.Files.{a_node}
use discord_sftp_drive.Tests.Failing.{drive, a_dir}

-- `a/../\\b/./`
abbrev a_path : Str
a_path = b'a' ∷ b'/' ∷ b'.' ∷ b'.' ∷ b'/' ∷ 92 ∷ b'b' ∷ b'/' ∷ b'.' ∷ b'/' ∷ []

segments_run : segments a_path ≡ (b'b' ∷ []) ∷ []
unfolding segments discord_sftp_drive.Path.collapse discord_sftp_drive.Path.take_part
    discord_sftp_drive.Path.reverse_onto discord_sftp_drive.Path.to_slash
    discord_sftp_drive.Base.split_on discord_sftp_drive.Base.str_eq
segments_run = refl

segments-IsSegment_example : All IsSegment (segments a_path)
segments-IsSegment_example = segments-IsSegment a_path

abbrev file_path : Str
file_path = b'/' ∷ b'a' ∷ []

parts_run : walk_parts file_path ≡ (b'a' ∷ []) ∷ []
unfolding walk_parts normalize_path segments discord_sftp_drive.Path.collapse
    discord_sftp_drive.Path.take_part discord_sftp_drive.Path.reverse_onto
    discord_sftp_drive.Path.to_slash discord_sftp_drive.Base.split_on discord_sftp_drive.Base.str_eq
    discord_sftp_drive.Base.intercalate
parts_run = refl

get_node_run : (get_node env (9 ∷ []) file_path drive).0 ≡ ok (some a_node)
unfolding get_node discord_sftp_drive.Vfs.Resolve.get_node_by_id discord_sftp_drive.Vfs.Resolve.walk
    discord_sftp_drive.Vfs.Resolve.verify_found discord_sftp_drive.Vfs.Tags.verify_node
    discord_sftp_drive.Vfs.Tags.dir_mac discord_sftp_drive.Vfs.Tags.file_mac
    discord_sftp_drive.Vfs.Tags.file_shape discord_sftp_drive.Vfs.Tags.dir_shape
    discord_sftp_drive.Vfs.Tags.chunk_tags discord_sftp_drive.Vfs.Tags.sort_by_offset
    discord_sftp_drive.Vfs.Tags.insert_by_offset discord_sftp_drive.Seal.tag_matches
    discord_sftp_drive.Store.find_one discord_sftp_drive.Store.find_first
    discord_sftp_drive.Store.has_id discord_sftp_drive.Store.is_live_at
    discord_sftp_drive.Store.is_live discord_sftp_drive.Store.has_parent
    discord_sftp_drive.Store.opt_eq walk_parts normalize_path segments
    discord_sftp_drive.Path.collapse discord_sftp_drive.Path.take_part
    discord_sftp_drive.Path.reverse_onto discord_sftp_drive.Path.to_slash
    discord_sftp_drive.Base.split_on discord_sftp_drive.Base.str_eq
    discord_sftp_drive.Base.intercalate discord_sftp_drive.Base.insert
get_node_run = refl

get_node-IsGood_example : IsGood env a_node
get_node-IsGood_example =
    get_node-IsGood env (9 ∷ []) file_path (b'a' ∷ []) [] drive a_node parts_run get_node_run

-- The file of the directory, trashed at 50.
abbrev trashed_node : Node
trashed_node = record a_node { trashed_at = some 50 }

drive_found : find_first (has_id (5 ∷ [])) drive.nodes ≡ some a_node
unfolding find_first has_id discord_sftp_drive.Base.str_eq
drive_found = refl

trash_run : (set_trashed env a_node (some 50) drive).0 ≡ ok trashed_node
unfolding set_trashed discord_sftp_drive.Vfs.Tags.node_mac discord_sftp_drive.Vfs.Tags.file_mac
    discord_sftp_drive.Vfs.Tags.file_shape discord_sftp_drive.Vfs.Tags.chunk_tags
    discord_sftp_drive.Vfs.Tags.sort_by_offset discord_sftp_drive.Vfs.Tags.insert_by_offset
    discord_sftp_drive.Store.update_one find_first has_id discord_sftp_drive.Base.str_eq
    discord_sftp_drive.Store.is_taken discord_sftp_drive.Store.collides
    discord_sftp_drive.Store.delete_first discord_sftp_drive.Store.is_live
    discord_sftp_drive.Store.same_key
trash_run = refl

set_trashed-verifies_example :
    (find_first (has_id (5 ∷ [])) (set_trashed env a_node (some 50) drive).1.nodes
      ≡ some trashed_node)
    × (trashed_node.trashed_at ≡ some 50)
    × (tag_matches trashed_node.mac (node_mac env trashed_node) ≡ true)
set_trashed-verifies_example =
    set_trashed-verifies env a_node trashed_node (some 50) drive drive_found trash_run

-- A search for the byte `a` in the directory.
abbrev a_word : Str
a_word = b'a' ∷ []

word_given : is_empty (env.casefold (env.strip a_word)) ≡ false
word_given = refl

root_run :
    discord_sftp_drive.Vfs.Resolve.require_node env (9 ∷ []) (b'/' ∷ []) drive
    ≡ (ok a_dir, record drive { calls = 1 })
unfolding discord_sftp_drive.Vfs.Resolve.require_node get_node
    discord_sftp_drive.Vfs.Resolve.get_node_by_id discord_sftp_drive.Vfs.Resolve.walk
    discord_sftp_drive.Vfs.Resolve.verify_found discord_sftp_drive.Vfs.Tags.verify_node
    discord_sftp_drive.Vfs.Tags.dir_mac discord_sftp_drive.Vfs.Tags.dir_shape
    discord_sftp_drive.Seal.tag_matches discord_sftp_drive.Store.find_one
    discord_sftp_drive.Store.find_first discord_sftp_drive.Store.has_id walk_parts normalize_path
    segments discord_sftp_drive.Path.collapse discord_sftp_drive.Path.take_part
    discord_sftp_drive.Path.reverse_onto discord_sftp_drive.Path.to_slash
    discord_sftp_drive.Base.split_on discord_sftp_drive.Base.str_eq
    discord_sftp_drive.Base.intercalate
root_run = refl

search-Searched_example :
    Searched env a_word 1 5 [] 0
      (walk_all env 7 ((a_dir, []) ∷ []) (record drive { calls = 1 }))
      (search env (9 ∷ []) a_word 1 5 drive).0
      (search env (9 ∷ []) a_word 1 5 drive).1
search-Searched_example =
    search-Searched env (9 ∷ []) a_word 1 5 drive (record drive { calls = 1 }) a_dir word_given
      root_run
