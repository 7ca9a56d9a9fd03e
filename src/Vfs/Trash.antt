-- ===== src/Vfs/Trash.antt =====
-- The trash (src/vfs.py: `_set_trashed`, `remove`, `removedir`, `trash`, `_ancestors_of`,
-- `_trashed_items`, `_free_name`, `restore`).
use discord_sftp_drive.Base.{
  ℕ, zero, suc, ◌+◌, ◌/◌, ◌%◌, Str, str_eq, Bool, true, false, not, ◌&&◌, Option, none, some, List,
  [], ◌∷◌, ◌++◌, ltb, if◌then◌else◌, is_some, or_else, intercalate, length, is_empty,
}
use discord_sftp_drive.Exec.{
  Exec, ok, pure, fail, refuse, ◌>>=◌, ◌>>◌, unsupported, is_a_directory, not_a_directory,
  not_empty, already_exists,
}
use discord_sftp_drive.Model.{Node, Env, World}
use discord_sftp_drive.Store.{find_one, update_one, has_id, is_live_at}
use discord_sftp_drive.Path.{slash, rpartition}
use discord_sftp_drive.Vfs.Tags.{tag_version, node_mac, now, set_version}
use discord_sftp_drive.Vfs.Entries.{is_held}
use discord_sftp_drive.Vfs.Resolve.{live_children, require_node}

-- What `_ancestors_of` finds: where a node would come back to, and the first trashed directory
-- above it.
pub record Above : Type 0 where
  pub parent_path : Str
  pub blocked_by : Option Node

pub data OnConflict : Type 0 where
  refuse_it skip replace keep_both : OnConflict

pub record Restored : Type 0 where
  pub restored : Bool
  pub conflict : Bool
  pub path : Option Str

-- A decimal numeral of at most three digits: `f"{suffix}"` for a suffix below 1000.
unfoldable pub decimal : ℕ → Str
decimal n =
    if ltb n 10
    then (b'0' + n) ∷ []
    else if ltb n 100
    then (b'0' + n / 10) ∷ (b'0' + n % 10) ∷ []
    else (b'0' + n / 100) ∷ (b'0' + n / 10 % 10) ∷ (b'0' + n % 10) ∷ []

-- `f"{stem} ({suffix}){dot}{ext}"`
unfoldable pub numbered : Str → ℕ → Str
numbered name suffix =
    let tag = b' ' ∷ b'(' ∷ (decimal suffix ++ b')' ∷ []) in
    elim (rpartition b'.' name) [
      | none ↦ name ++ tag
      | some (stem, ext) ↦ stem ++ (tag ++ (b'.' ∷ ext))
    ]

module _ {C : Type 0} (env : Env C) where
  -- `_set_trashed`: the trash state and the tag over it move together; `none` is a restore.
  unfoldable pub set_trashed : Node → Option ℕ → Exec (World C) Node
  set_trashed n when' = do
    let moved = record n { trashed_at = when' }
    let mac = node_mac env moved
    update_one env n.id
        (λ stored. record stored { mac = mac; tag_version = tag_version; trashed_at = when' })
    λ w. (ok tt, if n.is_dir then w else set_version env n.id mac w)
    pure (record moved { mac = mac; tag_version = tag_version })

  -- `_free_name`: the first of `name (2)`, `name (3)`, … that no live sibling has.
  unfoldable pub free_name : ℕ → ℕ → Str → Str → Exec (World C) Str
  free_name zero suffix parent name = fail already_exists
  free_name (suc tries) suffix parent name = do
    clash ← find_one env (is_live_at parent (numbered name suffix))
    elim (is_some clash) [
      | false ↦ pure (numbered name suffix)
      | true ↦ free_name tries (suffix + 1) parent name
    ]

  module _ (root_id : Str) where
    -- The walk of `_ancestors_of`, with the segments so far, last first. It stops at a directory
    -- that it has seen, so it visits each document once: as many rounds as there are documents.
    unfoldable pub climb :
        ℕ → Option Str → List Str → List Str → Option Node → Exec (World C) (Option Above)
    climb zero current seen segs blocked = pure none
    climb (suc fuel) none seen segs blocked = pure none
    climb (suc fuel) (some []) seen segs blocked = pure none
    climb (suc fuel) (some (b ∷ bs)) seen segs blocked =
        let current = b ∷ bs in
        elim (is_held current seen) [
          | true ↦ pure none
          | false ↦ elim (str_eq current root_id) [
            | true ↦ pure (
                some (record {
                  parent_path = slash ∷ intercalate (slash ∷ []) segs;
                  blocked_by = blocked;
                }))
            | false ↦ do
              found ← find_one env (has_id current)
              elim found [
                | none ↦ pure none
                | some parent ↦
                    climb fuel parent.parent_id (current ∷ seen) (or_else parent.filename [] ∷ segs)
                      (if is_some parent.trashed_at && not (is_some blocked)
                        then some parent
                        else blocked)
              ]
          ]
        ]

    -- `_ancestors_of`
    unfoldable pub ancestors_of : Node → Exec (World C) (Option Above)
    ancestors_of n w = climb (suc (length w.nodes)) n.parent_id [] [] none w

    -- `remove`
    unfoldable pub remove_file : Str → Exec (World C) (Unit {0})
    remove_file path = do
      n ← require_node env root_id path
      refuse n.is_dir is_a_directory
      time ← now env
      set_trashed n (some time)
      pure tt

    -- `removedir`
    unfoldable pub remove_dir : Str → Exec (World C) (Unit {0})
    remove_dir path = do
      n ← require_node env root_id path
      refuse (not n.is_dir) not_a_directory
      refuse (str_eq n.id root_id) unsupported
      kids ← live_children env n.id
      refuse (not (is_empty kids)) not_empty
      time ← now env
      set_trashed n (some time)
      pure tt

    -- `trash`
    unfoldable pub trash : Str → Exec (World C) (Unit {0})
    trash path = do
      n ← require_node env root_id path
      refuse (str_eq n.id root_id) unsupported
      time ← now env
      set_trashed n (some time)
      pure tt
