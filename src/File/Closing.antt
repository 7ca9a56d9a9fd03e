-- ===== src/File/Closing.antt =====
-- Resizing, aborting and closing a handle (src/vfs.py: `set_metadata`, `truncate_to`, `abort`,
-- `close`), and `DiscordVFS.open`.
use discord_sftp_drive.Base.{
  Str, Bool, true, false, not, ◌&&◌, ◌||◌, Option, none, some, [], if◌then◌else◌, ℤ, is_empty,
  is_some, or_else,
}
use discord_sftp_drive.Exec.{
  Exec, ok, raise, pure, fail, catch, ◌>>=◌, ◌>>◌, unsupported, failed_state, is_a_directory,
  already_exists, not_found,
}
use discord_sftp_drive.Model.{Node, Env, World}
use discord_sftp_drive.Path.{normalize_path}
use discord_sftp_drive.Vfs.Chunks.{resize_node}
use discord_sftp_drive.Vfs.Resolve.{get_node}
use discord_sftp_drive.Vfs.Create.{Metadata, apply_metadata, create_file}
use discord_sftp_drive.Vfs.Overwrite.{begin_overwrite, finish_overwrite}
use discord_sftp_drive.File.Handle.{
  Handle, State, Target, on_world, on_file, reindex, sync, new_handle,
}
use discord_sftp_drive.File.Unwind.{rollback}
use discord_sftp_drive.File.Writing.{flush_buffer}

-- The flags of `open`.
pub record Flags : Type 0 where
  pub read : Bool
  pub write : Bool
  pub create : Bool
  pub truncate : Bool
  pub append : Bool
  pub exclusive : Bool

module _ {C : Type 0} (env : Env C) where
  -- `set_metadata` on a handle: the time that was asked for is pinned.
  unfoldable pub set_metadata : Metadata → Exec (State C) (Unit {0})
  set_metadata m s =
      (do
        n ← on_world (apply_metadata env m s.file.node)
        on_file (λ h. record h {
          node = n;
          pinned_mtime = if is_some m.mtime then m.mtime else h.pinned_mtime;
        }))
        s

  abbrev resize : ℤ → Exec (State C) (Unit {0})
  resize size s =
      (do
        n ← on_world (resize_node env s.file.node size)
        on_file (λ h. reindex (record h { node = n; cache = [] })))
        s

  -- `truncate_to`
  unfoldable pub truncate_to : ℤ → Exec (State C) (Unit {0})
  truncate_to size s =
      if not s.file.writable
      then (raise unsupported, s)
      else if s.file.failed
      then (raise failed_state, s)
      else (do sync env; flush_buffer env; resize size) s

  -- `abort`
  unfoldable pub abort : Exec (State C) (Unit {0})
  abort s =
      if s.file.closed
      then (ok tt, s)
      else let s' = record s { file = record s.file { closed = true } } in
        if not s.file.writable
        then (ok tt, s')
        else rollback env (record s' { file = record s'.file { buffer = [] } })

  -- The swap that makes an overwrite visible; failing it, nothing was committed.
  unfoldable pub swap_in : Option Target → Exec (State C) (Unit {0})
  swap_in none s = (ok tt, s)
  swap_in (some t) s =
      (do
        n ←
            catch (on_world (finish_overwrite env s.file.node t.parent_id t.filename))
              (λ e. do rollback env; fail e)
        on_file (λ h. record h { node = n }))
        s

  unfoldable pub sync_if_buffered : Exec (State C) (Unit {0})
  sync_if_buffered s = if is_empty s.file.buffer then (ok tt, s) else sync env s

  -- `close`
  unfoldable pub close : Exec (State C) (Unit {0})
  close s =
      if s.file.closed
      then (ok tt, s)
      else let s' = record s { file = record s.file { closed = true } } in
        if not s.file.writable || s.file.failed
        then (ok tt, s')
        else (do sync_if_buffered; flush_buffer env; swap_in s.file.replaces) s'

  module _ (root_id : Str) where
    -- The node that a handle opens: the one that is there, a new one, or a detached one.
    unfoldable pub open_node : Option Node → Flags → Str → Str → Exec (World C) Handle
    open_node none flags path uuid =
        if flags.write && flags.create
        then (do
          n ← create_file env root_id path uuid
          pure (new_handle n true flags.read flags.write flags.append none))
        else fail not_found
    open_node (some n) flags path uuid =
        if n.is_dir
        then fail is_a_directory
        else if flags.exclusive
        then fail already_exists
        else if flags.write && flags.truncate
        then (do
          incoming ← begin_overwrite env n uuid
          pure (
              new_handle incoming true flags.read flags.write flags.append (
                some (record {
                  parent_id = or_else n.parent_id [];
                  filename = or_else n.filename [];
                }))))
        else pure (new_handle n false flags.read flags.write flags.append none)

    -- `DiscordVFS.open`
    unfoldable pub open_file : Str → Flags → Str → Exec (World C) Handle
    open_file path flags uuid = do
      let normalized = normalize_path path
      found ← get_node env root_id normalized
      open_node found flags normalized uuid
