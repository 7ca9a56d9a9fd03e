-- ===== src/File/Unwind.antt =====
-- Giving up on a handle after a write failed (src/vfs.py: `_rollback`, `_tally_delete`,
-- `failure_tally`).
use discord_sftp_drive.Base.{
  ℕ, ◌+◌, Str, Bool, true, false, not, Option, none, some, List, [], ◌∷◌, ◌++◌, ◌&&◌, if◌then◌else◌,
  or_else, is_some,
}
use discord_sftp_drive.Exec.{Exec, ok, pure, catch, ◌>>=◌, ◌>>◌}
use discord_sftp_drive.Seal.{Bytes}
use discord_sftp_drive.Model.{Chunk, Node, Env, World}
use discord_sftp_drive.Store.{delete_one}
use discord_sftp_drive.Vfs.Tags.{forget_version}
use discord_sftp_drive.Vfs.Chunks.{safe_delete_message}
use discord_sftp_drive.Vfs.Entries.{stage_entries, promote}
use discord_sftp_drive.File.Handle.{Handle, State, on_world, on_file, reindex}

-- `_tally_delete`
unfoldable pub tally_delete : Bool → Handle → Handle
tally_delete true h = record h { attachments_released = h.attachments_released + 1 }
tally_delete false h = record h { orphans = h.orphans + 1 }

-- `failure_tally`
pub record Tally : Type 0 where
  pub chunks_uploaded : ℕ
  pub attachments_released : ℕ
  pub orphans : ℕ
  pub stale_node : Bool

unfoldable pub is_stale : Option Bool → Bool
is_stale none = false
is_stale (some removed) = not removed

unfoldable pub failure_tally : Handle → Tally
failure_tally h = record {
  chunks_uploaded = h.chunks_uploaded;
  attachments_released = h.attachments_released;
  orphans = h.orphans;
  stale_node = is_stale h.node_removed;
}

module _ {C : Type 0} (env : Env C) where
  -- Delete an attachment and count how that went.
  unfoldable pub release : ℕ → Exec (State C) (Unit {0})
  release m = do released ← on_world (safe_delete_message env m); on_file (tally_delete released)

  unfoldable pub release_all : List Chunk → Exec (State C) (Unit {0})
  release_all [] = pure tt
  release_all (c ∷ cs) = do release c.message_id; release_all cs

  -- The entries without this handle's node, staged in the parent; `none` if that failed.
  unfoldable pub stage_unlink : Option Str → Node → Exec (World C) (Option Bytes)
  stage_unlink none n = pure none
  stage_unlink (some parent) n =
      catch
        (do
          staged ← stage_entries env parent [] ((n.id, or_else n.filename []) ∷ [])
          pure (some staged))
        (λ e. pure none)

  abbrev promote_if : Option Str → Option Bytes → Exec (World C) (Unit {0})
  promote_if (some parent) (some staged) = promote env parent staged
  promote_if _ _ = pure tt

  -- The document goes, then the parent's staged tag is promoted.
  unfoldable pub delete_created : Node → Option Bytes → Exec (World C) (Unit {0})
  delete_created n staged = do
    delete_one env n.id
    λ w. (ok tt, forget_version n.id w)
    promote_if n.parent_id staged

  -- Whether the document could be removed is what the handle remembers.
  unfoldable pub unlink : Node → Option Bytes → Exec (State C) (Unit {0})
  unlink n staged =
      if is_some n.parent_id && not (is_some staged)
      then on_file (λ h. record h { node_removed = some false })
      else catch
          (do
            on_world (delete_created n staged)
            on_file (λ h. record h { node_removed = some true }))
          (λ e. on_file (λ h. record h { node_removed = some false }))

  -- Under the parent's lock. A parent whose tag could not be staged keeps the node, which is then
  -- stale: listed, with its attachments gone.
  unfoldable pub unwind_created : Exec (State C) (Unit {0})
  unwind_created s =
      let n = s.file.node in
      (do
        staged ← on_world (stage_unlink n.parent_id n)
        release_all n.chunks
        on_file (λ h. record h { node = record h.node { chunks = []; size = 0 } })
        unlink n staged
        on_file reindex)
        s

  abbrev parents : Option Str → List Str
  parents none = []
  parents (some p) = p ∷ []

  -- `_locked_dirs` around an action of a handle.
  abbrev with_parent : Option Str → Exec (State C) (Unit {0}) → Exec (State C) (Unit {0})
  with_parent parent m s =
      let held = s.world.held in
      let (r, t) = m (record s { world = record s.world { held = parents parent ++ held } }) in
      (r, record t { world = record t.world { held = held } })

  -- A file that this handle did not create is left at its last commit, and nothing is deleted.
  unfoldable pub rollback : Exec (State C) (Unit {0})
  rollback s =
      if s.file.failed
      then (ok tt, s)
      else let s' = record s { file = record s.file { failed = true } } in
        if s.file.created then with_parent s.file.node.parent_id unwind_created s' else (ok tt, s')
