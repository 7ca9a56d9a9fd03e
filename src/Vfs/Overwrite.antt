-- ===== src/Vfs/Overwrite.antt =====
-- Overwriting beside the old file (src/vfs.py: `_begin_overwrite`, `_finish_overwrite`,
-- `sweep_incoming`).
use discord_sftp_drive.Base.{
  ℕ, zero, suc, ◌+◌, Str, str_eq, Bool, true, false, not, ◌&&◌, Option, none, some, List, [], ◌∷◌,
  ltb, if◌then◌else◌, is_some, length,
}
use discord_sftp_drive.Exec.{
  Exec, Result, ok, raise, pure, fail, ◌>>=◌, ◌>>◌, is_a_directory, integrity,
}
use discord_sftp_drive.Model.{Node, Env, World}
use discord_sftp_drive.Store.{find_one, find, insert_one, update_one, delete_one, is_live_at}
use discord_sftp_drive.Vfs.Tags.{
  tag_version, file_mac, verify_node, now, set_version, forget_version,
}
use discord_sftp_drive.Vfs.Chunks.{delete_messages}
use discord_sftp_drive.Vfs.Entries.{locked_dirs, stage_entries, promote}
use discord_sftp_drive.Vfs.Trash.{set_trashed}
use discord_sftp_drive.Vfs.Create.{new_file}

-- A file in no directory.
unfoldable pub is_detached : Node → Bool
is_detached n = not (is_some n.parent_id) && not n.is_dir

abbrev pub verified : {S A : Type 0} → Result A → Exec S Bool
verified (ok a) s = (ok true, s)
verified (raise integrity) s = (ok false, s)
verified (raise e) s = (raise e, s)

module _ {C : Type 0} (env : Env C) where
  -- `_begin_overwrite`: a detached node with the old one's mode and time of creation.
  unfoldable pub begin_overwrite : Node → Str → Exec (World C) Node
  begin_overwrite old uuid = do
    time ← now env
    let n = new_file env uuid none none old.permissions old.created_at time
    insert_one env n
    λ w. (ok tt, set_version env n.id n.mac w)
    pure n

  -- Whoever has the name goes to the trash; a directory refuses.
  unfoldable pub displace : Str → Option Node → Exec (World C) (Unit {0})
  displace incoming none = pure tt
  displace incoming (some occupant) =
      if str_eq occupant.id incoming
      then pure tt
      else if occupant.is_dir
      then fail is_a_directory
      else (do v ← verify_node env occupant; time ← now env; set_trashed env v (some time); pure tt)

  -- The incoming node takes the name.
  unfoldable pub attach : Node → Str → Str → Exec (World C) Node
  attach incoming parent name = do
    let attached = record incoming { parent_id = some parent; filename = some name }
    let mac = file_mac env attached
    update_one env incoming.id (λ stored. record stored {
      parent_id = some parent;
      filename = some name;
      mac = mac;
      tag_version = tag_version;
    })
    λ w. (ok tt, set_version env incoming.id mac w)
    pure (record attached { mac = mac; tag_version = tag_version })

  -- `_finish_overwrite`
  unfoldable pub finish_overwrite : Node → Str → Str → Exec (World C) Node
  finish_overwrite incoming parent name = locked_dirs env (parent ∷ []) (do
    occupant ← find_one env (is_live_at parent name)
    displace incoming.id occupant
    staged ← stage_entries env parent ((incoming.id, name) ∷ []) []
    n ← attach incoming parent name
    promote env parent staged
    pure n)

  -- One detached node of `sweep_incoming`: whether it was old, verified, and so collected.
  unfoldable pub sweep_one : ℕ → ℕ → Node → Exec (World C) Bool
  sweep_one time max_age n w =
      if ltb time (n.modified_at + max_age)
      then (ok false, w)
      else (do
        good ← (λ u. let (r, u') = verify_node env n u in verified r u')
        if good
            then (do
              delete_messages env n.chunks
              delete_one env n.id
              λ u. (ok tt, forget_version n.id u)
              pure true)
            else pure false)
          w

  -- The loop: how many nodes and attachments went.
  unfoldable pub sweep_loop : ℕ → ℕ → ℕ → List Node → Exec (World C) (ℕ × ℕ)
  sweep_loop time max_age zero ns = pure (0, 0)
  sweep_loop time max_age (suc limit) [] = pure (0, 0)
  sweep_loop time max_age (suc limit) (n ∷ ns) = do
    gone ← sweep_one time max_age n
    (swept, attachments) ← sweep_loop time max_age (if gone then limit else suc limit) ns
    pure (if gone then (swept + 1, length n.chunks + attachments) else (swept, attachments))

  -- `sweep_incoming`
  unfoldable pub sweep_incoming : ℕ → ℕ → Exec (World C) (ℕ × ℕ)
  sweep_incoming max_age limit = do
    time ← now env
    detached ← find env is_detached
    sweep_loop time max_age limit detached
