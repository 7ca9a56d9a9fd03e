-- ===== src/Vfs/Purge.antt =====
-- Destroying what is in the trash (src/vfs.py: `_subtree`, `purge_cost`, `purge`,
-- `purge_expired`).
use discord_sftp_drive.Base.{
  ℕ, zero, suc, ◌+◌, ◌-◌, Str, str_eq, Bool, true, false, not, ◌&&◌, none, some, List, [], ◌∷◌,
  ◌++◌, ltb, leb, if◌then◌else◌, is_some, or_else, length, take,
}
use discord_sftp_drive.Exec.{Exec, ok, pure, fail, refuse, ◌>>=◌, ◌>>◌, not_found, unsupported}
use discord_sftp_drive.Model.{Chunk, Node, Env, World}
use discord_sftp_drive.Store.{delete_one}
use discord_sftp_drive.Vfs.Tags.{now, forget_version}
use discord_sftp_drive.Vfs.Chunks.{safe_delete_message}
use discord_sftp_drive.Vfs.Entries.{is_held, locked_dirs, children, stage_entries, promote}
use discord_sftp_drive.Vfs.Resolve.{get_node_by_id}
use discord_sftp_drive.Vfs.Trash.{ancestors_of}
use discord_sftp_drive.Vfs.Restore.{Item, trashed_items}

pub record Cost : Type 0 where
  pub nodes : ℕ
  pub attachments : ℕ

pub record Purged : Type 0 where
  pub nodes : ℕ
  pub attachments : ℕ
  pub cancelled : Bool

-- The children that were not seen yet, and all that are now.
unfoldable pub unseen : List Node → List Str → List Node × List Str
unseen [] seen = ([], seen)
unseen (n ∷ ns) seen =
    let (fresh, seen') = unseen ns (if is_held n.id seen then seen else n.id ∷ seen) in
    (if is_held n.id seen then fresh else n ∷ fresh, seen')

-- The chunks of the files among some nodes, in order.
unfoldable pub attachments_of : List Node → List Chunk
attachments_of [] = []
attachments_of (n ∷ ns) = (if n.is_dir then [] else n.chunks) ++ attachments_of ns

module _ {C : Type 0} (env : Env C) where
  -- One level of `_subtree`.
  unfoldable pub expand : List Node → List Str → Exec (World C) (List Node × List Str)
  expand [] seen = pure ([], seen)
  expand (n ∷ ns) seen =
      if n.is_dir
      then (do
        kids ← children env n.id
        (fresh, seen') ← pure (unseen kids seen)
        (rest, seen'') ← expand ns seen'
        pure (fresh ++ rest, seen''))
      else expand ns seen

  -- The loop of `_subtree`: every level that goes on has seen another document.
  unfoldable pub levels : ℕ → List Node → List Str → Exec (World C) (List Node)
  levels zero frontier seen = pure []
  levels (suc fuel) [] seen = pure []
  levels (suc fuel) (n ∷ ns) seen = do
    (following, seen') ← expand (n ∷ ns) seen
    deeper ← levels fuel following seen'
    pure (following ++ deeper)

  -- `_subtree`: the node and all below it, parents before children.
  unfoldable pub subtree : Node → Exec (World C) (List Node)
  subtree n w = (do below ← levels (suc (length w.nodes)) (n ∷ []) (n.id ∷ []); pure (n ∷ below)) w

  -- `purge_cost`
  unfoldable pub purge_cost : Str → Exec (World C) Cost
  purge_cost node_id = do
    found ← get_node_by_id env node_id
    elim found [
      | none ↦ fail not_found
      | some n ↦ do
        members ← subtree n
        pure (record { nodes = length members; attachments = length (attachments_of members) })
    ]

  -- The first loop of `purge`: `cancelled` is asked before each attachment, with the number that
  -- is gone. The number destroyed, and whether it stopped early.
  unfoldable pub destroy_attachments : (ℕ → Bool) → ℕ → List Chunk → Exec (World C) (ℕ × Bool)
  destroy_attachments cancelled done [] = pure (done, false)
  destroy_attachments cancelled done (c ∷ cs) = elim (cancelled done) [
    | true ↦ pure (done, true)
    | false ↦ do safe_delete_message env c.message_id; destroy_attachments cancelled (done + 1) cs
  ]

  -- The second loop: the documents.
  unfoldable pub destroy_documents : List Node → Exec (World C) (Unit {0})
  destroy_documents [] = pure tt
  destroy_documents (n ∷ ns) = do
    delete_one env n.id
    λ w. (ok tt, forget_version n.id w)
    destroy_documents ns

  -- The body of `purge` under the parent's lock.
  unfoldable pub destroy : (ℕ → Bool) → Node → Str → Exec (World C) Purged
  destroy cancelled n parent = do
    members ← subtree n
    staged ← stage_entries env parent [] ((n.id, or_else n.filename []) ∷ [])
    (gone, stopped) ← destroy_attachments cancelled 0 (attachments_of members)
    if stopped then pure (record { nodes = 0; attachments = gone; cancelled = true }) else do
      destroy_documents members
      promote env parent staged
      pure (record { nodes = length members; attachments = gone; cancelled = false })

  module _ (root_id : Str) where
    -- `purge`
    unfoldable pub purge : (ℕ → Bool) → Str → Exec (World C) Purged
    purge cancelled node_id = do
      found ← get_node_by_id env node_id
      elim found [
        | none ↦ fail not_found
        | some n ↦ do
          refuse (not (is_some n.trashed_at)) unsupported
          refuse (str_eq n.id root_id) unsupported
          above ← ancestors_of env root_id n
          refuse (not (is_some above)) not_found
          locked_dirs env (or_else n.parent_id [] ∷ [])
              (destroy cancelled n (or_else n.parent_id []))
      ]

    -- The loop of `purge_expired`.
    unfoldable pub purge_items : List Item → Exec (World C) (ℕ × ℕ)
    purge_items [] = pure (0, 0)
    purge_items (item ∷ items) = do
      result ← purge (λ _. false) item.node.id
      (purged, attachments) ← purge_items items
      pure (purged + 1, result.attachments + attachments)

    -- `purge_expired`: how many entries and attachments went, and how many entries are left.
    unfoldable pub purge_expired : ℕ → ℕ → Exec (World C) (ℕ × ℕ × ℕ)
    purge_expired retention limit = do
      time ← now env
      due ←
          trashed_items env root_id
            (λ n. ltb 0 (or_else n.trashed_at 0) && leb (or_else n.trashed_at 0 + retention) time)
      (purged, attachments) ← purge_items (take limit due)
      pure (purged, attachments, length due - purged)
