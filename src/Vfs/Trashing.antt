-- ===== src/Vfs/Trashing.antt =====
-- Moving a node into the trash and out of it (src/vfs.py: `_set_trashed`).
use discord_sftp_drive.Base.{
  ℕ, ◌≡◌, refl, ap, ◌∙◌, Str, str_eq, str_eq_refl, Bool, true, false, Option, some, List, [], ◌∷◌,
  Bool-cases, inl, inr, if◌then◌else◌,
}
use discord_sftp_drive.Exec.{ok, Result-cases}
use discord_sftp_drive.Seal.{tag_matches}
use discord_sftp_drive.Model.{Node, Env, World}
use discord_sftp_drive.Store.{find_first, update_first, update_one, has_id}
use discord_sftp_drive.Vfs.Tags.{
  tag_version, node_mac, file_mac, dir_mac, file_shape, dir_shape, chunk_tags,
}
use discord_sftp_drive.Vfs.Trash.{set_trashed}
use discord_sftp_drive.Vfs.Crash.{update_one-ok}

find-update_found :
    (i : Str) (f : Node → Node) (ns : List Node) (n : Node)
    → ((m : Node) → (f m).id ≡ m.id)
    → find_first (has_id i) ns ≡ some n
    → find_first (has_id i) (update_first (has_id i) f ns) ≡ some (f n)
unfolding find_first update_first has_id
find-update_found i f [] n k h = cc
find-update_found i f (m ∷ ns) n k h = elim (Bool-cases (str_eq m.id i)) [
  | inl here ↦
      let hit : str_eq (f m).id i ≡ true = ap (λ x. str_eq x i) (k m) ∙ here in
      let same : m ≡ n = cc (rw here at h) in rw (here, hit) (ap (λ x. some (f x)) same)
  | inr there ↦ rw (there, there) (find-update_found i f ns n k (rw there at h))
]

module _ {C : Type 0} (env : Env C) where
  abbrev moved : Node → Option ℕ → Node
  moved n when' = record n { trashed_at = when' }

  abbrev retagged : Node → Option ℕ → Node → Node
  retagged n when' stored = record stored {
    mac = node_mac env (moved n when');
    tag_version = tag_version;
    trashed_at = when';
  }

  retagged-authentic :
      (n : Node) (when' : Option ℕ)
      → tag_matches (retagged n when' n).mac (node_mac env (retagged n when' n)) ≡ true
  unfolding node_mac file_mac dir_mac file_shape dir_shape chunk_tags tag_matches
  retagged-authentic n when' = str_eq_refl (node_mac env (moved n when'))

  same_nodes : (b : Bool) (u v : World C) → v.nodes ≡ u.nodes → (if b then u else v).nodes ≡ u.nodes
  same_nodes true u v e = refl
  same_nodes false u v e = e

  set_trashed-result :
      (n m : Node) (when' : Option ℕ) (w : World C)
      → (set_trashed env n when' w).0 ≡ ok m
      → ((update_one env n.id (retagged n when') w).0 ≡ ok tt)
        × (m ≡ retagged n when' n)
        × ((set_trashed env n when' w).1.nodes ≡ (update_one env n.id (retagged n when') w).1.nodes)
  unfolding set_trashed
  set_trashed-result n m when' w h =
      elim (Result-cases (update_one env n.id (retagged n when') w).0) [
        | inr (e, bad) ↦ cc (rw (set_trashed, bad) at h)
        | inl (u, good) ↦
            let same : m ≡ retagged n when' n = cc (rw (set_trashed, good) at h) in
            (
              good,
              same,
              rw (set_trashed, good)
                  (same_nodes n.is_dir (update_one env n.id (retagged n when') w).1 _ refl),
            )
      ]

  -- If a move into the trash, or out of it, succeeds on a node as it is stored, then what is stored
  -- under its id is the node that comes back, its trash state is the new one, and its tag covers it.
  pub set_trashed-verifies :
      (n m : Node) (when' : Option ℕ) (w : World C)
      → find_first (has_id n.id) w.nodes ≡ some n
      → (set_trashed env n when' w).0 ≡ ok m
      → (find_first (has_id n.id) (set_trashed env n when' w).1.nodes ≡ some m)
        × (m.trashed_at ≡ when')
        × (tag_matches m.mac (node_mac env m) ≡ true)
  set_trashed-verifies n m when' w stored h =
      let (good, same, nodes) = set_trashed-result n m when' w h in
      let written = update_one-ok env n.id (retagged n when') w tt good in
      (
        nodes' nodes written same stored,
        ap (λ x. x.trashed_at) same,
        rw same (retagged-authentic n when'),
      )
    where
      nodes' :
          {after mid : List Node}
          → after ≡ mid
          → mid ≡ update_first (has_id n.id) (retagged n when') w.nodes
          → m ≡ retagged n when' n
          → find_first (has_id n.id) w.nodes ≡ some n
          → find_first (has_id n.id) after ≡ some m
      nodes' e e' same stored =
          rw (e, e', same) (find-update_found n.id (retagged n when') w.nodes n (λ x. refl) stored)
