-- ===== src/Vfs/Search.antt =====
-- Searching by name (src/vfs.py: `DiscordVFS.search`): a walk by levels, with two ceilings.
use discord_sftp_drive.Base.{
  ℕ, zero, suc, ◌+◌, Str, Bool, true, false, Option, none, some, ◌&&◌, List, [], ◌∷◌, ◌++◌, ◌==◌,
  ltb, leb, if◌then◌else◌, is_empty, or_else, length,
}
use discord_sftp_drive.Exec.{Exec, pure, ◌>>=◌}
use discord_sftp_drive.Model.{Node, Env, World}
use discord_sftp_drive.Vfs.Resolve.{list_entries, require_node}
use discord_sftp_drive.Vfs.Move.{starts_with}

-- What is reported of a node.
pub record Hit : Type 0 where
  pub path : Str
  pub name : Str
  pub is_dir : Bool
  pub size : ℕ
  pub modified_at : ℕ
  pub permissions : ℕ

-- The variables of the walk.
pub record Progress : Type 0 where
  pub results : List Hit
  pub scanned : ℕ
  pub truncated : Bool
  pub queue : List (Node × Str)

-- `wanted in text`
unfoldable pub contains : Str → Str → Bool
contains wanted [] = is_empty wanted
contains wanted (c ∷ cs) =
    let later = contains wanted cs in if starts_with wanted (c ∷ cs) then true else later

abbrev pub name_of : Node → Str
name_of n = or_else n.filename []

-- `f"{prefix}/{name}"`
abbrev pub path_of : Str → Node → Str
path_of prefix n = prefix ++ (b'/' ∷ name_of n)

unfoldable pub hit : Str → Node → Hit
hit prefix n = record {
  path = path_of prefix n;
  name = name_of n;
  is_dir = n.is_dir;
  size = n.size;
  modified_at = if n.modified_at == 0 then n.created_at else n.modified_at;
  permissions = n.permissions;
}

module _ {C : Type 0} (env : Env C) (wanted : Str) where
  unfoldable pub is_wanted : Node → Bool
  is_wanted n = contains wanted (env.casefold (name_of n))

  unfoldable pub visit : Str → Node → Progress → Progress
  visit prefix n p = record p {
    results = if is_wanted n then p.results ++ (hit prefix n ∷ []) else p.results;
    queue = if n.is_dir then p.queue ++ ((n, path_of prefix n) ∷ []) else p.queue;
  }

  module _ (limit max_nodes : ℕ) where
    -- `for child in await self.entries_of(node)`
    unfoldable pub scan : Str → List Node → Progress → Progress
    scan prefix [] p = p
    scan prefix (n ∷ ns) p =
        let p' = record p { scanned = p.scanned + 1 } in
        let later = scan prefix ns (visit prefix n p') in
        if ltb max_nodes p'.scanned
        then record p' { truncated = true }
        else if is_wanted n && leb limit (length p.results)
        then record p' { truncated = true }
        else later

    -- `while queue and not truncated`, in as many rounds as given; `none` is one too few.
    unfoldable pub search_loop : ℕ → Progress → Exec (World C) (Option Progress)
    search_loop zero p = pure none
    search_loop (suc rounds) p = if p.truncated then pure (some p) else elim p.queue [
      | [] ↦ pure (some p)
      | (node, prefix) ∷ rest ↦ do
        children ← list_entries env node
        search_loop rounds (scan prefix children (record p { queue = rest }))
    ]

abbrev pub nothing_scanned : Progress
nothing_scanned = record { results = []; scanned = 0; truncated = false; queue = [] }

-- `search`
unfoldable pub search : {C : Type 0} → Env C → Str → Str → ℕ → ℕ → Exec (World C) (Option Progress)
search env root_id needle limit max_nodes =
    let wanted = env.casefold (env.strip needle) in
    if is_empty wanted then pure (some nothing_scanned) else (do
      root ← require_node env root_id (b'/' ∷ [])
      search_loop env wanted limit max_nodes (max_nodes + 2)
          (record nothing_scanned { queue = (root, []) ∷ [] }))
