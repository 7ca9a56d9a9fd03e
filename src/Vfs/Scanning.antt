-- ===== src/Vfs/Scanning.antt =====
-- What the scan of one directory adds to a search (src/vfs.py: `DiscordVFS.search`).
use discord_sftp_drive.Base.{
  ℕ, suc, ◌+◌, ◌≤◌, ◌≡◌, refl, sym, ap, ◌⊎◌, inl, inr, Str, true, false, ◌&&◌, List, [], ◌∷◌, ◌++◌,
  arith, length, length-append, All, All-append, Bool-cases, ltb, leb, if◌then◌else◌,
}
use mathlib.Core.List.{append_assoc, append-nil}
use discord_sftp_drive.Model.{Node, Env}
use discord_sftp_drive.Vfs.Search.{Hit, Progress, contains, path_of, hit, is_wanted, visit, scan}

-- The children of a directory with their paths, and those to look into.
unfoldable pub visits : Str → List Node → List (Str × Node)
visits prefix [] = []
visits prefix (n ∷ ns) = (prefix, n) ∷ visits prefix ns

unfoldable pub below : Str → List Node → List (Node × Str)
below prefix [] = []
below prefix (n ∷ ns) =
    let rest = below prefix ns in if n.is_dir then (n, path_of prefix n) ∷ rest else rest

pub length-visits : (prefix : Str) (ns : List Node) → length (visits prefix ns) ≡ length ns
unfolding visits
length-visits prefix [] = refl
length-visits prefix (n ∷ ns) = ap suc (length-visits prefix ns)

pub length-below : (prefix : Str) (ns : List Node) → length (below prefix ns) ≤ length ns
unfolding below
length-below prefix [] = omega arith
length-below prefix (n ∷ ns) = ground (arith, length-below prefix ns)

module _ {C : Type 0} (env : Env C) where
  module _ (wanted : Str) where
    -- The nodes whose names hold the word, as they are reported.
    unfoldable pub hits : List (Str × Node) → List Hit
    hits [] = []
    hits ((prefix, n) ∷ vs) =
        let rest = hits vs in if is_wanted env wanted n then hit prefix n ∷ rest else rest

    -- A report of a name that holds the word.
    abbrev pub IsHit : Hit → Type 0
    IsHit h = contains wanted (env.casefold h.name) ≡ true

    pub hits-All : (vs : List (Str × Node)) → All IsHit (hits vs)
    unfolding hits is_wanted hit
    hits-All [] = tt
    hits-All ((prefix, n) ∷ vs) = elim (Bool-cases (is_wanted env wanted n)) [
      | inl holds ↦ rw (hits, holds) (holds, hits-All vs)
      | inr lacks ↦ rw (hits, lacks) (hits-All vs)
    ]

    visit-All :
        (prefix : Str) (n : Node) (p : Progress)
        → All IsHit p.results
        → All IsHit (visit env wanted prefix n p).results
    unfolding visit is_wanted hit
    visit-All prefix n p sound = elim (Bool-cases (is_wanted env wanted n)) [
      | inl holds ↦
          rw (visit, holds) (All-append IsHit p.results (hit prefix n ∷ []) sound (holds, tt))
      | inr lacks ↦ rw (visit, lacks) sound
    ]

    pub hits-append : (us vs : List (Str × Node)) → hits (us ++ vs) ≡ hits us ++ hits vs
    unfolding hits
    hits-append [] vs = refl
    hits-append ((prefix, n) ∷ us) vs = elim (Bool-cases (is_wanted env wanted n)) [
      | inl holds ↦ rw (hits, holds, hits-append us vs) refl
      | inr lacks ↦ rw (hits, lacks, hits-append us vs) refl
    ]

    module _ (limit max_nodes : ℕ) where
      -- A directory was scanned to its end.
      abbrev pub Grown : Str → List Node → Progress → Progress → Type 0
      Grown prefix ns p s =
          (s.truncated ≡ false)
          × (s.results ≡ p.results ++ hits (visits prefix ns))
          × (s.scanned ≡ p.scanned + length ns)
          × (s.queue ≡ p.queue ++ below prefix ns)
          × (s.scanned ≤ max_nodes)
          × (length s.results ≤ limit)

      -- The walk stopped at one of its ceilings, and says so.
      abbrev pub Stopped : Progress → Type 0
      Stopped s =
          (s.truncated ≡ true)
          × All IsHit s.results
          × (length s.results ≤ limit)
          × (s.scanned ≤ suc max_nodes)
          × ((length s.results ≡ limit) ⊎ (s.scanned ≡ suc max_nodes))

      visit-Grown :
          (prefix : Str) (n : Node) (ns : List Node) (p s : Progress)
          → Grown prefix ns (visit env wanted prefix n (record p { scanned = p.scanned + 1 })) s
          → Grown prefix (n ∷ ns) p s
      unfolding visit hits visits below
      visit-Grown prefix n ns p s (open', found, count, queue, few, fits) = (
        open',
        elim (Bool-cases (is_wanted env wanted n)) [
          | inl holds ↦
              ground (arith, append_assoc p.results (hit prefix n ∷ []) (hits (visits prefix ns)))
          | inr lacks ↦ ground arith
        ],
        omega arith,
        elim (Bool-cases n.is_dir) [
          | inl inner ↦
              ground (arith, append_assoc p.queue ((n, path_of prefix n) ∷ []) (below prefix ns))
          | inr leaf ↦ ground arith
        ],
        few,
        fits,
      )

      pub scan-Scanned :
          (prefix : Str) (ns : List Node) (p : Progress)
          → p.truncated ≡ false
          → p.scanned ≤ max_nodes
          → length p.results ≤ limit
          → All IsHit p.results
          → (let s = scan env wanted limit max_nodes prefix ns p in Grown prefix ns p s ⊎ Stopped s)
      unfolding scan hits visits below visit
      scan-Scanned prefix [] p open' few fits sound =
          inl (open', sym (append-nil p.results), omega arith, sym (append-nil p.queue), few, fits)
      scan-Scanned prefix (n ∷ ns) p open' few fits sound =
          let p' : Progress = record p { scanned = p.scanned + 1 } in
          elim (Bool-cases (ltb max_nodes (p.scanned + 1))) [
            | inl many ↦ rw many (inr (refl, sound, fits, omega arith, inr (ground (arith))))
            | inr room ↦
                elim (Bool-cases (is_wanted env wanted n && leb limit (length p.results))) [
                  | inl full ↦
                      rw (room, full) (inr (refl, sound, fits, omega arith, inl (ground arith)))
                  | inr more ↦
                      rw (room, more)
                        (elim (scan-Scanned prefix ns (visit env wanted prefix n p') open'
                          (ground arith)
                          (ground (arith, length-append p.results (hit prefix n ∷ [])))
                          (visit-All prefix n p' sound)) [
                            | inl grown ↦ inl (visit-Grown prefix n ns p _ grown)
                            | inr stopped ↦ inr stopped
                          ])
                ]
          ]
