-- ===== src/Vfs/Searching.antt =====
-- What a search reports, and that it ends (src/vfs.py: `DiscordVFS.search`).
use discord_sftp_drive.Base.{
  ℕ, zero, suc, ◌+◌, ◌-◌, ◌≤◌, ◌<◌, ◌≡◌, refl, sym, ◌⊎◌, inl, inr, Str, false, Option, none, some,
  List, [], ◌∷◌, ◌++◌, arith, length, length-append, All, All-append, is_empty,
}
use mathlib.Core.Path.{subst}
use mathlib.Core.List.{append_assoc, append-nil}
use discord_sftp_drive.Exec.{Exec, Result, Result-cases, ok, raise, pure, continue, ◌>>=◌}
use discord_sftp_drive.Model.{Node, Env, World}
use discord_sftp_drive.Vfs.Resolve.{list_entries, require_node}
use discord_sftp_drive.Vfs.Search.{Hit, Progress, scan, search_loop, nothing_scanned, search}
use discord_sftp_drive.Vfs.Scanning.{
  IsHit, hits-All, visits, below, length-visits, length-below, hits, hits-append, Stopped,
  scan-Scanned,
}

queue-cases :
    (q : List (Node × Str))
    → (q ≡ [])
      ⊎ ((n : Node) × (prefix : Str) × (rest : List (Node × Str)) × (q ≡ (n, prefix) ∷ rest))
queue-cases [] = inl refl
queue-cases ((n, prefix) ∷ rest) = inr (n, prefix, rest, refl)

module _ {C : Type 0} (env : Env C) where
  unfoldable pub with_visits :
      List (Str × Node) → Option (List (Str × Node)) → Exec (World C) (Option (List (Str × Node)))
  with_visits us none = pure none
  with_visits us (some vs) = pure (some (us ++ vs))

  -- The walk without its ceilings: every node under those of the queue, level by level.
  unfoldable pub walk_all : ℕ → List (Node × Str) → Exec (World C) (Option (List (Str × Node)))
  walk_all zero queue = pure none
  walk_all (suc rounds) [] = pure (some [])
  walk_all (suc rounds) ((node, prefix) ∷ rest) = do
    children ← list_entries env node
    later ← walk_all rounds (rest ++ below prefix children)
    with_visits (visits prefix children) later

  module _ (wanted : Str) (limit max_nodes : ℕ) where
    -- The walk without ceilings ends as well, and what it meets is all that is counted and held
    -- against the word.
    abbrev pub Complete :
        List Hit → ℕ → Result (Option (List (Str × Node))) × World C → Progress → World C → Type 0
    Complete before count walked s w' =
        (vs : List (Str × Node)) × (walked ≡ (ok (some vs), w'))
        × (s.truncated ≡ false)
        × (s.results ≡ before ++ hits env wanted vs)
        × (s.scanned ≡ count + length vs)
        × (length s.results ≤ limit)
        × (s.scanned ≤ max_nodes)

    -- What comes of a search beside the walk without ceilings.
    abbrev pub Searched :
        List Hit
        → ℕ
        → Result (Option (List (Str × Node))) × World C
        → Result (Option Progress)
        → World C
        → Type 0
    Searched before count walked (raise e) w' = walked ≡ (raise e, w')
    Searched before count walked (ok none) w' = ⊥
    Searched before count walked (ok (some s)) w' =
        Stopped env wanted limit max_nodes s ⊎ Complete before count walked s w'

    Stopped-ends :
        (rounds : ℕ) (s : Progress) (w : World C)
        → 0 < rounds
        → Stopped env wanted limit max_nodes s
        → search_loop env wanted limit max_nodes rounds s w ≡ (ok (some s), w)
    unfolding search_loop
    Stopped-ends zero s w lt stopped = absurd (omega arith)
    Stopped-ends (suc rounds) s w lt stopped = ground (arith, stopped.0)

    -- Past one more directory.
    Searched-with :
        (p s : Progress) (us : List (Str × Node))
        → s.results ≡ p.results ++ hits env wanted us
        → s.scanned ≡ p.scanned + length us
        → (walked : Result (Option (List (Str × Node))) × World C)
        → (r : Result (Option Progress)) (w' : World C) → Searched s.results s.scanned walked r w'
        → Searched p.results p.scanned (continue walked.0 (with_visits us) walked.1) r w'
    unfolding with_visits
    Searched-with p s us found count walked (raise e) w' h = rw h refl
    Searched-with p s us found count walked (ok none) w' h = h
    Searched-with p s us found count walked (ok (some t)) w' (inl stopped) = inl stopped
    Searched-with p s us found count walked (ok (some t)) w'
          (inr (vs, e, open', found', count', fits, few)) =
        inr (
          us ++ vs,
          rw e refl,
          open',
          ground (
            arith,
            append_assoc p.results (hits env wanted us) (hits env wanted vs),
            hits-append env wanted us vs,
          ),
          omega (arith, length-append us vs),
          fits,
          few,
        )

    Searched-queue :
        (rounds : ℕ) (s : Progress) (q : List (Node × Str)) (w : World C)
        → (r : Result (Option Progress)) (w' : World C) → s.queue ≡ q
        → Searched s.results s.scanned (walk_all rounds s.queue w) r w'
        → Searched s.results s.scanned (walk_all rounds q w) r w'
    Searched-queue rounds s q w r w' e h =
        subst (λ x. Searched s.results s.scanned (walk_all rounds x w) r w') e h

    search_loop-Searched :
        (rounds : ℕ) (p : Progress) (w : World C)
        → p.truncated ≡ false
        → p.scanned ≤ max_nodes
        → length p.results ≤ limit
        → All (IsHit env wanted) p.results
        → (max_nodes - p.scanned) + length p.queue < rounds
        → (let (r, w') = search_loop env wanted limit max_nodes rounds p w in
            Searched p.results p.scanned (walk_all rounds p.queue w) r w')
    unfolding search_loop walk_all hits
    search_loop-Searched zero p w open' few fits sound fuel = absurd (omega arith)
    search_loop-Searched (suc rounds) p w open' few fits sound fuel = elim (queue-cases p.queue) [
      | inl done ↦
          rw (search_loop, open', done)
            (inr ([], refl, open', sym (append-nil p.results), omega arith, fits, few))
      | inr (node, prefix, rest, next) ↦
          let lw = list_entries env node w in
          elim (Result-cases lw.0) [
            | inr (e, bad) ↦ rw (search_loop, walk_all, open', next, bad) refl
            | inl (ns, listed) ↦
                let p1 : Progress = record p { queue = rest } in
                let s = scan env wanted limit max_nodes prefix ns p1 in
                rw (search_loop, walk_all, open', next, listed)
                  (elim (scan-Scanned env wanted limit max_nodes prefix ns p1 open' few fits
                    sound) [
                      | inl (opened, found, count, queue, few', fits') ↦
                          let us = visits prefix ns in
                          let sum = length-visits prefix ns in
                          let width = length-append rest (below prefix ns) in
                          let narrow = length-below prefix ns in
                          let tail : length p.queue ≡ suc (length rest) = rw next refl in
                          let walk =
                            search_loop-Searched rounds s lw.1 opened few' fits'
                              (rw found (
                                All-append (IsHit env wanted) p.results (hits env wanted us) sound
                                  (hits-All env wanted us)))
                              (rw queue (omega arith)) in
                          let (r, w') = search_loop env wanted limit max_nodes rounds s lw.1 in
                          Searched-with p s (visits prefix ns) found (omega arith)
                            (walk_all rounds (rest ++ below prefix ns) lw.1) r w'
                            (Searched-queue rounds s (rest ++ below prefix ns) lw.1 r w' queue walk)
                      | inr stopped ↦
                          let tail : length p.queue ≡ suc (length rest) = rw next refl in
                          rw (Stopped-ends rounds s lw.1 (omega arith) stopped) (inl stopped)
                    ])
          ]
    ]

  -- From a root that verifies, and for a word that is not blank, a search ends: within the rounds
  -- that it is given it raises, as the walk without ceilings does, or it reports. A report has at
  -- most `limit` results, whose names hold the word, and at most one node more than `max_nodes` was
  -- scanned; either it says that it is truncated, and then has exactly `limit` results or went past
  -- `max_nodes`, or it has every node whose name holds the word that the walk without ceilings
  -- meets, in its order.
  pub search-Searched :
      (root_id needle : Str) (limit max_nodes : ℕ) (w w1 : World C) (root : Node)
      → is_empty (env.casefold (env.strip needle)) ≡ false
      → require_node env root_id (b'/' ∷ []) w ≡ (ok root, w1)
      → (let (r, w') = search env root_id needle limit max_nodes w in
          Searched
            (env.casefold (env.strip needle))
            limit
            max_nodes
            []
            0
            (walk_all (max_nodes + 2) ((root, []) ∷ []) w1)
            r
            w')
  unfolding search
  search-Searched root_id needle limit max_nodes w w1 root given rooted =
      rw (search, given, rooted)
        (search_loop-Searched (env.casefold (env.strip needle)) limit max_nodes (max_nodes + 2)
          (record nothing_scanned { queue = (root, []) ∷ [] }) w1 refl (omega arith) (omega arith)
          tt (omega arith))
