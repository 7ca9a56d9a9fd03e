-- ===== src/Vfs/Lookups.antt =====
-- What path resolution (src/vfs.py: `get_node`, `_verify_node`) can return.
use discord_sftp_drive.Base.{
  ◌≡◌, refl, Str, Bool, true, Option, none, some, List, [], ◌∷◌, arith, Bool-cases, inl, inr,
}
use discord_sftp_drive.Exec.{ok, Result-cases}
use discord_sftp_drive.Seal.{tag_matches}
use discord_sftp_drive.Model.{Node, Env, World}
use discord_sftp_drive.Store.{find_first, find_one, is_live_at, is_live}
use discord_sftp_drive.Vfs.Tags.{verify_node, node_mac}
use discord_sftp_drive.Vfs.Resolve.{verify_found, walk, get_node, get_node_by_id}
use discord_sftp_drive.Path.{walk_parts}

find_first-holds :
    (p : Node → Bool) (ns : List Node) (n : Node) → find_first p ns ≡ some n → p n ≡ true
unfolding find_first
find_first-holds p [] n h = cc
find_first-holds p (m ∷ ns) n h = elim (Bool-cases (p m)) [
  | inl here ↦ let same : m ≡ n = cc (rw here at h) in rw (← same) here
  | inr there ↦ find_first-holds p ns n (rw there at h)
]

module _ {C : Type 0} (env : Env C) where
  -- A node that nobody trashed, and whose tag is the one of its document.
  pub record IsGood (n : Node) : Type 0 where
    pub live : is_live n ≡ true
    pub authentic : tag_matches n.mac (node_mac env n) ≡ true

  abbrev AllGood : Option Node → Type 0
  AllGood none = Unit
  AllGood (some n) = IsGood n

  verify_node-authentic :
      (n m : Node) (w : World C)
      → (verify_node env n w).0 ≡ ok m
      → (m ≡ n) × (tag_matches n.mac (node_mac env n) ≡ true)
  unfolding verify_node node_mac
  verify_node-authentic n m w h = ground arith

  verify_found-AllGood :
      (found next : Option Node) (w : World C)
      → ((n : Node) → found ≡ some n → is_live n ≡ true)
      → (verify_found env found w).0 ≡ ok next
      → AllGood next
  unfolding verify_found
  verify_found-AllGood none next w live h = let e : next ≡ none = cc in rw e tt
  verify_found-AllGood (some n) next w live h = elim (Result-cases (verify_node env n w).0) [
    | inr (e, bad) ↦ cc (rw bad at h)
    | inl (m, good) ↦
        let (same, tag) = verify_node-authentic n m w good in
        let e : next ≡ some m = cc (rw good at h) in
        rw (e, same) (record { live = live n refl; authentic = tag })
  ]

  is_live_at-live :
      (parent name : Str) (n : Node) → is_live_at parent name n ≡ true → is_live n ≡ true
  unfolding is_live_at
  is_live_at-live parent name n h = ground arith

  find_one-live :
      (parent name : Str) (found : Option Node) (w : World C)
      → (find_one env (is_live_at parent name) w).0 ≡ ok found
      → (n : Node) → found ≡ some n
      → is_live n ≡ true
  unfolding find_one
  find_one-live parent name found w h n e = elim (Bool-cases (env.store_up w.calls)) [
    | inr down ↦ cc (rw (find_one, down) at h)
    | inl up ↦
        let first : find_first (is_live_at parent name) w.nodes ≡ some n =
          cc (rw (find_one, up) at h, e) in
        is_live_at-live parent name n (find_first-holds (is_live_at parent name) w.nodes n first)
  ]

  -- One segment of the walk.
  record Walked (parts : List Str) (n : Node) : Type 0 where
    next : Option Node
    world : World C
    good : AllGood next
    rest : (walk env next parts world).0 ≡ ok (some n)

  walk-step :
      (start : Option Node) (part : Str) (parts : List Str) (w : World C) (n : Node)
      → (walk env start (part ∷ parts) w).0 ≡ ok (some n)
      → Walked parts n
  unfolding walk
  walk-step none part parts w n h = cc
  walk-step (some d) part parts w n h = elim (Bool-cases d.is_dir) [
    | inr file ↦ cc (rw (walk, file) at h)
    | inl dir ↦
        let f = find_one env (is_live_at d.id part) w in
        elim (Result-cases f.0) [
          | inr (e, down) ↦ cc (rw (walk, dir, down) at h)
          | inl (found, answered) ↦ elim (Result-cases (verify_found env found f.1).0) [
            | inr (e, bad) ↦ cc (rw (walk, dir, answered, bad) at h)
            | inl (next, verified) ↦ record {
              next = next;
              world = (verify_found env found f.1).1;
              good =
                  verify_found-AllGood found next f.1 (find_one-live d.id part found w answered)
                    verified;
              rest = rw (walk, dir, answered, verified) at h;
            }
          ]
        ]
  ]

  pub walk-IsGood :
      (start : Option Node) (part : Str) (parts : List Str) (w : World C) (n : Node)
      → (walk env start (part ∷ parts) w).0 ≡ ok (some n)
      → IsGood n
  unfolding walk
  walk-IsGood start part [] w n h =
      let s = walk-step start part [] w n h in
      let e : s.next ≡ some n = cc (s.rest) in rw e at s.good
  walk-IsGood start part (q ∷ qs) w n h =
      let s = walk-step start part (q ∷ qs) w n h in walk-IsGood s.next q qs s.world n s.rest

  -- A node that a path with at least one segment resolves to is live, and its tag is the one of its
  -- document.
  pub get_node-IsGood :
      (root_id path part : Str) (parts : List Str) (w : World C) (n : Node)
      → walk_parts path ≡ part ∷ parts
      → (get_node env root_id path w).0 ≡ ok (some n)
      → IsGood n
  unfolding get_node
  get_node-IsGood root_id path part parts w n e h =
      elim (Result-cases (get_node_by_id env root_id w).0) [
        | inr (x, bad) ↦ cc (rw (get_node, bad) at h)
        | inl (top, found) ↦
            walk-IsGood top part parts (get_node_by_id env root_id w).1 n
              (rw (get_node, found, e) at h)
      ]
