-- ===== src/Vfs/Crash.antt =====
-- Stage, change, promote (src/vfs.py: `_stage_entries`, src/crypto.py: `verify_dir_entries`): the
-- tags of a directory between the three writes.
use discord_sftp_drive.Base.{
  ◌+◌, ◌≡◌, ◌≢◌, refl, ap, sym, ◌∙◌, ◌⊎◌, ℕ, Str, str_eq_refl, true, some, List, [], ◌∷◌, ◌++◌,
  arith, Bool-cases, inl, inr,
}
use discord_sftp_drive.Exec.{database_error, duplicate_key, ok, raise, Error}
use discord_sftp_drive.Seal.{Bytes, tag_matches}
use discord_sftp_drive.Model.{Node, Env, World}
use discord_sftp_drive.Store.{
  is_taken, find_one, find, find_first, update_first, update_one, insert_one, has_id,
}
use discord_sftp_drive.Vfs.Tags.{entries_verify}
use discord_sftp_drive.Vfs.Entries.{Entry, children, stage_entries, promote, next_entries}
use discord_sftp_drive.Vfs.Create.{insert_entry}
use discord_sftp_drive.Vfs.Rows.{
  entries_in, KeepsPlace, entries_in-update, find-update_same, update_absent, find-insert,
  entries_in-insert, next_entries-add,
}

module _ {C : Type 0} (env : Env C) where
  -- What `entries_of` and the next structural change will accept.
  abbrev pub Listable : Str → List Node → Type 0
  Listable d ns =
      (n : Node)
      → find_first (has_id d) ns ≡ some n
      → entries_verify env d (entries_in d ns) n.entries_mac n.entries_mac_pending ≡ true

  -- The recorded tag itself is the one of the children.
  abbrev pub Settled : Str → List Node → Type 0
  Settled d ns =
      (n : Node)
      → find_first (has_id d) ns ≡ some n
      → n.entries_mac ≡ env.seal.dir_entries_tag d (entries_in d ns)

  pub Settled-Listable : (d : Str) (ns : List Node) → Settled d ns → Listable d ns
  unfolding entries_verify tag_matches
  Settled-Listable d ns s n found = rw (s n found, str_eq_refl) refl

  -- The nodes after a call of the store: those before it, or what the call makes of them.
  update_one-cases :
      (i : Str) (f : Node → Node) (w : World C)
      → ((update_one env i f w).1.nodes ≡ w.nodes)
        ⊎ ((update_one env i f w).1.nodes ≡ update_first (has_id i) f w.nodes)
  unfolding update_one
  update_one-cases i f w = ground arith

  pub update_one-ok :
      (i : Str) (f : Node → Node) (w : World C) (u : Unit {0})
      → (update_one env i f w).0 ≡ ok u
      → (update_one env i f w).1.nodes ≡ update_first (has_id i) f w.nodes
  unfolding update_one
  update_one-ok i f w u h = ground (arith, update_absent i f w.nodes)

  abbrev pub staging : Bytes → ℕ → Node → Node
  staging staged time n = record n { entries_mac_pending = staged; modified_at = time }

  pub stage-ok :
      (d : Str) (add dropped : List Entry) (w : World C) (staged : Bytes)
      → (stage_entries env d add dropped w).0 ≡ ok staged
      → (staged ≡ env.seal.dir_entries_tag d (next_entries (entries_in d w.nodes) add dropped))
        × ((stage_entries env d add dropped w).1.nodes
            ≡ update_first (has_id d) (staging staged (env.clock (w.calls + 1 + 1))) w.nodes)
  unfolding stage_entries find_one children find update_one
  stage-ok d add dropped w staged h =
      ground (arith, update_absent d (staging staged (env.clock (w.calls + 1 + 1))) w.nodes)

  pub stage-raise :
      (d : Str) (add dropped : List Entry) (w : World C) (e : Error)
      → (stage_entries env d add dropped w).0 ≡ raise e
      → (stage_entries env d add dropped w).1.nodes ≡ w.nodes
  unfolding stage_entries find_one children find update_one
  stage-raise d add dropped w e h = ground arith

  KeepsPlace-staging : (staged : Bytes) (time : ℕ) → KeepsPlace (staging staged time)
  KeepsPlace-staging staged time n = (refl, refl, refl)

  -- The recorded tag stays good while the next one is parked beside it.
  pub Settled-staging :
      (d : Str) (staged : Bytes) (time : ℕ) (ns : List Node)
      → Settled d ns
      → Settled d (update_first (has_id d) (staging staged time) ns)
  Settled-staging d staged time ns s n found =
      let (m, was, now') = find-update_same d (staging staged time) ns n (λ x. refl) found in
      ap (λ x. x.entries_mac) now'
      ∙ (s m was
          ∙ ap (env.seal.dir_entries_tag d) (
              sym (
                entries_in-update d (has_id d) (staging staged time) ns
                  (KeepsPlace-staging staged time))))

  -- The change has landed: the parked tag is the one of the children.
  pub tag-inserted :
      (d name : Str) (new : Node) (staged : Bytes) (time : ℕ) (ns : List Node)
      → new.parent_id ≡ some d
      → new.filename ≡ some name
      → staged
        ≡ env.seal.dir_entries_tag d (next_entries (entries_in d ns) ((new.id, name) ∷ []) [])
      → env.seal.dir_entries_tag d
          (entries_in d (update_first (has_id d) (staging staged time) ns ++ new ∷ []))
        ≡ staged
  tag-inserted d name new staged time ns ep ef es =
      rw
        (
          entries_in-insert d new name (update_first (has_id d) (staging staged time) ns) ep ef,
          entries_in-update d (has_id d) (staging staged time) ns (KeepsPlace-staging staged time),
          es,
          next_entries-add,
        )
        refl

  pub Listable-inserted :
      (d name : Str) (new : Node) (staged : Bytes) (time : ℕ) (ns : List Node)
      → new.id ≢ d
      → new.parent_id ≡ some d
      → new.filename ≡ some name
      → staged
        ≡ env.seal.dir_entries_tag d (next_entries (entries_in d ns) ((new.id, name) ∷ []) [])
      → Listable d (update_first (has_id d) (staging staged time) ns ++ new ∷ [])
  unfolding entries_verify tag_matches
  Listable-inserted d name new staged time ns ne ep ef es n found =
      let us = update_first (has_id d) (staging staged time) ns in
      let (m, was, now') =
        find-update_same d (staging staged time) ns n (λ x. refl)
          (rw (← find-insert d new us ne) found) in
      let pending : n.entries_mac_pending ≡ staged = ap (λ x. x.entries_mac_pending) now' in
      rw (tag-inserted d name new staged time ns ep ef es, pending, str_eq_refl) (ground arith)

  abbrev pub promoting : Bytes → Node → Node
  promoting staged n = record n { entries_mac = staged; entries_mac_pending = [] }

  Settled-promoting :
      (d : Str) (staged : Bytes) (ns : List Node)
      → staged ≡ env.seal.dir_entries_tag d (entries_in d ns)
      → Settled d (update_first (has_id d) (promoting staged) ns)
  Settled-promoting d staged ns e n found =
      let (m, was, now') = find-update_same d (promoting staged) ns n (λ x. refl) found in
      ap (λ x. x.entries_mac) now'
      ∙ (e
          ∙ ap (env.seal.dir_entries_tag d) (
              sym (entries_in-update d (has_id d) (promoting staged) ns (λ x. (refl, refl, refl)))))

  -- The last write, on a directory whose parked tag is the one of its children.
  pub Listable-promote :
      (d : Str) (staged : Bytes) (w : World C)
      → env.seal.dir_entries_tag d (entries_in d w.nodes) ≡ staged
      → Listable d w.nodes
      → Listable d (promote env d staged w).1.nodes
  unfolding promote
  Listable-promote d staged w e listable = elim (update_one-cases d (promoting staged) w) [
    | inl same ↦ rw same listable
    | inr written ↦ rw written (
        Settled-Listable d (update_first (has_id d) (promoting staged) w.nodes)
          (Settled-promoting d staged w.nodes (sym e)))
  ]

  pub Settled-promote :
      (d : Str) (staged : Bytes) (w : World C) (u : Unit {0})
      → env.seal.dir_entries_tag d (entries_in d w.nodes) ≡ staged
      → (promote env d staged w).0 ≡ ok u
      → Settled d (promote env d staged w).1.nodes
  unfolding promote
  Settled-promote d staged w u e done =
      rw (update_one-ok d (promoting staged) w u done) (Settled-promoting d staged w.nodes (sym e))

  pub insert_one-cases :
      (n : Node) (w : World C)
      → (((e : Error) × ((insert_one env n w).0 ≡ raise e))
          × ((insert_one env n w).1.nodes ≡ w.nodes))
        ⊎ (((insert_one env n w).0 ≡ ok tt) × ((insert_one env n w).1.nodes ≡ w.nodes ++ n ∷ []))
  unfolding insert_one
  insert_one-cases n w = elim (Bool-cases (env.store_up w.calls)) [
    | inr down ↦ rw (insert_one, down) (inl ((database_error, refl), refl))
    | inl up ↦ elim (Bool-cases (is_taken n w.nodes)) [
      | inl taken ↦ rw (insert_one, up, taken) (inl ((duplicate_key, refl), refl))
      | inr free ↦ rw (insert_one, up, free) (inr (refl, refl))
    ]
  ]

  module _ (d name : Str) (new : Node) (after : World C → World C) (w : World C) where
    pub insert_entry_unstaged :
        (e : Error)
        → (stage_entries env d ((new.id, name) ∷ []) [] w).0 ≡ raise e
        → insert_entry env d name new after w
          ≡ (raise e, (stage_entries env d ((new.id, name) ∷ []) [] w).1)
    unfolding insert_entry
    insert_entry_unstaged e bad = rw (insert_entry, bad)

    pub insert_entry_refused :
        (staged : Bytes) (e : Error)
        → (stage_entries env d ((new.id, name) ∷ []) [] w).0 ≡ ok staged
        → (insert_one env new (stage_entries env d ((new.id, name) ∷ []) [] w).1).0 ≡ raise e
        → insert_entry env d name new after w
          ≡ (raise e, (insert_one env new (stage_entries env d ((new.id, name) ∷ []) [] w).1).1)
    unfolding insert_entry
    insert_entry_refused staged e good bad = rw (insert_entry, good, bad)

    pub insert_entry_landed :
        (staged : Bytes)
        → (stage_entries env d ((new.id, name) ∷ []) [] w).0 ≡ ok staged
        → (insert_one env new (stage_entries env d ((new.id, name) ∷ []) [] w).1).0 ≡ ok tt
        → insert_entry env d name new after w
          ≡ promote env d staged
              (after (insert_one env new (stage_entries env d ((new.id, name) ∷ []) [] w).1).1)
    unfolding insert_entry
    insert_entry_landed staged good landed = rw (insert_entry, good, landed)
