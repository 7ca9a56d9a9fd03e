-- ===== src/Vfs/Insert.antt =====
-- A new entry in a directory (src/vfs.py: `makedir`, `_create_file`) and the directory's entry tags.
use discord_sftp_drive.Base.{
  str_eq, str_eq_iff, false, arith, ◌≡◌, ◌≢◌, refl, ap, sym, ◌∙◌, Str, some, List, [], ◌∷◌, inl,
  inr, ◌+◌,
}
use discord_sftp_drive.Exec.{ok, Result-cases}
use discord_sftp_drive.Seal.{Bytes, tag_matches}
use discord_sftp_drive.Model.{Node, Env, World}
use discord_sftp_drive.Store.{find_first, update_first, insert_one, has_id}
use discord_sftp_drive.Vfs.Entries.{Entry, stage_entries}
use discord_sftp_drive.Vfs.Create.{insert_entry}
use discord_sftp_drive.Vfs.Tags.{entries_verify}
use discord_sftp_drive.Vfs.Rows.{entries_in, find-update_same, entries_in-update}
use discord_sftp_drive.Vfs.Crash.{
  Listable, Settled, Settled-Listable, stage-ok, stage-raise, staging, Settled-staging,
  Listable-inserted, insert_one-cases, Listable-promote, Settled-promote, tag-inserted,
  insert_entry_unstaged, insert_entry_refused, insert_entry_landed,
}

module _ {C : Type 0} (env : Env C) (d name : Str) (new : Node) (after : World C → World C)
    (w : World C) where
  abbrev staged_world : World C
  staged_world = (stage_entries env d ((new.id, name) ∷ []) [] w).1

  abbrev inserted_world : World C
  inserted_world = after (insert_one env new staged_world).1

  -- A new entry, under an id that is not the directory's and in its place there, goes into a
  -- directory whose recorded tag is the one of its children. However the insertion ends, with success
  -- or with a failure of any of its calls, the directory's entries verify.
  pub insert_entry-Listable :
      Settled env d w.nodes
      → new.id ≢ d
      → new.parent_id ≡ some d
      → new.filename ≡ some name
      → ((u : World C) → (after u).nodes ≡ u.nodes)
      → Listable env d (insert_entry env d name new after w).1.nodes
  insert_entry-Listable settled ne ep ef same =
      elim (Result-cases (stage_entries env d ((new.id, name) ∷ []) [] w).0) [
        | inr (e, bad) ↦
            rw
              (
                insert_entry_unstaged env d name new after w e bad,
                stage-raise env d ((new.id, name) ∷ []) [] w e bad,
              )
              (Settled-Listable env d w.nodes settled)
        | inl (staged, good) ↦
            let (tag, nodes) = stage-ok env d ((new.id, name) ∷ []) [] w staged good in
            let time = env.clock (w.calls + 1 + 1) in
            elim (insert_one-cases env new staged_world) [
              | inl ((e, bad), kept) ↦
                  rw (insert_entry_refused env d name new after w staged e good bad, kept, nodes)
                    (Settled-Listable env d
                      (update_first (has_id d) (staging env staged time) w.nodes)
                      (Settled-staging env d staged time w.nodes settled))
              | inr (landed, added) ↦
                  rw (insert_entry_landed env d name new after w staged good landed) (
                    Listable-promote env d staged inserted_world
                      (rw (same (insert_one env new staged_world).1, added, nodes)
                        (tag-inserted env d name new staged time w.nodes ep ef tag))
                      (rw (same (insert_one env new staged_world).1, added, nodes)
                        (Listable-inserted env d name new staged time w.nodes ne ep ef tag)))
            ]
      ]

  -- If the insertion of a new entry in its place succeeds, the directory's recorded tag is the one
  -- of the children that it then has.
  pub insert_entry-Settled :
      new.parent_id ≡ some d
      → new.filename ≡ some name
      → ((u : World C) → (after u).nodes ≡ u.nodes)
      → (insert_entry env d name new after w).0 ≡ ok tt
      → Settled env d (insert_entry env d name new after w).1.nodes
  insert_entry-Settled ep ef same done =
      elim (Result-cases (stage_entries env d ((new.id, name) ∷ []) [] w).0) [
        | inr (e, bad) ↦
            cc (ap (λ r. r.0) (insert_entry_unstaged env d name new after w e bad), done)
        | inl (staged, good) ↦
            let (tag, nodes) = stage-ok env d ((new.id, name) ∷ []) [] w staged good in
            elim (insert_one-cases env new staged_world) [
              | inl ((e, bad), kept) ↦ cc (
                ap (λ r. r.0) (insert_entry_refused env d name new after w staged e good bad),
                done,
              )
              | inr (landed, added) ↦
                  let runs = insert_entry_landed env d name new after w staged good landed in
                  rw runs (
                    Settled-promote env d staged inserted_world tt
                      (rw (same (insert_one env new staged_world).1, added, nodes)
                        (tag-inserted env d name new staged (env.clock (w.calls + 1 + 1)) w.nodes ep
                          ef tag))
                      (rw (← runs) done))
            ]
      ]

-- If a directory's recorded tag is not the one of its children, and the tag that a stage parks is
-- not either, then after that stage the directory's entries do not verify.
pub stage-unsettled :
    {C : Type 0} (env : Env C) (d : Str) (add dropped : List Entry) (w : World C) (staged : Bytes)
    (n m : Node)
    → find_first (has_id d) w.nodes ≡ some n
    → n.entries_mac ≢ env.seal.dir_entries_tag d (entries_in d w.nodes)
    → (stage_entries env d add dropped w).0 ≡ ok staged
    → staged ≢ env.seal.dir_entries_tag d (entries_in d w.nodes)
    → find_first (has_id d) (stage_entries env d add dropped w).1.nodes ≡ some m
    → entries_verify env d
        (entries_in d (stage_entries env d add dropped w).1.nodes)
        m.entries_mac
        m.entries_mac_pending
      ≡ false
unfolding entries_verify tag_matches
stage-unsettled env d add dropped w staged n m was stale good other found =
    let (tag, nodes) = stage-ok env d add dropped w staged good in
    let time = env.clock (w.calls + 1 + 1) in
    let (x, was', now') =
      find-update_same d (staging env staged time) w.nodes m (λ y. refl) (rw (← nodes) found) in
    let same : n ≡ x = cc (was, was') in
    let recorded : m.entries_mac ≡ n.entries_mac =
      ap (λ y. y.entries_mac) now' ∙ ap (λ y. y.entries_mac) (sym same) in
    let pending : m.entries_mac_pending ≡ staged = ap (λ y. y.entries_mac_pending) now' in
    let actual : entries_in d (stage_entries env d add dropped w).1.nodes ≡ entries_in d w.nodes =
      rw nodes (
        entries_in-update d (has_id d) (staging env staged time) w.nodes
          (λ y. (refl, refl, refl))) in
    rw (actual, recorded, pending, str_eq-ne n.entries_mac _ stale, str_eq-ne staged _ other) refl
  where
    str_eq-ne : (a b : Bytes) → a ≢ b → str_eq a b ≡ false
    str_eq-ne a b ne = ground (arith, str_eq_iff a b)
