-- ===== src/Locks/Moves.antt =====
-- What every move of a task keeps (src/vfs.py: `_locked_dirs`): whoever has or awaits a directory
-- refers to the entry that the registry has for it, and the entries count who refers to them.
use discord_sftp_drive.Base.{
  ℕ, suc, ◌-◌, ◌≤◌, ◌<◌, ◌≡◌, ◌≢◌, ltb, refl, ap, ◌∙◌, inl, inr, Str, str_eq, str_eq_iff, true,
  false, Option, none, some, List, ◌∷◌, ◌==◌, ==_iff, ◌&&◌, if◌then◌else◌, arith, Bool-cases,
}
use discord_sftp_drive.Locks.Table.{Table, Task, idle, set_at, new_lock, set_holder}
use discord_sftp_drive.Locks.Counting.{
  count_taken, count_waiting, refs, all_refs, all_refs-set, refs-le, has_taken, has_taken-count,
  count_taken-zero,
}

pub record Inv (n : ℕ) (t : Table) (tasks : ℕ → Task) : Type 0 where
  pub held :
      (i : ℕ) (d : Str) (o : ℕ)
      → has_taken d o (tasks i).taken ≡ true
      → (t.registry d ≡ some o) × ((t.locks o).holder ≡ some i)
  pub waits : (i : ℕ) (d : Str) (o : ℕ) → (tasks i).waiting ≡ some (d, o) → t.registry d ≡ some o
  pub counted : (o : ℕ) → (t.locks o).users ≡ all_refs n o tasks
  pub made : (d : Str) (o : ℕ) → t.registry d ≡ some o → o < t.next
  pub unmade : (o : ℕ) → t.next ≤ o → t.locks o ≡ new_lock
  pub once : (i o : ℕ) → count_taken o (tasks i).taken ≤ 1
  pub outside : (i : ℕ) → n ≤ i → tasks i ≡ idle

module _ (n : ℕ) (t : Table) (tasks : ℕ → Task) (inv : Inv n t tasks) (i : ℕ) (lt : i < n) where
  pub outside_kept : (k : Task) (j : ℕ) → n ≤ j → set_at tasks i k j ≡ idle
  outside_kept k j h = ground (arith, inv.outside j h)

  -- A task that refers to the same entries as before.
  pub enter-Inv : (ds : List Str) → Inv n t (set_at tasks i (record (tasks i) { wanted = ds }))
  unfolding refs
  enter-Inv ds = record {
    held = λ j d o h. ground (arith, ==_iff j i, inv.held j d o);
    waits = λ j d o h. ground (arith, ==_iff j i, inv.waits j d o);
    counted = λ o.
        omega
          (arith, inv.counted o, all_refs-set n o i tasks (record (tasks i) { wanted = ds }) lt);
    made = inv.made;
    unmade = inv.unmade;
    once = λ j o. ground (arith, ==_iff j i, inv.once j o);
    outside = outside_kept (record (tasks i) { wanted = ds });
  }

  -- Nobody has a lock that is free.
  none_taken : (o : ℕ) → (t.locks o).holder ≡ none → count_taken o (tasks i).taken ≡ 0
  none_taken o free = count_taken-zero o (tasks i).taken λ d.
      elim (Bool-cases (has_taken d o (tasks i).taken)) [
        | inr absent ↦ absent
        | inl there ↦ absurd (ground (arith, inv.held i d o there))
      ]

  pub acquire-Inv :
      (d : Str) (o : ℕ)
      → (tasks i).waiting ≡ some (d, o)
      → (t.locks o).holder ≡ none
      → Inv n
          (set_holder o (some i) t)
          (set_at tasks i (record (tasks i) { waiting = none; taken = (d, o) ∷ (tasks i).taken }))
  unfolding set_holder has_taken count_taken count_waiting refs
  acquire-Inv d o wait free =
      let k' : Task = record (tasks i) { waiting = none; taken = (d, o) ∷ (tasks i).taken } in
      record {
        held = λ j d' o' h. ground (
          arith,
          ==_iff j i,
          ==_iff o o',
          ==_iff o' o,
          str_eq_iff d d',
          inv.held j d' o',
          inv.held i d' o',
          inv.waits i d o,
        );
        waits = λ j d' o' h. ground (arith, ==_iff j i, inv.waits j d' o');
        counted = λ o'.
            ground
              (arith, ==_iff o o', ==_iff o' o, inv.counted o', all_refs-set n o' i tasks k' lt);
        made = inv.made;
        unmade = λ o' h. ground (arith, inv.waits i d o, inv.made d o, inv.unmade o', ==_iff o' o);
        once = λ j o'.
            ground
              (arith, ==_iff j i, ==_iff o o', none_taken o free, inv.once j o', inv.once i o');
        outside = outside_kept k';
      }

  -- The task gives up one reference to `o`: `t'` is the table then, and `h` the holder of `o`.
  module _ (d : Str) (o : ℕ) (k' : Task) (t' : Table) (h : Option ℕ) (entry : t.registry d ≡ some o)
      (less : (o' : ℕ) → refs o' (tasks i) ≡ (if o' == o then suc (refs o' k') else refs o' k'))
      (same_next : t'.next ≡ t.next)
      (registry' : (e : Str)
        → t'.registry e ≡ (if (t.locks o).users - 1 == 0 && str_eq e d then none else t.registry e))
      (lock_here : t'.locks o ≡ record { users = (t.locks o).users - 1; holder = h })
      (lock_there : (o' : ℕ) → (o' == o) ≡ false → t'.locks o' ≡ t.locks o') where
    dropped_refs : (o' : ℕ) → (t'.locks o').users ≡ all_refs n o' (set_at tasks i k')
    dropped_refs o' = elim (Bool-cases (o' == o)) [
      | inl same ↦
          let e : o' ≡ o = (==_iff o' o).0 same in
          let u : (t'.locks o').users ≡ (t.locks o).users - 1 =
            rw e (ap (λ l. l.users) lock_here) in
          let r : refs o' (tasks i) ≡ suc (refs o' k') = less o' ∙ rw same refl in
          let c : (t.locks o).users ≡ all_refs n o' tasks = rw e (inv.counted o) in
          omega (arith, all_refs-set n o' i tasks k' lt)
      | inr other ↦
          let u : (t'.locks o').users ≡ (t.locks o').users =
            ap (λ l. l.users) (lock_there o' other) in
          let r : refs o' (tasks i) ≡ refs o' k' = less o' ∙ rw other refl in
          omega (arith, inv.counted o', all_refs-set n o' i tasks k' lt)
    ]

    -- An entry that some task still refers to stays in the registry.
    kept_entry :
        (j : ℕ) (e : Str) (o' : ℕ)
        → t.registry e ≡ some o'
        → j < n
        → 1 ≤ refs o' (set_at tasks i k' j)
        → t'.registry e ≡ some o'
    kept_entry j e o' there in_range referred =
        elim (Bool-cases ((t.locks o).users - 1 == 0 && str_eq e d)) [
          | inr stays ↦ registry' e ∙ rw stays there
          | inl goes ↦
              let same : e ≡ d = ground (arith, str_eq_iff e d) in
              let found : t.registry d ≡ some o' = rw (← same) there in
              let lock : o' ≡ o = ground arith in
              let u : (t'.locks o').users ≡ (t.locks o).users - 1 =
                rw lock (ap (λ l. l.users) lock_here) in
              let gone : (t.locks o).users - 1 ≡ 0 = ground arith in
              absurd (omega (arith, dropped_refs o', refs-le n o' j (set_at tasks i k') in_range))
        ]

    module _ (calm : k'.waiting ≡ none)
        (sub : (e : Str) (o' : ℕ)
          → has_taken e o' k'.taken ≡ true
          → has_taken e o' (tasks i).taken ≡ true)
        (once' : (o' : ℕ) → count_taken o' k'.taken ≤ 1)
        (stays : (j : ℕ) (e : Str)
          → has_taken e o (set_at tasks i k' j).taken ≡ true
          → h ≡ some j) where
      in_range : (j : ℕ) → set_at tasks i k' j ≢ idle → j < n
      in_range j busy = elim (Bool-cases (ltb j n)) [
        | inl below ↦ ground arith
        | inr above ↦ absurd (busy (outside_kept k' j (ground arith)))
      ]

      before :
          (j : ℕ) (e : Str) (o' : ℕ)
          → has_taken e o' (set_at tasks i k' j).taken ≡ true
          → has_taken e o' (tasks j).taken ≡ true
      before j e o' there = ground (arith, ==_iff j i, sub e o')

      dropped-held :
          (j : ℕ) (e : Str) (o' : ℕ)
          → has_taken e o' (set_at tasks i k' j).taken ≡ true
          → (t'.registry e ≡ some o') × ((t'.locks o').holder ≡ some j)
      unfolding has_taken refs
      dropped-held j e o' there =
          let below = in_range j (λ same. ground (arith, ap (λ k. has_taken e o' k.taken) same)) in
          let (found, holds) = inv.held j e o' (before j e o' there) in
          let referred : 1 ≤ refs o' (set_at tasks i k' j) =
            omega (arith, has_taken-count e o' (set_at tasks i k' j).taken there) in
          (
            kept_entry j e o' found below referred,
            elim (Bool-cases (o' == o)) [
              | inl same ↦
                  let lock : o' ≡ o = (==_iff o' o).0 same in ground (arith, lock_here, stays j e)
              | inr other ↦ ap (λ l. l.holder) (lock_there o' other) ∙ holds
            ],
          )

      dropped-waits :
          (j : ℕ) (e : Str) (o' : ℕ)
          → (set_at tasks i k' j).waiting ≡ some (e, o')
          → t'.registry e ≡ some o'
      unfolding refs count_waiting
      dropped-waits j e o' wait =
          let below = in_range j (λ same. ground (arith, ap (λ k. k.waiting) same)) in
          let found : t.registry e ≡ some o' = ground (arith, inv.waits j e o') in
          let referred : 1 ≤ refs o' (set_at tasks i k' j) = ground (arith, ==_iff o' o') in
          kept_entry j e o' found below referred

      pub dropped-Inv : Inv n t' (set_at tasks i k')
      dropped-Inv = record {
        held = dropped-held;
        waits = dropped-waits;
        counted = dropped_refs;
        made = λ e o' found. ground (arith, registry' e, inv.made e o', same_next);
        unmade = λ o' high.
            ground (arith, same_next, inv.made d o, ==_iff o' o, inv.unmade o', lock_there o');
        once = λ j o'. ground (arith, ==_iff j i, once' o', inv.once j o');
        outside = outside_kept k';
      }
