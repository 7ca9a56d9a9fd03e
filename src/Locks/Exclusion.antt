-- ===== src/Locks/Exclusion.antt =====
-- Mutual exclusion: no two tasks hold one directory (src/vfs.py: `_locked_dirs`).
use discord_sftp_drive.Base.{
  ℕ, suc, ◌≤◌, ◌<◌, ◌≡◌, refl, sym, Str, str_eq, str_eq_iff, str_eq_refl, true, none, some, List,
  [], ◌∷◌, ◌==◌, ==_iff, arith, Bool-cases, Option-cases, inl, inr,
}
use discord_sftp_drive.Locks.Table.{
  Table, Task, set_at, set_key, holds_dir, wanted_dirs, new_lock, entry_for, count_in, set_holder,
  is_entry, forget, Move, enter, queue, acquire, cancel, release, System, move, init, Reach, start,
  later,
}
use discord_sftp_drive.Locks.Counting.{
  count_taken, count_waiting, refs, all_refs-set, all_refs-idle, has_taken, has_taken-count,
}
use discord_sftp_drive.Locks.Moves.{Inv, outside_kept, enter-Inv, acquire-Inv, dropped-Inv}

module _ (n : ℕ) (t : Table) (tasks : ℕ → Task) (inv : Inv n t tasks) (i : ℕ) (lt : i < n) where
  cancel-Inv :
      (d : Str) (o : ℕ)
      → (tasks i).waiting ≡ some (d, o)
      → Inv n (forget d o t) (set_at tasks i (record (tasks i) { wanted = []; waiting = none }))
  unfolding forget is_entry refs count_waiting
  cancel-Inv d o wait =
      let k' : Task = record (tasks i) { wanted = []; waiting = none } in
      let entry = inv.waits i d o wait in
      let self : (o == o) ≡ true = (==_iff o o).1 refl in
      dropped-Inv n t tasks inv i lt d o k' (forget d o t) (t.locks o).holder entry
        (λ o'. ground (arith, wait, ==_iff o o', ==_iff o' o)) refl
        (λ e. ground (arith, entry, self)) (ground (arith, self)) (λ o' ne. ground arith) refl
        (λ e o' there. there) (λ o'. inv.once i o')
        (λ j e there. ground (arith, ==_iff j i, inv.held j e o))

  release-Inv :
      (d : Str) (o : ℕ) (ts : List (Str × ℕ))
      → (tasks i).waiting ≡ none
      → (tasks i).taken ≡ (d, o) ∷ ts
      → Inv n (forget d o (set_holder o none t)) (set_at tasks i (record (tasks i) { taken = ts }))
  unfolding forget set_holder is_entry refs count_waiting count_taken has_taken
  release-Inv d o ts calm had =
      let k' : Task = record (tasks i) { taken = ts } in
      let self : (o == o) ≡ true = (==_iff o o).1 refl in
      let mine : has_taken d o (tasks i).taken ≡ true = ground (arith, str_eq_refl d) in
      let (entry, holder) = inv.held i d o mine in
      dropped-Inv n t tasks inv i lt d o k' (forget d o (set_holder o none t)) none entry
        (λ o'. ground (arith, had, calm, ==_iff o o', ==_iff o' o)) refl
        (λ e. ground (arith, entry, self)) (ground (arith, self)) (λ o' ne. ground arith) calm
        (λ e o' there. ground (arith, had)) (λ o'. ground (arith, had, inv.once i o'))
        (λ j e there. absurd (elim (Bool-cases (j == i)) [
          | inl same ↦
              let twice : 1 ≤ count_taken o ts = has_taken-count e o ts (ground (arith, same)) in
              ground (arith, had, inv.once i o)
          | inr other ↦ ground (arith, ==_iff j i, inv.held j e o)
        ]))

  queue_old :
      (d : Str) (o : ℕ) (ds : List Str)
      → (tasks i).waiting ≡ none
      → t.registry d ≡ some o
      → Inv n
          (count_in o t)
          (set_at tasks i (record (tasks i) { wanted = ds; waiting = some (d, o) }))
  unfolding count_in refs count_waiting
  queue_old d o ds calm entry =
      let k' : Task = record (tasks i) { wanted = ds; waiting = some (d, o) } in
      record {
        held = λ j e o' there. ground (arith, ==_iff j i, ==_iff o' o, inv.held j e o');
        waits = λ j e o' wait. ground (arith, ==_iff j i, inv.waits j e o');
        counted = λ o'. ground (
          arith,
          calm,
          ==_iff o o',
          ==_iff o' o,
          inv.counted o',
          all_refs-set n o' i tasks k' lt,
        );
        made = inv.made;
        unmade = λ o' high. ground (arith, inv.made d o, inv.unmade o', ==_iff o' o);
        once = λ j o'. ground (arith, ==_iff j i, inv.once j o');
        outside = outside_kept n t tasks inv i lt k';
      }

  queue_entry : (d : Str) (o : ℕ) → t.registry d ≡ some o → entry_for d t ≡ (o, t)
  unfolding entry_for
  queue_entry d o entry = rw (entry_for, entry)

  abbrev with_entry : Str → Table
  with_entry d = record t {
    registry = set_key t.registry d (some t.next);
    locks = set_at t.locks t.next new_lock;
    next = suc t.next;
  }

  queue_new :
      (d : Str) (ds : List Str)
      → (tasks i).waiting ≡ none
      → t.registry d ≡ none
      → Inv n
          (count_in (entry_for d t).0 (entry_for d t).1)
          (set_at tasks i (record (tasks i) { wanted = ds; waiting = some (d, (entry_for d t).0) }))
  unfolding entry_for count_in refs count_waiting
  queue_new d ds calm absent =
      let o = t.next in
      let e : entry_for d t ≡ (o, with_entry d) = rw (entry_for, absent) in
      let k' : Task = record (tasks i) { wanted = ds; waiting = some (d, o) } in
      let blank : t.locks o ≡ new_lock = inv.unmade o (omega arith) in
      rw e (record {
        held = λ j e' o' there.
            ground
              (arith, absent, blank, ==_iff j i, ==_iff o' o, str_eq_iff e' d, inv.held j e' o');
        waits = λ j e' o' wait.
            ground (arith, absent, ==_iff j i, str_eq_iff e' d, str_eq_refl d, inv.waits j e' o');
        counted = λ o'. ground (
          arith,
          calm,
          blank,
          ==_iff o o',
          ==_iff o' o,
          ==_iff o o,
          inv.counted o',
          all_refs-set n o' i tasks k' lt,
        );
        made = λ e' o' found. ground (arith, str_eq_iff e' d, inv.made e' o');
        unmade = λ o' high. ground (arith, inv.unmade o', ==_iff o' o);
        once = λ j o'. ground (arith, ==_iff j i, inv.once j o');
        outside = outside_kept n t tasks inv i lt k';
      })

  Move-Inv : (t' : Table) (k' : Task) → Move i t (tasks i) t' k' → Inv n t' (set_at tasks i k')
  Move-Inv t' k' (enter dirs w c et ek) =
      rw (et, ek) (enter-Inv n t tasks inv i lt (wanted_dirs dirs (tasks i).taken))
  Move-Inv t' k' (queue d ds w c et ek) =
      rw (et, ek)
        (elim (Option-cases (t.registry d)) [
          | inl absent ↦ queue_new d ds c absent
          | inr (o, entry) ↦ rw (queue_entry d o entry) (queue_old d o ds c entry)
        ])
  Move-Inv t' k' (acquire d o wait free et ek) =
      rw (et, ek) (acquire-Inv n t tasks inv i lt d o wait free)
  Move-Inv t' k' (cancel d o wait et ek) = rw (et, ek) (cancel-Inv d o wait)
  Move-Inv t' k' (release d o ts w c had et ek) = rw (et, ek) (release-Inv d o ts c had)

init-Inv : (n : ℕ) → Inv n init.table init.tasks
unfolding has_taken count_taken
init-Inv n = record {
  held = λ i d o h. cc;
  waits = λ i d o h. cc;
  counted = λ o. sym (all_refs-idle n o);
  made = λ d o h. cc;
  unmade = λ o h. refl;
  once = λ i o. omega arith;
  outside = λ i h. refl;
}

pub Reach-Inv : (n : ℕ) (s : System) → Reach n s → Inv n s.table s.tasks
Reach-Inv n s start = init-Inv n
Reach-Inv n s (later {s = s0} r (move i t k lt mv e)) =
    rw e (Move-Inv n s0.table s0.tasks (Reach-Inv n s0 r) i lt t k mv)

holds_dir-has_taken :
    (d : Str) (ts : List (Str × ℕ)) → holds_dir d ts ≡ true → (o : ℕ) × (has_taken d o ts ≡ true)
unfolding holds_dir has_taken
holds_dir-has_taken d [] h = cc
holds_dir-has_taken d ((e, p) ∷ ts) h = elim (Bool-cases (str_eq e d)) [
  | inl here ↦ (p, ground (arith, ==_iff p p))
  | inr past ↦ let (o, there) = holds_dir-has_taken d ts (ground arith) in (o, ground arith)
]

-- In every state that tasks lead to which enter `_locked_dirs`, wait, are cancelled, and leave, in
-- any order, two tasks that hold one directory are the same task.
pub dir-exclusive :
    (n : ℕ) (s : System) (d : Str) (i j : ℕ)
    → Reach n s
    → holds_dir d (s.tasks i).taken ≡ true
    → holds_dir d (s.tasks j).taken ≡ true
    → i ≡ j
dir-exclusive n s d i j r in_i in_j =
    let inv = Reach-Inv n s r in
    let (o, by_i) = holds_dir-has_taken d (s.tasks i).taken in_i in
    let (p, by_j) = holds_dir-has_taken d (s.tasks j).taken in_j in
    let (found, held) = inv.held i d o by_i in
    let (found', held') = inv.held j d p by_j in ground arith
