-- ===== src/Vfs/Rows.antt =====
-- A directory's children under the writes of a structural change (src/vfs.py: `_entries_of` over
-- `children`): which documents `update_one` and `insert_one` leave in the directory.
use discord_sftp_drive.Base.{
  ◌≡◌, ◌≢◌, refl, ap, ◌∙◌, Str, str_eq, str_eq_iff, Bool, true, not, none, some, List, [], ◌∷◌,
  ◌++◌, filter_by, arith, Bool-cases, inl, inr,
}
use discord_sftp_drive.Model.{Node}
use discord_sftp_drive.Store.{find_first, update_first, has_id, has_parent, opt_eq}
use discord_sftp_drive.Vfs.Tags.{entries_of}
use discord_sftp_drive.Vfs.Entries.{Entry, next_entries, is_entry_in}

abbrev pub entries_in : Str → List Node → List Entry
entries_in d ns = entries_of (filter_by (has_parent d) ns)

-- A write that leaves a document's identity and place alone.
abbrev pub KeepsPlace : (Node → Node) → Type 0
KeepsPlace f =
    (n : Node) → ((f n).id ≡ n.id) × ((f n).parent_id ≡ n.parent_id) × ((f n).filename ≡ n.filename)

pub entries_in-update :
    (d : Str) (p : Node → Bool) (f : Node → Node) (ns : List Node)
    → KeepsPlace f
    → entries_in d (update_first p f ns) ≡ entries_in d ns
unfolding update_first has_parent entries_of
entries_in-update d p f [] k = refl
entries_in-update d p f (n ∷ ns) k = elim (Bool-cases (p n)) [
  | inl here ↦ rw here (elim (Bool-cases (opt_eq n.parent_id (some d))) [
    | inl mine ↦ rw ((k n).1, mine, (k n).0, (k n).2) refl
    | inr other ↦ rw ((k n).1, other) refl
  ])
  | inr there ↦ rw there (elim (Bool-cases (opt_eq n.parent_id (some d))) [
    | inl mine ↦ rw (mine, entries_in-update d p f ns k) refl
    | inr other ↦ rw (other, entries_in-update d p f ns k) refl
  ])
]

pub find-update_same :
    (i : Str) (f : Node → Node) (ns : List Node) (n : Node)
    → ((m : Node) → (f m).id ≡ m.id)
    → find_first (has_id i) (update_first (has_id i) f ns) ≡ some n
    → (m : Node) × (find_first (has_id i) ns ≡ some m) × (n ≡ f m)
unfolding find_first update_first has_id
find-update_same i f [] n k h = cc
find-update_same i f (m ∷ ns) n k h = elim (Bool-cases (str_eq m.id i)) [
  | inl here ↦
      let hit : str_eq (f m).id i ≡ true = ap (λ x. str_eq x i) (k m) ∙ here in
      let e : some (f m) ≡ some n = rw (here, hit) at h in (m, rw here refl, cc)
  | inr there ↦
      let e : find_first (has_id i) (update_first (has_id i) f ns) ≡ some n =
        rw (there, there) at h in
      let (x, found, eq) = find-update_same i f ns n k e in (x, rw there found, eq)
]

pub update_absent :
    (i : Str) (f : Node → Node) (ns : List Node)
    → find_first (has_id i) ns ≡ none
    → update_first (has_id i) f ns ≡ ns
unfolding find_first update_first
update_absent i f [] h = refl
update_absent i f (m ∷ ns) h = ground (arith, update_absent i f ns)

pub find-insert :
    (i : Str) (new : Node) (ns : List Node)
    → new.id ≢ i
    → find_first (has_id i) (ns ++ new ∷ []) ≡ find_first (has_id i) ns
unfolding find_first has_id
find-insert i new [] ne = ground (arith, str_eq_iff new.id i)
find-insert i new (n ∷ ns) ne = rw (find-insert i new ns ne)

-- What `_stage_entries(add=[(id, name)])` announces is what the insertion makes of the directory.
pub entries_in-insert :
    (d : Str) (new : Node) (name : Str) (ns : List Node)
    → new.parent_id ≡ some d
    → new.filename ≡ some name
    → entries_in d (ns ++ new ∷ []) ≡ entries_in d ns ++ (new.id, name) ∷ []
unfolding has_parent entries_of opt_eq
entries_in-insert d new name [] ep ef = ground (arith, str_eq_iff d d)
entries_in-insert d new name (n ∷ ns) ep ef = elim (Bool-cases (has_parent d n)) [
  | inl mine ↦ rw (mine, entries_in-insert d new name ns ep ef) refl
  | inr other ↦ rw (other, entries_in-insert d new name ns ep ef) refl
]

filter_all : (es : List Entry) → filter_by (λ e. not (is_entry_in e [])) es ≡ es
unfolding is_entry_in
filter_all [] = refl
filter_all (e ∷ es) = ap (◌∷◌ e) (filter_all es)

pub next_entries-add : (current add : List Entry) → next_entries current add [] ≡ current ++ add
unfolding next_entries
next_entries-add current add = rw (filter_all current) refl
