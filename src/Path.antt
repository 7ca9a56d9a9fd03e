-- ===== src/Path.antt =====
-- Paths as clients send them (src/vfs.py: `normalize_path`, `split_path`, `_join`).
pub mod Normal
use discord_sftp_drive.Base.{
  ℕ, Str, str_eq, Bool, true, false, not, ◌||◌, Option, none, some, List, [], ◌∷◌, ◌++◌, map, ◌==◌,
  if◌then◌else◌, split_on, intercalate, filter_by,
}

abbrev pub slash : ℕ
slash = b'/'

abbrev pub backslash : ℕ
backslash = 92

abbrev pub root : Str
root = slash ∷ []

abbrev pub dot : Str
dot = b'.' ∷ []

abbrev pub dot_dot : Str
dot_dot = b'.' ∷ b'.' ∷ []

-- `path.replace("\\", "/")`
unfoldable pub to_slash : ℕ → ℕ
to_slash c = if c == backslash then slash else c

abbrev pub is_nil : Str → Bool
is_nil [] = true
is_nil (c ∷ cs) = false

-- `parts.pop()` if there is one; the parts are kept last first.
abbrev pub pop : List Str → List Str
pop [] = []
pop (part ∷ parts) = parts

-- One round of the loop of `normalize_path`.
unfoldable pub take_part : Str → List Str → List Str
take_part part parts =
    if is_nil part || str_eq part dot
    then parts
    else if str_eq part dot_dot
    then pop parts
    else part ∷ parts

-- The loop; the result is last first.
unfoldable pub collapse : List Str → List Str → List Str
collapse parts [] = parts
collapse parts (part ∷ rest) = collapse (take_part part parts) rest

unfoldable pub reverse_onto : List Str → List Str → List Str
reverse_onto [] out = out
reverse_onto (x ∷ xs) out = reverse_onto xs (x ∷ out)

-- The segments that a path resolves through.
unfoldable pub segments : Str → List Str
segments path = reverse_onto (collapse [] (split_on slash (map to_slash path))) []

-- `normalize_path`
unfoldable pub normalize_path : Str → Str
normalize_path path = slash ∷ intercalate (slash ∷ []) (segments path)

-- `s.rpartition(sep)` for one byte: what is before and behind the last one.
unfoldable pub rpartition : ℕ → Str → Option (Str × Str)
rpartition sep [] = none
rpartition sep (c ∷ cs) = elim (rpartition sep cs) [
  | some (before, behind) ↦ some (c ∷ before, behind)
  | none ↦ if c == sep then some ([], cs) else none
]

-- `parent or "/"`
abbrev pub or_root : Str → Str
or_root [] = root
or_root (c ∷ cs) = c ∷ cs

-- `split_path`: the parent's path and the name; the root has no parent.
unfoldable pub split_path : Str → Option Str × Str
split_path path =
    let normalized = normalize_path path in
    if str_eq normalized root then (none, []) else elim (rpartition slash normalized) [
      | none ↦ (some root, normalized)
      | some (parent, name) ↦ (some (or_root parent), name)
    ]

-- `_join`
unfoldable pub join : Str → Str → Str
join parent name = if str_eq parent root then slash ∷ name else parent ++ (slash ∷ name)

-- `[p for p in normalize_path(path).split("/") if p]`
unfoldable pub walk_parts : Str → List Str
walk_parts path = filter_by (λ p. not (is_nil p)) (split_on slash (normalize_path path))
