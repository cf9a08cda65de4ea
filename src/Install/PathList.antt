-- ===== src/Install/PathList.antt =====
-- internal/install/pathlist.go: directories in one environment variable, handled as text. The
-- separator is one character, as it is in each PathList that the program makes
-- (internal/install/pathlist_unix.go, pathlist_windows.go).
pub mod Laws
use sshakku.Prelude.{
  ℕ, Text, text_eq, split, join, trim_space, trim_right, ends_with, ◌==◌, List, [], ◌∷◌, ◌++◌, Bool,
  true, false, ◌||◌, Option, none, some, length, if◌then◌else◌,
}

pub record PathList : Type 0 where
  pub separator : ℕ
  pub same_entry : Option (Text → Text → Bool)

-- same
unfoldable pub same : PathList → Text → Text → Bool
same l entry dir = elim l.same_entry [ none ↦ text_eq entry dir | some f ↦ f entry dir ]

-- The loop of `has` over the entries.
unfoldable pub any_same : PathList → List Text → Text → Bool
any_same l [] dir = false
any_same l (entry ∷ rest) dir = same l entry dir || any_same l rest dir

-- has
unfoldable pub has : PathList → Text → Text → Bool
unfolding any_same
has l raw dir = any_same l (split l.separator raw) dir

-- Add
unfoldable pub add : PathList → Text → Text → Text × Bool
add l raw dir =
    if text_eq dir []
    then (raw, false)
    else if has l raw dir
    then (raw, false)
    else if text_eq (trim_space raw) []
    then (dir, true)
    else if ends_with l.separator raw
    then (raw ++ dir, true)
    else (raw ++ (l.separator ∷ dir), true)

-- The loop of Remove: the entries that do not name `dir`.
unfoldable pub others : PathList → List Text → Text → List Text
others l [] dir = []
others l (entry ∷ rest) dir =
    let kept = others l rest dir in if same l entry dir then kept else entry ∷ kept

-- Remove
unfoldable pub remove : PathList → Text → Text → Text × Bool
remove l raw dir =
    let entries = split l.separator raw in
    let kept = others l entries dir in
    if text_eq dir [] || text_eq raw []
    then (raw, false)
    else if length kept == length entries
    then (raw, false)
    else (join l.separator kept, true)

-- trimTrailingSeparators, by the test for a separator
unfoldable pub trim_trailing_separators : Text → (ℕ → Bool) → Text
trim_trailing_separators path separators =
    let trimmed = trim_right separators path in if text_eq trimmed [] then path else trimmed

-- PersistentPathList where the separator is a colon
unfoldable pub unix_list : PathList
unix_list = record {
  separator = 58;
  same_entry = some λ a b.
      text_eq (trim_trailing_separators a (λ c. c == 47))
        (trim_trailing_separators b (λ c. c == 47));
}
