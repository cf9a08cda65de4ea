-- ===== src/FilePath.antt =====
-- What the program uses of Go's `path/filepath`, where the separator is the slash.
use mathlib.Core.List.{reverse}
use sshakku.Prelude.{
  ℕ, Text, codes, text_eq, split, join as join_by, trim_right, ◌==◌, ◌≡◌, refl, List, [], ◌∷◌, ◌++◌,
  Bool, if◌then◌else◌,
}

abbrev pub slash : ℕ
slash = 47

-- The last of the parts, or the default where there is none.
unfoldable pub last_or : List Text → Text → Text
last_or [] d = d
last_or (l ∷ ls) d = last_or ls l

abbrev slash_if_empty : Text → Text
slash_if_empty [] = slash ∷ []
slash_if_empty (c ∷ s) = c ∷ s

-- filepath.Base
unfoldable pub base : Text → Text
unfolding last_or
base [] = codes "."
base (c ∷ s) = slash_if_empty (last_or (split slash (trim_right (λ x. x == slash) (c ∷ s))) [])

-- One component read onto those kept so far, the last one first.
unfoldable pub clean_step : Bool → List Text → Text → List Text
clean_step rooted [] part =
    if text_eq part []
    then []
    else if text_eq part (codes ".")
    then []
    else if text_eq part (codes "..")
    then (if rooted then [] else part ∷ [])
    else part ∷ []
clean_step rooted (top ∷ kept) part =
    if text_eq part []
    then top ∷ kept
    else if text_eq part (codes ".")
    then top ∷ kept
    else if text_eq part (codes "..")
    then (if text_eq top (codes "..") then part ∷ top ∷ kept else kept)
    else part ∷ top ∷ kept

unfoldable pub clean_parts : Bool → List Text → List Text → List Text
unfolding clean_step
clean_parts rooted kept [] = kept
clean_parts rooted kept (part ∷ parts) = clean_parts rooted (clean_step rooted kept part) parts

abbrev dot_if_empty : Text → Text
dot_if_empty [] = codes "."
dot_if_empty (c ∷ s) = c ∷ s

-- filepath.Clean
unfoldable pub clean : Text → Text
unfolding clean_parts
clean [] = codes "."
clean (c ∷ s) =
    let rooted = c == slash in
    let path = join_by slash (reverse (clean_parts rooted [] (split slash (c ∷ s)))) in
    if rooted then slash ∷ path else dot_if_empty path

-- filepath.Join of two elements
unfoldable pub join : Text → Text → Text
join [] [] = []
join [] (d ∷ b) = clean (d ∷ b)
join (c ∷ a) [] = clean (c ∷ a)
join (c ∷ a) (d ∷ b) = clean ((c ∷ a) ++ (slash ∷ d ∷ b))

base_trailing : base (codes "/home/me/.ssh/id_rsa//") ≡ codes "id_rsa"
unfolding base split trim_right
base_trailing = refl

base_root : base (codes "//") ≡ codes "/"
unfolding base split trim_right
base_root = refl

clean_dots : clean (codes "/a/./b/../../../c/") ≡ codes "/c"
unfolding clean split join_by
clean_dots = refl

clean_relative : clean (codes "a/../../b//c") ≡ codes "../b/c"
unfolding clean split join_by
clean_relative = refl

join_empty : join (codes "/home/me") (codes "id_rsa") ≡ codes "/home/me/id_rsa"
unfolding join clean split join_by
join_empty = refl

-- A path up to its last slash, with it.
abbrev pub up_to_slash : Text → Text
up_to_slash [] = []
up_to_slash (c ∷ s) = cut_behind c (up_to_slash s)
  where
    cut_behind : ℕ → Text → Text
    cut_behind c [] = if c == slash then c ∷ [] else []
    cut_behind c (d ∷ r) = c ∷ d ∷ r

-- filepath.Dir
unfoldable pub dir_of : Text → Text
unfolding clean
dir_of path = clean (up_to_slash path)
