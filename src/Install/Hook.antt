-- ===== src/Install/Hook.antt =====
-- internal/install/hookfile.go: the marker block in a startup file's content. A file's content
-- is its bytes.
pub mod Lines
pub mod Block
pub mod Replace
use sshakku.Prelude.{
  ℕ, Text, codes, newline, text_eq, split, join, trim_last, List, [], ◌∷◌, ◌++◌, Bool, true, false,
  not, ◌&&◌, ◌||◌, if◌then◌else◌,
}

-- MarkerStart
abbrev pub marker_start : Text
marker_start = codes "# >>> sshakku >>>"

-- MarkerEnd
abbrev pub marker_end : Text
marker_end = codes "# <<< sshakku <<<"

-- The carriage return of a CRLF file.
abbrev pub carriage_return : ℕ
carriage_return = 13

unfoldable pub bare : Text → Text
bare line = trim_last carriage_return line

abbrev pub is_start : Text → Bool
is_start line = text_eq (bare line) marker_start

abbrev pub is_end : Text → Bool
is_end line = text_eq (bare line) marker_end

abbrev pub is_marker : Text → Bool
is_marker line = is_start line || is_end line

-- What the `switch` of StripBlock leaves in `skipping`.
abbrev pub next_skipping : Bool → Text → Bool
next_skipping skipping line =
    if is_start line then true else if is_end line then false else skipping

-- Whether the `switch` of StripBlock keeps the line.
abbrev pub keeps : Bool → Text → Bool
keeps skipping line = not (is_marker line) && not skipping

-- The first loop of StripBlock, from a value of `skipping`.
unfoldable pub outside_block : Bool → List Text → List Text
outside_block skipping [] = []
outside_block skipping (line ∷ rest) =
    let kept = outside_block (next_skipping skipping line) rest in
    if keeps skipping line then line ∷ kept else kept

abbrev pub is_blank : Text → Bool
is_blank line = text_eq (bare line) []

-- A line in front of the lines kept behind it, dropped where it is blank and the last one.
abbrev pub cons_unless_blank_tail : Text → List Text → List Text
cons_unless_blank_tail line [] = if is_blank line then [] else line ∷ []
cons_unless_blank_tail line (next ∷ rest) = line ∷ next ∷ rest

-- The second loop of StripBlock: the blank lines at the end go.
unfoldable pub trim_blank_tail : List Text → List Text
trim_blank_tail [] = []
trim_blank_tail (line ∷ rest) = cons_unless_blank_tail line (trim_blank_tail rest)

-- The third loop of StripBlock: each line with its newline.
unfoldable pub write_lines : List Text → Text
write_lines [] = []
write_lines (line ∷ rest) = line ++ (newline ∷ write_lines rest)

unfoldable pub lines : Text → List Text
lines [] = []
lines (c ∷ rest) = split newline (trim_last newline (c ∷ rest))

-- StripBlock
unfoldable pub strip_block : Text → Text
strip_block content = write_lines (trim_blank_tail (outside_block false (lines content)))

abbrev pub marker_block : Text → Text
marker_block body = marker_start ++ (newline ∷ (body ++ (newline ∷ (marker_end ++ (newline ∷ [])))))

-- The kept content and the blank line behind it, or nothing where nothing was kept.
abbrev pub before_block : Text → Text
before_block [] = []
before_block (c ∷ rest) = (c ∷ rest) ++ (newline ∷ [])

-- UpsertBlock
unfoldable pub upsert_block : Text → Text → Text
upsert_block content body = before_block (strip_block content) ++ marker_block body

-- BourneDropIn
unfoldable pub bourne_drop_in : Text → Text
bourne_drop_in body =
    codes "#!/bin/bash"
    ++ (newline
        ∷ (codes "# sshakku shell hook. Regenerate by re-running the sshakku install."
            ++ (newline ∷ (body ++ (newline ∷ [])))))
