-- ===== src/Config/Editor.antt =====
-- internal/config/editor.go: the command line of an editor.
pub mod RoundTrip
use sshakku.Config.Provenance.{Machine}
use sshakku.Config.Settings.{Settings}
use sshakku.Config.Table.{first_editor_found}
use sshakku.Prelude.{
  ℕ, ◌==◌, Text, text_eq, trim_space, is_space, List, [], ◌∷◌, ◌++◌, Bool, true, false, not, ◌&&◌,
  if◌then◌else◌,
}

abbrev pub quote_char : ℕ
quote_char = 34

-- The loop of splitCommandLine: whether quotes are open, whether a field has begun and what of it
-- has been read, over the rest of the line.
unfoldable pub split_from : Bool → Bool → Text → Text → List Text
split_from quoted started current [] = if started then current ∷ [] else []
split_from quoted started current (r ∷ line) =
    let toggled = split_from (not quoted) true current line in
    let ended = split_from quoted false [] line in
    let between = split_from quoted started current line in
    let longer = split_from quoted true (current ++ r ∷ []) line in
    if r == quote_char
    then toggled
    else if not quoted && is_space r
    then (if started then current ∷ ended else between)
    else longer

-- splitCommandLine
unfoldable pub split_command_line : Text → List Text
unfolding split_from
split_command_line line = split_from false false [] line

-- EditorCommand
unfoldable pub editor_command : Machine → Settings → List Text
unfolding split_command_line
editor_command m s =
    let stated = trim_space s.editor in
    if text_eq stated []
    then first_editor_found m.platform_editors m.find_editor ∷ []
    else split_command_line stated
