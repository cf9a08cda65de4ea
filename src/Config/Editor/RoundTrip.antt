-- ===== src/Config/Editor/RoundTrip.antt =====
-- Command lines that internal/config/editor.go reads back.
use sshakku.Config.Editor.{quote_char, split_from, split_command_line}
use sshakku.Prelude.{
  ℕ, ◌==◌, Text, is_space, Lacks, List, [], ◌∷◌, ◌++◌, append-nil, append_assoc, map, true, false,
  All, ◌≡◌, ◌≢◌, refl, sym, ap, ◌∙◌, arith,
}

-- A word of a command line: between quotes, or bare.
pub data Word : Type 0 where
  quoted bare : Text → Word

abbrev pub word_of : Word → Text
word_of (quoted w) = w
word_of (bare w) = w

abbrev pub written : Word → Text
written (quoted w) = quote_char ∷ w ++ quote_char ∷ []
written (bare w) = w

-- No word has a quote in it, and a bare one has no space and is not empty.
abbrev pub CanBeWritten : Word → Type 0
CanBeWritten (quoted w) = Lacks quote_char w
CanBeWritten (bare w) = (w ≢ []) × All (λ c. (c ≢ quote_char) × (is_space c ≡ false)) w

-- The words with a space between them.
abbrev pub command_line : List Word → Text
command_line [] = []
command_line (w ∷ []) = written w
command_line (w ∷ v ∷ ws) = written w ++ 32 ∷ command_line (v ∷ ws)

==-of_ne : (c d : ℕ) → c ≢ d → (c == d) ≡ false
==-of_ne c d h = ground arith

push_end : (current w : Text) (c : ℕ) → (current ++ c ∷ []) ++ w ≡ current ++ c ∷ w
push_end current w c = append_assoc current (c ∷ []) w

split_from-quoted :
    (w rest current : Text)
    → Lacks quote_char w
    → split_from true true current (w ++ quote_char ∷ rest)
      ≡ split_from false true (current ++ w) rest
unfolding split_from
split_from-quoted [] rest current h = rw (append-nil current) refl
split_from-quoted (c ∷ w) rest current h = rw (==-of_ne c quote_char h.0) (
    split_from-quoted w rest (current ++ c ∷ []) h.1
    ∙ ap (λ t. split_from false true t rest) (push_end current w c))

split_from-bare :
    (w rest current : Text)
    → All (λ c. (c ≢ quote_char) × (is_space c ≡ false)) w
    → split_from false true current (w ++ rest) ≡ split_from false true (current ++ w) rest
unfolding split_from
split_from-bare [] rest current h = rw (append-nil current) refl
split_from-bare (c ∷ w) rest current h =
    rw (==-of_ne c quote_char h.0.0, h.0.1)
      (split_from-bare w rest (current ++ c ∷ []) h.1
        ∙ ap (λ t. split_from false true t rest) (push_end current w c))

-- A word that stands at the beginning of a field.
split_from-written :
    (w : Word) (rest : Text)
    → CanBeWritten w
    → split_from false false [] (written w ++ rest) ≡ split_from false true (word_of w) rest
unfolding split_from
split_from-written (quoted w) rest h =
    ap (split_from true true []) (append_assoc w (quote_char ∷ []) rest)
    ∙ split_from-quoted w rest [] h
split_from-written (bare []) rest h = absurd (h.0 refl)
split_from-written (bare (c ∷ w)) rest h =
    rw (==-of_ne c quote_char h.1.0.0, h.1.0.1) (split_from-bare w rest (c ∷ []) h.1.1)

split_command_line-words :
    (ws : List Word)
    → All CanBeWritten ws
    → split_from false false [] (command_line ws) ≡ map word_of ws
unfolding split_from
split_command_line-words [] h = refl
split_command_line-words (w ∷ []) h =
    ap (split_from false false []) (sym (append-nil (written w))) ∙ split_from-written w [] h.0
split_command_line-words (w ∷ v ∷ ws) h =
    split_from-written w (32 ∷ command_line (v ∷ ws)) h.0
    ∙ ap (λ fields. word_of w ∷ fields) (split_command_line-words (v ∷ ws) h.1)

-- Words with a space between them, each bare or between double quotes, are the fields that the
-- command line is cut into, where no word has a double quote in it and each bare one is not empty
-- and has no space in it.
pub split_command_line-command_line :
    (ws : List Word) → All CanBeWritten ws → split_command_line (command_line ws) ≡ map word_of ws
unfolding split_command_line
split_command_line-command_line ws h = split_command_line-words ws h
