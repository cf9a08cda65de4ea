-- ===== src/Session/Tests.antt =====
-- A log of three lines, of which two are kept.
use sshakku.Session as Session
use sshakku.Session.{Ports, lines_of, trim}
use sshakku.Prelude.{
  Text, codes, newline, join, split, trim_right, List, ◌++◌, [], ◌∷◌, length, ◌≤◌, ◌<◌, ◌≡◌, ◌⊎◌,
  refl, ok, true,
}

-- The state is the content of the log.
abbrev file : Ports Text (Unit {0})
file = record {
  lock = λ w. (ok (true, λ v. v), w);
  append = λ text w. (ok tt, w ++ text);
  read_file = λ w. (ok w, w);
  write_file = λ text w. (ok tt, text);
  timestamp = λ w. ([], w);
}

abbrev content : Text
content = codes "a\nb\nc\n"

trim_lem_example :
    ((length (lines_of content) ≤ 2) × (trim file 2 content ≡ (ok tt, content)))
    ⊎ ((front : List Text) × (kept : List Text) × (lines_of content ≡ front ++ kept)
        × (length kept ≡ 2)
        × (2 < length (lines_of content))
        × (trim file 2 content ≡ file.write_file (join newline kept ++ (newline ∷ [])) content))
trim_lem_example = Session.trim_lem file 2 content content content refl

trim_keeps_two : (trim file 2 content).1 ≡ codes "b\nc\n"
unfolding trim Session.last_lines split join trim_right
trim_keeps_two = refl
