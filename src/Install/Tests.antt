-- ===== src/Install/Tests.antt =====
-- Startup files and lists of directories as an install meets them.
use sshakku.Install.Hook.{trim_blank_tail, write_lines, strip_block, upsert_block}
use sshakku.Install.Hook as Hook
use sshakku.Install.Hook.Block as Block
use sshakku.Install.Hook.Replace as Replace
use sshakku.Install.Hook.Block.{IsSettled, StaysOpen, own_lines, separated, block_lines}
use sshakku.Install.PathList.{add, remove, has, any_same, same, unix_list, trim_trailing_separators}
use sshakku.Install.PathList.Laws as Laws
use sshakku.Prelude.{
  Text, codes, split, trim_last, trim_space, trim_left, trim_right, ends_with, Lacks, ◌≢◌, List, [],
  ◌∷◌, ◌++◌, true, false, ◌≡◌, refl, arith,
}

abbrev alias_lines : List Text
alias_lines = codes "alias ll=ls" ∷ codes "export A=1" ∷ []

abbrev alias_file : Text
alias_file = codes "alias ll=ls\n\n"

abbrev body : Text
body = codes "eval sshakku"

abbrev old_body : Text
old_body = codes "a\nb"

alias_lines-IsSettled : IsSettled alias_lines
unfolding Hook.trim_blank_tail Hook.bare trim_last trim_space trim_left trim_right
alias_lines-IsSettled = record { whole = omega arith; ordinary = (refl, (refl, tt)); ended = refl }

body-StaysOpen : StaysOpen body
unfolding split Hook.bare trim_last
body-StaysOpen = (refl, tt)

old_body-StaysOpen : StaysOpen old_body
unfolding split Hook.bare trim_last
old_body-StaysOpen = (refl, (refl, tt))

round_trip_example :
    strip_block (upsert_block (write_lines alias_lines) body) ≡ write_lines alias_lines
round_trip_example = Block.round_trip alias_lines body alias_lines-IsSettled body-StaysOpen

upsert_block-upsert_block_example :
    upsert_block (upsert_block alias_file old_body) body ≡ upsert_block alias_file body
upsert_block-upsert_block_example =
    Block.upsert_block-upsert_block alias_file old_body body old_body-StaysOpen

abbrev line_behind : List Text
line_behind = codes "set -u" ∷ []

lines-upsert_over_example :
    Hook.lines
      (upsert_block (write_lines (alias_lines ++ (block_lines old_body ++ line_behind))) body)
    ≡ separated (trim_blank_tail (alias_lines ++ line_behind)) ++ block_lines body
unfolding Hook.bare trim_last
lines-upsert_over_example =
    Replace.lines-upsert_over alias_lines line_behind old_body body alias_lines-IsSettled.whole
      (
        (
          omega arith,
          (omega arith, (omega arith, (omega arith, (omega arith, (omega arith, tt))))),
        ),
        tt,
      )
      alias_lines-IsSettled.ordinary (refl, tt) old_body-StaysOpen

strip_block-upsert_block_example :
    strip_block (upsert_block alias_file old_body) ≡ strip_block alias_file
strip_block-upsert_block_example =
    Block.strip_block-upsert_block alias_file old_body old_body-StaysOpen

strip_block_idem_example :
    strip_block (strip_block (upsert_block alias_file body))
    ≡ strip_block (upsert_block alias_file body)
strip_block_idem_example = Block.strip_block_idem (upsert_block alias_file body)

abbrev raw : Text
raw = codes "/bin:/usr/bin"

abbrev dir : Text
dir = codes "/opt/s"

dir_ne_nil : dir ≢ []
dir_ne_nil e = cc

dir-Lacks : Lacks unix_list.separator dir
unfolding unix_list
dir-Lacks = omega arith

same_dir : same unix_list dir dir ≡ true
unfolding same unix_list trim_trailing_separators trim_right
same_dir = refl

nil_other : same unix_list [] dir ≡ false
unfolding same unix_list trim_trailing_separators trim_right
nil_other = refl

not_in_raw : has unix_list raw dir ≡ false
unfolding has same unix_list trim_trailing_separators trim_right split any_same
not_in_raw = refl

raw_ne_blank : trim_space raw ≢ []
unfolding trim_space trim_left trim_right
raw_ne_blank e = cc

raw_unended : ends_with unix_list.separator raw ≡ false
unfolding unix_list
raw_unended = refl

has-add_example : has unix_list (add unix_list raw dir).0 dir ≡ true
has-add_example = Laws.has-add unix_list raw dir dir_ne_nil dir-Lacks same_dir

add-add_example : add unix_list (add unix_list raw dir).0 dir ≡ ((add unix_list raw dir).0, false)
add-add_example = Laws.add-add unix_list raw dir dir_ne_nil dir-Lacks same_dir

has-remove_example :
    has unix_list (remove unix_list (codes "/opt/s:/bin:/opt/s/") dir).0 dir ≡ false
has-remove_example =
    Laws.has-remove unix_list (codes "/opt/s:/bin:/opt/s/") dir dir_ne_nil nil_other

remove-add_example : remove unix_list (add unix_list raw dir).0 dir ≡ (raw, true)
remove-add_example =
    Laws.remove-add unix_list raw dir dir_ne_nil dir-Lacks same_dir not_in_raw raw_ne_blank
      raw_unended
