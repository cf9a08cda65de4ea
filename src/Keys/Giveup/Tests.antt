-- ===== src/Keys/Giveup/Tests.antt =====
-- A store of one record, on a disk that holds one file.
use sshakku.FilePath as FilePath
use sshakku.Install.Files.{OsError, not_there}
use sshakku.Keys.Giveup.{Files, Store, path_of, is_given_up, clear_key}
use sshakku.Keys.Giveup.Standing as Standing
use sshakku.Keys.Giveup.Standing.{Keeps}
use sshakku.Prelude.{
  ℕ, ◌+◌, ◌-◌, Text, codes, newline, trim_space, trim_left, trim_right, split, pos, ◌∷◌, [], false,
  Option, none, some, Result, ok, err, ◌≡◌, refl, arith,
}

-- The file, and a clock that goes on by one with each look at it.
pub record Disk : Type 0 where
  pub file : Option Text
  pub clock : ℕ

abbrev content_of : Option Text → Result (OsError (Unit {0})) Text
content_of none = err not_there
content_of (some text) = ok text

abbrev first_code : Text → Option ℕ
first_code [] = none
first_code (c ∷ s) = some (c - 20000)

abbrev disk : Files Disk (Unit {0})
disk = record {
  read_file = λ p w. (content_of w.file, w);
  remove = λ p w. (ok tt, record w { file = none });
  mkdir_all = λ p w. (ok tt, w);
  write_file = λ p text w. (ok tt, record w { file = some text });
  now = λ w. (w.clock, record w { clock = w.clock + 1 });
  parse_time = first_code;
  show_time = λ t. (t + 20000) ∷ [];
}

parse-show : (t : ℕ) → first_code (trim_space ((t + 20000) ∷ newline ∷ [])) ≡ some t
unfolding trim_space trim_left trim_right
parse-show t = ground arith

disk-Keeps : Keeps disk
disk-Keeps = record {
  second_of = λ t. t;
  second_of_le = λ t. omega arith;
  parse_show = parse-show;
  read_written = λ p text w h. refl;
  read_removed = λ p w h. refl;
}

abbrev store : Store
store = record { dir = codes "/run"; ttl = pos 2 }

abbrev empty_disk : Disk
empty_disk = record { file = none; clock = 100 }

cleared_here : (clear_key disk store (codes "id_a") empty_disk).0 ≡ ok tt
unfolding clear_key path_of FilePath.base split trim_right trim_space trim_left
cleared_here = refl

clear_key-over_example :
    (is_given_up disk store (codes "id_a") (clear_key disk store (codes "id_a") empty_disk).1).0
    ≡ false
clear_key-over_example =
    Standing.clear_key-over disk disk-Keeps store (codes "id_a") empty_disk cleared_here
