-- ===== src/Keys/Lifetimes/Tests.antt =====
-- The record of one key, on a disk that holds one file.
use sshakku.FilePath as FilePath
use sshakku.Install.Files.{OsError, not_there}
use sshakku.Keys.Giveup.{Files}
use sshakku.Keys.Lifetimes.RoundTrip as RoundTrip
use sshakku.Keys.Lifetimes.RoundTrip.{IsTrimmed, Keeps}
use sshakku.Prelude.{
  ℕ, ◌+◌, ◌-◌, Text, codes, is_space, trim_right, ◌∷◌, [], false, Option, none, some, Result, ok,
  err, ◌≡◌, refl, arith, ap,
}

-- The file, and the clock.
pub record Disk : Type 0 where
  pub file : Option Text
  pub clock : ℕ

abbrev content_of : Option Text → Result (OsError (Unit {0})) Text
content_of none = err not_there
content_of (some text) = ok text

abbrev first_code : Text → Option ℕ
first_code [] = none
first_code (c ∷ s) = some (c - 20000)

abbrev disk : Files Disk (Unit {0})
disk = record {
  read_file = λ p w. (content_of w.file, w);
  remove = λ p w. (ok tt, record w { file = none });
  mkdir_all = λ p w. (ok tt, w);
  write_file = λ p text w. (ok tt, record w { file = some text });
  now = λ w. (w.clock, record w { clock = w.clock + 1 });
  parse_time = first_code;
  show_time = λ t. (t + 20000) ∷ [];
}

high_code : (t : ℕ) → is_space (t + 20000) ≡ false
high_code t = ground arith

high_code-IsTrimmed : (t : ℕ) → IsTrimmed ((t + 20000) ∷ [])
unfolding trim_right
high_code-IsTrimmed t = record { starts = high_code t; right = rw (high_code t) refl }

disk-Keeps : Keeps disk
disk-Keeps = record {
  second_of = λ t. t;
  show-IsTrimmed = high_code-IsTrimmed;
  show-Lacks = λ t. (omega arith, tt);
  parse_show = λ t. ap (λ (n : ℕ). some n) (omega arith);
  read_written = λ p text w h. refl;
}

abbrev key_file : Text
key_file = codes "/h/id_a"

abbrev empty_disk : Disk
empty_disk = record { file = none; clock = 100 }
