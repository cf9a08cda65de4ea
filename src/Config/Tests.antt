-- ===== src/Config/Tests.antt =====
-- Settings of two files, and command lines of editors.
use sshakku.Config.Choices.{linux, resolve_wallet_store_mode}
use sshakku.Config.Durations.{is_truthy}
use sshakku.Config.Editor.{split_command_line}
use sshakku.Config.Editor.RoundTrip as RoundTrip
use sshakku.Config.Editor.RoundTrip.{Word, quoted, bare, word_of, command_line}
use sshakku.Config.File.{no_file, merge, override}
use sshakku.Config.Provenance.{Machine, from_file, explain_one, stated_by}
use sshakku.Config.Settings.{Readers, resolve, stores_wallet, resolve_home_path}
use sshakku.Config.Precedence as Precedence
use sshakku.Config.Precedence.{
  IsDecidedByLast, text_fields, list_fields, flag_fields, number_fields,
}
use sshakku.Config.Sources.{Source, merged}
use sshakku.Config.Table.{
  explain, setting_table, editor_row, first_editor_found, overruled, not_blank,
}
use sshakku.Config.Truth.Blank as Blank
use sshakku.Config.Truth.Origins.{no_lookup}
use sshakku.Config.Truth.Report as Report
use sshakku.Config.Truth.Report.{Pairwise}
use sshakku.Config.Truth.Row.{IsTruthful}
use sshakku.Config.Usable as Usable
use sshakku.Config.Usable.{IsUsable}
use sshakku.Config.Write.{with_key_dir, replace_first, is_key_dir_assignment}
use sshakku.Config.Write.Laws as Write
use sshakku.FilePath
use sshakku.Prelude.{
  All, join, split, Text, codes, atoi, ℤ, pos, List, [], ◌∷◌, ◌++◌, Bool, true, false, none, some,
  Result, ok, err, ◌≡◌, refl, map, arith, show_int, trim_space, trim_left, trim_right,
}

-- Durations that are written as a number of nanoseconds, and patterns that are all well-formed.
abbrev read_number : ℤ × Bool → Result Text ℤ
read_number (n, true) = ok n
read_number (n, false) = err (codes "no number")

abbrev readers : Readers Text
readers = record { parse_duration = λ raw. read_number (atoi raw); match_error = λ pattern. none }

abbrev machine : Machine
machine = record {
  show_duration = show_int;
  platform_editors = codes "vi" ∷ [];
  find_editor = λ name. some (codes "/usr/bin/" ++ name);
}

abbrev own : Source Text
own = record {
  path = codes "/c/config.toml";
  file = record no_file {
    editor = some (codes "emacs -nw");
    max_attempts = some (pos 5);
    wallet_store_mode = some (codes "exclude");
    wallet_store_exclude = some (codes "id_rsa" ∷ []);
    secret_container = some (codes "Login");
  };
  err = none;
}

abbrev drop_in : Source Text
drop_in = record {
  path = codes "/c/config.d/10.toml";
  file = record no_file { max_attempts = some (pos 2); on_dismiss = some (codes "never") };
  err = none;
}

abbrev blank : Source Text
blank = record {
  path = codes "/c/config.d/20.toml";
  file = record no_file { editor = some (codes " ") };
  err = none;
}

kept_from_wallet :
    stores_wallet (resolve readers linux (merged (own ∷ drop_in ∷ [])) no_lookup).0 (codes "id_rsa")
    ≡ false
unfolding stores_wallet resolve merged merge resolve_wallet_store_mode override
kept_from_wallet = refl

attempts_overruled :
    overruled (setting_table machine) (own ∷ drop_in ∷ []) (codes "/c/config.toml") no_lookup
    ≡ (codes "max_attempts", from_file (codes "/c/config.d/10.toml")) ∷ []
unfolding overruled stated_by trim_space trim_left trim_right
attempts_overruled = refl

home_path : resolve_home_path (codes "/home/me") (codes "~/keys") ≡ codes "/home/me/keys"
unfolding resolve_home_path FilePath.join FilePath.clean join split
home_path = refl

truthy : is_truthy (codes " YES") ≡ true
unfolding is_truthy trim_space trim_left trim_right
truthy = refl

resolve-IsUsable_example :
    IsUsable readers linux (resolve readers linux (merged (own ∷ drop_in ∷ [])) no_lookup).0
resolve-IsUsable_example =
    Usable.resolve-IsUsable readers linux (merged (own ∷ drop_in ∷ [])) no_lookup refl refl

emacs_named : not_blank (codes "emacs -nw") ≡ true
unfolding trim_space trim_left trim_right
emacs_named = refl

space_blank : not_blank (codes " ") ≡ false
unfolding trim_space trim_left trim_right
space_blank = refl

explain-IsTruthful_example :
    Pairwise
      (IsTruthful readers linux (own ∷ drop_in ∷ []) no_lookup)
      (setting_table machine)
      (explain readers linux machine (own ∷ drop_in ∷ []) no_lookup)
explain-IsTruthful_example =
    Report.explain-IsTruthful readers linux machine (own ∷ drop_in ∷ []) no_lookup
      (emacs_named, (refl, tt))

blank_editor_misattributed_example :
    explain_one
      (own ∷ blank ∷ [])
      no_lookup
      (resolve readers linux (merged (own ∷ blank ∷ [])) no_lookup).0
      (resolve readers linux (merged (own ∷ blank ∷ [])) no_lookup).1
      (editor_row machine)
    ≡ record {
      name = codes "editor";
      value = first_editor_found (codes "vi" ∷ []) machine.find_editor;
      from = from_file (codes "/c/config.toml");
      refused = none;
    }
blank_editor_misattributed_example =
    Blank.blank_editor_misattributed readers linux machine [] own blank (codes "emacs -nw")
      (codes " ") refl emacs_named refl space_blank

merged-last_stated_example :
    All (IsDecidedByLast (own ∷ drop_in ∷ [])) text_fields
    × All (IsDecidedByLast (own ∷ drop_in ∷ [])) list_fields
    × All (IsDecidedByLast (own ∷ drop_in ∷ [])) flag_fields
    × All (IsDecidedByLast (own ∷ drop_in ∷ [])) number_fields
merged-last_stated_example = Precedence.merged-last_stated (own ∷ drop_in ∷ [])

abbrev words : List Word
words = quoted (codes "a b") ∷ bare (codes "-w") ∷ quoted [] ∷ []

split_command_line-command_line_example :
    split_command_line (command_line words) ≡ map word_of words
split_command_line-command_line_example = RoundTrip.split_command_line-command_line words (
  (omega arith, (omega arith, (omega arith, tt))),
  ((λ h. cc, ((omega arith, refl), ((omega arith, refl), tt))), (tt, tt)),
)

abbrev quoted_dir : Text → Text
quoted_dir d = 34 ∷ d ++ 34 ∷ []

with_key_dir-with_key_dir_example :
    with_key_dir quoted_dir
      (with_key_dir quoted_dir (codes "# keys\nkey_dir = 1\n") (codes "/a"))
      (codes "/b")
    ≡ with_key_dir quoted_dir (codes "# keys\nkey_dir = 1\n") (codes "/b")
with_key_dir-with_key_dir_example =
    Write.with_key_dir-with_key_dir quoted_dir (codes "# keys\nkey_dir = 1\n") (codes "/a")
      (codes "/b") (omega arith, (omega arith, (omega arith, (omega arith, tt))))
      (omega arith, (omega arith, (omega arith, (omega arith, tt))))

with_key_dir_replaces :
    with_key_dir quoted_dir (codes "# key_dir = 0\n key_dir= 1\nx\n") (codes "/a")
    ≡ codes "# key_dir = 0\nkey_dir = \"/a\"\nx\n"
unfolding with_key_dir split join replace_first is_key_dir_assignment trim_left
with_key_dir_replaces = refl

with_key_dir_appends :
    with_key_dir quoted_dir (codes "# key_dir = 0") (codes "/a")
    ≡ codes "# key_dir = 0\n\nkey_dir = \"/a\"\n"
unfolding with_key_dir split join replace_first is_key_dir_assignment trim_left
with_key_dir_appends = refl
