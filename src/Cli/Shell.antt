-- ===== src/Cli/Shell.antt =====
-- internal/cli/shell/dialect.go: assignments in the language of a shell.
pub mod Reading
use sshakku.Prelude.{
  ℕ, ◌==◌, Text, codes, newline, text_eq, has_prefix, drop, List, [], ◌∷◌, ◌++◌, Bool, true, false,
  if◌then◌else◌, Result, ok, err,
}

-- fmt.Sprintf where the verbs are all %s; whether a percent sign was just read.
unfoldable pub fill : Bool → Text → List Text → Text
fill pending [] args = []
fill false (c ∷ format) args =
    let verb = fill true format args in
    let plain = c ∷ fill false format args in if c == 37 then verb else plain
fill true (c ∷ format) [] = fill false format []
fill true (c ∷ format) (a ∷ args) = a ++ fill false format args

-- Dialect
pub record Dialect : Type 0 where
  pub name : Text
  pub quote : Text → Text
  pub var_line : Text
  pub env_line : Text

abbrev pub apostrophe : ℕ
apostrophe = 39

abbrev pub backslash : ℕ
backslash = 92

-- strings.ReplaceAll of a character
unfoldable pub replace_all : ℕ → Text → Text → Text
replace_all c by [] = []
replace_all c by (r ∷ s) = let rest = replace_all c by s in if r == c then by ++ rest else r ∷ rest

abbrev pub quoted_apostrophe : Text
quoted_apostrophe = apostrophe ∷ backslash ∷ apostrophe ∷ apostrophe ∷ []

-- Quote
unfoldable pub posix_quote : Text → Text
unfolding replace_all
posix_quote s = apostrophe ∷ replace_all apostrophe quoted_apostrophe s ++ apostrophe ∷ []

-- strings.ContainsRune
abbrev pub contains_rune : Text → ℕ → Bool
contains_rune [] r = false
contains_rune (c ∷ s) r = if c == r then true else contains_rune s r

abbrev pub power_shell_quote_chars : Text
power_shell_quote_chars = apostrophe ∷ 0x2018 ∷ 0x2019 ∷ 0x201a ∷ 0x201b ∷ []

unfoldable pub is_quote : ℕ → Bool
is_quote r = contains_rune power_shell_quote_chars r

-- The loop of powerShellSingleQuote.
unfoldable pub double_quotes : Text → Text
double_quotes [] = []
double_quotes (r ∷ s) = let rest = double_quotes s in if is_quote r then r ∷ r ∷ rest else r ∷ rest

-- powerShellSingleQuote
unfoldable pub power_shell_single_quote : Text → Text
unfolding double_quotes
power_shell_single_quote s = apostrophe ∷ double_quotes s ++ apostrophe ∷ []

abbrev pub posix : Text
posix = codes "posix"

abbrev pub power_shell : Text
power_shell = codes "powershell"

abbrev pub posix_dialect : Dialect
posix_dialect = record {
  name = posix;
  quote = posix_quote;
  var_line = codes "%s=%s" ++ newline ∷ [];
  env_line = codes "export %s=%s" ++ newline ∷ [];
}

abbrev pub power_shell_dialect : Dialect
power_shell_dialect = record {
  name = power_shell;
  quote = power_shell_single_quote;
  var_line = codes "$%s = %s" ++ newline ∷ [];
  env_line = codes "$env:%s = %s" ++ newline ∷ [];
}

abbrev pub dialects : List Dialect
dialects = posix_dialect ∷ power_shell_dialect ∷ []

-- SetVar
unfoldable pub set_var : Dialect → Text → Text → Text
unfolding fill
set_var d name value = fill false d.var_line (name ∷ d.quote value ∷ [])

-- SetEnv
unfoldable pub set_env : Dialect → Text → Text → Text
unfolding fill
set_env d name value = fill false d.env_line (name ∷ d.quote value ∷ [])

pub data ArgsError : Type 0 where
  shell_requires_value : ArgsError
  not_a_printable_shell unknown_argument : Text → ArgsError

-- The loop of named.
unfoldable pub named_in : List Dialect → Text → Result ArgsError Dialect
named_in [] name = err (not_a_printable_shell name)
named_in (d ∷ ds) name = let rest = named_in ds name in if text_eq d.name name then ok d else rest

-- named
unfoldable pub named : Text → Result ArgsError Dialect
unfolding named_in
named name = named_in dialects name

abbrev pub shell_is : Text
shell_is = codes "--shell="

-- The loop of FromArgs, from the name read so far.
unfoldable pub dialect_from : Text → List Text → Result ArgsError Dialect
unfolding named
dialect_from name [] = named name
dialect_from name (a ∷ []) =
    if has_prefix a shell_is
    then named (drop 8 a)
    else if text_eq a (codes "--shell")
    then err shell_requires_value
    else err (unknown_argument a)
dialect_from name (a ∷ v ∷ args) =
    let with_value = dialect_from (drop 8 a) (v ∷ args) in
    let value_next = dialect_from v args in
    if has_prefix a shell_is
    then with_value
    else if text_eq a (codes "--shell")
    then value_next
    else err (unknown_argument a)

-- FromArgs
unfoldable pub from_args : List Text → Result ArgsError Dialect
unfolding dialect_from
from_args args = dialect_from posix args
