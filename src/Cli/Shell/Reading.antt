-- ===== src/Cli/Shell/Reading.antt =====
-- How a shell reads the literals that internal/cli/shell/dialect.go prints.
use sshakku.Cli.Shell.{
  Dialect, apostrophe, backslash, replace_all, quoted_apostrophe, posix_quote, contains_rune,
  shell_is, is_quote, double_quotes, power_shell_single_quote, posix, power_shell, posix_dialect,
  power_shell_dialect, set_var, set_env, ArgsError, named, dialect_from, from_args,
}
use mathlib.Core.Path.{subst}
use sshakku.Prelude.{
  has_prefix, drop, ℕ, ◌==◌, Text, codes, newline, text_eq, List, [], ◌∷◌, ◌++◌, append_assoc, Bool,
  true, false, ◌||◌, Bool-cases, Option, none, some, if◌then◌else◌, Result, ok, ◌≡◌, inl, inr, refl,
  sym, ap, ◌∙◌, arith,
}

-- A character that was read, in front of the rest of a literal.
abbrev pub cons_read : ℕ → Option (Text × Text) → Option (Text × Text)
cons_read c none = none
cons_read c (some (value, rest)) = some (c ∷ value, rest)

-- The characters that end a word, and those that stand for more than themselves.
abbrev pub ends_word : ℕ → Bool
ends_word = contains_rune (codes " ;&|()<>" ++ 9 ∷ newline ∷ [])

abbrev pub is_special : ℕ → Bool
is_special = contains_rune (codes "$*?[]{}~#!=%^`" ++ 34 ∷ [])

-- A word of a POSIX shell (XCU 2.2 and 2.3), and what is left behind it: none where a quote is left
-- open, or where the word is not one that stands for itself.
pub data Mode : Type 0 where
  bare in_quotes escaped : Mode

abbrev pub posix_word : Mode → Text → Option (Text × Text)
posix_word bare [] = some ([], [])
posix_word in_quotes [] = none
posix_word escaped [] = none
posix_word in_quotes (c ∷ s) =
    let closed = posix_word bare s in
    let inside = cons_read c (posix_word in_quotes s) in if c == apostrophe then closed else inside
posix_word escaped (c ∷ s) =
    let joined = posix_word bare s in
    let literal = cons_read c (posix_word bare s) in if c == newline then joined else literal
posix_word bare (c ∷ s) =
    let opened = posix_word in_quotes s in
    let escaping = posix_word escaped s in
    let more = cons_read c (posix_word bare s) in
    if c == apostrophe
    then opened
    else if c == backslash
    then escaping
    else if ends_word c
    then some ([], c ∷ s)
    else if is_special c
    then none
    else more

-- The single quotes of PowerShell (about_Quoting_Rules): the ASCII one, the left and right ones, the
-- low one and the reversed one of Unicode.
unfoldable pub ends_literal : ℕ → Bool
ends_literal c = c == 39 || (c == 8216 || (c == 8217 || (c == 8218 || c == 8219)))

is_quote-ends_literal : (c : ℕ) → is_quote c ≡ ends_literal c
unfolding is_quote ends_literal
is_quote-ends_literal c = ground arith

-- The rest of a single-quoted literal of PowerShell, behind its first quote: any of the five quotes
-- ends it, but two of them side by side stand for the second one. The flag says that one was read.
abbrev pub power_shell_literal : Bool → Text → Option (Text × Text)
power_shell_literal false [] = none
power_shell_literal true [] = some ([], [])
power_shell_literal false (c ∷ s) =
    let after = power_shell_literal true s in
    let inside = cons_read c (power_shell_literal false s) in
    if ends_literal c then after else inside
power_shell_literal true (c ∷ s) =
    let doubled = cons_read c (power_shell_literal false s) in
    if ends_literal c then doubled else some ([], c ∷ s)

abbrev pub power_shell_word : Text → Option (Text × Text)
power_shell_word [] = none
power_shell_word (c ∷ s) = if c == apostrophe then power_shell_literal false s else none

-- What a shell makes of a literal at the beginning of a text.
abbrev pub read_literal : Text → Text → Option (Text × Text)
read_literal language text =
    if text_eq language posix then posix_word bare text else power_shell_word text

posix_word-replace_all :
    (s rest : Text)
    → posix_word in_quotes
        (replace_all apostrophe quoted_apostrophe s ++ apostrophe ∷ newline ∷ rest)
      ≡ some (s, newline ∷ rest)
unfolding replace_all
posix_word-replace_all [] rest = refl
posix_word-replace_all (c ∷ s) rest = elim (Bool-cases (c == apostrophe)) [
  | inl e ↦
      let same : apostrophe ≡ c = ground arith in
      rw (e, posix_word-replace_all s rest) (ap (λ x. some (x ∷ s, newline ∷ rest)) same)
  | inr e ↦ rw (e, e, posix_word-replace_all s rest) refl
]

newline_no_end : ends_literal newline ≡ false
unfolding ends_literal
newline_no_end = refl

apostrophe_end : ends_literal apostrophe ≡ true
unfolding ends_literal
apostrophe_end = refl

power_shell_literal-double_quotes :
    (s rest : Text)
    → power_shell_literal false (double_quotes s ++ apostrophe ∷ newline ∷ rest)
      ≡ some (s, newline ∷ rest)
unfolding double_quotes
power_shell_literal-double_quotes [] rest = rw (apostrophe_end, newline_no_end) refl
power_shell_literal-double_quotes (c ∷ s) rest = elim (Bool-cases (is_quote c)) [
  | inl e ↦
      let k = sym (is_quote-ends_literal c) ∙ e in
      rw (e, k, power_shell_literal-double_quotes s rest) refl
  | inr e ↦
      let k = sym (is_quote-ends_literal c) ∙ e in
      rw (e, k, power_shell_literal-double_quotes s rest) refl
]

posix_quote-reads :
    (s rest : Text)
    → read_literal posix (posix_quote s ++ newline ∷ rest) ≡ some (s, newline ∷ rest)
unfolding posix_quote
posix_quote-reads s rest =
    ap (posix_word in_quotes)
      (append_assoc (replace_all apostrophe quoted_apostrophe s) (apostrophe ∷ []) (newline ∷ rest))
    ∙ posix_word-replace_all s rest

power_shell_quote-reads :
    (s rest : Text)
    → read_literal power_shell (power_shell_single_quote s ++ newline ∷ rest)
      ≡ some (s, newline ∷ rest)
unfolding power_shell_single_quote
power_shell_quote-reads s rest =
    ap (power_shell_literal false)
      (append_assoc (double_quotes s) (apostrophe ∷ []) (newline ∷ rest))
    ∙ power_shell_literal-double_quotes s rest

-- A line that ends in a literal, which the language of the dialect reads back as the value.
abbrev pub EndsInValue : Dialect → Text → Text → Text → Type 0
EndsInValue d before line value =
    (line ≡ before ++ (d.quote value ++ newline ∷ []))
    × ((rest : Text)
        → read_literal d.name (d.quote value ++ newline ∷ rest) ≡ some (value, newline ∷ rest))

-- The texts in front of the literal in the two lines of a dialect, for a name.
pub record ReadsBack (d : Dialect) : Type 0 where
  pub before_var : Text → Text
  pub before_env : Text → Text
  pub var_reads : (name value : Text) → EndsInValue d (before_var name) (set_var d name value) value
  pub env_reads : (name value : Text) → EndsInValue d (before_env name) (set_env d name value) value

-- A name, what stands between it and the value, and the value.
around : (name between value : Text) → name ++ (between ++ value) ≡ (name ++ between) ++ value
around name between value = sym (append_assoc name between value)

posix-ReadsBack : ReadsBack posix_dialect
unfolding set_var set_env
posix-ReadsBack = record {
  before_var = λ name. name ++ codes "=";
  before_env = λ name. codes "export " ++ (name ++ codes "=");
  var_reads = λ name value. (around name (codes "=") _, posix_quote-reads value);
  env_reads = λ name value. (
    ap (λ t. codes "export " ++ t) (around name (codes "=") (posix_quote value ++ newline ∷ [])),
    posix_quote-reads value,
  );
}

power_shell-ReadsBack : ReadsBack power_shell_dialect
unfolding set_var set_env
power_shell-ReadsBack = record {
  before_var = λ name. codes "$" ++ (name ++ codes " = ");
  before_env = λ name. codes "$env:" ++ (name ++ codes " = ");
  var_reads = λ name value. (
    ap (λ t. codes "$" ++ t)
        (around name (codes " = ") (power_shell_single_quote value ++ newline ∷ [])),
    power_shell_quote-reads value,
  );
  env_reads = λ name value. (
    ap (λ t. codes "$env:" ++ t)
        (around name (codes " = ") (power_shell_single_quote value ++ newline ∷ [])),
    power_shell_quote-reads value,
  );
}

abbrev answered : Dialect → Result ArgsError Dialect
answered d = ok d

is-ReadsBack : (d e : Dialect) → answered d ≡ ok e → ReadsBack d → ReadsBack e
is-ReadsBack d e h r = let same : d ≡ e = cc in subst ReadsBack same r

named-ReadsBack : (name : Text) (d : Dialect) → named name ≡ ok d → ReadsBack d
unfolding named
named-ReadsBack name d h = elim (Bool-cases (text_eq posix name)) [
  | inl e ↦ is-ReadsBack _ _ (let k = rw e at h in k) posix-ReadsBack
  | inr e ↦ elim (Bool-cases (text_eq power_shell name)) [
    | inl k ↦ is-ReadsBack _ _ (let z = rw (e, k) at h in z) power_shell-ReadsBack
    | inr k ↦ absurd (let z = rw (e, k) at h in cc)
  ]
]

dialect_from-ReadsBack :
    (name : Text) (args : List Text) (d : Dialect) → dialect_from name args ≡ ok d → ReadsBack d
unfolding dialect_from
dialect_from-ReadsBack name [] d h = named-ReadsBack name d h
dialect_from-ReadsBack name (a ∷ []) d h = elim (Bool-cases (has_prefix a shell_is)) [
  | inl e ↦ named-ReadsBack (drop 8 a) d (let z = rw e at h in z)
  | inr e ↦ elim (Bool-cases (text_eq a (codes "--shell"))) [
    | inl k ↦ absurd (let z = rw (e, k) at h in cc)
    | inr k ↦ absurd (let z = rw (e, k) at h in cc)
  ]
]
dialect_from-ReadsBack name (a ∷ v ∷ args) d h = elim (Bool-cases (has_prefix a shell_is)) [
  | inl e ↦ dialect_from-ReadsBack (drop 8 a) (v ∷ args) d (let z = rw e at h in z)
  | inr e ↦ elim (Bool-cases (text_eq a (codes "--shell"))) [
    | inl k ↦ dialect_from-ReadsBack v args d (let z = rw (e, k) at h in z)
    | inr k ↦ absurd (let z = rw (e, k) at h in cc)
  ]
]

-- Whatever arguments a dialect was chosen by, both lines that it prints for a name and a value end
-- in a literal, behind a text that depends on the name alone, and the language that the dialect is
-- called by reads that literal, with the end of the line behind it, as exactly the value: a word of
-- a POSIX shell that nothing is expanded in, or a single-quoted string of PowerShell.
pub from_args-ReadsBack : (args : List Text) (d : Dialect) → from_args args ≡ ok d → ReadsBack d
unfolding from_args
from_args-ReadsBack args d h = dialect_from-ReadsBack posix args d h
