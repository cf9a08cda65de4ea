-- ===== src/Config/Durations.antt =====
-- internal/config/config.go: single values of the environment. The reading of a duration
-- (time.ParseDuration) is a parameter; a duration is a number of nanoseconds.
use sshakku.Prelude.{
  ℕ, zero, suc, ◌+◌, ◌*◌, leb, Text, codes, text_eq, trim_space, ℤ, pos, negsuc, atoi, List, [],
  ◌∷◌, Bool, true, false, ◌&&◌, ◌||◌, ◌==◌, Option, none, some, if◌then◌else◌, Result, ok, err, map,
}

-- A value that is refused: what was written, and the error of the library that could not read it.
pub data Problem (E : Type 0) : Type 0 where
  malformed : Text → E → Problem E
  not_positive invalid_value no_such_wallet no_such_prompter own_wallet : Text → Problem E
  empty_list : Problem E

-- A value to use, with what is wrong with the one that was written.
abbrev pub Answer : Type 0 → Type 0 → Type 0
Answer E A = A × Option (Problem E)

abbrev pub seconds : ℕ → ℤ
seconds n = pos (n * 1000000000)

abbrev pub default_key_lifetime : ℤ
default_key_lifetime = seconds 28800

abbrev pub default_giveup_ttl : ℤ
default_giveup_ttl = seconds 3600

abbrev pub default_command_timeout : ℤ
default_command_timeout = seconds 10

abbrev pub default_interactive_timeout : ℤ
default_interactive_timeout = seconds 120

-- A negative duration is none.
abbrev pub at_least_zero : {E : Type 0} → ℤ → Result E ℤ → Text → Answer E ℤ
at_least_zero fallback (err e) raw = (fallback, some (malformed raw e))
at_least_zero fallback (ok (negsuc n)) raw = (pos 0, none)
at_least_zero fallback (ok (pos n)) raw = (pos n, none)

abbrev pub above_zero : {E : Type 0} → ℤ → Result E ℤ → Text → Answer E ℤ
above_zero fallback (err e) raw = (fallback, some (malformed raw e))
above_zero fallback (ok (negsuc n)) raw = (fallback, some (not_positive raw))
above_zero fallback (ok (pos zero)) raw = (fallback, some (not_positive raw))
above_zero fallback (ok (pos (suc n))) raw = (pos (suc n), none)

module _ {E : Type 0} (parse_duration : Text → Result E ℤ) where
  -- KeyLifetime
  unfoldable pub key_lifetime_of : Text → Answer E ℤ
  key_lifetime_of raw =
      if text_eq raw []
      then (default_key_lifetime, none)
      else at_least_zero default_key_lifetime (parse_duration raw) raw

  -- GiveupTTL
  unfoldable pub giveup_ttl_of : Text → Answer E ℤ
  giveup_ttl_of raw =
      if text_eq raw []
      then (default_giveup_ttl, none)
      else at_least_zero default_giveup_ttl (parse_duration raw) raw

  -- positiveDuration
  unfoldable pub positive_duration : Text → ℤ → Answer E ℤ
  positive_duration raw fallback =
      if text_eq raw [] then (fallback, none) else above_zero fallback (parse_duration raw) raw

  -- CommandTimeout
  unfoldable pub command_timeout_of : Text → Answer E ℤ
  unfolding positive_duration
  command_timeout_of raw = positive_duration raw default_command_timeout

  -- InteractiveTimeout
  unfoldable pub interactive_timeout_of : Text → Answer E ℤ
  unfolding positive_duration
  interactive_timeout_of raw = positive_duration raw default_interactive_timeout

-- What strconv.Atoi made of a text, and whether that was a number.
abbrev pub at_least_one : ℤ → Bool → ℕ
at_least_one n false = 0
at_least_one (pos n) true = n
at_least_one (negsuc n) true = 0

-- EnvInt
unfoldable pub env_int : Text → ℕ
env_int raw = let (n, read) = atoi (trim_space raw) in at_least_one n read

-- strings.ToLower, as far as a comparison with an ASCII text tells: the dotted capital I and the
-- sign of the kelvin are the two characters outside ASCII with an ASCII letter as lower case.
abbrev pub lower_char : ℕ → ℕ
lower_char c =
    if leb 65 c && leb c 90
    then c + 32
    else if c == 0x130
    then 105
    else if c == 0x212a
    then 107
    else c

unfoldable pub to_lower : Text → Text
to_lower s = map lower_char s

-- slices.Contains
abbrev pub one_of : List Text → Text → Bool
one_of [] name = false
one_of (n ∷ ns) name = text_eq n name || one_of ns name

-- IsTruthy
unfoldable pub is_truthy : Text → Bool
unfolding to_lower
is_truthy raw =
    one_of (codes "1" ∷ codes "true" ∷ codes "yes" ∷ codes "on" ∷ []) (to_lower (trim_space raw))
