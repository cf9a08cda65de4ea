-- ===== src/Config/Choices.antt =====
-- internal/config/file.go and the backends and prompters of each system: the settings with a
-- value of their own, or one out of a few.
use sshakku.FilePath.{slash}
use sshakku.Config.Durations.{
  Problem, malformed, invalid_value, no_such_wallet, no_such_prompter, own_wallet, empty_list,
  Answer, to_lower, one_of, env_int, is_truthy,
}
use sshakku.Prelude.{
  ℕ, zero, suc, Text, codes, text_eq, is_space, trim_space, contains, ℤ, pos, negsuc, List, [], ◌∷◌,
  Bool, false, ◌||◌, Option, none, some, if◌then◌else◌,
}

-- What differs by operating system: platformSecretBackends, platformDefaultSecretBackend and
-- platformGUIPrompters.
pub record Platform : Type 0 where
  pub secret_backends : List Text
  pub default_backend : Text
  pub gui_prompters : List Text

abbrev pub linux : Platform
linux = record {
  secret_backends =
      codes "secret-service" ∷ codes "1password" ∷ codes "bitwarden" ∷ codes "keepassxc" ∷ [];
  default_backend = codes "secret-service";
  gui_prompters =
      codes "auto" ∷ codes "none" ∷ codes "pinentry" ∷ codes "kdialog" ∷ codes "zenity" ∷ [];
}

-- derefString
unfoldable pub deref_string : Option Text → Text
deref_string none = []
deref_string (some s) = s

-- A slice of which only the items matter.
abbrev pub items_of : Option (List Text) → List Text
items_of none = []
items_of (some items) = items

-- os.LookupEnv
abbrev pub Lookup : Type 0
Lookup = Text → Option Text

abbrev pub variable_or_file : Option Text → Option Text → Text
variable_or_file (some v) file_val = v
variable_or_file none file_val = deref_string file_val

-- coalesce
unfoldable pub coalesce : Lookup → Text → Option Text → Text
unfolding deref_string
coalesce lookup name file_val = variable_or_file (lookup name) file_val

abbrev pub positive_or_zero : Option ℤ → ℕ
positive_or_zero none = 0
positive_or_zero (some (pos n)) = n
positive_or_zero (some (negsuc n)) = 0

abbrev pub attempts_from : Option Text → Option ℤ → ℕ
attempts_from none file_val = positive_or_zero file_val
attempts_from (some v) file_val = elim (env_int v) [
  | zero ↦ positive_or_zero file_val
  | suc n ↦ suc n
]

-- resolveMaxAttempts
unfoldable pub resolve_max_attempts : Lookup → Option ℤ → ℕ
resolve_max_attempts lookup file_val =
    attempts_from (lookup (codes "SSHAKKU_MAX_ATTEMPTS")) file_val

abbrev pub truth_from : Option Text → Option Bool → Bool
truth_from (some v) file_val = is_truthy v
truth_from none none = false
truth_from none (some b) = b

-- resolveBool
unfoldable pub resolve_bool : Lookup → Text → Option Bool → Bool
resolve_bool lookup name file_val = truth_from (lookup name) file_val

-- The first of the variables that holds more than spaces, without the spaces round it.
abbrev pub named_by : Option Text → Text
named_by none = []
named_by (some v) = trim_space v

unfoldable pub first_named : Lookup → List Text → Text
first_named lookup [] = []
first_named lookup (name ∷ names) =
    let rest = first_named lookup names in
    if text_eq (named_by (lookup name)) [] then rest else named_by (lookup name)

-- statedEditor
unfoldable pub stated_editor : Option Text → Lookup → Text
unfolding deref_string first_named
stated_editor file_val lookup =
    let named = trim_space (deref_string file_val) in
    if text_eq named [] then first_named lookup (codes "EDITOR" ∷ codes "VISUAL" ∷ []) else named

-- strings.ContainsFunc
abbrev pub any_char : (ℕ → Bool) → Text → Bool
any_char p [] = false
any_char p (c ∷ s) = p c || any_char p s

-- unusableName
unfoldable pub unusable_name : Text → Bool
unusable_name name = any_char is_space name || contains (slash ∷ []) name

abbrev pub default_service_prefix : Text
default_service_prefix = codes "SSHakku-Key"

abbrev pub desktop_own_wallets : List Text
desktop_own_wallets = codes "default" ∷ codes "login" ∷ codes "session" ∷ codes "kdewallet" ∷ []

abbrev pub auto : Text
auto = codes "auto"

abbrev pub policy_modes : List Text
policy_modes = codes "all" ∷ codes "include" ∷ codes "exclude" ∷ []

abbrev pub keepassxc_routes : List Text
keepassxc_routes = auto ∷ codes "secret-service" ∷ codes "native" ∷ codes "cli" ∷ []

abbrev pub dismissals : List Text
dismissals = codes "stop" ∷ codes "skip" ∷ codes "retry" ∷ []

module _ {E : Type 0} where
  -- A value that is one of the known ones, or the fallback and a refusal.
  abbrev pub chosen : List Text → Text → (Text → Problem E) → Text → Answer E Text
  chosen known fallback refuse v =
      if text_eq v []
      then (fallback, none)
      else if one_of known v
      then (v, none)
      else (fallback, some (refuse v))

  abbrev pub choose : List Text → Text → (Text → Problem E) → Option Text → Answer E Text
  choose known fallback refuse none = (fallback, none)
  choose known fallback refuse (some v) = chosen known fallback refuse v

  -- resolveWalletStoreMode
  unfoldable pub resolve_wallet_store_mode : Option Text → Answer E Text
  resolve_wallet_store_mode = choose policy_modes (codes "all") invalid_value

  -- resolveAutoLoadMode
  unfoldable pub resolve_auto_load_mode : Option Text → Answer E Text
  resolve_auto_load_mode = choose policy_modes (codes "all") invalid_value

  -- resolveSecretBackendFrom
  unfoldable pub resolve_secret_backend_from : Option Text → List Text → Text → Answer E Text
  resolve_secret_backend_from file_val available fallback =
      choose available fallback no_such_wallet file_val

  -- resolveSecretBackend
  unfoldable pub resolve_secret_backend : Platform → Option Text → Answer E Text
  unfolding resolve_secret_backend_from
  resolve_secret_backend p file_val =
      resolve_secret_backend_from file_val p.secret_backends p.default_backend

  -- resolveGUIPrompterFrom
  unfoldable pub resolve_gui_prompter_from : Option Text → List Text → Answer E Text
  resolve_gui_prompter_from file_val available = choose available auto no_such_prompter file_val

  -- resolveGUIPrompter
  unfoldable pub resolve_gui_prompter : Platform → Option Text → Answer E Text
  unfolding resolve_gui_prompter_from
  resolve_gui_prompter p file_val = resolve_gui_prompter_from file_val p.gui_prompters

  -- resolveOnDismiss
  unfoldable pub resolve_on_dismiss : Option Text → Answer E Text
  resolve_on_dismiss = choose dismissals (codes "stop") invalid_value

  -- resolveKeePassXCRoute
  unfoldable pub resolve_keepassxc_route : Option Text → Answer E Text
  resolve_keepassxc_route = choose keepassxc_routes auto invalid_value

  -- resolveServicePrefix
  unfoldable pub resolve_service_prefix : Option Text → Answer E Text
  unfolding deref_string unusable_name
  resolve_service_prefix file_val =
      let prefix = deref_string file_val in
      if text_eq prefix []
      then (default_service_prefix, none)
      else if unusable_name prefix
      then (default_service_prefix, some (invalid_value prefix))
      else (prefix, none)

  -- resolveSecretContainer
  unfoldable pub resolve_secret_container : Option Text → Answer E Text
  unfolding deref_string unusable_name
  resolve_secret_container file_val =
      let container = deref_string file_val in
      if text_eq container []
      then ([], none)
      else if unusable_name container
      then ([], some (invalid_value container))
      else if one_of desktop_own_wallets (to_lower container)
      then ([], some (own_wallet container))
      else (container, none)

  abbrev pub pattern_problem : Text → Option E → Option (Problem E)
  pattern_problem pattern none =
      if text_eq pattern [] || contains (slash ∷ []) pattern
      then some (invalid_value pattern)
      else none
  pattern_problem pattern (some e) =
      if text_eq pattern [] || contains (slash ∷ []) pattern
      then some (invalid_value pattern)
      else some (malformed pattern e)

  abbrev pub or_else : Option (Problem E) → Option (Problem E) → Option (Problem E)
  or_else none other = other
  or_else (some p) other = some p

  -- The loop of resolveKeyPatterns: what is wrong with the first pattern that cannot be used. The
  -- error of filepath.Match for a pattern is a parameter.
  unfoldable pub first_problem : (Text → Option E) → List Text → Option (Problem E)
  first_problem match_error [] = none
  first_problem match_error (p ∷ ps) =
      or_else (pattern_problem p (match_error p)) (first_problem match_error ps)

  abbrev pub patterns_unless : List Text → Option (Problem E) → Answer E (List Text)
  patterns_unless patterns none = (patterns, none)
  patterns_unless patterns (some p) = ([], some p)

  -- resolveKeyPatterns: nil is the empty list
  unfoldable pub resolve_key_patterns :
      (Text → Option E) → Option (List Text) → Answer E (List Text)
  unfolding first_problem
  resolve_key_patterns match_error none = ([], none)
  resolve_key_patterns match_error (some []) = ([], some empty_list)
  resolve_key_patterns match_error (some (p ∷ ps)) =
      patterns_unless (p ∷ ps) (first_problem match_error (p ∷ ps))
