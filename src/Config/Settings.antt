-- ===== src/Config/Settings.antt =====
-- internal/config/file.go: the settings in force, and what is asked of them.
use sshakku.Config.Choices.{
  Platform, deref_string, items_of, Lookup, coalesce, resolve_max_attempts, resolve_bool,
  stated_editor, resolve_wallet_store_mode, resolve_auto_load_mode, resolve_secret_backend,
  resolve_gui_prompter, resolve_on_dismiss, resolve_keepassxc_route, resolve_service_prefix,
  resolve_secret_container, resolve_key_patterns,
}
use sshakku.Config.Durations.{
  Problem, key_lifetime_of, giveup_ttl_of, command_timeout_of, interactive_timeout_of, one_of,
}
use sshakku.Config.File.{File}
use sshakku.FilePath
use sshakku.FilePath.{clean, slash}
use sshakku.Keys.Enumerate.{Enumerator}
use sshakku.Prelude.{
  ℕ, Text, codes, text_eq, has_prefix, drop, ℤ, List, [], ◌∷◌, ◌++◌, Bool, true, false, not, Option,
  none, some, if◌then◌else◌, Result,
}

-- Settings
pub record Settings : Type 0 where
  pub key_lifetime : ℤ
  pub max_attempts : ℕ
  pub giveup_ttl : ℤ
  pub no_giveup : Bool
  pub command_timeout : ℤ
  pub interactive_timeout : ℤ
  pub quiet : Bool
  pub wallet_store_mode : Text
  pub wallet_store_include : List Text
  pub wallet_store_exclude : List Text
  pub auto_load_mode : Text
  pub auto_load_include : List Text
  pub auto_load_exclude : List Text
  pub service_prefix : Text
  pub secret_container : Text
  pub key_dir : Text
  pub key_patterns : List Text
  pub secret_backend : Text
  pub one_password_vault : Text
  pub bitwarden_email : Text
  pub bitwarden_server : Text
  pub keepassxc_route : Text
  pub keepassxc_database : Text
  pub keepassxc_key_file : Text
  pub keepassxc_no_password : Bool
  pub gui_prompter : Text
  pub on_dismiss : Text
  pub editor : Text

-- What a policy says of a key.
abbrev pub allowed_by : Text → List Text → List Text → Text → Bool
allowed_by mode included excluded keyname =
    if text_eq mode (codes "include")
    then one_of included keyname
    else if text_eq mode (codes "exclude")
    then not (one_of excluded keyname)
    else true

-- StoresWallet
unfoldable pub stores_wallet : Settings → Text → Bool
stores_wallet s = allowed_by s.wallet_store_mode s.wallet_store_include s.wallet_store_exclude

-- AutoLoads
unfoldable pub auto_loads : Settings → Text → Bool
auto_loads s = allowed_by s.auto_load_mode s.auto_load_include s.auto_load_exclude

abbrev pub key_dir_name : Text
key_dir_name = codes ".ssh"

-- resolveHomePath
unfoldable pub resolve_home_path : Text → Text → Text
resolve_home_path home dir =
    if text_eq dir (codes "~")
    then home
    else if has_prefix dir (codes "~/")
    then FilePath.join home (drop 2 dir)
    else if has_prefix dir (slash ∷ [])
    then clean dir
    else FilePath.join home dir

-- KeyEnumerator
unfoldable pub key_enumerator : Settings → Text → Enumerator
unfolding resolve_home_path
key_enumerator s home =
    if text_eq s.key_dir []
    then record {
      dir = FilePath.join home key_dir_name;
      patterns = s.key_patterns;
      must_exist = false;
    }
    else record {
      dir = resolve_home_path home s.key_dir;
      patterns = s.key_patterns;
      must_exist = true;
    }

-- The libraries that read single values.
pub record Readers (E : Type 0) : Type 0 where
  pub parse_duration : Text → Result E ℤ
  pub match_error : Text → Option E

-- SettingError
abbrev pub SettingError : Type 0 → Type 0
SettingError E = Text × Problem E

-- refused
unfoldable pub refused :
    {E : Type 0} → List (SettingError E) → Text → Option (Problem E) → List (SettingError E)
refused errs name none = errs
refused errs name (some p) = errs ++ (name, p) ∷ []

abbrev pub true_or_unset : Option Bool → Bool
true_or_unset none = false
true_or_unset (some b) = b

-- The calls of refused in Resolve.
unfoldable pub refuse_each :
    {E : Type 0} → List (SettingError E) → List (Text × Option (Problem E)) → List (SettingError E)
unfolding refused
refuse_each errs [] = errs
refuse_each errs ((name, problem) ∷ rest) = refuse_each (refused errs name problem) rest

module _ {E : Type 0} (lib : Readers E) (p : Platform) where
  -- The settings of Resolve.
  unfoldable pub settings_of : File → Lookup → Settings
  settings_of file lookup = record {
    key_lifetime =
        (key_lifetime_of lib.parse_duration
          (coalesce lookup (codes "SSHAKKU_KEY_LIFETIME") file.key_lifetime)).0;
    giveup_ttl =
        (giveup_ttl_of lib.parse_duration
          (coalesce lookup (codes "SSHAKKU_GIVEUP_TTL") file.giveup_ttl)).0;
    command_timeout =
        (command_timeout_of lib.parse_duration
          (coalesce lookup (codes "SSHAKKU_COMMAND_TIMEOUT") file.command_timeout)).0;
    interactive_timeout =
        (interactive_timeout_of lib.parse_duration
          (coalesce lookup (codes "SSHAKKU_INTERACTIVE_TIMEOUT") file.interactive_timeout)).0;
    max_attempts = resolve_max_attempts lookup file.max_attempts;
    no_giveup = resolve_bool lookup (codes "SSHAKKU_NO_GIVEUP") file.no_giveup;
    quiet = resolve_bool lookup (codes "SSHAKKU_QUIET") file.quiet;
    wallet_store_mode = (resolve_wallet_store_mode {E = E} file.wallet_store_mode).0;
    wallet_store_include = items_of file.wallet_store_include;
    wallet_store_exclude = items_of file.wallet_store_exclude;
    auto_load_mode = (resolve_auto_load_mode {E = E} file.auto_load_mode).0;
    auto_load_include = items_of file.auto_load_include;
    auto_load_exclude = items_of file.auto_load_exclude;
    service_prefix = (resolve_service_prefix {E = E} file.service_prefix).0;
    secret_container = (resolve_secret_container {E = E} file.secret_container).0;
    key_dir = deref_string file.key_dir;
    key_patterns = (resolve_key_patterns lib.match_error file.key_patterns).0;
    secret_backend = (resolve_secret_backend {E = E} p file.secret_backend).0;
    one_password_vault = deref_string file.one_password_vault;
    bitwarden_email = deref_string file.bitwarden_email;
    bitwarden_server = deref_string file.bitwarden_server;
    keepassxc_route = (resolve_keepassxc_route {E = E} file.keepassxc_route).0;
    keepassxc_database = deref_string file.keepassxc_database;
    keepassxc_key_file = deref_string file.keepassxc_key_file;
    keepassxc_no_password = true_or_unset file.keepassxc_no_password;
    gui_prompter = (resolve_gui_prompter {E = E} p file.gui_prompter).0;
    on_dismiss = (resolve_on_dismiss {E = E} file.on_dismiss).0;
    editor = stated_editor file.editor lookup;
  }

  -- What each setting of Resolve was refused for, in order.
  unfoldable pub problems_of : File → Lookup → List (Text × Option (Problem E))
  problems_of file lookup =
      (
        codes "key_lifetime",
        (key_lifetime_of lib.parse_duration
            (coalesce lookup (codes "SSHAKKU_KEY_LIFETIME") file.key_lifetime)).1,
      )
      ∷ (
        codes "giveup_ttl",
        (giveup_ttl_of lib.parse_duration
            (coalesce lookup (codes "SSHAKKU_GIVEUP_TTL") file.giveup_ttl)).1,
      )
      ∷ (
        codes "command_timeout",
        (command_timeout_of lib.parse_duration
            (coalesce lookup (codes "SSHAKKU_COMMAND_TIMEOUT") file.command_timeout)).1,
      )
      ∷ (
        codes "interactive_timeout",
        (interactive_timeout_of lib.parse_duration
            (coalesce lookup (codes "SSHAKKU_INTERACTIVE_TIMEOUT") file.interactive_timeout)).1,
      )
      ∷ (codes "wallet_store_mode", (resolve_wallet_store_mode file.wallet_store_mode).1)
      ∷ (codes "auto_load_mode", (resolve_auto_load_mode file.auto_load_mode).1)
      ∷ (codes "service_prefix", (resolve_service_prefix file.service_prefix).1)
      ∷ (codes "secret_container", (resolve_secret_container file.secret_container).1)
      ∷ (codes "key_patterns", (resolve_key_patterns lib.match_error file.key_patterns).1)
      ∷ (codes "secret_backend", (resolve_secret_backend p file.secret_backend).1)
      ∷ (codes "keepassxc_route", (resolve_keepassxc_route file.keepassxc_route).1)
      ∷ (codes "gui_prompter", (resolve_gui_prompter p file.gui_prompter).1)
      ∷ (codes "on_dismiss", (resolve_on_dismiss file.on_dismiss).1)
      ∷ []

  -- Resolve
  unfoldable pub resolve : File → Lookup → Settings × List (SettingError E)
  unfolding settings_of problems_of refuse_each
  resolve file lookup = (settings_of file lookup, refuse_each [] (problems_of file lookup))
