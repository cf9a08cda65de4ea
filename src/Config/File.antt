-- ===== src/Config/File.antt =====
-- internal/config/file.go: what a configuration file states, and what two of them state together.
use sshakku.Prelude.{Text, ℤ, List, Bool, Option, none, some}

-- File: a setting that a file does not mention is none. A list keeps the difference between nil
-- and empty, as the slice of the source does.
pub record File : Type 0 where
  pub key_lifetime : Option Text
  pub max_attempts : Option ℤ
  pub giveup_ttl : Option Text
  pub no_giveup : Option Bool
  pub quiet : Option Bool
  pub wallet_store_mode : Option Text
  pub wallet_store_include : Option (List Text)
  pub wallet_store_exclude : Option (List Text)
  pub auto_load_mode : Option Text
  pub auto_load_include : Option (List Text)
  pub auto_load_exclude : Option (List Text)
  pub command_timeout : Option Text
  pub interactive_timeout : Option Text
  pub service_prefix : Option Text
  pub secret_container : Option Text
  pub key_dir : Option Text
  pub key_patterns : Option (List Text)
  pub secret_backend : Option Text
  pub one_password_vault : Option Text
  pub bitwarden_email : Option Text
  pub bitwarden_server : Option Text
  pub keepassxc_route : Option Text
  pub keepassxc_database : Option Text
  pub keepassxc_key_file : Option Text
  pub keepassxc_no_password : Option Bool
  pub gui_prompter : Option Text
  pub on_dismiss : Option Text
  pub editor : Option Text

-- The zero File.
abbrev pub no_file : File
no_file = record {
  key_lifetime = none;
  max_attempts = none;
  giveup_ttl = none;
  no_giveup = none;
  quiet = none;
  wallet_store_mode = none;
  wallet_store_include = none;
  wallet_store_exclude = none;
  auto_load_mode = none;
  auto_load_include = none;
  auto_load_exclude = none;
  command_timeout = none;
  interactive_timeout = none;
  service_prefix = none;
  secret_container = none;
  key_dir = none;
  key_patterns = none;
  secret_backend = none;
  one_password_vault = none;
  bitwarden_email = none;
  bitwarden_server = none;
  keepassxc_route = none;
  keepassxc_database = none;
  keepassxc_key_file = none;
  keepassxc_no_password = none;
  gui_prompter = none;
  on_dismiss = none;
  editor = none;
}

-- override and overrideList
unfoldable pub override {ℓ} : {A : Type ℓ} → Option A → Option A → Option A
override mine none = mine
override mine (some v) = some v

-- Merge
unfoldable pub merge : File → File → File
merge f other = record {
  key_lifetime = override f.key_lifetime other.key_lifetime;
  max_attempts = override f.max_attempts other.max_attempts;
  giveup_ttl = override f.giveup_ttl other.giveup_ttl;
  no_giveup = override f.no_giveup other.no_giveup;
  quiet = override f.quiet other.quiet;
  wallet_store_mode = override f.wallet_store_mode other.wallet_store_mode;
  wallet_store_include = override f.wallet_store_include other.wallet_store_include;
  wallet_store_exclude = override f.wallet_store_exclude other.wallet_store_exclude;
  auto_load_mode = override f.auto_load_mode other.auto_load_mode;
  auto_load_include = override f.auto_load_include other.auto_load_include;
  auto_load_exclude = override f.auto_load_exclude other.auto_load_exclude;
  command_timeout = override f.command_timeout other.command_timeout;
  interactive_timeout = override f.interactive_timeout other.interactive_timeout;
  service_prefix = override f.service_prefix other.service_prefix;
  secret_container = override f.secret_container other.secret_container;
  key_dir = override f.key_dir other.key_dir;
  key_patterns = override f.key_patterns other.key_patterns;
  secret_backend = override f.secret_backend other.secret_backend;
  one_password_vault = override f.one_password_vault other.one_password_vault;
  bitwarden_email = override f.bitwarden_email other.bitwarden_email;
  bitwarden_server = override f.bitwarden_server other.bitwarden_server;
  keepassxc_route = override f.keepassxc_route other.keepassxc_route;
  keepassxc_database = override f.keepassxc_database other.keepassxc_database;
  keepassxc_key_file = override f.keepassxc_key_file other.keepassxc_key_file;
  keepassxc_no_password = override f.keepassxc_no_password other.keepassxc_no_password;
  gui_prompter = override f.gui_prompter other.gui_prompter;
  on_dismiss = override f.on_dismiss other.on_dismiss;
  editor = override f.editor other.editor;
}
