-- ===== src/Config/Table.antt =====
-- internal/config/provenance.go and editor.go: the table of the settings that can be written, and the
-- reports that go through it.
use sshakku.Config.Choices.{Lookup}
use sshakku.Config.Durations.{env_int}
use sshakku.Config.File.{File}
use sshakku.Config.Provenance.{
  Origin, from_default, from_file, from_env, Machine, Setting, SettingDesc, is_set, stated_by,
  explain_each,
}
use sshakku.Config.Settings.{Settings, Readers, resolve, key_dir_name}
use sshakku.Config.Choices.{Platform}
use sshakku.Config.Sources.{Source, merged, main_file}
use sshakku.FilePath
use sshakku.Keys.Enumerate.{default_key_patterns}
use sshakku.Prelude.{
  ℕ, zero, suc, ltb, Text, codes, text_eq, trim_space, ℤ, pos, int_eq, show_nat, List, [], ◌∷◌,
  ◌++◌, Bool, true, false, not, ◌||◌, Option, none, some, if◌then◌else◌,
}

-- orElse
unfoldable pub or_else : Text → Text → Text
or_else value absent = if text_eq value [] then absent else value

-- strings.Join by a comma and a space.
abbrev pub comma_list : List Text → Text
comma_list [] = []
comma_list (t ∷ []) = t
comma_list (t ∷ u ∷ ts) = t ++ (codes ", " ++ comma_list (u ∷ ts))

-- list
unfoldable pub list_text : List Text → Text
list_text [] = codes "(none)"
list_text (t ∷ ts) = comma_list (t ∷ ts)

-- strconv.FormatBool
abbrev pub bool_text : Bool → Text
bool_text true = codes "true"
bool_text false = codes "false"

abbrev pub patterns_text : List Text → Text
patterns_text [] = list_text default_key_patterns
patterns_text (p ∷ ps) = list_text (p ∷ ps)

abbrev pub attempts_text : ℕ → Text
attempts_text zero = show_nat 3
attempts_text (suc n) = show_nat (suc n)

-- firstEditorFound
abbrev pub found_or : Option Text → Option Text → Option Text
found_or none later = later
found_or (some path) later = some path

unfoldable pub editor_found : (Text → Option Text) → List Text → Option Text
editor_found find [] = none
editor_found find (name ∷ names) = found_or (find name) (editor_found find names)

abbrev pub found_or_first : Option Text → List Text → Text
found_or_first (some path) names = path
found_or_first none [] = []
found_or_first none (name ∷ names) = name

unfoldable pub first_editor_found : List Text → (Text → Option Text) → Text
unfolding editor_found
first_editor_found candidates find = found_or_first (editor_found find candidates) candidates

abbrev pub not_blank : Text → Bool
not_blank v = not (text_eq (trim_space v) [])

abbrev pub names_editor : Option Text → Bool
names_editor none = false
names_editor (some v) = not_blank v

-- A row for a setting that only a file can state, and one for a setting with a variable of its own.
abbrev pub file_row : {A : Type 0} → Text → (File → Option A) → (Settings → Text) → SettingDesc
file_row name field value = record {
  name = name;
  envs = [];
  file_first = false;
  env_used = λ v. true;
  set = λ f. is_set (field f);
  value = value;
}

abbrev pub env_row :
    {A : Type 0} → Text → Text → (File → Option A) → (Settings → Text) → SettingDesc
env_row name env field value = record {
  name = name;
  envs = env ∷ [];
  file_first = false;
  env_used = λ v. true;
  set = λ f. is_set (field f);
  value = value;
}

module _ (m : Machine) where
  -- duration
  unfoldable pub duration : ℤ → Text → Text
  duration d zero_means =
      if int_eq d (pos 0) then codes "0s (" ++ (zero_means ++ codes ")") else m.show_duration d

  -- EditorInForce
  unfoldable pub editor_in_force : Text → Text
  unfolding first_editor_found
  editor_in_force editor =
      let stated = trim_space editor in
      if text_eq stated [] then first_editor_found m.platform_editors m.find_editor else stated

  abbrev pub max_attempts_row : SettingDesc
  max_attempts_row = record {
    name = codes "max_attempts";
    envs = codes "SSHAKKU_MAX_ATTEMPTS" ∷ [];
    file_first = false;
    env_used = λ v. ltb 0 (env_int v);
    set = λ f. is_set f.max_attempts;
    value = λ s. attempts_text s.max_attempts;
  }

  abbrev pub editor_row : SettingDesc
  editor_row = record {
    name = codes "editor";
    envs = codes "EDITOR" ∷ codes "VISUAL" ∷ [];
    file_first = true;
    env_used = not_blank;
    set = λ f. names_editor f.editor;
    value = λ s. editor_in_force s.editor;
  }

  -- settingTable
  abbrev pub setting_table : List SettingDesc
  setting_table =
      env_row (codes "key_lifetime") (codes "SSHAKKU_KEY_LIFETIME") (λ f. f.key_lifetime)
        (λ s. duration s.key_lifetime (codes "no expiry"))
      ∷ max_attempts_row
      ∷ env_row (codes "giveup_ttl") (codes "SSHAKKU_GIVEUP_TTL") (λ f. f.giveup_ttl)
          (λ s. duration s.giveup_ttl (codes "never expires"))
      ∷ env_row (codes "no_giveup") (codes "SSHAKKU_NO_GIVEUP") (λ f. f.no_giveup)
          (λ s. bool_text s.no_giveup)
      ∷ env_row (codes "quiet") (codes "SSHAKKU_QUIET") (λ f. f.quiet) (λ s. bool_text s.quiet)
      ∷ env_row (codes "command_timeout") (codes "SSHAKKU_COMMAND_TIMEOUT") (λ f. f.command_timeout)
          (λ s. m.show_duration s.command_timeout)
      ∷ env_row (codes "interactive_timeout") (codes "SSHAKKU_INTERACTIVE_TIMEOUT")
          (λ f. f.interactive_timeout) (λ s. m.show_duration s.interactive_timeout)
      ∷ file_row (codes "secret_backend") (λ f. f.secret_backend) (λ s. s.secret_backend)
      ∷ file_row (codes "service_prefix") (λ f. f.service_prefix) (λ s. s.service_prefix)
      ∷ file_row (codes "secret_container") (λ f. f.secret_container)
          (λ s. or_else s.secret_container (codes "(the wallet's own)"))
      ∷ file_row (codes "key_dir") (λ f. f.key_dir)
          (λ s. or_else s.key_dir (FilePath.join (codes "~") key_dir_name))
      ∷ file_row (codes "key_patterns") (λ f. f.key_patterns) (λ s. patterns_text s.key_patterns)
      ∷ file_row (codes "wallet_store_mode") (λ f. f.wallet_store_mode) (λ s. s.wallet_store_mode)
      ∷ file_row (codes "wallet_store_include") (λ f. f.wallet_store_include)
          (λ s. list_text s.wallet_store_include)
      ∷ file_row (codes "wallet_store_exclude") (λ f. f.wallet_store_exclude)
          (λ s. list_text s.wallet_store_exclude)
      ∷ file_row (codes "auto_load_mode") (λ f. f.auto_load_mode) (λ s. s.auto_load_mode)
      ∷ file_row (codes "auto_load_include") (λ f. f.auto_load_include)
          (λ s. list_text s.auto_load_include)
      ∷ file_row (codes "auto_load_exclude") (λ f. f.auto_load_exclude)
          (λ s. list_text s.auto_load_exclude)
      ∷ file_row (codes "onepassword_vault") (λ f. f.one_password_vault)
          (λ s. or_else s.one_password_vault (codes "(unset)"))
      ∷ file_row (codes "bitwarden_email") (λ f. f.bitwarden_email)
          (λ s. or_else s.bitwarden_email (codes "(unset)"))
      ∷ file_row (codes "bitwarden_server") (λ f. f.bitwarden_server)
          (λ s. or_else s.bitwarden_server (codes "bitwarden.com"))
      ∷ file_row (codes "keepassxc_route") (λ f. f.keepassxc_route) (λ s. s.keepassxc_route)
      ∷ file_row (codes "keepassxc_database") (λ f. f.keepassxc_database)
          (λ s. or_else s.keepassxc_database (codes "(unset)"))
      ∷ file_row (codes "keepassxc_key_file") (λ f. f.keepassxc_key_file)
          (λ s. or_else s.keepassxc_key_file (codes "(unset)"))
      ∷ file_row (codes "keepassxc_no_password") (λ f. f.keepassxc_no_password)
          (λ s. bool_text s.keepassxc_no_password)
      ∷ file_row (codes "gui_prompter") (λ f. f.gui_prompter) (λ s. s.gui_prompter)
      ∷ file_row (codes "on_dismiss") (λ f. f.on_dismiss) (λ s. s.on_dismiss)
      ∷ editor_row
      ∷ []

module _ {E : Type 0} (lib : Readers E) (p : Platform) (m : Machine) (sources : List (Source E))
    (lookup : Lookup) where
  -- Explain
  unfoldable pub explain : List (Setting E)
  unfolding explain_each
  explain =
      let (settings, errs) = resolve lib p (merged sources) lookup in
      explain_each sources lookup settings errs (setting_table m)

-- states
unfoldable pub states : {E : Type 0} → List (Source E) → Text → SettingDesc → Bool
states [] path d = false
states (s ∷ ss) path d =
    let rest = states ss path d in if text_eq s.path path then d.set s.file else rest

-- Whether the origin is the file at a path.
abbrev pub is_file_at : Text → Origin → Bool
is_file_at path (from_file name) = text_eq name path
is_file_at path (from_env name) = false
is_file_at path from_default = false

-- Overruled: the name of each setting, with what decides it
unfoldable pub overruled :
    {E : Type 0} → List SettingDesc → List (Source E) → Text → Lookup → List (Text × Origin)
unfolding states
overruled [] sources path lookup = []
overruled (d ∷ ds) sources path lookup =
    let rest = overruled ds sources path lookup in
    if not (states sources path d) || is_file_at path (stated_by d sources lookup)
    then rest
    else (d.name, stated_by d sources lookup) ∷ rest

-- The file of an origin, if it is not the main one.
abbrev pub other_file : Text → Origin → Text
other_file main (from_file name) = if text_eq name main then [] else name
other_file main (from_env name) = []
other_file main from_default = []

unfoldable pub decided_elsewhere : {E : Type 0} → Text → List (Setting E) → Text
decided_elsewhere main [] = []
decided_elsewhere main (s ∷ ss) =
    let rest = decided_elsewhere main ss in
    if text_eq s.name (codes "key_dir") then other_file main s.from else rest

-- KeyDirDecidedElsewhere
unfoldable pub key_dir_decided_elsewhere :
    {E : Type 0} → Readers E → Platform → Machine → List (Source E) → Lookup → Text → Text
unfolding explain decided_elsewhere
key_dir_decided_elsewhere lib p m sources lookup config_dir =
    decided_elsewhere (main_file config_dir) (explain lib p m sources lookup)
