-- ===== src/Config/Provenance.antt =====
-- internal/config/provenance.go and editor.go: the report of each setting, with the value in force
-- and what put it there. The spelling of a duration (time.Duration.String) and the editors of the
-- machine are parameters.
use sshakku.Config.Choices.{Lookup}
use sshakku.Config.Durations.{Problem}
use sshakku.Config.File.{File}
use sshakku.Config.Settings.{Settings, SettingError}
use sshakku.Config.Sources.{Source}
use sshakku.Prelude.{
  Text, text_eq, ℤ, List, [], ◌∷◌, Bool, true, false, Option, none, some, if◌then◌else◌,
}

-- Origin
pub data Origin : Type 0 where
  from_default : Origin
  from_file from_env : Text → Origin

-- What the report asks of the machine: time.Duration.String, platformEditors and findEditor.
pub record Machine : Type 0 where
  pub show_duration : ℤ → Text
  pub platform_editors : List Text
  pub find_editor : Text → Option Text

-- Setting and its Refusal
pub record Setting (E : Type 0) : Type 0 where
  pub name : Text
  pub value : Text
  pub from : Origin
  pub refused : Option (Origin × Problem E)

-- settingDesc
pub record SettingDesc : Type 0 where
  pub name : Text
  pub envs : List Text
  pub file_first : Bool
  pub env_used : Text → Bool
  pub set : File → Bool
  pub value : Settings → Text

abbrev pub is_set {ℓ} : {A : Type ℓ} → Option A → Bool
is_set none = false
is_set (some v) = true

abbrev pub or_rest {ℓ} : {A : Type ℓ} → Option A → Option A → Option A
or_rest (some a) other = some a
or_rest none other = other

abbrev pub when {ℓ} : {A : Type ℓ} → Bool → A → Option A
when true a = some a
when false a = none

abbrev pub used_value : (Text → Bool) → Option Text → Option Text
used_value used none = none
used_value used (some v) = when (used v) v

abbrev pub env_origin : Text → Option Text → Option Origin
env_origin name none = none
env_origin name (some v) = some (from_env name)

-- statedInTheEnvironment
unfoldable pub stated_in_env : (Text → Bool) → List Text → Lookup → Option Origin
stated_in_env used [] lookup = none
stated_in_env used (name ∷ names) lookup =
    or_rest (env_origin name (used_value used (lookup name))) (stated_in_env used names lookup)

-- The loop of statedBy over the files, from the last one back.
unfoldable pub stated_in_files : {E : Type 0} → (File → Bool) → List (Source E) → Option Origin
stated_in_files set [] = none
stated_in_files set (s ∷ ss) =
    or_rest (stated_in_files set ss) (when (set s.file) (from_file s.path))

abbrev pub or_default : Option Origin → Origin
or_default none = from_default
or_default (some o) = o

-- statedBy
unfoldable pub stated_by : {E : Type 0} → SettingDesc → List (Source E) → Lookup → Origin
unfolding stated_in_env stated_in_files
stated_by d sources lookup = or_default (
    if d.file_first
    then or_rest (stated_in_files d.set sources) (stated_in_env d.env_used d.envs lookup)
    else or_rest (stated_in_env d.env_used d.envs lookup) (stated_in_files d.set sources))

-- refusalOf
unfoldable pub refusal_of : {E : Type 0} → List (SettingError E) → Text → Option (Problem E)
refusal_of [] name = none
refusal_of ((n, p) ∷ errs) name =
    let rest = refusal_of errs name in if text_eq n name then some p else rest

module _ {E : Type 0} (sources : List (Source E)) (lookup : Lookup) where
  -- One row of Explain, by the refusal of its setting.
  abbrev pub explained : Settings → SettingDesc → Option (Problem E) → Setting E
  explained settings d none = record {
    name = d.name;
    value = d.value settings;
    from = stated_by d sources lookup;
    refused = none;
  }
  explained settings d (some p) = record {
    name = d.name;
    value = d.value settings;
    from = from_default;
    refused = some (stated_by d sources lookup, p);
  }

  unfoldable pub explain_one : Settings → List (SettingError E) → SettingDesc → Setting E
  unfolding stated_by refusal_of
  explain_one settings errs d = explained settings d (refusal_of errs d.name)

  -- The loop of Explain.
  unfoldable pub explain_each :
      Settings → List (SettingError E) → List SettingDesc → List (Setting E)
  unfolding explain_one
  explain_each settings errs [] = []
  explain_each settings errs (d ∷ ds) = explain_one settings errs d ∷ explain_each settings errs ds
