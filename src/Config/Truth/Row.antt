-- ===== src/Config/Truth/Row.antt =====
-- One row of the table of internal/config/provenance.go, and where its value comes from.
use sshakku.Config.Choices.{Platform, Lookup}
use sshakku.Config.Durations.{Problem}
use sshakku.Config.File.{File, no_file, merge, override}
use sshakku.Config.Provenance.{
  Origin, from_default, from_file, from_env, Setting, SettingDesc, is_set, or_rest, stated_in_env,
  stated_in_files, or_default, stated_by, refusal_of, explained, explain_one,
}
use sshakku.Config.Settings.{Readers, resolve, settings_of}
use sshakku.Config.Sources.{Source, merged, merged_onto}
use sshakku.Config.Truth.Origins.{
  no_lookup, only, AnyOf, AnyOf-map, AnyOf-none, first_used, first_used-no_lookup, IsFound, IsFirst,
  stated_in_files-IsFound, stated_in_env-IsFirst,
}
use mathlib.Core.Path.{subst}
use sshakku.Prelude.{
  Text, List, Bool, true, false, Option, none, some, if◌then◌else◌, All, ◌≡◌, refl, sym, ◌∙◌,
}

module _ {E : Type 0} (lib : Readers E) (p : Platform) where
  -- The value of a row, as resolved.
  abbrev pub in_force : SettingDesc → File → Lookup → Text
  in_force d file lookup = d.value (resolve lib p file lookup).0

  -- The value is the one that the origin puts in force with nothing beside it: the defaults, one of
  -- the files read, which sets it, or one variable.
  abbrev pub Accounts : SettingDesc → List (Source E) → Lookup → Text → Origin → Type 0
  Accounts d sources lookup value from_default = value ≡ in_force d no_file no_lookup
  Accounts d sources lookup value (from_file path) =
      AnyOf (λ s. (s.path ≡ path) × (d.set s.file ≡ true) × (value ≡ in_force d s.file no_lookup))
        sources
  Accounts d sources lookup value (from_env name) = value ≡ in_force d no_file (only name lookup)

  -- A row whose value and whose refusal depend on its variable and on its field of the file.
  pub record IsRow {A : Type 0} (field : File → Option A) (v : Option Text → Option A → Text)
      (problem : Option Text → Option A → Option (Problem E)) (d : SettingDesc) : Type 0 where
    pub reads :
        (f : File) (l : Lookup)
        → d.value (settings_of lib p f l) ≡ v (first_used d.env_used d.envs l) (field f)
    pub refuses :
        (f : File) (l : Lookup)
        → refusal_of (resolve lib p f l).1 d.name
          ≡ problem (first_used d.env_used d.envs l) (field f)
    pub refused_default :
        (e : Option Text) (x : Option A) (q : Problem E)
        → problem e x ≡ some q
        → v e x ≡ v none none
    pub merges : (f g : File) → field (merge f g) ≡ override (field f) (field g)
    pub starts : field no_file ≡ none
    pub env_wins :
        (l : Lookup) (e : Text) (x : Option A)
        → first_used d.env_used d.envs l ≡ some e
        → d.file_first ≡ false
        → v (some e) x ≡ v (some e) none
    pub file_wins :
        (e : Option Text) (f : File)
        → d.file_first ≡ true
        → d.set f ≡ true
        → v e (field f) ≡ v none (field f)

module _ {E : Type 0} (lib : Readers E) (p : Platform) {A : Type 0} (field : File → Option A)
    (v : Option Text → Option A → Text) (problem : Option Text → Option A → Option (Problem E))
    (d : SettingDesc) (row : IsRow lib p field v problem d) where
  -- The value of the row in a configuration with one origin.
  alone :
      (f : File) (l : Lookup) → in_force lib p d f l ≡ v (first_used d.env_used d.envs l) (field f)
  unfolding resolve
  alone f l = row.reads f l

  module _ (sources : List (Source E)) (lookup : Lookup) (u : Option Text)
      (used : first_used d.env_used d.envs lookup ≡ u) where
    -- A value that each source that may be the origin puts in force alone.
    IsFound-Accounts :
        (o : Origin) (value : Text)
        → ((s : Source E)
            → d.set s.file ≡ true
            → field (merged_onto no_file sources) ≡ field s.file
            → value ≡ v none (field s.file))
        → IsFound field d.set no_file sources (some o)
        → Accounts lib p d sources lookup value o
    IsFound-Accounts (from_file path) value same h =
        AnyOf-map _ _ sources
          (λ s k. (
            let named : path ≡ s.path = cc (k.0) in sym named,
            k.1,
            same s k.1 k.2
                ∙ sym (alone s.file no_lookup ∙ rw (first_used-no_lookup d.env_used d.envs) refl),
          ))
          h
    IsFound-Accounts from_default value same h = absurd (AnyOf-none sources (λ s k. cc (k.0)) h)
    IsFound-Accounts (from_env n) value same h = absurd (AnyOf-none sources (λ s k. cc (k.0)) h)

    IsFirst-Accounts :
        (o : Origin) (value : Text)
        → ((e : Text) → u ≡ some e → value ≡ v (some e) none)
        → IsFirst d.env_used lookup d.envs (some o) u
        → Accounts lib p d sources lookup value o
    IsFirst-Accounts o value same (n, e, is_o, found, only_n) =
        subst (Accounts lib p d sources lookup value) (sym is_o)
          (same e found ∙ sym (alone no_file (only n lookup) ∙ rw (only_n, row.starts) refl))

    stated-Accounts :
        (first : Bool) (fo eo : Option Origin)
        → d.file_first ≡ first
        → IsFound field d.set no_file sources fo
        → IsFirst d.env_used lookup d.envs eo u
        → Accounts lib p d sources lookup
            (v u (field (merged_onto no_file sources)))
            (or_default (if first then or_rest fo eo else or_rest eo fo))
    stated-Accounts false fo (some o) k hf he =
        IsFirst-Accounts o _ (λ e h. rw h (row.env_wins lookup e _ (used ∙ h) k)) he
    stated-Accounts false (some o) none k hf he =
        IsFound-Accounts o _ (λ s h same. rw (he, same) refl) hf
    stated-Accounts false none none k hf he =
        rw (he, hf, row.starts)
          (sym (
            alone no_file no_lookup ∙ rw (first_used-no_lookup d.env_used d.envs, row.starts) refl))
    stated-Accounts true (some o) eo k hf he =
        IsFound-Accounts o _ (λ s h same. rw same (row.file_wins u s.file k h)) hf
    stated-Accounts true none (some o) k hf he =
        IsFirst-Accounts o _ (λ e h. rw (h, hf, row.starts) refl) he
    stated-Accounts true none none k hf he =
        rw (he, hf, row.starts)
          (sym (
            alone no_file no_lookup ∙ rw (first_used-no_lookup d.env_used d.envs, row.starts) refl))

-- A line of the report that is about the row and names what puts its value in force.
abbrev pub IsTruthful :
    {E : Type 0}
    → Readers E
    → Platform
    → List (Source E)
    → Lookup
    → SettingDesc
    → Setting E
    → Type 0
IsTruthful lib p sources lookup d s =
    (s.name ≡ d.name) × Accounts lib p d sources lookup s.value s.from

module _ {E : Type 0} (lib : Readers E) (p : Platform) {A : Type 0} (field : File → Option A)
    (v : Option Text → Option A → Text) (problem : Option Text → Option A → Option (Problem E))
    (d : SettingDesc) (row : IsRow lib p field v problem d) (sources : List (Source E))
    (lookup : Lookup) (plain : All (λ s. d.set s.file ≡ is_set (field s.file)) sources) where
  u : Option Text
  u = first_used d.env_used d.envs lookup

  stated_by-Accounts :
      Accounts lib p d sources lookup (v u (field (merged sources))) (stated_by d sources lookup)
  unfolding u stated_by merged
  stated_by-Accounts =
      stated-Accounts lib p field v problem d row sources lookup u refl d.file_first
        (stated_in_files d.set sources) (stated_in_env d.env_used d.envs lookup) refl
        (stated_in_files-IsFound field d.set row.merges no_file sources plain)
        (stated_in_env-IsFirst d.env_used lookup d.envs)

  explained-IsTruthful :
      (o : Option (Problem E))
      → problem u (field (merged sources)) ≡ o
      → IsTruthful lib p sources lookup d
          (explained sources lookup (settings_of lib p (merged sources) lookup) d o)
  unfolding u
  explained-IsTruthful none h = (
    refl,
    subst (λ x. Accounts lib p d sources lookup x (stated_by d sources lookup))
        (sym (row.reads (merged sources) lookup)) stated_by-Accounts,
  )
  explained-IsTruthful (some q) h = (
    refl,
    row.reads (merged sources) lookup
        ∙ row.refused_default u (field (merged sources)) q h
        ∙ sym (
            alone lib p field v problem d row no_file no_lookup
            ∙ rw (first_used-no_lookup d.env_used d.envs, row.starts) refl),
  )

  pub explain_one-IsTruthful : IsTruthful lib p sources lookup d (
      explain_one sources lookup
        (resolve lib p (merged sources) lookup).0
        (resolve lib p (merged sources) lookup).1
        d)
  unfolding explain_one resolve u
  explain_one-IsTruthful =
      explained-IsTruthful (refusal_of (resolve lib p (merged sources) lookup).1 d.name)
        (sym (row.refuses (merged sources) lookup))
