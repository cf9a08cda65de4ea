-- ===== src/Config/Sources.antt =====
-- internal/config/sources.go and Load of file.go: the files of a configuration directory. The
-- directory and the decoder of TOML are parameters.
use sshakku.Config.File.{File, no_file, merge}
use sshakku.FilePath
use sshakku.Install.Files.{OsError, not_there, other_error}
use sshakku.Keys.Enumerate.{has_suffix}
use sshakku.Prelude.{
  Text, codes, List, [], ◌∷◌, Bool, true, false, not, ◌||◌, Option, none, some, Result, ok, err,
}

pub data LoadError (E : Type 0) : Type 0 where
  not_read : OsError E → LoadError E
  unrecognised_keys : List Text → LoadError E

-- Source
pub record Source (E : Type 0) : Type 0 where
  pub path : Text
  pub file : File
  pub err : Option (LoadError E)

-- An entry of a directory.
pub record DirEntry : Type 0 where
  pub name : Text
  pub is_dir : Bool

-- paths.Absent; toml.DecodeFile with the keys it could not decode; os.ReadDir, which sorts.
pub record Ports (W E : Type 0) : Type 0 where
  pub absent : Text → W → Bool × W
  pub decode_file : Text → W → Result (OsError E) (File × List Text) × W
  pub read_dir : Text → W → Result (OsError E) (List DirEntry) × W

-- Merged
abbrev pub merged_onto : {E : Type 0} → File → List (Source E) → File
merged_onto f [] = f
merged_onto f (s ∷ ss) = merged_onto (merge f s.file) ss

unfoldable pub merged : {E : Type 0} → List (Source E) → File
merged sources = merged_onto no_file sources

-- MainFile
unfoldable pub main_file : Text → Text
main_file config_dir = FilePath.join config_dir (codes "config.toml")

abbrev pub drop_in_dir_name : Text
drop_in_dir_name = codes "config.d"

abbrev pub loaded :
    {E : Type 0} → Result (OsError E) (File × List Text) → File × Option (LoadError E)
loaded (err not_there) = (no_file, none)
loaded (err (other_error e)) = (no_file, some (not_read (other_error e)))
loaded (ok (f, [])) = (f, none)
loaded (ok (f, k ∷ ks)) = (f, some (unrecognised_keys (k ∷ ks)))

module _ {W E : Type 0} (io : Ports W E) where
  -- Load
  unfoldable pub load : Text → W → (File × Option (LoadError E)) × W
  load path w = let (r, w') = io.decode_file path w in (loaded r, w')

  abbrev pub source_unless : Bool → Text → W → Option (Source E) × W
  source_unless true path w = (none, w)
  source_unless false path w =
      let ((f, problem), w') = load path w in
      (some (record { path = path; file = f; err = problem }), w')

  -- fileSource
  unfoldable pub file_source : Text → W → Option (Source E) × W
  unfolding load
  file_source path w = let (gone, w') = io.absent path w in source_unless gone path w'

  abbrev pub cons_some : Option (Source E) → List (Source E) → List (Source E)
  cons_some none ss = ss
  cons_some (some s) ss = s ∷ ss

  abbrev pub source_if : Bool → Text → W → Option (Source E) × W
  source_if true path w = file_source path w
  source_if false path w = (none, w)

  -- The loop of dropInSources.
  unfoldable pub drop_ins_among : Text → List DirEntry → W → List (Source E) × W
  unfolding file_source
  drop_ins_among dir [] w = ([], w)
  drop_ins_among dir (e ∷ es) w =
      let (s, w') =
        source_if (not (e.is_dir || not (has_suffix (codes ".toml") e.name)))
          (FilePath.join dir e.name) w in
      let (ss, w'') = drop_ins_among dir es w' in (cons_some s ss, w'')

  abbrev pub unless_gone : Text → OsError E → Bool × W → List (Source E) × W
  unless_gone dir e (true, w) = ([], w)
  unless_gone dir e (false, w) =
      (record { path = dir; file = no_file; err = some (not_read e) } ∷ [], w)

  abbrev pub drop_ins_of : Text → Result (OsError E) (List DirEntry) → W → List (Source E) × W
  drop_ins_of dir (ok entries) w = drop_ins_among dir entries w
  drop_ins_of dir (err e) w = unless_gone dir e (io.absent dir w)

  -- dropInSources
  unfoldable pub drop_in_sources : Text → W → List (Source E) × W
  unfolding drop_ins_among
  drop_in_sources dir w = let (r, w') = io.read_dir dir w in drop_ins_of dir r w'

  -- LoadSources
  unfoldable pub load_sources : Text → W → List (Source E) × W
  unfolding file_source drop_in_sources main_file
  load_sources config_dir w =
      let (s, w') = file_source (main_file config_dir) w in
      let (ss, w'') = drop_in_sources (FilePath.join config_dir drop_in_dir_name) w' in
      (cons_some s ss, w'')
