-- ===== src/Install/Files.antt =====
-- The files of internal/install/hookfile.go: writing the block into a startup file and taking it
-- out, and the drop-in files. The calls of package os are a parameter.
use sshakku.FilePath.{base, dir_of}
use sshakku.Install.Hook.{upsert_block, strip_block}
use sshakku.Prelude.{
  ℕ, Text, codes, text_eq, trim_space, ◌++◌, [], Bool, true, false, Option, none, some,
  if◌then◌else◌, Exec, Result, ok, err, ◌>>=◌, ◌>>◌, pure, throw, lift, wrap,
}

-- An error of package os, by whether os.IsNotExist tells that nothing is there.
pub data OsError (E : Type 0) : Type 0 where
  not_there : OsError E
  other_error : E → OsError E

pub record FileSystem (W E : Type 0) : Type 0 where
  pub read_file : Text → Exec W (OsError E) Text
  pub mkdir_all : Text → ℕ → Exec W E (Unit {0})
  -- os.Stat: the permissions of what is there
  pub stat_mode : Text → Exec W E ℕ
  -- os.Lstat: whether a directory is there
  pub is_directory : Text → W → Bool × W
  -- os.CreateTemp: the name of the file
  pub create_temp : Text → Text → Exec W E Text
  pub write : Text → Text → Exec W E (Unit {0})
  pub close : Text → Exec W E (Unit {0})
  pub chmod : Text → ℕ → Exec W E (Unit {0})
  pub rename : Text → Text → Exec W E (Unit {0})
  pub remove : Text → Exec W (OsError E) (Unit {0})

-- The errors, each with the path that it names.
pub data FileError (E : Type 0) : Type 0 where
  reading making_directory making_temporary writing closing setting_permissions replacing removing :
      Text → E → FileError E
  drop_in_is_directory : Text → FileError E

-- 0o644
abbrev pub new_file_mode : ℕ
new_file_mode = 420

-- 0o755
abbrev pub startup_dir_mode : ℕ
startup_dir_mode = 493

abbrev pub drop_in_mode : ℕ
drop_in_mode = 493

module _ {W E : Type 0} (fs : FileSystem W E) where
  abbrev pub content_of : Text → Result (OsError E) Text → Exec W (FileError E) (Option Text)
  content_of path (ok content) = pure (some content)
  content_of path (err not_there) = pure none
  content_of path (err (other_error e)) = throw (reading path e)

  -- read: none where nothing is there
  unfoldable pub read : Text → Exec W (FileError E) (Option Text)
  read path w = let (r, w') = fs.read_file path w in content_of path r w'

  abbrev pub mode_or : ℕ → Result E ℕ → ℕ
  mode_or fallback (ok mode) = mode
  mode_or fallback (err e) = fallback

  -- modeOf
  unfoldable pub mode_of : Text → ℕ → W → ℕ × W
  mode_of path fallback w = let (r, w') = fs.stat_mode path w in (mode_or fallback r, w')

  abbrev pub written : Text → Result E (Unit {0}) → Exec W (FileError E) (Unit {0})
  written tmp (ok done) w = (ok tt, w)
  written tmp (err e) w = let (_, w') = fs.close tmp w in (err (writing tmp e), w')

  -- The write of the temporary file, which closes it where it fails.
  unfoldable pub write_temp : Text → Text → Exec W (FileError E) (Unit {0})
  write_temp tmp content w = let (r, w') = fs.write tmp content w in written tmp r w'

  -- The deferred removal of the temporary file.
  abbrev pub removed_after :
      Text → Exec W (FileError E) (Unit {0}) → Exec W (FileError E) (Unit {0})
  removed_after tmp m w = let (r, w') = m w in let (_, w'') = fs.remove tmp w' in (r, w'')

  -- replace
  unfoldable pub replace : Text → Text → ℕ → Exec W (FileError E) (Unit {0})
  unfolding write_temp
  replace path content mode = do
    tmp ← wrap (making_temporary path) (fs.create_temp (dir_of path) (base path ++ codes ".*"))
    removed_after tmp (do
      write_temp tmp content
      wrap (closing tmp) (fs.close tmp)
      wrap (setting_permissions tmp) (fs.chmod tmp mode)
      wrap (replacing path) (fs.rename tmp path))

  abbrev pub text_or_empty : Option Text → Text
  text_or_empty none = []
  text_or_empty (some content) = content

  -- UpsertBlockFile
  unfoldable pub upsert_block_file : Text → Text → Exec W (FileError E) (Unit {0})
  unfolding read mode_of replace
  upsert_block_file path body = do
    content ← read path
    wrap (making_directory path) (fs.mkdir_all (dir_of path) startup_dir_mode)
    mode ← lift (mode_of path new_file_mode)
    replace path (upsert_block (text_or_empty content) body) mode

  abbrev pub unless_gone : Text → Result (OsError E) (Unit {0}) → Exec W (FileError E) (Unit {0})
  unless_gone path (ok done) = pure tt
  unless_gone path (err not_there) = pure tt
  unless_gone path (err (other_error e)) = throw (removing path e)

  -- os.Remove, for which a file that is gone is no error
  unfoldable pub remove_if_there : Text → Exec W (FileError E) (Unit {0})
  remove_if_there path w = let (r, w') = fs.remove path w in unless_gone path r w'

  abbrev pub stripped_to : Text → Option Text → Exec W (FileError E) (Unit {0})
  stripped_to path none = pure tt
  stripped_to path (some content) =
      if text_eq (trim_space (strip_block content)) []
      then remove_if_there path
      else (do mode ← lift (mode_of path new_file_mode); replace path (strip_block content) mode)

  -- StripBlockFile
  unfoldable pub strip_block_file : Text → Exec W (FileError E) (Unit {0})
  unfolding read mode_of replace remove_if_there
  strip_block_file path = do content ← read path; stripped_to path content

  -- WriteDropIn
  unfoldable pub write_drop_in : Text → Text → Exec W (FileError E) (Unit {0})
  unfolding replace
  write_drop_in path content = replace path content drop_in_mode

  abbrev pub unless_directory : Text → Bool → Exec W (FileError E) (Unit {0})
  unless_directory path true = throw (drop_in_is_directory path)
  unless_directory path false = remove_if_there path

  -- RemoveDropIn
  unfoldable pub remove_drop_in : Text → Exec W (FileError E) (Unit {0})
  unfolding remove_if_there
  remove_drop_in path = do there ← lift (fs.is_directory path); unless_directory path there
