-- ===== src/Config/Write.antt =====
-- internal/config/write.go: key_dir in the user's own file. The quoting of a value (strconv.Quote), the
-- template and package os are parameters.
pub mod Replaced
pub mod Laws
use sshakku.Config.Sources.{main_file}
use sshakku.FilePath.{dir_of}
use sshakku.Install.Files.{FileSystem, OsError, not_there, other_error}
use sshakku.Prelude.{
  ℕ, ◌==◌, Text, codes, newline, has_prefix, trim_left, ends_with, drop, split, join, List, [], ◌∷◌,
  ◌++◌, Bool, true, false, ◌||◌, ◌&&◌, Option, none, some, if◌then◌else◌, Exec, Result, ok, err,
  ◌>>=◌, ◌>>◌, pure, throw, wrap,
}

abbrev pub is_blank : ℕ → Bool
is_blank c = c == 32 || c == 9

-- keyDirAssignment
unfoldable pub is_key_dir_assignment : Text → Bool
is_key_dir_assignment line =
    let rest = trim_left is_blank line in
    has_prefix rest (codes "key_dir") && has_prefix (trim_left is_blank (drop 7 rest)) (codes "=")

abbrev pub cons_line : Text → Option (List Text) → Option (List Text)
cons_line line none = none
cons_line line (some lines) = some (line ∷ lines)

-- The loop of WithKeyDir: the lines with the first assignment replaced, where there is one.
unfoldable pub replace_first : Text → List Text → Option (List Text)
replace_first assignment [] = none
replace_first assignment (line ∷ lines) =
    let rest = cons_line line (replace_first assignment lines) in
    if is_key_dir_assignment line then some (assignment ∷ lines) else rest

abbrev pub assignment_of : (Text → Text) → Text → Text
assignment_of quote dir = codes "key_dir = " ++ quote dir

abbrev pub with_newline : Text → Text
with_newline body = if ends_with newline body then body else body ++ newline ∷ []

-- An assignment behind a body that has none.
abbrev pub append_assignment : Text → Text → Text
append_assignment assignment [] = assignment ++ newline ∷ []
append_assignment assignment (c ∷ body) =
    with_newline (c ∷ body) ++ newline ∷ assignment ++ newline ∷ []

abbrev pub replaced_or_appended : Text → Text → Option (List Text) → Text
replaced_or_appended assignment body (some lines) = join newline lines
replaced_or_appended assignment body none = append_assignment assignment body

-- WithKeyDir
unfoldable pub with_key_dir : (Text → Text) → Text → Text → Text
unfolding replace_first
with_key_dir quote body dir =
    replaced_or_appended (assignment_of quote dir) body
      (replace_first (assignment_of quote dir) (split newline body))

-- What SetKeyDir and WritableConfig fail with, and the path that they name.
pub data WriteError (E : Type 0) : Type 0 where
  reading creating writing : Text → E → WriteError E
  removing : Text → OsError E → WriteError E

abbrev pub private_dir_mode : ℕ
private_dir_mode = 448

abbrev pub private_file_mode : ℕ
private_file_mode = 384

module _ {W E : Type 0} (fs : FileSystem W E) (quote : Text → Text) (template : Text) where
  abbrev pub body_of : Text → Result (OsError E) Text → Exec W (WriteError E) Text
  body_of path (ok existing) = pure existing
  body_of path (err not_there) = pure template
  body_of path (err (other_error e)) = throw (reading path e)

  abbrev pub read_body : Text → Exec W (WriteError E) Text
  read_body path w = let (r, w') = fs.read_file path w in body_of path r w'

  -- A step that closes the staged file where it fails.
  abbrev pub closed_after : Text → Result E (Unit {0}) × W → Result E (Unit {0}) × W
  closed_after staged (ok done, w) = (ok tt, w)
  closed_after staged (err e, w) = let (_, w') = fs.close staged w in (err e, w')

  -- writeAndClose
  unfoldable pub write_and_close : Text → Text → Exec W E (Unit {0})
  write_and_close staged body = do
    (λ w. closed_after staged (fs.write staged body w))
    (λ w. closed_after staged (fs.chmod staged private_file_mode w))
    fs.close staged

  -- The removal of the staged file that is deferred.
  abbrev pub removed_behind :
      Text → Exec W (WriteError E) (Unit {0}) → Exec W (WriteError E) (Unit {0})
  removed_behind staged m w = let (r, w') = m w in let (_, w'') = fs.remove staged w' in (r, w'')

  -- SetKeyDir
  unfoldable pub set_key_dir : Text → Text → Exec W (WriteError E) (Unit {0})
  unfolding write_and_close with_key_dir main_file
  set_key_dir config_dir dir = do
    body ← read_body (main_file config_dir)
    wrap (creating config_dir) (fs.mkdir_all config_dir private_dir_mode)
    staged ←
        wrap (writing (main_file config_dir)) (fs.create_temp config_dir (codes "config.toml.*"))
    removed_behind staged (do
      wrap (writing (main_file config_dir)) (write_and_close staged (with_key_dir quote body dir))
      wrap (writing (main_file config_dir)) (fs.rename staged (main_file config_dir)))

  -- The probe of WritableConfig that was made, closed and removed again.
  abbrev pub removed_probe : Text → Text → Result E (Unit {0}) → Exec W (WriteError E) (Unit {0})
  removed_probe config_dir probe (ok done) w = wrap (removing (dir_of probe)) (fs.remove probe) w
  removed_probe config_dir probe (err e) w =
      let (_, w') = fs.remove probe w in (err (writing (main_file config_dir) e), w')

  -- WritableConfig
  unfoldable pub writable_config : Text → Exec W (WriteError E) (Unit {0})
  unfolding main_file
  writable_config config_dir = do
    wrap (creating config_dir) (fs.mkdir_all config_dir private_dir_mode)
    probe ←
        wrap (writing (main_file config_dir))
          (fs.create_temp config_dir (codes "config.toml.probe.*"))
    (λ w. let (r, w') = fs.close probe w in removed_probe config_dir probe r w')
