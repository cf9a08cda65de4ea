-- ===== src/Install/Placement.antt =====
-- internal/install/placement.go: where a shell's hook goes.
use sshakku.FilePath
use sshakku.FilePath.{base, dir_of}
use sshakku.Install.Files.{OsError, not_there, other_error}
use sshakku.Install.Hook.{strip_block}
use sshakku.Prelude.{
  Text, codes, text_eq, contains, [], ◌++◌, Bool, true, false, if◌then◌else◌, Exec, Result, ok, err,
  ◌>>=◌, pure, throw,
}

pub record Placement : Type 0 where
  pub path : Text
  pub drop_in : Bool
  pub why : Text

pub data PlacementError (E : Type 0) : Type 0 where
  no_startup_file no_profile : PlacementError E
  not_a_directory : Text → PlacementError E
  looking_for reading_profile : Text → E → PlacementError E

-- Why a drop-in directory that is there is not used.
abbrev pub unused_text : Text → Text → Text
unused_text dir profile =
    dir
    ++ (codes " is there but nothing in "
        ++ (profile
            ++ codes
                " loads it, and PowerShell does not load such a directory by itself, so the hook went into the profile instead"))

-- os.Stat (whether it is a directory) and os.ReadFile
pub record Looks (W E : Type 0) : Type 0 where
  pub stat_dir : Text → Exec W (OsError E) Bool
  pub read_file : Text → Exec W (OsError E) Text

-- BourneDropInDir
unfoldable pub bourne_drop_in_dir : Text → Text
bourne_drop_in_dir startup_file = startup_file ++ codes ".d"

-- PowerShellDropInDir
unfoldable pub power_shell_drop_in_dir : Text → Text
power_shell_drop_in_dir profile = FilePath.join (dir_of profile) (codes "Profile.d")

module _ {W E : Type 0} (io : Looks W E) where
  abbrev pub directory_or : Text → Result (OsError E) Bool → Exec W (PlacementError E) Bool
  directory_or path (ok true) = pure true
  directory_or path (ok false) = throw (not_a_directory path)
  directory_or path (err not_there) = pure false
  directory_or path (err (other_error e)) = throw (looking_for path e)

  -- isDir
  unfoldable pub is_dir : Text → Exec W (PlacementError E) Bool
  is_dir path w = let (r, w') = io.stat_dir path w in directory_or path r w'

  abbrev pub mentions : Text → Text → Result (OsError E) Text → Exec W (PlacementError E) Bool
  mentions profile dir_name (ok content) = pure (contains dir_name (strip_block content))
  mentions profile dir_name (err not_there) = pure false
  mentions profile dir_name (err (other_error e)) = throw (reading_profile profile e)

  -- profileReadsDropIns
  unfoldable pub profile_reads_drop_ins : Text → Text → Exec W (PlacementError E) Bool
  profile_reads_drop_ins profile dir_name w =
      let (r, w') = io.read_file profile w in mentions profile dir_name r w'

  abbrev pub placed : Text → Text → Text → Bool → Placement
  placed dir file name true = record { path = FilePath.join dir name; drop_in = true; why = [] }
  placed dir file name false = record { path = file; drop_in = false; why = [] }

  -- PlaceBourne
  unfoldable pub place_bourne : Text → Text → Exec W (PlacementError E) Placement
  unfolding is_dir bourne_drop_in_dir
  place_bourne startup_file name = if text_eq startup_file [] then throw no_startup_file else (do
    there ← is_dir (bourne_drop_in_dir startup_file)
    pure (placed (bourne_drop_in_dir startup_file) startup_file name there))

  abbrev pub read_or_passed_by : Text → Text → Text → Bool → Placement
  read_or_passed_by dir profile name true = placed dir profile name true
  read_or_passed_by dir profile name false = record {
    path = profile;
    drop_in = false;
    why = unused_text dir profile;
  }

  abbrev pub where_read : Text → Text → Text → Bool → Exec W (PlacementError E) Placement
  where_read dir profile name false = pure (placed dir profile name false)
  where_read dir profile name true = do
    reads ← profile_reads_drop_ins profile (base dir)
    pure (read_or_passed_by dir profile name reads)

  -- PlacePowerShell
  unfoldable pub place_power_shell : Text → Text → Exec W (PlacementError E) Placement
  unfolding is_dir power_shell_drop_in_dir profile_reads_drop_ins
  place_power_shell profile name = if text_eq profile [] then throw no_profile else (do
    there ← is_dir (power_shell_drop_in_dir profile)
    where_read (power_shell_drop_in_dir profile) profile name there)
