-- ===== src/Keys/Lifetimes.antt =====
-- internal/keystate/keystate.go: one small file per key that was added, with when, for how long and
-- from where.
pub mod RoundTrip
mod Tests
use sshakku.Install.Files.{OsError, not_there, other_error}
use sshakku.Keys.Giveup.{Files, path_of}
use sshakku.Prelude.{
  ℕ, Text, newline, text_eq, split, join, trim_space, atoi, ℤ, show_nat, List, [], ◌∷◌, ◌++◌, Bool,
  true, false, Option, none, some, if◌then◌else◌, Exec, Result, ok, err, ◌>>=◌,
}

-- Record. Its lifetime is in seconds, as the file has it: the product with time.Second is not taken.
pub record Record : Type 0 where
  pub added_at : ℕ
  pub lifetime : ℤ
  pub key_file : Text

-- The third part of a split in three is the whole rest.
abbrev pub rest_of_lines : List Text → Text
rest_of_lines lines = trim_space (join newline lines)

abbrev pub of_fields : Option ℕ → ℤ × Bool → Text → Option Record
of_fields none secs key_file = none
of_fields (some stamp) (secs, false) key_file = none
of_fields (some stamp) (secs, true) key_file =
    some (record { added_at = stamp; lifetime = secs; key_file = key_file })

abbrev pub of_lines : (Text → Option ℕ) → List Text → Option Record
of_lines parse_time [] = none
of_lines parse_time (l ∷ []) = none
of_lines parse_time (l ∷ secs ∷ rest) =
    of_fields (parse_time (trim_space l)) (atoi (trim_space secs)) (rest_of_lines rest)

-- Load, of the content of a file
unfoldable pub parse_record : (Text → Option ℕ) → Text → Option Record
parse_record parse_time content = of_lines parse_time (split newline (trim_space content))

-- The text that Save writes.
unfoldable pub record_text : (ℕ → Text) → ℕ → ℕ → Text → Text
record_text show_time now seconds keyfile =
    show_time now ++ (newline ∷ (show_nat seconds ++ (newline ∷ (keyfile ++ (newline ∷ [])))))

module _ {W E : Type 0} (fs : Files W E) where
  abbrev pub save_at : Text → ℕ → Text → Option Text → Exec W E (Unit {0})
  save_at dir seconds keyfile none w = (ok tt, w)
  save_at dir seconds keyfile (some p) w =
      (fs.mkdir_all dir >>= λ _ w.
      let (now, w') = fs.now w in fs.write_file p (record_text fs.show_time now seconds keyfile) w')
        w

  -- Save, of a lifetime in seconds
  unfoldable pub save : Text → Text → ℕ → Exec W E (Unit {0})
  unfolding record_text path_of
  save dir keyfile seconds = save_at dir seconds keyfile (path_of dir keyfile)

  abbrev pub loaded_of : Result (OsError E) Text → Option Record
  loaded_of (err e) = none
  loaded_of (ok content) = parse_record fs.parse_time content

  abbrev pub load_at : Option Text → W → Option Record × W
  load_at none w = (none, w)
  load_at (some p) w = let (r, w') = fs.read_file p w in (loaded_of r, w')

  -- Load
  unfoldable pub load : Text → Text → W → Option Record × W
  unfolding parse_record path_of
  load dir key = load_at (path_of dir key)

  abbrev pub cons_loaded : Option Record → List Record → List Record
  cons_loaded none rs = rs
  cons_loaded (some r) rs = r ∷ rs

  abbrev pub load_unless : Bool → Text → Text → W → Option Record × W
  load_unless true dir name w = (none, w)
  load_unless false dir name w = load dir name w

  -- The loop of Records, over the entries of the directory and whether each is a directory.
  unfoldable pub load_entries : Text → List (Text × Bool) → W → List Record × W
  unfolding load
  load_entries dir [] w = ([], w)
  load_entries dir ((name, is_dir) ∷ entries) w =
      let (r, w') = load_unless is_dir dir name w in
      let (rs, w'') = load_entries dir entries w' in (cons_loaded r rs, w'')

  abbrev pub entries_of : Text → Result (OsError E) (List (Text × Bool)) → Exec W E (List Record)
  entries_of dir (err not_there) w = (ok [], w)
  entries_of dir (err (other_error e)) w = (err e, w)
  entries_of dir (ok entries) w = let (rs, w') = load_entries dir entries w in (ok rs, w')

  -- Records, with os.ReadDir
  unfoldable pub records :
      (Text → W → Result (OsError E) (List (Text × Bool)) × W) → Text → Exec W E (List Record)
  unfolding load_entries
  records read_dir dir w =
      if text_eq dir [] then (ok [], w) else let (r, w') = read_dir dir w in entries_of dir r w'
