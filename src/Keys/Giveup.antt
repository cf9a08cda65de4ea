-- ===== src/Keys/Giveup.antt =====
-- internal/giveup/giveup.go: one small file per key that was given up. Package os, the clock and the
-- format of a time are parameters; a time is a number of nanoseconds.
pub mod Standing
mod Tests
use sshakku.FilePath
use sshakku.FilePath.{base}
use sshakku.Install.Files.{OsError, not_there, other_error}
use sshakku.Prelude.{
  ℕ, zero, suc, ◌+◌, leb, Text, codes, newline, text_eq, trim_space, ℤ, pos, negsuc, ◌∷◌, [], ◌++◌,
  Bool, true, false, ◌||◌, Option, none, some, if◌then◌else◌, Exec, Result, ok, err, ◌>>=◌,
}

-- What a store of records reaches of the system.
pub record Files (W E : Type 0) : Type 0 where
  pub read_file : Text → W → Result (OsError E) Text × W
  pub remove : Text → W → Result (OsError E) (Unit {0}) × W
  pub mkdir_all : Text → Exec W E (Unit {0})
  pub write_file : Text → Text → Exec W E (Unit {0})
  pub now : W → ℕ × W
  pub parse_time : Text → Option ℕ
  pub show_time : ℕ → Text

pub record Store : Type 0 where
  pub dir : Text
  pub ttl : ℤ

-- path: none where the store is disabled or the name is unusable
unfoldable pub path_of : Text → Text → Option Text
path_of dir key =
    let name = base key in
    if text_eq dir []
    then none
    else if text_eq name (codes ".")
        || text_eq name (codes "..")
        || text_eq name (codes "/")
        || text_eq (trim_space name) []
    then none
    else some (FilePath.join dir name)

-- Whether a record from a time on is over.
unfoldable pub is_over : ℕ → ℕ → ℕ → Bool
is_over stamp ttl now = leb (stamp + ttl) now

module _ {W E : Type 0} (fs : Files W E) where
  abbrev pub dropped : Text → W → Bool × W
  dropped p w = let (_, w') = fs.remove p w in (false, w')

  -- A record with a stamp, against the time to live.
  abbrev pub stamped : Text → ℕ → Option ℕ → W → Bool × W
  stamped p ttl none w = dropped p w
  stamped p ttl (some stamp) w =
      let (now, w') = fs.now w in if is_over stamp ttl now then dropped p w' else (true, w')

  abbrev pub by_content : Text → ℤ → Result (OsError E) Text → W → Bool × W
  by_content p ttl (err e) w = (false, w)
  by_content p (pos zero) (ok content) w = (true, w)
  by_content p (negsuc n) (ok content) w = (true, w)
  by_content p (pos (suc n)) (ok content) w =
      stamped p (suc n) (fs.parse_time (trim_space content)) w

  abbrev pub at_path : Store → Option Text → W → Bool × W
  at_path s none w = (false, w)
  at_path s (some p) w = let (r, w') = fs.read_file p w in by_content p s.ttl r w'

  -- GivenUp
  unfoldable pub is_given_up : Store → Text → W → Bool × W
  unfolding is_over path_of
  is_given_up s key w = at_path s (path_of s.dir key) w

  abbrev pub record_at : Store → Option Text → Exec W E (Unit {0})
  record_at s none w = (ok tt, w)
  record_at s (some p) w =
      (fs.mkdir_all s.dir >>= λ _ w.
      let (now, w') = fs.now w in fs.write_file p (fs.show_time now ++ (newline ∷ [])) w')
        w

  -- Record
  unfoldable pub record_key : Store → Text → Exec W E (Unit {0})
  unfolding path_of
  record_key s key = record_at s (path_of s.dir key)

  abbrev pub unless_absent : Result (OsError E) (Unit {0}) → Result E (Unit {0})
  unless_absent (ok done) = ok tt
  unless_absent (err not_there) = ok tt
  unless_absent (err (other_error e)) = err e

  abbrev pub clear_at : Option Text → Exec W E (Unit {0})
  clear_at none w = (ok tt, w)
  clear_at (some p) w = let (r, w') = fs.remove p w in (unless_absent r, w')

  -- Clear
  unfoldable pub clear_key : Store → Text → Exec W E (Unit {0})
  unfolding path_of
  clear_key s key = clear_at (path_of s.dir key)
