-- ===== src/Keys/Lifetimes/RoundTrip.antt =====
-- What Load of internal/keystate/keystate.go reads of a file that Save wrote.
use sshakku.Keys.Giveup.{Files}
use sshakku.Keys.Lifetimes.{save_at, load_at}
use sshakku.Prelude.{
  ℕ, Text, newline, Lacks, is_space, trim_right, pos, [], ◌∷◌, false, Option, some, ok, ◌≡◌,
}

-- The text is not empty, and its first character is no space.
abbrev pub Starts : Text → Type 0
Starts [] = ⊥
Starts (c ∷ s) = is_space c ≡ false

-- A text that is not empty and has no space at either end.
pub record IsTrimmed (s : Text) : Type 0 where
  pub starts : Starts s
  pub right : trim_right is_space s ≡ s

-- What Save and Load rely on: a file holds what was written to it, and a time that was formatted is a
-- line without spaces around it, which is read back up to its second.
pub record Keeps {W E : Type 0} (fs : Files W E) : Type 0 where
  pub second_of : ℕ → ℕ
  pub show-IsTrimmed : (t : ℕ) → IsTrimmed (fs.show_time t)
  pub show-Lacks : (t : ℕ) → Lacks newline (fs.show_time t)
  pub parse_show : (t : ℕ) → fs.parse_time (fs.show_time t) ≡ some (second_of t)
  pub read_written :
      (p text : Text) (w : W)
      → (fs.write_file p text w).0 ≡ ok tt
      → (fs.read_file p (fs.write_file p text w).1).0 ≡ ok text

module _ {W E : Type 0} (fs : Files W E) (k : Keeps fs) where
  abbrev Loads : Text → ℕ → Text → W → Option Text → Type 0
  Loads dir seconds keyfile w o =
      (save_at fs dir seconds keyfile o w).0 ≡ ok tt
      → (load_at fs o (save_at fs dir seconds keyfile o w).1).0
        ≡ some (record {
          added_at = k.second_of (fs.now (fs.mkdir_all dir w).1).0;
          lifetime = pos seconds;
          key_file = keyfile;
        })
