-- ===== src/Keys/Giveup/Standing.antt =====
-- How long a record of internal/giveup/giveup.go stands, over a file system that gives back what was
-- written.
use sshakku.Install.Files.{OsError, not_there, other_error}
use sshakku.Keys.Giveup.{
  Files, Store, path_of, is_given_up, clear_key, unless_absent, record_at, at_path, clear_at,
}
use sshakku.Prelude.{
  ℕ, zero, suc, ◌+◌, ◌≤◌, ltb, Text, newline, trim_space, ℤ, pos, negsuc, ◌∷◌, [], ◌++◌, Bool, true,
  false, Option, none, some, Result, ok, err, ◌≡◌, ◌⊎◌, inl, inr, refl,
}

-- What a store relies on: a file holds what was written to it, one that was removed, or that was not
-- there to remove, cannot be read, and a time that was formatted is read back up to its second.
pub record Keeps {W E : Type 0} (fs : Files W E) : Type 0 where
  pub second_of : ℕ → ℕ
  pub second_of_le : (t : ℕ) → second_of t ≤ t
  pub parse_show :
      (t : ℕ) → fs.parse_time (trim_space (fs.show_time t ++ (newline ∷ []))) ≡ some (second_of t)
  pub read_written :
      (p text : Text) (w : W)
      → (fs.write_file p text w).0 ≡ ok tt
      → (fs.read_file p (fs.write_file p text w).1).0 ≡ ok text
  pub read_removed :
      (p : Text) (w : W)
      → ((fs.remove p w).0 ≡ ok tt) ⊎ ((fs.remove p w).0 ≡ err not_there)
      → (fs.read_file p (fs.remove p w).1).0 ≡ err not_there

-- Whether a record with a stamp stands at a time: for good without a time to live, and else until it is
-- as old as that.
abbrev pub stands : ℤ → ℕ → ℕ → Bool
stands (pos zero) stamp now = true
stands (negsuc n) stamp now = true
stands (pos (suc n)) stamp now = ltb now (stamp + suc n)

module _ {W E : Type 0} (fs : Files W E) (k : Keeps fs) where
  -- What a record that was written holds, when it is read.
  abbrev Stands : Store → Text → W → Option Text → Type 0
  Stands s p w o =
      (record_at fs s o w).0 ≡ ok tt
      → let after = (record_at fs s o w).1 in
        (at_path fs s o after).0
        ≡ stands s.ttl (k.second_of (fs.now (fs.mkdir_all s.dir w).1).0)
            (fs.now (fs.read_file p after).1).0

  read-removed :
      (p : Text) (w : W)
      → unless_absent fs (fs.remove p w).0 ≡ ok tt
      → (fs.read_file p (fs.remove p w).1).0 ≡ err not_there
  read-removed p w h = k.read_removed p w (removed (fs.remove p w).0 h)
    where
      removed :
          (r : Result (OsError E) (Unit {0}))
          → unless_absent fs r ≡ ok tt
          → (r ≡ ok tt) ⊎ (r ≡ err not_there)
      removed (ok tt) z = inl refl
      removed (err not_there) z = inr refl
      removed (err (other_error e)) z = absurd cc

  clear_at-over :
      (s : Store) (o : Option Text) (w : W)
      → (clear_at fs o w).0 ≡ ok tt
      → (at_path fs s o (clear_at fs o w).1).0 ≡ false
  clear_at-over s none w h = refl
  clear_at-over s (some p) w h = rw (read-removed p w h) refl

  -- After a Clear that reports no error, the key is not given up.
  pub clear_key-over :
      (s : Store) (key : Text) (w : W)
      → (clear_key fs s key w).0 ≡ ok tt
      → (is_given_up fs s key (clear_key fs s key w).1).0 ≡ false
  unfolding clear_key is_given_up path_of
  clear_key-over s key w done = clear_at-over s (path_of s.dir key) w done
