-- ===== src/Session.antt =====
-- internal/sessionlog/sessionlog.go: the log of a session and its trimming. The lock, the file and
-- the clock are parameters.
mod Tests
use sshakku.Prelude.{
  ℕ, zero, suc, ◌-◌, ◌≤◌, leb, Text, codes, newline, split, join, trim_right, ◌==◌, List, [], ◌∷◌,
  ◌++◌, length, drop, Bool, true, false, Bool-cases, ◌⊎◌, ◌<◌, if◌then◌else◌, ◌≡◌, refl, ap, inl,
  inr, arith, Exec, Result, ok, err, continue, ◌>>=◌, ◌>>◌, pure, lift,
}

pub record Ports (W E : Type 0) : Type 0 where
  -- lock: whether it was got; the result also releases it
  pub lock : Exec W E (Bool × (W → W))
  -- The opening, the write and the close of the file
  pub append : Text → Exec W E (Unit {0})
  pub read_file : Exec W E Text
  pub write_file : Text → Exec W E (Unit {0})
  pub timestamp : W → Text × W

-- The lines that trim keeps.
unfoldable pub last_lines : ℕ → List Text → List Text
last_lines max lines = if leb (length lines) max then lines else drop (length lines - max) lines

abbrev pub lines_of : Text → List Text
lines_of content = split newline (trim_right (λ c. c == newline) content)

abbrev pub line_text : Text → Text → Text → Text
line_text time level message =
    time ++ (codes " | [" ++ (level ++ (codes "] " ++ (message ++ (newline ∷ [])))))

module _ {W E : Type 0} (io : Ports W E) (max_lines : ℕ) where
  abbrev pub rewritten : Text → Exec W E (Unit {0})
  rewritten content =
      if leb (length (lines_of content)) max_lines
      then pure tt
      else io.write_file (join newline (last_lines max_lines (lines_of content)) ++ (newline ∷ []))

  -- trim
  unfoldable pub trim : Exec W E (Unit {0})
  unfolding last_lines
  trim = do content ← io.read_file; rewritten content

  abbrev pub trim_if : Bool → Exec W E (Unit {0})
  trim_if true = trim
  trim_if false = pure tt

  abbrev pub released : Text → Result E (Bool × (W → W)) → Exec W E (Unit {0})
  released line (err e) w = (err e, w)
  released line (ok (held, release)) w =
      let (r, w') = (io.append line >> trim_if held) w in (r, release w')

  -- Log
  unfoldable pub log : Text → Text → Exec W E (Unit {0})
  unfolding trim
  log level message w =
      let (time, w') = io.timestamp w in
      let (r, w'') = io.lock w' in released (line_text time level message) r w''

drop_front : {A : Type 0} (n : ℕ) (xs : List A) → (front : List A) × (xs ≡ front ++ drop n xs)
drop_front zero xs = ([], refl)
drop_front (suc n) [] = ([], refl)
drop_front (suc n) (x ∷ xs) = let (front, e) = drop_front n xs in (x ∷ front, ap (λ ys. x ∷ ys) e)

length-drop : {A : Type 0} (n : ℕ) (xs : List A) → length (drop n xs) ≡ length xs - n
length-drop zero xs = omega arith
length-drop (suc n) [] = omega arith
length-drop (suc n) (x ∷ xs) = let h = length-drop n xs in omega arith

-- The lines of a log that has too many: those that go, and the last ones, as many as it may have.
last_lines_split :
    (max : ℕ) (lines : List Text)
    → leb (length lines) max ≡ false
    → (front : List Text) × (lines ≡ front ++ last_lines max lines)
      × (length (last_lines max lines) ≡ max)
unfolding last_lines
last_lines_split max lines e =
    let shorter = length-drop (length lines - max) lines in
    let (front, split_at) = drop_front (length lines - max) lines in
    rw e (front, split_at, ground arith)

-- Where the log can be read, trim does nothing to one that has no more lines than it may, and writes
-- over one that has more exactly the last lines, in order, as many as the log may have, and ended by a
-- line end.
pub trim_lem :
    {W E : Type 0} (io : Ports W E) (max : ℕ) (content : Text) (w w' : W)
    → io.read_file w ≡ (ok content, w')
    → ((length (lines_of content) ≤ max) × (trim io max w ≡ (ok tt, w')))
      ⊎ ((front : List Text) × (kept : List Text) × (lines_of content ≡ front ++ kept)
          × (length kept ≡ max)
          × (max < length (lines_of content))
          × (trim io max w ≡ io.write_file (join newline kept ++ (newline ∷ [])) w'))
unfolding trim
trim_lem io max content w w' h = elim (Bool-cases (leb (length (lines_of content)) max)) [
  | inl e ↦ inl (ground arith, rw (h, e) refl)
  | inr e ↦
      let (front, split_at, all) = last_lines_split max (lines_of content) e in
      inr (front, last_lines max (lines_of content), split_at, all, ground arith, rw (h, e) refl)
]
