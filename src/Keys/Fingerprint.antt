-- ===== src/Keys/Fingerprint.antt =====
-- internal/keys/fingerprint.go: what ssh-keygen and ssh-add print about keys. The Runner is a
-- parameter, by the name and the arguments of the program that it runs.
use sshakku.Agent.Proc.{fields}
use sshakku.Prelude.{
  ℤ, int_eq, pos, Text, codes, newline, text_eq, has_prefix, split, List, [], ◌∷◌, Bool, false,
  ◌||◌, if◌then◌else◌, Exec, ◌>>=◌, pure,
}

-- Result of internal/run/run.go, by the exit code and the standard output.
pub record RunResult : Type 0 where
  pub code : ℤ
  pub stdout : Text

abbrev pub Runner : Type 0 → Type 0 → Type 0
Runner W E = Text → List Text → Exec W E RunResult

-- The second field where it is a hash.
unfoldable pub hash_of : List Text → Text
hash_of (bits ∷ hash ∷ rest) =
    if has_prefix hash (codes "SHA256:") || has_prefix hash (codes "MD5:") then hash else []
hash_of _ = []

-- fingerprintField
unfoldable pub fingerprint_field : Text → Text
unfolding hash_of
fingerprint_field line = hash_of (fields line)

-- What the loop of AgentFingerprints adds to the set, over the lines.
unfoldable pub fingerprints_of : List Text → List Text
unfolding fingerprint_field
fingerprints_of [] = []
fingerprints_of (line ∷ lines) =
    let rest = fingerprints_of lines in
    let fp = fingerprint_field line in if text_eq fp [] then rest else fp ∷ rest

-- Whether the set holds a fingerprint.
unfoldable pub holds_fingerprint : List Text → Text → Bool
holds_fingerprint [] fp = false
holds_fingerprint (f ∷ set) fp = text_eq f fp || holds_fingerprint set fp

-- sshAddOrDefault
unfoldable pub ssh_add_or_default : Text → Text
ssh_add_or_default name = if text_eq name [] then codes "ssh-add" else name

module _ {W E : Type 0} (run : Runner W E) where
  -- FileFingerprint
  unfoldable pub file_fingerprint : Text → Exec W E Text
  unfolding fingerprint_field
  file_fingerprint path = do
    res ← run (codes "ssh-keygen") (codes "-lf" ∷ path ∷ [])
    pure (if int_eq res.code (pos 0) then fingerprint_field res.stdout else [])

  -- AgentFingerprints
  unfoldable pub agent_fingerprints : Text → Exec W E (List Text)
  unfolding fingerprints_of ssh_add_or_default
  agent_fingerprints ssh_add = do
    res ← run (ssh_add_or_default ssh_add) (codes "-l" ∷ [])
    pure (fingerprints_of (split newline res.stdout))
