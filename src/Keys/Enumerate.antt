-- ===== src/Keys/Enumerate.antt =====
-- internal/keys/enum.go: which files of a directory are keys. The match of a shell glob
-- (filepath.Match) and the reading of the directory are parameters.
use sshakku.FilePath
use sshakku.Prelude.{
  Text, codes, text_eq, List, [], ◌∷◌, Bool, true, false, not, ◌&&◌, ◌||◌, if◌then◌else◌, All,
  All-map, ◌⊎◌, ◌≡◌, refl, inl, inr, arith, Result, ok, err,
}

-- strings.HasSuffix
abbrev pub has_suffix : Text → Text → Bool
has_suffix suffix [] = text_eq [] suffix
has_suffix suffix (c ∷ s) = text_eq (c ∷ s) suffix || has_suffix suffix s

-- slices.Contains
unfoldable pub listed_in : List Text → Text → Bool
listed_in [] name = false
listed_in (n ∷ ns) name = text_eq n name || listed_in ns name

abbrev pub not_keys : List Text
not_keys =
    codes "config"
    ∷ codes "known_hosts"
    ∷ codes "known_hosts.old"
    ∷ codes "authorized_keys"
    ∷ codes "authorized_keys2"
    ∷ codes "environment"
    ∷ codes "rc"
    ∷ []

abbrev pub default_key_patterns : List Text
default_key_patterns = codes "id_*" ∷ []

-- Enumerator
pub record Enumerator : Type 0 where
  pub dir : Text
  pub patterns : List Text
  pub must_exist : Bool

-- patterns
unfoldable pub patterns_or : List Text → List Text
patterns_or [] = default_key_patterns
patterns_or (p ∷ ps) = p ∷ ps

-- An entry of a directory, and whether it is a regular file.
pub record Entry : Type 0 where
  pub name : Text
  pub is_regular : Bool

module _ (matches : Text → Text → Bool) where
  -- The loop of isKeyName.
  unfoldable pub matches_any : List Text → Text → Bool
  matches_any [] name = false
  matches_any (p ∷ ps) name = matches p name || matches_any ps name

  -- isKeyName
  unfoldable pub is_key_name : List Text → Text → Bool
  unfolding matches_any listed_in patterns_or
  is_key_name patterns name =
      if has_suffix (codes ".pub") name || listed_in not_keys name
      then false
      else matches_any (patterns_or patterns) name

  -- The loop of Keys.
  unfoldable pub keys_among : Text → List Text → List Entry → List Text
  unfolding is_key_name
  keys_among dir patterns [] = []
  keys_among dir patterns (e ∷ es) =
      let rest = keys_among dir patterns es in
      if is_key_name patterns e.name && e.is_regular then FilePath.join dir e.name ∷ rest else rest

  -- What Keys makes of the directory's entries, or of the error and whether nothing is there.
  unfoldable pub keys_of :
      {E : Type 0} → Enumerator → Result E (List Entry) → Bool → Result E (List Text)
  unfolding keys_among
  keys_of e (ok entries) absent = ok (keys_among e.dir e.patterns entries)
  keys_of e (err wrong) absent = if not e.must_exist && absent then ok [] else err wrong

  -- A key of a directory: a regular file that no pattern of public halves or of OpenSSH's own names.
  abbrev pub IsKey : Text → List Text → List Entry → Text → Type 0
  IsKey dir patterns [] path = ⊥
  IsKey dir patterns (e ∷ es) path =
      ((path ≡ FilePath.join dir e.name)
        × (e.is_regular ≡ true)
        × (has_suffix (codes ".pub") e.name ≡ false)
        × (listed_in not_keys e.name ≡ false)
        × (matches_any (patterns_or patterns) e.name ≡ true))
      ⊎ IsKey dir patterns es path

  passes :
      (a b m : Bool) → (if a || b then false else m) ≡ true → (a ≡ false) × (b ≡ false) × (m ≡ true)
  passes true b m h = absurd (let k = h in cc)
  passes false true m h = absurd (let k = h in cc)
  passes false false m h = (refl, refl, h)

  is_key_name-true :
      (patterns : List Text) (name : Text)
      → is_key_name patterns name ≡ true
      → (has_suffix (codes ".pub") name ≡ false)
        × (listed_in not_keys name ≡ false)
        × (matches_any (patterns_or patterns) name ≡ true)
  unfolding is_key_name
  is_key_name-true patterns name h =
      passes (has_suffix (codes ".pub") name) (listed_in not_keys name)
        (matches_any (patterns_or patterns) name) h

  both : (a b : Bool) → (a && b) ≡ true → (a ≡ true) × (b ≡ true)
  both a b h = ground arith

  All-more :
      (dir : Text) (patterns : List Text) (e : Entry) (es : List Entry) (paths : List Text)
      → All (IsKey dir patterns es) paths
      → All (IsKey dir patterns (e ∷ es)) paths
  All-more dir patterns e es paths h =
      All-map (IsKey dir patterns es) (IsKey dir patterns (e ∷ es)) paths (λ p k. inr k) h

  -- The paths with one entry more, by whether it is kept.
  kept-IsKey :
      (dir : Text) (patterns : List Text) (e : Entry) (es : List Entry) (paths : List Text)
      (b : Bool)
      → (is_key_name patterns e.name && e.is_regular) ≡ b
      → All (IsKey dir patterns (e ∷ es)) paths
      → All (IsKey dir patterns (e ∷ es)) (if b then FilePath.join dir e.name ∷ paths else paths)
  kept-IsKey dir patterns e es paths false h k = k
  kept-IsKey dir patterns e es paths true h k =
      let (named, regular) = both (is_key_name patterns e.name) e.is_regular h in
      let (p, o, m) = is_key_name-true patterns e.name named in (inl (refl, regular, p, o, m), k)

  -- Each path that Keys finds is the one of a regular file of the directory, which some pattern
  -- matches, and which is no public half and none of the files that OpenSSH keeps for itself.
  pub keys_among-IsKey :
      (dir : Text) (patterns : List Text) (es : List Entry)
      → All (IsKey dir patterns es) (keys_among dir patterns es)
  unfolding keys_among
  keys_among-IsKey dir patterns [] = tt
  keys_among-IsKey dir patterns (e ∷ es) =
      kept-IsKey dir patterns e es (keys_among dir patterns es)
        (is_key_name patterns e.name && e.is_regular) refl
        (All-more dir patterns e es (keys_among dir patterns es) (keys_among-IsKey dir patterns es))
