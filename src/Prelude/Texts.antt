-- ===== src/Prelude/Texts.antt =====
-- Text as its bytes, and what the program uses of Go's `strings` package on it.
use Prim.Native.Char.{code}
use Prim.Native.Nat.{ℕ}
use Prim.Native.String.{String}
use mathlib.Core.Path.{◌≡◌, refl}
use mathlib.Core.Logic.{◌≢◌, ◌↔◌}
use mathlib.Core.Bool.{Bool, true, false, ◌&&◌, ◌||◌}
use mathlib.Core.List.{List, [], ◌∷◌, ◌++◌}
use native.Mathlib.Omega.{arith}
use sshakku.Prelude.Tests.{leb, ◌==◌, if◌then◌else◌, All}

-- A Go string or byte slice, as its characters (code points). The program tells characters apart
-- and cuts text at ASCII ones only, so it does the same to the UTF-8 bytes.
abbrev pub Text : Type 0
Text = List ℕ

-- The bytes of an ASCII literal.
abbrev pub codes : String → Text
codes String.[] = []
codes (String.◌∷◌ c s) = code c ∷ codes s

abbrev pub newline : ℕ
newline = 10

abbrev pub text_eq : Text → Text → Bool
text_eq [] [] = true
text_eq [] (d ∷ t) = false
text_eq (c ∷ s) [] = false
text_eq (c ∷ s) (d ∷ t) = c == d && text_eq s t

pub text_eq_iff : (s t : Text) → (text_eq s t ≡ true) ↔ (s ≡ t)
text_eq_iff [] [] = (λ _. refl, λ _. refl)
text_eq_iff [] (d ∷ t) = (λ h. cc, λ h. cc)
text_eq_iff (c ∷ s) [] = (λ h. cc, λ h. cc)
text_eq_iff (c ∷ s) (d ∷ t) =
    (λ h. ground (arith, text_eq_iff s t), λ h. ground (arith, text_eq_iff s t))

pub text_eq_refl : (s : Text) → text_eq s s ≡ true
text_eq_refl s = (text_eq_iff s s).1 refl

-- unicode.IsSpace
abbrev pub is_space : ℕ → Bool
is_space c =
    leb 9 c && leb c 13
    || c == 32
    || c == 0x85
    || c == 0xa0
    || c == 0x1680
    || leb 0x2000 c && leb c 0x200a
    || c == 0x2028
    || c == 0x2029
    || c == 0x202f
    || c == 0x205f
    || c == 0x3000

-- strings.TrimLeft with a predicate.
unfoldable pub trim_left : (ℕ → Bool) → Text → Text
trim_left p [] = []
trim_left p (c ∷ s) = let rest = trim_left p s in if p c then rest else c ∷ s

-- A character in front of what strings.TrimRight left of the text behind it.
abbrev pub cons_unless_cut : (ℕ → Bool) → ℕ → Text → Text
cons_unless_cut p c [] = if p c then [] else c ∷ []
cons_unless_cut p c (d ∷ s) = c ∷ d ∷ s

-- strings.TrimRight with a predicate.
unfoldable pub trim_right : (ℕ → Bool) → Text → Text
trim_right p [] = []
trim_right p (c ∷ s) = cons_unless_cut p c (trim_right p s)

-- strings.TrimSpace
unfoldable pub trim_space : Text → Text
trim_space s = trim_right is_space (trim_left is_space s)

-- strings.HasSuffix by one character.
abbrev pub ends_with : ℕ → Text → Bool
ends_with c [] = false
ends_with c (x ∷ []) = x == c
ends_with c (x ∷ y ∷ r) = ends_with c (y ∷ r)

-- strings.HasPrefix
abbrev pub has_prefix : Text → Text → Bool
has_prefix s [] = true
has_prefix [] (d ∷ t) = false
has_prefix (c ∷ s) (d ∷ t) = c == d && has_prefix s t

-- A line put in front of the lines that follow it.
abbrev pub push : ℕ → List Text → List Text
push c [] = (c ∷ []) ∷ []
push c (l ∷ ls) = (c ∷ l) ∷ ls

-- strings.Split by a one-byte separator: never without an item.
unfoldable pub split : ℕ → Text → List Text
split sep [] = [] ∷ []
split sep (c ∷ s) = let rest = split sep s in if c == sep then [] ∷ rest else push c rest

-- strings.Join by a one-byte separator.
unfoldable pub join : ℕ → List Text → Text
join sep [] = []
join sep (l ∷ []) = l
join sep (l ∷ m ∷ ls) = l ++ sep ∷ join sep (m ∷ ls)

-- strings.TrimSuffix by one byte.
unfoldable pub trim_last : ℕ → Text → Text
trim_last c [] = []
trim_last c (x ∷ []) = if x == c then [] else x ∷ []
trim_last c (x ∷ y ∷ r) = x ∷ trim_last c (y ∷ r)

-- The byte does not occur.
abbrev pub Lacks : ℕ → Text → Type 0
Lacks sep = All (λ c. c ≢ sep)

-- strings.Contains
abbrev pub contains : Text → Text → Bool
contains part [] = has_prefix [] part
contains part (c ∷ s) = has_prefix (c ∷ s) part || contains part s

contains_inside : contains (codes "b/") (codes "ab/c") ≡ true
contains_inside = refl

contains_absent : contains (codes "bc") (codes "ab/c") ≡ false
contains_absent = refl
