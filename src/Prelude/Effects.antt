-- ===== src/Prelude/Effects.antt =====
-- Code that acts on the world outside and may fail: the world that it finds goes in, and the one
-- that it leaves comes back beside the result or the error.
use mathlib.Core.Bool.{Bool, true, false}

pub data Result (E A : Type 0) : Type 0 where
  ok : A → Result E A
  err : E → Result E A

abbrev pub Exec : Type 0 → Type 0 → Type 0 → Type 0
Exec W E A = W → Result E A × W

abbrev pub continue : {W E A B : Type 0} → Result E A → (A → Exec W E B) → Exec W E B
continue (ok a) f w = f a w
continue (err e) f w = (err e, w)

infixl 10 ◌>>=◌ ◌>>◌
abbrev pub ◌>>=◌ : {W E A B : Type 0} → Exec W E A → (A → Exec W E B) → Exec W E B
◌>>=◌ m f w = let (r, w') = m w in continue r f w'

abbrev pub ◌>>◌ : {W E A B : Type 0} → Exec W E A → Exec W E B → Exec W E B
m >> n = m >>= λ _. n

abbrev pub pure : {W E A : Type 0} → A → Exec W E A
pure a w = (ok a, w)

abbrev pub throw : {W E A : Type 0} → E → Exec W E A
throw e w = (err e, w)

-- What always answers.
abbrev pub lift : {W E A : Type 0} → (W → A × W) → Exec W E A
lift m w = let (a, w') = m w in (ok a, w')

abbrev pub wrapped : {E F A : Type 0} → (E → F) → Result E A → Result F A
wrapped f (ok a) = ok a
wrapped f (err e) = err (f e)

-- An error with context put round it, as `fmt.Errorf` does with `%w`.
abbrev pub wrap : {W E F A : Type 0} → (E → F) → Exec W E A → Exec W F A
wrap f m w = let (r, w') = m w in (wrapped f r, w')

-- What fails is handed on as a value.
abbrev pub attempt : {W E F A : Type 0} → Exec W E A → Exec W F (Result E A)
attempt m w = let (r, w') = m w in (ok r, w')

abbrev pub is_ok : {E A : Type 0} → Result E A → Bool
is_ok (ok a) = true
is_ok (err e) = false
