-- ===== src/Prelude/Triples.antt =====
-- What an action makes of a world that satisfies `Pre`: the value and the world that it returns
-- satisfy `Post`, or the world that it fails in satisfies `Fail`. One rule for each way to put
-- actions together.
use mathlib.Core.Path.{◌≡◌, subst}
use sshakku.Prelude.Effects.{
  Result, ok, err, Exec, continue, ◌>>=◌, pure, throw, lift, wrapped, wrap,
}

abbrev pub Outcome : {W E A : Type 0} → (A → W → Type 0) → (W → Type 0) → Result E A → W → Type 0
Outcome post fail (ok a) w = post a w
Outcome post fail (err e) w = fail w

pub record Triple {W E A : Type 0} (pre : W → Type 0) (post : A → W → Type 0) (fail : W → Type 0)
    (m : Exec W E A) : Type 0 where
  pub at : (w : W) → pre w → Outcome post fail (m w).0 (m w).1

module _ {W E A : Type 0} (post : A → W → Type 0) (fail : W → Type 0) where
  Outcome-wrapped :
      {F : Type 0} (f : E → F) (r : Result E A) (w : W)
      → Outcome post fail r w
      → Outcome post fail (wrapped f r) w
  Outcome-wrapped f (ok a) w h = h
  Outcome-wrapped f (err e) w h = h

  Outcome-ok : (r : Result E A) (w : W) (a : A) → r ≡ ok a → Outcome post fail r w → post a w
  Outcome-ok (ok b) w a e h = let same : b ≡ a = cc in subst (λ x. post x w) same h
  Outcome-ok (err b) w a e h = cc

  Outcome-post :
      {stronger : A → W → Type 0} (r : Result E A) (w : W)
      → Outcome stronger fail r w
      → ((a : A) (w : W) → stronger a w → post a w)
      → Outcome post fail r w
  Outcome-post (ok a) w h k = k a w h
  Outcome-post (err e) w h k = h

module _ {W E A : Type 0} {pre : W → Type 0} {post : A → W → Type 0} {fail : W → Type 0} where
  pub Triple-pure : (a : A) → ((w : W) → pre w → post a w) → Triple {E = E} pre post fail (pure a)
  Triple-pure a h = record { at = h }

  pub Triple-throw : (e : E) → ((w : W) → pre w → fail w) → Triple pre post fail (throw {A = A} e)
  Triple-throw e h = record { at = h }

  pub Triple-lift :
      (m : W → A × W)
      → ((w : W) → pre w → post (m w).0 (m w).1)
      → Triple {E = E} pre post fail (lift m)
  Triple-lift m h = record { at = h }

  pub Triple-wrap :
      {F : Type 0} (f : E → F) (m : Exec W E A)
      → Triple pre post fail m
      → Triple pre post fail (wrap f m)
  Triple-wrap f m t = record { at = λ w p. Outcome-wrapped post fail f (m w).0 (m w).1 (t.at w p) }

  -- What a triple says of a run that returns.
  pub Triple-ok :
      (m : Exec W E A) (w : W) (a : A)
      → Triple pre post fail m
      → pre w
      → (m w).0 ≡ ok a
      → post a (m w).1
  Triple-ok m w a t p e = Outcome-ok post fail (m w).0 (m w).1 a e (t.at w p)

module _ {W E A B : Type 0} {mid : A → W → Type 0} {post : B → W → Type 0} where
  Outcome-continue :
      {fail : W → Type 0} (r : Result E A) (f : A → Exec W E B) (w : W)
      → Outcome mid fail r w
      → ((a : A) → Triple (mid a) post fail (f a))
      → Outcome post fail (continue r f w).0 (continue r f w).1
  Outcome-continue (ok a) f w h k = (k a).at w h
  Outcome-continue (err e) f w h k = h

  pub Triple-bind :
      {pre fail : W → Type 0} (m : Exec W E A) (f : A → Exec W E B)
      → Triple pre mid fail m
      → ((a : A) → Triple (mid a) post fail (f a))
      → Triple pre post fail (m >>= f)
  Triple-bind m f t k = record { at = λ w p. Outcome-continue (m w).0 f (m w).1 (t.at w p) k }

module _ {W E A : Type 0} {pre : W → Type 0} {post : A → W → Type 0} {fail : W → Type 0} where
  pub Triple-pre :
      {wider : W → Type 0} (m : Exec W E A)
      → Triple wider post fail m
      → ((w : W) → pre w → wider w)
      → Triple pre post fail m
  Triple-pre m t h = record { at = λ w p. t.at w (h w p) }

  pub Triple-post :
      {stronger : A → W → Type 0} (m : Exec W E A)
      → Triple pre stronger fail m
      → ((a : A) (w : W) → stronger a w → post a w)
      → Triple pre post fail m
  Triple-post m t h = record { at = λ w p. Outcome-post post fail (m w).0 (m w).1 (t.at w p) h }

-- The world does not matter to what is returned.
abbrev pub Gives : {W E A : Type 0} → (A → Type 0) → Exec W E A → Type 0
Gives post m = Triple (λ _. Unit) (λ a _. post a) (λ _. Unit) m

-- A bind of which only the rest matters to what is returned.
pub Gives-then :
    {W E A B : Type 0} {post : B → Type 0} (m : Exec W E A) (f : A → Exec W E B)
    → ((a : A) → Gives post (f a))
    → Gives post (m >>= f)
Gives-then m f k =
    Triple-bind {mid = λ _ _. Unit} m f (record { at = λ w h. anything (m w).0 (m w).1 }) k
  where
    anything : {W E A : Type 0} (r : Result E A) (w : W) → Outcome (λ _ _. Unit) (λ _. Unit) r w
    anything (ok a) w = tt
    anything (err e) w = tt
