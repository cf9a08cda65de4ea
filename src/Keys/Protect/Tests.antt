-- ===== src/Keys/Protect/Tests.antt =====
-- A directory with a key that cannot be protected, though the attempt says that it was.
use sshakku.FilePath.{base}
use sshakku.Keys.Protect.{
  plan_for, apply_protection, already, pending, take_survey, needs_confirmation,
  not_protected_after_all,
}
use sshakku.Keys.Protect.Applied as Applied
use sshakku.Keys.Protect.Applied.{StaysProtected, IsSound}
use sshakku.Keys.Protect.Surveyed as Surveyed
use sshakku.Keys.Protect.Surveyed.{Interleaved}
use sshakku.Prelude.{
  Text, codes, text_eq, split, trim_right, List, [], ◌∷◌, Bool, true, false, Bool-cases, Option,
  some, if◌then◌else◌, Result, ok, ◌≡◌, inl, inr, refl, ap,
}

-- Which paths are protected.
abbrev View : Type 0
View = Text → Bool

abbrev stubborn : Text
stubborn = codes "/k/id_ro"

abbrev protect : Text → View → Result Text (Unit {0}) × View
protect path v =
    (ok tt, λ p. if text_eq path stubborn then v p else (if text_eq path p then true else v p))

abbrev look : Text → View → Result Text (Option Bool) × View
look path v = (ok (some (v path)), v)

abbrev nothing_protected : View
nothing_protected p = false

protect-keeps : (p q : Text) (v : View) → v p ≡ true → (protect q v).1 p ≡ true
protect-keeps p q v h = elim (Bool-cases (text_eq q stubborn)) [
  | inl e ↦ rw e h
  | inr e ↦ elim (Bool-cases (text_eq q p)) [ inl k ↦ rw (e, k) refl | inr k ↦ rw (e, k) h ]
]

found : Bool → Result Text (Option Bool)
found b = ok (some b)

was_found : (b : Bool) → found b ≡ found true → b ≡ true
unfolding found
was_found b h = cc

stays_found :
    (p q : Text) (v : View)
    → (look p v).0 ≡ ok (some true)
    → (look p (protect q v).1).0 ≡ ok (some true)
unfolding found
stays_found p q v h = ap found (protect-keeps p q v (was_found (v p) h))

abbrev stays : StaysProtected protect look
stays = record { attempt_keeps = stays_found; look_keeps = λ p q v h. h }

abbrev targets : List Text
targets = codes "/k/id_rsa" ∷ stubborn ∷ codes "/k/authorized_keys" ∷ []

reported : (apply_protection protect look targets nothing_protected).0 ≡ record {
  protected = codes "/k/id_rsa" ∷ [];
  failed = stubborn ∷ [];
  skipped = codes "/k/authorized_keys" ∷ [];
  reasons = (stubborn, not_protected_after_all) ∷ [];
}
unfolding apply_protection base split trim_right
reported = refl

asks_first :
    needs_confirmation (plan_for (codes "/h/.ssh") [] true (codes "/h/.ssh/authorized_keys")).cost
    ≡ true
unfolding needs_confirmation plan_for
asks_first = refl

apply_protection-IsSound_example :
    IsSound protect look targets
      (apply_protection protect look targets nothing_protected).0
      (apply_protection protect look targets nothing_protected).1
apply_protection-IsSound_example =
    Applied.apply_protection-IsSound protect look stays targets nothing_protected

survey_split_example :
    Interleaved
      (already (take_survey (codes "efs") targets look nothing_protected).0)
      (pending (take_survey (codes "efs") targets look nothing_protected).0)
      targets
survey_split_example = Surveyed.survey_split look (codes "efs") targets nothing_protected
