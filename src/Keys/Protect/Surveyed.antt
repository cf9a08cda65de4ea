-- ===== src/Keys/Protect/Surveyed.antt =====
-- Which paths of a survey of internal/keys/protect are left to do.
use sshakku.Keys.Protect.{
  Look, answer_for, take_each, take_survey, is_protected, is_pending, already_among, already,
  pending_among, pending,
}
use sshakku.Prelude.{Text, List, [], ◌∷◌, Bool, true, false, Option, none, some, if◌then◌else◌}

-- Two lists that a third one is put together from, in order.
pub data Interleaved {A : Type 0} : List A → List A → List A → Type 0 where
  neither : Interleaved [] [] []
  first : (x : A) {xs ys zs : List A} → Interleaved xs ys zs → Interleaved (x ∷ xs) ys (x ∷ zs)
  second : (x : A) {xs ys zs : List A} → Interleaved xs ys zs → Interleaved xs (x ∷ ys) (x ∷ zs)

module _ {W E : Type 0} (look : Look W E) where
  split_each-Interleaved :
      (paths : List Text) (w : W)
      → Interleaved
          (already_among (take_each look paths w).0)
          (pending_among (take_each look paths w).0)
          paths
  unfolding take_each already_among pending_among
  split_each-Interleaved [] w = neither
  split_each-Interleaved (path ∷ paths) w =
      by_answer (answer_for (look path w).0) (split_each-Interleaved paths (look path w).1)
    where
      by_answer :
          {xs ys : List Text} (o : Option Bool)
          → Interleaved xs ys paths
          → Interleaved
              (if is_protected o then path ∷ xs else xs)
              (if is_pending o then path ∷ ys else ys)
              (path ∷ paths)
      by_answer none h = second path h
      by_answer (some true) h = first path h
      by_answer (some false) h = second path h

  -- Whatever the look answers, each path of a survey is either protected already or pending, and
  -- never both: the two lists are put together to the paths, in the order they were given.
  pub survey_split :
      (scheme : Text) (paths : List Text) (w : W)
      → Interleaved
          (already (take_survey scheme paths look w).0)
          (pending (take_survey scheme paths look w).0)
          paths
  unfolding take_survey already pending
  survey_split scheme paths w = split_each-Interleaved paths w
