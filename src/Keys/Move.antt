-- ===== src/Keys/Move.antt =====
-- internal/keys/move/move.go: moving the keys to another directory, all of them or none. The file
-- system's `rename` and the platform's `permit` are parameters: each has the state that it finds
-- and the one that it leaves, and `none` where it succeeds.
pub mod PutBack
pub mod Outcome
pub mod Planned
pub mod Listed
use mathlib.Core.List.{reverse}
use sshakku.FilePath
use sshakku.FilePath.{base}
use sshakku.Prelude.{
  Text, codes, text_eq, List, [], ◌∷◌, ◌++◌, Bool, true, false, Option, none, some, if◌then◌else◌,
}

abbrev pub authorized_keys : Text
authorized_keys = codes "authorized_keys"

abbrev pub public_suffix : Text
public_suffix = codes ".pub"

pub data Kind : Type 0 where
  directory private_key public_key : Kind

pub record Move : Type 0 where
  pub from : Text
  pub to : Text
  pub kind : Kind

pub record Plan : Type 0 where
  pub dir : Text
  pub moves : List Move

abbrev pub moves_of : Text → Text → Bool → List Move
moves_of dir key true =
    record { from = key; to = FilePath.join dir (base key); kind = private_key }
    ∷ record {
      from = key ++ public_suffix;
      to = FilePath.join dir (base (key ++ public_suffix));
      kind = public_key;
    }
    ∷ []
moves_of dir key false =
    record { from = key; to = FilePath.join dir (base key); kind = private_key } ∷ []

-- The loop of PlanFor.
unfoldable pub plan_moves : Text → List Text → (Text → Bool) → List Move
plan_moves dir [] there = []
plan_moves dir (key ∷ keys) there =
    let rest = plan_moves dir keys there in
    if text_eq (base key) authorized_keys
    then rest
    else moves_of dir key (there (key ++ public_suffix)) ++ rest

-- PlanFor
unfoldable pub plan_for : Text → List Text → (Text → Bool) → Plan
unfolding plan_moves
plan_for dir keys there = record { dir = dir; moves = plan_moves dir keys there }

-- The loop of Blocked.
unfoldable pub taken_of : List Move → (Text → Bool) → List Text
taken_of [] there = []
taken_of (m ∷ ms) there = let rest = taken_of ms there in if there m.to then m.to ∷ rest else rest

-- Blocked
unfoldable pub blocked : Plan → (Text → Bool) → List Text
unfolding taken_of
blocked p there = taken_of p.moves there

pub record Result : Type 0 where
  pub moved : List Text
  pub stranded : List Text

-- The errors of Apply, with the path that each names.
pub data Failure (E : Type 0) : Type 0 where
  move_failed : Text → E → Failure E
  permissions_failed : Text → E → Failure E

module _ {W E : Type 0} (rename : Text → Text → W → Option E × W) where
  -- What putBack adds to `stranded` for one move.
  abbrev stranded_by : Option E → Text → List Text → List Text
  stranded_by none to rest = rest
  stranded_by (some e) to rest = to ∷ rest

  -- The loop of putBack, over the moves with the last one first.
  unfoldable pub put_back_each : List Move → W → List Text × W
  put_back_each [] w = ([], w)
  put_back_each (m ∷ ms) w =
      let (err, w') = rename m.to m.from w in
      let (stranded, w'') = put_back_each ms w' in (stranded_by err m.to stranded, w'')

  -- putBack
  unfoldable pub put_back : List Move → W → List Text × W
  unfolding put_back_each
  put_back done w = put_back_each (reverse done) w

  -- The two early returns of Apply.
  unfoldable pub fail_rename :
      List Move → List Text → Text → E → W → Result × Option (Failure E) × W
  unfolding put_back
  fail_rename done moved from e w =
      let (stranded, w') = put_back done w in
      (record { moved = moved; stranded = stranded }, some (move_failed from e), w')

  unfoldable pub fail_permit : List Move → Text → E → W → Result × Option (Failure E) × W
  unfolding put_back
  fail_permit done to e w =
      let (stranded, w') = put_back done w in
      (record { moved = []; stranded = stranded }, some (permissions_failed to e), w')

  module _ (permit : Text → Kind → W → Option E × W) where
    -- The loop of Apply, from the values of `done` and `res.Moved`.
    unfoldable pub apply_from :
        List Move → List Move → List Text → W → Result × Option (Failure E) × W
    unfolding fail_rename fail_permit
    apply_from [] done moved w = (record { moved = moved; stranded = [] }, none, w)
    apply_from (m ∷ ms) done moved w =
        let (err, w') = rename m.from m.to w in
        elim err [
          | some e ↦ fail_rename done moved m.from e w'
          | none ↦
              let (err', w'') = permit m.to m.kind w' in
              elim err' [
                | some e ↦ fail_permit (done ++ m ∷ []) m.to e w''
                | none ↦ apply_from ms (done ++ m ∷ []) (moved ++ m.to ∷ []) w''
              ]
        ]

    -- Apply
    unfoldable pub apply : Plan → W → Result × Option (Failure E) × W
    unfolding apply_from
    apply p w = apply_from p.moves [] [] w
