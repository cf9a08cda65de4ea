-- ===== src/Keys/Protect.antt =====
-- internal/keys/protect/protect.go: key files that only their owner can read. The look at a path and
-- the attempt to protect it belong to the system, and are parameters.
pub mod Surveyed
pub mod Applied
mod Tests
use sshakku.FilePath
use sshakku.FilePath.{base}
use sshakku.Prelude.{
  Text, codes, text_eq, List, [], ◌∷◌, ◌++◌, Bool, true, false, not, ◌&&◌, ◌||◌, Option, none, some,
  if◌then◌else◌, Result, ok, err,
}

-- Look: an answer of none is nil, where it could not be told.
abbrev pub Look : Type 0 → Type 0 → Type 0
Look W E = Text → W → Result E (Option Bool) × W

abbrev pub authorized_keys : Text
authorized_keys = codes "authorized_keys"

abbrev pub server_key_dir_name : Text
server_key_dir_name = codes ".ssh"

-- AuthorizedKeysIn
unfoldable pub authorized_keys_in : Text → Text
authorized_keys_in dir = FilePath.join dir authorized_keys

-- PathProtection
pub record PathProtection : Type 0 where
  pub path : Text
  pub protected : Option Bool

-- Survey
pub record Survey : Type 0 where
  pub scheme : Text
  pub paths : List PathProtection

-- answerFor
unfoldable pub answer_for : {E : Type 0} → Result E (Option Bool) → Option Bool
answer_for (ok answer) = answer
answer_for (err e) = none

-- The loop of Take.
unfoldable pub take_each : {W E : Type 0} → Look W E → List Text → W → List PathProtection × W
unfolding answer_for
take_each look [] w = ([], w)
take_each look (path ∷ paths) w =
    let (r, w') = look path w in
    let (ps, w'') = take_each look paths w' in
    (record { path = path; protected = answer_for r } ∷ ps, w'')

-- Take
unfoldable pub take_survey : {W E : Type 0} → Text → List Text → Look W E → W → Survey × W
unfolding take_each
take_survey scheme paths look w =
    let (ps, w') = take_each look paths w in (record { scheme = scheme; paths = ps }, w')

abbrev pub is_protected : Option Bool → Bool
is_protected none = false
is_protected (some b) = b

-- The loop of Already.
unfoldable pub already_among : List PathProtection → List Text
already_among [] = []
already_among (p ∷ ps) =
    let rest = already_among ps in if is_protected p.protected then p.path ∷ rest else rest

-- Already
unfoldable pub already : Survey → List Text
unfolding already_among
already s = already_among s.paths

abbrev pub is_pending : Option Bool → Bool
is_pending none = true
is_pending (some b) = not b

-- The loop of Pending.
unfoldable pub pending_among : List PathProtection → List Text
pending_among [] = []
pending_among (p ∷ ps) =
    let rest = pending_among ps in if is_pending p.protected then p.path ∷ rest else rest

-- Pending
unfoldable pub pending : Survey → List Text
unfolding pending_among
pending s = pending_among s.paths

-- Cost
pub record Cost : Type 0 where
  pub dir : Text
  pub server_reads : Bool
  pub authorized_keys : Text

abbrev pub no_cost : Cost
no_cost = record { dir = []; server_reads = false; authorized_keys = [] }

-- NeedsWarning
unfoldable pub needs_warning : Cost → Bool
needs_warning c = not (text_eq c.dir []) && (c.server_reads || not (text_eq c.authorized_keys []))

-- NeedsConfirmation
unfoldable pub needs_confirmation : Cost → Bool
needs_confirmation c = not (text_eq c.authorized_keys [])

-- What a Plan holds.
pub record Plan : Type 0 where
  pub targets : List Text
  pub cost : Cost

-- The loop of PlanFor.
unfoldable pub key_targets : List Text → List Text
key_targets [] = []
key_targets (key ∷ keys) =
    let rest = key_targets keys in if text_eq (base key) authorized_keys then rest else key ∷ rest

-- PlanFor
unfoldable pub plan_for : Text → List Text → Bool → Text → Plan
unfolding key_targets
plan_for dir keys false authorized_keys_there = record {
  targets = key_targets keys;
  cost = no_cost;
}
plan_for dir keys true authorized_keys_there = record {
  targets = dir ∷ key_targets keys;
  cost = record {
    dir = dir;
    server_reads = text_eq (base dir) server_key_dir_name;
    authorized_keys = authorized_keys_there;
  };
}

-- Why a path is not protected: what the attempt said, or that it said nothing.
pub data Reason (E : Type 0) : Type 0 where
  attempt_failed : E → Reason E
  not_protected_after_all : Reason E

-- Result, with its map as the list of what was written to it, the last first.
pub record Outcome (E : Type 0) : Type 0 where
  pub protected : List Text
  pub failed : List Text
  pub skipped : List Text
  pub reasons : List (Text × Reason E)

abbrev pub nothing_done : {E : Type 0} → Outcome E
nothing_done = record { protected = []; failed = []; skipped = []; reasons = [] }

-- The lookup of a path in the map.
unfoldable pub reason_of : {E : Type 0} → List (Text × Reason E) → Text → Option (Reason E)
reason_of [] path = none
reason_of ((p, r) ∷ rs) path =
    let rest = reason_of rs path in if text_eq p path then some r else rest

module _ {E : Type 0} where
  abbrev pub attempted : Text → Result E (Unit {0}) → Outcome E → Outcome E
  attempted target (ok done) res = res
  attempted target (err e) res = record res { reasons = (target, attempt_failed e) ∷ res.reasons }

  abbrev pub unless_said :
      Text → Option (Reason E) → List (Text × Reason E) → List (Text × Reason E)
  unless_said target (some said) reasons = reasons
  unless_said target none reasons = (target, not_protected_after_all) ∷ reasons

  abbrev pub read_back : Text → Bool → Outcome E → Outcome E
  read_back target true res = record res { protected = res.protected ++ target ∷ [] }
  read_back target false res = record res {
    failed = res.failed ++ target ∷ [];
    reasons = unless_said target (reason_of res.reasons target) res.reasons;
  }

module _ {W E : Type 0} (protect : Text → W → Result E (Unit {0}) × W) (look : Look W E) where
  -- The body of the loop of Apply, by the guard.
  abbrev pub apply_to : Bool → Text → Outcome E → W → Outcome E × W
  apply_to true target res w = (record res { skipped = res.skipped ++ target ∷ [] }, w)
  apply_to false target res w =
      let (r, w') = protect target w in
      let (answer, w'') = look target w' in
      (read_back target (is_protected (answer_for answer)) (attempted target r res), w'')

  -- The loop of Apply.
  unfoldable pub apply_each : List Text → Outcome E → W → Outcome E × W
  unfolding answer_for reason_of
  apply_each [] res w = (res, w)
  apply_each (target ∷ targets) res w =
      let (res', w') = apply_to (text_eq (base target) authorized_keys) target res w in
      apply_each targets res' w'

  -- Apply
  unfoldable pub apply_protection : List Text → W → Outcome E × W
  unfolding apply_each
  apply_protection targets w = apply_each targets nothing_done w
