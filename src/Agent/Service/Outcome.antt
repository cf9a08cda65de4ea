-- ===== src/Agent/Service/Outcome.antt =====
-- What ensureServiceRunning of internal/agent/service.go comes to, over what it asked of the service.
use sshakku.Agent.Service.{
  ServiceState, stopped, running, ServiceControl, ServiceError, refused, will_not_stay, Answer,
  Rest,
}
use sshakku.Prelude.{ℕ, ◌+◌, ◌≤◌, ◌<◌, Bool, true, false, Option, none, some, Result, ok, err, ◌≡◌}

-- What was asked of the service: the starts, those that were granted, and the last state seen.
pub record Asked : Type 0 where
  pub starts : ℕ
  pub granted : ℕ
  pub seen : Option ServiceState

abbrev pub nothing_asked : Asked
nothing_asked = record { starts = 0; granted = 0; seen = none }

-- A service with a record of what was asked of it.
module _ {W E : Type 0} (svc : ServiceControl W E) where
  abbrev noted_state : Result E ServiceState × W → Asked → Result E ServiceState × (W × Asked)
  noted_state (ok s, w) a = (ok s, (w, record a { seen = some s }))
  noted_state (err e, w) a = (err e, (w, a))

  abbrev noted_start : Result E (Unit {0}) × W → Asked → Result E (Unit {0}) × (W × Asked)
  noted_start (ok done, w) a =
      (ok tt, (w, record a { starts = a.starts + 1; granted = a.granted + 1 }))
  noted_start (err e, w) a = (err e, (w, record a { starts = a.starts + 1 }))

  abbrev pub noted : ServiceControl (W × Asked) E
  noted = record {
    state = λ h. noted_state (svc.state h.0) h.1;
    start = λ h. noted_start (svc.start h.0) h.1;
    wait = λ h. let (r, w) = svc.wait h.0 in (r, (w, h.1));
  }

-- The deadline of the context: a number of waits that are left, which each wait that does not fail
-- takes one of, and which nothing else raises.
pub record Deadline {W E : Type 0} (svc : ServiceControl W E) : Type 0 where
  pub left : W → ℕ
  pub wait_takes : (w : W) → (svc.wait w).0 ≡ ok tt → left (svc.wait w).1 < left w
  pub state_keeps : (w : W) → left (svc.state w).1 ≤ left w
  pub start_keeps : (w : W) → left (svc.start w).1 ≤ left w

-- How the answer stands to what was asked.
abbrev pub Explains : {E : Type 0} → Option (ServiceError E) → Asked → Type 0
Explains none a = a.seen ≡ some running
Explains (some will_not_stay) a = (a.seen ≡ some stopped) × (a.granted ≡ 1)
Explains (some (refused e)) a = Unit

abbrev pub count : Bool → ℕ
count true = 1
count false = 0

pub record IsSound {W E : Type 0} (r : Option (Answer E × (W × Asked))) : Type 0 where
  pub answer : Answer E
  pub world : W
  pub asked : Asked
  pub returns : r ≡ some (answer, (world, asked))
  pub once : asked.starts ≤ 1
  pub reported : asked.granted ≡ count answer.0
  pub explained : Explains answer.1 asked

module _ {W E : Type 0} (svc : ServiceControl W E) (d : Deadline svc) where
  -- What the variables of the loop say of what was asked so far.
  abbrev Inv : Bool → Bool → Asked → Type 0
  Inv started asked a = (started ≡ asked) × (a.granted ≡ count asked) × (a.starts ≡ count asked)

  -- A rest of the loop that is sound as long as some waits are left.
  abbrev SoundRest : ℕ → Rest (noted svc) → Type 0
  SoundRest n again =
      (started asked : Bool) (w : W) (a : Asked)
      → d.left w < n
      → Inv started asked a
      → IsSound (again started asked (w, a))
