-- ===== src/Agent/Service.antt =====
-- internal/agent/service.go: bringing up the service that holds the agent. The service manager of
-- the system and the wait between two questions are parameters.
pub mod Outcome
mod Tests
use sshakku.Prelude.{ℕ, zero, suc, Bool, true, false, Option, none, some, Result, ok, err}

-- serviceState
pub data ServiceState : Type 0 where
  something_else stopped starting running : ServiceState

-- serviceControl, and waitBeforeAskingAgain with its context.
pub record ServiceControl (W E : Type 0) : Type 0 where
  pub state : W → Result E ServiceState × W
  pub start : W → Result E (Unit {0}) × W
  pub wait : W → Result E (Unit {0}) × W

pub data ServiceError (E : Type 0) : Type 0 where
  refused : E → ServiceError E
  will_not_stay : ServiceError E

-- Whether this call started the service, and what went wrong.
abbrev pub Answer : Type 0 → Type 0
Answer E = Bool × Option (ServiceError E)

module _ {W E : Type 0} (svc : ServiceControl W E) where
  -- The rest of the loop, from the variables `started` and `asked` on.
  abbrev pub Rest : Type 0
  Rest = Bool → Bool → W → Option (Answer E × W)

  abbrev pub after_wait : Rest → Bool → Bool → Result E (Unit {0}) × W → Option (Answer E × W)
  after_wait again started asked (ok done, w) = again started asked w
  after_wait again started asked (err e, w) = some ((started, some (refused e)), w)

  abbrev pub after_start : Rest → Result E (Unit {0}) × W → Option (Answer E × W)
  after_start again (err e, w) = some ((false, some (refused e)), w)
  after_start again (ok done, w) = after_wait again true true (svc.wait w)

  abbrev pub by_state : Rest → ServiceState → Bool → Bool → W → Option (Answer E × W)
  by_state again running started asked w = some ((started, none), w)
  by_state again stopped started true w = some ((started, some will_not_stay), w)
  by_state again stopped started false w = after_start again (svc.start w)
  by_state again starting started asked w = after_wait again started asked (svc.wait w)
  by_state again something_else started asked w = after_wait again started asked (svc.wait w)

  abbrev pub after_state : Rest → Bool → Bool → Result E ServiceState × W → Option (Answer E × W)
  after_state again started asked (err e, w) = some ((started, some (refused e)), w)
  after_state again started asked (ok s, w) = by_state again s started asked w

  -- The loop, for a number of rounds at most.
  unfoldable pub service_loop : ℕ → Rest
  service_loop zero started asked w = none
  service_loop (suc rounds) started asked w =
      after_state (service_loop rounds) started asked (svc.state w)

  -- ensureServiceRunning
  unfoldable pub ensure_service_running : ℕ → W → Option (Answer E × W)
  unfolding service_loop
  ensure_service_running rounds w = service_loop rounds false false w
