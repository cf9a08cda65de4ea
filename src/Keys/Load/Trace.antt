-- ===== src/Keys/Load/Trace.antt =====
-- A record of what the loader asks of its collaborators, and what that record may hold.
pub mod Rounds
pub mod Asking
pub mod Stored
pub mod OneKey
pub mod Whole
use mathlib.Core.List.{Memᴰ}
use sshakku.FilePath.{base}
use sshakku.Keys.Load.{
  Ports, Session, Giveup, PromptError, canceled, no_terminal, prompt_failed, OnDismiss, stop, skip,
  retry, on_dismiss_of, Config, wallet_stores, service_of, attempts_of,
}
use sshakku.Prelude.{
  ℕ, ◌+◌, ◌≤◌, Text, text_eq, trim_space, ℤ, pos, int_eq, List, [], ◌∷◌, Bool, true, false, Option,
  none, some, ◌≡◌, ◌≢◌, ◌⊎◌, Exec, Result, ok, err, is_ok, if◌then◌else◌,
}

-- What came of a prompt.
pub data Reply : Type 0 where
  typed : Text → Reply
  dismissed unanswered : Reply

pub data Event : Type 0 where
  asked : Text → Reply → Event
  -- A passphrase given to ssh-add for a file, and whether it opened the key.
  spent : Text → Text → Bool → Event
  -- The wallet's answer for a service.
  looked : Text → Option Text → Event
  kept : Text → Text → Event
  gave_up : Text → Event
  opened : Bool → Event
  closed : Event

-- The last event comes first.
abbrev pub Trace : Type 0
Trace = List Event

abbrev pub reply_of : {E : Type 0} → Result (PromptError E) Text → Reply
reply_of (ok pass) = typed pass
reply_of (err canceled) = dismissed
reply_of (err _) = unanswered

abbrev pub accepted_by : {E : Type 0} → Result E ℤ → Bool
accepted_by (ok rc) = int_eq rc (pos 0)
accepted_by (err e) = false

abbrev held_if : Text → Bool → Option Text
held_if pass true = some pass
held_if pass false = none

abbrev pub held_by : {E : Type 0} → Result E (Text × Bool) → Option Text
held_by (ok held) = held_if held.0 held.1
held_by (err e) = none

module _ {W : Type 0} where
  abbrev pub noted : {E A : Type 0} → Exec W E A → (Result E A → Event) → Exec (W × Trace) E A
  noted m note w = let (r, w') = m w.0 in (r, (w', note r ∷ w.1))

  abbrev pub quiet : {A : Type 0} → (W → A × W) → W × Trace → A × (W × Trace)
  quiet m w = let (a, w') = m w.0 in (a, (w', w.1))

  abbrev pub traced_session : {E : Type 0} → Option (Session W E) → Option (Session (W × Trace) E)
  traced_session none = none
  traced_session (some s) = some (record {
    unlock = noted s.unlock (λ r. opened (is_ok r));
    lock = noted s.lock (λ _. closed);
  })

  abbrev pub traced_giveup : {E : Type 0} → Option (Giveup W E) → Option (Giveup (W × Trace) E)
  traced_giveup none = none
  traced_giveup (some g) = some (record {
    given_up = λ k. quiet (g.given_up k);
    record_one = λ k. noted (g.record_one k) (λ _. gave_up k);
    clear = λ k. quiet (g.clear k);
  })

  abbrev pub traced_save :
      {E : Type 0}
      → Option (Text → ℕ → Exec W E (Unit {0}))
      → Option (Text → ℕ → Exec (W × Trace) E (Unit {0}))
  traced_save none = none
  traced_save (some save) = some (λ k n. quiet (save k n))

  -- The same collaborators, recording what is asked of them.
  abbrev pub traced : {E : Type 0} → Ports W E → Ports (W × Trace) E
  traced io = record {
    keys = quiet io.keys;
    ssh_add_name = quiet io.ssh_add_name;
    run = λ name args. quiet (io.run name args);
    can_ask = quiet io.can_ask;
    add = λ keyfile pass. noted (io.add keyfile pass) (λ r. spent keyfile pass (accepted_by r));
    prompt = λ keyname. noted (io.prompt keyname) (λ r. asked keyname (reply_of r));
    lookup = λ service. noted (io.lookup service) (λ r. looked service (held_by r));
    store = λ service label pass. noted (io.store service label pass) (λ _. kept service pass);
    session = traced_session io.session;
    giveup = traced_giveup io.giveup;
    save_state = traced_save io.save_state;
    log = λ level line w. (io.log level line w.0, w.1);
    notify = λ line w. (io.notify line w.0, w.1);
    shown = io.shown;
  }

-- How often a key was asked for.
abbrev pub asked_count : Text → Trace → ℕ
asked_count k [] = 0
asked_count k (asked k' r ∷ t) = let n = asked_count k t in if text_eq k' k then n + 1 else n
asked_count k (_ ∷ t) = asked_count k t

-- Whether the wallet was unlocked and Lock was not called since.
abbrev pub is_open : Trace → Bool
is_open [] = false
is_open (opened true ∷ t) = true
is_open (closed ∷ t) = false
is_open (_ ∷ t) = is_open t

-- Whether a key may still be asked for: where closing a prompt means to stop, none was closed.
abbrev pub MayAsk : OnDismiss → Trace → Type 0
MayAsk d [] = Unit
MayAsk d (asked k dismissed ∷ t) = d ≢ stop
MayAsk d (_ ∷ t) = MayAsk d t

pub MayAsk-of_ne_stop : (d : OnDismiss) (t : Trace) → d ≢ stop → MayAsk d t
MayAsk-of_ne_stop d [] h = tt
MayAsk-of_ne_stop d (asked k dismissed ∷ t) h = h
MayAsk-of_ne_stop d (_ ∷ t) h = MayAsk-of_ne_stop d t h

-- A passphrase for a file was typed for its key, or came from the wallet under its service.
abbrev pub WasObtained : Config → Text → Text → Trace → Type 0
WasObtained cfg keyfile pass t =
    ((pass ≢ []) × Memᴰ (asked (base keyfile) (typed pass)) t)
    ⊎ ((text_eq (trim_space pass) [] ≡ false)
        × Memᴰ (looked (service_of cfg (base keyfile)) (some pass)) t)

-- ssh-add accepted the passphrase for a file of the service, which the policy lets be stored.
abbrev pub WasAccepted : Config → Text → Text → Trace → Type 0
WasAccepted cfg service pass t =
    (keyfile : Text) × Memᴰ (spent keyfile pass true) t
    × (service ≡ service_of cfg (base keyfile))
    × (wallet_stores cfg (base keyfile) ≡ true)

-- What allows an event, behind those before it.
abbrev pub IsAllowed : Config → Event → Trace → Type 0
IsAllowed cfg (asked k r) t = MayAsk (on_dismiss_of cfg.on_dismiss) t
IsAllowed cfg (spent keyfile pass b) t = WasObtained cfg keyfile pass t
IsAllowed cfg (looked s held) t = Unit
IsAllowed cfg (kept service pass) t = WasAccepted cfg service pass t
IsAllowed cfg (gave_up k) t = attempts_of cfg.max_attempts ≤ asked_count k t
IsAllowed cfg (opened b) t = is_open t ≡ false
IsAllowed cfg closed t = is_open t ≡ true

-- Each event of a record was allowed when it happened.
abbrev pub IsHonest : Config → Trace → Type 0
IsHonest cfg [] = Unit
IsHonest cfg (e ∷ t) = IsAllowed cfg e t × IsHonest cfg t
