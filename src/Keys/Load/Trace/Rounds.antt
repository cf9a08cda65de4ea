-- ===== src/Keys/Load/Trace/Rounds.antt =====
-- The states between the attempts at one key, and what a prompt that fails makes of them.
use mathlib.Core.List.{Memᴰ}
use sshakku.Keys.Load.{
  Ports, Session, PromptError, canceled, no_terminal, prompt_failed, OnDismiss, stop, skip, retry,
  on_dismiss_of, Config, KeyOutcome, attempts_exhausted, asking_ended, Step, ensure_unlocked,
  fail_prompt,
}
use sshakku.Keys.Load.Attempts.{
  stored_of, stored_passphrase, spent_stored, try_held, try_stored_passphrase,
  prompt_failure_outcome, stored_note, store_passphrase, settled_or, spent_typed, answered,
  prompt_loop, load_via_vault_then_prompt,
}
use sshakku.Keys.Load.Attempts as Attempts
use sshakku.Keys.Load.Trace.{
  Reply, asked, opened, Trace, reply_of, traced, traced_session, asked_count, is_open, MayAsk,
  MayAsk-of_ne_stop, dismissed, IsHonest,
}
use sshakku.Prelude.{
  ℕ, ◌+◌, ◌≤◌, Text, ◌∷◌, Bool, true, false, Option, none, some, ◌≡◌, refl, arith, err, is_ok,
  Triple,
}

module _ {W E : Type 0} (io : Ports W E) (cfg : Config) where
  abbrev pub Held : Type 0
  Held = (W × Trace) × Bool

  -- An honest record, by which the wallet is open where the batch takes it to be.
  abbrev pub IsSound : Held → Type 0
  IsSound h = IsHonest cfg h.0.1 × (is_open h.0.1 ≡ h.1)

  -- A state in which a key has rounds left, up to so many times that it is asked for.
  abbrev pub Round : Text → ℕ → ℕ → Held → Type 0
  Round k hi left h =
      IsSound h × MayAsk (on_dismiss_of cfg.on_dismiss) h.0.1 × (asked_count k h.0.1 + left ≡ hi)

  -- What an outcome says of what was asked.
  abbrev pub After : Text → ℕ → KeyOutcome → Trace → Type 0
  After k hi asking_ended t = Unit
  After k hi attempts_exhausted t = MayAsk (on_dismiss_of cfg.on_dismiss) t × (hi ≤ asked_count k t)
  After k hi _ t = MayAsk (on_dismiss_of cfg.on_dismiss) t

  abbrev pub Left : Text → ℕ → KeyOutcome → Held → Type 0
  Left k hi o h = IsSound h × (asked_count k h.0.1 ≤ hi) × After k hi o h.0.1

  -- Where a step settles the key, and where it leaves it to the rounds that are left.
  abbrev pub Settles : Text → ℕ → ℕ → KeyOutcome × Bool → Held → Type 0
  Settles k hi left (o, true) h = Left k hi o h
  Settles k hi left (o, false) h = Round k hi left h

  abbrev pub MayAskBehind : Reply → Trace → Type 0
  MayAskBehind dismissed t = Unit
  MayAskBehind _ t = MayAsk (on_dismiss_of cfg.on_dismiss) t

  -- The state behind a prompt.
  pub record Prompted (k : Text) (hi left : ℕ) (r : Reply) (h : Held) : Type 0 where
    pub sound : IsSound h
    pub counted : asked_count k h.0.1 + left ≡ hi
    pub may : MayAskBehind r h.0.1
    pub there : Memᴰ (asked k r) h.0.1

  module _ (fail : Held → Type 0) where
    pub ensure_unlocked-keeps :
        (P : Trace → Bool → Type 0)
        → ((t : Trace) (b : Bool) → P t false → P (opened b ∷ t) b)
        → (s : Option (Session W E)) (h : Held) → P h.0.1 h.1
        → let after = ensure_unlocked (traced io) (traced_session s) h in P after.0.1 after.1
    unfolding ensure_unlocked
    ensure_unlocked-keeps P k none h p = p
    ensure_unlocked-keeps P k (some s) (w, true) p = p
    ensure_unlocked-keeps P k (some s) (w, false) p = k w.1 (is_ok (s.unlock w.0).0) p

    pub opened-IsSound :
        (t : Trace) (b : Bool)
        → IsHonest cfg t × (is_open t ≡ false)
        → IsHonest cfg (opened b ∷ t) × (is_open (opened b ∷ t) ≡ b)
    opened-IsSound t true p = ((p.1, p.0), refl)
    opened-IsSound t false p = ((p.1, p.0), p.1)

    pub settled_or-Left :
        (k : Text) (hi left : ℕ) (again : Step (traced io) KeyOutcome) (out : KeyOutcome × Bool)
        → Triple (Round k hi left) (Left k hi) fail again
        → Triple (Settles k hi left out) (Left k hi) fail (settled_or (traced io) cfg again out)
    settled_or-Left k hi left again (o, true) t = record { at = λ h p. p }
    settled_or-Left k hi left again (o, false) t = t

    pub dismissed-Settles :
        (k : Text) (hi left attempt max : ℕ) (d : OnDismiss)
        → on_dismiss_of cfg.on_dismiss ≡ d
        → Triple
            (Prompted k hi left dismissed)
            (Settles k hi left)
            fail
            (Attempts.dismissed (traced io) cfg d k attempt max)
    dismissed-Settles k hi left attempt max retry e = record {
      at = λ h p. (p.sound, MayAsk-of_ne_stop _ h.0.1 (λ q. cc), p.counted);
    }
    dismissed-Settles k hi left attempt max skip e = record {
      at = λ h p. let c = p.counted in (p.sound, omega arith, MayAsk-of_ne_stop _ h.0.1 (λ q. cc));
    }
    dismissed-Settles k hi left attempt max stop e = record {
      at = λ h p. let c = p.counted in (p.sound, omega arith, tt);
    }

    pub prompt_failure_outcome-Settles :
        (k : Text) (hi left attempt max : ℕ) (e : PromptError E)
        → Triple
            (Prompted k hi left (reply_of (err e)))
            (Settles k hi left)
            fail
            (prompt_failure_outcome (traced io) cfg e k attempt max)
    unfolding prompt_failure_outcome fail_prompt
    prompt_failure_outcome-Settles k hi left attempt max canceled =
        dismissed-Settles k hi left attempt max (on_dismiss_of cfg.on_dismiss) refl
    prompt_failure_outcome-Settles k hi left attempt max no_terminal = record {
      at = λ h p. let c = p.counted in (p.sound, omega arith, p.may);
    }
    prompt_failure_outcome-Settles k hi left attempt max (prompt_failed e) = record {
      at = λ h p. let c = p.counted in (p.sound, omega arith, p.may);
    }
