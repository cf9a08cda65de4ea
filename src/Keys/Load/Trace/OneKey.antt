-- ===== src/Keys/Load/Trace/OneKey.antt =====
-- One key of the batch: loadOne, with what is recorded of the outcome.
use mathlib.Core.Path.{subst}
use sshakku.FilePath.{base}
use sshakku.Keys.Fingerprint.{file_fingerprint, holds_fingerprint}
use sshakku.Keys.Load.{
  Ports, Giveup, on_dismiss_of, Config, auto_loads, attempts_of, KeyOutcome, key_abandoned,
  key_loaded, attempts_exhausted, asking_ended, LoadError, Step, tried, log_failure,
}
use sshakku.Keys.Load.Batch.{
  recorded_giveup, record_giveup, cleared_giveup, clear_giveup, saved_state, save_key_state,
  given_up_in, given_up, concluded, add_with_retries, fingerprint_or_log, unless_given_up,
  unless_loaded, if_wanted, load_one,
}
use sshakku.Keys.Load.Trace.{
  gave_up, Trace, traced, traced_giveup, traced_save, asked_count, is_open, MayAsk, IsHonest,
}
use sshakku.Keys.Load.Trace.Rounds.{Held, IsSound, Left}
use sshakku.Keys.Load.Trace.Stored.{load_via-Left}
use sshakku.Prelude.{
  ℕ, ◌+◌, ◌≤◌, Text, codes, text_eq, List, [], ◌∷◌, Bool, true, false, not, ◌&&◌, Option, none,
  some, ◌≡◌, refl, sym, arith, Exec, Result, ok, err, continue, pure, Outcome, Triple, Triple-bind,
  Triple-pre,
}

module _ {W E : Type 0} (io : Ports W E) (cfg : Config) where
  -- The state between two keys, by whether the asking is over.
  abbrev pub Between : Bool → Held io cfg → Type 0
  Between true h = IsSound io cfg h
  Between false h = IsSound io cfg h × MayAsk (on_dismiss_of cfg.on_dismiss) h.0.1

  -- The same, with a bound on how often a key was asked for.
  abbrev pub Bounded : Text → ℕ → Bool → Held io cfg → Type 0
  Bounded k hi b h = Between b h × (asked_count k h.0.1 ≤ hi)

  -- The wallet is locked.
  abbrev pub Closed : Held io cfg → Type 0
  Closed h = IsHonest cfg h.0.1 × (is_open h.0.1 ≡ false)

  module _ (fail : Held io cfg → Type 0) where
    pub log_failure-keeps :
        {A : Type 0} (P : Trace → Bool → Type 0) (before : List Text) (r : Result E A)
        → Triple (λ h. P h.0.1 h.1) (λ _ h. P h.0.1 h.1) fail (log_failure (traced io) before r)
    log_failure-keeps P before (ok a) = record { at = λ h p. p }
    log_failure-keeps P before (err e) = record { at = λ h p. p }

    cleared-keeps :
        (P : Trace → Bool → Type 0) (g : Option (Giveup W E)) (k : Text)
        → Triple
            (λ h. P h.0.1 h.1)
            (λ _ h. P h.0.1 h.1)
            fail
            (cleared_giveup (traced io) cfg (traced_giveup g) k)
    cleared-keeps P none k = record { at = λ h p. p }
    cleared-keeps P (some g) k = record {
      at = λ h p.
          let (r, w) = g.clear k h.0.0 in
          (log_failure-keeps P (codes "clear give-up for " ∷ k ∷ []) r).at ((w, h.0.1), h.1) p;
    }

    saved-keeps :
        (P : Trace → Bool → Type 0) (s : Option (Text → ℕ → Exec W E (Unit {0}))) (keyfile : Text)
        → Triple
            (λ h. P h.0.1 h.1)
            (λ _ h. P h.0.1 h.1)
            fail
            (saved_state (traced io) cfg (traced_save s) keyfile)
    saved-keeps P none k = record { at = λ h p. p }
    saved-keeps P (some save) k = record {
      at = λ h p.
          let (r, w) = save k cfg.key_lifetime h.0.0 in
          (log_failure-keeps P (codes "record key state for " ∷ base k ∷ []) r).at ((w, h.0.1), h.1)
            p;
    }

    -- A key is given up only where it was asked for as often as is allowed.
    recorded-Bounded :
        (g : Option (Giveup W E)) (k : Text) (hi : ℕ)
        → attempts_of cfg.max_attempts ≤ hi
        → Triple
            (Left io cfg k hi attempts_exhausted)
            (λ _. Bounded k hi false)
            fail
            (recorded_giveup (traced io) cfg (traced_giveup g) k)
    recorded-Bounded none k hi a = record { at = λ h p. ((p.0, p.2.0), p.1) }
    recorded-Bounded (some g) k hi a = record {
      at = λ h p.
          let (r, w) = g.record_one k h.0.0 in
          let enough = p.2.1 in
          (log_failure-keeps
              (λ t b.
                ((IsHonest cfg t × (is_open t ≡ b)) × MayAsk (on_dismiss_of cfg.on_dismiss) t)
                × (asked_count k t ≤ hi))
              (codes "record give-up for " ∷ k ∷ []) r).at
            ((w, gave_up k ∷ h.0.1), h.1) ((((omega arith, p.0.0), p.0.1), p.2.0), p.1);
    }

    concluded-Bounded :
        (keyfile k : Text) (hi : ℕ) (o : KeyOutcome)
        → attempts_of cfg.max_attempts ≤ hi
        → Triple
            (Left io cfg k hi o)
            (Bounded k hi)
            fail
            (concluded (traced io) cfg keyfile k (attempts_of cfg.max_attempts) o)
    unfolding concluded clear_giveup save_key_state record_giveup
    concluded-Bounded keyfile k hi key_abandoned a = record { at = λ h p. ((p.0, p.2), p.1) }
    concluded-Bounded keyfile k hi asking_ended a = record { at = λ h p. (p.0, p.1) }
    concluded-Bounded keyfile k hi attempts_exhausted a = record {
      at = λ h p.
          (Triple-bind _ (λ _. pure false) (recorded-Bounded io.giveup k hi a)
              (λ _. record { at = λ h q. q })).at
            _ p;
    }
    concluded-Bounded keyfile k hi key_loaded a =
        let P : Trace → Bool → Type 0 = λ t b.
          ((IsHonest cfg t × (is_open t ≡ b)) × MayAsk (on_dismiss_of cfg.on_dismiss) t)
          × (asked_count k t ≤ hi) in
        Triple-bind {mid = λ _ h. P h.0.1 h.1} _ _
          (Triple-pre _ (cleared-keeps P io.giveup k) (λ h p. ((p.0, p.2), p.1)))
          (λ _.
            Triple-bind {mid = λ _ h. P h.0.1 h.1} _ _ (saved-keeps P io.save_state keyfile)
              (λ _. record { at = λ h q. q }))

    add_with_retries-Bounded :
        (keyfile : Text) (n : ℕ)
        → Triple
            (λ h. Between false h × (asked_count (base keyfile) h.0.1 ≡ n))
            (Bounded (base keyfile) (n + attempts_of cfg.max_attempts))
            fail
            (add_with_retries (traced io) cfg keyfile (base keyfile))
    unfolding add_with_retries
    add_with_retries-Bounded keyfile n =
        let max = attempts_of cfg.max_attempts in
        Triple-bind _ _
          (Triple-pre _ (load_via-Left io cfg fail keyfile (n + max) max)
            (λ h p. let c = p.1 in (p.0.0, p.0.1, omega arith)))
          (λ o. concluded-Bounded keyfile (base keyfile) (n + max) o (omega arith))

    -- A part of the loading of a key.
    abbrev ForOne : Text → ℕ → Step (traced io) Bool → Type 0
    ForOne k n m =
        Triple (λ h. Between false h × (asked_count k h.0.1 ≡ n))
          (Bounded k (n + attempts_of cfg.max_attempts)) fail m

    unless_given_up-Bounded :
        (keyfile : Text) (n : ℕ) (b : Bool)
        → ForOne (base keyfile) n (unless_given_up (traced io) cfg keyfile (base keyfile) b)
    unless_given_up-Bounded keyfile n true = record {
      at = λ h p. let c = p.1 in (p.0, omega arith);
    }
    unless_given_up-Bounded keyfile n false = add_with_retries-Bounded keyfile n

    given_up-keeps :
        (P : Trace → Bool → Type 0) (g : Option (Giveup W E)) (k : Text)
        → Triple
            (λ h. P h.0.1 h.1)
            (λ _ h. P h.0.1 h.1)
            fail
            (given_up_in (traced io) cfg (traced_giveup g) k)
    given_up-keeps P none k = record { at = λ h p. p }
    given_up-keeps P (some g) k = record { at = λ h p. p }

    unless_loaded-Bounded :
        (keyfile : Text) (n : ℕ) (b : Bool)
        → ForOne (base keyfile) n (unless_loaded (traced io) cfg keyfile (base keyfile) b)
    unfolding given_up
    unless_loaded-Bounded keyfile n true = record { at = λ h p. let c = p.1 in (p.0, omega arith) }
    unless_loaded-Bounded keyfile n false =
        Triple-bind _ _
          (given_up-keeps
            (λ t b.
              ((IsHonest cfg t × (is_open t ≡ b)) × MayAsk (on_dismiss_of cfg.on_dismiss) t)
              × (asked_count (base keyfile) t ≡ n))
            io.giveup (base keyfile))
          (λ b. unless_given_up-Bounded keyfile n b)

    -- A program that is run leaves the record as it is.
    pub pured-keeps :
        {A B F : Type 0} (f : A → B) (r : Result F A) (w : W × Trace)
        → (continue r (λ a. pure (f a)) w).1 ≡ w
    pured-keeps f (ok a) w = refl
    pured-keeps f (err e) w = refl

    fingerprint-keeps :
        (P : Trace → Bool → Type 0) (keyfile : Text)
        → Triple
            (λ h. P h.0.1 h.1)
            (λ _ h. P h.0.1 h.1)
            fail
            (tried (traced io) (file_fingerprint (traced io).run keyfile))
    unfolding file_fingerprint
    fingerprint-keeps P keyfile = record {
      at = λ h p.
          let (r, w) = io.run (codes "ssh-keygen") (codes "-lf" ∷ keyfile ∷ []) h.0.0 in
          subst (λ (w : W × Trace). P w.1 h.1) (sym (pured-keeps _ r (w, h.0.1))) p;
    }

    fingerprint_or_log-keeps :
        (P : Trace → Bool → Type 0) (k : Text) (r : Result E Text)
        → Triple
            (λ h. P h.0.1 h.1)
            (λ _ h. P h.0.1 h.1)
            fail
            (fingerprint_or_log (traced io) cfg k r)
    fingerprint_or_log-keeps P k (ok fp) = record { at = λ h p. p }
    fingerprint_or_log-keeps P k (err e) = record { at = λ h p. p }

    if_wanted-Bounded :
        (keyfile : Text) (loaded : List Text) (n : ℕ) (b : Bool)
        → ForOne (base keyfile) n (if_wanted (traced io) cfg keyfile (base keyfile) loaded b)
    if_wanted-Bounded keyfile loaded n false = record {
      at = λ h p. let c = p.1 in (p.0, omega arith);
    }
    if_wanted-Bounded keyfile loaded n true =
        let P : Trace → Bool → Type 0 = λ t b.
          ((IsHonest cfg t × (is_open t ≡ b)) × MayAsk (on_dismiss_of cfg.on_dismiss) t)
          × (asked_count (base keyfile) t ≡ n) in
        Triple-bind {mid = λ _ h. P h.0.1 h.1} _ _ (fingerprint-keeps P keyfile) (λ r.
          Triple-bind {mid = λ _ h. P h.0.1 h.1} _ _ (fingerprint_or_log-keeps P (base keyfile) r)
            (λ fp.
              unless_loaded-Bounded keyfile n (not (text_eq fp []) && holds_fingerprint loaded fp)))

    pub load_one-Bounded :
        (keyfile : Text) (loaded : List Text) (n : ℕ)
        → ForOne (base keyfile) n (load_one (traced io) cfg keyfile loaded)
    unfolding load_one
    load_one-Bounded keyfile loaded n =
        if_wanted-Bounded keyfile loaded n (auto_loads cfg (base keyfile))

  -- However the collaborators answer, one key is asked for no more often than MaxAttempts allows,
  -- or three times where that is below 1, from a state that is sound and where it may be asked for;
  -- and the record of what was done stays honest.
  pub load_one_asks_at_most :
      (keyfile : Text) (loaded : List Text) (h : Held io cfg)
      → IsSound io cfg h
      → MayAsk (on_dismiss_of cfg.on_dismiss) h.0.1
      → let after = (load_one (traced io) cfg keyfile loaded h).1 in
        (asked_count (base keyfile) after.0.1
          ≤ asked_count (base keyfile) h.0.1 + attempts_of cfg.max_attempts)
        × IsHonest cfg after.0.1
  load_one_asks_at_most keyfile loaded h s m =
      let hi = asked_count (base keyfile) h.0.1 + attempts_of cfg.max_attempts in
      either_way (base keyfile) hi (load_one (traced io) cfg keyfile loaded h).0 _ (
        (load_one-Bounded (λ h. (asked_count (base keyfile) h.0.1 ≤ hi) × IsHonest cfg h.0.1)
            keyfile loaded (asked_count (base keyfile) h.0.1)).at
          h ((s, m), refl))
    where
      between : (b : Bool) (h : Held io cfg) → Between b h → IsHonest cfg h.0.1
      between true h q = q.0
      between false h q = q.0.0

      either_way :
          (k : Text) (hi : ℕ) (r : Result (LoadError E) Bool) (h : Held io cfg)
          → Outcome (Bounded k hi) (λ h. (asked_count k h.0.1 ≤ hi) × IsHonest cfg h.0.1) r h
          → (asked_count k h.0.1 ≤ hi) × IsHonest cfg h.0.1
      either_way k hi (ok b) h q = (q.1, between b h q.0)
      either_way k hi (err e) h q = q
