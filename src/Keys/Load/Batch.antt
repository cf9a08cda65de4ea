-- ===== src/Keys/Load/Batch.antt =====
-- LoadKeys of internal/keys/load.go: the keys one after another, and what is recorded of each.
use sshakku.FilePath.{base}
use sshakku.Keys.Fingerprint.{file_fingerprint, agent_fingerprints, holds_fingerprint}
use sshakku.Keys.Load.{
  Ports, Session, Giveup, Config, auto_loads, attempts_of, KeyOutcome, key_abandoned, key_loaded,
  attempts_exhausted, asking_ended, LoadError, enumerate_failed, no_ssh_add, cannot_ask,
  fingerprints_failed, info_level, error_level, Step, tried, logf, notifyf, log_failure,
}
use sshakku.Prelude.{
  ℕ, Text, codes, text_eq, show_nat, List, [], ◌∷◌, Bool, true, false, not, ◌&&◌, Option, none,
  some, Exec, Result, ok, err, ◌>>=◌, ◌>>◌, pure, throw, lift, wrapped,
}
use sshakku.Keys.Load.Attempts.{load_via_vault_then_prompt}

module _ {W E : Type 0} (io : Ports W E) (cfg : Config) where
  abbrev pub recorded_giveup : Option (Giveup W E) → Text → Step io (Unit {0})
  recorded_giveup none keyname = pure tt
  recorded_giveup (some g) keyname = do
    r ← tried io (g.record_one keyname)
    log_failure io (codes "record give-up for " ∷ keyname ∷ []) r

  -- recordGiveup
  unfoldable pub record_giveup : Text → Step io (Unit {0})
  record_giveup keyname = recorded_giveup io.giveup keyname

  abbrev pub cleared_giveup : Option (Giveup W E) → Text → Step io (Unit {0})
  cleared_giveup none keyname = pure tt
  cleared_giveup (some g) keyname = do
    r ← tried io (g.clear keyname)
    log_failure io (codes "clear give-up for " ∷ keyname ∷ []) r

  -- clearGiveup
  unfoldable pub clear_giveup : Text → Step io (Unit {0})
  clear_giveup keyname = cleared_giveup io.giveup keyname

  abbrev pub saved_state : Option (Text → ℕ → Exec W E (Unit {0})) → Text → Step io (Unit {0})
  saved_state none keyfile = pure tt
  saved_state (some save) keyfile = do
    r ← tried io (save keyfile cfg.key_lifetime)
    log_failure io (codes "record key state for " ∷ base keyfile ∷ []) r

  -- saveKeyState
  unfoldable pub save_key_state : Text → Step io (Unit {0})
  save_key_state keyfile = saved_state io.save_state keyfile

  abbrev pub given_up_in : Option (Giveup W E) → Text → Step io Bool
  given_up_in none keyname = pure false
  given_up_in (some g) keyname = λ h. let (b, w) = g.given_up keyname h.0 in (ok b, (w, h.1))

  -- givenUp
  unfoldable pub given_up : Text → Step io Bool
  given_up keyname = given_up_in io.giveup keyname

  -- What addWithRetries does of an outcome, and whether the asking is over.
  unfoldable pub concluded : Text → Text → ℕ → KeyOutcome → Step io Bool
  unfolding clear_giveup save_key_state record_giveup
  concluded keyfile keyname max key_loaded = do
    clear_giveup keyname
    save_key_state keyfile
    pure false
  concluded keyfile keyname max attempts_exhausted = do
    logf io error_level
        (codes "giving up on " ∷ keyname ∷ codes " after " ∷ show_nat max ∷ codes " attempts" ∷ [])
    notifyf io (
        codes "could not load key "
        ∷ keyname
        ∷ codes " after "
        ∷ show_nat max
        ∷ codes " attempts"
        ∷ [])
    record_giveup keyname
    pure false
  concluded keyfile keyname max asking_ended = pure true
  concluded keyfile keyname max key_abandoned = pure false

  -- addWithRetries
  unfoldable pub add_with_retries : Text → Text → Step io Bool
  unfolding load_via_vault_then_prompt concluded
  add_with_retries keyfile keyname = do
    outcome ← load_via_vault_then_prompt io cfg keyfile keyname (attempts_of cfg.max_attempts)
    concluded keyfile keyname (attempts_of cfg.max_attempts) outcome

  -- The fingerprint of a file, empty where ssh-keygen could not run.
  abbrev pub fingerprint_or_log : Text → Result E Text → Step io Text
  fingerprint_or_log keyname (ok fp) = pure fp
  fingerprint_or_log keyname (err e) = do
    logf io error_level (codes "fingerprint " ∷ keyname ∷ codes ": " ∷ io.shown e ∷ [])
    pure []

  abbrev pub unless_given_up : Text → Text → Bool → Step io Bool
  unless_given_up keyfile keyname true = do
    logf io info_level (keyname ∷ codes " given up earlier, skipping until the retry window" ∷ [])
    pure false
  unless_given_up keyfile keyname false = add_with_retries keyfile keyname

  abbrev pub unless_loaded : Text → Text → Bool → Step io Bool
  unless_loaded keyfile keyname true = do
    logf io info_level (keyname ∷ codes " already added to agent" ∷ [])
    pure false
  unless_loaded keyfile keyname false = do b ← given_up keyname; unless_given_up keyfile keyname b

  abbrev pub if_wanted : Text → Text → List Text → Bool → Step io Bool
  if_wanted keyfile keyname loaded false = do
    logf io info_level (codes "auto-load policy excludes " ∷ keyname ∷ codes ", skipping" ∷ [])
    pure false
  if_wanted keyfile keyname loaded true = do
    r ← tried io (file_fingerprint io.run keyfile)
    fp ← fingerprint_or_log keyname r
    unless_loaded keyfile keyname (not (text_eq fp []) && holds_fingerprint loaded fp)

  -- loadOne
  unfoldable pub load_one : Text → List Text → Step io Bool
  unfolding given_up add_with_retries file_fingerprint holds_fingerprint
  load_one keyfile loaded = if_wanted keyfile (base keyfile) loaded (auto_loads cfg (base keyfile))

  abbrev pub unless_ended : Step io (Unit {0}) → Bool → Step io (Unit {0})
  unless_ended rest true = pure tt
  unless_ended rest false = rest

  -- The loop of LoadKeys.
  unfoldable pub load_each : List Text → List Text → Step io (Unit {0})
  unfolding load_one
  load_each [] loaded = pure tt
  load_each (keyfile ∷ keyfiles) loaded = do
    ended ← load_one keyfile loaded
    unless_ended (load_each keyfiles loaded) ended

  abbrev pub locked_if : Option (Session W E) → Bool → Step io (Unit {0})
  locked_if none b = pure tt
  locked_if (some s) false = pure tt
  locked_if (some s) true = do
    r ← tried io s.lock
    log_failure io (codes "lock secret store" ∷ []) r

  -- The deferred lock of LoadKeys, by whether the batch unlocked the wallet.
  unfoldable pub lock_after : Step io (Unit {0})
  lock_after h = locked_if io.session h.1 h

  -- A call in front of the batch, whose error ends it.
  abbrev pub within : {A : Type 0} → (E → LoadError E) → Exec W E A → Step io A
  within wrong m h = let (r, w) = m h.0 in (wrapped wrong r, (w, h.1))

  -- The error of CanAsk.
  abbrev pub must_ask : Option E → Step io (Unit {0})
  must_ask none = pure tt
  must_ask (some e) = throw (cannot_ask e)

  -- LoadKeys from the first key on.
  unfoldable pub load_some : List Text → Step io (Unit {0})
  unfolding load_each lock_after agent_fingerprints
  load_some keyfiles = do
    ssh_add ← within no_ssh_add io.ssh_add_name
    refusal ← lift (λ h. let (o, w) = io.can_ask h.0 in (o, (w, h.1)))
    must_ask refusal
    loaded ← within fingerprints_failed (agent_fingerprints io.run ssh_add)
    load_each keyfiles loaded
    lock_after

  abbrev pub some_or_none : List Text → Step io (Unit {0})
  some_or_none [] = logf io info_level (codes "no keys to load" ∷ [])
  some_or_none (keyfile ∷ keyfiles) = load_some (keyfile ∷ keyfiles)

  -- LoadKeys
  unfoldable pub load_keys : Exec W (LoadError E) (Unit {0})
  unfolding load_some
  load_keys w =
      let (r, h) = (within enumerate_failed io.keys >>= some_or_none) (w, false) in (r, h.0)
