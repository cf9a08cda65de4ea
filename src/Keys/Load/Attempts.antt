-- ===== src/Keys/Load/Attempts.antt =====
-- The loading of internal/keys/load.go: one key after another, each by the wallet's passphrase and
-- then by asking for it.
use sshakku.Keys.Load.{
  Ports, PromptError, canceled, no_terminal, prompt_failed, OnDismiss, stop, skip, retry,
  on_dismiss_of, Config, wallet_stores, service_of, KeyOutcome, key_abandoned, key_loaded,
  attempts_exhausted, asking_ended, info_level, error_level, count_text, Step, tried, logf,
  log_failure, label_of, session_lookup, session_store, fail_add, fail_prompt,
}
use sshakku.Prelude.{
  ℕ, zero, suc, ◌+◌, Text, codes, text_eq, trim_space, ℤ, pos, int_eq, [], ◌∷◌, Bool, true, false,
  not, ◌&&◌, if◌then◌else◌, Result, ok, err, ◌>>=◌, ◌>>◌, pure,
}

module _ {W E : Type 0} (io : Ports W E) (cfg : Config) where
  abbrev pub stored_of : Text → Result E (Text × Bool) → Step io (Text × Bool)
  stored_of keyname (err e) = do
    logf io info_level (codes "secret lookup for " ∷ keyname ∷ codes ": " ∷ io.shown e ∷ [])
    pure ([], false)
  stored_of keyname (ok (pass, found)) =
      if found && not (text_eq (trim_space pass) [])
      then (do
        logf io info_level (codes "using stored passphrase for " ∷ keyname ∷ [])
        pure (pass, true))
      else (do
        logf io info_level (codes "no stored passphrase for " ∷ keyname ∷ codes ", prompting" ∷ [])
        pure ([], false))

  -- storedPassphrase
  unfoldable pub stored_passphrase : Text → Text → Step io (Text × Bool)
  unfolding session_lookup
  stored_passphrase service keyname = do r ← session_lookup io service; stored_of keyname r

  abbrev pub spent_stored : Text → Result E ℤ → Step io (KeyOutcome × Bool)
  spent_stored keyname (err e) = do fail_add io keyname e; pure (key_abandoned, true)
  spent_stored keyname (ok rc) =
      if int_eq rc (pos 0)
      then (do
        logf io info_level (codes "added " ∷ keyname ∷ codes " to agent" ∷ [])
        pure (key_loaded, true))
      else (do
        logf io info_level
            (codes "stored passphrase for " ∷ keyname ∷ codes " is stale, prompting" ∷ [])
        pure (key_abandoned, false))

  abbrev pub try_held : Text → Text → Text × Bool → Step io (KeyOutcome × Bool)
  try_held keyfile keyname (pass, false) = pure (key_abandoned, false)
  try_held keyfile keyname (pass, true) = do
    r ← tried io (io.add keyfile pass)
    spent_stored keyname r

  -- tryStoredPassphrase
  unfoldable pub try_stored_passphrase : Text → Text → Text → Step io (KeyOutcome × Bool)
  unfolding stored_passphrase fail_add
  try_stored_passphrase service keyfile keyname = do
    held ← stored_passphrase service keyname
    try_held keyfile keyname held

  abbrev pub dismissed : OnDismiss → Text → ℕ → ℕ → Step io (KeyOutcome × Bool)
  dismissed retry keyname attempt max = do
    logf io info_level
        (codes "passphrase prompt dismissed for " ∷ keyname ∷ count_text attempt max ∷ [])
    pure (key_abandoned, false)
  dismissed skip keyname attempt max = do
    logf io info_level (codes "passphrase prompt dismissed for " ∷ keyname ∷ [])
    pure (key_abandoned, true)
  dismissed stop keyname attempt max = do
    logf io info_level (
        codes "passphrase prompt dismissed for "
        ∷ keyname
        ∷ codes ", asking about no further key this session"
        ∷ [])
    pure (asking_ended, true)

  -- promptFailureOutcome
  unfoldable pub prompt_failure_outcome : PromptError E → Text → ℕ → ℕ → Step io (KeyOutcome × Bool)
  unfolding fail_prompt
  prompt_failure_outcome canceled keyname attempt max =
      dismissed (on_dismiss_of cfg.on_dismiss) keyname attempt max
  prompt_failure_outcome no_terminal keyname attempt max = do
    logf io info_level (codes "no terminal available to prompt for " ∷ keyname ∷ [])
    pure (key_abandoned, true)
  prompt_failure_outcome (prompt_failed e) keyname attempt max = do
    fail_prompt io keyname e
    pure (key_abandoned, true)

  abbrev pub stored_note : Text → Result E (Unit {0}) → Step io (Unit {0})
  stored_note keyname (ok done) = logf io info_level (codes "stored passphrase for " ∷ keyname ∷ [])
  stored_note keyname (err e) =
      log_failure io {A = Unit {0}} (codes "store passphrase for " ∷ keyname ∷ []) (err e)

  -- storePassphrase, with the label of storeInWallet
  unfoldable pub store_passphrase : Text → Text → Text → Step io (Unit {0})
  unfolding session_store
  store_passphrase service keyname pass =
      if not (wallet_stores cfg keyname)
      then logf io info_level
          (codes "wallet-store policy excludes " ∷ keyname ∷ codes ", not storing" ∷ [])
      else (do r ← session_store io service (label_of keyname) pass; stored_note keyname r)

  abbrev pub settled_or : Step io KeyOutcome → KeyOutcome × Bool → Step io KeyOutcome
  settled_or again (outcome, true) = pure outcome
  settled_or again (outcome, false) = again

  -- What ssh-add made of a passphrase that was typed.
  abbrev pub spent_typed :
      Text → Text → Text → ℕ → ℕ → Step io KeyOutcome → Result E ℤ → Step io KeyOutcome
  spent_typed service keyname pass attempt max again (err e) = do
    fail_add io keyname e
    pure key_abandoned
  spent_typed service keyname pass attempt max again (ok rc) =
      if int_eq rc (pos 0)
      then (do
        logf io info_level (codes "added " ∷ keyname ∷ codes " to agent" ∷ [])
        store_passphrase service keyname pass
        pure key_loaded)
      else (do
        logf io error_level (codes "failed to add " ∷ keyname ∷ count_text attempt max ∷ [])
        again)

  -- One round of the loop, with what follows where it settles nothing.
  abbrev pub answered :
      Text
      → Text
      → Text
      → ℕ
      → ℕ
      → Step io KeyOutcome
      → Result (PromptError E) Text
      → Step io KeyOutcome
  answered service keyfile keyname attempt max again (err e) = do
    out ← prompt_failure_outcome e keyname attempt max
    settled_or again out
  answered service keyfile keyname attempt max again (ok pass) =
      if text_eq pass []
      then (do
        logf io error_level (codes "empty passphrase for " ∷ keyname ∷ count_text attempt max ∷ [])
        again)
      else (do
        r ← tried io (io.add keyfile pass)
        spent_typed service keyname pass attempt max again r)

  -- The loop of loadViaVaultThenPrompt, from `attempt` on, by the rounds that are left.
  unfoldable pub prompt_loop : ℕ → ℕ → ℕ → Text → Text → Text → Step io KeyOutcome
  unfolding prompt_failure_outcome store_passphrase fail_add
  prompt_loop zero attempt max service keyfile keyname = pure attempts_exhausted
  prompt_loop (suc left) attempt max service keyfile keyname = do
    r ← tried io (io.prompt keyname)
    answered service keyfile keyname attempt max
        (prompt_loop left (attempt + 1) max service keyfile keyname) r

  -- loadViaVaultThenPrompt
  unfoldable pub load_via_vault_then_prompt : Text → Text → ℕ → Step io KeyOutcome
  unfolding try_stored_passphrase prompt_loop
  load_via_vault_then_prompt keyfile keyname max = do
    let service = service_of cfg keyname
    held ← try_stored_passphrase service keyfile keyname
    settled_or (prompt_loop max 1 max service keyfile keyname) held
