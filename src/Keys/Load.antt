-- ===== src/Keys/Load.antt =====
-- internal/keys/load.go: the loader of the keys, and what it reaches outside of itself. Beside the
-- world, its state is whether the batch has unlocked the wallet (sessionBackend.unlocked).
pub mod Attempts
pub mod Batch
pub mod Trace
use sshakku.FilePath.{base}
use sshakku.Keys.Fingerprint.{Runner, file_fingerprint, agent_fingerprints, holds_fingerprint}
use sshakku.Prelude.{
  ℕ, zero, suc, ◌+◌, Text, codes, text_eq, trim_space, show_nat, ℤ, pos, negsuc, int_eq, List, [],
  ◌∷◌, ◌++◌, Bool, true, false, not, ◌&&◌, Option, none, some, if◌then◌else◌, Exec, Result, ok, err,
  is_ok, continue, ◌>>=◌, ◌>>◌, pure, throw, lift, wrap,
}

-- The errors of a Prompter: ErrCanceled, ErrNoTerminal, and any other.
pub data PromptError (E : Type 0) : Type 0 where
  canceled no_terminal : PromptError E
  prompt_failed : E → PromptError E

-- wallet.Session
pub record Session (W E : Type 0) : Type 0 where
  pub unlock : Exec W E (Unit {0})
  pub lock : Exec W E (Unit {0})

-- GiveupStore
pub record Giveup (W E : Type 0) : Type 0 where
  pub given_up : Text → W → Bool × W
  pub record_one : Text → Exec W E (Unit {0})
  pub clear : Text → Exec W E (Unit {0})

-- The collaborators of a Loader. A `none` stands for one that is nil.
pub record Ports (W E : Type 0) : Type 0 where
  pub keys : Exec W E (List Text)
  pub ssh_add_name : Exec W E Text
  pub run : Runner W E
  pub can_ask : W → Option E × W
  -- AddWithAskpass: the exit code of ssh-add
  pub add : Text → Text → Exec W E ℤ
  pub prompt : Text → Exec W (PromptError E) Text
  -- wallet.Backend
  pub lookup : Text → Exec W E (Text × Bool)
  pub store : Text → Text → Text → Exec W E (Unit {0})
  pub session : Option (Session W E)
  pub giveup : Option (Giveup W E)
  pub save_state : Option (Text → ℕ → Exec W E (Unit {0}))
  pub log : Text → Text → W → W
  pub notify : Text → W → W
  -- How an error reads in a line of the log.
  pub shown : E → Text

-- OnDismiss: any text but "retry" and "skip" means stop.
pub data OnDismiss : Type 0 where
  stop skip retry : OnDismiss

unfoldable pub on_dismiss_of : Text → OnDismiss
on_dismiss_of t =
    if text_eq t (codes "retry") then retry else if text_eq t (codes "skip") then skip else stop

pub record Config : Type 0 where
  pub service_prefix : Text
  pub max_attempts : ℤ
  pub wallet_store : Option (Text → Bool)
  pub auto_load : Option (Text → Bool)
  pub key_lifetime : ℕ
  pub on_dismiss : Text

-- A policy that may be nil.
abbrev pub allows : Option (Text → Bool) → Text → Bool
allows none keyname = true
allows (some policy) keyname = policy keyname

-- autoLoads
unfoldable pub auto_loads : Config → Text → Bool
auto_loads c keyname = allows c.auto_load keyname

-- walletStores
unfoldable pub wallet_stores : Config → Text → Bool
wallet_stores c keyname = allows c.wallet_store keyname

-- servicePrefixOf
unfoldable pub service_prefix_of : Config → Text
service_prefix_of c = if text_eq c.service_prefix [] then codes "SSHakku-Key" else c.service_prefix

-- The secret-store service of a key.
unfoldable pub service_of : Config → Text → Text
unfolding service_prefix_of
service_of c keyname = service_prefix_of c ++ (codes "-" ++ keyname)

-- The label that storeInWallet gives an entry.
abbrev pub label_of : Text → Text
label_of keyname = codes "SSH Passphrase for " ++ keyname

-- MaxAttempts, or the default where it is below 1.
unfoldable pub attempts_of : ℤ → ℕ
attempts_of (pos zero) = 3
attempts_of (pos (suc n)) = suc n
attempts_of (negsuc n) = 3

pub data KeyOutcome : Type 0 where
  key_abandoned key_loaded attempts_exhausted asking_ended : KeyOutcome

-- Why LoadKeys loaded nothing.
pub data LoadError (E : Type 0) : Type 0 where
  enumerate_failed no_ssh_add cannot_ask fingerprints_failed : E → LoadError E

-- Texts put behind one another.
abbrev pub concat : List Text → Text
concat [] = []
concat (t ∷ ts) = t ++ concat ts

abbrev pub info_level : Text
info_level = codes "INFO"

abbrev pub error_level : Text
error_level = codes "ERROR"

-- " (attempt 1/3)"
abbrev pub count_text : ℕ → ℕ → Text
count_text attempt max =
    concat (codes " (attempt " ∷ show_nat attempt ∷ codes "/" ∷ show_nat max ∷ codes ")" ∷ [])

module _ {W E : Type 0} (io : Ports W E) where
  -- A part of the batch: nothing in it stops the batch by an error.
  abbrev pub Step : Type 0 → Type 0
  Step A = Exec (W × Bool) (LoadError E) A

  -- A call whose error is looked at and not handed on.
  abbrev pub tried : {F A : Type 0} → Exec W F A → Step (Result F A)
  tried m h = let (r, w) = m h.0 in (ok r, (w, h.1))

  abbrev pub logf : Text → List Text → Step (Unit {0})
  logf level texts h = (ok tt, (io.log level (concat texts) h.0, h.1))

  abbrev pub notifyf : List Text → Step (Unit {0})
  notifyf texts h = (ok tt, (io.notify (concat texts) h.0, h.1))

  -- A line for a failure, where there was one.
  abbrev pub log_failure : {A : Type 0} → List Text → Result E A → Step (Unit {0})
  log_failure before (ok a) = pure tt
  log_failure before (err e) = logf error_level (concat before ∷ codes ": " ∷ io.shown e ∷ [])

  -- ensureUnlocked, where the backend has sessions
  unfoldable pub ensure_unlocked : Option (Session W E) → W × Bool → W × Bool
  ensure_unlocked none h = h
  ensure_unlocked (some s) (w, true) = (w, true)
  ensure_unlocked (some s) (w, false) = let (r, w') = s.unlock w in (w', is_ok r)

  -- sessionBackend.Lookup
  unfoldable pub session_lookup : Text → Step (Result E (Text × Bool))
  unfolding ensure_unlocked
  session_lookup service h = tried (io.lookup service) (ensure_unlocked io.session h)

  -- sessionBackend.Store
  unfoldable pub session_store : Text → Text → Text → Step (Result E (Unit {0}))
  unfolding ensure_unlocked
  session_store service label pass h =
      tried (io.store service label pass) (ensure_unlocked io.session h)

  -- failAdd
  unfoldable pub fail_add : Text → E → Step (Unit {0})
  fail_add keyname e = do
    logf error_level (codes "add " ∷ keyname ∷ codes ": " ∷ io.shown e ∷ [])
    notifyf (codes "could not load key " ∷ keyname ∷ codes ": " ∷ io.shown e ∷ [])

  -- failPrompt
  unfoldable pub fail_prompt : Text → E → Step (Unit {0})
  fail_prompt keyname e = do
    logf error_level (codes "prompt " ∷ keyname ∷ codes ": " ∷ io.shown e ∷ [])
    notifyf (codes "could not load key " ∷ keyname ∷ codes ": " ∷ io.shown e ∷ [])
