-- ===== src/Keys/Wallet/Bitwarden/Session.antt =====
-- The session of internal/keys/wallet/bitwarden.go, over its methods.
use sshakku.Keys.Wallet.{RunResult, WalletError}
use sshakku.Keys.Wallet.Bitwarden as Bitwarden
use sshakku.Keys.Wallet.Bitwarden.{
  Account, Handle, closed, Item, Ports, password_variable, bw, Method, from_world, call, returned,
  succeeded, unless_exited, call_in_session, configure_server, log_in, hold, unlock, after_lock,
  lock, locked_behind, once_unlocked, bracket_if, in_session, read_id, find_item_id, read_password,
  write_item, delete_found, read_names,
}
use sshakku.Prelude.{
  Text, codes, text_eq, List, [], ◌∷◌, Bool, true, false, Option, none, some, if◌then◌else◌, Result,
  ok, err, ◌>>=◌, continue, ◌≡◌, ◌⊎◌, inl, inr, refl, sym, ◌∙◌,
}

module _ {W E : Type 0} (io : Ports W E) (account : Account) where
  -- A method that does not change the handle.
  abbrev Steady : {A : Type 0} → Method io account A → Type 0
  Steady m = (s : W × Handle) → (m s).1.1 ≡ s.1

  continue-Steady :
      {A B : Type 0} (r : Result (WalletError E) A) (f : A → Method io account B) (s : W × Handle)
      → ((a : A) → Steady (f a))
      → (continue r f s).1.1 ≡ s.1
  continue-Steady (ok a) f s h = h a s
  continue-Steady (err e) f s h = refl

  bind-Steady :
      {A B : Type 0} (m : Method io account A) (f : A → Method io account B)
      → Steady m
      → ((a : A) → Steady (f a))
      → Steady (m >>= f)
  bind-Steady m f h k s = continue-Steady (m s).0 f (m s).1 k ∙ h s

  if-Steady :
      {A : Type 0} (b : Bool) (m n : Method io account A)
      → Steady m
      → Steady n
      → Steady (if b then m else n)
  if-Steady true m n h k = h
  if-Steady false m n h k = k

  returned-Steady : {A : Type 0} (r : Result E A) → Steady (returned io account r)
  returned-Steady (ok a) s = refl
  returned-Steady (err e) s = refl

  unless_exited-Steady :
      (command : Text) (res : RunResult) → Steady (unless_exited io account command res)
  unless_exited-Steady command res =
      if-Steady (succeeded io account res) _ _ (λ s. refl) (λ s. refl)

  in_session_call-Steady :
      (args : List Text) (stdin : Text) → Steady (call_in_session io account args stdin)
  in_session_call-Steady args stdin s = refl

  configure_server-Steady : Steady (configure_server io account)
  configure_server-Steady =
      if-Steady (text_eq account.server []) _ _ (λ s. refl)
        (bind-Steady (call io account _) _ (λ s. refl) (unless_exited-Steady _))

  log_in-Steady :
      (password_env : List Text) (check : RunResult) → Steady (log_in io account password_env check)
  log_in-Steady password_env check =
      if-Steady (succeeded io account check) _ _ (λ s. refl)
        (bind-Steady (configure_server io account) _ configure_server-Steady
          (λ _. bind-Steady (call io account _) _ (λ s. refl) (unless_exited-Steady _)))

  -- A method that does not change the handle where it fails.
  abbrev AfterFailure : {A : Type 0} → Result (WalletError E) A → Handle → Handle → Type 0
  AfterFailure (ok a) h h' = Unit
  AfterFailure (err e) h h' = h' ≡ h

  abbrev FailsSteady : {A : Type 0} → Method io account A → Type 0
  FailsSteady m = (s : W × Handle) → AfterFailure (m s).0 s.1 (m s).1.1

  AfterFailure-from :
      {A : Type 0} (r : Result (WalletError E) A) (g h h' : Handle)
      → g ≡ h
      → AfterFailure r g h'
      → AfterFailure r h h'
  AfterFailure-from (ok a) g h h' same k = tt
  AfterFailure-from (err e) g h h' same k = k ∙ same

  continue-fails :
      {A B : Type 0} (r : Result (WalletError E) A) (f : A → Method io account B) (s : W × Handle)
      → ((a : A) → FailsSteady (f a))
      → AfterFailure (continue r f s).0 s.1 (continue r f s).1.1
  continue-fails (ok a) f s h = h a s
  continue-fails (err e) f s h = refl

  bind-fails :
      {A B : Type 0} (m : Method io account A) (f : A → Method io account B)
      → Steady m
      → ((a : A) → FailsSteady (f a))
      → FailsSteady (m >>= f)
  bind-fails m f h k s =
      AfterFailure-from ((m >>= f) s).0 (m s).1.1 s.1 ((m >>= f) s).1.1 (h s)
        (continue-fails (m s).0 f (m s).1 k)

  unlock-fails : FailsSteady (unlock io account)
  unfolding unlock
  unlock-fails =
      bind-fails (from_world io account (io.prompt _)) _ (λ s. refl)
        (λ password.
          bind-fails (call io account _) _ (λ s. refl)
            (λ check. bind-fails (log_in io account _ check) _ (log_in-Steady _ check) (λ _.
              bind-fails (call io account _) _ (λ s. refl)
                (λ res.
                  bind-fails (unless_exited io account (codes "bw unlock") res) _
                    (unless_exited-Steady _ res) (λ _ s. tt)))))

  after_lock-closes :
      (r : Result (WalletError E) RunResult) (s : W × Handle)
      → (after_lock io account (r, s)).1.1 ≡ closed
  after_lock-closes (err e) s = refl
  after_lock-closes (ok res) s = unless_exited-Steady (codes "bw lock") res (s.0, closed)

  lock-closes : (s : W × Handle) → (lock io account s).1.1 ≡ closed
  unfolding lock
  lock-closes s =
      after_lock-closes (call_in_session io account (codes "lock" ∷ []) [] s).0
        (call_in_session io account (codes "lock" ∷ []) [] s).1

  once_unlocked-closes :
      {A : Type 0} (m : Method io account A) (r : Result (WalletError E) (Unit {0}))
      (s : W × Handle)
      → AfterFailure r closed s.1
      → (once_unlocked io account m (r, s)).1.1 ≡ closed
  once_unlocked-closes m (err e) s h = h
  once_unlocked-closes m (ok done) s h = lock-closes (m s).1

  -- A session that is held, or none.
  abbrev pub IsSettled : Handle → Type 0
  IsSettled h = (h.held ≡ true) ⊎ (h ≡ closed)

  bracket_if-settles :
      {A : Type 0} (b : Bool) (m : Method io account A) (s : W × Handle)
      → Steady m
      → (b ≡ true) ⊎ (s.1 ≡ closed)
      → (bracket_if io account b m s).1.1 ≡ s.1
  bracket_if-settles true m s h settled = h s
  bracket_if-settles false m s h (inl held) = absurd (let k = held in cc)
  bracket_if-settles false m s h (inr is_closed) =
      once_unlocked-closes m (unlock io account s).0 (unlock io account s).1 (
        AfterFailure-from (unlock io account s).0 s.1 closed (unlock io account s).1.1 is_closed
          (unlock-fails s))
      ∙ sym is_closed

  in_session-settles :
      {A : Type 0} (m : Method io account A) (s : W × Handle)
      → Steady m
      → IsSettled s.1
      → (in_session io account m s).1.1 ≡ s.1
  in_session-settles m s h settled = bracket_if-settles s.1.held m s h settled

  read_id-Steady : (res : RunResult) → Steady (read_id io account res)
  read_id-Steady res =
      if-Steady (succeeded io account res) _ _
        (bind-Steady (returned io account (io.decode_id res.stdout)) _ (returned-Steady _)
          (λ id s. refl))
        (λ s. refl)

  find_item_id-Steady : (service : Text) → Steady (find_item_id io account service)
  unfolding find_item_id
  find_item_id-Steady service =
      bind-Steady (call_in_session io account _ []) (read_id io account) (λ s. refl) read_id-Steady

  write_item-Steady :
      (id : Option Text) (payload : Text) → Steady (write_item io account id payload)
  write_item-Steady id payload =
      bind-Steady (call_in_session io account _ _) _ (λ s. refl) (unless_exited-Steady _)

  delete_found-Steady : (id : Option Text) → Steady (delete_found io account id)
  delete_found-Steady none = λ s. refl
  delete_found-Steady (some id) =
      bind-Steady (call_in_session io account _ []) _ (λ s. refl) (unless_exited-Steady _)

  read_names-Steady : (res : RunResult) → Steady (read_names io account res)
  read_names-Steady res =
      if-Steady (succeeded io account res) _ _
        (bind-Steady (returned io account (io.decode_names res.stdout)) _ (returned-Steady _)
          (λ names s. refl))
        (λ s. refl)

  -- The handle, before and after.
  abbrev pub Leaves : {A : Type 0} → Method io account A → W × Handle → Type 0
  Leaves m s = (m s).1.1 ≡ s.1

  -- Where the session is held by a caller or there is none, each of the four calls leaves the handle
  -- as it was, whatever fails on the way: a session that the call opened is gone when it returns,
  -- and one that was held is held still.
  pub session-Leaves :
      (s : W × Handle) (service label passphrase : Text)
      → IsSettled s.1
      → Leaves (Bitwarden.lookup io account service) s
        × Leaves (Bitwarden.store io account service label passphrase) s
        × Leaves (Bitwarden.delete io account service) s
        × Leaves (Bitwarden.list io account) s
  unfolding Bitwarden.lookup Bitwarden.store Bitwarden.delete Bitwarden.list
  session-Leaves s service label passphrase settled = (
    in_session-settles _ s
        (bind-Steady (call_in_session io account _ []) (read_password io account) (λ s. refl)
          (λ res s. refl))
        settled,
    in_session-settles _ s
        (bind-Steady (find_item_id io account service) _ (find_item_id-Steady service)
          (λ id. bind-Steady (returned io account _) _ (returned-Steady _) (write_item-Steady id)))
        settled,
    in_session-settles _ s
        (bind-Steady (find_item_id io account service) (delete_found io account)
          (find_item_id-Steady service) delete_found-Steady)
        settled,
    in_session-settles _ s
        (bind-Steady (call_in_session io account _ []) (read_names io account) (λ s. refl)
          read_names-Steady)
        settled,
  )
