-- ===== src/Keys/Wallet/Bitwarden.antt =====
-- internal/keys/wallet/bitwarden.go: passphrases as items of an account, through the command bw. The
-- program bw, the prompt, and the reading and writing of JSON and of base64 are parameters.
pub mod Session
mod Tests
use sshakku.Keys.Wallet.{
  Cmd, RunResult, WalletError, call_failed, exited, service_prefix_or_default, own_services,
}
use sshakku.Prelude.{
  Text, codes, text_eq, trim_space, ℤ, int_eq, pos, List, [], ◌∷◌, ◌++◌, Bool, true, false, not,
  Option, none, some, if◌then◌else◌, Exec, Result, ok, err, ◌>>=◌, ◌>>◌, pure, throw, wrap, wrapped,
}

-- The account of a Bitwarden, without its timeout.
pub record Account : Type 0 where
  pub email : Text
  pub server : Text
  pub service_prefix : Text

-- The fields of a Bitwarden that its methods change.
pub record Handle : Type 0 where
  pub session : Text
  pub held : Bool

abbrev pub closed : Handle
closed = record { session = []; held = false }

-- bitwardenItem, by what differs from one to another
pub record Item : Type 0 where
  pub name : Text
  pub username : Text
  pub password : Text

pub record Ports (W E : Type 0) : Type 0 where
  pub run : Cmd → Exec W E RunResult
  pub prompt : Text → Exec W E Text
  pub decode_id : Text → Result E Text
  pub decode_names : Text → Result E (List Text)
  pub encode_item : Item → Result E Text
  pub base64 : Text → Text

abbrev pub password_variable : Text
password_variable = codes "SSHAKKU_BW_PASSWORD"

abbrev pub bw : List Text → List Text → Text → Cmd
bw args env stdin = record { name = codes "bw"; args = args; env = env; stdin = stdin }

module _ {W E : Type 0} (io : Ports W E) (account : Account) where
  -- A method: it may change the handle, whether or not it fails.
  abbrev pub Method : Type 0 → Type 0
  Method A = Exec (W × Handle) (WalletError E) A

  abbrev pub from_world : {A : Type 0} → Exec W E A → Method A
  from_world m (w, h) = let (r, w') = m w in (wrapped call_failed r, (w', h))

  abbrev pub call : Cmd → Method RunResult
  call c = from_world (io.run c)

  abbrev pub returned : {A : Type 0} → Result E A → Method A
  returned (ok a) = pure a
  returned (err e) = throw (call_failed e)

  abbrev pub succeeded : RunResult → Bool
  succeeded res = int_eq res.code (pos 0)

  abbrev pub unless_exited : Text → RunResult → Method (Unit {0})
  unless_exited command res =
      if succeeded res then pure tt else throw (exited command res.code (trim_space res.stderr))

  -- env
  unfoldable pub env : Handle → List Text
  env h = (codes "BW_SESSION=" ++ h.session) ∷ []

  -- A command with the environment of the session.
  abbrev pub call_in_session : List Text → Text → Method RunResult
  call_in_session args stdin s = call (bw args (env s.1) stdin) s

  abbrev pub configure_server : Method (Unit {0})
  configure_server = if text_eq account.server [] then pure tt else (do
    conf ← call (bw (codes "config" ∷ codes "server" ∷ account.server ∷ []) [] [])
    unless_exited (codes "bw config server") conf)

  abbrev pub log_in : List Text → RunResult → Method (Unit {0})
  log_in password_env check = if succeeded check then pure tt else (do
    configure_server
    login ← call (
        bw (codes "login" ∷ account.email ∷ codes "--passwordenv" ∷ password_variable ∷ [])
          password_env [])
    unless_exited (codes "bw login") login)

  -- The session that bw printed is kept.
  abbrev pub hold : Text → Method (Unit {0})
  hold printed (w, h) = (ok tt, (w, record { session = trim_space printed; held = true }))

  -- Unlock
  unfoldable pub unlock : Method (Unit {0})
  unlock = do
    password ← from_world (io.prompt (codes "your Bitwarden master password"))
    let password_env = (password_variable ++ (codes "=" ++ password)) ∷ []
    check ← call (bw (codes "login" ∷ codes "--check" ∷ []) [] [])
    log_in password_env check
    res ← call (
        bw (codes "unlock" ∷ codes "--passwordenv" ∷ password_variable ∷ codes "--raw" ∷ [])
          password_env [])
    unless_exited (codes "bw unlock") res
    hold res.stdout

  abbrev pub after_lock :
      Result (WalletError E) RunResult × (W × Handle)
      → Result (WalletError E) (Unit {0}) × (W × Handle)
  after_lock (err e, (w, h)) = (err e, (w, closed))
  after_lock (ok res, (w, h)) = unless_exited (codes "bw lock") res (w, closed)

  -- Lock
  unfoldable pub lock : Method (Unit {0})
  unfolding env
  lock s = after_lock (call_in_session (codes "lock" ∷ []) [] s)

  -- The lock that is deferred, whose own error is dropped.
  abbrev pub locked_behind :
      {A : Type 0}
      → Result (WalletError E) A × (W × Handle)
      → Result (WalletError E) A × (W × Handle)
  locked_behind (r, s) = let (dropped, s') = lock s in (r, s')

  abbrev pub once_unlocked :
      {A : Type 0}
      → Method A
      → Result (WalletError E) (Unit {0}) × (W × Handle)
      → Result (WalletError E) A × (W × Handle)
  once_unlocked m (err e, s) = (err e, s)
  once_unlocked m (ok done, s) = locked_behind (m s)

  -- The prompt, the unlock and the deferred lock round a method, unless the session is held.
  abbrev pub bracket_if : {A : Type 0} → Bool → Method A → Method A
  bracket_if true m s = m s
  bracket_if false m s = once_unlocked m (unlock s)

  abbrev pub in_session : {A : Type 0} → Method A → Method A
  in_session m s = bracket_if s.1.held m s

  abbrev pub read_id : RunResult → Method (Option Text)
  read_id res =
      if succeeded res
      then (returned (io.decode_id res.stdout) >>= λ id. pure (some id))
      else pure none

  -- findItemID
  unfoldable pub find_item_id : Text → Method (Option Text)
  unfolding env
  find_item_id service = call_in_session (codes "get" ∷ codes "item" ∷ service ∷ []) [] >>= read_id

  abbrev pub read_password : RunResult → Method (Option Text)
  read_password res = pure (if succeeded res then some res.stdout else none)

  -- Lookup
  unfoldable pub lookup : Text → Method (Option Text)
  unfolding unlock lock env
  lookup service =
      in_session
        (call_in_session (codes "get" ∷ codes "password" ∷ service ∷ []) [] >>= read_password)

  abbrev pub verb_of : Option Text → Text
  verb_of none = codes "create"
  verb_of (some id) = codes "edit"

  abbrev pub id_args : Option Text → List Text
  id_args none = []
  id_args (some id) = id ∷ []

  abbrev pub write_item : Option Text → Text → Method (Unit {0})
  write_item id payload = do
    res ← call_in_session (verb_of id ∷ codes "item" ∷ id_args id) (io.base64 payload)
    unless_exited (codes "bw " ++ (verb_of id ++ codes " item")) res

  -- Store
  unfoldable pub store : Text → Text → Text → Method (Unit {0})
  unfolding unlock lock env find_item_id
  store service label passphrase = in_session (do
    id ← find_item_id service
    payload ←
        returned
          (io.encode_item (record { name = service; username = label; password = passphrase }))
    write_item id payload)

  abbrev pub delete_found : Option Text → Method (Unit {0})
  delete_found none = pure tt
  delete_found (some id) = do
    res ← call_in_session (codes "delete" ∷ codes "item" ∷ id ∷ codes "--permanent" ∷ []) []
    unless_exited (codes "bw delete item") res

  -- Delete
  unfoldable pub delete : Text → Method (Unit {0})
  unfolding unlock lock env find_item_id
  delete service = in_session (do id ← find_item_id service; delete_found id)

  abbrev pub read_names : RunResult → Method (List Text)
  read_names res =
      if succeeded res
      then (returned (io.decode_names res.stdout) >>= λ names.
          pure (own_services names account.service_prefix))
      else throw (exited (codes "bw list items") res.code (trim_space res.stderr))

  -- List
  unfoldable pub list : Method (List Text)
  unfolding unlock lock env own_services
  list = in_session (call_in_session (codes "list" ∷ codes "items" ∷ []) [] >>= read_names)
