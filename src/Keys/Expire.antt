-- ===== src/Keys/Expire.antt =====
-- internal/keys/expire.go: taking the keys whose time is up out of the agent.
use sshakku.FilePath.{base}
use sshakku.Keys.Fingerprint.{Runner, RunResult}
use sshakku.Prelude.{
  ℕ, ltb, Text, codes, text_eq, ℤ, int_eq, pos, List, [], ◌∷◌, ◌++◌, Bool, true, false, not, ◌&&◌,
  Option, none, some, if◌then◌else◌, Exec, Result, ok, err, ◌>>=◌, lift,
}

-- AddedKey: an expiry of none never comes.
pub record AddedKey : Type 0 where
  pub key_file : Text
  pub added_at : ℕ
  pub expires_at : Option ℕ

-- What the log says of a key, with the exit code of ssh-add.
pub data Line (E : Type 0) : Type 0 where
  no_ssh_add could_not_run could_not_forget : Text → E → Line E
  not_held : Text → ℤ → Line E
  taken_out : Text → Line E

-- The collaborators of an Expirer; `run` has the environment of ssh-add as its first argument.
pub record Ports (W E : Type 0) : Type 0 where
  pub added : Exec W E (List AddedKey)
  pub forget : Text → Exec W E (Unit {0})
  pub run : List Text → Runner W E
  pub ssh_add_name : Exec W E Text
  pub now : W → ℕ × W
  pub log : Line E → W → W
  pub endpoint : Text

-- The test of ExpireKeys: whether the key's time is up and its file is known.
unfoldable pub is_expired : AddedKey → ℕ → Bool
is_expired key now = elim key.expires_at [
  | none ↦ false
  | some at ↦ not (text_eq key.key_file []) && not (ltb now at)
]

-- env
unfoldable pub env_of : Text → List Text
env_of endpoint = if text_eq endpoint [] then [] else (codes "SSH_AUTH_SOCK=" ++ endpoint) ∷ []

module _ {W E : Type 0} (io : Ports W E) where
  abbrev pub forgotten : Text → Result E (Unit {0}) → W → W
  forgotten name (ok done) w = w
  forgotten name (err e) w = io.log (could_not_forget name e) w

  abbrev pub line_of : Text → ℤ → Line E
  line_of name code = if int_eq code (pos 0) then taken_out name else not_held name code

  abbrev pub after_run : AddedKey → Result E RunResult → W → W
  after_run key (err e) w = io.log (could_not_run (base key.key_file) e) w
  after_run key (ok res) w =
      let (r, w') = io.forget key.key_file (io.log (line_of (base key.key_file) res.code) w) in
      forgotten (base key.key_file) r w'

  abbrev pub with_ssh_add : AddedKey → Result E Text → W → W
  with_ssh_add key (err e) w = io.log (no_ssh_add (base key.key_file) e) w
  with_ssh_add key (ok ssh_add) w =
      let (r, w') = io.run (env_of io.endpoint) ssh_add (codes "-d" ∷ key.key_file ∷ []) w in
      after_run key r w'

  -- remove
  unfoldable pub remove : AddedKey → W → W
  unfolding env_of
  remove key w = let (r, w') = io.ssh_add_name w in with_ssh_add key r w'

  abbrev pub remove_if_expired : Bool → AddedKey → W → W
  remove_if_expired true key w = remove key w
  remove_if_expired false key w = w

  -- The loop of ExpireKeys.
  unfoldable pub expire_each : ℕ → List AddedKey → W → W
  unfolding is_expired remove
  expire_each now [] w = w
  expire_each now (key ∷ keys) w =
      expire_each now keys (remove_if_expired (is_expired key now) key w)

  abbrev pub expire_all : List AddedKey → W → Unit {0} × W
  expire_all keys w = let (now, w') = io.now w in (tt, expire_each now keys w')

  -- ExpireKeys
  unfoldable pub expire_keys : Exec W E (Unit {0})
  unfolding expire_each
  expire_keys = do keys ← io.added; lift (expire_all keys)
