-- ===== src/Keys/Askpass.antt =====
-- internal/keys/askpass.go: the broker that answers ssh's questions. The wallet, the terminal, the
-- check of a passphrase against the key's file (passphraseOpens), the match of ssh's question and
-- the lower case of a text are parameters.
pub mod Storing
use sshakku.FilePath.{base}
use sshakku.Keys.Load.{Config, wallet_stores, service_of, label_of}
use sshakku.Prelude.{
  Text, codes, text_eq, trim_space, contains, [], Bool, true, false, not, ◌&&◌, ◌||◌, Option, none,
  some, if◌then◌else◌, Result, ok, err,
}

-- passphraseVerdict
pub data Verdict : Type 0 where
  unknown opens wrong : Verdict

-- What the broker logs about a key.
pub data Line (E : Type 0) : Type 0 where
  lookup_failed no_terminal_for store_failed : Text → E → Line E
  provided no_longer_opens excluded not_opened stored : Text → Line E
  no_terminal : E → Line E

pub record Ports (W E : Type 0) : Type 0 where
  pub lookup : Text → W → Result E (Text × Bool) × W
  pub store : Text → Text → Text → W → Result E (Unit {0}) × W
  -- TTY.Prompt, and whether what is typed stays hidden
  pub prompt : Text → Bool → W → Result E Text × W
  pub passphrase_opens : Text → Text → W → Verdict × W
  -- The group of the match of passphrasePromptRe.
  pub match_prompt : Text → Option Text
  pub to_lower : Text → Text
  pub log : Line E → W → W

abbrev pub named : Text → Option Text
named keyfile = if text_eq keyfile [] then none else some keyfile

abbrev pub named_in : Option Text → Option Text
named_in none = none
named_in (some group) = named (trim_space group)

-- looksLikeConfirmation
unfoldable pub looks_like_confirmation : (Text → Text) → Text → Bool
looks_like_confirmation to_lower question =
    let p = to_lower question in
    contains (codes "(yes/no") p
    || contains (codes "fingerprint)") p
    || contains (codes "continue connecting") p

abbrev pub is_wrong : Verdict → Bool
is_wrong wrong = true
is_wrong _ = false

module _ {W E : Type 0} (io : Ports W E) (cfg : Config) where
  -- ParsePassphrasePrompt
  unfoldable pub parse_passphrase_prompt : Text → Option Text
  parse_passphrase_prompt question = named_in (io.match_prompt (trim_space question))

  abbrev pub store_noted : Text → Result E (Unit {0}) → W → W
  store_noted keyname (ok done) w = io.log (stored keyname) w
  store_noted keyname (err e) w = io.log (store_failed keyname e) w

  abbrev pub store_unless_wrong : Text → Text → Text → Bool → W → W
  store_unless_wrong service keyname pass true w = io.log (not_opened keyname) w
  store_unless_wrong service keyname pass false w =
      let (r, w') = io.store service (label_of keyname) pass w in store_noted keyname r w'

  -- storePassphrase
  unfoldable pub store_typed : Text → Text → Text → Text → W → W
  store_typed service keyname keyfile pass w =
      if not (wallet_stores cfg keyname)
      then io.log (excluded keyname) w
      else let (v, w') = io.passphrase_opens keyfile pass w in
        store_unless_wrong service keyname pass (is_wrong v) w'

  abbrev pub typed_for : Text → Text → Text → Result E Text → W → Option Text × W
  typed_for service keyname keyfile (err e) w = (none, io.log (no_terminal_for keyname e) w)
  typed_for service keyname keyfile (ok typed) w =
      if text_eq (trim_space typed) []
      then (some typed, w)
      else (some typed, store_typed service keyname keyfile typed w)

  -- The prompt of Answer, behind a wallet without the passphrase.
  unfoldable pub ask : Text → Text → Text → Text → W → Option Text × W
  unfolding store_typed
  ask question service keyname keyfile w =
      let (r, w') = io.prompt question true w in typed_for service keyname keyfile r w'

  abbrev pub ask_if_wrong : Text → Text → Text → Text → Text → Bool → W → Option Text × W
  ask_if_wrong question service keyname keyfile pass false w =
      (some pass, io.log (provided keyname) w)
  ask_if_wrong question service keyname keyfile pass true w =
      ask question service keyname keyfile (io.log (no_longer_opens keyname) w)

  abbrev pub from_wallet : Text → Text → Text → Text → Result E (Text × Bool) → W → Option Text × W
  from_wallet question service keyname keyfile (err e) w =
      ask question service keyname keyfile (io.log (lookup_failed keyname e) w)
  from_wallet question service keyname keyfile (ok (pass, found)) w =
      if found && not (text_eq (trim_space pass) [])
      then (let (v, w') = io.passphrase_opens keyfile pass w in
          ask_if_wrong question service keyname keyfile pass (is_wrong v) w')
      else ask question service keyname keyfile w

  -- Answer, of a question that is not about a passphrase
  abbrev pub relayed : Result E Text → W → Option Text × W
  relayed (ok answer) w = (some answer, w)
  relayed (err e) w = (none, io.log (no_terminal e) w)

  abbrev pub answer_for : Text → Option Text → W → Option Text × W
  answer_for question none w =
      let (r, w') = io.prompt question (not (looks_like_confirmation io.to_lower question)) w in
      relayed r w'
  answer_for question (some keyfile) w =
      let service = service_of cfg (base keyfile) in
      let (r, w') = io.lookup service w in from_wallet question service (base keyfile) keyfile r w'

  -- Answer
  unfoldable pub answer : Text → W → Option Text × W
  unfolding parse_passphrase_prompt ask looks_like_confirmation
  answer question w = answer_for question (parse_passphrase_prompt question) w
