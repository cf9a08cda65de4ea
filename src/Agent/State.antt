-- ===== src/Agent/State.antt =====
-- The state file of internal/agent/manage.go, and the pid that ssh-agent announces.
pub mod RoundTrip
use sshakku.Prelude.{
  ℕ, Text, codes, newline, text_eq, split, ℤ, pos, atoi, show_int, is_digit, List, [], ◌∷◌, ◌++◌,
  Option, none, some, if◌then◌else◌, Result, ok, err, ◌==◌,
}

-- State
pub record State : Type 0 where
  pub pid : ℤ
  pub socket : Text

-- What WriteState writes.
unfoldable pub state_text : State → Text
state_text s =
    codes "pid=" ++ (show_int s.pid ++ (newline ∷ (codes "sock=" ++ (s.socket ++ (newline ∷ [])))))

abbrev cons_key : ℕ → Option (Text × Text) → Option (Text × Text)
cons_key c none = none
cons_key c (some (key, val)) = some (c ∷ key, val)

-- strings.Cut at one character
unfoldable pub cut : ℕ → Text → Option (Text × Text)
cut sep [] = none
cut sep (c ∷ s) = let rest = cut sep s in if c == sep then some ([], s) else cons_key c rest

abbrev set_field : State → Option (Text × Text) → State
set_field s none = s
set_field s (some (key, val)) =
    if text_eq key (codes "pid")
    then record s { pid = (atoi val).0 }
    else if text_eq key (codes "sock")
    then record s { socket = val }
    else s

-- The loop of ReadState.
unfoldable pub read_lines : State → List Text → State
unfolding cut
read_lines s [] = s
read_lines s (line ∷ rest) = read_lines (set_field s (cut b'=' line)) rest

-- ReadState, of the file's content
unfoldable pub read_state : Text → State
unfolding read_lines
read_state content = read_lines (record { pid = pos 0; socket = [] }) (split newline content)

-- What is behind a prefix, where the text has it.
unfoldable pub cut_prefix : Text → Text → Option Text
cut_prefix s [] = some s
cut_prefix [] (d ∷ key) = none
cut_prefix (c ∷ s) (d ∷ key) = let rest = cut_prefix s key in if c == d then rest else none

-- What is behind the first occurrence of a text.
unfoldable pub behind : Text → Text → Option Text
unfolding cut_prefix
behind key [] = if text_eq key [] then some [] else none
behind key (c ∷ s) =
    let later = behind key s in elim (cut_prefix (c ∷ s) key) [ some r ↦ some r | none ↦ later ]

-- The digits at the front.
unfoldable pub leading_digits : Text → Text
leading_digits [] = []
leading_digits (c ∷ s) = let rest = leading_digits s in if is_digit c then c ∷ rest else []

pub data PidError : Type 0 where
  no_agent_pid malformed_agent_pid out_of_range : PidError

abbrev pid_of_digits : Text → Result PidError ℤ
pid_of_digits [] = err malformed_agent_pid
pid_of_digits (c ∷ s) = let (n, read) = atoi (c ∷ s) in if read then ok n else err out_of_range

-- parseAgentPID
unfoldable pub parse_agent_pid : Text → Result PidError ℤ
unfolding behind leading_digits
parse_agent_pid out = elim (behind (codes "SSH_AGENT_PID=") out) [
  | none ↦ err no_agent_pid
  | some s ↦ pid_of_digits (leading_digits s)
]
