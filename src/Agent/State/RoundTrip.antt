-- ===== src/Agent/State/RoundTrip.antt =====
-- What ReadState reads of a file that WriteState wrote.
use sshakku.Agent.State.{state_text, cut, read_lines, read_state}
use sshakku.Prelude.{
  ℕ, ◌≤◌, Text, codes, newline, split, split-append, split_of_Lacks, Lacks, All-append, ℤ, Bool,
  pos, max_int, atoi-show_nat, show_nat, show_nat-All, show_int, List, [], ◌∷◌, ◌++◌, ◌≡◌, ◌≢◌,
  refl, ap, ◌∙◌, arith,
}

show_nat-Lacks : (n : ℕ) → Lacks newline (show_nat n)
show_nat-Lacks n = show_nat-All (λ c. c ≢ newline) n (λ d h. omega arith)

pid_line-Lacks : (n : ℕ) → Lacks newline (codes "pid=" ++ show_nat n)
pid_line-Lacks n =
    All-append (λ c. c ≢ newline) (codes "pid=") (show_nat n) (omega arith) (show_nat-Lacks n)

sock_line-Lacks : (socket : Text) → Lacks newline socket → Lacks newline (codes "sock=" ++ socket)
sock_line-Lacks socket h = All-append (λ c. c ≢ newline) (codes "sock=") socket (omega arith) h

-- The lines of the state file.
split-state_text :
    (n : ℕ) (socket : Text)
    → Lacks newline socket
    → split newline (state_text (record { pid = pos n; socket = socket }))
      ≡ (codes "pid=" ++ show_nat n) ∷ (codes "sock=" ++ socket) ∷ [] ∷ []
unfolding state_text show_int split
split-state_text n socket h =
    split-append newline (codes "pid=" ++ show_nat n) ((codes "sock=" ++ socket) ++ newline ∷ [])
    ∙ rw (split_of_Lacks newline (codes "pid=" ++ show_nat n) (pid_line-Lacks n)) (
        ap (λ (ls : List Text). (codes "pid=" ++ show_nat n) ∷ ls)
          (split-append newline (codes "sock=" ++ socket) []
            ∙ rw (split_of_Lacks newline (codes "sock=" ++ socket) (sock_line-Lacks socket h))
                refl))

-- A state with a pid that an int holds, and a socket whose path has no newline, is read back as it
-- was written.
pub read_state-state_text :
    (n : ℕ) (socket : Text)
    → n ≤ max_int
    → Lacks newline socket
    → read_state (state_text (record { pid = pos n; socket = socket }))
      ≡ record { pid = pos n; socket = socket }
unfolding read_state read_lines cut
read_state-state_text n socket b h =
    ap (read_lines (record { pid = pos 0; socket = [] })) (split-state_text n socket h)
    ∙ ap (λ (r : ℤ × Bool). record { pid = r.0; socket = socket }) (atoi-show_nat n b)
