-- ===== src/Agent/Proc.antt =====
-- internal/agent/inspect/inspect.go: an ssh-agent process, read from its argv and its status, and
-- who it belongs to.
use sshakku.FilePath.{clean, slash, base}
use sshakku.Prelude.{
  ℕ, zero, suc, ◌+◌, ◌*◌, Text, codes, newline, text_eq, has_prefix, split, push, trim_right,
  is_space, ℤ, negsuc, atoi, List, [], ◌∷◌, ◌++◌, Bool, false, not, ◌&&◌, ◌||◌, Option, none, some,
  if◌then◌else◌, ◌==◌,
}

pub data ProcKind : Type 0 where
  foreign ours legacy : ProcKind

pub record AgentProc : Type 0 where
  pub pid : ℤ
  pub uid : ℤ
  pub socket : Text
  pub args : List Text

-- isUnder
unfoldable pub is_under : Text → Text → Bool
is_under path dir =
    if text_eq path [] || text_eq dir []
    then false
    else has_prefix (clean path) (clean dir ++ (slash ∷ []))

-- Classify
unfoldable pub classify : AgentProc → Text → Text → ProcKind
unfolding is_under
classify p fixed_sock legacy_dir =
    if not (text_eq p.socket []) && text_eq p.socket fixed_sock
    then ours
    else if is_under p.socket legacy_dir
    then legacy
    else foreign

abbrev flag : Text
flag = codes "-a"

-- The text behind a joined `-a`, where there is one.
abbrev joined : Text → Option Text
joined (a ∷ b ∷ c ∷ rest) = if a == b'-' && b == b'a' then some (c ∷ rest) else none
joined _ = none

-- The loop of socketArg, over the arguments behind the program's name.
unfoldable pub socket_arg_loop : List Text → Text
socket_arg_loop [] = []
socket_arg_loop (a ∷ []) = if text_eq a flag then [] else elim (joined a) [ none ↦ [] | some s ↦ s ]
socket_arg_loop (a ∷ b ∷ rest) =
    let later = socket_arg_loop (b ∷ rest) in
    if text_eq a flag then b else elim (joined a) [ none ↦ later | some s ↦ s ]

-- socketArg
unfoldable pub socket_arg : List Text → Text
unfolding socket_arg_loop
socket_arg [] = []
socket_arg (program ∷ args) = socket_arg_loop args

-- Text cut at every character that passes a test.
unfoldable pub split_by : (ℕ → Bool) → Text → List Text
split_by p [] = [] ∷ []
split_by p (c ∷ s) = let rest = split_by p s in if p c then [] ∷ rest else push c rest

abbrev cons_unless_empty : Text → List Text → List Text
cons_unless_empty [] ls = ls
cons_unless_empty (c ∷ l) ls = (c ∷ l) ∷ ls

unfoldable pub non_empty : List Text → List Text
non_empty [] = []
non_empty (l ∷ ls) = cons_unless_empty l (non_empty ls)

-- strings.Fields
unfoldable pub fields : Text → List Text
unfolding split_by non_empty
fields s = non_empty (split_by is_space s)

abbrev unknown_uid : ℤ
unknown_uid = negsuc 0

-- The fields of a `Uid:` line, the second of which is the real uid.
abbrev uid_of_fields : List Text → ℤ
uid_of_fields (name ∷ uid ∷ rest) = let (n, read) = atoi uid in if read then n else unknown_uid
uid_of_fields _ = unknown_uid

-- The loop of readStatusUID: the first `Uid:` line decides.
unfoldable pub status_uid_loop : List Text → ℤ
unfolding fields atoi
status_uid_loop [] = unknown_uid
status_uid_loop (line ∷ rest) =
    let later = status_uid_loop rest in
    if has_prefix line (codes "Uid:") then uid_of_fields (fields line) else later

-- readStatusUID, of the file's content where it could be opened
unfoldable pub read_status_uid : Option Text → ℤ
unfolding status_uid_loop
read_status_uid none = unknown_uid
read_status_uid (some content) = status_uid_loop (split newline content)

abbrev split_unless_empty : Text → List Text
split_unless_empty [] = []
split_unless_empty (c ∷ s) = split 0 (c ∷ s)

-- readCmdline, of the file's content
unfoldable pub read_cmdline : Text → List Text
read_cmdline content = split_unless_empty (trim_right (λ c. c == 0) content)

-- An entry of a procfs-shaped directory, with the two files of it that could be read.
pub record ProcEntry : Type 0 where
  pub name : Text
  pub is_dir : Bool
  pub cmdline : Option Text
  pub status : Option Text

-- The argv of an entry, empty where there is nothing to read.
unfoldable pub argv_of : Option Text → List Text
unfolding read_cmdline
argv_of none = []
argv_of (some content) = read_cmdline content

-- The process of an entry, where the entry is an ssh-agent's.
abbrev proc_of : ProcEntry → List Text → Option AgentProc
proc_of e [] = none
proc_of e (program ∷ args) =
    let (pid, is_pid) = atoi e.name in
    if e.is_dir && is_pid && text_eq (base program) (codes "ssh-agent")
    then some (record {
      pid = pid;
      uid = read_status_uid e.status;
      socket = socket_arg (program ∷ args);
      args = program ∷ args;
    })
    else none

abbrev cons_some : Option AgentProc → List AgentProc → List AgentProc
cons_some none ps = ps
cons_some (some p) ps = p ∷ ps

-- readProcfsTree, of the directory's entries
unfoldable pub read_procfs_tree : List ProcEntry → List AgentProc
unfolding argv_of read_status_uid socket_arg
read_procfs_tree [] = []
read_procfs_tree (e ∷ es) = cons_some (proc_of e (argv_of e.cmdline)) (read_procfs_tree es)

-- The loop that passes over the padding.
unfoldable pub skip_empty : List Text → List Text
skip_empty [] = []
skip_empty ([] ∷ chunks) = skip_empty chunks
skip_empty ((c ∷ l) ∷ chunks) = (c ∷ l) ∷ chunks

-- The loop that reads the arguments.
unfoldable pub take_args : ℕ → List Text → List Text
take_args argc [] = []
take_args zero (l ∷ chunks) = []
take_args (suc argc) (l ∷ chunks) = l ∷ take_args argc chunks

abbrev behind_first : List Text → List Text
behind_first [] = []
behind_first (l ∷ ls) = ls

-- parseKernProcArgs2
unfoldable pub parse_kern_proc_args2 : Text → List Text
unfolding skip_empty take_args
parse_kern_proc_args2 (a ∷ b ∷ c ∷ d ∷ rest) =
    let argc = a + 0x100 * b + 0x10000 * c + 0x1000000 * d in
    take_args argc (skip_empty (behind_first (split 0 rest)))
parse_kern_proc_args2 _ = []
