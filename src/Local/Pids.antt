-- ===== src/Local/Pids.antt =====
-- The process map of graftcp-local (proc_sync_map.go), and getPidByAddr of local.go, which looks in
-- it for the process that holds a connection's socket (hasIncludeInode of util.go).
pub mod Entries
pub mod Search
pub mod Stores
use graftcp.Prelude.{
  ℕ, zero, suc, ◌+◌, ◌-◌, Bytes, Bool, true, false, not, ◌||◌, ◌&&◌, Option, none, some, List, [],
  ◌∷◌, ◌++◌, ltb, ◌==◌, if◌then◌else◌, bytes_eq, length,
}
use graftcp.Local.{parse_line}

-- The entries of pidAddrMap, a pid with its address, in the order in which Range meets them; Go
-- fixes no order, and no theorem asks for one.
abbrev pub PidAddrMap : Type 0
PidAddrMap = List (Bytes × Bytes)

unfoldable pub store_pid_addr : Bytes → Bytes → PidAddrMap → PidAddrMap
store_pid_addr pid addr [] = (pid, addr) ∷ []
store_pid_addr pid addr ((p, a) ∷ m) =
    let rest = store_pid_addr pid addr m in
    if bytes_eq p pid then (pid, addr) ∷ m else (p, a) ∷ rest

-- "" where there is none.
unfoldable pub load_pid_addr : Bytes → PidAddrMap → Bytes × Bool
load_pid_addr pid [] = ([], false)
load_pid_addr pid ((p, a) ∷ m) =
    let rest = load_pid_addr pid m in if bytes_eq p pid then (a, true) else rest

unfoldable pub delete_pid_addr : Bytes → PidAddrMap → PidAddrMap
delete_pid_addr pid [] = []
delete_pid_addr pid ((p, a) ∷ m) =
    let rest = delete_pid_addr pid m in if bytes_eq p pid then rest else (p, a) ∷ rest

-- The calls of StorePidAddr that UpdateProcessAddrInfo starts for the lines of the fifo, in the
-- lines' order. Each call is a goroutine of its own, so they may run in any order.
unfoldable pub stores : List Bytes → List (Bytes × Bytes)
stores [] = []
stores (line ∷ lines) = add_store (parse_line line) (stores lines)
  where
    add_store : Option (Bytes × Bytes) → List (Bytes × Bytes) → List (Bytes × Bytes)
    add_store none es = es
    add_store (some e) es = e ∷ es

unfoldable pub store_all : List (Bytes × Bytes) → PidAddrMap → PidAddrMap
store_all [] m = m
store_all ((pid, addr) ∷ es) m = store_all es (store_pid_addr pid addr m)

-- RangePidAddr, for an f that changes variables of type S.
unfoldable pub range_pid_addr : {S : Type 0} → (S → Bytes → Bytes → S × Bool) → S → PidAddrMap → S
range_pid_addr f s [] = s
range_pid_addr f s ((p, a) ∷ m) =
    let (s', more) = f s p a in let rest = range_pid_addr f s' m in if more then rest else s'

-- strings.Contains
unfoldable pub has_prefix : Bytes → Bytes → Bool
has_prefix [] s = true
has_prefix (x ∷ sub) [] = false
has_prefix (x ∷ sub) (y ∷ s) = x == y && has_prefix sub s

unfoldable pub contains : Bytes → Bytes → Bool
contains sub [] = has_prefix sub []
contains sub (x ∷ s) = has_prefix sub (x ∷ s) || contains sub s

-- What hasIncludeInode reads of the file system: the names that match a pattern, a link's target
-- ("" where Readlink fails), and strconv.Atoi, taken as 0 for a negative number, and 0 for what is
-- none.
pub record ProcFs : Type 0 where
  pub atoi : Bytes → ℕ
  -- /proc/PID/fd/[0-9]* and /proc/[0-9]*/task/PID/fd/[0-9]*
  pub glob_fds : Bytes → List Bytes
  pub glob_task_fds : Bytes → List Bytes
  pub readlink : Bytes → Bytes

-- "socket:[" ++ inode ++ "]"
unfoldable pub socket_link : Bytes → Bytes
socket_link inode = b's' ∷ b'o' ∷ b'c' ∷ b'k' ∷ b'e' ∷ b't' ∷ b':' ∷ b'[' ∷ inode ++ b']' ∷ []

pub any_link : ProcFs → Bytes → List Bytes → Bool
any_link fs inode [] = false
any_link fs inode (fd ∷ fds) =
    contains (socket_link inode) (fs.readlink fd) || any_link fs inode fds

unfoldable pub has_include_inode : ProcFs → Bytes → Bytes → Bool
unfolding any_link
has_include_inode fs pid inode =
    let fds = fs.glob_fds pid in
    if ltb (fs.atoi pid) 1
    then false
    else if any_link fs inode fds
    then true
    else if length fds == 0
    then any_link fs inode (fs.glob_task_fds pid)
    else false

-- The function that getPidByAddr gives to RangePidAddr, which changes pid and destAddr.
unfoldable pub visit : ProcFs → Bytes → Bytes × Bytes → Bytes → Bytes → (Bytes × Bytes) × Bool
visit fs inode found p a = if has_include_inode fs p inode then ((p, a), false) else (found, true)

-- The loop of getPidByAddr, with some tries left. Between the tries other goroutines change the map
-- and processes go on, so each try has the map and the files of its moment.
unfoldable pub tries : Bytes → (ℕ → ProcFs × PidAddrMap) → ℕ → ℕ → Bytes × Bytes → Bytes × Bytes
unfolding visit
tries inode moment zero i found = found
tries inode moment (suc n) i found =
    let now = moment i in
    let found' = range_pid_addr (visit now.0 inode) found now.1 in
    let rest = tries inode moment n (i + 1) found' in if length found'.0 == 0 then rest else found'

-- getPidByAddr behind the call of getInodeByAddrs, which gives the inode or fails; `last` is the
-- map when the loop is over. The pid and the address, and the map that is left.
unfoldable pub get_pid_by_addr :
    Option Bytes → (ℕ → ProcFs × PidAddrMap) → PidAddrMap → (Bytes × Bytes) × PidAddrMap
unfolding tries
get_pid_by_addr none moment last = (([], []), last)
get_pid_by_addr (some inode) moment last =
    let found = tries inode moment 3 0 ([], []) in
    (found, (if length found.0 == 0 then last else delete_pid_addr found.0 last))
