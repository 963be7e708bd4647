-- ===== src/Kernel.antt =====
-- What graftcp takes from the system: ptrace(2), wait(2), the clock and the fifo. The code calls
-- these and does not implement them, so they are the operations of an interface, and what they
-- promise are named hypotheses, in records of their own.
use graftcp.Prelude.{ℕ, Bytes, Bool, Option, List}

-- struct timeval
pub record TimeVal : Type 0 where
  pub tv_sec : ℕ
  pub tv_usec : ℕ

-- What fork(2) gives: -1 with errno, 0 in the child, or the pid of the child in the parent.
pub data Fork : Type 0 where
  fork_failed : ℕ → Fork
  in_child : Fork
  in_parent : ℕ → Fork

-- `errno` is 0 where a call succeeds; a failed read gives the pattern of -1.
pub record Kernel : Type 1 where
  pub State : Type 0
  -- PTRACE_PEEKUSER: the value and errno; PTRACE_POKEUSER.
  pub peekuser : State → ℕ → ℕ → ℕ × ℕ
  pub pokeuser : State → ℕ → ℕ → ℕ → State
  -- PTRACE_PEEKDATA and PTRACE_POKEDATA at an address.
  pub peekdata : State → ℕ → ℕ → ℕ
  pub pokedata : State → ℕ → ℕ → ℕ → State
  -- PTRACE_SETOPTIONS with the four options of the code: errno.
  pub setoptions : State → ℕ → ℕ × State
  -- PTRACE_GETSIGINFO: whether it succeeds.
  pub getsiginfo : State → ℕ → Bool
  -- PTRACE_SYSCALL with a signal to deliver: errno.
  pub resume : State → ℕ → ℕ → ℕ × State
  -- The pid and the status of wait, `none` where it fails.
  pub wait : State → Option (ℕ × ℕ) × State
  pub gettimeofday : State → TimeVal
  pub usleep : State → ℕ → State
  -- A write to LOCAL_PIPE_FD: whether a positive count was written.
  pub write_fifo : State → Bytes → Bool × State
  pub fork : State → Fork × State
  -- PTRACE_TRACEME, and kill(getpid(), SIGSTOP) until the process is resumed.
  pub traceme : State → State
  pub stop_self : State → State
  -- execvp of a file and a NULL-terminated array: errno, or `none` where the process is replaced.
  pub execvp : State → Option Bytes → List (Option Bytes) → Option ℕ × State
