-- ===== src/Trace/Signals.antt =====
-- Which statuses of wait are stops, which signal a stopped process goes on with, and what the loop
-- of do_trace of main.c makes of the result.
use graftcp.Prelude.{ℕ, ◌/◌, ◌^◌, Bool, not, ◌||◌, ◌&&◌, none, some, ◌==◌, if◌then◌else◌}
use graftcp.Trace.{
  Round, failure, esrch, sigstop, sigtrap, sys_exit, sys_exit_group, wifstopped, wstopsig,
}

-- A status that wait gives for a process that has stopped and not ended.
unfoldable pub is_stop : ℕ → Bool
is_stop status = not (status / 2 ^ 16 == 0) || wifstopped status

-- The signal that a process goes on with, where `known` says that the stop has a siginfo: the one
-- that it has stopped for in a stop for a signal, and none in the stops of the tracing itself.
unfoldable pub delivered : Bool → ℕ → ℕ
delivered known status =
    if not (status / 2 ^ 16 == 0)
    then 0
    else if wstopsig status == sigstop || wstopsig status == sigtrap
    then 0
    else if known
    then wstopsig status
    else 0

-- What resume_child makes of the errno of PTRACE_SYSCALL.
abbrev pub after_resume : ℕ → Round
after_resume errno = if errno == 0 then none else if errno == esrch then none else some failure

-- A stop that stands for a system call: by SIGTRAP, or by another signal but SIGSTOP with no
-- siginfo.
unfoldable pub is_call_stop : Bool → ℕ → Bool
is_call_stop known status =
    status / 2 ^ 16 == 0
    && wifstopped status
    && not (wstopsig status == sigstop)
    && (wstopsig status == sigtrap || not known)

-- The calls that end a process.
abbrev pub is_end : ℕ → Bool
is_end csn = csn == sys_exit || csn == sys_exit_group
