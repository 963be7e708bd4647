-- ===== src/Trace.antt =====
-- The tracing of main.c: the two sides of a system call, the start of the first process, and the
-- loop of do_trace over the events of wait.
pub mod Entering
pub mod Calls
pub mod Ends
pub mod Acts
pub mod Signals
pub mod Phases
pub mod Spec
pub mod Steps
pub mod Sides
pub mod Rounds
pub mod Loop
pub mod Told
pub mod Lifecycle
pub mod Reuse
use graftcp.Prelude.{
  ℕ, zero, suc, ◌+◌, ◌-◌, ◌*◌, ◌/◌, ◌%◌, ◌^◌, Bytes, Bool, true, false, not, ◌||◌, ◌&&◌, Option,
  none, some, ltb, leb, ◌==◌, if◌then◌else◌, bit_test, bit_set, bit_clear,
}
use graftcp.Kernel.{Kernel}
use graftcp.Uthash.{Uthash}
use graftcp.World.{
  World, Cmd, done, exit, out_of_fuel, ◌>>=◌, ◌>>◌, pure, load_proc, store_proc, ask, call,
}
use graftcp.Tables.{find_proc_info, alloc_proc_info}
use graftcp.Tracee.{get_syscall_number, get_retval}
use graftcp.Address.{Libc}
use graftcp.Handlers.{
  Config, socket_pre_handle, connect_pre_handle, close_pre_handle, clone_pre_handle,
  socket_exiting_handle,
}

abbrev pub flag_startup : ℕ
flag_startup = 2

abbrev pub flag_insyscall : ℕ
flag_insyscall = 8

-- The system calls of x86-64 that the code names.
abbrev pub sys_close : ℕ
sys_close = 3

abbrev pub sys_socket : ℕ
sys_socket = 41

abbrev pub sys_connect : ℕ
sys_connect = 42

abbrev pub sys_clone : ℕ
sys_clone = 56

abbrev pub sys_exit : ℕ
sys_exit = 60

abbrev pub sys_exit_group : ℕ
sys_exit_group = 231

abbrev pub esrch : ℕ
esrch = 3

abbrev pub sigtrap : ℕ
sigtrap = 5

abbrev pub sigstop : ℕ
sigstop = 19

-- The macros of sys/wait.h on a status, an int pattern.
pub wifexited : ℕ → Bool
wifexited status = status % 128 == 0

-- ((signed char) ((status & 0x7f) + 1) >> 1) > 0
pub wifsignaled : ℕ → Bool
wifsignaled status = ltb 0 (status % 128) && ltb (status % 128) 127

pub wifstopped : ℕ → Bool
wifstopped status = status % 256 == 0x7f

pub wstopsig : ℕ → ℕ
wstopsig status = status / 256 % 256

-- What a function that returns 0 or -1 comes to.
pub data Ret : Type 0 where
  success failure : Ret

-- One round of the loop of do_trace: `none` for another round, or the value returned.
abbrev pub Round : Type 0
Round = Option Ret

module _ ⦃kernel : Kernel⦄ ⦃uthash : Uthash⦄ where
  open kernel use {setoptions, getsiginfo, resume, wait}

  -- exiting(pinfp)
  unfoldable pub exiting : ℕ → Cmd Bool
  exiting pinfp = do pi ← load_proc pinfp; pure (bit_test flag_insyscall pi.flags)

  -- The switch of trace_syscall_entering.
  pub entering_switch : ⦃libc : Libc⦄ → Config → ℕ → ℕ → Cmd (Unit {0})
  entering_switch cfg pinfp csn =
      if csn == sys_socket
      then socket_pre_handle pinfp
      else if csn == sys_connect
      then connect_pre_handle cfg pinfp
      else if csn == sys_close
      then close_pre_handle pinfp
      else if csn == sys_clone
      then clone_pre_handle pinfp
      else pure tt

  unfoldable pub trace_syscall_entering : ⦃libc : Libc⦄ → Config → ℕ → Cmd Ret
  unfolding entering_switch
  trace_syscall_entering cfg pinfp = do
    pi ← load_proc pinfp
    csn ← ask (λ s. get_syscall_number s pi.pid)
    store_proc pinfp (record pi { csn = csn })
    entering_switch cfg pinfp csn
    pj ← load_proc pinfp
    store_proc pinfp (record pj { flags = bit_set flag_insyscall pj.flags })
    pure success

  -- `case SYS_socket` of trace_syscall_exiting.
  socket_exit : ℕ → ℕ → Cmd (Unit {0})
  socket_exit pinfp pid = do
    (child_ret, errno) ← ask (λ s. get_retval s pid)
    if errno == 0
        then socket_exiting_handle pinfp child_ret
        else if errno == esrch
        then exit 0
        else exit errno

  end_syscall : ℕ → Ret → Cmd Ret
  end_syscall pinfp ret = do
    pj ← load_proc pinfp
    store_proc pinfp (record pj { flags = bit_clear flag_insyscall pj.flags })
    pure ret

  unfoldable pub trace_syscall_exiting : ℕ → Cmd Ret
  unfolding socket_exit end_syscall
  trace_syscall_exiting pinfp = do
    pi ← load_proc pinfp
    if pi.csn == sys_exit || pi.csn == sys_exit_group
        then end_syscall pinfp failure
        else if pi.csn == sys_socket
        then socket_exit pinfp pi.pid >> end_syscall pinfp success
        else end_syscall pinfp success

  unfoldable pub trace_syscall : ⦃libc : Libc⦄ → Config → ℕ → Cmd Ret
  unfolding exiting
  trace_syscall cfg pinfp = do
    out ← exiting pinfp
    if out then trace_syscall_exiting pinfp else trace_syscall_entering cfg pinfp

  -- From the label `end`.
  pub resume_child : ℕ → ℕ → Cmd Round
  resume_child pinfp sig = do
    pi ← load_proc pinfp
    errno ← call (λ s. resume s pi.pid sig)
    pure (if errno == 0 then none else if errno == esrch then none else some failure)

  -- `if (pinfp->flags & FLAG_STARTUP)`
  pub start_up : ℕ → ℕ → Cmd (Unit {0})
  start_up pinfp child = do
    pi ← load_proc pinfp
    if not (bit_test flag_startup pi.flags) then pure tt else do
      store_proc pinfp (record pi { flags = bit_clear flag_startup pi.flags })
      errno ← call (λ s. setoptions s child)
      if errno == 0 then pure tt else exit errno

  pub traced : Ret → ℕ → Cmd Round
  unfolding resume_child
  traced failure pinfp = pure none
  traced success pinfp = resume_child pinfp 0

  -- A stop by SIGTRAP, or by a signal whose siginfo cannot be had.
  pub stopped_at_call : ⦃libc : Libc⦄ → Config → ℕ → Cmd Round
  unfolding traced
  stopped_at_call cfg pinfp = do ret ← trace_syscall cfg pinfp; traced ret pinfp

  pub dispatch : ⦃libc : Libc⦄ → Config → ℕ → ℕ → ℕ → Cmd Round
  unfolding resume_child stopped_at_call wifexited wifsignaled wifstopped wstopsig
  dispatch cfg pinfp child status =
      if not (status / 2 ^ 16 == 0)
      then resume_child pinfp 0
      else if wifsignaled status || wifexited status || not (wifstopped status)
      then pure none
      else if wstopsig status == sigstop
      then resume_child pinfp 0
      else if wstopsig status == sigtrap
      then stopped_at_call cfg pinfp
      else do
        known ← ask (λ s. getsiginfo s child)
        if known then resume_child pinfp (wstopsig status) else stopped_at_call cfg pinfp

  pub find_or_alloc : ℕ → Option ℕ → Cmd ℕ
  find_or_alloc child none = alloc_proc_info child
  find_or_alloc child (some pinfp) = pure pinfp

  pub on_event : ⦃libc : Libc⦄ → Config → Option (ℕ × ℕ) → Cmd Round
  unfolding start_up dispatch find_or_alloc
  on_event cfg none = pure (some success)
  on_event cfg (some (child, status)) = do
    found ← find_proc_info child
    pinfp ← find_or_alloc child found
    start_up pinfp child
    dispatch cfg pinfp child status

  unfoldable pub trace_round : ⦃libc : Libc⦄ → Config → Cmd Round
  unfolding on_event
  trace_round cfg = do event ← call wait; on_event cfg event

  pub next_round : Round → Cmd Ret → Cmd Ret
  next_round none again = again
  next_round (some ret) again = pure ret

  -- do_trace, for at most `fuel` rounds.
  unfoldable pub do_trace : ⦃libc : Libc⦄ → Config → ℕ → Cmd Ret
  unfolding next_round
  do_trace cfg zero w = out_of_fuel
  do_trace cfg (suc fuel) w =
      (trace_round cfg >>= λ r w'. next_round r (λ v. do_trace cfg fuel v) w') w
