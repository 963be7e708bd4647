-- ===== src/Trace/Reuse.antt =====
-- A pid that the kernel gives out again, as do_trace of main.c, which frees no proc_info, sees it.
use graftcp.Prelude.{
  ℕ, ◌+◌, ◌*◌, ◌/◌, ◌^◌, ◌<◌, not, ◌≡◌, refl, arith, true, false, ◌||◌, some, none, ◌==◌, bit_test,
  bit_set, bit_clear,
}
use graftcp.Kernel.{Kernel}
use graftcp.Uthash.{Uthash, int_key}
use graftcp.World.{World, done, ProcInfo, ◌>>◌, load_proc, store_proc, update, update_self}
use graftcp.Tables.{find_proc_info}
use graftcp.Tracee.{get_syscall_number}
use graftcp.Address.{Libc}
use graftcp.Handlers.{Config}
use graftcp.Trace.{
  failure, flag_startup, flag_insyscall, sys_exit, sys_exit_group, sigtrap, wifexited, wifsignaled,
  wifstopped, wstopsig, exiting, end_syscall, entering_switch, trace_syscall, trace_syscall_exiting,
  start_up, find_or_alloc, dispatch, stopped_at_call, traced, on_event,
}
use graftcp.Trace.Lifecycle.{at_entry, inside, goes_on, trace_syscall-enters, insyscall_set}

startup_kept :
    (v : ℕ)
    → bit_test flag_startup v ≡ false
    → bit_test flag_startup (bit_set flag_insyscall v) ≡ false
startup_kept v h = ground arith

-- The status of a stop by SIGTRAP.
abbrev pub trap_stop : ℕ
trap_stop = sigtrap * 256 + 0x7f

module _ ⦃kernel : Kernel⦄ ⦃uthash : Uthash⦄ ⦃libc : Libc⦄ (cfg : Config) (w : World) (pinfp : ℕ)
    (pi : ProcInfo) (live : w.procs pinfp ≡ some pi) where
  leaves_end :
      bit_test flag_insyscall pi.flags ≡ true
      → (pi.csn == sys_exit || pi.csn == sys_exit_group) ≡ true
      → (r : World) × (trace_syscall cfg pinfp w ≡ done failure r) × (r.system ≡ w.system)
  unfolding trace_syscall trace_syscall_exiting exiting end_syscall load_proc store_proc
  leaves_end in_ last = (
    record w {
      procs = update w.procs pinfp (some (record pi { flags = bit_clear flag_insyscall pi.flags }));
    },
    simp (live, in_, last),
    refl,
  )

  stopped_in_end :
      bit_test flag_insyscall pi.flags ≡ true
      → bit_test flag_startup pi.flags ≡ false
      → (pi.csn == sys_exit || pi.csn == sys_exit_group) ≡ true
      → uthash.find w.proc_info_tab (int_key pi.pid) ≡ some pinfp
      → (r : World) × (on_event cfg (some (pi.pid, trap_stop)) w ≡ done none r)
        × (r.system ≡ w.system)
  unfolding on_event start_up dispatch find_or_alloc find_proc_info stopped_at_call traced load_proc
      wifexited wifsignaled wifstopped wstopsig
  stopped_in_end in_ old last found =
      let (r, run, same) = leaves_end in_ last in (r, simp (found, live, old, run), same)

module _ ⦃kernel : Kernel⦄ ⦃uthash : Uthash⦄ ⦃libc : Libc⦄ where
  exit_seen :
      (cfg : Config) (w : World) (pinfp : ℕ) (pi : ProcInfo) (code : ℕ)
      → w.procs pinfp ≡ some pi
      → uthash.find w.proc_info_tab (int_key pi.pid) ≡ some pinfp
      → bit_test flag_startup pi.flags ≡ false
      → code < 2 ^ 8
      → on_event cfg (some (pi.pid, code * 2 ^ 8)) w ≡ done none w
  unfolding on_event start_up dispatch find_or_alloc find_proc_info load_proc wifexited wifsignaled
      wifstopped wstopsig
  exit_seen cfg w pinfp pi code live found old small =
      let plain : not (code * 2 ^ 8 / 2 ^ 16 == 0) ≡ false = ground arith in
      let over : (wifsignaled (code * 2 ^ 8)
            || wifexited (code * 2 ^ 8)
            || not (wifstopped (code * 2 ^ 8)))
          ≡ true =
        ground arith in
      simp (found, live, old, plain, over)

  -- A process that the table knows, and that is between two system calls, enters exit_group,
  -- and wait then reports that it has exited, with any code. When a process with the same pid
  -- later stops at a system call, the tracer takes this for the exit of exit_group: it does
  -- nothing, and goes on to the next event without the PTRACE_SYSCALL that would let the
  -- process run again. (k and l are the kernel's states behind the two calls of wait.)
  pub reused_pid-left :
      (cfg : Config) (w : World) (pinfp : ℕ) (pi : ProcInfo) (code : ℕ) (k l : kernel.State)
      → w.procs pinfp ≡ some pi
      → uthash.find w.proc_info_tab (int_key pi.pid) ≡ some pinfp
      → bit_test flag_insyscall pi.flags ≡ false
      → bit_test flag_startup pi.flags ≡ false
      → get_syscall_number w.system pi.pid ≡ sys_exit_group
      → code < 2 ^ 8
      → (r : World) × ((trace_syscall cfg pinfp
              >> goes_on k
              >> on_event cfg (some (pi.pid, code * 2 ^ 8))
              >> goes_on l
              >> on_event cfg (some (pi.pid, trap_stop)))
            w
          ≡ done none r)
        × (r.system ≡ l)
  unfolding entering_switch
  reused_pid-left cfg w pinfp pi code k l live found out old number small =
      let entered = at_entry cfg w pinfp pi live sys_exit_group in
      let ended = inside cfg w pinfp pi live sys_exit_group in
      let enter =
        trace_syscall-enters cfg w pinfp pi live sys_exit_group entered out number refl refl in
      let w1 = record w { procs = update w.procs pinfp (some ended); system = k } in
      let there = update_self w.procs pinfp (some ended) in
      let exited =
        exit_seen cfg w1 pinfp ended code there found (startup_kept pi.flags old) small in
      let (r, run, same) =
        stopped_in_end cfg (record w1 { system = l }) pinfp ended there (insyscall_set pi.flags)
          (startup_kept pi.flags old) refl found in
      (r, rw (enter, exited) run, same)
