-- ===== src/Tests/Sharing.antt =====
-- Two processes with one descriptor, and a pid that is given out again, on samples.
use graftcp.Prelude.{ℕ, ◌%◌, ◌^◌, ◌*◌, ◌≡◌, refl, arith, false, some, none, []}
use graftcp.Uthash.{int_key}
use graftcp.Uthash.Chain.{chain_table, chain_laws, chain_find}
use graftcp.World.{World, ProcInfo, done, ◌>>◌, run, update}
use graftcp.Tracee.{get_syscall_arg, get_syscall_number}
use graftcp.Handlers.{
  socket_key, pending_key, not_tcp, socket_pre_handle, socket_exiting_handle, connect_pre_handle,
}
use graftcp.Handlers.Sharing.{connect-other_process}
use graftcp.Trace.{trace_syscall, on_event}
use graftcp.Trace.Lifecycle.{goes_on}
use graftcp.Trace.Reuse.{trap_stop, reused_pid-left}
use graftcp.Tests.Machine.{Machine, machine}
use graftcp.Tests.Samples.{libc, config, stopped, process, procs_heap, without_socket, process-live}

-- A second thread of process 100.
abbrev thread : ProcInfo
thread = record { pid = 101; flags = 0; csn = 0; cws = 0 }

abbrev both : World
both = record (without_socket (stopped 2 1 41 [])) {
  procs = update procs_heap 2 (some thread);
  brk = 3;
}

process_there : both.procs 1 ≡ some process
unfolding update
process_there = refl

thread_there : both.procs 2 ≡ some thread
unfolding update
thread_there = refl

opens_tcp :
    not_tcp
      (get_syscall_arg both.system 100 1 % 2 ^ 32)
      (get_syscall_arg both.system 100 0 % 2 ^ 32)
    ≡ false
unfolding get_syscall_arg not_tcp
opens_tcp = refl

unused : (k : ℕ) → chain_table.find both.socket_info_tab k ≡ none
unfolding chain_find
unused k = refl

abbrev at_connect : Machine
at_connect = stopped 4 4096 42 []

passes_four : get_syscall_arg at_connect 101 0 % 2 ^ 32 ≡ 4
unfolding get_syscall_arg
passes_four = refl

connect-other_process_example :
    (r : World) × ((socket_pre_handle 1
          >> socket_exiting_handle 1 4
          >> run (λ s. at_connect)
          >> connect_pre_handle config 2)
        both
      ≡ done tt r)
    × (r.system ≡ at_connect)
connect-other_process_example =
    connect-other_process config both 1 2 4 4 process thread at_connect process_there thread_there
      (omega arith) (omega arith) (ground arith) opens_tcp (unused (int_key (pending_key 100)))
      passes_four (unused (int_key (socket_key 4 101)))

abbrev at_exit_group : World
at_exit_group = without_socket (stopped 0 0 231 [])

ends : get_syscall_number at_exit_group.system 100 ≡ 231
unfolding get_syscall_number
ends = refl

known : chain_table.find at_exit_group.proc_info_tab (int_key 100) ≡ some 1
unfolding chain_find
known = refl

reused_pid-left_example :
    (r : World) × ((trace_syscall config 1
          >> goes_on (stopped 0 0 231 [])
          >> on_event config (some (100, 1 * 2 ^ 8))
          >> goes_on (stopped 0 0 2 [])
          >> on_event config (some (100, trap_stop)))
        at_exit_group
      ≡ done none r)
    × (r.system ≡ stopped 0 0 2 [])
reused_pid-left_example =
    reused_pid-left config at_exit_group 1 process 1 (stopped 0 0 231 []) (stopped 0 0 2 [])
      process-live known refl refl ends (omega arith)
