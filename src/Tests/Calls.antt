-- ===== src/Tests/Calls.antt =====
-- The handlers and the loop, on sample worlds.
use graftcp.Prelude.{
  ℕ, ◌+◌, ◌^◌, ◌<◌, ◌%◌, ◌/◌, ◌≡◌, ◌↔◌, refl, arith, true, false, some, none, [], ◌∷◌, AreBytes,
  bit_test, bytes_eq,
}
use graftcp.Uthash.{int_key}
use graftcp.Uthash.Chain.{chain_table, chain_laws, chain_find}
use graftcp.World.{World, done, ◌>>◌, update}
use graftcp.Tracee.{get_syscall_arg}
use graftcp.Address.{inet_ntoa, decimal}
use graftcp.StringSet.{StrSet, is_str_set_member, find_member}
use graftcp.Filter.{is_ignore}
use graftcp.Handlers.Outcomes.{pending_socket}
use graftcp.Handlers.{
  Config, connect_pre_handle, close_pre_handle, socket_pre_handle, socket_exiting_handle,
  clone_pre_handle, socket_key, pending_key, not_tcp, clone_untraced,
}
use graftcp.Handlers.Connect.{destination}
use graftcp.Handlers.Redirect.{Grafts, connect_pre_handle-Grafts}
use graftcp.Handlers.Keys.{socket_key_collisions}
use graftcp.Handlers.Sockets.{find-socket, close-parity}
use graftcp.Handlers.Clone.{clone_pre_handle-flags}
use graftcp.Handlers.Close.{close_pre_handle-delay, micros}
use graftcp.Trace.{trace_syscall}
use graftcp.Trace.Calls.{CallOutcome, trace_syscall-outcome}
use graftcp.Tests.Machine.{
  machine, machine_memory, machine_fifo, machine_registers, machine_clock, machine_schedule,
}
use graftcp.Tests.Samples.{
  libc, ten_0_0_1, goes_to, proxy_sockaddr, config, stopped, process, socket, without_socket,
  with_socket, with_socket-IsConsistent, process-live, are_bytes-AreBytes,
}

abbrev at_connect : World
at_connect = with_socket (stopped 4 4096 42 [])

abbrev at_socket : World
at_socket = without_socket (stopped 2 1 41 [])

-- Descriptor 6 is closed.
abbrev at_close : World
at_close = with_socket (stopped 6 0 3 [])

abbrev at_clone : World
at_clone = without_socket (stopped 0x800011 0 56 [])

-- Two stops by SIGTRAP of process 100, then the exit of process 101.
abbrev pub at_start : World
at_start = with_socket (stopped 4 4096 42 ((100, 0x57f) ∷ (100, 0x57f) ∷ (101, 0) ∷ []))

proxy-AreBytes : AreBytes proxy_sockaddr
proxy-AreBytes = are_bytes-AreBytes proxy_sockaddr refl

socket-here : at_connect.sockets 2 ≡ some socket
unfolding update
socket-here = refl

connect_arg-eq : get_syscall_arg at_connect.system 100 1 ≡ 4096
unfolding get_syscall_arg
connect_arg-eq = refl

connect_found :
    chain_table.find at_connect.socket_info_tab
      (int_key (socket_key (get_syscall_arg at_connect.system 100 0 % 2 ^ 32) 100))
    ≡ some 2
unfolding get_syscall_arg socket_key chain_find
connect_found = refl

not_ignored : is_ignore config.lists ten_0_0_1.ip ≡ false
unfolding is_ignore
not_ignored = refl

connect_pre_handle-Grafts_example :
    (r : World) × (connect_pre_handle config 1 at_connect ≡ done tt r)
    × Grafts at_connect.system 100 4096 ten_0_0_1 r.system
    × (r.sockets 2 ≡ some (record socket { conn_ti = machine.gettimeofday r.system }))
    × (r.socket_info_tab ≡ at_connect.socket_info_tab)
    × (r.proc_info_tab ≡ at_connect.proc_info_tab)
connect_pre_handle-Grafts_example =
    connect_pre_handle-Grafts config at_connect 1 2 process socket 4096 ten_0_0_1 process-live
      connect_found socket-here connect_arg-eq goes_to not_ignored (omega arith) (λ i h. refl)
      proxy-AreBytes refl

trace_syscall-outcome_example :
    CallOutcome at_connect
      (with_socket-IsConsistent at_connect.system)
      1
      process
      process-live
      false
      (trace_syscall config 1 at_connect)
trace_syscall-outcome_example =
    trace_syscall-outcome at_connect (with_socket-IsConsistent at_connect.system) 1 process
      process-live config

tcp :
    not_tcp
      (get_syscall_arg at_socket.system 100 1 % 2 ^ 32)
      (get_syscall_arg at_socket.system 100 0 % 2 ^ 32)
    ≡ false
unfolding get_syscall_arg not_tcp
tcp = refl

unused : (k : ℕ) → chain_table.find at_socket.socket_info_tab k ≡ none
unfolding chain_find
unused k = refl

find-socket_example :
    (r : World) × ((socket_pre_handle 1 >> socket_exiting_handle 1 4) at_socket ≡ done tt r)
    × (chain_table.find r.socket_info_tab (int_key (socket_key 4 100)) ≡ some 2)
    × (r.sockets 2
        ≡ some
            (record (pending_socket at_socket.system 100) { fd = 4; magic_fd = socket_key 4 100 }))
find-socket_example =
    find-socket at_socket 1 4 process process-live tcp (unused (int_key (pending_key 100)))
      (unused (int_key (socket_key 4 100)))

key_of_four : chain_table.find at_close.socket_info_tab (int_key (socket_key 4 100)) ≡ some 2
unfolding socket_key chain_find
key_of_four = refl

closes_six : get_syscall_arg at_close.system 100 0 % 2 ^ 32 ≡ 6
unfolding get_syscall_arg
closes_six = refl

close-parity_example :
    (r : World) × (close_pre_handle 1 at_close ≡ done tt r)
    × (r.sockets 2 ≡ none)
    × ((k : ℕ) → chain_laws.holds r.socket_info_tab k 2 ≡ false)
close-parity_example =
    close-parity at_close 1 4 6 2 process socket process-live (omega arith) key_of_four socket-here
      closes_six refl

close_found :
    chain_table.find at_close.socket_info_tab
      (int_key (socket_key (get_syscall_arg at_close.system 100 0 % 2 ^ 32) 100))
    ≡ some 2
unfolding get_syscall_arg socket_key chain_find
close_found = refl

close_pre_handle-delay_example :
    (r : World) × (close_pre_handle 1 at_close ≡ done tt r)
    × (micros socket.conn_ti + 499000 < micros (machine.gettimeofday r.system))
close_pre_handle-delay_example =
    close_pre_handle-delay at_close 1 2 process socket process-live close_found socket-here
      (omega arith) (omega arith) (omega arith)

clone_pre_handle-flags_example :
    (r : World) × (clone_pre_handle 1 at_clone ≡ done tt r)
    × (bit_test clone_untraced (get_syscall_arg r.system 100 0) ≡ false)
    × (get_syscall_arg r.system 100 0 % 2 ^ 23 ≡ get_syscall_arg at_clone.system 100 0 % 2 ^ 23)
    × (get_syscall_arg r.system 100 0 / 2 ^ 24 ≡ get_syscall_arg at_clone.system 100 0 / 2 ^ 24)
    × (get_syscall_arg r.system 100 1 ≡ get_syscall_arg at_clone.system 100 1)
clone_pre_handle-flags_example = clone_pre_handle-flags at_clone 1 process process-live

socket_key_collisions_example :
    ((int_key (socket_key 4 100) ≡ int_key (socket_key 6 100))
      ↔ ((process.pid ≡ process.pid) × (4 % 2 ≡ 6 % 2)))
    × ((int_key (socket_key 4 100) ≡ int_key (pending_key 100))
        ↔ ((process.pid ≡ process.pid) × (4 % 2 ≡ 1)))
socket_key_collisions_example = socket_key_collisions 4 6 100 100 (omega arith) (omega arith)

-- 10.0.0.1 stands in the black list.
abbrev blacklist : StrSet
blacklist = record {
  address = 0;
  length = 1;
  size = 1;
  buckets =
      (record { address = 1; element = record { address = 2; chars = ten_0_0_1.ip } } ∷ []) ∷ [];
}

abbrev with_blacklist : Config
with_blacklist = record config {
  lists = record { blacklist_ip = some blacklist; whitelacklist_ip = none };
}

in_blacklist : is_ignore with_blacklist.lists ten_0_0_1.ip ≡ true
unfolding is_ignore is_str_set_member find_member inet_ntoa decimal bytes_eq
in_blacklist = refl

goes_to_blacklisted : destination with_blacklist at_connect.system 100 4096 ≡ some ten_0_0_1
unfolding destination
goes_to_blacklisted = goes_to
