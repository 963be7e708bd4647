-- ===== src/Tests/Lifecycle.antt =====
-- A connection from socket(2) to connect(2), and the answer to an event, on samples: the new
-- descriptor is 0.
use graftcp.Prelude.{ℕ, ◌%◌, ◌^◌, ◌≡◌, refl, arith, false, some, none, [], le_bytes, le_word}
use graftcp.Uthash.{int_key}
use graftcp.Uthash.Chain.{chain_table, chain_laws, chain_find}
use graftcp.World.{World, done, ◌>>◌}
use graftcp.Tracee.{get_syscall_arg, get_syscall_number, get_retval, getdata}
use graftcp.Tracee.Memory.{bytes_at}
use graftcp.Address.{inet_ntoa, sa_family, sa_port, sin_addr, decimal}
use graftcp.Filter.{is_ignore}
use graftcp.Handlers.{socket_key, pending_key, not_tcp}
use graftcp.Handlers.Outcomes.{pending_socket}
use graftcp.Handlers.Connect.{destination}
use graftcp.Handlers.Redirect.{Grafts}
use graftcp.Trace.{success, trace_syscall, on_event}
use graftcp.Trace.Ends.{Ends}
use graftcp.Trace.Phases.{phase_of}
use graftcp.Trace.Rounds.{EventAnswer, EventExit, on_event-answers}
use graftcp.Trace.Lifecycle.{goes_on, socket-connect-Grafts}
use graftcp.Tests.Machine.{Machine, machine, machine_memory, machine_fifo}
use graftcp.Tests.Samples.{
  libc, ten_0_0_1, proxy_sockaddr, config, stopped, process, without_socket, with_socket,
  with_socket-IsConsistent, process-live, are_bytes-AreBytes,
}

abbrev at_socket : World
at_socket = without_socket (stopped 2 1 41 [])

abbrev at_return : Machine
at_return = stopped 0 0 41 []

abbrev at_connect : Machine
at_connect = stopped 0 4096 42 []

calls_socket : get_syscall_number at_socket.system 100 ≡ 41
unfolding get_syscall_number
calls_socket = refl

opens_tcp :
    not_tcp
      (get_syscall_arg at_socket.system 100 1 % 2 ^ 32)
      (get_syscall_arg at_socket.system 100 0 % 2 ^ 32)
    ≡ false
unfolding get_syscall_arg not_tcp
opens_tcp = refl

unused : (k : ℕ) → chain_table.find at_socket.socket_info_tab k ≡ none
unfolding chain_find
unused k = refl

returns_zero : get_retval at_return 100 ≡ (0, 0)
unfolding get_retval
returns_zero = refl

calls_connect : get_syscall_number at_connect 100 ≡ 42
unfolding get_syscall_number
calls_connect = refl

connects_zero : get_syscall_arg at_connect 100 0 % 2 ^ 32 ≡ 0
unfolding get_syscall_arg
connects_zero = refl

connects_to : get_syscall_arg at_connect 100 1 ≡ 4096
unfolding get_syscall_arg
connects_to = refl

goes_to_ten : destination config at_connect 100 4096 ≡ some ten_0_0_1
unfolding destination sa_family sa_port sin_addr getdata inet_ntoa decimal le_bytes le_word bytes_at
goes_to_ten = refl

not_listed : is_ignore config.lists ten_0_0_1.ip ≡ false
unfolding is_ignore
not_listed = refl

socket-connect-Grafts_example :
    (r : World) × ((trace_syscall config 1
          >> goes_on at_return
          >> trace_syscall config 1
          >> goes_on at_connect
          >> trace_syscall config 1)
        at_socket
      ≡ done success r)
    × Grafts at_connect 100 4096 ten_0_0_1 r.system
    × (chain_table.find r.socket_info_tab (int_key (socket_key 0 100)) ≡ some 2)
    × (r.sockets 2
        ≡ some (record (pending_socket at_socket.system 100) {
          fd = 0;
          magic_fd = socket_key 0 100;
          conn_ti = machine.gettimeofday r.system;
        }))
socket-connect-Grafts_example =
    socket-connect-Grafts config at_socket 1 0 4096 process at_return at_connect ten_0_0_1
      process-live refl calls_socket opens_tcp (unused (int_key (pending_key 100)))
      (unused (int_key (socket_key 0 100))) returns_zero calls_connect connects_zero connects_to
      goes_to_ten not_listed (omega arith) (λ i h. refl) (are_bytes-AreBytes proxy_sockaddr refl)
      refl

-- A stop by SIGTRAP of process 100.
on_event-answers_example :
    Ends
      (with_socket at_connect)
      (EventExit config (some (100, 0x57f)) at_connect (phase_of (with_socket at_connect)))
      (EventAnswer config (some (100, 0x57f)) at_connect (phase_of (with_socket at_connect)))
      (on_event config (some (100, 0x57f)) (with_socket at_connect))
on_event-answers_example =
    on_event-answers config (with_socket at_connect) (with_socket-IsConsistent at_connect)
      (some (100, 0x57f))
