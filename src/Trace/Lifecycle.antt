-- ===== src/Trace/Lifecycle.antt =====
-- A connection from socket(2) to connect(2), over the system call stops of a process that
-- trace_syscall of main.c answers one by one.
use graftcp.Prelude.{
  ℕ, ◌+◌, ◌^◌, ◌≤◌, ◌≡◌, refl, ◌∙◌, ap, arith, true, false, Option, none, some, AreBytes, length,
  replicate, bit_test, bit_set, bit_clear, int_of_long,
}
use graftcp.Kernel.{Kernel}
use graftcp.Uthash.{Uthash, UthashLaws, int_key}
use graftcp.World.{
  World, Cmd, done, SocketInfo, ProcInfo, ◌>>◌, load_proc, store_proc, ask, update, update_self,
  update-update,
}
use graftcp.Tracee.{get_syscall_number, get_retval, get_syscall_arg, putdata}
use graftcp.Tracee.Memory.{MemoryLaws, Reachable}
use graftcp.Tracee.Fifo.{FifoLaws}
use graftcp.Address.{Libc, fifo_line}
use graftcp.Filter.{is_ignore}
use graftcp.Handlers.{Config, socket_key, pending_key, not_tcp, socket_exiting_handle}
use graftcp.Handlers.Outcomes.{
  arg_type, arg_domain, pending_socket, found_socket, socket_pre_handle-tcp,
  socket_exiting_handle-some,
}
use graftcp.Handlers.Sockets.{find-add, find-add-del}
use graftcp.Handlers.Connect.{Destination, destination, redirected, connect_pre_handle-redirected}
use graftcp.Handlers.Redirect.{Grafts, announced-Grafts}
use graftcp.Trace.{
  success, flag_insyscall, sys_socket, sys_connect, entering_switch, trace_syscall,
  trace_syscall_entering, trace_syscall_exiting, exiting, socket_exit, end_syscall,
}

module _ ⦃kernel : Kernel⦄ ⦃uthash : Uthash⦄ where
  -- What the process and the system do until the next stop.
  abbrev pub goes_on : kernel.State → Cmd (Unit {0})
  goes_on k w = done tt (record w { system = k })

  module _ ⦃libc : Libc⦄ (cfg : Config) (w : World) (pinfp : ℕ) (pi : ProcInfo)
      (live : w.procs pinfp ≡ some pi) where
    abbrev pub at_entry : ℕ → World
    at_entry csn = record w { procs = update w.procs pinfp (some (record pi { csn = csn })) }

    abbrev pub inside : ℕ → ProcInfo
    inside csn = record pi { csn = csn; flags = bit_set flag_insyscall pi.flags }

    pub trace_syscall-enters :
        (csn : ℕ) (v : World)
        → bit_test flag_insyscall pi.flags ≡ false
        → get_syscall_number w.system pi.pid ≡ csn
        → entering_switch cfg pinfp csn (at_entry csn) ≡ done tt v
        → v.procs ≡ (at_entry csn).procs
        → trace_syscall cfg pinfp w
          ≡ done success (record v { procs = update w.procs pinfp (some (inside csn)) })
    unfolding trace_syscall trace_syscall_entering exiting load_proc store_proc ask
    trace_syscall-enters csn v out number run same =
        let here : v.procs pinfp ≡ some (record pi { csn = csn }) =
          ap (λ (f : ℕ → Option ProcInfo). f pinfp) same ∙ update_self w.procs pinfp _ in
        let stored : update v.procs pinfp (some (inside csn))
            ≡ update w.procs pinfp (some (inside csn)) =
          ap (λ (f : ℕ → Option ProcInfo). update f pinfp (some (inside csn))) same
          ∙ update-update w.procs pinfp _ (some (inside csn)) in
        let side : trace_syscall cfg pinfp w ≡ trace_syscall_entering cfg pinfp w =
          simp (live, out) in
        let left : trace_syscall_entering cfg pinfp w
            ≡ done success (record v { procs = update v.procs pinfp (some (inside csn)) }) =
          simp (live, number, run, here) in
        side ∙ left ∙ ap (λ (f : ℕ → Option ProcInfo). done success (record v { procs = f })) stored

    abbrev pub outside : ProcInfo
    outside = record pi { flags = bit_clear flag_insyscall pi.flags }

    pub trace_syscall-leaves_socket :
        (fd : ℕ) (v : World)
        → bit_test flag_insyscall pi.flags ≡ true
        → pi.csn ≡ sys_socket
        → get_retval w.system pi.pid ≡ (fd, 0)
        → socket_exiting_handle pinfp fd w ≡ done tt v
        → v.procs ≡ w.procs
        → trace_syscall cfg pinfp w
          ≡ done success (record v { procs = update w.procs pinfp (some outside) })
    unfolding trace_syscall trace_syscall_exiting exiting socket_exit end_syscall load_proc
        store_proc ask
    trace_syscall-leaves_socket fd v in_ number ret run same =
        let here : v.procs pinfp ≡ some pi =
          ap (λ (f : ℕ → Option ProcInfo). f pinfp) same ∙ live in
        simp (live, in_, number, ret, run, here, same)

    -- The entry of socket(2).
    opening :
        bit_test flag_insyscall pi.flags ≡ false
        → get_syscall_number w.system pi.pid ≡ sys_socket
        → not_tcp (arg_type w.system pi.pid) (arg_domain w.system pi.pid) ≡ false
        → trace_syscall cfg pinfp w
          ≡ done success (record w {
            sockets = update w.sockets w.brk (some (pending_socket w.system pi.pid));
            brk = w.brk + 1;
            socket_info_tab = uthash.add w.socket_info_tab (int_key (pending_key pi.pid)) w.brk;
            procs = update w.procs pinfp (some (inside sys_socket));
          })
    unfolding entering_switch
    opening out number tcp =
        trace_syscall-enters sys_socket _ out number
          (socket_pre_handle-tcp (at_entry sys_socket) pinfp _ (update_self w.procs pinfp _) tcp)
          refl

    -- The exit of socket(2).
    opened :
        (fd si : ℕ) (s : SocketInfo)
        → bit_test flag_insyscall pi.flags ≡ true
        → pi.csn ≡ sys_socket
        → get_retval w.system pi.pid ≡ (fd, 0)
        → uthash.find w.socket_info_tab (int_key (pending_key pi.pid)) ≡ some si
        → w.sockets si ≡ some s
        → trace_syscall cfg pinfp w
          ≡ done success (record w {
            sockets =
                update w.sockets si (some (record s { fd = fd; magic_fd = socket_key fd pi.pid }));
            socket_info_tab =
                uthash.add (uthash.del w.socket_info_tab si) (int_key (socket_key fd pi.pid)) si;
            procs = update w.procs pinfp (some outside);
          })
    opened fd si s in_ number ret found here =
        trace_syscall-leaves_socket fd _ in_ number ret
          (socket_exiting_handle-some w pinfp pi live fd si s found here) refl

    -- The entry of connect(2).
    connecting :
        (si addr : ℕ) (s : SocketInfo) (d : Destination)
        → bit_test flag_insyscall pi.flags ≡ false
        → get_syscall_number w.system pi.pid ≡ sys_connect
        → found_socket w pi.pid ≡ some si
        → w.sockets si ≡ some s
        → get_syscall_arg w.system pi.pid 1 ≡ addr
        → destination cfg w.system pi.pid addr ≡ some d
        → is_ignore cfg.lists d.ip ≡ false
        → trace_syscall cfg pinfp w
          ≡ done success (record (redirected w pi.pid si s addr d) {
            procs = update w.procs pinfp (some (inside sys_connect));
          })
    unfolding entering_switch
    connecting si addr s d out number found here arg to e =
        trace_syscall-enters sys_connect _ out number
          (connect_pre_handle-redirected cfg (at_entry sys_connect) pinfp si _ s addr
            (update_self w.procs pinfp _) found here arg d to e)
          refl

pub insyscall_set : (v : ℕ) → bit_test flag_insyscall (bit_set flag_insyscall v) ≡ true
insyscall_set v = ground arith

insyscall_clear : (v : ℕ) → bit_test flag_insyscall (bit_clear flag_insyscall v) ≡ false
insyscall_clear v = ground arith

module _ ⦃kernel : Kernel⦄ ⦃memory : MemoryLaws⦄ ⦃fifo : FifoLaws⦄ ⦃uthash : Uthash⦄
    ⦃laws : UthashLaws⦄ ⦃libc : Libc⦄ where
  -- A process opens a TCP socket, gets the descriptor fd for it, and connects it to a destination
  -- that the lists do not exclude, with nothing else between these three stops, and neither key
  -- taken before: the tracer completes each stop, and then the process's address argument holds the
  -- proxy's address and the fifo has the original destination; the socket is in the table under the
  -- key of fd, with the time of the connect.
  pub socket-connect-Grafts :
      (cfg : Config) (w : World) (pinfp fd addr : ℕ) (pi : ProcInfo) (k1 k2 : kernel.State)
      (d : Destination)
      → w.procs pinfp ≡ some pi
      → bit_test flag_insyscall pi.flags ≡ false
      → get_syscall_number w.system pi.pid ≡ sys_socket
      → not_tcp (arg_type w.system pi.pid) (arg_domain w.system pi.pid) ≡ false
      → uthash.find w.socket_info_tab (int_key (pending_key pi.pid)) ≡ none
      → uthash.find w.socket_info_tab (int_key (socket_key fd pi.pid)) ≡ none
      → get_retval k1 pi.pid ≡ (fd, 0)
      → get_syscall_number k2 pi.pid ≡ sys_connect
      → int_of_long (get_syscall_arg k2 pi.pid 0) ≡ fd
      → get_syscall_arg k2 pi.pid 1 ≡ addr
      → destination cfg k2 pi.pid addr ≡ some d
      → is_ignore cfg.lists d.ip ≡ false
      → addr + length d.proxy + 8 ≤ 2 ^ 64
      → Reachable k2 pi.pid addr (length d.proxy)
      → AreBytes d.proxy
      → (kernel.write_fifo
          (putdata (replicate 8 0) k2 pi.pid addr d.proxy (length d.proxy))
          (fifo_line d.ip d.port pi.pid)).0
        ≡ true
      → (r : World) × ((trace_syscall cfg pinfp
              >> goes_on k1
              >> trace_syscall cfg pinfp
              >> goes_on k2
              >> trace_syscall cfg pinfp)
            w
          ≡ done success r)
        × Grafts k2 pi.pid addr d r.system
        × (uthash.find r.socket_info_tab (int_key (socket_key fd pi.pid)) ≡ some w.brk)
        × (r.sockets w.brk
            ≡ some (record (pending_socket w.system pi.pid) {
              fd = fd;
              magic_fd = socket_key fd pi.pid;
              conn_ti = kernel.gettimeofday r.system;
            }))
  socket-connect-Grafts cfg w pinfp fd addr pi k1 k2 d live out opens tcp free taken returned
        connects arg0 arg1 to e fits m h sent =
      let key = int_key (socket_key fd pi.pid) in
      let waiting = int_key (pending_key pi.pid) in
      let pending = pending_socket w.system pi.pid in
      let p1 = inside cfg w pinfp pi live sys_socket in
      let w1 = record w {
        system = k1;
        sockets = update w.sockets w.brk (some pending);
        brk = w.brk + 1;
        socket_info_tab = uthash.add w.socket_info_tab waiting w.brk;
        procs = update w.procs pinfp (some p1);
      } in
      let live1 = update_self w.procs pinfp (some p1) in
      let s2 = record pending { fd = fd; magic_fd = socket_key fd pi.pid } in
      let p2 = record p1 { flags = bit_clear flag_insyscall p1.flags } in
      let found2 = find-add-del w.socket_info_tab key w.brk waiting taken in
      let w2 = record w1 {
        system = k2;
        sockets = update w1.sockets w.brk (some s2);
        socket_info_tab = uthash.add (uthash.del w1.socket_info_tab w.brk) key w.brk;
        procs = update w1.procs pinfp (some p2);
      } in
      (
        record (redirected w2 pi.pid w.brk s2 addr d) {
          procs =
              update w2.procs pinfp
                (some (inside cfg w2 pinfp p2 (update_self w1.procs pinfp (some p2)) sys_connect));
        },
        rw
            (
              opening cfg w pinfp pi live out opens tcp,
              opened cfg w1 pinfp p1 live1 fd w.brk pending (insyscall_set pi.flags) refl returned
                  (find-add w.socket_info_tab waiting w.brk free) (update_self w.sockets w.brk _),
            )
            (connecting cfg w2 pinfp p2 (update_self w1.procs pinfp (some p2)) w.brk addr s2 d
              (insyscall_clear p1.flags) connects
              (ap (λ (g : ℕ). uthash.find w2.socket_info_tab (int_key (socket_key g pi.pid))) arg0
                ∙ found2)
              (update_self w1.sockets w.brk _) arg1 to e),
        announced-Grafts k2 pi.pid addr d fits m h sent,
        found2,
        update_self w2.sockets w.brk _,
      )
