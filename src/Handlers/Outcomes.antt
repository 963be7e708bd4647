-- ===== src/Handlers/Outcomes.antt =====
-- What each handler of main.c comes to, branch by branch, as the world that it leaves.
use graftcp.Prelude.{
  ℕ, ◌+◌, ◌-◌, ◌*◌, ◌^◌, ◌≡◌, true, false, Option, none, some, ltb, if◌then◌else◌, int_of_long,
  bit_clear, Bool-cases, inl, inr,
}
use graftcp.Kernel.{Kernel}
use graftcp.Uthash.{Uthash, int_key}
use graftcp.World.{
  World, done, SocketInfo, ProcInfo, zero_socket, update, update_self, update-update, load_socket,
  load_proc, store_socket, calloc_socket, free_socket, ask, run,
}
use graftcp.Tables.{add_socket_info, del_socket_info, find_socket_info}
use graftcp.Tracee.{get_syscall_arg, offset_rdi}
use graftcp.Address.{Libc}
use graftcp.Handlers.{
  Config, socket_key, pending_key, not_tcp, elapsed_ms, min_close_msec, clone_untraced,
  socket_pre_handle, socket_exiting_handle, connect_pre_handle, connect_found, close_pre_handle,
  clone_pre_handle,
}

module _ ⦃kernel : Kernel⦄ ⦃uthash : Uthash⦄ where
  open uthash use {add, del, find}

  -- The domain and the type that a process passes to socket(2).
  abbrev pub arg_domain : kernel.State → ℕ → ℕ
  arg_domain s pid = int_of_long (get_syscall_arg s pid 0)

  abbrev pub arg_type : kernel.State → ℕ → ℕ
  arg_type s pid = int_of_long (get_syscall_arg s pid 1)

  -- The entry of a TCP socket whose descriptor is not known yet.
  abbrev pub pending_socket : kernel.State → ℕ → SocketInfo
  pending_socket s pid = record zero_socket {
    domain = arg_domain s pid;
    type = arg_type s pid;
    fd = 2 ^ 32 - 1;
    magic_fd = pending_key pid;
  }

  -- The table entry that connect and close look up for a process.
  abbrev pub found_socket : World → ℕ → Option ℕ
  found_socket w pid =
      find w.socket_info_tab
        (int_key (socket_key (int_of_long (get_syscall_arg w.system pid 0)) pid))

  -- The kernel after the sleep of a close at the given age of the connection.
  abbrev pub slept : kernel.State → ℕ → kernel.State
  slept k delta_ms =
      if ltb delta_ms min_close_msec
      then kernel.usleep k ((min_close_msec - delta_ms) * 1000)
      else k

  module _ (w : World) (pinfp : ℕ) (pi : ProcInfo) (live : w.procs pinfp ≡ some pi) where
    pub socket_pre_handle-tcp :
        not_tcp (arg_type w.system pi.pid) (arg_domain w.system pi.pid) ≡ false
        → socket_pre_handle pinfp w
          ≡ done tt (record w {
            sockets = update w.sockets w.brk (some (pending_socket w.system pi.pid));
            brk = w.brk + 1;
            socket_info_tab = add w.socket_info_tab (int_key (pending_key pi.pid)) w.brk;
          })
    unfolding socket_pre_handle calloc_socket load_proc ask load_socket store_socket add_socket_info
    socket_pre_handle-tcp tcp = simp (live, tcp, update_self, update-update)

    -- The struct of any other socket is freed again.
    pub socket_pre_handle-other :
        not_tcp (arg_type w.system pi.pid) (arg_domain w.system pi.pid) ≡ true
        → socket_pre_handle pinfp w
          ≡ done tt (record w { sockets = update w.sockets w.brk none; brk = w.brk + 1 })
    unfolding socket_pre_handle calloc_socket load_proc ask load_socket store_socket free_socket
    socket_pre_handle-other other = simp (live, other, update_self, update-update)

    pub socket_exiting_handle-none :
        (fd : ℕ)
        → find w.socket_info_tab (int_key (pending_key pi.pid)) ≡ none
        → socket_exiting_handle pinfp fd w ≡ done tt w
    unfolding socket_exiting_handle load_proc find_socket_info
    socket_exiting_handle-none fd lost = simp (live, lost)

    pub socket_exiting_handle-some :
        (fd si : ℕ) (s : SocketInfo)
        → find w.socket_info_tab (int_key (pending_key pi.pid)) ≡ some si
        → w.sockets si ≡ some s
        → socket_exiting_handle pinfp fd w
          ≡ done tt (record w {
            sockets =
                update w.sockets si (some (record s { fd = fd; magic_fd = socket_key fd pi.pid }));
            socket_info_tab = add (del w.socket_info_tab si) (int_key (socket_key fd pi.pid)) si;
          })
    unfolding socket_exiting_handle load_proc find_socket_info load_socket store_socket
        del_socket_info add_socket_info
    socket_exiting_handle-some fd si s found here =
        simp (live, found, here, update_self, update-update)

    pub connect_pre_handle-none :
        ⦃libc : Libc⦄ (cfg : Config)
        → found_socket w pi.pid ≡ none
        → connect_pre_handle cfg pinfp w ≡ done tt w
    unfolding connect_pre_handle load_proc ask find_socket_info
    connect_pre_handle-none cfg lost = simp (live, lost)

    pub connect_pre_handle-some :
        ⦃libc : Libc⦄ (cfg : Config) (si : ℕ)
        → found_socket w pi.pid ≡ some si
        → connect_pre_handle cfg pinfp w ≡ connect_found cfg pi.pid si w
    unfolding connect_pre_handle load_proc ask find_socket_info
    connect_pre_handle-some cfg si found = simp (live, found)

    pub close_pre_handle-none : found_socket w pi.pid ≡ none → close_pre_handle pinfp w ≡ done tt w
    unfolding close_pre_handle load_proc ask find_socket_info
    close_pre_handle-none lost = simp (live, lost)

    pub close_pre_handle-some :
        (si : ℕ) (s : SocketInfo)
        → found_socket w pi.pid ≡ some si
        → w.sockets si ≡ some s
        → close_pre_handle pinfp w
          ≡ done tt (record w {
            system = slept w.system (elapsed_ms (kernel.gettimeofday w.system) s.conn_ti);
            sockets = update w.sockets si none;
            socket_info_tab = del w.socket_info_tab si;
          })
    unfolding close_pre_handle load_proc ask find_socket_info load_socket free_socket run
        del_socket_info
    close_pre_handle-some si s found here =
        elim (Bool-cases
          (ltb (elapsed_ms (kernel.gettimeofday w.system) s.conn_ti) min_close_msec)) [
            | inl e ↦ simp (live, found, here, e)
            | inr e ↦ simp (live, found, here, e)
          ]

    pub clone_pre_handle_lem :
        clone_pre_handle pinfp w
        ≡ done tt (record w {
          system =
              kernel.pokeuser w.system pi.pid offset_rdi
                (bit_clear clone_untraced (get_syscall_arg w.system pi.pid 0));
        })
    unfolding clone_pre_handle load_proc ask run
    clone_pre_handle_lem = simp live
