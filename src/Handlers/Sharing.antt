-- ===== src/Handlers/Sharing.antt =====
-- A descriptor that two processes share, as threads and the children of fork do: main.c tells the
-- sockets apart by the process that opened them.
use graftcp.Prelude.{
  ℕ, ◌+◌, ◌^◌, ◌<◌, ◌≡◌, ◌≢◌, refl, ◌∙◌, ap, arith, false, none, some, Option-cases, inl, inr,
  int_of_long,
}
use graftcp.Kernel.{Kernel}
use graftcp.Uthash.{Uthash, UthashLaws, int_key}
use graftcp.World.{World, done, ProcInfo, ◌>>◌, run, update, update_self}
use graftcp.Tracee.{get_syscall_arg}
use graftcp.Address.{Libc}
use graftcp.Handlers.{
  Config, pending_key, socket_key, not_tcp, socket_pre_handle, socket_exiting_handle,
  connect_pre_handle,
}
use graftcp.Handlers.Outcomes.{
  arg_type, arg_domain, pending_socket, found_socket, socket_pre_handle-tcp,
  socket_exiting_handle-some, connect_pre_handle-none,
}
use graftcp.Handlers.Keys.{socket_key_collisions}
use graftcp.Handlers.Sockets.{find-add}

module _ ⦃uthash : Uthash⦄ ⦃laws : UthashLaws⦄ where
  open uthash use {Table, add, del, find}

  find-add_other :
      (t : Table) (k p i j : ℕ)
      → find t k ≡ none
      → j ≢ k
      → find (add (del (add t i p) p) j p) k ≡ none
  find-add_other t k p i j free other = elim (Option-cases (find (add (del (add t i p) p) j p) k)) [
    | inl none_found ↦ none_found
    | inr (q, found) ↦ absurd (
        ground (
          arith,
          other,
          laws.holds-find (add (del (add t i p) p) j p) k q found,
          laws.holds-add (del (add t i p) p) j p k q,
          laws.holds-del (add t i p) p k q,
          laws.holds-add t i p k q,
          laws.find-none t k q free,
        ))
  ]

module _ ⦃kernel : Kernel⦄ ⦃uthash : Uthash⦄ ⦃laws : UthashLaws⦄ ⦃libc : Libc⦄ where
  -- A process opens a TCP socket and gets a descriptor for it, and then another process, that has
  -- no socket of its own in the table under the descriptor that it passes, enters connect. Where
  -- both pids are below 2 ^ 31, the connect changes nothing: the destination stays as it is and no
  -- line goes to the fifo, also where the two are threads and the descriptor is the socket.
  pub connect-other_process :
      (cfg : Config) (w : World) (pinfp qinfp fd gd : ℕ) (pi qi : ProcInfo) (k : kernel.State)
      → w.procs pinfp ≡ some pi
      → w.procs qinfp ≡ some qi
      → pi.pid < 2 ^ 31
      → qi.pid < 2 ^ 31
      → pi.pid ≢ qi.pid
      → not_tcp (arg_type w.system pi.pid) (arg_domain w.system pi.pid) ≡ false
      → uthash.find w.socket_info_tab (int_key (pending_key pi.pid)) ≡ none
      → int_of_long (get_syscall_arg k qi.pid 0) ≡ gd
      → uthash.find w.socket_info_tab (int_key (socket_key gd qi.pid)) ≡ none
      → (r : World) × ((socket_pre_handle pinfp
              >> socket_exiting_handle pinfp fd
              >> run (λ s. k)
              >> connect_pre_handle cfg qinfp)
            w
          ≡ done tt r)
        × (r.system ≡ k)
  unfolding run
  connect-other_process cfg w pinfp qinfp fd gd pi qi k live qlive small qsmall apart tcp free arg0
        untracked =
      let key = int_key (socket_key fd pi.pid) in
      let waiting = int_key (pending_key pi.pid) in
      let pending = pending_socket w.system pi.pid in
      let w1 = record w {
        sockets = update w.sockets w.brk (some pending);
        brk = w.brk + 1;
        socket_info_tab = uthash.add w.socket_info_tab waiting w.brk;
      } in
      let left =
        socket_exiting_handle-some w1 pinfp pi live fd w.brk pending
          (find-add w.socket_info_tab waiting w.brk free)
          (update_self w.sockets w.brk (some pending)) in
      let w2 = record w1 {
        system = k;
        sockets =
            update w1.sockets w.brk
              (some (record pending { fd = fd; magic_fd = socket_key fd pi.pid }));
        socket_info_tab = uthash.add (uthash.del w1.socket_info_tab w.brk) key w.brk;
      } in
      let other : key ≢ int_key (socket_key gd qi.pid) =
        λ e. apart (((socket_key_collisions fd gd pi.pid qi.pid small qsmall).0.0 e).0) in
      let none_there : found_socket w2 qi.pid ≡ none =
        ap (λ (g : ℕ). uthash.find w2.socket_info_tab (int_key (socket_key g qi.pid))) arg0
        ∙ find-add_other w.socket_info_tab (int_key (socket_key gd qi.pid)) w.brk waiting key
            untracked other in
      (
        w2,
        rw (socket_pre_handle-tcp w pinfp pi live tcp, left)
            (connect_pre_handle-none w2 qinfp qi qlive cfg none_there),
        refl,
      )
