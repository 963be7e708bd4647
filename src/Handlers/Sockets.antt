-- ===== src/Handlers/Sockets.antt =====
-- The life of a table entry in main.c, from socket(2) to close(2).
use graftcp.Prelude.{
  ℕ, ◌+◌, ◌%◌, ◌^◌, ◌<◌, ◌≡◌, refl, ◌∙◌, ap, arith, true, false, none, some, Option-cases, inl, inr,
  int_of_long,
}
use graftcp.Kernel.{Kernel}
use graftcp.Uthash.{Uthash, UthashLaws, int_key}
use graftcp.World.{World, done, SocketInfo, ProcInfo, ◌>>◌, update, update_self}
use graftcp.Tracee.{get_syscall_arg}
use graftcp.Handlers.{
  pending_key, socket_key, not_tcp, socket_pre_handle, socket_exiting_handle, close_pre_handle,
}
use graftcp.Handlers.Outcomes.{
  arg_type, arg_domain, pending_socket, found_socket, socket_pre_handle-tcp,
  socket_exiting_handle-some, close_pre_handle-some,
}
use graftcp.Handlers.Keys.{socket_key_collisions}

module _ ⦃uthash : Uthash⦄ ⦃laws : UthashLaws⦄ where
  open uthash use {Table, add, del, find}
  open laws use {holds}

  -- A search for the key of a new element finds it, if nothing else is held under the key.
  find-sole :
      (t : Table) (k p : ℕ)
      → holds t k p ≡ true
      → ((q : ℕ) → holds t k q ≡ true → q ≡ p)
      → find t k ≡ some p
  find-sole t k p e sole = elim (Option-cases (find t k)) [
    | inl none_found ↦ absurd (ground (arith, laws.find-none t k p none_found))
    | inr (q, found) ↦ found ∙ ap some (sole q (laws.holds-find t k q found))
  ]

  pub find-add : (t : Table) (k p : ℕ) → find t k ≡ none → find (add t k p) k ≡ some p
  find-add t k p e =
      find-sole (add t k p) k p (ground (arith, laws.holds-add t k p k p))
        (λ q h. ground (arith, laws.holds-add t k p k q, laws.find-none t k q e))

  pub find-add-del :
      (t : Table) (k p j : ℕ) → find t k ≡ none → find (add (del (add t j p) p) k p) k ≡ some p
  find-add-del t k p j e =
      find-sole (add (del (add t j p) p) k p) k p
        (ground (arith, laws.holds-add (del (add t j p) p) k p k p))
        (λ q h. ground (
          arith,
          laws.holds-add (del (add t j p) p) k p k q,
          laws.holds-del (add t j p) p k q,
          laws.holds-add t j p k q,
          laws.find-none t k q e,
        ))

module _ ⦃kernel : Kernel⦄ ⦃uthash : Uthash⦄ ⦃laws : UthashLaws⦄ where
  open uthash use {add, del}

  -- Where a process opens a TCP socket, and neither the key of a waiting socket nor the key of the
  -- new descriptor is taken: the entering and the leaving handler complete, a search for the
  -- descriptor's key finds the new entry, and the entry has the descriptor, its key, and the domain
  -- and the type that the process asked for.
  pub find-socket :
      (w : World) (pinfp fd : ℕ) (pi : ProcInfo)
      → w.procs pinfp ≡ some pi
      → not_tcp (arg_type w.system pi.pid) (arg_domain w.system pi.pid) ≡ false
      → uthash.find w.socket_info_tab (int_key (pending_key pi.pid)) ≡ none
      → uthash.find w.socket_info_tab (int_key (socket_key fd pi.pid)) ≡ none
      → (r : World) × ((socket_pre_handle pinfp >> socket_exiting_handle pinfp fd) w ≡ done tt r)
        × (uthash.find r.socket_info_tab (int_key (socket_key fd pi.pid)) ≡ some w.brk)
        × (r.sockets w.brk
            ≡ some (record (pending_socket w.system pi.pid) {
              fd = fd;
              magic_fd = socket_key fd pi.pid;
            }))
  find-socket w pinfp fd pi live tcp free taken =
      let w1 = record w {
        sockets = update w.sockets w.brk (some (pending_socket w.system pi.pid));
        brk = w.brk + 1;
        socket_info_tab = add w.socket_info_tab (int_key (pending_key pi.pid)) w.brk;
      } in
      let waiting = find-add w.socket_info_tab (int_key (pending_key pi.pid)) w.brk free in
      let here = update_self w.sockets w.brk (some (pending_socket w.system pi.pid)) in
      let left =
        socket_exiting_handle-some w1 pinfp pi live fd w.brk (pending_socket w.system pi.pid)
          waiting here in
      (
        record w1 {
          sockets = update w1.sockets w.brk (
              some (record (pending_socket w.system pi.pid) {
                fd = fd;
                magic_fd = socket_key fd pi.pid;
              }));
          socket_info_tab =
              add (del w1.socket_info_tab w.brk) (int_key (socket_key fd pi.pid)) w.brk;
        },
        rw (socket_pre_handle-tcp w pinfp pi live tcp) left,
        find-add-del w.socket_info_tab (int_key (socket_key fd pi.pid)) w.brk
            (int_key (pending_key pi.pid)) taken,
        update_self w1.sockets w.brk _,
      )

  -- A close of any descriptor of the parity of a tracked socket frees the socket's entry and takes
  -- it out of the table, also where the descriptor is another one or no socket at all.
  pub close-parity :
      (w : World) (pinfp fd gd si : ℕ) (pi : ProcInfo) (s : SocketInfo)
      → w.procs pinfp ≡ some pi
      → pi.pid < 2 ^ 31
      → uthash.find w.socket_info_tab (int_key (socket_key fd pi.pid)) ≡ some si
      → w.sockets si ≡ some s
      → int_of_long (get_syscall_arg w.system pi.pid 0) ≡ gd
      → gd % 2 ≡ fd % 2
      → (r : World) × (close_pre_handle pinfp w ≡ done tt r)
        × (r.sockets si ≡ none)
        × ((k : ℕ) → laws.holds r.socket_info_tab k si ≡ false)
  close-parity w pinfp fd gd si pi s live small found here arg parity =
      let same = (socket_key_collisions gd fd pi.pid pi.pid small small).0.1 (refl, parity) in
      let looked_up : found_socket w pi.pid ≡ some si =
        ap (λ (d : ℕ). uthash.find w.socket_info_tab (int_key (socket_key d pi.pid))) arg
        ∙ ap (uthash.find w.socket_info_tab) same
        ∙ found in
      (
        _,
        close_pre_handle-some w pinfp pi live si s looked_up here,
        update_self w.sockets si none,
        λ k. ground (arith, laws.holds-del w.socket_info_tab si k si),
      )
