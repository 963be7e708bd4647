-- ===== src/Handlers/Effects.antt =====
-- What each handler of main.c does to the state of the kernel, for whatever the tracer's tables
-- hold.
use graftcp.Prelude.{
  ℕ, ◌-◌, ◌*◌, ◌≤◌, ◌≡◌, refl, arith, false, Option, none, some, ltb, if◌then◌else◌, bit_clear,
  Bool-cases, Option-cases, inl, inr, ◌⊎◌,
}
use graftcp.Kernel.{Kernel}
use graftcp.Uthash.{Uthash}
use graftcp.World.{World, done, ProcInfo, load_socket, load_proc, ask, call, run}
use graftcp.Tables.{find_socket_info}
use graftcp.Tracee.{get_syscall_arg, offset_rdi}
use graftcp.Address.{Libc}
use graftcp.Filter.{is_ignore}
use graftcp.Handlers.{
  Config, clone_untraced, min_close_msec, elapsed_ms, socket_pre_handle, redirect, connect_found,
  connect_if_found, connect_pre_handle, close_if_found, close_pre_handle, clone_pre_handle,
  exiting_if_found, socket_exiting_handle,
}
use graftcp.World.{store_socket}
use graftcp.Handlers.Connect.{Destination, destination, announced, follow, connect_found-follow}
use graftcp.Handlers.Quiet.{Changes, Changes-then, Quiet, quiet}

module _ ⦃kernel : Kernel⦄ ⦃uthash : Uthash⦄ where
  pub socket_pre_handle-Quiet : (pinfp : ℕ) → Quiet (socket_pre_handle pinfp)
  unfolding socket_pre_handle
  socket_pre_handle-Quiet pinfp = search quiet depth 20

  exiting_if_found-Quiet : (pid fd : ℕ) (o : Option ℕ) → Quiet (exiting_if_found pid fd o)
  unfolding exiting_if_found
  exiting_if_found-Quiet pid fd none = search quiet depth 20
  exiting_if_found-Quiet pid fd (some si) = search quiet depth 20

  pub socket_exiting_handle-Quiet : (pinfp fd : ℕ) → Quiet (socket_exiting_handle pinfp fd)
  unfolding socket_exiting_handle
  socket_exiting_handle-Quiet pinfp fd = search (quiet, exiting_if_found-Quiet) depth 20

  -- CLONE_UNTRACED is clear in the first argument.
  abbrev pub Untraces : ℕ → kernel.State → kernel.State → Type 0
  Untraces pid s t =
      t ≡ kernel.pokeuser s pid offset_rdi (bit_clear clone_untraced (get_syscall_arg s pid 0))

  pub clone_pre_handle-Changes :
      (w : World) (pinfp : ℕ) (pi : ProcInfo)
      → w.procs pinfp ≡ some pi
      → Changes (Untraces pi.pid w.system) (clone_pre_handle pinfp w)
  unfolding clone_pre_handle load_proc ask run
  clone_pre_handle-Changes w pinfp pi live = rw live refl

  -- No call of the kernel, or a sleep of at most half a second.
  abbrev pub Sleeps : kernel.State → kernel.State → Type 0
  Sleeps s t = (t ≡ s) ⊎ ((n : ℕ) × (n ≤ 500 * 1000) × (t ≡ kernel.usleep s n))

  slept :
      (w : World) (ms : ℕ)
      → Changes (Sleeps w.system) (
          (if ltb ms min_close_msec
              then run (λ k. kernel.usleep k ((min_close_msec - ms) * 1000))
              else done tt)
            w)
  unfolding run
  slept w ms = elim (Bool-cases (ltb ms min_close_msec)) [
    | inl soon ↦ rw soon (inr ((min_close_msec - ms) * 1000, omega arith, refl))
    | inr late ↦ rw late (inl refl)
  ]

  close_if_found-Changes :
      (w : World) (o : Option ℕ) → Changes (Sleeps w.system) (close_if_found o w)
  unfolding close_if_found ask load_socket
  close_if_found-Changes w none = inl refl
  close_if_found-Changes w (some si) = elim (Option-cases (w.sockets si)) [
    | inl gone ↦ rw gone tt
    | inr (s, here) ↦
        let ms = elapsed_ms (kernel.gettimeofday w.system) s.conn_ti in
        rw here (Changes-then (Sleeps w.system) _ _ (slept w ms) (λ _. search quiet depth 20))
  ]

  pub close_pre_handle-Changes :
      (w : World) (pinfp : ℕ) → Changes (Sleeps w.system) (close_pre_handle pinfp w)
  unfolding close_pre_handle load_proc ask find_socket_info
  close_pre_handle-Changes w pinfp = elim (Option-cases (w.procs pinfp)) [
    | inl gone ↦ rw gone (tt)
    | inr (pi, live) ↦ rw live (close_if_found-Changes w _)
  ]

module _ ⦃kernel : Kernel⦄ ⦃uthash : Uthash⦄ ⦃libc : Libc⦄ (cfg : Config) where
  -- No call of the kernel, or the proxy's address in place of a destination that the lists do not
  -- exclude, and the destination in the fifo.
  abbrev pub Redirects : ℕ → kernel.State → kernel.State → Type 0
  Redirects pid s t =
      (t ≡ s)
      ⊎ ((d : Destination) × (destination cfg s pid (get_syscall_arg s pid 1) ≡ some d)
          × (is_ignore cfg.lists d.ip ≡ false)
          × (t ≡ announced s pid (get_syscall_arg s pid 1) d))

  redirect-Changes :
      (w : World) (pid si : ℕ) (d : Destination)
      → destination cfg w.system pid (get_syscall_arg w.system pid 1) ≡ some d
      → Changes
          (Redirects pid w.system)
          (redirect cfg pid si (get_syscall_arg w.system pid 1) d.ip d.port d.proxy w)
  unfolding redirect run call ask load_socket store_socket
  redirect-Changes w pid si d to = elim (Bool-cases (is_ignore cfg.lists d.ip)) [
    | inl ignored ↦ rw ignored (inl refl)
    | inr new ↦ rw new (elim (Option-cases (w.sockets si)) [
      | inl gone ↦ rw gone tt
      | inr (s, here) ↦ rw here (inr (d, to, new, refl))
    ])
  ]

  connect_found-Changes :
      (w : World) (pid si : ℕ) → Changes (Redirects pid w.system) (connect_found cfg pid si w)
  connect_found-Changes w pid si =
      let addr = get_syscall_arg w.system pid 1 in
      rw (connect_found-follow cfg w pid si addr refl)
        (elim (Option-cases (destination cfg w.system pid addr)) [
          | inl other ↦ rw other (unfold follow in inl refl)
          | inr (d, to) ↦ rw to (unfold follow in redirect-Changes w pid si d to)
        ])

  connect_if_found-Changes :
      (w : World) (pid : ℕ) (o : Option ℕ)
      → Changes (Redirects pid w.system) (connect_if_found cfg pid o w)
  unfolding connect_if_found
  connect_if_found-Changes w pid none = inl refl
  connect_if_found-Changes w pid (some si) = connect_found-Changes w pid si

  pub connect_pre_handle-Changes :
      (w : World) (pinfp : ℕ) (pi : ProcInfo)
      → w.procs pinfp ≡ some pi
      → Changes (Redirects pi.pid w.system) (connect_pre_handle cfg pinfp w)
  unfolding connect_pre_handle load_proc ask find_socket_info
  connect_pre_handle-Changes w pinfp pi live = rw live (connect_if_found-Changes w pi.pid _)
