-- ===== src/Trace/Acts.antt =====
-- What the tracer of main.c may do to a process that enters a system call, and that trace_syscall
-- does no more.
use graftcp.Prelude.{
  ℕ, ◌*◌, ◌≤◌, ◌≡◌, refl, ◌∙◌, true, false, some, ◌==◌, ==_iff, bit_clear, bit_test, Bool-cases,
  inl, inr,
}
use graftcp.Kernel.{Kernel}
use graftcp.Uthash.{Uthash}
use graftcp.World.{
  World, Outcome, done, ProcInfo, load_proc, store_proc, ask, update, update_self, exit, replaced,
  fault, out_of_fuel,
}
use graftcp.Tracee.{get_syscall_number, get_syscall_arg, offset_rdi}
use graftcp.Address.{Libc}
use graftcp.Filter.{is_ignore}
use graftcp.Handlers.{Config, clone_untraced}
use graftcp.Handlers.Connect.{Destination, destination, announced}
use graftcp.Handlers.Quiet.{Changes, Changes-then, Quiet, quiet}
use graftcp.Handlers.Effects.{
  Sleeps, Untraces, Redirects, socket_pre_handle-Quiet, socket_exiting_handle-Quiet,
  clone_pre_handle-Changes, close_pre_handle-Changes, connect_pre_handle-Changes,
}
use graftcp.Trace.{
  Ret, sys_connect, sys_close, sys_clone, sys_socket, flag_insyscall, exiting, entering_switch,
  trace_syscall_entering, trace_syscall_exiting, socket_exit, end_syscall, trace_syscall,
}

module _ ⦃kernel : Kernel⦄ ⦃libc : Libc⦄ (cfg : Config) where
  open kernel use {State}

  -- In one stop of a process the tracer does nothing to the kernel's state, or one of three things,
  -- by the call that the process enters: it puts the proxy's address in the place of the address of
  -- a connect that the lists do not exclude, and tells the destination, it clears CLONE_UNTRACED in
  -- the flags of a clone, or it sleeps for at most half a second before a close.
  pub data Acts (pid : ℕ) (s : State) : State → Type 0 where
    nothing : Acts pid s s
    redirects :
        (d : Destination)
        → get_syscall_number s pid ≡ sys_connect
        → destination cfg s pid (get_syscall_arg s pid 1) ≡ some d
        → is_ignore cfg.lists d.ip ≡ false
        → Acts pid s (announced s pid (get_syscall_arg s pid 1) d)
    untraces :
        get_syscall_number s pid ≡ sys_clone
        → Acts pid s
            (kernel.pokeuser s pid offset_rdi (bit_clear clone_untraced (get_syscall_arg s pid 0)))
    delays :
        (n : ℕ)
        → get_syscall_number s pid ≡ sys_close
        → n ≤ 500 * 1000
        → Acts pid s (kernel.usleep s n)

module _ ⦃kernel : Kernel⦄ ⦃uthash : Uthash⦄ ⦃libc : Libc⦄ where
  open kernel use {State}

  Changes-weaken :
      {A : Type 0} (Q R : State → Type 0) (o : Outcome A)
      → ((s : State) → Q s → R s)
      → Changes Q o
      → Changes R o
  Changes-weaken Q R (done a r) f h = f r.system h
  Changes-weaken Q R (exit n r) f h = tt
  Changes-weaken Q R (replaced r) f h = tt
  Changes-weaken Q R fault f h = tt
  Changes-weaken Q R out_of_fuel f h = tt

  module _ (cfg : Config) (w : World) (pinfp : ℕ) (pi : ProcInfo)
      (live : w.procs pinfp ≡ some pi) where
    entering_switch-Acts :
        (csn : ℕ)
        → get_syscall_number w.system pi.pid ≡ csn
        → Changes (Acts cfg pi.pid w.system) (entering_switch cfg pinfp csn w)
    unfolding entering_switch
    entering_switch-Acts csn here = elim (Bool-cases (csn == sys_socket)) [
      | inl e ↦ rw e (Changes-weaken _ _ _ (λ s h. unchanged s h) (socket_pre_handle-Quiet pinfp w))
      | inr e ↦ rw e (elim (Bool-cases (csn == sys_connect)) [
        | inl f ↦
            let call = here ∙ (==_iff csn sys_connect).0 f in
            rw f (
              Changes-weaken _ _ _ (λ s h. redirected call s h)
                (connect_pre_handle-Changes cfg w pinfp pi live))
        | inr f ↦ rw f (elim (Bool-cases (csn == sys_close)) [
          | inl g ↦
              let call = here ∙ (==_iff csn sys_close).0 g in
              rw g (Changes-weaken _ _ _ (λ s h. slept call s h) (close_pre_handle-Changes w pinfp))
          | inr g ↦ rw g (elim (Bool-cases (csn == sys_clone)) [
            | inl h ↦
                let call = here ∙ (==_iff csn sys_clone).0 h in
                rw h (
                  Changes-weaken _ _ _ (λ s e. untraced call s e)
                    (clone_pre_handle-Changes w pinfp pi live))
            | inr h ↦ rw h nothing
          ])
        ])
      ])
    ]
      where
        unchanged : (s : State) → s ≡ w.system → Acts cfg pi.pid w.system s
        unchanged s e = rw e nothing

        untraced :
            get_syscall_number w.system pi.pid ≡ sys_clone
            → (s : State) → Untraces pi.pid w.system s
            → Acts cfg pi.pid w.system s
        untraced call s e = rw e (untraces call)

        redirected :
            get_syscall_number w.system pi.pid ≡ sys_connect
            → (s : State) → Redirects cfg pi.pid w.system s
            → Acts cfg pi.pid w.system s
        redirected call s (inl e) = rw e nothing
        redirected call s (inr (d, to, new, e)) = rw e (redirects d call to new)

        slept :
            get_syscall_number w.system pi.pid ≡ sys_close
            → (s : State) → Sleeps w.system s
            → Acts cfg pi.pid w.system s
        slept call s (inl e) = rw e nothing
        slept call s (inr (n, few, e)) = rw e (delays n call few)

  end_syscall-Quiet : (p : ℕ) (ret : Ret) → Quiet (end_syscall p ret)
  unfolding end_syscall
  end_syscall-Quiet p ret = search quiet depth 20

  socket_exit-Quiet : (p pid : ℕ) → Quiet (socket_exit p pid)
  unfolding socket_exit
  socket_exit-Quiet p pid = search (quiet, socket_exiting_handle-Quiet) depth 20

  exiting-Quiet : (p : ℕ) → Quiet (trace_syscall_exiting p)
  unfolding trace_syscall_exiting
  exiting-Quiet p = search (quiet, end_syscall-Quiet, socket_exit-Quiet) depth 20

  module _ (cfg : Config) (w : World) (pinfp : ℕ) (pi : ProcInfo)
      (live : w.procs pinfp ≡ some pi) where
    entering-Acts : Changes (Acts cfg pi.pid w.system) (trace_syscall_entering cfg pinfp w)
    unfolding trace_syscall_entering load_proc ask store_proc
    entering-Acts =
        let csn = get_syscall_number w.system pi.pid in
        let pj = record pi { csn = csn } in
        let w1 = record w { procs = update w.procs pinfp (some pj) } in
        let now = update_self w.procs pinfp (some pj) in
        rw live (
          Changes-then (Acts cfg pi.pid w.system) _ _
            (entering_switch-Acts cfg w1 pinfp pj now csn refl) (λ _. search quiet depth 20))

    -- Of the process whose proc_info it is given, trace_syscall does at most what Acts allows.
    pub trace_syscall-Acts : Changes (Acts cfg pi.pid w.system) (trace_syscall cfg pinfp w)
    unfolding trace_syscall exiting load_proc
    trace_syscall-Acts = elim (Bool-cases (bit_test flag_insyscall pi.flags)) [
      | inl out ↦
          rw (live, out) (Changes-weaken _ _ _ (λ s h. unchanged s h) (exiting-Quiet pinfp w))
      | inr into ↦ rw (live, into) entering-Acts
    ]
      where
        unchanged : (s : State) → s ≡ w.system → Acts cfg pi.pid w.system s
        unchanged s e = rw e nothing

    -- On its way out of a call it does nothing to the kernel's state.
    pub trace_syscall-unchanged :
        bit_test flag_insyscall pi.flags ≡ true
        → Changes (λ s. s ≡ w.system) (trace_syscall cfg pinfp w)
    unfolding trace_syscall exiting load_proc
    trace_syscall-unchanged out = rw (live, out) (exiting-Quiet pinfp w)
