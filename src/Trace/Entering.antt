-- ===== src/Trace/Entering.antt =====
-- trace_syscall_entering of main.c: what it leaves of the tables.
use graftcp.Prelude.{ℕ, ◌≡◌, refl, ◌∙◌, ap, Option, some, ◌==◌, bit_set, Bool-cases, inl, inr}
use graftcp.Kernel.{Kernel}
use graftcp.Uthash.{Uthash, UthashLaws}
use graftcp.World.{
  World, done, ProcInfo, load_proc, store_proc, ask, update, update_self, update-update,
}
use graftcp.World.Consistent.{IsConsistent, IsKeyed-store, proc_field}
use graftcp.Tracee.{get_syscall_number}
use graftcp.Tracee.Reaches.{Reaches, here}
use graftcp.Address.{Libc}
use graftcp.Handlers.{Config}
use graftcp.Handlers.Safety.{
  Completes, socket_pre_handle-Completes, connect_pre_handle-Completes, close_pre_handle-Completes,
  clone_pre_handle-Completes,
}
use graftcp.Trace.{
  success, flag_insyscall, sys_socket, sys_connect, sys_close, sys_clone, entering_switch,
  trace_syscall_entering,
}

module _ ⦃kernel : Kernel⦄ ⦃uthash : Uthash⦄ ⦃laws : UthashLaws⦄ where
  -- A consistent world in which a proc_info has the given contents and all others are as before.
  pub record Leaves (w : World) (pinfp : ℕ) (pi : ProcInfo) (r : World) : Type 0 where
    pub consistent : IsConsistent r
    pub procs : r.procs ≡ update w.procs pinfp (some pi)
    pub same_table : r.proc_info_tab ≡ w.proc_info_tab
    pub reaches : Reaches w.system r.system

  pub store_proc-IsConsistent :
      (w : World) (pinfp : ℕ) (pi pj : ProcInfo)
      → IsConsistent w
      → w.procs pinfp ≡ some pi
      → pj.pid ≡ pi.pid
      → IsConsistent (record w { procs = update w.procs pinfp (some pj) })
  store_proc-IsConsistent w pinfp pi pj c live same = record {
    sockets_keyed = c.sockets_keyed;
    procs_keyed = IsKeyed-store proc_field _ _ _ c.procs_keyed pinfp pi live pj same;
    procs_unique = c.procs_unique;
  }

  module _ (w : World) (c : IsConsistent w) (pinfp : ℕ) (pi : ProcInfo)
      (live : w.procs pinfp ≡ some pi) where
    stays : Completes w (λ v. done tt v)
    stays = record {
      next = w;
      runs = refl;
      consistent = c;
      same_procs = refl;
      same_table = refl;
      reaches = here;
    }

    entering_switch-Completes :
        ⦃libc : Libc⦄ (cfg : Config) (csn : ℕ) → Completes w (entering_switch cfg pinfp csn)
    unfolding entering_switch
    entering_switch-Completes cfg csn = elim (Bool-cases (csn == sys_socket)) [
      | inl e ↦ rw e (socket_pre_handle-Completes w c pinfp pi live)
      | inr e ↦ rw e (elim (Bool-cases (csn == sys_connect)) [
        | inl f ↦ rw f (connect_pre_handle-Completes w c pinfp pi live cfg)
        | inr f ↦ rw f (elim (Bool-cases (csn == sys_close)) [
          | inl g ↦ rw g (close_pre_handle-Completes w c pinfp pi live)
          | inr g ↦ rw g (elim (Bool-cases (csn == sys_clone)) [
            | inl h ↦ rw h (clone_pre_handle-Completes w c pinfp pi live)
            | inr h ↦ rw h stays
          ])
        ])
      ])
    ]

  module _ (w : World) (c : IsConsistent w) (pinfp : ℕ) (pi : ProcInfo)
      (live : w.procs pinfp ≡ some pi) where
    -- The proc_info when the process is let into the call.
    abbrev pub entered : ProcInfo
    entered = record pi {
      csn = get_syscall_number w.system pi.pid;
      flags = bit_set flag_insyscall pi.flags;
    }

    pub trace_syscall_entering-Leaves :
        ⦃libc : Libc⦄ (cfg : Config)
        → (r : World) × (trace_syscall_entering cfg pinfp w ≡ done success r)
          × Leaves w pinfp entered r
    unfolding trace_syscall_entering load_proc store_proc ask
    trace_syscall_entering-Leaves cfg =
        let csn = get_syscall_number w.system pi.pid in
        let pj = record pi { csn = csn } in
        let w1 = record w { procs = update w.procs pinfp (some pj) } in
        let c1 = store_proc-IsConsistent w pinfp pi pj c live refl in
        let here1 = update_self w.procs pinfp (some pj) in
        let m = entering_switch-Completes w1 c1 pinfp pj here1 cfg csn in
        let here2 : m.next.procs pinfp ≡ some pj =
          ap (λ (f : ℕ → Option ProcInfo). f pinfp) m.same_procs ∙ here1 in
        (
          record m.next { procs = update m.next.procs pinfp (some entered) },
          simp (live, m.runs, here2),
          record {
            consistent = store_proc-IsConsistent m.next pinfp pj entered m.consistent here2 refl;
            procs =
                ap (λ (f : ℕ → Option ProcInfo). update f pinfp (some entered)) m.same_procs
                ∙ update-update w.procs pinfp (some pj) (some entered);
            same_table = m.same_table;
            reaches = m.reaches;
          },
        )
