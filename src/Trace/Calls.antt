-- ===== src/Trace/Calls.antt =====
-- trace_syscall of main.c: the two sides of a system call and the flag that tells them apart.
use graftcp.Prelude.{
  ℕ, ◌≡◌, ◌≢◌, refl, ◌∙◌, ap, Bool, true, false, ◌||◌, Option, some, ◌==◌, ==_iff, if◌then◌else◌,
  bit_test, bit_clear, Bool-cases, inl, inr,
}
use graftcp.Kernel.{Kernel}
use graftcp.Uthash.{Uthash, UthashLaws}
use graftcp.World.{World, Cmd, Outcome, done, exit, ProcInfo, load_proc, store_proc, ask, update}
use graftcp.World.Consistent.{IsConsistent}
use graftcp.Tracee.{get_retval}
use graftcp.Tracee.Reaches.{Reaches, here}
use graftcp.Address.{Libc}
use graftcp.Handlers.{Config}
use graftcp.Handlers.Safety.{socket_exiting_handle-Completes}
use graftcp.Trace.{
  Ret, success, failure, flag_insyscall, sys_socket, sys_exit, sys_exit_group, esrch,
  trace_syscall_entering, trace_syscall_exiting, trace_syscall, socket_exit, end_syscall,
}
use graftcp.Trace.Entering.{Leaves, store_proc-IsConsistent, entered, trace_syscall_entering-Leaves}

module _ ⦃kernel : Kernel⦄ ⦃uthash : Uthash⦄ ⦃laws : UthashLaws⦄ where
  module _ (w : World) (c : IsConsistent w) (pinfp : ℕ) (pi : ProcInfo)
      (live : w.procs pinfp ≡ some pi) where
    -- The proc_info when the call is over.
    abbrev pub left : ProcInfo
    left = record pi { flags = bit_clear flag_insyscall pi.flags }

    end_syscall-Leaves :
        (v : World) (ret : Ret)
        → IsConsistent v
        → v.procs ≡ w.procs
        → v.proc_info_tab ≡ w.proc_info_tab
        → Reaches w.system v.system
        → (r : World) × (end_syscall pinfp ret v ≡ done ret r) × Leaves w pinfp left r
    unfolding end_syscall load_proc store_proc
    end_syscall-Leaves v ret cv same same_table reaches =
        let here2 : v.procs pinfp ≡ some pi =
          ap (λ (f : ℕ → Option ProcInfo). f pinfp) same ∙ live in
        (
          record v { procs = update v.procs pinfp (some left) },
          simp here2,
          record {
            consistent = store_proc-IsConsistent v pinfp pi left cv here2 refl;
            procs = ap (λ (f : ℕ → Option ProcInfo). update f pinfp (some left)) same;
            same_table = same_table;
            reaches = reaches;
          },
        )

    -- What the leaving side comes to: it ends the program only where the return value of socket(2)
    -- cannot be read, with status 0 where the process is gone and errno otherwise; it returns -1
    -- exactly for the two calls that end a process.
    abbrev pub ExitingOutcome : Outcome Ret → Type 0
    ExitingOutcome (done ret r) =
        Leaves w pinfp left r
        × (ret ≡ (if pi.csn == sys_exit || pi.csn == sys_exit_group then failure else success))
    ExitingOutcome (exit n r) =
        (r ≡ w)
        × (pi.csn ≡ sys_socket)
        × ((get_retval w.system pi.pid).1 ≢ 0)
        × (n ≡ (
            if (get_retval w.system pi.pid).1 == esrch then 0 else (get_retval w.system pi.pid).1))
    ExitingOutcome (Outcome.replaced r) = ⊥
    ExitingOutcome Outcome.fault = ⊥
    ExitingOutcome Outcome.out_of_fuel = ⊥

    ended :
        (v : World) (ret : Ret) (m : Cmd Ret)
        → IsConsistent v
        → v.procs ≡ w.procs
        → v.proc_info_tab ≡ w.proc_info_tab
        → Reaches w.system v.system
        → m w ≡ end_syscall pinfp ret v
        → (ret ≡ (if pi.csn == sys_exit || pi.csn == sys_exit_group then failure else success))
        → ExitingOutcome (m w)
    ended v ret m cv same same_table reaches e which =
        let (r, run, leaves) = end_syscall-Leaves v ret cv same same_table reaches in
        rw (e, run) (leaves, which)

    quits :
        (n : ℕ) (m : Cmd Ret)
        → m w ≡ exit n w
        → pi.csn ≡ sys_socket
        → (get_retval w.system pi.pid).1 ≢ 0
        → (n ≡ (
            if (get_retval w.system pi.pid).1 == esrch then 0 else (get_retval w.system pi.pid).1))
        → ExitingOutcome (m w)
    quits n m e csn bad code = rw e (refl, csn, bad, code)

    trace_syscall_exiting-outcome : ExitingOutcome (trace_syscall_exiting pinfp w)
    unfolding trace_syscall_exiting socket_exit load_proc ask
    trace_syscall_exiting-outcome =
        elim (Bool-cases (pi.csn == sys_exit || pi.csn == sys_exit_group)) [
          | inl over ↦
              ended w failure (trace_syscall_exiting pinfp) c refl refl here (simp (live, over))
                (rw over)
          | inr going ↦ elim (Bool-cases (pi.csn == sys_socket)) [
            | inr other ↦
                ended w success (trace_syscall_exiting pinfp) c refl refl here
                  (simp (live, going, other)) (rw going)
            | inl socket ↦ elim (Bool-cases ((get_retval w.system pi.pid).1 == 0)) [
              | inl fine ↦
                  let fd = (get_retval w.system pi.pid).0 in
                  let m = socket_exiting_handle-Completes w c pinfp pi live fd in
                  ended m.next success (trace_syscall_exiting pinfp) m.consistent m.same_procs
                    m.same_table m.reaches (simp (live, going, socket, fine, m.runs)) (rw going)
              | inr failed ↦
                  let errno = (get_retval w.system pi.pid).1 in
                  let csn : pi.csn ≡ sys_socket = (==_iff pi.csn sys_socket).0 socket in
                  let bad : errno ≢ 0 = λ e. cc (failed, (==_iff errno 0).1 e) in
                  elim (Bool-cases (errno == esrch)) [
                    | inl gone ↦
                        quits 0 (trace_syscall_exiting pinfp)
                          (simp (live, going, socket, failed, gone)) csn bad (rw gone)
                    | inr other ↦
                        quits errno (trace_syscall_exiting pinfp)
                          (simp (live, going, socket, failed, other)) csn bad (rw other)
                  ]
            ]
          ]
        ]

    -- What trace_syscall comes to, by the side that the flag tells.
    abbrev pub CallOutcome : Bool → Outcome Ret → Type 0
    CallOutcome true o = ExitingOutcome o
    CallOutcome false o =
        (r : World) × (o ≡ done success r) × Leaves w pinfp (entered w c pinfp pi live) r

    side-outcome :
        ⦃libc : Libc⦄ (cfg : Config) (b : Bool)
        → bit_test flag_insyscall pi.flags ≡ b
        → CallOutcome b (trace_syscall cfg pinfp w)
    unfolding trace_syscall load_proc
    side-outcome cfg true e =
        let run : trace_syscall cfg pinfp w ≡ trace_syscall_exiting pinfp w = simp (live, e) in
        rw run trace_syscall_exiting-outcome
    side-outcome cfg false e =
        let run : trace_syscall cfg pinfp w ≡ trace_syscall_entering cfg pinfp w = simp (live, e) in
        rw run (trace_syscall_entering-Leaves w c pinfp pi live cfg)

    -- In a consistent world trace_syscall of a live proc_info with FLAG_INSYSCALL clear completes,
    -- sets the flag and the number of the call, and returns 0; with the flag set it clears the flag
    -- and returns -1 exactly for exit and exit_group, or ends the program where the result of
    -- socket(2) cannot be read. The world stays consistent, no other proc_info changes, and no
    -- pointer that is followed dangles.
    pub trace_syscall-outcome :
        ⦃libc : Libc⦄ (cfg : Config)
        → CallOutcome (bit_test flag_insyscall pi.flags) (trace_syscall cfg pinfp w)
    trace_syscall-outcome cfg = side-outcome cfg (bit_test flag_insyscall pi.flags) refl
