-- ===== src/Trace/Sides.antt =====
-- A stop for a system call in do_trace of main.c: the process enters a call or leaves it.
use graftcp.Prelude.{
  ℕ, ◌≡◌, refl, sym, ◌∙◌, ap, arith, Bool, true, false, Option, none, some, bit_test, bit_clear,
  bit_set, if◌then◌else◌,
}
use graftcp.Kernel.{Kernel}
use graftcp.Uthash.{Uthash, UthashLaws, int_key}
use graftcp.World.{World, Outcome, done, exit, ProcInfo, and_then, update_self}
use graftcp.World.Consistent.{IsConsistent}
use graftcp.Tracee.{get_syscall_number}
use graftcp.Address.{Libc}
use graftcp.Handlers.{Config}
use graftcp.Handlers.Quiet.{Changes}
use graftcp.Trace.{
  Ret, success, failure, Round, flag_startup, flag_insyscall, trace_syscall, traced,
  stopped_at_call, resume_child,
}
use graftcp.Trace.Entering.{Leaves}
use graftcp.Trace.Calls.{ExitingOutcome, CallOutcome, left, trace_syscall-outcome}
use graftcp.Trace.Entering.{entered}
use graftcp.Trace.Acts.{Acts, trace_syscall-Acts, trace_syscall-unchanged}
use graftcp.Trace.Signals.{is_call_stop, is_end}
use graftcp.Trace.Ends.{IsLive, Ends, Ends-weaken, Ends-onward}
use graftcp.Trace.Phases.{
  Phase, phase_in, phase_of, phase_of-found, phase_of-store, Settles, Settles-then, Settles-now,
}
use graftcp.Trace.Spec.{Starts, within, Exits, no_result, Answered, enters, returns, leaves}
use graftcp.Trace.Steps.{resume_child-Ends}

insyscall_entered : (v : ℕ) → bit_test flag_insyscall (bit_set flag_insyscall v) ≡ true
insyscall_entered v = ground arith

startup_entered :
    (v : ℕ) → bit_test flag_startup (bit_set flag_insyscall v) ≡ bit_test flag_startup v
startup_entered v = ground arith

insyscall_left : (v : ℕ) → bit_test flag_insyscall (bit_clear flag_insyscall v) ≡ false
insyscall_left v = ground arith

startup_left :
    (v : ℕ) → bit_test flag_startup (bit_clear flag_insyscall v) ≡ bit_test flag_startup v
startup_left v = ground arith

module _ ⦃kernel : Kernel⦄ ⦃uthash : Uthash⦄ ⦃laws : UthashLaws⦄ ⦃libc : Libc⦄ (cfg : Config) where
  open kernel use {State, getsiginfo}

  -- A process whose first event is behind it, in the world v, is stopped; s and f are the state and
  -- the phases before the event.
  pub record IsStopped (child : ℕ) (s : State) (f : ℕ → Phase) (pinfp : ℕ) (v : World)
      : Type 0 where
    pub consistent : IsConsistent v
    pub live : IsLive child pinfp v
    pub begun : Starts (f (int_key child)).fresh child s v.system
    pub settled : Settles (int_key child) (within (f (int_key child)).call) f (phase_of v)

  module _ (child status : ℕ) (s : State) (f : ℕ → Phase) (pinfp : ℕ) (v : World)
      (at_stop : IsStopped child s f pinfp v) where
    -- The program goes on with an answer of the machine of Spec, or exits as it does.
    abbrev pub Answer : Round → World → Type 0
    Answer round r = Answered cfg child status s f round r.system (phase_of r)

    abbrev pub Answers : Outcome Round → Type 0
    Answers o = Ends v (Exits child status s f) Answer o

    pub is_within : phase_in at_stop.live.0 ≡ within (f (int_key child)).call
    is_within =
        let live = at_stop.live in
        sym (phase_of-found v (int_key child) pinfp live.0 live.3 live.1)
        ∙ Settles-now (int_key child) _ f (phase_of v) at_stop.settled

    not_fresh : bit_test flag_startup at_stop.live.0.flags ≡ false
    not_fresh = ap (λ (p : Phase). p.fresh) is_within

    call_is : (f (int_key child)).call ≡ (phase_in at_stop.live.0).call
    call_is = sym (ap (λ (p : Phase). p.call) is_within)

    module _ (r : World) (j : ProcInfo) (l : Leaves v pinfp j r)
        (same : j.pid ≡ at_stop.live.0.pid) where
      live_after : IsLive child pinfp r
      live_after =
          let i = at_stop.live in
          (j, rw l.procs (update_self v.procs pinfp (some j)), rw same i.2, rw l.same_table i.3)

      settled_after :
          (call : Option ℕ)
          → phase_in j ≡ within call
          → Settles (int_key child) (within call) f (phase_of r)
      settled_after call e =
          let i = at_stop.live in
          rw (← e) (
            Settles-then (int_key child) _ _ f (phase_of v) (phase_of r) at_stop.settled (
              phase_of-store v r at_stop.consistent (int_key child) pinfp i.0 j i.3 i.1 l.procs
                l.same_table))

    module _ (called : is_call_stop (getsiginfo v.system child) status ≡ true) where
      entering :
          bit_test flag_insyscall at_stop.live.0.flags ≡ false
          → (r : World)
          → Leaves v pinfp (entered v at_stop.consistent pinfp at_stop.live.0 at_stop.live.1) r
          → Acts cfg at_stop.live.0.pid v.system r.system
          → Answers (traced success pinfp r)
      unfolding traced live_after
      entering out r l acts =
          let i = at_stop.live in
          let j = entered v at_stop.consistent pinfp i.0 i.1 in
          let csn = get_syscall_number v.system i.0.pid in
          let now : phase_in j ≡ within (some csn) =
            rw (insyscall_entered i.0.flags, startup_entered i.0.flags, not_fresh) refl in
          let idle_ : (f (int_key child)).call ≡ none = call_is ∙ rw out refl in
          let set = settled_after r j l refl (some csn) now in
          Ends-onward (Exits child status s f) Answer v r _ l.reaches (
            Ends-weaken (Exits child status s f) (Exits child status s f) _ Answer r
              (resume_child pinfp 0 r) (λ n e. e)
              (λ round x h.
                rw (h.2, h.0, h.1) (enters i.0.pid i.2 at_stop.begun called idle_ acts set))
              (resume_child-Ends r l.consistent child pinfp (live_after r j l refl) _ 0))

      module _ (csn : ℕ) (inside : (f (int_key child)).call ≡ some csn) (r : World)
          (l : Leaves v pinfp (left v at_stop.consistent pinfp at_stop.live.0 at_stop.live.1) r)
          (same : r.system ≡ v.system) where
        after : Settles (int_key child) (within none) f (phase_of r)
        after =
            let i = at_stop.live.0 in
            settled_after r _ l refl none
              (rw (insyscall_left i.flags, startup_left i.flags, not_fresh) refl)

        leaving :
            (ret : Ret)
            → ret ≡ (if is_end csn then failure else success)
            → Answers (traced ret pinfp r)
        unfolding traced live_after phase_of
        leaving success e =
            let going : is_end csn ≡ false = ground (arith, e) in
            let i = at_stop.live in
            Ends-onward (Exits child status s f) Answer v r _ l.reaches (
              Ends-weaken (Exits child status s f) (Exits child status s f) _ Answer r
                (resume_child pinfp 0 r) (λ n h. h)
                (λ round x h.
                  rw (h.2, h.0, h.1, same)
                    (returns i.0.pid csn i.2 at_stop.begun called inside going after))
                (resume_child-Ends r l.consistent child pinfp (live_after r _ l refl) _ 0))
        leaving failure e =
            let over : is_end csn ≡ true = ground (arith, e) in
            (l.consistent, l.reaches, rw same (leaves csn at_stop.begun called inside over after))

      -- The leaving side, whatever it comes to.
      left-Answers :
          bit_test flag_insyscall at_stop.live.0.flags ≡ true
          → (o : Outcome Ret)
          → ExitingOutcome v at_stop.consistent pinfp at_stop.live.0 at_stop.live.1 o
          → Changes (λ t. t ≡ v.system) o
          → Answers (and_then o (λ ret. traced ret pinfp))
      left-Answers in_ (done ret r) (l, which) same =
          leaving at_stop.live.0.csn (call_is ∙ rw in_ refl) r l same ret which
      left-Answers in_ (exit n r) (same, csn, bad, code) q =
          let i = at_stop.live in
          rw code (no_result i.0.pid i.2 at_stop.begun called (call_is ∙ rw in_ (ap some csn)) bad)
      left-Answers in_ (Outcome.replaced r) h q = h
      left-Answers in_ Outcome.fault h q = h
      left-Answers in_ Outcome.out_of_fuel h q = h

      side-Answers :
          (b : Bool)
          → bit_test flag_insyscall at_stop.live.0.flags ≡ b
          → CallOutcome v at_stop.consistent pinfp at_stop.live.0 at_stop.live.1 b
              (trace_syscall cfg pinfp v)
          → Answers (stopped_at_call cfg pinfp v)
      unfolding stopped_at_call
      side-Answers true in_ h =
          left-Answers in_ (trace_syscall cfg pinfp v) h
            (trace_syscall-unchanged cfg v pinfp at_stop.live.0 at_stop.live.1 in_)
      side-Answers false out (r, run, l) =
          let a = trace_syscall-Acts cfg v pinfp at_stop.live.0 at_stop.live.1 in
          let acts : Acts cfg at_stop.live.0.pid v.system r.system = rw run at a in
          rw run (entering out r l acts)

      pub stopped_at_call-Answers : Answers (stopped_at_call cfg pinfp v)
      stopped_at_call-Answers =
          let i = at_stop.live in
          side-Answers (bit_test flag_insyscall i.0.flags) refl
            (trace_syscall-outcome v at_stop.consistent pinfp i.0 i.1 cfg)
