-- ===== src/Trace/Loop.antt =====
-- The loop of do_trace in main.c: it ends, and it never follows a dangling pointer.
use graftcp.Prelude.{ℕ, zero, suc, ◌<◌, ◌≡◌, refl, arith, none, some, Option-cases, inl, inr}
use graftcp.Kernel.{Kernel}
use graftcp.Uthash.{Uthash, UthashLaws}
use graftcp.World.{World, Outcome, done, exit, and_then, call}
use graftcp.World.Consistent.{IsConsistent}
use graftcp.Tracee.Reaches.{EventLaws, events-Reaches}
use graftcp.Address.{Libc}
use graftcp.Handlers.{Config}
use graftcp.Trace.{Ret, Round, on_event, trace_round, next_round, do_trace}
use graftcp.Trace.Ends.{Ends}
use graftcp.Trace.Phases.{Phase, phase_of}
use graftcp.Trace.Spec.{Answered, Runs, stops, fails, again, Quits, at_once, later}
use graftcp.Trace.Rounds.{EventAnswer, EventExit, on_event-answers}

module _ ⦃kernel : Kernel⦄ ⦃uthash : Uthash⦄ ⦃laws : UthashLaws⦄ where
  open kernel use {State}

  -- The loop returns or exits; a return leaves a consistent world.
  abbrev pub TraceOutcome : Outcome Ret → Type 0
  TraceOutcome (done ret r) = IsConsistent r
  TraceOutcome (exit n r) = Unit
  TraceOutcome (Outcome.replaced r) = Unit
  TraceOutcome Outcome.fault = ⊥
  TraceOutcome Outcome.out_of_fuel = ⊥

  module _ ⦃libc : Libc⦄ (cfg : Config) where
    -- The loop returns behind a run of the machine of Spec, or exits as that does.
    abbrev pub Follows : State → (ℕ → Phase) → Outcome Ret → Type 0
    Follows s f (done ret r) = IsConsistent r × Runs cfg s f ret r.system
    Follows s f (exit n r) = Quits cfg s f n
    Follows s f (Outcome.replaced r) = ⊥
    Follows s f Outcome.fault = ⊥
    Follows s f Outcome.out_of_fuel = ⊥

    onward :
        (s t : State) (f g : ℕ → Phase) (child status : ℕ) (o : Outcome Ret)
        → (kernel.wait s).0 ≡ some (child, status)
        → Answered cfg child status (kernel.wait s).1 f none t g
        → Follows t g o
        → Follows s f o
    onward s t f g child status (done ret r) got a h = (h.0, again child status got a h.1)
    onward s t f g child status (exit n r) got a h = later child status got a h
    onward s t f g child status (Outcome.replaced r) got a h = h
    onward s t f g child status Outcome.fault got a h = h
    onward s t f g child status Outcome.out_of_fuel got a h = h

    module _ ⦃schedule : EventLaws⦄ where
      after_round :
          (fuel : ℕ) (s : State) (f : ℕ → Phase) (child status : ℕ) (w : World) (o : Outcome Round)
          → (kernel.wait s).0 ≡ some (child, status)
          → w.system ≡ (kernel.wait s).1
          → phase_of w ≡ f
          → Ends w
              (EventExit cfg (some (child, status)) w.system (phase_of w))
              (EventAnswer cfg (some (child, status)) w.system (phase_of w))
              o
          → schedule.events w.system < fuel
          → ((r : World)
              → IsConsistent r
              → schedule.events r.system < fuel
              → Follows r.system (phase_of r) (do_trace cfg fuel r))
          → Follows s f (and_then o (λ r v. next_round r (λ u. do_trace cfg fuel u) v))
      unfolding next_round
      after_round fuel s f child status w (done none r) got at_wait at h few rest =
          onward s r.system f (phase_of r) child status (do_trace cfg fuel r) got
            (rw (← at, ← at_wait) h.2) (rest r h.0 (omega (arith, events-Reaches h.1)))
      after_round fuel s f child status w (done (some ret) r) got at_wait at h few rest =
          (h.0, fails {g = phase_of r} child status got (rw (← at, ← at_wait) h.2))
      after_round fuel s f child status w (exit n r) got at_wait at h few rest =
          at_once child status got (rw (← at, ← at_wait) h)
      after_round fuel s f child status w (Outcome.replaced r) got at_wait at h few rest = absurd h
      after_round fuel s f child status w Outcome.fault got at_wait at h few rest = h
      after_round fuel s f child status w Outcome.out_of_fuel got at_wait at h few rest = h

      -- From a consistent world, with one round more than wait has events left, do_trace
      -- is a run of the machine of Trace/Spec, from the phases that the table says, that
      -- ends in a consistent world with the value that it returns; or it is such a run up
      -- to an event at which the program exits, for one of the two reasons of Trace/Spec
      -- and with that status.
      pub do_trace-Follows :
          (fuel : ℕ) (w : World)
          → IsConsistent w
          → schedule.events w.system < fuel
          → Follows w.system (phase_of w) (do_trace cfg fuel w)
      unfolding do_trace trace_round call phase_of
      do_trace-Follows zero w c few = absurd (omega arith)
      do_trace-Follows (suc fuel) w c few =
          let w1 = record w { system = (kernel.wait w.system).1 } in
          let c1 : IsConsistent w1 = record {
            sockets_keyed = c.sockets_keyed;
            procs_keyed = c.procs_keyed;
            procs_unique = c.procs_unique;
          } in
          elim (Option-cases (kernel.wait w.system).0) [
            | inl over ↦ rw over (unfold on_event next_round in (c1, stops over))
            | inr (e, got) ↦
                let less = schedule.events-wait w.system e got in
                rw got (
                  after_round fuel w.system (phase_of w) e.0 e.1 w1 (on_event cfg (some e) w1) got
                    refl refl (on_event-answers cfg w1 c1 (some e)) (omega arith)
                    (do_trace-Follows fuel))
          ]

      Follows-TraceOutcome :
          (s : State) (f : ℕ → Phase) (o : Outcome Ret) → Follows s f o → TraceOutcome o
      Follows-TraceOutcome s f (done ret r) h = h.0
      Follows-TraceOutcome s f (exit n r) h = tt
      Follows-TraceOutcome s f (Outcome.replaced r) h = absurd h
      Follows-TraceOutcome s f Outcome.fault h = h
      Follows-TraceOutcome s f Outcome.out_of_fuel h = h

      -- From a consistent world, with one round more than wait has events left, do_trace returns in
      -- a consistent world or exits: it neither runs out of rounds nor follows a dangling pointer.
      pub do_trace-outcome :
          (fuel : ℕ) (w : World)
          → IsConsistent w
          → schedule.events w.system < fuel
          → TraceOutcome (do_trace cfg fuel w)
      do_trace-outcome fuel w c few =
          Follows-TraceOutcome w.system (phase_of w) (do_trace cfg fuel w)
            (do_trace-Follows fuel w c few)
