-- ===== src/Trace/Rounds.antt =====
-- One round of do_trace of main.c: how it answers an event of wait.
use graftcp.Prelude.{
  arith, ℕ, ◌/◌, ◌^◌, ◌≡◌, refl, ◌∙◌, Bool, true, false, ◌||◌, not, Option, none, some, ◌==◌,
  Bool-cases, inl, inr,
}
use graftcp.Kernel.{Kernel}
use graftcp.Uthash.{Uthash, UthashLaws, int_key}
use graftcp.World.{World, Outcome, ask}
use graftcp.World.Consistent.{IsConsistent}
use graftcp.Tables.{find_proc_info}
use graftcp.Tracee.Reaches.{here}
use graftcp.Address.{Libc}
use graftcp.Handlers.{Config}
use graftcp.Trace.{
  Round, success, sigstop, sigtrap, wifexited, wifsignaled, wifstopped, wstopsig, resume_child,
  start_up, dispatch, find_or_alloc, on_event,
}
use graftcp.Trace.Signals.{is_stop, is_call_stop, delivered}
use graftcp.Trace.Ends.{IsLive, Ends, Ends-bind, Ends-weaken}
use graftcp.Trace.Phases.{Phase, phase_of}
use graftcp.Trace.Spec.{Exits, no_options, Answered, passes, ended}
use graftcp.Trace.Steps.{Started, find_or_alloc-Ends, resume_child-Ends, start_up-Ends}
use graftcp.Trace.Sides.{IsStopped, Answers, Answer, stopped_at_call-Answers}

is_stop-event : (status : ℕ) → not (status / 2 ^ 16 == 0) ≡ true → is_stop status ≡ true
unfolding is_stop
is_stop-event status h = rw h

is_stop-plain :
    (status : ℕ) → not (status / 2 ^ 16 == 0) ≡ false → is_stop status ≡ wifstopped status
unfolding is_stop
is_stop-plain status h = rw h

stopped_or_gone :
    (status : ℕ)
    → wifstopped status ≡ true
    → (wifsignaled status || wifexited status || not (wifstopped status)) ≡ false
unfolding wifstopped wifsignaled wifexited
stopped_or_gone status h = ground arith

-- The stops that stand for no call: an event of ptrace, one by SIGSTOP, one with a siginfo.
event_is_no_call :
    (known : Bool) (status : ℕ)
    → not (status / 2 ^ 16 == 0) ≡ true
    → is_call_stop known status ≡ false
unfolding is_call_stop
event_is_no_call known status e = ground (arith, e)

sigstop_is_no_call :
    (known : Bool) (status : ℕ)
    → wstopsig status == sigstop ≡ true
    → is_call_stop known status ≡ false
unfolding is_call_stop
sigstop_is_no_call known status e = ground (arith, e)

signal_is_no_call :
    (status : ℕ) → wstopsig status == sigtrap ≡ false → is_call_stop true status ≡ false
unfolding is_call_stop
signal_is_no_call status e = ground (arith, e)

call_stop :
    (known : Bool) (status : ℕ)
    → not (status / 2 ^ 16 == 0) ≡ false
    → wifstopped status ≡ true
    → wstopsig status == sigstop ≡ false
    → (wstopsig status == sigtrap || not known) ≡ true
    → is_call_stop known status ≡ true
unfolding is_call_stop
call_stop known status plain stop e f = ground (arith, plain, stop, e, f)

module _ ⦃kernel : Kernel⦄ ⦃uthash : Uthash⦄ ⦃laws : UthashLaws⦄ ⦃libc : Libc⦄ (cfg : Config) where
  open kernel use {State}

  module _ (child status : ℕ) (s : State) (f : ℕ → Phase) (pinfp : ℕ) (v : World)
      (at_stop : IsStopped cfg child s f pinfp v) where
    abbrev Answers_ : Outcome Round → Type 0
    Answers_ o = Answers cfg child status s f pinfp v at_stop o

    resumed :
        (sig : ℕ)
        → is_stop status ≡ true
        → is_call_stop (kernel.getsiginfo v.system child) status ≡ false
        → delivered (kernel.getsiginfo v.system child) status ≡ sig
        → Answers_ (resume_child pinfp sig v)
    resumed sig stop no_call d =
        let i = at_stop.live in
        Ends-weaken (Exits child status s f) (Exits child status s f) _
          (Answer cfg child status s f pinfp v at_stop) v (resume_child pinfp sig v) (λ n e. e)
          (λ round x h.
            rw (h.2, h.0, h.1, ← d) (passes i.0.pid i.2 at_stop.begun stop no_call at_stop.settled))
          (resume_child-Ends v at_stop.consistent child pinfp i _ sig)

    -- The branches of a plain stop.
    stop-Answers :
        not (status / 2 ^ 16 == 0) ≡ false
        → wifstopped status ≡ true
        → Answers_ (dispatch cfg pinfp child status v)
    unfolding dispatch ask delivered
    stop-Answers plain stop =
        let called = stopped_at_call-Answers cfg child status s f pinfp v at_stop in
        let is = is_stop-plain status plain ∙ stop in
        rw (plain, stopped_or_gone status stop)
          (elim (Bool-cases (wstopsig status == sigstop)) [
            | inl e ↦ rw e (resumed 0 is (sigstop_is_no_call _ status e) (rw (plain, e) refl))
            | inr not_stop ↦ rw not_stop (elim (Bool-cases (wstopsig status == sigtrap)) [
              | inl trap ↦ rw trap (called (call_stop _ status plain stop not_stop (rw trap refl)))
              | inr not_trap ↦ rw not_trap (elim (Bool-cases (kernel.getsiginfo v.system child)) [
                | inl known ↦ rw known (
                    resumed (wstopsig status) is (rw known (signal_is_no_call status not_trap))
                      (rw (plain, not_stop, not_trap, known) refl))
                | inr unknown ↦
                    rw unknown (
                      called (call_stop _ status plain stop not_stop (rw (not_trap, unknown) refl)))
              ])
            ])
          ])

    -- An event of ptrace, such as a fork that is traced.
    event-Answers : not (status / 2 ^ 16 == 0) ≡ true → Answers_ (dispatch cfg pinfp child status v)
    unfolding dispatch delivered
    event-Answers event =
        rw event
          (resumed 0 (is_stop-event status event) (event_is_no_call _ status event) (rw event refl))

    over-Answers :
        not (status / 2 ^ 16 == 0) ≡ false
        → wifstopped status ≡ false
        → Answers_ (dispatch cfg pinfp child status v)
    unfolding dispatch
    over-Answers plain over =
        let gone : (wifsignaled status || wifexited status || not (wifstopped status)) ≡ true =
          ground (arith, over) in
        rw (plain, gone)
          (
            at_stop.consistent,
            here,
            ended at_stop.begun (is_stop-plain status plain ∙ over) at_stop.settled,
          )

    dispatch-Answers : Answers_ (dispatch cfg pinfp child status v)
    dispatch-Answers = elim (Bool-cases (not (status / 2 ^ 16 == 0))) [
      | inl event ↦ event-Answers event
      | inr plain ↦ elim (Bool-cases (wifstopped status)) [
        | inl stop ↦ stop-Answers plain stop
        | inr over ↦ over-Answers plain over
      ]
    ]

  -- The answer to an event, from the state of the kernel behind wait and the phases of the
  -- processes: where wait has failed the loop ends.
  abbrev pub EventAnswer : Option (ℕ × ℕ) → State → (ℕ → Phase) → Round → World → Type 0
  EventAnswer none s f round r = (round ≡ some success) × (r.system ≡ s) × (phase_of r ≡ f)
  EventAnswer (some (child, status)) s f round r =
      Answered cfg child status s f round r.system (phase_of r)

  -- Why the program exits at an event.
  abbrev pub EventExit : Option (ℕ × ℕ) → State → (ℕ → Phase) → ℕ → Type 0
  EventExit none s f n = ⊥
  EventExit (some (child, status)) s f n = Exits child status s f n

  -- In a consistent world the tracer answers an event of wait as the machine of Trace/Spec
  -- does from the phases that the table says, and the table then says the phases that this
  -- leaves. At its first event the options of a process are set. A process that stops for a
  -- system call is taken to enter one where the table has it in none: before it is resumed,
  -- with no signal, the tracer does at most the one redirection, the one cleared flag of a
  -- clone or the one sleep that the call allows, and the process is then in the call. It is
  -- taken to leave the one that the table has it in otherwise: it is then in none, and is
  -- resumed with nothing done, but where the call is exit or exit_group. In every other stop
  -- it is resumed with the signal that it has stopped for where this is not SIGSTOP or
  -- SIGTRAP and the stop is no event of ptrace, and else with none. For a process that has
  -- ended nothing is done. The loop goes on, unless the resume fails for another reason than
  -- ESRCH. The program exits only where the options of a fresh process cannot be set, with
  -- errno, or the result of a socket(2) that a process leaves cannot be read, with 0 for
  -- ESRCH and else errno. Where wait fails the loop returns 0. The world stays consistent,
  -- and no dangling pointer is followed.
  pub on_event-answers :
      (w : World) (c : IsConsistent w) (e : Option (ℕ × ℕ))
      → Ends w
          (EventExit e w.system (phase_of w))
          (EventAnswer e w.system (phase_of w))
          (on_event cfg e w)
  unfolding on_event find_proc_info
  on_event-answers w c none = (c, here, (refl, refl, refl))
  on_event-answers w c (some (child, status)) =
      let s = w.system in
      let f = phase_of w in
      let Q : Round → World → Type 0 = EventAnswer (some (child, status)) s f in
      let E : ℕ → Type 0 = Exits child status s f in
      Ends-bind E (λ p r. IsLive child p r × (r.system ≡ s) × (phase_of r ≡ f)) Q w
        (find_or_alloc child _ w) _
        (find_or_alloc-Ends w c E child (uthash.find w.proc_info_tab (int_key child)) refl)
        (λ pinfp r cr _ lr.
          rw (← lr.2, ← lr.1)
            (Ends-bind (Exits child status r.system (phase_of r))
              (λ _ v. Started r cr child pinfp lr.0 v) _ r (start_up pinfp child r)
              (λ _. dispatch cfg pinfp child status)
              (Ends-weaken _ (Exits child status r.system (phase_of r)) _ _ r
                (start_up pinfp child r) (λ n u. rw (u.2) (no_options u.0 u.1)) (λ _ v l. l)
                (start_up-Ends r cr child pinfp lr.0))
              (λ _ v cv reach lv.
                dispatch-Answers child status r.system (phase_of r) pinfp v
                  (record { consistent = cv; live = lv.0; begun = lv.1; settled = lv.2 }))))
