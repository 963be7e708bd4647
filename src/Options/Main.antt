-- ===== src/Options/Main.antt =====
-- main of main.c from the first option to its end.
use graftcp.Prelude.{ℕ, ◌<◌, ◌≡◌, refl, Option, none, some, List, Bytes, Option-cases, inl, inr}
use graftcp.Kernel.{Kernel, Fork, fork_failed, in_child, in_parent}
use graftcp.Uthash.{Uthash, UthashLaws, int_key}
use graftcp.World.{and_then, Cmd, World}
use graftcp.World.Consistent.{
  IsConsistent, IsKeyed, IsKeyed-add, empty-IsUnique, add-IsUnique, proc_field, socket_field,
}
use graftcp.Tracee.Reaches.{EventLaws}
use graftcp.Address.{Libc}
use graftcp.StringSet.{Run}
use graftcp.Handlers.{Config}
use graftcp.Spawn.Program.{spawned, tracked, first_proc, init-spawned, executed}
use graftcp.Trace.{do_trace, Ret}
use graftcp.Trace.Loop.{TraceOutcome, do_trace-outcome}
use graftcp.Options.{Host, Opt, start, begin, main}

module _ ⦃kernel : Kernel⦄ ⦃uthash : Uthash⦄ where
  -- The world when main starts: both tables are NULL, and no struct is allocated.
  abbrev pub initial_world : kernel.State → World
  initial_world k = record {
    system = k;
    socket_info_tab = uthash.empty;
    proc_info_tab = uthash.empty;
    sockets = λ p. none;
    procs = λ p. none;
    brk = 1;
  }

  module _ ⦃laws : UthashLaws⦄ where
    empty-IsKeyed : {A : Type 0} (key : A → ℕ) (n : ℕ) → IsKeyed key uthash.empty (λ p. none) n
    empty-IsKeyed key n = record {
      live = λ k p e. cc (e, laws.holds-empty k p);
      free = λ p e. refl;
    }

    find-empty : (k : ℕ) → uthash.find uthash.empty k ≡ none
    find-empty k = elim (Option-cases (uthash.find uthash.empty k)) [
      | inl none_ ↦ none_
      | inr (p, e) ↦ cc (laws.holds-empty k p, laws.holds-find uthash.empty k p e)
    ]

    pub tracked-IsConsistent :
        (k : kernel.State) (child : ℕ) → IsConsistent (tracked (initial_world k) child)
    tracked-IsConsistent k child = record {
      sockets_keyed = empty-IsKeyed socket_field 2;
      procs_keyed = IsKeyed-add proc_field _ _ _ (empty-IsKeyed proc_field 1) (first_proc child);
      procs_unique =
          add-IsUnique uthash.empty (int_key child) 1 (find-empty (int_key child)) empty-IsUnique;
    }

    module _ ⦃host : Host⦄ ⦃libc : Libc⦄ ⦃schedule : EventLaws⦄ where
      executed-TraceOutcome :
          (w : World) (e : Option ℕ × kernel.State) (next : Unit {0} → Cmd Ret)
          → TraceOutcome (and_then (executed w e) next)
      executed-TraceOutcome w (none, k) next = tt
      executed-TraceOutcome w (some errno, k) next = tt

      traced-outcome :
          (cfg : Config) (prog : List Bytes) (k : kernel.State) (fuel : ℕ) (f : Fork × kernel.State)
          → schedule.events f.1 < fuel
          → TraceOutcome (and_then (spawned prog (initial_world k) f) (λ _. do_trace cfg fuel))
      traced-outcome cfg prog k fuel (fork_failed errno, k') few = tt
      traced-outcome cfg prog k fuel (in_parent child, k') few =
          do_trace-outcome cfg fuel (tracked (initial_world k') child)
            (tracked-IsConsistent k' child) few
      traced-outcome cfg prog k fuel (in_child, k') few =
          executed-TraceOutcome (initial_world k) _ (λ _. do_trace cfg fuel)

      begin-outcome :
          (o : Run Config) (prog : List Bytes) (fuel : ℕ) (k : kernel.State)
          → schedule.events (kernel.fork k).1 < fuel
          → TraceOutcome (begin o prog fuel (initial_world k))
      unfolding begin
      begin-outcome (Run.exit n) prog fuel k few = tt
      begin-outcome (Run.ok cfg) prog fuel k few =
          rw (init-spawned prog (initial_world k))
            (traced-outcome cfg prog k fuel (kernel.fork k) few)

      -- For any options and any program, and with one round more than wait has events to come once
      -- the program is forked, main from empty tables exits, becomes the program in the child, or
      -- returns what do_trace returns in a consistent world: it follows no dangling pointer and
      -- does not run out of rounds.
      pub main-outcome :
          (opts : List Opt) (prog : List Bytes) (fuel : ℕ) (k : kernel.State)
          → schedule.events (kernel.fork k).1 < fuel
          → TraceOutcome (main opts prog fuel (initial_world k))
      unfolding main
      main-outcome opts prog fuel k few = begin-outcome (start opts) prog fuel k few
