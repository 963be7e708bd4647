-- ===== src/Options/Told.antt =====
-- graftcp from its options to the lines in the fifo: main of main.c in the parent of the program
-- that it runs.
use graftcp.Prelude.{
  ℕ, ◌<◌, ◌≡◌, sym, ◌∙◌, Bytes, Bool, true, false, ◌||◌, ◌&&◌, not, some, List, [], ◌∷◌, ◌++◌, map,
}
use graftcp.Kernel.{Kernel, in_parent}
use graftcp.Uthash.{Uthash, UthashLaws}
use graftcp.World.{Outcome, done, exit, replaced, fault, out_of_fuel}
use graftcp.Tracee.Memory.{MemoryLaws}
use graftcp.Tracee.Fifo.{FifoLaws}
use graftcp.Tracee.Reaches.{EventLaws}
use graftcp.Address.{Libc}
use graftcp.Handlers.{Config}
use graftcp.Handlers.Connect.{Destination}
use graftcp.Spawn.Program.{tracked, init-spawned}
use graftcp.Trace.{Ret, do_trace}
use graftcp.Trace.Phases.{Phase, phase_of}
use graftcp.Trace.Spec.{Runs, Quits}
use graftcp.Trace.Told.{ApartLaws, told, said, AreNew, TellsOnly, do_trace-TellsOnly}
use graftcp.Options.{Host, Opt, local_addr_literal, local_pipe_literal, loopback6, begin, main}
use graftcp.Options.Reading.{
  last_addr, last_fifo, ignores_local, has_white, in_black, in_white, usable,
}
use graftcp.Options.Start.{is_local, resolved, Configured, start-Configured}
use graftcp.Options.Main.{initial_world, tracked-IsConsistent}

module _ ⦃host : Host⦄ where
  -- The options say that connects to an address are left alone.
  unfoldable pub excluded : List Opt → Bytes → Bool
  excluded opts q =
      (in_black opts q
        || (ignores_local opts && is_local (last_addr opts local_addr_literal).chars q))
      || (has_white opts && not (in_white opts q))

  pub AreWanted : List Opt → List (ℕ × Destination) → Type 0
  AreWanted opts [] = Unit {0}
  AreWanted opts ((pid, d) ∷ ds) = (excluded opts d.ip ≡ false) × AreWanted opts ds

  AreNew-AreWanted :
      (opts : List Opt) (addr addr6 : Bytes) (cfg : Config) (ds : List (ℕ × Destination))
      → Configured opts addr addr6 cfg
      → AreNew cfg ds
      → AreWanted opts ds
  unfolding AreNew AreWanted excluded
  AreNew-AreWanted opts addr addr6 cfg [] c h = tt
  AreNew-AreWanted opts addr addr6 cfg ((pid, d) ∷ ds) c h =
      (sym (c.ignored d.ip) ∙ h.0, AreNew-AreWanted opts addr addr6 cfg ds c h.1)

  module _ ⦃kernel : Kernel⦄ ⦃memory : MemoryLaws⦄ ⦃fifo : FifoLaws⦄ ⦃apart : ApartLaws⦄
      ⦃libc : Libc⦄ ⦃uthash : Uthash⦄ ⦃laws : UthashLaws⦄ ⦃schedule : EventLaws⦄ where
    open kernel use {State}

    -- What the program has left in the fifo where it returns: the lines of the redirected connects
    -- of its run with a configuration as the options say.
    abbrev pub Announces : List Opt → Bytes → Bytes → State → (ℕ → Phase) → Outcome Ret → Type 0
    Announces opts addr addr6 s f (done ret r) =
        (cfg : Config) × Configured opts addr addr6 cfg
        × ((run : Runs cfg s f ret r.system) × AreWanted opts (said cfg run)
            × (fifo.lines r.system ≡ fifo.lines s ++ map told (said cfg run)))
    Announces opts addr addr6 s f (exit n r) =
        (cfg : Config) × Configured opts addr addr6 cfg × Quits cfg s f n
    Announces opts addr addr6 s f (replaced r) = ⊥
    Announces opts addr addr6 s f fault = ⊥
    Announces opts addr addr6 s f out_of_fuel = ⊥

    TellsOnly-Announces :
        (opts : List Opt) (addr addr6 : Bytes) (cfg : Config) (s : State) (f : ℕ → Phase)
        (o : Outcome Ret)
        → Configured opts addr addr6 cfg
        → TellsOnly cfg s f o
        → Announces opts addr addr6 s f o
    TellsOnly-Announces opts addr addr6 cfg s f (done ret r) c (run, unlisted, lines) =
        (cfg, c, (run, AreNew-AreWanted opts addr addr6 cfg (said cfg run) c unlisted, lines))
    TellsOnly-Announces opts addr addr6 cfg s f (exit n r) c h = (cfg, c, h)
    TellsOnly-Announces opts addr addr6 cfg s f (replaced r) c h = h
    TellsOnly-Announces opts addr addr6 cfg s f fault c h = h
    TellsOnly-Announces opts addr addr6 cfg s f out_of_fuel c h = h

    -- graftcp has read its options and the words of a program. Every option is known, the
    -- files can be opened, the local address resolves, inet_pton gives the bytes of ::1 and
    -- the fifo opens; fork succeeds, and wait then has fewer events to come than there are
    -- rounds. Then the parent returns from a run of the machine of Trace/Spec, with a
    -- configuration as start-Configured says and only the child in the table, that has left
    -- in the fifo exactly the lines of the connects that it has redirected, in their order,
    -- but those whose write has failed: each line has the address and the port that the
    -- process had written, and its number. Each address is one that no black list file has
    -- as a line (of at least six bytes; a last line with no newline without its last byte),
    -- that is not the text of the last -a or 0.0.0.0 unless -n is given, and that the white
    -- list files have as such a line if there are any. Or the parent exits, as that machine
    -- does.
    pub main-Announces :
        (opts : List Opt) (prog : List Bytes) (addr addr6 : Bytes) (fuel child : ℕ) (k k' : State)
        → usable opts ≡ true
        → resolved (last_addr opts local_addr_literal).chars ≡ some addr
        → host.inet_pton6 loopback6 ≡ some addr6
        → host.opens (last_fifo opts local_pipe_literal) ≡ true
        → kernel.fork k ≡ (in_parent child, k')
        → schedule.events k' < fuel
        → Announces opts addr addr6 k'
            (phase_of (tracked (initial_world k') child))
            (main opts prog fuel (initial_world k))
    unfolding main begin
    main-Announces opts prog addr addr6 fuel child k k' usable_ res pton open_ fork_ few =
        let (cfg, run, c) = start-Configured opts addr addr6 usable_ res pton open_ in
        let w = tracked (initial_world k') child in
        rw (run, init-spawned prog (initial_world k), fork_)
          (TellsOnly-Announces opts addr addr6 cfg k' (phase_of w) (do_trace cfg fuel w) c
            (do_trace-TellsOnly cfg fuel w (tracked-IsConsistent k' child) few))
