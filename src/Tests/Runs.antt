-- ===== src/Tests/Runs.antt =====
-- Runs of the whole loop, on samples.
use graftcp.Prelude.{refl, arith}
use graftcp.Uthash.Chain.{chain_table, chain_laws}
use graftcp.Trace.{do_trace}
use graftcp.Trace.Phases.{phase_of}
use graftcp.Trace.Loop.{Follows, do_trace-Follows}
use graftcp.Trace.Told.{ApartLaws, TellsOnly, do_trace-TellsOnly}
use graftcp.Tests.Machine.{
  machine, machine_memory, machine_fifo, machine_schedule, next_event-lines,
}
use graftcp.Tests.Samples.{libc, config, with_socket-IsConsistent}
use graftcp.Tests.Calls.{at_start}

instance abbrev pub machine_apart :
    ApartLaws ⦃kernel = machine⦄ ⦃memory = machine_memory⦄ ⦃fifo = machine_fifo⦄
machine_apart = record {
  lines-pokeuser = λ m pid o v. refl;
  lines-setoptions = λ m pid. refl;
  lines-resume = λ m pid sig. refl;
  lines-wait = λ m. next_event-lines m m.queue;
  lines-usleep = λ m n. refl;
}

do_trace-Follows_example :
    Follows config at_start.system (phase_of at_start) (do_trace config 4 at_start)
do_trace-Follows_example =
    do_trace-Follows config 4 at_start (with_socket-IsConsistent at_start.system) (omega arith)

do_trace-TellsOnly_example :
    TellsOnly config at_start.system (phase_of at_start) (do_trace config 4 at_start)
do_trace-TellsOnly_example =
    do_trace-TellsOnly config 4 at_start (with_socket-IsConsistent at_start.system) (omega arith)
