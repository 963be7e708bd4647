-- ===== src/Tests/Told.antt =====
-- graftcp with the options of a sample, curl -v, from main to the fifo.
use graftcp.Prelude.{refl, arith, Bytes, List, [], ◌∷◌, codes}
use graftcp.Uthash.Chain.{chain_table, chain_laws}
use graftcp.Spawn.Program.{tracked}
use graftcp.Trace.Phases.{phase_of}
use graftcp.Options.{Opt, opt_a, opt_p, opt_b, opt_n, main}
use graftcp.Options.Main.{initial_world}
use graftcp.Options.Told.{Announces, main-Announces}
use graftcp.Tests.Machine.{machine, machine_memory, machine_fifo, machine_schedule}
use graftcp.Tests.Samples.{libc}
use graftcp.Tests.Runs.{machine_apart}
use graftcp.Tests.Start.{host, machine_at_start, four_bytes, sixteen_bytes}

-- -n -p3000 --local-addr=10.0.0.9 --blackip-file list
abbrev given : List Opt
given =
    opt_n
    ∷ opt_p (codes "3000")
    ∷ opt_a (record { address = 123; chars = codes "10.0.0.9" })
    ∷ opt_b (codes "list")
    ∷ []

abbrev curl : List Bytes
curl = codes "curl" ∷ codes "-v" ∷ []

main-Announces_example :
    Announces given four_bytes sixteen_bytes machine_at_start
      (phase_of (tracked (initial_world machine_at_start) 100))
      (main given curl 4 (initial_world machine_at_start))
main-Announces_example =
    main-Announces given curl four_bytes sixteen_bytes 4 100 machine_at_start machine_at_start refl
      refl refl refl refl (omega arith)
