-- ===== src/Tests/Start.antt =====
-- The start of main, on a sample command line: -p 80 -b FILE, where FILE has 10.0.0.1.
use graftcp.Prelude.{◌≡◌, refl, arith, Bytes, true, some, none, List, [], ◌∷◌}
use graftcp.StringSet.{ok, exit}
use graftcp.Options.Refusals.{refusal, start-refusal}
use graftcp.Address.{sin_addr, sin6_addr, af_inet, af_inet6}
use graftcp.Handlers.{Config}
use graftcp.Options.{Host, Opt, opt_p, opt_b, opt_h, start, main, sockaddr_in, sockaddr_in6}
use graftcp.Options.Start.{Configured, start-Configured}
use graftcp.Options.Proxy.{Reads, sockaddr-Reads}
use graftcp.Options.Main.{initial_world, main-outcome}
use graftcp.Trace.Loop.{TraceOutcome}
use graftcp.Uthash.Chain.{chain_table, chain_laws}
use graftcp.Kernel.{in_parent}
use graftcp.Spawn.{init}
use graftcp.Spawn.Program.{spawned, init-spawned}
use graftcp.Tests.Machine.{Machine, machine, machine_schedule}
use graftcp.Tests.Samples.{libc, stopped, are_bytes-AreBytes}

abbrev pub four_bytes : Bytes
four_bytes = 127 ∷ 0 ∷ 0 ∷ 1 ∷ []

abbrev pub sixteen_bytes : Bytes
sixteen_bytes = 0 ∷ 0 ∷ 0 ∷ 0 ∷ 0 ∷ 0 ∷ 0 ∷ 0 ∷ 0 ∷ 0 ∷ 0 ∷ 0 ∷ 0 ∷ 0 ∷ 0 ∷ 1 ∷ []

-- Every number is 80, every file is the line 10.0.0.1, and every name is 127.0.0.1.
instance abbrev pub host : Host
host = record {
  atoi = λ p. 80;
  file = λ f. some (b'1' ∷ b'0' ∷ b'.' ∷ b'0' ∷ b'.' ∷ b'0' ∷ b'.' ∷ b'1' ∷ b'\n' ∷ []);
  inet_aton = λ a. some four_bytes;
  gethostbyname = λ a. none;
  inet_pton6 = λ a. some sixteen_bytes;
  opens = λ f. true;
  errno = 2;
}

abbrev command_line : List Opt
command_line = opt_p (b'8' ∷ b'0' ∷ []) ∷ opt_b (b'/' ∷ b'b' ∷ []) ∷ []

start-Configured_example :
    (cfg : Config) × (start command_line ≡ ok cfg)
    × Configured command_line four_bytes sixteen_bytes cfg
start-Configured_example =
    start-Configured command_line four_bytes sixteen_bytes refl refl refl refl

sockaddr-Reads_example :
    Reads af_inet 80 16 four_bytes
      (sin_addr (sockaddr_in 80 four_bytes))
      (sockaddr_in 80 four_bytes)
    × Reads af_inet6 80 28 sixteen_bytes
        (sin6_addr (sockaddr_in6 80 sixteen_bytes))
        (sockaddr_in6 80 sixteen_bytes)
sockaddr-Reads_example =
    sockaddr-Reads 80 four_bytes sixteen_bytes (omega arith) refl
      (are_bytes-AreBytes four_bytes refl) refl (are_bytes-AreBytes sixteen_bytes refl)

-- "ls"
abbrev program : List Bytes
program = (b'l' ∷ b's' ∷ []) ∷ []

abbrev pub machine_at_start : Machine
machine_at_start = stopped 4 4096 42 ((100, 0x137f) ∷ (100, 0x57f) ∷ (100, 0) ∷ [])

main-outcome_example : TraceOutcome (main command_line program 4 (initial_world machine_at_start))
main-outcome_example = main-outcome command_line program 4 machine_at_start (omega arith)

init-spawned_example :
    init program (initial_world machine_at_start)
    ≡ spawned program (initial_world machine_at_start) (in_parent 100, machine_at_start)
init-spawned_example = init-spawned program (initial_world machine_at_start)

-- -p 80 --help
start-refusal_example : start (opt_p (b'8' ∷ b'0' ∷ []) ∷ opt_h ∷ []) ≡ exit 0
unfolding refusal
start-refusal_example = start-refusal (opt_p (b'8' ∷ b'0' ∷ []) ∷ opt_h ∷ []) 0 refl
