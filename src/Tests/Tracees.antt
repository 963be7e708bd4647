-- ===== src/Tests/Tracees.antt =====
-- The reads and writes of a process's memory, on a sample process.
use graftcp.Prelude.{◌≡◌, refl, arith, Bytes, [], ◌∷◌, ◌++◌, get_or, replicate, AreBytes}
use graftcp.Tracee.{getdata, putdata}
use graftcp.Tracee.Memory.{Reachable}
use graftcp.Tracee.Overlay.{over}
use graftcp.Tracee.Writes.{padding, putdata-over, putdata-overrun}
use graftcp.Tracee.RoundTrip.{getdata-putdata}
use graftcp.Tests.Machine.{Machine, machine, machine_memory, machine_registers}
use graftcp.Tests.Samples.{stopped, are_bytes-AreBytes}

abbrev pub at_rest : Machine
at_rest = stopped 4 4096 42 []

-- A source of eleven bytes: one whole word and three bytes more.
abbrev pub eleven : Bytes
eleven = 1 ∷ 2 ∷ 3 ∷ 4 ∷ 5 ∷ 6 ∷ 7 ∷ 8 ∷ 9 ∷ 10 ∷ 11 ∷ []

abbrev pub zeros : Bytes
zeros = replicate 8 0

pub eleven-AreBytes : AreBytes eleven
eleven-AreBytes = are_bytes-AreBytes eleven refl

pub zeros-AreBytes : AreBytes zeros
zeros-AreBytes = are_bytes-AreBytes zeros refl

pub at_rest-Reachable : Reachable at_rest 100 4096 11
at_rest-Reachable i h = refl

putdata-over_example :
    machine_memory.byte (putdata zeros at_rest 100 4096 eleven 11) 100 4100
    ≡ over (machine_memory.byte at_rest) 100 4096 (eleven ++ padding zeros eleven 11) 100 4100
putdata-over_example =
    putdata-over zeros at_rest 100 4096 eleven (omega arith) at_rest-Reachable eleven-AreBytes
      zeros-AreBytes refl 100 4100

putdata-overrun_example :
    machine_memory.byte (putdata zeros at_rest 100 4096 eleven 11) 100 4108 ≡ get_or eleven 4 0
putdata-overrun_example =
    putdata-overrun zeros at_rest 100 4096 eleven 12 (omega arith) at_rest-Reachable eleven-AreBytes
      zeros-AreBytes refl (omega arith) (omega arith) (omega arith)

getdata-putdata_example : getdata (putdata zeros at_rest 100 4096 eleven 11) 100 4096 11 ≡ eleven
getdata-putdata_example =
    getdata-putdata zeros at_rest 100 4096 eleven (omega arith) at_rest-Reachable eleven-AreBytes
      zeros-AreBytes refl
