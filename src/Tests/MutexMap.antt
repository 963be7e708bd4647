-- ===== src/Tests/MutexMap.antt =====
-- Two goroutines on the map before Go 1.9: one stores, and the other is in RangePidAddr behind the
-- break of its loop.
use graftcp.Prelude.{refl, Bytes, Bool, false, List, [], ◌∷◌, codes, replicate}
use graftcp.Local.Pids.{PidAddrMap, store_pid_addr}
use graftcp.Local.MutexMap.{
  SharedMap, Place, outside, ranged, here, there, store_locked, store_written, unlocked,
  range_locked, range_begun, range_broken, Steps, start, step,
}
use graftcp.Local.MutexMap.Coherent.{IsCoherent}
use graftcp.Local.MutexMap.Runs.{free_map, steps-IsCoherent}

abbrev first_entry : Bytes × Bytes → Bytes → Bytes → (Bytes × Bytes) × Bool
first_entry found pid addr = ((pid, addr), false)

abbrev one : PidAddrMap
one = (codes "5678", codes "127.0.0.1:1234") ∷ []

abbrev after_run : SharedMap
after_run = record { locked = false; readers = 1; pid_addr = one }

abbrev places : List (Place (Bytes × Bytes))
places = outside ∷ ranged ([], []) (codes "5678", codes "127.0.0.1:1234") ∷ []

two_calls : Steps first_entry (free_map []) (replicate 2 outside) after_run places
unfolding store_pid_addr
two_calls =
    step
      (step
        (step
          (step
            (step (step start (store_locked (codes "5678") (codes "127.0.0.1:1234") refl refl here))
              (store_written (codes "5678") (codes "127.0.0.1:1234") here))
            (unlocked here))
          (range_locked ([], []) refl (there here)))
        (range_begun ([], []) (there here)))
      (range_broken ([], []) ([], []) (codes "5678") (codes "127.0.0.1:1234") [] refl (there here))

steps-IsCoherent_example : IsCoherent first_entry after_run places
steps-IsCoherent_example = steps-IsCoherent first_entry [] 2 after_run places two_calls
