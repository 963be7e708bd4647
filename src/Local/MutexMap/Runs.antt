-- ===== src/Local/MutexMap/Runs.antt =====
-- The map of proc_mutex_map.go over all the steps of its goroutines.
use graftcp.Prelude.{ℕ, zero, suc, ◌≡◌, refl, ◌∙◌, Bytes, Bool, false, List, replicate}
use graftcp.Local.Pids.{PidAddrMap, range_pid_addr}
use graftcp.Local.MutexMap.{
  SharedMap, Place, outside, Step, store_locked, store_written, delete_locked, delete_written,
  unlocked, load_locked, load_read, load_unlocked, range_locked, range_begun, range_next,
  range_broken, range_ended, range_unlocked, Steps, start, step,
}
use graftcp.Local.MutexMap.Coherent.{
  writing, reading, total, Sees, AllSee, IsCoherent, locks, read_locks, read_unlocks, writes, reads,
  unlocks,
}

-- The mutex as Go makes it.
abbrev pub free_map : PidAddrMap → SharedMap
free_map entries = record { locked = false; readers = 0; pid_addr = entries }

module _ {S : Type 0} (f : S → Bytes → Bytes → S × Bool) where
  total-outside : (w : Place S → ℕ) (n : ℕ) → w outside ≡ 0 → total w (replicate n outside) ≡ 0
  unfolding total
  total-outside w zero e = refl
  total-outside w (suc n) e = rw (e, total-outside w n e) refl

  AllSee-outside : (m : PidAddrMap) (n : ℕ) → AllSee f m (replicate n outside)
  unfolding AllSee Sees
  AllSee-outside m zero = tt
  AllSee-outside m (suc n) = (tt, AllSee-outside m n)

  step-IsCoherent :
      (m n : SharedMap) (ps qs : List (Place S))
      → IsCoherent f m ps
      → Step f m ps n qs
      → IsCoherent f n qs
  unfolding writing reading Sees range_pid_addr
  step-IsCoherent m _ ps qs c (store_locked pid addr free alone move) =
      locks f m c refl refl (λ h. tt) free alone move
  step-IsCoherent m _ ps qs c (store_written pid addr move) = writes f m c _ refl refl move
  step-IsCoherent m _ ps qs c (delete_locked pid free alone move) =
      locks f m c refl refl (λ h. tt) free alone move
  step-IsCoherent m _ ps qs c (delete_written pid move) = writes f m c _ refl refl move
  step-IsCoherent m _ ps qs c (unlocked move) = unlocks f m c move
  step-IsCoherent m _ ps qs c (load_locked pid free move) =
      read_locks f m c refl refl (λ h. tt) free move
  step-IsCoherent m _ ps qs c (load_read pid move) = reads f m c refl refl (λ h. refl) move
  step-IsCoherent m _ ps qs c (load_unlocked pid found move) = read_unlocks f m c refl refl move
  step-IsCoherent m _ ps qs c (range_locked s free move) =
      read_locks f m c refl refl (λ h. tt) free move
  step-IsCoherent m _ ps qs c (range_begun s move) = reads f m c refl refl (λ h. refl) move
  step-IsCoherent m _ ps qs c (range_next s t pid addr rest more move) =
      reads f m c refl refl (λ h. h ∙ rw more refl) move
  step-IsCoherent m _ ps qs c (range_broken s t pid addr rest last move) =
      reads f m c refl refl (λ h. h ∙ rw last refl) move
  step-IsCoherent m _ ps qs c (range_ended s t move) = reads f m c refl refl (λ h. h) move
  step-IsCoherent m _ ps qs c (range_unlocked s t move) = read_unlocks f m c refl refl move

  -- Whatever the order of their steps, of the goroutines on a map that none holds at first: the
  -- mutex counts those behind Lock and those behind RLock; there is at most one behind Lock, and
  -- none behind RLock then; and what those behind RLock have read is what Local/Pids reads of the
  -- map as it is now, the value that a lookup has found, and the variables that the loop of
  -- RangePidAddr has changed once it is over.
  pub steps-IsCoherent :
      (entries : PidAddrMap) (n : ℕ) (m : SharedMap) (ps : List (Place S))
      → Steps f (free_map entries) (replicate n outside) m ps
      → IsCoherent f m ps
  unfolding writing reading
  steps-IsCoherent entries n _ _ start = record {
    writers = total-outside writing n refl;
    readers = total-outside reading n refl;
    apart = λ e. refl;
    sees = AllSee-outside entries n;
  }
  steps-IsCoherent entries n m ps (step {n = o} {qs = qs} before now) =
      step-IsCoherent o m qs ps (steps-IsCoherent entries n o qs before) now
