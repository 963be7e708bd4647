-- ===== src/Local/MutexMap/Coherent.antt =====
-- What the goroutines on the map of proc_mutex_map.go see of each other.
use graftcp.Prelude.{
  ℕ, ◌+◌, ◌-◌, ◌≡◌, arith, Bytes, Bool, true, false, List, [], ◌∷◌, if◌then◌else◌, ◌≤◌,
}
use graftcp.Local.Pids.{PidAddrMap, load_pid_addr, range_pid_addr}
use graftcp.Local.MutexMap.{
  SharedMap, Place, outside, storing, deleting, written, loading, loaded, entering, ranging, ranged,
  Moves, here, there,
}

module _ {S : Type 0} where
  -- Whether a goroutine is behind Lock, and whether it is behind RLock.
  unfoldable pub writing : Place S → ℕ
  writing outside = 0
  writing (storing pid addr) = 1
  writing (deleting pid) = 1
  writing written = 1
  writing (loading pid) = 0
  writing (loaded pid found) = 0
  writing (entering s) = 0
  writing (ranging s rest t) = 0
  writing (ranged s t) = 0

  unfoldable pub reading : Place S → ℕ
  reading outside = 0
  reading (storing pid addr) = 0
  reading (deleting pid) = 0
  reading written = 0
  reading (loading pid) = 1
  reading (loaded pid found) = 1
  reading (entering s) = 1
  reading (ranging s rest t) = 1
  reading (ranged s t) = 1

  unfoldable pub total : (Place S → ℕ) → List (Place S) → ℕ
  total w [] = 0
  total w (p ∷ ps) = w p + total w ps

  total-Moves :
      (w : Place S → ℕ) {p q : Place S} {ps qs : List (Place S)}
      → Moves p q ps qs
      → total w ps + w q ≡ total w qs + w p
  unfolding total
  total-Moves w here = omega arith
  total-Moves w (there move) = omega (arith, total-Moves w move)

  place-Moves :
      (w : Place S → ℕ) {p q : Place S} {ps qs : List (Place S)}
      → Moves p q ps qs
      → w p ≤ total w ps
  unfolding total
  place-Moves w here = omega arith
  place-Moves w (there move) = omega (arith, place-Moves w move)

  module _ (f : S → Bytes → Bytes → S × Bool) where
    -- What a goroutine has read so far is what it reads of the whole map, if this stays the one
    -- that it is now.
    unfoldable pub Sees : PidAddrMap → Place S → Type 0
    Sees m outside = Unit {0}
    Sees m (storing pid addr) = Unit {0}
    Sees m (deleting pid) = Unit {0}
    Sees m written = Unit {0}
    Sees m (loading pid) = Unit {0}
    Sees m (loaded pid found) = found ≡ load_pid_addr pid m
    Sees m (entering s) = Unit {0}
    Sees m (ranging s rest t) = range_pid_addr f s m ≡ range_pid_addr f t rest
    Sees m (ranged s t) = range_pid_addr f s m ≡ t

    unfoldable pub AllSee : PidAddrMap → List (Place S) → Type 0
    unfolding Sees
    AllSee m [] = Unit {0}
    AllSee m (p ∷ ps) = Sees m p × AllSee m ps

    AllSee-Moves :
        (m : PidAddrMap) {p q : Place S} {ps qs : List (Place S)}
        → (Sees m p → Sees m q)
        → Moves p q ps qs
        → AllSee m ps
        → AllSee m qs
    unfolding AllSee
    AllSee-Moves m see here h = (see (h.0), h.1)
    AllSee-Moves m see (there move) h = (h.0, AllSee-Moves m see move h.1)

    Sees-other : (m n : PidAddrMap) (p : Place S) → reading p ≡ 0 → Sees m p → Sees n p
    unfolding Sees reading
    Sees-other m n outside e h = tt
    Sees-other m n (storing pid addr) e h = tt
    Sees-other m n (deleting pid) e h = tt
    Sees-other m n written e h = tt
    Sees-other m n (loading pid) e h = tt
    Sees-other m n (loaded pid found) e h = absurd (ground arith)
    Sees-other m n (entering s) e h = tt
    Sees-other m n (ranging s rest t) e h = absurd (ground arith)
    Sees-other m n (ranged s t) e h = absurd (ground arith)

    AllSee-other :
        (m n : PidAddrMap) (ps : List (Place S)) → total reading ps ≡ 0 → AllSee m ps → AllSee n ps
    unfolding AllSee total
    AllSee-other m n [] e h = tt
    AllSee-other m n (p ∷ ps) e h =
        (Sees-other m n p (omega arith) h.0, AllSee-other m n ps (omega arith) h.1)

    -- The mutex counts the goroutines behind it; where one is behind Lock, none is behind RLock;
    -- and each has read what the map holds now.
    pub record IsCoherent (m : SharedMap) (ps : List (Place S)) : Type 0 where
      pub writers : total writing ps ≡ (if m.locked then 1 else 0)
      pub readers : total reading ps ≡ m.readers
      pub apart : m.locked ≡ true → m.readers ≡ 0
      pub sees : AllSee m.pid_addr ps

    module _ (m : SharedMap) {ps qs : List (Place S)} (c : IsCoherent m ps) where
      -- Lock, of a goroutine that is outside.
      pub locks :
          {q : Place S}
          → writing q ≡ 1
          → reading q ≡ 0
          → (Sees m.pid_addr outside → Sees m.pid_addr q)
          → m.locked ≡ false
          → m.readers ≡ 0
          → Moves outside q ps qs
          → IsCoherent (record m { locked = true }) qs
      unfolding writing reading
      locks w r see free alone move = record {
        writers = ground (arith, total-Moves writing move, c.writers);
        readers = ground (arith, total-Moves reading move, c.readers);
        apart = λ e. alone;
        sees = AllSee-Moves m.pid_addr see move c.sees;
      }

      -- RLock.
      pub read_locks :
          {q : Place S}
          → writing q ≡ 0
          → reading q ≡ 1
          → (Sees m.pid_addr outside → Sees m.pid_addr q)
          → m.locked ≡ false
          → Moves outside q ps qs
          → IsCoherent (record m { readers = m.readers + 1 }) qs
      unfolding writing reading
      read_locks w r see free move = record {
        writers = ground (arith, total-Moves writing move, c.writers);
        readers = ground (arith, total-Moves reading move, c.readers);
        apart = λ e. ground (arith);
        sees = AllSee-Moves m.pid_addr see move c.sees;
      }

      -- RUnlock.
      pub read_unlocks :
          {p : Place S}
          → writing p ≡ 0
          → reading p ≡ 1
          → Moves p outside ps qs
          → IsCoherent (record m { readers = m.readers - 1 }) qs
      unfolding writing reading Sees
      read_unlocks w r move = record {
        writers = ground (arith, total-Moves writing move, c.writers);
        readers = ground (arith, total-Moves reading move, c.readers);
        apart = λ e. ground (arith, c.apart e);
        sees = AllSee-Moves m.pid_addr (λ h. tt) move c.sees;
      }

      -- A write to the map.
      pub writes :
          {p : Place S} (n : PidAddrMap)
          → writing p ≡ 1
          → reading p ≡ 0
          → Moves p written ps qs
          → IsCoherent (record m { pid_addr = n }) qs
      unfolding writing reading Sees
      writes n w r move =
          let held : m.locked ≡ true = ground (arith, place-Moves writing move, c.writers) in
          let none_ : total reading ps ≡ 0 = ground (arith, c.readers, c.apart held) in
          record {
            writers = ground (arith, total-Moves writing move, c.writers);
            readers = ground (arith, total-Moves reading move, c.readers);
            apart = c.apart;
            sees = AllSee-Moves n (λ h. tt) move (AllSee-other m.pid_addr n ps none_ c.sees);
          }

      -- A step of a goroutine that stays behind RLock.
      pub reads :
          {p q : Place S}
          → writing p ≡ writing q
          → reading p ≡ reading q
          → (Sees m.pid_addr p → Sees m.pid_addr q)
          → Moves p q ps qs
          → IsCoherent m qs
      reads w r see move = record {
        writers = ground (arith, total-Moves writing move, c.writers);
        readers = ground (arith, total-Moves reading move, c.readers);
        apart = c.apart;
        sees = AllSee-Moves m.pid_addr see move c.sees;
      }

      pub unlocks : Moves written outside ps qs → IsCoherent (record m { locked = false }) qs
      unfolding writing reading Sees
      unlocks move = record {
        writers = ground (arith, total-Moves writing move, place-Moves writing move, c.writers);
        readers = ground (arith, total-Moves reading move, c.readers);
        apart = λ e. ground arith;
        sees = AllSee-Moves m.pid_addr (λ h. tt) move c.sees;
      }
