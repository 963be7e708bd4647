-- ===== src/Local/MutexMap.antt =====
-- The process map of graftcp-local before Go 1.9 (proc_mutex_map.go), a map and a sync.RWMutex, as
-- the steps of the goroutines that call its functions.
pub mod Coherent
pub mod Runs
use graftcp.Prelude.{ℕ, ◌+◌, ◌-◌, ◌≡◌, Bytes, Bool, true, false, Option, none, some, List, [], ◌∷◌}
use graftcp.Local.Pids.{PidAddrMap, store_pid_addr, load_pid_addr, delete_pid_addr}

-- pidAddrMap: whether a goroutine is between Lock and Unlock, how many are between RLock and
-- RUnlock, and the entries, as in Local/Pids.
pub record SharedMap : Type 0 where
  pub locked : Bool
  pub readers : ℕ
  pub pid_addr : PidAddrMap

-- Where a goroutine stands: in none of the functions; behind Lock, RLock or the access to the map
-- that follows. RangePidAddr has an f that changes variables of type S, which had the first value
-- at the call.
pub data Place (S : Type 0) : Type 0 where
  outside : Place S
  storing : Bytes → Bytes → Place S
  deleting : Bytes → Place S
  written : Place S
  loading : Bytes → Place S
  loaded : Bytes → Bytes × Bool → Place S
  entering : S → Place S
  ranging : S → PidAddrMap → S → Place S
  ranged : S → S → Place S

-- One goroutine of several goes from a place to another.
pub data Moves {S : Type 0} (p q : Place S) : List (Place S) → List (Place S) → Type 0 where
  here : {ps : List (Place S)} → Moves p q (p ∷ ps) (q ∷ ps)
  there : {r : Place S} {ps qs : List (Place S)} → Moves p q ps qs → Moves p q (r ∷ ps) (r ∷ qs)

module _ {S : Type 0} (f : S → Bytes → Bytes → S × Bool) where
  -- Lock waits for all others, RLock for the goroutine behind Lock. (Go also lets a Lock that waits
  -- go before later calls of RLock; the relation has the runs where it does not, too.)
  pub data Step (m : SharedMap) (ps : List (Place S)) : SharedMap → List (Place S) → Type 0 where
    store_locked :
        {qs : List (Place S)} (pid addr : Bytes)
        → m.locked ≡ false
        → m.readers ≡ 0
        → Moves outside (storing pid addr) ps qs
        → Step m ps (record m { locked = true }) qs
    store_written :
        {qs : List (Place S)} (pid addr : Bytes)
        → Moves (storing pid addr) written ps qs
        → Step m ps (record m { pid_addr = store_pid_addr pid addr m.pid_addr }) qs
    delete_locked :
        {qs : List (Place S)} (pid : Bytes)
        → m.locked ≡ false
        → m.readers ≡ 0
        → Moves outside (deleting pid) ps qs
        → Step m ps (record m { locked = true }) qs
    delete_written :
        {qs : List (Place S)} (pid : Bytes)
        → Moves (deleting pid) written ps qs
        → Step m ps (record m { pid_addr = delete_pid_addr pid m.pid_addr }) qs
    unlocked :
        {qs : List (Place S)}
        → Moves written outside ps qs
        → Step m ps (record m { locked = false }) qs
    load_locked :
        {qs : List (Place S)} (pid : Bytes)
        → m.locked ≡ false
        → Moves outside (loading pid) ps qs
        → Step m ps (record m { readers = m.readers + 1 }) qs
    load_read :
        {qs : List (Place S)} (pid : Bytes)
        → Moves (loading pid) (loaded pid (load_pid_addr pid m.pid_addr)) ps qs
        → Step m ps m qs
    load_unlocked :
        {qs : List (Place S)} (pid : Bytes) (found : Bytes × Bool)
        → Moves (loaded pid found) outside ps qs
        → Step m ps (record m { readers = m.readers - 1 }) qs
    range_locked :
        {qs : List (Place S)} (s : S)
        → m.locked ≡ false
        → Moves outside (entering s) ps qs
        → Step m ps (record m { readers = m.readers + 1 }) qs
    range_begun :
        {qs : List (Place S)} (s : S)
        → Moves (entering s) (ranging s m.pid_addr s) ps qs
        → Step m ps m qs
    range_next :
        {qs : List (Place S)} (s t : S) (pid addr : Bytes) (rest : PidAddrMap)
        → (f t pid addr).1 ≡ true
        → Moves (ranging s ((pid, addr) ∷ rest) t) (ranging s rest (f t pid addr).0) ps qs
        → Step m ps m qs
    range_broken :
        {qs : List (Place S)} (s t : S) (pid addr : Bytes) (rest : PidAddrMap)
        → (f t pid addr).1 ≡ false
        → Moves (ranging s ((pid, addr) ∷ rest) t) (ranged s (f t pid addr).0) ps qs
        → Step m ps m qs
    range_ended :
        {qs : List (Place S)} (s t : S) → Moves (ranging s [] t) (ranged s t) ps qs → Step m ps m qs
    range_unlocked :
        {qs : List (Place S)} (s t : S)
        → Moves (ranged s t) outside ps qs
        → Step m ps (record m { readers = m.readers - 1 }) qs

  -- Any number of steps, of the goroutines in any order.
  pub data Steps (m : SharedMap) (ps : List (Place S)) : SharedMap → List (Place S) → Type 0 where
    start : Steps m ps m ps
    step :
        {n o : SharedMap} {qs rs : List (Place S)}
        → Steps m ps n qs
        → Step n qs o rs
        → Steps m ps o rs
