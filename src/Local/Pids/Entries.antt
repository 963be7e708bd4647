-- ===== src/Local/Pids/Entries.antt =====
-- The operations of the process map of graftcp-local (proc_sync_map.go) as a map.
use graftcp.Prelude.{
  ◌≡◌, refl, arith, Bytes, true, false, [], ◌∷◌, if◌then◌else◌, bytes_eq, bytes_eq_iff,
}
use graftcp.Local.Pids.{PidAddrMap, store_pid_addr, load_pid_addr, delete_pid_addr}

pub load-store :
    (pid addr q : Bytes) (m : PidAddrMap)
    → load_pid_addr q (store_pid_addr pid addr m)
      ≡ (if bytes_eq pid q then (addr, true) else load_pid_addr q m)
unfolding load_pid_addr store_pid_addr
load-store pid addr q [] = refl
load-store pid addr q ((p, a) ∷ m) =
    ground
      (arith, load-store pid addr q m, bytes_eq_iff p pid, bytes_eq_iff p q, bytes_eq_iff pid q)

load-delete :
    (pid q : Bytes) (m : PidAddrMap)
    → load_pid_addr q (delete_pid_addr pid m)
      ≡ (if bytes_eq pid q then ([], false) else load_pid_addr q m)
unfolding load_pid_addr delete_pid_addr
load-delete pid q [] = ground arith
load-delete pid q ((p, a) ∷ m) =
    ground (arith, load-delete pid q m, bytes_eq_iff p pid, bytes_eq_iff p q, bytes_eq_iff pid q)

-- A load after a store gives the new address for the pid and any other pid's address as before; a
-- load after a delete gives nothing for the pid, and any other pid's address as before.
pub load-store-delete :
    (pid addr q : Bytes) (m : PidAddrMap)
    → (load_pid_addr q (store_pid_addr pid addr m)
        ≡ (if bytes_eq pid q then (addr, true) else load_pid_addr q m))
      × (load_pid_addr q (delete_pid_addr pid m)
          ≡ (if bytes_eq pid q then ([], false) else load_pid_addr q m))
load-store-delete pid addr q m = (load-store pid addr q m, load-delete pid q m)
