-- ===== src/Tests/Local.antt =====
-- graftcp-local on samples: two processes, 100 and 101, of which 100 holds the socket with inode 7.
use mathlib.Core.List.{Memᴰ, Permᴰ}
use graftcp.Prelude.{
  ℕ, ◌≡◌, ◌⊎◌, refl, ap, arith, Bytes, true, false, some, List, [], ◌∷◌, map, if◌then◌else◌,
  bytes_eq, bytes_eq_iff, Bool-cases, inl, inr, codes, ◌==◌,
}
use graftcp.Address.{decimal, fifo_line}
use graftcp.Local.{pieces, parse_line, read_line}
use graftcp.Local.Lines.{avoids, shown}
use graftcp.Local.Pids.{
  ProcFs, PidAddrMap, load_pid_addr, delete_pid_addr, get_pid_by_addr, stores, store_all,
  range_pid_addr, has_include_inode, contains, has_prefix, socket_link,
}
use graftcp.Local.Pids.Search.{AtoiLaw, IsFound, is_ever_held, get_pid_by_addr-finds}
use graftcp.Local.Pids.Stores.{Destination, IsPlain, line}
use graftcp.Local.Relay.{
  Action, dialed, proxy_selector, Local, Dialers, Network, new_local, set_select_mode, handle_conn,
}
use graftcp.Local.Relay.Dials.{AreProxied, handle_conn-AreProxied}
use graftcp.Local.Relay.Delivery.{AreDistinct, handle_conn-delivers}
use graftcp.Local.Relay.Auto.{handle_conn-reached}

-- "socket:[7]" is the target of every descriptor of process 100.
abbrev files : ProcFs
files = record {
  atoi = λ pid. if bytes_eq pid [] then 0 else 100;
  glob_fds = λ pid. if bytes_eq pid (codes "100") then codes "/proc/100/fd/3" ∷ [] else [];
  glob_task_fds = λ pid. [];
  readlink = λ name. codes "socket:[7]";
}

abbrev entries : PidAddrMap
entries = (codes "101", codes "10.0.0.2:80") ∷ (codes "100", codes "10.0.0.1:80") ∷ []

-- The map is empty in the first try.
abbrev moments : ℕ → ProcFs × PidAddrMap
moments i = (files, (if i == 0 then [] else entries))

get_pid_by_addr-finds_example :
    (IsFound (codes "7") moments (get_pid_by_addr (some (codes "7")) moments entries).0 3 0
      × ((get_pid_by_addr (some (codes "7")) moments entries).1
          ≡ delete_pid_addr (get_pid_by_addr (some (codes "7")) moments entries).0.0 entries))
    ⊎ ((is_ever_held (codes "7") moments 3 0 ≡ false)
        × (get_pid_by_addr (some (codes "7")) moments entries ≡ (([], []), entries)))
unfolding bytes_eq
get_pid_by_addr-finds_example = get_pid_by_addr-finds (codes "7") moments (λ i. refl) entries

found_pid :
    get_pid_by_addr (some (codes "7")) moments entries
    ≡ ((codes "100", codes "10.0.0.1:80"), (codes "101", codes "10.0.0.2:80") ∷ [])
unfolding get_pid_by_addr range_pid_addr has_include_inode bytes_eq contains has_prefix socket_link
    delete_pid_addr
found_pid = refl

abbrev first : Destination
first = record { ip = codes "10.0.0.1"; port = 80; pid = 100 }

abbrev second : Destination
second = record { ip = codes "::1"; port = 443; pid = 101 }

-- The goroutine of the second line runs first.
abbrev swapped : List (Bytes × Bytes)
swapped = (codes "101", codes "[::1]:443") ∷ (codes "100", codes "10.0.0.1:80") ∷ []

both-IsPlain : (d : Destination) → Memᴰ d (first ∷ second ∷ []) → IsPlain d
unfolding IsPlain avoids
both-IsPlain d (Memᴰ.head e) = rw e (refl, omega arith)
both-IsPlain d (Memᴰ.tail (Memᴰ.head e)) = rw e (refl, omega arith)
both-IsPlain d (Memᴰ.tail (Memᴰ.tail q)) = elim q [ ]

first-sole : (d : Destination) → Memᴰ d (first ∷ second ∷ []) → d.pid ≡ first.pid → d ≡ first
first-sole d (Memᴰ.head e) same = e
first-sole d (Memᴰ.tail (Memᴰ.head e)) same =
    let pid : d.pid ≡ 101 = ap (λ x. x.pid) e in absurd (omega arith)
first-sole d (Memᴰ.tail (Memᴰ.tail q)) same = elim q [ ]

swapped-Perm : Permᴰ swapped (stores (map line (first ∷ second ∷ [])))
unfolding stores line fifo_line parse_line read_line decimal pieces
swapped-Perm = Permᴰ.swap refl refl

-- Dialer 1 is SOCKS5, 2 the HTTP proxy, 3 direct; no proxy can be reached.
abbrev dialers : Dialers ℕ
dialers = record {
  resolve = λ addr. some addr;
  socks5 = λ addr user. some 1;
  from_url = λ url. some 2;
  direct = 3;
}

abbrev network : Network ℕ
network = record { dial = λ d addr. d == 3; net_dial = λ addr. true }

abbrev relay_local : ℕ → Local ℕ
relay_local mode = record {
  faddr = codes ":2233";
  faddr_string = codes ":2233";
  socks5_dialer = some 1;
  http_proxy_dialer = some 2;
  direct_dialer = some 3;
  select_mode = mode;
}

handle_conn-AreProxied_example :
    AreProxied
      (relay_local 2)
      (handle_conn network 0 (relay_local 2) (some (codes "7")) moments entries).0.0
handle_conn-AreProxied_example =
    handle_conn-AreProxied network 0 (relay_local 2) (some (codes "7")) moments entries refl refl

handle_conn-reached_example :
    (handle_conn network 0
      (set_select_mode (codes "auto") (relay_local 0))
      (some (codes "7"))
      moments
      entries).0.1
    ≡ false
unfolding new_local
handle_conn-reached_example =
    handle_conn-reached dialers (codes ":2233") (codes "127.0.0.1:1080") [] []
      (codes "127.0.0.1:8080") (relay_local 0) network 0 (some (codes "7")) moments entries
      (codes "100") (codes "10.0.0.1:80") refl (ap (λ r. r.0) found_pid) (λ e. cc) (λ e. cc) refl

abbrev after_lines : ℕ → ProcFs × PidAddrMap
after_lines i = (files, store_all swapped entries)

entries-AreDistinct : AreDistinct entries
unfolding AreDistinct load_pid_addr bytes_eq
entries-AreDistinct = (refl, (refl, tt))

holds_seven : has_include_inode files (decimal 100) (codes "7") ≡ true
unfolding has_include_inode decimal bytes_eq contains has_prefix socket_link
holds_seven = refl

alone : (p : Bytes) → has_include_inode files p (codes "7") ≡ true → p ≡ decimal 100
unfolding has_include_inode decimal
alone p h = elim (Bool-cases (bytes_eq p (codes "100"))) [
  | inl same ↦ (bytes_eq_iff p (codes "100")).0 same
  | inr other ↦ let never = rw other at h in absurd (ground arith)
]

no_text-zero : AtoiLaw after_lines
unfolding bytes_eq
no_text-zero i = refl

handle_conn-delivers_example :
    (rest : List (Action ℕ)) × ((handle_conn network 0
        (relay_local 2)
        (some (codes "7"))
        after_lines
        entries).0.0
      ≡ dialed 1 (shown (codes "10.0.0.1") (decimal 80)) ∷ rest)
unfolding proxy_selector
handle_conn-delivers_example =
    handle_conn-delivers network 0 (relay_local 2) 1 (first ∷ second ∷ []) swapped entries first
      (codes "7") after_lines entries refl both-IsPlain swapped-Perm (Memᴰ.head refl) first-sole
      entries-AreDistinct no_text-zero refl holds_seven alone
