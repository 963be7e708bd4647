-- ===== src/Tests/Samples.antt =====
-- Sample worlds: one process, 100, whose proc_info is at 1, and its TCP socket 4, whose socket_info
-- is at 2.
use graftcp.Prelude.{
  le_bytes, le_word, ℕ, ◌-◌, ◌≡◌, refl, arith, Bytes, none, some, List, [], ◌∷◌, leb, ◌==◌,
  if◌then◌else◌, get_or, Bool, true, ◌&&◌, ltb, AreBytes, Option,
}
use graftcp.Kernel.{in_parent}
use graftcp.Uthash.{int_key}
use graftcp.Uthash.Chain.{chain_table, chain_laws, chain_holds-empty, chain_find, Elements}
use graftcp.World.{World, SocketInfo, ProcInfo, update}
use graftcp.World.Consistent.{
  IsUnique, empty-IsUnique, add-IsUnique, IsKeyed, IsKeyed-add, IsKeyed-grow, IsConsistent,
  socket_field, proc_field,
}
use graftcp.Tracee.{getdata}
use graftcp.Tracee.Memory.{bytes_at}
use graftcp.Address.{Libc, decimal, inet_ntoa, sa_family, sa_port, sin_addr}
use graftcp.Handlers.{Config}
use graftcp.Handlers.Connect.{Destination, destination}
use graftcp.Tests.Machine.{Machine, machine}

-- In place of inet_ntop: the last group alone.
instance abbrev pub libc : Libc
libc = record { inet_ntop6 = λ a. b':' ∷ b':' ∷ decimal (get_or a 15 0) }

-- A sockaddr_in of 10.0.0.1:8080, and the one of the proxy.
abbrev pub sockaddr : Bytes
sockaddr = 2 ∷ 0 ∷ 31 ∷ 144 ∷ 10 ∷ 0 ∷ 0 ∷ 1 ∷ 0 ∷ 0 ∷ 0 ∷ 0 ∷ 0 ∷ 0 ∷ 0 ∷ 0 ∷ []

abbrev pub proxy_sockaddr : Bytes
proxy_sockaddr = 2 ∷ 0 ∷ 9 ∷ 145 ∷ 127 ∷ 0 ∷ 0 ∷ 1 ∷ 0 ∷ 0 ∷ 0 ∷ 0 ∷ 0 ∷ 0 ∷ 0 ∷ 0 ∷ []

abbrev pub config : Config
config = record {
  lists = record { blacklist_ip = none; whitelacklist_ip = none };
  proxy_sa = proxy_sockaddr;
  proxy_sa6 = proxy_sockaddr;
}

-- A process that is stopped with rdi, rsi and orig_rax set, and the events to come.
abbrev pub stopped : ℕ → ℕ → ℕ → List (ℕ × ℕ) → Machine
stopped rdi rsi number queue = record {
  memory = λ pid a. if leb 4096 a then get_or sockaddr (a - 4096) 0 else 0;
  registers =
      λ pid o. if o == 112 then rdi else if o == 104 then rsi else if o == 120 then number else 0;
  clock = 7000000;
  sent = [];
  queue = queue;
  fork = in_parent 100;
}

abbrev pub process : ProcInfo
process = record { pid = 100; flags = 0; csn = 0; cws = 0 }

abbrev pub socket : SocketInfo
socket = record {
  pid = 0;
  fd = 4;
  magic_fd = 100;
  domain = 2;
  type = 1;
  conn_ti = record { tv_sec = 6; tv_usec = 900000 };
}

abbrev pub procs_table : Elements
procs_table = chain_table.add chain_table.empty (int_key 100) 1

abbrev pub procs_heap : ℕ → Option ProcInfo
procs_heap = update (λ p. none) 1 (some process)

-- The world before the socket is there, and the world with it.
abbrev pub without_socket : Machine → World
without_socket m = record {
  system = m;
  socket_info_tab = chain_table.empty;
  proc_info_tab = procs_table;
  sockets = λ p. none;
  procs = procs_heap;
  brk = 2;
}

abbrev pub with_socket : Machine → World
with_socket m = record {
  system = m;
  socket_info_tab = chain_table.add chain_table.empty (int_key 100) 2;
  proc_info_tab = procs_table;
  sockets = update (λ p. none) 2 (some socket);
  procs = procs_heap;
  brk = 3;
}

empty-IsKeyed : {A : Type 0} (key : A → ℕ) (n : ℕ) → IsKeyed key chain_table.empty (λ p. none) n
empty-IsKeyed key n = record { live = λ k p e. cc (e, chain_holds-empty k p); free = λ p e. refl }

process-IsKeyed : IsKeyed proc_field procs_table procs_heap 2
process-IsKeyed = IsKeyed-add proc_field _ _ _ (empty-IsKeyed proc_field 1) process

no_process : chain_table.find chain_table.empty (int_key 100) ≡ none
unfolding chain_find
no_process = refl

process-IsUnique : IsUnique procs_table
process-IsUnique = add-IsUnique chain_table.empty (int_key 100) 1 no_process empty-IsUnique

pub without_socket-IsConsistent : (m : Machine) → IsConsistent (without_socket m)
without_socket-IsConsistent m = record {
  sockets_keyed = empty-IsKeyed socket_field 2;
  procs_keyed = process-IsKeyed;
  procs_unique = process-IsUnique;
}

pub with_socket-IsConsistent : (m : Machine) → IsConsistent (with_socket m)
with_socket-IsConsistent m = record {
  sockets_keyed = IsKeyed-add socket_field _ _ _ (empty-IsKeyed socket_field 2) socket;
  procs_keyed = IsKeyed-grow proc_field _ _ _ process-IsKeyed;
  procs_unique = process-IsUnique;
}

pub process-live : procs_heap 1 ≡ some process
unfolding update
process-live = refl

abbrev pub are_bytes : Bytes → Bool
are_bytes [] = true
are_bytes (b ∷ bs) = ltb b 256 && are_bytes bs

pub are_bytes-AreBytes : (bs : Bytes) → are_bytes bs ≡ true → AreBytes bs
are_bytes-AreBytes [] h = tt
are_bytes-AreBytes (b ∷ bs) h = (ground arith, are_bytes-AreBytes bs (ground arith))

abbrev pub ten_0_0_1 : Destination
ten_0_0_1 = record { ip = inet_ntoa (10 ∷ 0 ∷ 0 ∷ 1 ∷ []); port = 8080; proxy = proxy_sockaddr }

pub goes_to : destination config (stopped 4 4096 42 []) 100 4096 ≡ some ten_0_0_1
unfolding destination sa_family sa_port sin_addr getdata inet_ntoa decimal le_bytes le_word bytes_at
goes_to = refl
