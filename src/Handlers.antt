-- ===== src/Handlers.antt =====
-- The handlers of main.c that run when a traced process enters or leaves a system call. A pinfp is
-- the address of its proc_info.
pub mod Outcomes
pub mod Quiet
pub mod Effects
pub mod Connect
pub mod Redirect
pub mod Safety
pub mod Keys
pub mod Sockets
pub mod Sharing
pub mod Clone
pub mod Close
use graftcp.Prelude.{
  ℕ, ◌+◌, ◌-◌, ◌*◌, ◌/◌, ◌%◌, ◌^◌, Bytes, Bool, true, false, not, ◌||◌, ◌&&◌, Option, none, some,
  [], ltb, leb, ◌==◌, if◌then◌else◌, replicate, take, length, int_of_long, long_of_int, bit_test,
  bit_clear,
}
use graftcp.Kernel.{Kernel, TimeVal}
use graftcp.Uthash.{Uthash}
use graftcp.World.{
  World, Cmd, done, ◌>>=◌, ◌>>◌, pure, load_socket, load_proc, store_socket, calloc_socket,
  free_socket, ask, call, run,
}
use graftcp.Tables.{add_socket_info, del_socket_info, find_socket_info}
use graftcp.Tracee.{get_syscall_arg, getdata, putdata, offset_rdi}
use graftcp.Address.{
  af_inet, af_inet6, sizeof_sockaddr_in, sizeof_sockaddr_in6, sa_family, sa_port, sin_addr,
  sin6_addr, Libc, inet_ntoa, fifo_line,
}
use graftcp.Filter.{Lists, is_ignore}

-- The globals that main has set before the first process is traced.
pub record Config : Type 0 where
  pub lists : Lists
  pub proxy_sa : Bytes
  pub proxy_sa6 : Bytes

abbrev pub sock_stream : ℕ
sock_stream = 1

abbrev pub clone_untraced : ℕ
clone_untraced = 0x800000

abbrev pub min_close_msec : ℕ
min_close_msec = 500

-- (fd << 31) + pid over ints, widened to uint64_t. (The shift into the sign is undefined in C; the
-- compilers that build the program drop the bits.)
unfoldable pub socket_key : ℕ → ℕ → ℕ
socket_key fd pid = long_of_int ((fd * 2 ^ 31 + pid) % 2 ^ 32)

-- ((uint64_t)MAGIC_FD << 31) + pid
unfoldable pub pending_key : ℕ → ℕ
pending_key pid = (7777777 * 2 ^ 31 + long_of_int pid) % 2 ^ 64

-- Not a TCP socket: `(type & SOCK_STREAM) < 1 || (domain != AF_INET && domain != AF_INET6)`.
unfoldable pub not_tcp : ℕ → ℕ → Bool
not_tcp type domain =
    not (bit_test sock_stream type) || (not (domain == af_inet) && not (domain == af_inet6))

-- delta_ms over unsigned longs: the differences are signed, the division truncates towards 0.
unfoldable pub elapsed_ms : TimeVal → TimeVal → ℕ
elapsed_ms now then_ =
    let sec = (now.tv_sec + 2 ^ 64 - then_.tv_sec) * 1000 in
    let usec =
      if leb then_.tv_usec now.tv_usec
      then (now.tv_usec - then_.tv_usec) / 1000
      else 2 ^ 64 - (then_.tv_usec - now.tv_usec) / 1000 in
    (sec + usec) % 2 ^ 64

module _ ⦃kernel : Kernel⦄ ⦃uthash : Uthash⦄ where
  open kernel use {pokeuser, gettimeofday, usleep, write_fifo}

  unfoldable pub socket_pre_handle : ℕ → Cmd (Unit {0})
  socket_pre_handle pinfp = do
    si ← calloc_socket
    pi ← load_proc pinfp
    arg0 ← ask (λ s. get_syscall_arg s pi.pid 0)
    arg1 ← ask (λ s. get_syscall_arg s pi.pid 1)
    s ← load_socket si
    let domain = int_of_long arg0
    let type = int_of_long arg1
    store_socket si (record s { domain = domain; type = type })
    if not_tcp type domain then free_socket si else do
      t ← load_socket si
      store_socket si (record t { fd = 2 ^ 32 - 1; magic_fd = pending_key pi.pid })
      add_socket_info si

  -- What follows once the destination is known: its text and port.
  unfoldable pub redirect : ⦃libc : Libc⦄ → Config → ℕ → ℕ → ℕ → Bytes → ℕ → Bytes → Cmd (Unit {0})
  redirect cfg pid si addr ip port proxy = if is_ignore cfg.lists ip then pure tt else do
    run (λ s. putdata (replicate 8 0) s pid addr proxy (length proxy))
    _ ← call (λ s. write_fifo s (fifo_line ip port pid))
    now ← ask gettimeofday
    s ← load_socket si
    store_socket si (record s { conn_ti = now })

  unfoldable pub connect_found : ⦃libc : Libc⦄ → Config → ℕ → ℕ → Cmd (Unit {0})
  unfolding redirect
  connect_found ⦃libc⦄ cfg pid si = do
    addr ← ask (λ s. get_syscall_arg s pid 1)
    dest_sa ← ask (λ s. getdata s pid addr sizeof_sockaddr_in)
    if sa_family dest_sa == af_inet
        then redirect cfg pid si addr (inet_ntoa (sin_addr dest_sa)) (sa_port dest_sa) cfg.proxy_sa
        else if sa_family dest_sa == af_inet6
        then (do
          dest_sa6 ← ask (λ s. getdata s pid addr sizeof_sockaddr_in6)
          redirect cfg pid si addr (libc.inet_ntop6 (sin6_addr dest_sa6)) (sa_port dest_sa6)
              cfg.proxy_sa6)
        else pure tt

  connect_if_found : ⦃libc : Libc⦄ → Config → ℕ → Option ℕ → Cmd (Unit {0})
  unfolding connect_found
  connect_if_found cfg pid none = pure tt
  connect_if_found cfg pid (some si) = connect_found cfg pid si

  unfoldable pub connect_pre_handle : ⦃libc : Libc⦄ → Config → ℕ → Cmd (Unit {0})
  unfolding connect_if_found
  connect_pre_handle cfg pinfp = do
    pi ← load_proc pinfp
    arg0 ← ask (λ s. get_syscall_arg s pi.pid 0)
    found ← find_socket_info (socket_key (int_of_long arg0) pi.pid)
    connect_if_found cfg pi.pid found

  close_if_found : Option ℕ → Cmd (Unit {0})
  close_if_found none = pure tt
  close_if_found (some si) = do
    now ← ask gettimeofday
    s ← load_socket si
    let delta_ms = elapsed_ms now s.conn_ti
    if ltb delta_ms min_close_msec
        then run (λ k. usleep k ((min_close_msec - delta_ms) * 1000))
        else pure tt
    del_socket_info si
    free_socket si

  unfoldable pub close_pre_handle : ℕ → Cmd (Unit {0})
  unfolding close_if_found
  close_pre_handle pinfp = do
    pi ← load_proc pinfp
    arg0 ← ask (λ s. get_syscall_arg s pi.pid 0)
    found ← find_socket_info (socket_key (int_of_long arg0) pi.pid)
    close_if_found found

  unfoldable pub clone_pre_handle : ℕ → Cmd (Unit {0})
  clone_pre_handle pinfp = do
    pi ← load_proc pinfp
    flags ← ask (λ s. get_syscall_arg s pi.pid 0)
    run (λ s. pokeuser s pi.pid offset_rdi (bit_clear clone_untraced flags))

  exiting_if_found : ℕ → ℕ → Option ℕ → Cmd (Unit {0})
  exiting_if_found pid fd none = pure tt
  exiting_if_found pid fd (some si) = do
    s ← load_socket si
    store_socket si (record s { fd = fd })
    del_socket_info si
    t ← load_socket si
    store_socket si (record t { magic_fd = socket_key fd pid })
    add_socket_info si

  unfoldable pub socket_exiting_handle : ℕ → ℕ → Cmd (Unit {0})
  unfolding exiting_if_found
  socket_exiting_handle pinfp fd = do
    pi ← load_proc pinfp
    found ← find_socket_info (pending_key pi.pid)
    exiting_if_found pi.pid fd found
