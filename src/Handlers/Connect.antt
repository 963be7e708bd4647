-- ===== src/Handlers/Connect.antt =====
-- connect_pre_handle of main.c: what a process that connects sees of it, and what graftcp-local is
-- sent.
use graftcp.Prelude.{
  ℕ, ◌≡◌, refl, ◌∙◌, Bytes, true, false, Option, none, some, ◌==◌, if◌then◌else◌, length, replicate,
  Bool-cases, inl, inr,
}
use graftcp.Kernel.{Kernel}
use graftcp.Uthash.{Uthash}
use graftcp.World.{
  World, Outcome, done, SocketInfo, ProcInfo, update, load_socket, store_socket, ask, call, run,
}
use graftcp.Tracee.{get_syscall_arg, getdata, putdata}
use graftcp.Address.{
  Libc, af_inet, af_inet6, sizeof_sockaddr_in, sizeof_sockaddr_in6, sa_family, sa_port, sin_addr,
  sin6_addr, inet_ntoa, fifo_line,
}
use graftcp.Filter.{is_ignore}
use graftcp.Handlers.{Config, redirect, connect_found, connect_pre_handle}
use graftcp.Handlers.Outcomes.{found_socket, connect_pre_handle-some}

-- Where a process connects to: the text and the port of the address, and the proxy address that
-- takes its place.
pub record Destination : Type 0 where
  pub ip : Bytes
  pub port : ℕ
  pub proxy : Bytes

module _ ⦃kernel : Kernel⦄ ⦃libc : Libc⦄ (cfg : Config) where
  -- The destination that the bytes of the argument name, for the two families that are handled.
  unfoldable pub destination : kernel.State → ℕ → ℕ → Option Destination
  destination s pid addr =
      let sa = getdata s pid addr sizeof_sockaddr_in in
      let sa6 = getdata s pid addr sizeof_sockaddr_in6 in
      if sa_family sa == af_inet
      then some (record { ip = inet_ntoa (sin_addr sa); port = sa_port sa; proxy = cfg.proxy_sa })
      else if sa_family sa == af_inet6
      then some (record {
        ip = libc.inet_ntop6 (sin6_addr sa6);
        port = sa_port sa6;
        proxy = cfg.proxy_sa6;
      })
      else none

module _ ⦃kernel : Kernel⦄ where
  -- The kernel once the proxy address is in place and the destination is written to the fifo.
  abbrev pub announced : kernel.State → ℕ → ℕ → Destination → kernel.State
  announced s pid addr d =
      (kernel.write_fifo (putdata (replicate 8 0) s pid addr d.proxy (length d.proxy))
        (fifo_line d.ip d.port pid)).1

module _ ⦃kernel : Kernel⦄ ⦃uthash : Uthash⦄ where
  abbrev pub redirected : World → ℕ → ℕ → SocketInfo → ℕ → Destination → World
  redirected w pid si s addr d =
      let k = announced w.system pid addr d in
      record w {
        system = k;
        sockets = update w.sockets si (some (record s { conn_ti = kernel.gettimeofday k }));
      }

  module _ ⦃libc : Libc⦄ (cfg : Config) (w : World) (pid si addr : ℕ) where
    unfoldable pub follow : Option Destination → Outcome (Unit {0})
    follow none = done tt w
    follow (some d) = redirect cfg pid si addr d.ip d.port d.proxy w

    redirect-ignored :
        (d : Destination)
        → is_ignore cfg.lists d.ip ≡ true
        → redirect cfg pid si addr d.ip d.port d.proxy w ≡ done tt w
    unfolding redirect
    redirect-ignored d e = rw e

    redirect-proxied :
        (d : Destination) (s : SocketInfo)
        → w.sockets si ≡ some s
        → is_ignore cfg.lists d.ip ≡ false
        → redirect cfg pid si addr d.ip d.port d.proxy w ≡ done tt (redirected w pid si s addr d)
    unfolding redirect run call ask load_socket store_socket
    redirect-proxied d s here e = simp (e, here)

    pub connect_found-follow :
        get_syscall_arg w.system pid 1 ≡ addr
        → connect_found cfg pid si w ≡ follow (destination cfg w.system pid addr)
    unfolding connect_found destination ask follow
    connect_found-follow arg =
        elim (Bool-cases (sa_family (getdata w.system pid addr sizeof_sockaddr_in) == af_inet)) [
          | inl four ↦ simp (arg, four)
          | inr other ↦
              elim (Bool-cases
                (sa_family (getdata w.system pid addr sizeof_sockaddr_in) == af_inet6)) [
                  | inl six ↦ simp (arg, other, six)
                  | inr none_of_them ↦ simp (arg, other, none_of_them)
                ]
        ]

  module _ ⦃libc : Libc⦄ (cfg : Config) (w : World) (pinfp si : ℕ) (pi : ProcInfo) (s : SocketInfo)
      (addr : ℕ) (live : w.procs pinfp ≡ some pi) (found : found_socket w pi.pid ≡ some si)
      (here : w.sockets si ≡ some s) (arg : get_syscall_arg w.system pi.pid 1 ≡ addr) where
    -- A connect of a socket in the table to an address of neither family changes nothing.
    pub connect_pre_handle-none_of_them :
        destination cfg w.system pi.pid addr ≡ none → connect_pre_handle cfg pinfp w ≡ done tt w
    connect_pre_handle-none_of_them to =
        connect_pre_handle-some w pinfp pi live cfg si found
        ∙ connect_found-follow cfg w pi.pid si addr arg
        ∙ rw to (unfold follow in refl)

    -- A connect of a live socket that the table knows, to a destination whose text the lists
    -- exclude, changes nothing.
    pub connect_pre_handle-ignored :
        (d : Destination)
        → destination cfg w.system pi.pid addr ≡ some d
        → is_ignore cfg.lists d.ip ≡ true
        → connect_pre_handle cfg pinfp w ≡ done tt w
    connect_pre_handle-ignored d to e =
        connect_pre_handle-some w pinfp pi live cfg si found
        ∙ connect_found-follow cfg w pi.pid si addr arg
        ∙ rw to (unfold follow in redirect-ignored cfg w pi.pid si addr d e)

    pub connect_pre_handle-redirected :
        (d : Destination)
        → destination cfg w.system pi.pid addr ≡ some d
        → is_ignore cfg.lists d.ip ≡ false
        → connect_pre_handle cfg pinfp w ≡ done tt (redirected w pi.pid si s addr d)
    connect_pre_handle-redirected d to e =
        connect_pre_handle-some w pinfp pi live cfg si found
        ∙ connect_found-follow cfg w pi.pid si addr arg
        ∙ rw to (unfold follow in redirect-proxied cfg w pi.pid si addr d s here e)
