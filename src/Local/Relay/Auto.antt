-- ===== src/Local/Relay/Auto.antt =====
-- The automatic mode of graftcp-local (local.go), on a Local that NewLocal makes.
use graftcp.Prelude.{
  ℕ, ◌≡◌, ◌≢◌, refl, arith, Bytes, true, false, Option, none, some, [], ◌∷◌, ◌==◌, inl, inr, length,
  codes, bytes_eq, Bool-cases,
}
use graftcp.Local.Pids.{ProcFs, PidAddrMap, get_pid_by_addr}
use graftcp.Local.Relay.{
  handle_conn, Local, Dialers, Network, handle_found, proxy_selector, or_else, relay, after,
  dial_by, new_local, set_select_mode, auto_select_mode,
}

module _ {D : Type 0} where
  new_local-direct :
      (dialers : Dialers D) (listen_addr socks5_addr username password http_addr : Bytes)
      (l : Local D)
      → new_local dialers listen_addr socks5_addr username password http_addr ≡ some l
      → l.direct_dialer ≡ some dialers.direct
  unfolding new_local
  new_local-direct dialers listen_addr socks5_addr username password http_addr l made = ground arith

  or_else-last : (s h : Option D) (d : D) → (e : D) × (or_else s (or_else h (some d)) ≡ some e)
  unfolding or_else
  or_else-last (some s) h d = (s, refl)
  or_else-last none (some h) d = (h, refl)
  or_else-last none none d = (d, refl)

  dial_by-reached :
      (net : Network D) (addr : Bytes) (d : D)
      → net.net_dial addr ≡ true
      → (dial_by net auto_select_mode addr (some d)).1 ≡ false
  unfolding dial_by after relay
  dial_by-reached net addr d reached = elim (Bool-cases (net.dial d addr)) [
    | inl up ↦ rw up refl
    | inr down ↦ rw (down, reached) refl
  ]

  handle_found-reached :
      (dialers : Dialers D) (listen_addr socks5_addr username password http_addr : Bytes)
      (l : Local D) (net : Network D) (coin : ℕ) (pid addr : Bytes)
      → new_local dialers listen_addr socks5_addr username password http_addr ≡ some l
      → pid ≢ []
      → addr ≢ []
      → net.net_dial addr ≡ true
      → (handle_found net coin (set_select_mode (codes "auto") l) (pid, addr)).1 ≡ false
  unfolding handle_found proxy_selector set_select_mode bytes_eq
  handle_found-reached dialers listen_addr socks5_addr username password http_addr l net coin []
        addr made some_pid some_addr reached =
      absurd (some_pid refl)
  handle_found-reached dialers listen_addr socks5_addr username password http_addr l net coin
        (p ∷ pid) [] made some_pid some_addr reached =
      absurd (some_addr refl)
  handle_found-reached dialers listen_addr socks5_addr username password http_addr l net coin
        (p ∷ pid) (a ∷ addr) made some_pid some_addr reached =
      let direct =
        new_local-direct dialers listen_addr socks5_addr username password http_addr l made in
      let (d, selected) = or_else-last l.socks5_dialer l.http_proxy_dialer dialers.direct in
      let p_some : (length (p ∷ pid) == 0) ≡ false = ground arith in
      let a_some : (length (a ∷ addr) == 0) ≡ false = ground arith in
      rw (p_some, a_some, direct, selected) (dial_by-reached net (a ∷ addr) d reached)

  -- In the automatic mode of a Local that NewLocal has made, HandleConn returns no error where
  -- getPidByAddr gives a pid and an address and net.Dial reaches the address, whether the proxies
  -- can be reached or not.
  pub handle_conn-reached :
      (dialers : Dialers D) (listen_addr socks5_addr username password http_addr : Bytes)
      (l : Local D) (net : Network D) (coin : ℕ) (inode : Option Bytes)
      (moment : ℕ → ProcFs × PidAddrMap) (last : PidAddrMap) (pid addr : Bytes)
      → new_local dialers listen_addr socks5_addr username password http_addr ≡ some l
      → (get_pid_by_addr inode moment last).0 ≡ (pid, addr)
      → pid ≢ []
      → addr ≢ []
      → net.net_dial addr ≡ true
      → (handle_conn net coin (set_select_mode (codes "auto") l) inode moment last).0.1 ≡ false
  unfolding handle_conn
  handle_conn-reached dialers listen_addr socks5_addr username password http_addr l net coin inode
        moment last pid addr made found some_pid some_addr reached =
      rw found (
        handle_found-reached dialers listen_addr socks5_addr username password http_addr l net coin
          pid addr made some_pid some_addr reached)
