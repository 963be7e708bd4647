-- ===== src/Local/Relay.antt =====
-- The relay of graftcp-local (local.go): the choice of a dialer and what HandleConn does with one
-- accepted connection. The dialers are values of the proxy package, of a type D.
pub mod Dials
pub mod Auto
pub mod Delivery
use graftcp.Prelude.{
  ℕ, ◌+◌, Bytes, Bool, true, false, not, ◌||◌, ◌&&◌, Option, none, some, List, [], ◌∷◌, ◌++◌, ◌==◌,
  if◌then◌else◌, bytes_eq, codes, length,
}
use graftcp.Local.Pids.{ProcFs, PidAddrMap, get_pid_by_addr}

-- modeT
abbrev pub auto_select_mode : ℕ
auto_select_mode = 0

abbrev pub random_select_mode : ℕ
random_select_mode = 1

abbrev pub only_socks5_mode : ℕ
only_socks5_mode = 2

abbrev pub only_http_proxy_mode : ℕ
only_http_proxy_mode = 3

abbrev pub direct_mode : ℕ
direct_mode = 4

-- nil is `none`. The fifo's descriptor is set and used elsewhere.
pub record Local (D : Type 0) : Type 0 where
  pub faddr : Bytes
  pub faddr_string : Bytes
  pub socks5_dialer : Option D
  pub http_proxy_dialer : Option D
  pub direct_dialer : Option D
  pub select_mode : ℕ

-- What NewLocal takes of the net, url and proxy packages: an address resolved and printed again,
-- the dialers that proxy.SOCKS5 and proxy.FromURL make, and proxy.Direct. An error is `none`.
pub record Dialers (D : Type 0) : Type 0 where
  pub resolve : Bytes → Option Bytes
  pub socks5 : Bytes → Option (Bytes × Bytes) → Option D
  pub from_url : Bytes → Option D
  pub direct : D

unfoldable pub auth : Bytes → Bytes → Option (Bytes × Bytes)
auth username password = if length username == 0 then none else some (username, password)

-- "http://" ++ addr
unfoldable pub http_url : Bytes → Bytes
http_url addr = b'h' ∷ b't' ∷ b't' ∷ b'p' ∷ b':' ∷ b'/' ∷ b'/' ∷ addr

-- `none` where dlog.Fatalf ends the program.
unfoldable pub new_local :
    {D : Type 0} → Dialers D → Bytes → Bytes → Bytes → Bytes → Bytes → Option (Local D)
unfolding auth
new_local {D} net listen_addr socks5_addr username password http_proxy_addr =
    listening (net.resolve listen_addr) (net.resolve socks5_addr) (net.resolve http_proxy_addr)
  where
    socks5_of : Option Bytes → Option D
    socks5_of none = none
    socks5_of (some addr) = net.socks5 addr (auth username password)

    http_of : Option Bytes → Option D
    http_of none = none
    http_of (some addr) = net.from_url (http_url addr)

    made : Bytes → Option Bytes → Option Bytes → Local D
    made l s h = record {
      faddr = l;
      faddr_string = listen_addr;
      socks5_dialer = socks5_of s;
      http_proxy_dialer = http_of h;
      direct_dialer = some net.direct;
      select_mode = auto_select_mode;
    }

    listening : Option Bytes → Option Bytes → Option Bytes → Option (Local D)
    listening none s h = none
    listening (some l) none none = none
    listening (some l) none (some h) = some (made l none (some h))
    listening (some l) (some s) h = some (made l (some s) h)

-- The mode is left alone for any other text.
unfoldable pub set_select_mode : {D : Type 0} → Bytes → Local D → Local D
set_select_mode mode l =
    if bytes_eq mode (codes "auto")
    then record l { select_mode = auto_select_mode }
    else if bytes_eq mode (codes "random")
    then record l { select_mode = random_select_mode }
    else if bytes_eq mode (codes "only_http_proxy")
    then record l { select_mode = only_http_proxy_mode }
    else if bytes_eq mode (codes "only_socks5")
    then record l { select_mode = only_socks5_mode }
    else if bytes_eq mode (codes "direct")
    then record l { select_mode = direct_mode }
    else l

unfoldable pub or_else : {D : Type 0} → Option D → Option D → Option D
or_else (some d) e = some d
or_else none e = e

-- RandomSelectMode, with the number that rand.Intn(2) gives.
unfoldable pub random_dialer : {D : Type 0} → ℕ → Option D → Option D → Option D
random_dialer coin (some s) (some h) = if coin == 0 then some s else some h
random_dialer coin (some s) none = some s
random_dialer coin none h = h

-- For an l that is not nil.
unfoldable pub proxy_selector : {D : Type 0} → ℕ → Local D → Option D
unfolding or_else random_dialer
proxy_selector coin l =
    if l.select_mode == auto_select_mode
    then or_else l.socks5_dialer (or_else l.http_proxy_dialer l.direct_dialer)
    else if l.select_mode == random_select_mode
    then random_dialer coin l.socks5_dialer l.http_proxy_dialer
    else if l.select_mode == only_socks5_mode
    then l.socks5_dialer
    else if l.select_mode == only_http_proxy_mode
    then l.http_proxy_dialer
    else if l.select_mode == direct_mode
    then l.direct_dialer
    else l.socks5_dialer

-- What HandleConn does to the connections: a dial by a dialer, one by net.Dial, the two copies
-- between the accepted connection and the new one until both have ended, and the closing of each.
pub data Action (D : Type 0) : Type 0 where
  dialed : D → Bytes → Action D
  dialed_direct : Bytes → Action D
  piped : Action D
  closed : Action D
  dest_closed : Action D

-- Whether a dial succeeds, by a dialer and by net.Dial.
pub record Network (D : Type 0) : Type 0 where
  pub dial : D → Bytes → Bool
  pub net_dial : Bytes → Bool

-- The end of HandleConn: the connection relayed where the dial has succeeded.
unfoldable pub relay : {D : Type 0} → Bool → List (Action D) × Bool
relay true = (piped ∷ closed ∷ dest_closed ∷ [], false)
relay false = (closed ∷ [], true)

unfoldable pub after : {D : Type 0} → Action D → List (Action D) × Bool → List (Action D) × Bool
after a (actions, err) = (a ∷ actions, err)

unfoldable pub dial_by : {D : Type 0} → Network D → ℕ → Bytes → Option D → List (Action D) × Bool
unfolding relay after
dial_by net mode addr none = (closed ∷ [], true)
dial_by net mode addr (some d) =
    let by_proxy = net.dial d addr in
    after (dialed d addr) (
      if not by_proxy && mode == auto_select_mode
      then after (dialed_direct addr) (relay (net.net_dial addr))
      else relay by_proxy)

-- HandleConn behind getPidByAddr, which has given a pid and an address: its actions, and whether it
-- returns an error.
unfoldable pub handle_found :
    {D : Type 0} → Network D → ℕ → Local D → Bytes × Bytes → List (Action D) × Bool
unfolding dial_by
handle_found net coin l (pid, dest_addr) =
    if length pid == 0 || length dest_addr == 0
    then (closed ∷ [], true)
    else dial_by net l.select_mode dest_addr (proxy_selector coin l)

-- HandleConn, with what getPidByAddr reads: its actions and whether it returns an error, and the
-- process map that it leaves.
unfoldable pub handle_conn :
    {D : Type 0}
    → Network D
    → ℕ
    → Local D
    → Option Bytes
    → (ℕ → ProcFs × PidAddrMap)
    → PidAddrMap
    → (List (Action D) × Bool) × PidAddrMap
handle_conn net coin l inode moment last =
    let found = get_pid_by_addr inode moment last in (handle_found net coin l found.0, found.1)

-- Start: the connections for which HandleConn is started, each in a goroutine of its own, of what
-- AcceptTCP gives, with `none` for an error; `none` where ListenTCP fails and the program ends.
unfoldable pub accepted : {C : Type 0} → List (Option C) → List C
accepted [] = []
accepted (none ∷ conns) = accepted conns
accepted (some conn ∷ conns) = conn ∷ accepted conns

unfoldable pub start_local : {C : Type 0} → Bool → List (Option C) → Option (List C)
unfolding accepted
start_local listens conns = if listens then some (accepted conns) else none
