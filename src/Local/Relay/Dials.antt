-- ===== src/Local/Relay/Dials.antt =====
-- Where HandleConn (local.go) connects to, and what it closes.
use graftcp.Prelude.{
  ℕ, ◌+◌, ◌≡◌, ◌⊎◌, inl, inr, refl, arith, Bytes, Bool, true, false, ◌||◌, Option, none, some, List,
  [], ◌∷◌, ◌==◌, if◌then◌else◌, length, Bool-cases,
}
use graftcp.Local.Pids.{ProcFs, PidAddrMap, get_pid_by_addr}
use graftcp.Local.Relay.{
  handle_conn, Local, Network, Action, dialed, dialed_direct, piped, closed, dest_closed,
  handle_found, proxy_selector, random_dialer, relay, after, dial_by, auto_select_mode, direct_mode,
}

module _ {D : Type 0} where
  -- An action is no dial, or a dial by one of the two proxies.
  pub IsProxied : Local D → Action D → Type 0
  IsProxied l (dialed d addr) = (l.socks5_dialer ≡ some d) ⊎ (l.http_proxy_dialer ≡ some d)
  IsProxied l (dialed_direct addr) = ⊥
  IsProxied l piped = Unit {0}
  IsProxied l closed = Unit {0}
  IsProxied l dest_closed = Unit {0}

  pub AreProxied : Local D → List (Action D) → Type 0
  unfolding IsProxied
  AreProxied l [] = Unit {0}
  AreProxied l (a ∷ actions) = IsProxied l a × AreProxied l actions

  random_dialer-proxy :
      (coin : ℕ) (s h : Option D) (d : D)
      → random_dialer coin s h ≡ some d
      → (s ≡ some d) ⊎ (h ≡ some d)
  unfolding random_dialer
  random_dialer-proxy coin (some s) (some h) d e = elim (Bool-cases (coin == 0)) [
    | inl zero_ ↦ inl (rw zero_ at e)
    | inr one ↦ inr (rw one at e)
  ]
  random_dialer-proxy coin (some s) none d e = inl e
  random_dialer-proxy coin none h d e = inr e

  proxy_selector-proxy :
      (coin : ℕ) (l : Local D) (d : D)
      → (l.select_mode == auto_select_mode) ≡ false
      → (l.select_mode == direct_mode) ≡ false
      → proxy_selector coin l ≡ some d
      → (l.socks5_dialer ≡ some d) ⊎ (l.http_proxy_dialer ≡ some d)
  unfolding proxy_selector
  proxy_selector-proxy coin l d auto direct e =
      ground (arith, random_dialer-proxy coin l.socks5_dialer l.http_proxy_dialer d)

  relay-AreProxied : (l : Local D) (b : Bool) → AreProxied l (relay b).0
  unfolding relay AreProxied IsProxied
  relay-AreProxied l true = (tt, (tt, (tt, tt)))
  relay-AreProxied l false = (tt, tt)

  dial_by-AreProxied :
      (net : Network D) (l : Local D) (addr : Bytes) (dialer : Option D)
      → (l.select_mode == auto_select_mode) ≡ false
      → ((d : D) → dialer ≡ some d → (l.socks5_dialer ≡ some d) ⊎ (l.http_proxy_dialer ≡ some d))
      → AreProxied l (dial_by net l.select_mode addr dialer).0
  unfolding dial_by after AreProxied IsProxied
  dial_by-AreProxied net l addr none auto proxy = (tt, tt)
  dial_by-AreProxied net l addr (some d) auto proxy = elim (Bool-cases (net.dial d addr)) [
    | inl up ↦ rw up (proxy d refl, relay-AreProxied l true)
    | inr down ↦ rw (down, auto) (proxy d refl, relay-AreProxied l false)
  ]

  handle_found-AreProxied :
      (net : Network D) (coin : ℕ) (l : Local D) (found : Bytes × Bytes)
      → (l.select_mode == auto_select_mode) ≡ false
      → (l.select_mode == direct_mode) ≡ false
      → AreProxied l (handle_found net coin l found).0
  unfolding handle_found AreProxied IsProxied
  handle_found-AreProxied net coin l (pid, addr) auto direct =
      elim (Bool-cases (length pid == 0 || length addr == 0)) [
        | inl empty ↦ rw empty (tt, tt)
        | inr full ↦ rw full (
            dial_by-AreProxied net l addr (proxy_selector coin l) auto
              (λ d. proxy_selector-proxy coin l d auto direct))
      ]

  -- How often the accepted connection, and the one to the destination, is closed.
  unfoldable pub closings : List (Action D) → ℕ × ℕ
  closings [] = (0, 0)
  closings (a ∷ actions) = close a (closings actions)
    where
      close : Action D → ℕ × ℕ → ℕ × ℕ
      close closed (n, m) = (n + 1, m)
      close dest_closed (n, m) = (n, m + 1)
      close (dialed d addr) n = n
      close (dialed_direct addr) n = n
      close piped n = n

  dial_by-closings :
      (net : Network D) (mode : ℕ) (addr : Bytes) (dialer : Option D)
      → let done = dial_by net mode addr dialer in closings done.0 ≡ (1, (if done.1 then 0 else 1))
  unfolding dial_by after relay closings
  dial_by-closings net mode addr none = refl
  dial_by-closings net mode addr (some d) = elim (Bool-cases (net.dial d addr)) [
    | inl up ↦ rw up refl
    | inr down ↦ elim (Bool-cases (mode == auto_select_mode)) [
      | inl auto ↦ elim (Bool-cases (net.net_dial addr)) [
        | inl direct ↦ rw (down, auto, direct) refl
        | inr none_ ↦ rw (down, auto, none_) refl
      ]
      | inr proxied ↦ rw (down, proxied) refl
    ]
  ]

  handle_found-closings :
      (net : Network D) (coin : ℕ) (l : Local D) (found : Bytes × Bytes)
      → closings (handle_found net coin l found).0
        ≡ (1, (if (handle_found net coin l found).1 then 0 else 1))
  unfolding handle_found closings
  handle_found-closings net coin l (pid, addr) =
      elim (Bool-cases (length pid == 0 || length addr == 0)) [
        | inl empty ↦ rw empty refl
        | inr full ↦ rw full (dial_by-closings net l.select_mode addr (proxy_selector coin l))
      ]

  module _ (net : Network D) (coin : ℕ) (l : Local D) (inode : Option Bytes)
      (moment : ℕ → ProcFs × PidAddrMap) (last : PidAddrMap) where
    -- In any mode but auto and direct every connection that HandleConn makes goes through the
    -- SOCKS5 dialer or the HTTP dialer.
    pub handle_conn-AreProxied :
        (l.select_mode == auto_select_mode) ≡ false
        → (l.select_mode == direct_mode) ≡ false
        → AreProxied l (handle_conn net coin l inode moment last).0.0
    unfolding handle_conn
    handle_conn-AreProxied auto direct =
        handle_found-AreProxied net coin l (get_pid_by_addr inode moment last).0 auto direct

    -- HandleConn closes the accepted connection once, whatever fails, and the connection to the
    -- destination once where it returns no error and never where it returns one.
    pub handle_conn-closings :
        closings (handle_conn net coin l inode moment last).0.0
        ≡ (1, (if (handle_conn net coin l inode moment last).0.1 then 0 else 1))
    unfolding handle_conn
    handle_conn-closings = handle_found-closings net coin l (get_pid_by_addr inode moment last).0
