-- ===== src/Local/Relay/Delivery.antt =====
-- From the line that main.c writes for a connect to the connection that graftcp-local makes for it:
-- UpdateProcessAddrInfo, getPidByAddr and HandleConn together (local.go).
use mathlib.Core.List.{Memᴰ, Permᴰ}
use mathlib.Core.List.Memᴰ.{head, tail}
use graftcp.Prelude.{
  ℕ, ◌≡◌, refl, ap, sym, ◌∙◌, arith, Bytes, true, false, some, List, [], ◌∷◌, map, ◌==◌, length,
  bytes_eq, bytes_eq_iff, bytes_eq_refl, length-append, Bool-cases, inl, inr,
}
use graftcp.Address.{decimal}
use graftcp.Local.Lines.{avoids, shown}
use graftcp.Local.Pids.{
  ProcFs, PidAddrMap, load_pid_addr, store_pid_addr, stores, store_all, has_include_inode,
  get_pid_by_addr,
}
use graftcp.Local.Pids.Entries.{load-store}
use graftcp.Local.Pids.Search.{
  AtoiLaw, IsFound, now, later, IsHolder, is_held, is_ever_held, holder-pid, get_pid_by_addr-finds,
}
use graftcp.Local.Pids.Stores.{Destination, line, IsPlain, load-stores}
use graftcp.Local.Relay.{
  Local, Network, Action, dialed, proxy_selector, handle_found, handle_conn, dial_by, relay, after,
}

-- No pid has two entries.
unfoldable pub AreDistinct : PidAddrMap → Type 0
AreDistinct [] = Unit {0}
AreDistinct ((p, a) ∷ m) = ((load_pid_addr p m).1 ≡ false) × AreDistinct m

store_pid_addr-AreDistinct :
    (pid addr : Bytes) (m : PidAddrMap) → AreDistinct m → AreDistinct (store_pid_addr pid addr m)
unfolding AreDistinct store_pid_addr load_pid_addr
store_pid_addr-AreDistinct pid addr [] h = (refl, tt)
store_pid_addr-AreDistinct pid addr ((p, a) ∷ m) (new, h) = elim (Bool-cases (bytes_eq p pid)) [
  | inl same ↦ let p-pid = (bytes_eq_iff p pid).0 same in rw same ((rw p-pid at new), h)
  | inr other ↦
      let back : bytes_eq pid p ≡ false = ground (arith, bytes_eq_iff p pid, bytes_eq_iff pid p) in
      rw other ((rw (load-store pid addr p m, back) new), store_pid_addr-AreDistinct pid addr m h)
]

store_all-AreDistinct :
    (es : List (Bytes × Bytes)) (m : PidAddrMap) → AreDistinct m → AreDistinct (store_all es m)
unfolding store_all
store_all-AreDistinct [] m h = h
store_all-AreDistinct ((p, a) ∷ es) m h =
    store_all-AreDistinct es (store_pid_addr p a m) (store_pid_addr-AreDistinct p a m h)

load-Memᴰ :
    (e : Bytes × Bytes) (m : PidAddrMap)
    → AreDistinct m
    → Memᴰ e m
    → load_pid_addr e.0 m ≡ (e.1, true)
unfolding AreDistinct load_pid_addr
load-Memᴰ e [] h q = elim q [ ]
load-Memᴰ e ((p, a) ∷ m) h (head same) = rw (same, bytes_eq_refl p) refl
load-Memᴰ e ((p, a) ∷ m) (new, h) (tail q) =
    let there = load-Memᴰ e m h q in
    elim (Bool-cases (bytes_eq p e.0)) [
      | inl same ↦
          let p-e = (bytes_eq_iff p e.0).0 same in
          let both : true ≡ false = ap (λ x. x.1) (sym there) ∙ (rw p-e at new) in cc
      | inr other ↦ rw other there
    ]

is_held-load :
    (fs : ProcFs) (inode pid addr : Bytes) (m : PidAddrMap)
    → load_pid_addr pid m ≡ (addr, true)
    → has_include_inode fs pid inode ≡ true
    → is_held fs inode m ≡ true
unfolding is_held load_pid_addr
is_held-load fs inode pid addr [] h k = let never : false ≡ true = ap (λ x. x.1) h in cc
is_held-load fs inode pid addr ((p, a) ∷ m) h k = elim (Bool-cases (bytes_eq p pid)) [
  | inl same ↦ let p-pid = (bytes_eq_iff p pid).0 same in rw (p-pid, k) refl
  | inr other ↦
      let there : load_pid_addr pid m ≡ (addr, true) = rw other at h in
      rw (is_held-load fs inode pid addr m there k) (ground arith)
]

length-shown : (ip port : Bytes) → (length (shown ip port) == 0) ≡ false
length-shown ip port = elim (Bool-cases (avoids b':' ip)) [
  | inl plain ↦ let some_ = length-append ip (b':' ∷ port) in rw plain (ground arith)
  | inr six ↦ rw six (ground arith)
]

dial_by-first :
    {D : Type 0} (net : Network D) (mode : ℕ) (addr : Bytes) (dialer : D)
    → (rest : List (Action D)) × ((dial_by net mode addr (some dialer)).0
        ≡ dialed dialer addr ∷ rest)
unfolding dial_by after relay
dial_by-first net mode addr dialer = (_, refl)

module _ (inode : Bytes) (moment : ℕ → ProcFs × PidAddrMap) (empty : AtoiLaw moment)
    (last : PidAddrMap) (pid addr : Bytes)
    (holds : has_include_inode (moment 0).0 pid inode ≡ true) where
  get_pid_by_addr-sole :
      AreDistinct (moment 0).1
      → load_pid_addr pid (moment 0).1 ≡ (addr, true)
      → ((p : Bytes) → has_include_inode (moment 0).0 p inode ≡ true → p ≡ pid)
      → (get_pid_by_addr (some inode) moment last).0 ≡ (pid, addr)
  unfolding IsHolder is_ever_held
  get_pid_by_addr-sole distinct stored sole = elim (get_pid_by_addr-finds inode moment empty last) [
    | inl (found, _) ↦ from_first (get_pid_by_addr (some inode) moment last).0 found
    | inr (nowhere, _) ↦ absurd (ground (arith, held))
  ]
    where
      held : is_held (moment 0).0 inode (moment 0).1 ≡ true
      held = is_held-load (moment 0).0 inode pid addr (moment 0).1 stored holds

      from_first : (e : Bytes × Bytes) → IsFound inode moment e 3 0 → e ≡ (pid, addr)
      from_first e (now (q, h)) =
          let same = sole e.0 h in
          let loaded = load-Memᴰ e (moment 0).1 distinct q in
          let address : (e.1, true) ≡ (addr, true) = sym loaded ∙ (rw same stored) in
          rw (same, ap (λ x. x.0) address) refl
      from_first e (later not_ _) = absurd (ground (arith, held))

-- A connect that main.c told of reaches its destination: the lines ds of the fifo are stored in any
-- order in a map with no pid twice, d among them, each of an address with no newline and of a pid
-- that fits in an int, with no other destination for d's pid. Then HandleConn of a connection whose
-- socket, of a known inode, d's process alone holds in the first try dials first, by the dialer
-- that proxySelector gives, the address of d, in brackets where it has a colon. strconv.Atoi is 0
-- for the empty string.
pub handle_conn-delivers :
    {D : Type 0} (net : Network D) (coin : ℕ) (l : Local D) (dialer : D) (ds : List Destination)
    (es : List (Bytes × Bytes)) (m : PidAddrMap) (d : Destination) (inode : Bytes)
    (moment : ℕ → ProcFs × PidAddrMap) (last : PidAddrMap)
    → proxy_selector coin l ≡ some dialer
    → ((e : Destination) → Memᴰ e ds → IsPlain e)
    → Permᴰ es (stores (map line ds))
    → Memᴰ d ds
    → ((e : Destination) → Memᴰ e ds → e.pid ≡ d.pid → e ≡ d)
    → AreDistinct m
    → AtoiLaw moment
    → (moment 0).1 ≡ store_all es m
    → has_include_inode (moment 0).0 (decimal d.pid) inode ≡ true
    → ((p : Bytes) → has_include_inode (moment 0).0 p inode ≡ true → p ≡ decimal d.pid)
    → (rest : List (Action D)) × ((handle_conn net coin l (some inode) moment last).0.0
        ≡ dialed dialer (shown d.ip (decimal d.port)) ∷ rest)
unfolding handle_conn handle_found
handle_conn-delivers net coin l dialer ds es m d inode moment last selected plain order mem sole
      distinct empty here_ holds alone =
    let addr = shown d.ip (decimal d.port) in
    let kept : AreDistinct (moment 0).1 = rw here_ (store_all-AreDistinct es m distinct) in
    let stored : load_pid_addr (decimal d.pid) (moment 0).1 ≡ (addr, true) =
      rw here_ (load-stores ds es m d plain order mem sole) in
    let found =
      get_pid_by_addr-sole inode moment empty last (decimal d.pid) addr holds kept stored alone in
    let named = holder-pid (moment 0).0 inode (decimal d.pid, addr) (empty 0) holds in
    rw (found, named, length-shown d.ip (decimal d.port), selected)
      (dial_by-first net l.select_mode addr dialer)
