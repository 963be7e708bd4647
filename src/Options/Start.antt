-- ===== src/Options/Start.antt =====
-- The settings that main of main.c hands to the handlers.
use graftcp.Prelude.{
  ℕ, ◌+◌, ◌≡◌, refl, ◌∙◌, ap, arith, Bytes, Bool, true, ◌||◌, ◌&&◌, not, Option, none, some, List,
  bytes_eq, Bool-cases, inl, inr,
}
use graftcp.StringSet.{StrSet, ok, is_str_set_member}
use graftcp.StringSet.Buckets.{IsValid}
use graftcp.Filter.{Lists, is_ignore, new_if_null}
use graftcp.Filter.Loading.{listed, IsValidOption, new_set, put_some}
use graftcp.Handlers.{Config}
use graftcp.Options.{
  Host, Opt, Settings, initial_settings, local_default_addr, local_addr_literal, local_pipe_literal,
  loopback6, sockaddr_in, sockaddr_in6, put_local_addrs, start, local_address, or_exit,
}
use graftcp.Options.Reading.{
  last_addr, last_port, last_fifo, ignores_local, has_white, in_black, in_white, usable, is_set,
  read_options-Follows,
}

new_if_null_lem :
    (set : Option StrSet) (next : ℕ)
    → IsValidOption set
    → (r : StrSet) × (n : ℕ) × (new_if_null set next ≡ ok (r, n))
      × IsValid r
      × ((q : Bytes) → is_str_set_member r q ≡ listed set q)
unfolding new_if_null
new_if_null_lem (some set) next v = (set, next, refl, v, λ q. refl)
new_if_null_lem none next v =
    let (s, made, valid, empty) = new_set next in (s, next + 1, rw made, valid, empty)

both_puts : (x y z u v : Bool) → v ≡ (y || u) → u ≡ (x || z) → v ≡ (z || (x || y))
both_puts x y z u v h k = ground arith

-- The two addresses of `if (ignore_local)`.
abbrev pub is_local : Bytes → Bytes → Bool
is_local addr q = bytes_eq addr q || bytes_eq local_default_addr.chars q

put_local_addrs-on :
    (s : Settings)
    → s.ignore_local ≡ true
    → IsValidOption s.lists.blacklist_ip
    → (set : StrSet) × (n : ℕ) × (put_local_addrs s
        ≡ ok (record s { lists = record s.lists { blacklist_ip = some set }; next = n }))
      × ((q : Bytes)
          → is_str_set_member set q
            ≡ (listed s.lists.blacklist_ip q || is_local s.local_addr.chars q))
unfolding put_local_addrs
put_local_addrs-on s on v =
    let (s0, n, made, v0, m0) = new_if_null_lem s.lists.blacklist_ip s.next v in
    let (s1, put1, p1) = put_some s0 s.local_addr n v0 in
    let (s2, put2, p2) = put_some s1 local_default_addr (n + 1) p1.valid in
    (
      s2,
      n + 2,
      rw (on, made, put1, put2),
      λ q.
          both_puts (bytes_eq s.local_addr.chars q) (bytes_eq local_default_addr.chars q)
            (listed s.lists.blacklist_ip q) _ _ (p2.member q)
            (p1.member q ∙ ap (λ (b : Bool). bytes_eq s.local_addr.chars q || b) (m0 q)),
    )

-- The local addresses are in the black list where they are to be ignored, and nothing else changes.
put_local_addrs_lem :
    (s : Settings)
    → IsValidOption s.lists.blacklist_ip
    → (l : Option StrSet) × (n : ℕ) × (put_local_addrs s
        ≡ ok (record s { lists = record s.lists { blacklist_ip = l }; next = n }))
      × ((q : Bytes)
          → listed l q
            ≡ (listed s.lists.blacklist_ip q || (s.ignore_local && is_local s.local_addr.chars q)))
unfolding put_local_addrs
put_local_addrs_lem s v = elim (Bool-cases s.ignore_local) [
  | inl on ↦
      let (set, n, run, m) = put_local_addrs-on s on v in (some set, n, run, λ q. rw on (m q))
  | inr off ↦ (s.lists.blacklist_ip, s.next, rw off, λ q. rw off (ground arith))
]

-- The first answer, or the second.
abbrev pub first_of : Option Bytes → Option Bytes → Option Bytes
first_of none d = d
first_of (some b) d = some b

abbrev pub resolved : ⦃host : Host⦄ → Bytes → Option Bytes
resolved ⦃host⦄ name = first_of (host.inet_aton name) (host.gethostbyname name)

is_ignore-sets :
    (b w : Option StrSet) (q : Bytes)
    → is_ignore (record { blacklist_ip = b; whitelacklist_ip = w }) q
      ≡ (listed b q || (is_set w && not (listed w q)))
unfolding is_ignore
is_ignore-sets none none q = refl
is_ignore-sets none (some w) q = ground arith
is_ignore-sets (some b) none q = ground arith
is_ignore-sets (some b) (some w) q = ground arith

is_ignore-listed :
    (l : Lists) (q : Bytes)
    → is_ignore l q ≡ (
        listed l.blacklist_ip q || (is_set l.whitelacklist_ip && not (listed l.whitelacklist_ip q)))
is_ignore-listed l q = is_ignore-sets l.blacklist_ip l.whitelacklist_ip q

-- What main hands on.
pub record Configured ⦃host : Host⦄ (opts : List Opt) (addr addr6 : Bytes) (cfg : Config)
    : Type 0 where
  pub proxy_sa : cfg.proxy_sa ≡ sockaddr_in (last_port opts 2233) addr
  pub proxy_sa6 : cfg.proxy_sa6 ≡ sockaddr_in6 (last_port opts 2233) addr6
  pub ignored :
      (q : Bytes)
      → is_ignore cfg.lists q ≡ (
          (in_black opts q
            || (ignores_local opts && is_local (last_addr opts local_addr_literal).chars q))
          || (has_white opts && not (in_white opts q)))

module _ ⦃host : Host⦄ where
  local_address-first_of :
      (o : Option Bytes) (name addr : Bytes)
      → first_of o (host.gethostbyname name) ≡ some addr
      → local_address o name ≡ ok addr
  unfolding local_address or_exit
  local_address-first_of none name addr h = rw h
  local_address-first_of (some b) name addr h = cc

  -- Where every option is known, the files can be opened, the local address resolves and the
  -- fifo opens, and inet_pton gives the bytes of ::1, main comes to the call of init; the
  -- proxy addresses have the port of the last -p and the resolved address, and an address is
  -- ignored exactly where a line of a black list file is that address, or it is the text of
  -- the last -a or 0.0.0.0 with no -n given, or there is a white list and no line of its
  -- files is that address. A line counts from six bytes on; what stands behind the last
  -- newline counts from seven bytes on, and without its last byte; a text ends at its first
  -- NUL. So with no option ::1 is not ignored, nor is 127.0.0.1 where -a names another
  -- address.
  pub start-Configured :
      (opts : List Opt) (addr addr6 : Bytes)
      → usable opts ≡ true
      → resolved (last_addr opts local_addr_literal).chars ≡ some addr
      → host.inet_pton6 loopback6 ≡ some addr6
      → host.opens (last_fifo opts local_pipe_literal) ≡ true
      → (cfg : Config) × (start opts ≡ ok cfg) × Configured opts addr addr6 cfg
  unfolding start or_exit
  start-Configured opts addr addr6 ok_opts res pton open_ =
      let (s, run, f) = read_options-Follows opts initial_settings ok_opts tt tt in
      let (l, n, local, m) = put_local_addrs_lem s f.black_valid in
      let found : local_address (host.inet_aton s.local_addr.chars) s.local_addr.chars ≡ ok addr =
        rw f.addr (local_address-first_of _ _ addr res) in
      let opened : host.opens s.local_pipe_paht ≡ true = rw f.fifo open_ in
      let lists = record s.lists { blacklist_ip = l } in
      (
        record {
          lists = lists;
          proxy_sa = sockaddr_in s.local_port addr;
          proxy_sa6 = sockaddr_in6 s.local_port addr6;
        },
        rw (run, local, found, pton, opened),
        record {
          proxy_sa = rw f.port;
          proxy_sa6 = rw f.port;
          ignored = λ q.
              is_ignore-listed lists q
              ∙ rw (m q, f.black q, f.white q, f.white_set, f.local, f.addr) (ground arith);
        },
      )
