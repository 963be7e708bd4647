-- ===== src/Options.antt =====
-- The start of main.c: main, whose options set the lists, the proxy's address and the fifo, and
-- which then starts and traces the program.
pub mod Reading
pub mod Start
pub mod Refusals
pub mod Proxy
pub mod Main
pub mod Usage
pub mod Told
use graftcp.Prelude.{
  ℕ, ◌+◌, ◌/◌, ◌%◌, ◌^◌, Bytes, Bool, true, false, Option, none, some, List, [], ◌∷◌, ◌++◌,
  if◌then◌else◌, replicate,
}
use graftcp.StringSet.{CString, Run, ok, exit, ◌>>=◌, str_set_put}
use graftcp.Filter.{Lists, load_blackip_file, load_whiteip_file, new_if_null}
use graftcp.Kernel.{Kernel}
use graftcp.Uthash.{Uthash}
use graftcp.World.{Cmd, Outcome, ◌>>◌}
use graftcp.Address.{Libc, af_inet, af_inet6}
use graftcp.Handlers.{Config}
use graftcp.Spawn.{init}
use graftcp.Trace.{Ret, do_trace}

-- What main asks of the C library and of the file system.
pub record Host : Type 0 where
  -- atoi, as an int pattern.
  pub atoi : Bytes → ℕ
  -- The contents of a file, `none` where fopen fails.
  pub file : Bytes → Option Bytes
  -- The four bytes of an address, `none` where inet_aton returns 0 or gethostbyname NULL.
  pub inet_aton : Bytes → Option Bytes
  pub gethostbyname : Bytes → Option Bytes
  -- The sixteen bytes for AF_INET6, `none` where inet_pton returns a negative number.
  pub inet_pton6 : Bytes → Option Bytes
  -- Whether open for writing succeeds.
  pub opens : Bytes → Bool
  -- errno after the call of main that has failed.
  pub errno : ℕ

-- An option as getopt_long gives it, with its argument; opt_h is any other result.
pub data Opt : Type 0 where
  opt_a : CString → Opt
  opt_p opt_f opt_b opt_w : Bytes → Opt
  opt_n opt_h : Opt

-- The variables that the options set, and the heap, which is free from `next` on.
pub record Settings : Type 0 where
  pub local_addr : CString
  pub local_port : ℕ
  pub local_pipe_paht : Bytes
  pub ignore_local : Bool
  pub lists : Lists
  pub next : ℕ

-- The string literals of the globals, at addresses that the linker has chosen.
abbrev pub local_addr_literal : CString
local_addr_literal = record {
  address = 1;
  chars = b'1' ∷ b'2' ∷ b'7' ∷ b'.' ∷ b'0' ∷ b'.' ∷ b'0' ∷ b'.' ∷ b'1' ∷ [];
}

abbrev pub local_default_addr : CString
local_default_addr = record {
  address = 2;
  chars = b'0' ∷ b'.' ∷ b'0' ∷ b'.' ∷ b'0' ∷ b'.' ∷ b'0' ∷ [];
}

-- "/tmp/graftcplocal.fifo"
abbrev pub local_pipe_literal : Bytes
local_pipe_literal =
    b'/' ∷ b't' ∷ b'm' ∷ b'p' ∷ b'/' ∷ b'g' ∷ b'r' ∷ b'a' ∷ b'f' ∷ b't' ∷ b'c' ∷ b'p' ∷ b'l' ∷ b'o'
    ∷ b'c' ∷ b'a' ∷ b'l' ∷ b'.' ∷ b'f' ∷ b'i' ∷ b'f' ∷ b'o' ∷ []

abbrev pub initial_settings : Settings
initial_settings = record {
  local_addr = local_addr_literal;
  local_port = 2233;
  local_pipe_paht = local_pipe_literal;
  ignore_local = true;
  lists = record { blacklist_ip = none; whitelacklist_ip = none };
  next = 3;
}

-- "::1"
abbrev pub loopback6 : Bytes
loopback6 = b':' ∷ b':' ∷ b'1' ∷ []

-- struct sockaddr_in and struct sockaddr_in6 with the port in network order; the globals start as
-- 0.
unfoldable pub sockaddr_in : ℕ → Bytes → Bytes
sockaddr_in port addr = af_inet ∷ 0 ∷ port / 256 ∷ port % 256 ∷ addr ++ replicate 8 0

unfoldable pub sockaddr_in6 : ℕ → Bytes → Bytes
sockaddr_in6 port addr =
    af_inet6 ∷ 0 ∷ port / 256 ∷ port % 256 ∷ 0 ∷ 0 ∷ 0 ∷ 0 ∷ addr ++ replicate 4 0

-- `if (ignore_local)`
unfoldable pub put_local_addrs : Settings → Run Settings
put_local_addrs s =
    if s.ignore_local
    then (do
      (set, n) ← new_if_null s.lists.blacklist_ip s.next
      set1 ← str_set_put set s.local_addr (some n)
      set2 ← str_set_put set1 local_default_addr (some (n + 1))
      ok (record s { lists = record s.lists { blacklist_ip = some set2 }; next = n + 2 }))
    else ok s

module _ ⦃host : Host⦄ where
  open host use {atoi, file, inet_aton, gethostbyname, inet_pton6, opens, errno}

  -- The loop over getopt_long.
  unfoldable pub read_options : List Opt → Settings → Run Settings
  read_options [] s = ok s
  read_options (opt_a a ∷ opts) s = read_options opts (record s { local_addr = a })
  read_options (opt_p p ∷ opts) s = read_options opts (record s { local_port = atoi p % 2 ^ 16 })
  read_options (opt_f f ∷ opts) s = read_options opts (record s { local_pipe_paht = f })
  read_options (opt_b b ∷ opts) s = do
    (l, n) ← load_blackip_file (file b) s.lists s.next
    read_options opts (record s { lists = l; next = n })
  read_options (opt_w w ∷ opts) s = do
    (l, n) ← load_whiteip_file (file w) s.lists s.next
    read_options opts (record s { lists = l; next = n })
  read_options (opt_n ∷ opts) s = read_options opts (record s { ignore_local = false })
  read_options (opt_h ∷ opts) s = exit 0

  unfoldable pub or_exit : Option Bytes → Run Bytes
  or_exit none = exit errno
  or_exit (some b) = ok b

  unfoldable pub local_address : Option Bytes → Bytes → Run Bytes
  unfolding or_exit
  local_address none name = or_exit (gethostbyname name)
  local_address (some b) name = ok b

  -- main up to the call of init.
  unfoldable pub start : List Opt → Run Config
  start opts = do
    s0 ← read_options opts initial_settings
    s ← put_local_addrs s0
    addr ← local_address (inet_aton s.local_addr.chars) s.local_addr.chars
    addr6 ← or_exit (inet_pton6 loopback6)
    if opens s.local_pipe_paht
        then ok (record {
          lists = s.lists;
          proxy_sa = sockaddr_in s.local_port addr;
          proxy_sa6 = sockaddr_in6 s.local_port addr6;
        })
        else exit errno

  module _ ⦃kernel : Kernel⦄ ⦃uthash : Uthash⦄ ⦃libc : Libc⦄ where
    pub begin : Run Config → List Bytes → ℕ → Cmd Ret
    begin (exit n) prog fuel w = Outcome.exit n w
    begin (ok cfg) prog fuel w = (init prog >> do_trace cfg fuel) w

    -- main for the options and the words behind them; do_trace runs on fuel.
    unfoldable pub main : List Opt → List Bytes → ℕ → Cmd Ret
    unfolding begin
    main opts prog fuel w = begin (start opts) prog fuel w
