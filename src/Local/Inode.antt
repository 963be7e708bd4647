-- ===== src/Local/Inode.antt =====
-- The search of graftcp-local for the inode of a connection's socket (util.go): getInodeByAddrs,
-- with the splitting of addresses and the hexadecimal forms that /proc/net/tcp has.
mod Digits
pub mod Hex
pub mod Lookup
use graftcp.Prelude.{
  ℕ, zero, suc, ◌+◌, ◌-◌, ◌*◌, ◌/◌, ◌%◌, ◌^◌, Bytes, Bool, true, false, not, ◌||◌, ◌&&◌, Option,
  none, some, List, [], ◌∷◌, ◌++◌, ltb, ◌==◌, if◌then◌else◌, codes, bytes_eq, length, get_or, take,
  drop, replicate,
}
use graftcp.Local.{pieces}
use graftcp.Local.Pids.{has_prefix, contains}

-- What a function of util.go comes to: a value, an error, a slice out of bounds, or os.Exit(1).
pub data Outcome (A : Type 0) : Type 0 where
  returned : A → Outcome A
  failed : Outcome A
  panics : Outcome A
  exits : Outcome A

infixl 20 ◌>>=◌
unfoldable pub ◌>>=◌ : {A B : Type 0} → Outcome A → (A → Outcome B) → Outcome B
returned a >>= f = f a
failed >>= f = failed
panics >>= f = panics
exits >>= f = exits

-- What util.go asks of net, strconv and ioutil: ParseIP, which is empty for what is no address and
-- has sixteen bytes otherwise; Atoi of a text with no sign; and the contents of a file.
pub record NetHost : Type 0 where
  pub parse_ip : Bytes → Bytes
  pub atoi : Bytes → Option ℕ
  pub read_file : Bytes → Option Bytes

-- %X, with at most `fuel` digits.
unfoldable pub hex_digit : ℕ → ℕ
hex_digit d = if ltb d 10 then b'0' + d else b'A' + (d - 10)

unfoldable pub hex_digits : ℕ → ℕ → Bytes
hex_digits zero n = []
hex_digits (suc fuel) n =
    let rest = hex_digits fuel (n / 16) in
    if ltb n 16 then hex_digit n ∷ [] else rest ++ hex_digit (n % 16) ∷ []

unfoldable pub pad : ℕ → Bytes → Bytes
pad width s = replicate (width - length s) b'0' ++ s

-- %08X and %04X: sixteen digits are enough for an int.
unfoldable pub upper_hex : ℕ → ℕ → Bytes
unfolding pad hex_digits
upper_hex width n = pad width (hex_digits 16 n)

-- binary.BigEndian.Uint32
unfoldable pub big_endian : Bytes → ℕ
big_endian b = get_or b 0 0 * 2 ^ 24 + get_or b 1 0 * 2 ^ 16 + get_or b 2 0 * 2 ^ 8 + get_or b 3 0

unfoldable pub ip2int : Bytes → ℕ
unfolding big_endian
ip2int ip = if length ip == 16 then big_endian (take 4 (drop 12 ip)) else big_endian ip

-- ipHex[6:] + ipHex[4:6] + ipHex[2:4] + ipHex[:2]
unfoldable pub swap_hex : Bytes → Bytes
swap_hex s = drop 6 s ++ (take 2 (drop 4 s) ++ (take 2 (drop 2 s) ++ take 2 s))

-- ip.To4() != nil
unfoldable pub is_ip4 : Bytes → Bool
is_ip4 ip =
    length ip == 4 || (length ip == 16 && bytes_eq (take 12 ip) (replicate 10 0 ++ 255 ∷ 255 ∷ []))

unfoldable pub ip2_hex : Bytes → Bytes
unfolding swap_hex upper_hex
ip2_hex ip =
    if is_ip4 ip
    then swap_hex (upper_hex 8 (ip2int ip))
    else swap_hex (upper_hex 8 (big_endian (take 4 ip)))
      ++ (swap_hex (upper_hex 8 (big_endian (take 4 (drop 4 ip))))
          ++ (swap_hex (upper_hex 8 (big_endian (take 4 (drop 8 ip))))
              ++ swap_hex (upper_hex 8 (big_endian (take 4 (drop 12 ip))))))

unfoldable pub split_addr_ipv4 : Bytes → Outcome (Bytes × Bytes)
split_addr_ipv4 addr =
    let s = pieces b':' [] addr in
    let ip = get_or s 0 [] in
    if length s == 2
    then returned ((if length ip == 0 then codes "127.0.0.1" else ip), get_or s 1 [])
    else failed

-- strings.LastIndex of one byte, from i on, with the place found so far.
unfoldable pub last_index : ℕ → ℕ → Option ℕ → Bytes → Option ℕ
last_index c i found [] = found
last_index c i found (x ∷ s) = last_index c (i + 1) (if x == c then some i else found) s

-- addr[1:sep] and addr[sep+2:]
unfoldable pub cut_at : Bytes → Option ℕ → Outcome (Bytes × Bytes)
cut_at addr none = panics
cut_at addr (some sep) =
    if ltb (length addr) (sep + 2)
    then panics
    else returned (take (sep - 1) (drop 1 addr), drop (sep + 2) addr)

unfoldable pub split_addr_ipv6 : Bytes → Outcome (Bytes × Bytes)
unfolding cut_at
split_addr_ipv6 addr =
    if not (has_prefix (codes "[") addr) || not (contains (codes "]:") addr)
    then failed
    else cut_at addr (last_index b']' 0 none addr)

-- strings.Fields of an ASCII text, with what is read of the first one.
abbrev pub is_space : ℕ → Bool
is_space c = c == 32 || (ltb 8 c && ltb c 14)

unfoldable pub fields : Bytes → Bytes → List Bytes
fields word [] = if length word == 0 then [] else word ∷ []
fields word (x ∷ s) =
    let rest = fields [] s in
    let longer = fields (word ++ x ∷ []) s in
    if is_space x then (if length word == 0 then rest else word ∷ rest) else longer

-- The tests of the loop of getInode on one line.
unfoldable pub is_row : Bytes → Bytes → List Bytes → Bool
is_row local_hex remote_hex fs =
    not (ltb (length fs) 10)
    && (contains local_hex (get_or fs 1 []) && contains remote_hex (get_or fs 2 []))

unfoldable pub find_row : Bytes → Bytes → List Bytes → Bytes
unfolding is_row
find_row local_hex remote_hex [] = []
find_row local_hex remote_hex (line ∷ lines) =
    let rest = find_row local_hex remote_hex lines in
    let fs = fields [] line in if is_row local_hex remote_hex fs then get_or fs 9 [] else rest

module _ (host : NetHost) where
  unfoldable pub hex_ip_addr : Bytes → Bytes
  hex_ip_addr addr = let ip = host.parse_ip addr in if length ip == 0 then [] else ip2_hex ip

  pub printed_port : Option ℕ → Outcome Bytes
  printed_port none = failed
  printed_port (some port) = returned (upper_hex 4 port)

  unfoldable pub hex_port : Bytes → Outcome Bytes
  unfolding printed_port
  hex_port port = printed_port (host.atoi port)

  -- The header line is skipped.
  pub in_file : Bytes → Bytes → Option Bytes → Outcome Bytes
  in_file local_hex remote_hex none = exits
  in_file local_hex remote_hex (some text) =
      returned (find_row local_hex remote_hex (drop 1 (pieces b'\n' [] text)))

  unfoldable pub get_inode : Bytes → Bytes → Bool → Outcome Bytes
  unfolding in_file
  get_inode local_hex remote_hex is_tcp6 =
      in_file local_hex remote_hex
        (host.read_file (if is_tcp6 then codes "/proc/net/tcp6" else codes "/proc/net/tcp"))

  unfoldable pub split_addr : Bool → Bytes → Outcome (Bytes × Bytes)
  split_addr is_tcp6 addr = if is_tcp6 then split_addr_ipv6 addr else split_addr_ipv4 addr

  unfoldable pub get_inode_by_addrs : Bytes → Bytes → Bool → Outcome Bytes
  unfolding ◌>>=◌ split_addr
  get_inode_by_addrs local_addr remote_addr is_tcp6 = do
    local ← split_addr is_tcp6 local_addr
    remote ← split_addr is_tcp6 remote_addr
    local_port_hex ← hex_port local.1
    remote_port_hex ← hex_port remote.1
    get_inode (hex_ip_addr local.0 ++ b':' ∷ local_port_hex)
        (hex_ip_addr remote.0 ++ b':' ∷ remote_port_hex) is_tcp6
