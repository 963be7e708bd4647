-- ===== src/Tests/Inode.antt =====
-- The search for a socket's inode on a sample of /proc/net/tcp.
use graftcp.Prelude.{
  ◌≡◌, refl, ap, arith, Bytes, false, some, [], ◌∷◌, ◌++◌, map, codes, get_or, le_word, bytes_eq,
}
use graftcp.Local.{pieces}
use graftcp.Local.Numbers.{value, value-decimal, inet_ntoa-pieces}
use graftcp.Local.Pids.{has_prefix, contains}
use graftcp.Local.Inode.{
  is_row, hex_digit, last_index, NetHost, returned, panics, get_inode_by_addrs, fields, is_ip4,
  ip2_hex, upper_hex, split_addr_ipv6,
}
use graftcp.Local.Inode.Hex.{
  mapped, IpAddress, ip6, IsIpAddress, stored, kernel_hex, ip2_hex-kernel_hex,
}
use graftcp.Local.Inode.Lookup.{
  End, NetLaws, printed, tcp_field, is_listed, get_inode_by_addrs-first,
}

-- The rows of two connections to 10.0.0.2:80.
abbrev header : Bytes
header = codes "sl local_address rem_address st"

abbrev row0 : Bytes
row0 = codes " 0: 0100007F:04D3 0200000A:0050 01 0:0 00:0 0 1000 0 776 1"

abbrev row1 : Bytes
row1 = codes " 1: 0100007F:04D2 0200000A:0050 01 0:0 00:0 0 1000 0 777 1"

abbrev host : NetHost
host = record {
  parse_ip = λ s. mapped (map (value 0) (pieces b'.' [] s));
  atoi = λ s. some (value 0 s);
  read_file = λ path. some (header ++ b'\n' ∷ (row0 ++ b'\n' ∷ row1));
}

abbrev host_laws : NetLaws host
host_laws = record {
  parse_ip-inet_ntoa = λ a h l. ap mapped (inet_ntoa-pieces a h l);
  atoi-decimal = λ n small. ap some (value-decimal n (omega arith));
}

abbrev near : End
near = record { ip = 127 ∷ 0 ∷ 0 ∷ 1 ∷ []; port = 1234 }

abbrev far : End
far = record { ip = 10 ∷ 0 ∷ 0 ∷ 2 ∷ []; port = 80 }

get_inode_by_addrs-first_example :
    get_inode_by_addrs host (printed near) (printed far) false
    ≡ returned (get_or (fields [] row1) 9 [])
unfolding pieces is_listed fields tcp_field upper_hex is_row contains has_prefix le_word hex_digit
get_inode_by_addrs-first_example =
    get_inode_by_addrs-first host host_laws near far (header ++ b'\n' ∷ (row0 ++ b'\n' ∷ row1)) row1
      (row0 ∷ []) []
      ((omega arith, (omega arith, (omega arith, (omega arith, tt)))), refl, omega arith)
      ((omega arith, (omega arith, (omega arith, (omega arith, tt)))), refl, omega arith) refl refl
      refl (omega arith) refl refl

-- An IPv6 address.
abbrev six : IpAddress
six = ip6 (32 ∷ 1 ∷ 13 ∷ 184 ∷ []) (0 ∷ 0 ∷ 0 ∷ 0 ∷ []) (0 ∷ 0 ∷ 0 ∷ 0 ∷ []) (0 ∷ 0 ∷ 0 ∷ 1 ∷ [])

six-IsIpAddress : IsIpAddress six
unfolding IsIpAddress is_ip4 bytes_eq
six-IsIpAddress = (
  ((omega arith, (omega arith, (omega arith, (omega arith, tt)))), refl),
  ((omega arith, (omega arith, (omega arith, (omega arith, tt)))), refl),
  ((omega arith, (omega arith, (omega arith, (omega arith, tt)))), refl),
  ((omega arith, (omega arith, (omega arith, (omega arith, tt)))), refl),
  refl,
)

ip2_hex-kernel_hex_example : ip2_hex (stored six) ≡ kernel_hex six
ip2_hex-kernel_hex_example = ip2_hex-kernel_hex six six-IsIpAddress

split_ip6 : split_addr_ipv6 (codes "[::1]:443") ≡ returned (codes "::1", codes "443")
unfolding split_addr_ipv6 has_prefix contains last_index
split_ip6 = refl

-- A slice out of bounds, which no address that Go prints comes to.
split_ip6_end : split_addr_ipv6 (codes "[::1]:]") ≡ panics
unfolding split_addr_ipv6 has_prefix contains last_index
split_ip6_end = refl
