-- ===== src/Local/Inode/Lookup.antt =====
-- getInodeByAddrs (util.go) on an IPv4 connection and the table of /proc/net/tcp.
use graftcp.Prelude.{
  ℕ, ◌^◌, ◌≤◌, ◌<◌, ◌≡◌, refl, ap, arith, Bytes, Bool, true, false, ◌||◌, some, List, [], ◌∷◌, ◌++◌,
  ltb, ◌==◌, ==_refl, Bool-cases, inl, inr, length, length-append, get_or, drop, le_word, AreBytes,
  codes,
}
use graftcp.Address.{decimal, inet_ntoa}
use graftcp.Local.{pieces}
use graftcp.Local.Lines.{pieces-append, pieces-avoids, decimal-avoids}
use graftcp.Local.Numbers.{inet_ntoa-avoids}
use graftcp.Local.Pids.{has_prefix, contains}
use graftcp.Local.Inode.{
  returned, NetHost, upper_hex, split_addr_ipv4, fields, is_row, find_row, get_inode_by_addrs,
  hex_ip_addr, hex_port, get_inode,
}
use graftcp.Local.Inode.Hex.{mapped, ip2_hex-mapped}

-- ParseIP reads what an IPv4 address prints as, and Atoi what %d prints of a port.
pub record NetLaws (host : NetHost) : Type 0 where
  pub parse_ip-inet_ntoa :
      (a : Bytes) → AreBytes a → length a ≡ 4 → host.parse_ip (inet_ntoa a) ≡ mapped a
  pub atoi-decimal : (n : ℕ) → n < 2 ^ 16 → host.atoi (decimal n) ≡ some n

-- An end of a connection, an IPv4 address and a port, as Go prints it and as /proc/net/tcp has it.
pub record End : Type 0 where
  pub ip : Bytes
  pub port : ℕ

unfoldable pub printed : End → Bytes
printed e = inet_ntoa e.ip ++ b':' ∷ decimal e.port

unfoldable pub tcp_field : End → Bytes
tcp_field e = upper_hex 8 (le_word e.ip) ++ b':' ∷ upper_hex 4 e.port

abbrev pub IsEnd : End → Type 0
IsEnd e = AreBytes e.ip × (length e.ip ≡ 4) × (e.port < 2 ^ 16)

has_prefix_refl : (s : Bytes) → has_prefix s s ≡ true
unfolding has_prefix
has_prefix_refl [] = refl
has_prefix_refl (x ∷ s) = rw (==_refl x) (has_prefix_refl s)

contains_refl : (s : Bytes) → contains s s ≡ true
unfolding contains has_prefix
contains_refl [] = refl
contains_refl (x ∷ s) = rw (has_prefix_refl (x ∷ s)) refl

-- Some line is a row of the two ends.
unfoldable pub is_listed : Bytes → Bytes → List Bytes → Bool
is_listed local_hex remote_hex [] = false
is_listed local_hex remote_hex (line ∷ lines) =
    is_row local_hex remote_hex (fields [] line) || is_listed local_hex remote_hex lines

find_row-first :
    (l r : Bytes) (before after : List Bytes) (line : Bytes)
    → is_listed l r before ≡ false
    → 10 ≤ length (fields [] line)
    → get_or (fields [] line) 1 [] ≡ l
    → get_or (fields [] line) 2 [] ≡ r
    → find_row l r (before ++ line ∷ after) ≡ get_or (fields [] line) 9 []
unfolding find_row is_listed is_row
find_row-first l r [] after line new long first second =
    let enough : ltb (length (fields [] line)) 10 ≡ false = ground arith in
    rw (enough, first, second, contains_refl l, contains_refl r) refl
find_row-first l r (b ∷ before) after line new long first second =
    elim (Bool-cases (is_row l r (fields [] b))) [
      | inl row ↦ absurd (ground arith)
      | inr other ↦ rw other (find_row-first l r before after line (ground arith) long first second)
    ]

inet_ntoa-some : (a : Bytes) → (length (inet_ntoa a) == 0) ≡ false
unfolding inet_ntoa
inet_ntoa-some a =
    let rest =
      decimal (get_or a 1 0)
      ++ (b'.' ∷ decimal (get_or a 2 0) ++ (b'.' ∷ decimal (get_or a 3 0))) in
    let more = length-append (decimal (get_or a 0 0)) (b'.' ∷ rest) in ground arith

split_addr_ipv4-printed :
    (e : End) → split_addr_ipv4 (printed e) ≡ returned (inet_ntoa e.ip, decimal e.port)
unfolding split_addr_ipv4 printed
split_addr_ipv4-printed e =
    rw
      (
        pieces-append b':' [] (inet_ntoa e.ip) (decimal e.port),
        pieces-avoids b':' [] (inet_ntoa e.ip) (inet_ntoa-avoids e.ip b':' refl),
        pieces-avoids b':' [] (decimal e.port) (decimal-avoids b':' e.port refl),
        inet_ntoa-some e.ip,
      )
      refl

module _ (host : NetHost) (laws : NetLaws host) where
  hex_ip_addr-printed :
      (e : End) → IsEnd e → hex_ip_addr host (inet_ntoa e.ip) ≡ upper_hex 8 (le_word e.ip)
  unfolding hex_ip_addr
  hex_ip_addr-printed e (h, l, _) =
      let some_ : (length (mapped e.ip) == 0) ≡ false = ground arith in
      rw (laws.parse_ip-inet_ntoa e.ip h l, some_) (ip2_hex-mapped e.ip h l)

  hex_port-printed :
      (e : End) → IsEnd e → hex_port host (decimal e.port) ≡ returned (upper_hex 4 e.port)
  unfolding hex_port
  hex_port-printed e (_, _, p) = rw (laws.atoi-decimal e.port p) refl

  -- For the two ends of an IPv4 connection getInodeByAddrs gives the tenth field of the first line
  -- of /proc/net/tcp, behind its header, whose second and third fields are the two ends with the
  -- address as the machine's number of its bytes and the port, in hexadecimal digits.
  pub get_inode_by_addrs-first :
      (local remote : End) (text line : Bytes) (before after : List Bytes)
      → IsEnd local
      → IsEnd remote
      → host.read_file (codes "/proc/net/tcp") ≡ some text
      → drop 1 (pieces b'\n' [] text) ≡ before ++ line ∷ after
      → is_listed (tcp_field local) (tcp_field remote) before ≡ false
      → 10 ≤ length (fields [] line)
      → get_or (fields [] line) 1 [] ≡ tcp_field local
      → get_or (fields [] line) 2 [] ≡ tcp_field remote
      → get_inode_by_addrs host (printed local) (printed remote) false
        ≡ returned (get_or (fields [] line) 9 [])
  unfolding get_inode_by_addrs get_inode tcp_field
  get_inode_by_addrs-first local remote text line before after hl hr file rows new long first
        second =
      rw
        (
          split_addr_ipv4-printed local,
          split_addr_ipv4-printed remote,
          hex_port-printed local hl,
          hex_port-printed remote hr,
          hex_ip_addr-printed local hl,
          hex_ip_addr-printed remote hr,
          file,
          rows,
        )
        (ap returned (find_row-first _ _ before after line new long first second))
