-- ===== src/Local/Inode/Hex.antt =====
-- The hexadecimal addresses of util.go against those of /proc/net/tcp, where the kernel prints the
-- four bytes of an address as one number of the machine, with the low byte first.
use mathlib.Core.List.{append-nil}
use graftcp.Prelude.{
  ℕ, ◌+◌, ◌*◌, ◌≡◌, refl, sym, ap, ◌∙◌, arith, Bytes, false, [], ◌∷◌, ◌++◌, length, take, drop,
  replicate, le_word, AreBytes, drop-drop, bytes_eq,
}
use graftcp.Local.Lines.{take_front}
use graftcp.Local.Inode.{upper_hex, big_endian, ip2int, swap_hex, is_ip4, ip2_hex}
use graftcp.Local.Inode.Digits.{hex_byte, upper_hex-bytes}

-- The same number as BigEndian reads it, and as the machine does.
big_endian-bytes :
    (a b c d : ℕ) → big_endian (a ∷ b ∷ c ∷ d ∷ []) ≡ ((a * 256 + b) * 256 + c) * 256 + d
unfolding big_endian
big_endian-bytes a b c d = omega arith

le_word-bytes : (a b c d : ℕ) → le_word (a ∷ b ∷ c ∷ d ∷ []) ≡ ((d * 256 + c) * 256 + b) * 256 + a
unfolding le_word
le_word-bytes a b c d = omega arith

swap_hex-bytes :
    (a b c d : ℕ)
    → swap_hex (hex_byte a ++ (hex_byte b ++ (hex_byte c ++ hex_byte d)))
      ≡ hex_byte d ++ (hex_byte c ++ (hex_byte b ++ hex_byte a))
unfolding swap_hex hex_byte
swap_hex-bytes a b c d = refl

-- Four bytes printed in pairs of digits from the last to the first are the machine's number.
pub swap_hex-le_word :
    (a b c d : ℕ)
    → AreBytes (a ∷ b ∷ c ∷ d ∷ [])
    → swap_hex (upper_hex 8 (big_endian (a ∷ b ∷ c ∷ d ∷ [])))
      ≡ upper_hex 8 (le_word (a ∷ b ∷ c ∷ d ∷ []))
swap_hex-le_word a b c d (ha, (hb, (hc, (hd, t)))) =
    rw
      (
        big_endian-bytes a b c d,
        le_word-bytes a b c d,
        upper_hex-bytes a b c d (ha, (hb, (hc, (hd, t)))),
        upper_hex-bytes d c b a (hd, (hc, (hb, (ha, t)))),
      )
      (swap_hex-bytes a b c d)

swap_hex-word :
    (g : Bytes)
    → AreBytes g
    → length g ≡ 4
    → swap_hex (upper_hex 8 (big_endian g)) ≡ upper_hex 8 (le_word g)
swap_hex-word [] h l = absurd (omega arith)
swap_hex-word (a ∷ []) h l = absurd (omega arith)
swap_hex-word (a ∷ b ∷ []) h l = absurd (omega arith)
swap_hex-word (a ∷ b ∷ c ∷ []) h l = absurd (omega arith)
swap_hex-word (a ∷ b ∷ c ∷ d ∷ []) h l = swap_hex-le_word a b c d h
swap_hex-word (a ∷ b ∷ c ∷ d ∷ e ∷ s) h l = absurd (omega arith)

take_four : (g r : Bytes) → length g ≡ 4 → take 4 (g ++ r) ≡ g
take_four g r l = let front = take_front g r in rw l at front

drop_front : (g r : Bytes) → drop (length g) (g ++ r) ≡ r
drop_front [] r = refl
drop_front (x ∷ g) r = drop_front g r

drop_four : (n : ℕ) (g r : Bytes) → length g ≡ 4 → drop (4 + n) (g ++ r) ≡ drop n r
drop_four n g r l =
    let front = drop_front g r in sym (drop-drop n 4 (g ++ r)) ∙ ap (drop n) (rw l at front)

-- An IPv4 address in the sixteen bytes that net keeps of it.
abbrev pub mapped : Bytes → Bytes
mapped a = replicate 10 0 ++ 255 ∷ 255 ∷ a

pub ip2_hex-mapped :
    (a : Bytes) → AreBytes a → length a ≡ 4 → ip2_hex (mapped a) ≡ upper_hex 8 (le_word a)
unfolding ip2_hex is_ip4 ip2int bytes_eq
ip2_hex-mapped [] h l = absurd (omega arith)
ip2_hex-mapped (a ∷ []) h l = absurd (omega arith)
ip2_hex-mapped (a ∷ b ∷ []) h l = absurd (omega arith)
ip2_hex-mapped (a ∷ b ∷ c ∷ []) h l = absurd (omega arith)
ip2_hex-mapped (a ∷ b ∷ c ∷ d ∷ []) h l = swap_hex-le_word a b c d h
ip2_hex-mapped (a ∷ b ∷ c ∷ d ∷ e ∷ s) h l = absurd (omega arith)

take_all : (g : Bytes) → length g ≡ 4 → take 4 g ≡ g
take_all g l = let all = take_four g [] l in rw append-nil at all

-- An address by its words of four bytes, as the network has them.
pub data IpAddress : Type 0 where
  ip4 : Bytes → IpAddress
  ip6 : Bytes → Bytes → Bytes → Bytes → IpAddress

abbrev IsWord : Bytes → Type 0
IsWord g = AreBytes g × (length g ≡ 4)

-- The words have four bytes, and an IPv6 address is none of an IPv4 address.
unfoldable pub IsIpAddress : IpAddress → Type 0
IsIpAddress (ip4 g) = IsWord g
IsIpAddress (ip6 g0 g1 g2 g3) =
    IsWord g0 × IsWord g1 × IsWord g2 × IsWord g3 × (is_ip4 (g0 ++ (g1 ++ (g2 ++ g3))) ≡ false)

-- The sixteen bytes that net keeps.
pub stored : IpAddress → Bytes
stored (ip4 g) = mapped g
stored (ip6 g0 g1 g2 g3) = g0 ++ (g1 ++ (g2 ++ g3))

-- The kernel prints each word as the machine's number, in eight digits.
pub kernel_hex : IpAddress → Bytes
kernel_hex (ip4 g) = upper_hex 8 (le_word g)
kernel_hex (ip6 g0 g1 g2 g3) =
    upper_hex 8 (le_word g0)
    ++ (upper_hex 8 (le_word g1) ++ (upper_hex 8 (le_word g2) ++ upper_hex 8 (le_word g3)))

-- ip2Hex prints the sixteen bytes of an address the way /proc/net/tcp and /proc/net/tcp6 have it:
-- an IPv4 address as the machine's number of its bytes, and an IPv6 address that is none of an IPv4
-- address as its four words in their order, each as the machine's number.
pub ip2_hex-kernel_hex : (ip : IpAddress) → IsIpAddress ip → ip2_hex (stored ip) ≡ kernel_hex ip
unfolding ip2_hex IsIpAddress stored kernel_hex
ip2_hex-kernel_hex (ip4 g) (h, l) = ip2_hex-mapped g h l
ip2_hex-kernel_hex (ip6 g0 g1 g2 g3) ((h0, l0), (h1, l1), (h2, l2), (h3, l3), six) =
    rw
      (
        six,
        take_four g0 (g1 ++ (g2 ++ g3)) l0,
        drop_four 0 g0 (g1 ++ (g2 ++ g3)) l0,
        take_four g1 (g2 ++ g3) l1,
        drop_four 4 g0 (g1 ++ (g2 ++ g3)) l0,
        drop_four 0 g1 (g2 ++ g3) l1,
        take_four g2 g3 l2,
        drop_four 8 g0 (g1 ++ (g2 ++ g3)) l0,
        drop_four 4 g1 (g2 ++ g3) l1,
        drop_four 0 g2 g3 l2,
        take_all g3 l3,
        swap_hex-word g0 h0 l0,
        swap_hex-word g1 h1 l1,
        swap_hex-word g2 h2 l2,
        swap_hex-word g3 h3 l3,
      )
      refl
