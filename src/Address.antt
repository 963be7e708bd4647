-- ===== src/Address.antt =====
-- Socket addresses as bytes, and the line of text that main.c sends for one: connect_pre_handle
-- reads sockaddr_in and sockaddr_in6, prints the address and the port, and writes ADDR:PORT:PID.
use graftcp.Prelude.{
  ℕ, zero, suc, ◌+◌, ◌*◌, ◌/◌, ◌%◌, Bytes, [], ◌∷◌, ◌++◌, ltb, if◌then◌else◌, get_or, take, drop,
}

-- AF_INET, AF_INET6
abbrev pub af_inet : ℕ
af_inet = 2

abbrev pub af_inet6 : ℕ
af_inet6 = 10

-- sizeof(struct sockaddr_in), sizeof(struct sockaddr_in6), INET6_ADDRSTRLEN
abbrev pub sizeof_sockaddr_in : ℕ
sizeof_sockaddr_in = 16

abbrev pub sizeof_sockaddr_in6 : ℕ
sizeof_sockaddr_in6 = 28

abbrev pub inet6_addrstrlen : ℕ
inet6_addrstrlen = 46

-- sin_family and sin6_family, in the byte order of the machine.
unfoldable pub sa_family : Bytes → ℕ
sa_family sa = get_or sa 0 0 + 256 * get_or sa 1 0

-- ntohs(sin_port) and ntohs(sin6_port)
unfoldable pub sa_port : Bytes → ℕ
sa_port sa = 256 * get_or sa 2 0 + get_or sa 3 0

-- sin_addr, sin6_addr
unfoldable pub sin_addr : Bytes → Bytes
sin_addr sa = take 4 (drop 4 sa)

unfoldable pub sin6_addr : Bytes → Bytes
sin6_addr sa = take 16 (drop 8 sa)

-- What the C library does that the code relies on, beside the formats that are written out below.
pub record Libc : Type 0 where
  -- inet_ntop(AF_INET6, …) of sixteen bytes.
  pub inet_ntop6 : Bytes → Bytes

-- %d of a number with at most `fuel` digits.
unfoldable pub digits : ℕ → ℕ → Bytes
digits zero n = []
digits (suc fuel) n =
    let rest = digits fuel (n / 10) in
    if ltb n 10 then (b'0' + n) ∷ [] else rest ++ (b'0' + n % 10) ∷ []

-- %d of a positive int: ten digits are enough.
unfoldable pub decimal : ℕ → Bytes
unfolding digits
decimal n = digits 10 n

-- inet_ntoa
unfoldable pub inet_ntoa : Bytes → Bytes
inet_ntoa a =
    decimal (get_or a 0 0)
    ++ (b'.' ∷ decimal (get_or a 1 0)
        ++ (b'.' ∷ decimal (get_or a 2 0) ++ (b'.' ∷ decimal (get_or a 3 0))))

-- What the strcpy, the strcat and the sprintf leave in buf.
unfoldable pub fifo_line : Bytes → ℕ → ℕ → Bytes
fifo_line ip port pid = ip ++ (b':' ∷ (decimal port ++ (b':' ∷ (decimal pid ++ (b'\n' ∷ [])))))
