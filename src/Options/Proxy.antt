-- ===== src/Options/Proxy.antt =====
-- The proxy's addresses as main of main.c fills them in, against what connect_pre_handle reads in
-- an address.
use graftcp.Prelude.{
  ℕ, zero, suc, ◌+◌, ◌*◌, ◌/◌, ◌%◌, ◌^◌, ◌<◌, ◌≡◌, refl, ap, arith, Bytes, [], ◌∷◌, ◌++◌, take,
  length, length-append, replicate, AreBytes,
}
use graftcp.Address.{sa_family, sa_port, sin_addr, sin6_addr, af_inet, af_inet6}
use graftcp.Options.{sockaddr_in, sockaddr_in6}

take_prefix : (n : ℕ) (xs ys : Bytes) → length xs ≡ n → take n (xs ++ ys) ≡ xs
take_prefix zero [] ys h = ground arith
take_prefix zero (x ∷ xs) ys h = absurd (omega arith)
take_prefix (suc n) [] ys h = absurd (omega arith)
take_prefix (suc n) (x ∷ xs) ys h = ap (λ (l : Bytes). x ∷ l) (take_prefix n xs ys (omega arith))

AreBytes-padded : (xs : Bytes) (n : ℕ) → AreBytes xs → AreBytes (xs ++ replicate n 0)
AreBytes-padded [] zero h = tt
AreBytes-padded [] (suc n) h = (omega arith, AreBytes-padded [] n tt)
AreBytes-padded (x ∷ xs) n h = (h.0, AreBytes-padded xs n h.1)

port_bytes : (p : ℕ) → 256 * (p / 256) + p % 256 ≡ p
port_bytes p = omega arith

-- What an address of the given family, port and bytes reads as.
pub record Reads (family port len : ℕ) (addr read sa : Bytes) : Type 0 where
  pub family_read : sa_family sa ≡ family
  pub port_read : sa_port sa ≡ port
  pub addr_read : read ≡ addr
  pub size : length sa ≡ len
  pub are_bytes : AreBytes sa

-- A sockaddr_in that main makes of a port below 2^16 and four bytes has 16 bytes, and
-- connect_pre_handle reads AF_INET, the port and the four bytes in it; a sockaddr_in6 of sixteen
-- bytes has 28, and AF_INET6, the port and the sixteen bytes are read in it.
pub sockaddr-Reads :
    (port : ℕ) (addr addr6 : Bytes)
    → port < 2 ^ 16
    → length addr ≡ 4
    → AreBytes addr
    → length addr6 ≡ 16
    → AreBytes addr6
    → Reads af_inet port 16 addr (sin_addr (sockaddr_in port addr)) (sockaddr_in port addr)
      × Reads af_inet6 port 28 addr6 (sin6_addr (sockaddr_in6 port addr6)) (sockaddr_in6 port addr6)
unfolding sockaddr_in sockaddr_in6 sa_family sa_port sin_addr sin6_addr
sockaddr-Reads port addr addr6 small four bytes sixteen bytes6 = (
  record {
    family_read = refl;
    port_read = port_bytes port;
    addr_read = take_prefix 4 addr _ four;
    size = omega (arith, length-append addr (replicate 8 0), four);
    are_bytes =
        (omega arith, (omega arith, (omega arith, (omega arith, AreBytes-padded addr 8 bytes))));
  },
  record {
    family_read = refl;
    port_read = port_bytes port;
    addr_read = take_prefix 16 addr6 _ sixteen;
    size = omega (arith, length-append addr6 (replicate 4 0), sixteen);
    are_bytes = (
      omega arith,
      (
        omega arith,
        (
          omega arith,
          (
            omega arith,
            (
              omega arith,
              (omega arith, (omega arith, (omega arith, AreBytes-padded addr6 4 bytes6))),
            ),
          ),
        ),
      ),
    );
  },
)
