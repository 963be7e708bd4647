-- ===== src/Local/Lines.antt =====
-- The line that connect_pre_handle of main.c writes, as graftcp-local/local.go reads it.
use mathlib.Core.List.{append-nil, append_assoc}
use graftcp.Prelude.{
  ℕ, zero, suc, ◌+◌, ◌-◌, ◌/◌, ◌≤◌, ◌≡◌, refl, ◌∙◌, ap, arith, Bytes, Bool, true, false, ◌&&◌, ◌||◌,
  not, some, List, [], ◌∷◌, ◌++◌, ltb, ◌==◌, ==_refl, if◌then◌else◌, Bool-cases, inl, inr, take,
  length, length-append, get_or,
}
use graftcp.Address.{digits, decimal, fifo_line}
use graftcp.Local.{ipv6, pieces, read_line, parse_line}

-- No byte of a string is the given one.
unfoldable pub avoids : ℕ → Bytes → Bool
avoids c [] = true
avoids c (x ∷ s) = not (x == c) && avoids c s

pub avoids-append : (c : ℕ) (xs ys : Bytes) → avoids c (xs ++ ys) ≡ (avoids c xs && avoids c ys)
unfolding avoids
avoids-append c [] ys = refl
avoids-append c (x ∷ xs) ys = ground (arith, avoids-append c xs ys)

digits-avoids : (c fuel n : ℕ) → (ltb c 48 || ltb 57 c) ≡ true → avoids c (digits fuel n) ≡ true
unfolding digits avoids
digits-avoids c zero n h = refl
digits-avoids c (suc fuel) n h = elim (Bool-cases (ltb n 10)) [
  | inl one ↦ rw one (ground arith)
  | inr more ↦ rw more (rw (avoids-append, digits-avoids c fuel (n / 10) h) (ground arith))
]

pub pieces-append :
    (c : ℕ) (piece xs ys : Bytes)
    → pieces c piece (xs ++ c ∷ ys) ≡ pieces c piece xs ++ pieces c [] ys
unfolding pieces
pieces-append c piece [] ys = rw (==_refl c)
pieces-append c piece (x ∷ xs) ys = elim (Bool-cases (x == c)) [
  | inl same ↦ rw same (ap (λ (l : List Bytes). piece ∷ l) (pieces-append c [] xs ys))
  | inr other ↦ rw other (pieces-append c (piece ++ x ∷ []) xs ys)
]

pub pieces-avoids :
    (c : ℕ) (piece xs : Bytes) → avoids c xs ≡ true → pieces c piece xs ≡ (piece ++ xs) ∷ []
unfolding pieces avoids
pieces-avoids c piece [] h = rw append-nil
pieces-avoids c piece (x ∷ xs) h = elim (Bool-cases (x == c)) [
  | inl same ↦ absurd (ground arith)
  | inr other ↦ rw other (pieces-avoids c (piece ++ x ∷ []) xs (ground arith) ∙ rw append_assoc)
]

length-pieces : (c : ℕ) (piece xs : Bytes) → 1 ≤ length (pieces c piece xs)
unfolding pieces
length-pieces c piece [] = omega arith
length-pieces c piece (x ∷ xs) = elim (Bool-cases (x == c)) [
  | inl same ↦ let some_ = length-pieces c [] xs in rw same (omega arith)
  | inr other ↦ rw other (length-pieces c (piece ++ x ∷ []) xs)
]

length-pieces_two :
    (c : ℕ) (piece xs : Bytes) → avoids c xs ≡ false → 2 ≤ length (pieces c piece xs)
unfolding pieces avoids
length-pieces_two c piece [] h = cc
length-pieces_two c piece (x ∷ xs) h = elim (Bool-cases (x == c)) [
  | inl same ↦ let some_ = length-pieces c [] xs in rw same (omega arith)
  | inr other ↦ rw other (length-pieces_two c (piece ++ x ∷ []) xs (ground arith))
]

read_line-newline : (xs : Bytes) → avoids b'\n' xs ≡ true → read_line (xs ++ b'\n' ∷ []) ≡ xs
unfolding read_line avoids
read_line-newline [] h = refl
read_line-newline (x ∷ xs) h = elim (Bool-cases (x == b'\n')) [
  | inl same ↦ absurd (ground arith)
  | inr other ↦ rw other (ap (λ (l : Bytes). x ∷ l) (read_line-newline xs (ground arith)))
]

pieces-three :
    (ip p q : Bytes)
    → avoids b':' p ≡ true
    → avoids b':' q ≡ true
    → pieces b':' [] (ip ++ b':' ∷ (p ++ b':' ∷ q)) ≡ pieces b':' [] ip ++ p ∷ q ∷ []
pieces-three ip p q h k =
    rw (
      pieces-append,
      pieces-append b':' [] p q,
      pieces-avoids b':' [] p h,
      pieces-avoids b':' [] q k,
    )

pub take_front : (xs ys : Bytes) → take (length xs) (xs ++ ys) ≡ xs
take_front [] ys = ground arith
take_front (x ∷ xs) ys = ap (λ (l : Bytes). x ∷ l) (take_front xs ys)

length_line :
    (ip p q : Bytes) → length (ip ++ b':' ∷ (p ++ b':' ∷ q)) - 2 - length q - length p ≡ length ip
length_line ip p q = rw (length-append ip, length-append p) (omega arith)

last_two :
    (s : List Bytes) (p q : Bytes)
    → (length (s ++ p ∷ q ∷ []) ≡ length s + 2)
      × (get_or (s ++ p ∷ q ∷ []) (length s + 2 - 1) [] ≡ q)
      × (get_or (s ++ p ∷ q ∷ []) (length s + 2 - 2) [] ≡ p)
last_two [] p q = (refl, refl, refl)
last_two (x ∷ s) p q =
    let (l, a, b) = last_two s p q in
    let ea : length (x ∷ s) + 2 - 1 ≡ suc (length s + 2 - 1) = omega arith in
    let eb : length (x ∷ s) + 2 - 2 ≡ suc (length s + 2 - 2) = omega arith in
    (omega (arith, l), rw ea a, rw eb b)

-- What the reader passes on: an address with no colon as it is, and any other one in brackets.
abbrev pub shown : Bytes → Bytes → Bytes
shown ip p = if avoids b':' ip then ip ++ b':' ∷ p else b'[' ∷ ip ++ (b']' ∷ b':' ∷ p)

parse_line-pieces :
    (ip p q : Bytes)
    → avoids b':' p ≡ true
    → avoids b':' q ≡ true
    → parse_line (ip ++ b':' ∷ (p ++ b':' ∷ q)) ≡ some (q, shown ip p)
unfolding parse_line ipv6
parse_line-pieces ip p q h k = elim (Bool-cases (avoids b':' ip)) [
  | inl four ↦ rw (pieces-three ip p q h k, pieces-avoids b':' [] ip four, four)
  | inr six ↦
      let (l, a, b) = last_two (pieces b':' [] ip) p q in
      let two = length-pieces_two b':' [] ip six in
      let few : ltb (length (pieces b':' [] ip) + 2) 3 ≡ false = ground arith in
      let many : ltb 3 (length (pieces b':' [] ip) + 2) ≡ true = ground arith in
      rw (pieces-three ip p q h k, l, few, many, a, b, length_line ip p q, take_front, six)
]

pub decimal-avoids : (c n : ℕ) → (ltb c 48 || ltb 57 c) ≡ true → avoids c (decimal n) ≡ true
unfolding decimal
decimal-avoids c n h = digits-avoids c 10 n h

line_plain :
    (ip p q : Bytes)
    → avoids b'\n' ip ≡ true
    → avoids b'\n' p ≡ true
    → avoids b'\n' q ≡ true
    → avoids b'\n' (ip ++ b':' ∷ (p ++ b':' ∷ q)) ≡ true
unfolding avoids
line_plain ip p q h k l = rw (avoids-append b'\n' ip, h, avoids-append b'\n' p, k, l)

line_end :
    (ip p q : Bytes)
    → ip ++ b':' ∷ (p ++ b':' ∷ (q ++ b'\n' ∷ [])) ≡ (ip ++ b':' ∷ (p ++ b':' ∷ q)) ++ b'\n' ∷ []
line_end ip p q = rw (append_assoc ip, append_assoc p)

-- graftcp-local reads back each line that connect_pre_handle writes for an address with no newline:
-- it stores the pid, with the address and the port, the address in brackets where it has a colon.
pub parse_line-fifo_line :
    (ip : Bytes) (port pid : ℕ)
    → avoids b'\n' ip ≡ true
    → parse_line (read_line (fifo_line ip port pid)) ≡ some (decimal pid, shown ip (decimal port))
unfolding fifo_line
parse_line-fifo_line ip port pid h =
    let p = decimal port in
    let q = decimal pid in
    rw
      (
        line_end ip p q,
        read_line-newline (ip ++ b':' ∷ (p ++ b':' ∷ q))
            (line_plain ip p q h (decimal-avoids b'\n' port refl) (decimal-avoids b'\n' pid refl)),
      )
      (parse_line-pieces ip p q (decimal-avoids b':' port refl) (decimal-avoids b':' pid refl))
