-- ===== src/Local/Numbers.antt =====
-- The numbers in the fifo's line: what sprintf's %d and inet_ntoa print in main.c, read back.
use native.Mathlib.Nat.{pow-suc}
use graftcp.Prelude.{
  ℕ, zero, suc, ◌+◌, ◌-◌, ◌*◌, ◌/◌, ◌^◌, ◌<◌, ◌≡◌, refl, arith, Bytes, true, false, ◌||◌, [], ◌∷◌,
  ◌++◌, map, ltb, ◌==◌, some, Bool-cases, inl, inr, AreBytes, length, get_or,
}
use mathlib.Core.Option
use graftcp.Address.{digits, decimal, inet_ntoa, fifo_line}
use graftcp.Local.{pieces, parse_line, read_line}
use graftcp.Local.Lines.{
  avoids, avoids-append, decimal-avoids, pieces-append, pieces-avoids, parse_line-fifo_line,
}

-- The number that a string of digits stands for, behind the digits that make up n.
unfoldable pub value : ℕ → Bytes → ℕ
value n [] = n
value n (c ∷ s) = value (n * 10 + (c - b'0')) s

value-append : (n : ℕ) (xs ys : Bytes) → value n (xs ++ ys) ≡ value (value n xs) ys
unfolding value
value-append n [] ys = refl
value-append n (x ∷ xs) ys = value-append (n * 10 + (x - b'0')) xs ys

value-digits : (fuel n : ℕ) → n < 10 ^ fuel → value 0 (digits fuel n) ≡ n
unfolding value digits
value-digits zero n h = omega arith
value-digits (suc fuel) n h = elim (Bool-cases (ltb n 10)) [
  | inl one ↦ rw one (omega arith)
  | inr more ↦
      let less : n < 10 ^ fuel * 10 = rw (pow-suc 10 fuel) at h in
      let fewer : n / 10 < 10 ^ fuel = omega arith in
      rw (more, value-append, value-digits fuel (n / 10) fewer) (omega arith)
]

-- The digits of %d stand for the number.
pub value-decimal : (n : ℕ) → n < 10 ^ 10 → value 0 (decimal n) ≡ n
unfolding decimal
value-decimal n h = value-digits 10 n h

-- The text of inet_ntoa is the four bytes of the address with dots between them.
pub inet_ntoa-pieces :
    (a : Bytes) → AreBytes a → length a ≡ 4 → map (value 0) (pieces b'.' [] (inet_ntoa a)) ≡ a
unfolding inet_ntoa
inet_ntoa-pieces [] h l = absurd (omega arith)
inet_ntoa-pieces (a ∷ []) h l = absurd (omega arith)
inet_ntoa-pieces (a ∷ b ∷ []) h l = absurd (omega arith)
inet_ntoa-pieces (a ∷ b ∷ c ∷ []) h l = absurd (omega arith)
inet_ntoa-pieces (a ∷ b ∷ c ∷ d ∷ e ∷ s) h l = absurd (omega arith)
inet_ntoa-pieces (a ∷ b ∷ c ∷ d ∷ []) (ha, (hb, (hc, (hd, _)))) l =
    let plain = λ (n : ℕ). decimal-avoids b'.' n refl in
    rw (
      pieces-append b'.' [] (decimal a),
      pieces-append b'.' [] (decimal b),
      pieces-append b'.' [] (decimal c),
      pieces-avoids b'.' [] (decimal a) (plain a),
      pieces-avoids b'.' [] (decimal b) (plain b),
      pieces-avoids b'.' [] (decimal c) (plain c),
      pieces-avoids b'.' [] (decimal d) (plain d),
      value-decimal a (omega arith),
      value-decimal b (omega arith),
      value-decimal c (omega arith),
      value-decimal d (omega arith),
    )

pub inet_ntoa-avoids :
    (a : Bytes) (c : ℕ) → (ltb c 46 || ltb 57 c) ≡ true → avoids c (inet_ntoa a) ≡ true
unfolding inet_ntoa avoids
inet_ntoa-avoids a c h =
    let plain = λ (n : ℕ). decimal-avoids c n (ground arith) in
    let dot : (46 == c) ≡ false = ground arith in
    rw (
      avoids-append c (decimal (get_or a 0 0)),
      avoids-append c (decimal (get_or a 1 0)),
      avoids-append c (decimal (get_or a 2 0)),
      plain (get_or a 0 0),
      plain (get_or a 1 0),
      plain (get_or a 2 0),
      plain (get_or a 3 0),
      dot,
    )

-- What an entry of the process map says: the pid, the bytes of its IPv4 address and its port.
unfoldable pub read_entry : Bytes × Bytes → ℕ × (Bytes × ℕ)
read_entry (pid, addr) =
    let s = pieces b':' [] addr in
    (value 0 pid, (map (value 0) (pieces b'.' [] (get_or s 0 [])), value 0 (get_or s 1 [])))

-- The line that connect_pre_handle writes for an IPv4 destination becomes an entry of the pid, the
-- four bytes of the address and the port.
pub fifo_line-numbers :
    (a : Bytes) (port pid : ℕ)
    → AreBytes a
    → length a ≡ 4
    → port < 2 ^ 16
    → pid < 2 ^ 31
    → Option.map read_entry (parse_line (read_line (fifo_line (inet_ntoa a) port pid)))
      ≡ some (pid, (a, port))
unfolding read_entry
fifo_line-numbers a port pid h l hp hq =
    let no_colon = inet_ntoa-avoids a b':' refl in
    let p = decimal port in
    rw (
      parse_line-fifo_line (inet_ntoa a) port pid (inet_ntoa-avoids a b'\n' refl),
      no_colon,
      pieces-append b':' [] (inet_ntoa a) p,
      pieces-avoids b':' [] (inet_ntoa a) no_colon,
      pieces-avoids b':' [] p (decimal-avoids b':' port refl),
      inet_ntoa-pieces a h l,
      value-decimal port (omega arith),
      value-decimal pid (omega arith),
    )
