-- ===== src/Local/Inode/Digits.antt =====
-- The digits of %08X (util.go): a number of four bytes is printed byte by byte.
use mathlib.Core.List.{append_assoc}
use native.Mathlib.Nat.{pow-suc}
use graftcp.Prelude.{
  ℕ, zero, suc, ◌+◌, ◌-◌, ◌*◌, ◌/◌, ◌%◌, ◌^◌, ◌≤◌, ◌<◌, ◌≡◌, refl, sym, ap, arith, Bytes, false, [],
  ◌∷◌, ◌++◌, ltb, ltb→lt, Bool-cases, inl, inr, length, length-append, replicate, AreBytes,
}
use graftcp.Local.Inode.{hex_digit, hex_digits, pad, upper_hex}

-- The low digits of a number, as many as the width says.
unfoldable pub fixed_hex : ℕ → ℕ → Bytes
fixed_hex zero n = []
fixed_hex (suc width) n = fixed_hex width (n / 16) ++ hex_digit (n % 16) ∷ []

replicate-end : (n : ℕ) (c : ℕ) → replicate n c ++ c ∷ [] ≡ c ∷ replicate n c
replicate-end zero c = refl
replicate-end (suc n) c = ap (λ (l : Bytes). c ∷ l) (replicate-end n c)

fixed_hex-zero : (width : ℕ) → fixed_hex width 0 ≡ replicate width b'0'
unfolding fixed_hex hex_digit
fixed_hex-zero zero = refl
fixed_hex-zero (suc width) = rw (fixed_hex-zero width) (replicate-end width b'0')

pad-append : (width : ℕ) (s : Bytes) (d : ℕ) → pad (suc width) (s ++ d ∷ []) ≡ pad width s ++ d ∷ []
unfolding pad
pad-append width s d =
    let fewer : suc width - (length s + 1) ≡ width - length s = omega arith in
    rw (length-append s (d ∷ []), fewer)
      (sym (append_assoc (replicate (width - length s) b'0') s (d ∷ [])))

pad-digit : (width d : ℕ) → pad (suc width) (d ∷ []) ≡ replicate width b'0' ++ d ∷ []
unfolding pad
pad-digit width d = let fewer : suc width - 1 ≡ width = omega arith in rw fewer refl

pad-fixed_hex :
    (width fuel n : ℕ)
    → n < 16 ^ (suc width)
    → suc width ≤ fuel
    → pad (suc width) (hex_digits fuel n) ≡ fixed_hex (suc width) n
unfolding hex_digits fixed_hex
pad-fixed_hex width zero n h k = absurd (omega arith)
pad-fixed_hex width (suc fuel) n h k = elim (Bool-cases (ltb n 16)) [
  | inl one ↦
      let less = ltb→lt n 16 one in
      let low : n % 16 ≡ n = omega arith in
      let high : n / 16 ≡ 0 = omega arith in
      rw (one, low, high, fixed_hex-zero width) (pad-digit width (hex_digit n))
  | inr more ↦
      rw (more, pad-append width (hex_digits fuel (n / 16)) (hex_digit (n % 16)))
        (ap (λ (l : Bytes). l ++ hex_digit (n % 16) ∷ [])
          (wider width (λ w. pad-fixed_hex w fuel (n / 16)) h k more))
]
  where
    wider :
        (width : ℕ)
        → ((w : ℕ)
            → n / 16 < 16 ^ suc w
            → suc w ≤ fuel
            → pad (suc w) (hex_digits fuel (n / 16)) ≡ fixed_hex (suc w) (n / 16))
        → n < 16 ^ (suc width)
        → suc width ≤ suc fuel
        → ltb n 16 ≡ false
        → pad width (hex_digits fuel (n / 16)) ≡ fixed_hex width (n / 16)
    wider zero hyp h k more = absurd (ground arith)
    wider (suc w) hyp h k more =
        let less : n < 16 ^ suc w * 16 = rw (pow-suc 16 (suc w)) at h in
        hyp w (omega arith) (omega arith)

-- The two digits of a byte.
unfoldable pub hex_byte : ℕ → Bytes
hex_byte b = hex_digit (b / 16) ∷ hex_digit (b % 16) ∷ []

fixed_hex-byte :
    (width n b : ℕ)
    → b < 256
    → fixed_hex (suc (suc width)) (n * 256 + b) ≡ fixed_hex width n ++ hex_byte b
unfolding fixed_hex hex_byte
fixed_hex-byte width n b h =
    let low : (n * 256 + b) % 16 ≡ b % 16 = omega arith in
    let middle : ((n * 256 + b) / 16) % 16 ≡ b / 16 = omega arith in
    let high : (n * 256 + b) / 16 / 16 ≡ n = omega arith in
    rw (low, middle, high)
      (append_assoc (fixed_hex width n) (hex_digit (b / 16) ∷ []) (hex_digit (b % 16) ∷ []))

fixed_hex-two : (b : ℕ) → b < 256 → fixed_hex 2 b ≡ hex_byte b
unfolding fixed_hex hex_byte
fixed_hex-two b h = let low : (b / 16) % 16 ≡ b / 16 = omega arith in rw low refl

-- %08X of a number of four bytes prints the bytes, the highest first.
pub upper_hex-bytes :
    (a b c d : ℕ)
    → AreBytes (a ∷ b ∷ c ∷ d ∷ [])
    → upper_hex 8 (((a * 256 + b) * 256 + c) * 256 + d)
      ≡ hex_byte a ++ (hex_byte b ++ (hex_byte c ++ hex_byte d))
unfolding upper_hex
upper_hex-bytes a b c d (ha, (hb, (hc, (hd, _)))) =
    rw
      (
        pad-fixed_hex 7 16 (((a * 256 + b) * 256 + c) * 256 + d) (omega arith) (omega arith),
        fixed_hex-byte 6 ((a * 256 + b) * 256 + c) d hd,
        fixed_hex-byte 4 (a * 256 + b) c hc,
        fixed_hex-byte 2 a b hb,
        fixed_hex-two a ha,
        append_assoc (hex_byte a ++ hex_byte b) (hex_byte c) (hex_byte d),
      )
      (append_assoc (hex_byte a) (hex_byte b) (hex_byte c ++ hex_byte d))
