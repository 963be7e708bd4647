-- ===== src/Prelude/Words.antt =====
-- Machine words as native numbers: a value of w bits is a number below 2 ^ w, a signed one the
-- pattern of its two's complement. Words are stored with the low byte first, as on x86-64.
use Prim.Native.Nat.{ℕ, zero, suc, ◌+◌, ◌-◌, ◌*◌, ◌/◌, ◌%◌, ◌^◌, ◌<◌}
use mathlib.Core.Path.{◌≡◌, refl, ap}
use mathlib.Core.Bool.{Bool}
use mathlib.Core.List.{[], ◌∷◌}
use native.Mathlib.Omega.{arith}
use graftcp.Prelude.Tests.{ltb, ◌==◌, if◌then◌else◌}
use graftcp.Prelude.Lists.{length}
use graftcp.Prelude.Strings.{Bytes}

-- A long or an unsigned long read as an int.
abbrev pub int_of_long : ℕ → ℕ
int_of_long v = v % 2 ^ 32

-- An int widened to 64 bits, with its sign.
abbrev pub long_of_int : ℕ → ℕ
long_of_int v = if ltb v (2 ^ 31) then v else v + (2 ^ 64 - 2 ^ 32)

-- One bit of a word, given by its weight: x & m, x |= m and x &= ~m.
abbrev pub bit_test : ℕ → ℕ → Bool
bit_test m x = (x / m) % 2 == 1

abbrev pub bit_set : ℕ → ℕ → ℕ
bit_set m x = if bit_test m x then x else x + m

abbrev pub bit_clear : ℕ → ℕ → ℕ
bit_clear m x = if bit_test m x then x - m else x

-- The low n bytes of a word, and the word that bytes stand for.
unfoldable pub le_bytes : ℕ → ℕ → Bytes
le_bytes zero w = []
le_bytes (suc n) w = (w % 256) ∷ le_bytes n (w / 256)

unfoldable pub le_word : Bytes → ℕ
le_word [] = 0
le_word (b ∷ bs) = b + 256 * le_word bs

abbrev pub AreBytes : Bytes → Type 0
AreBytes [] = Unit
AreBytes (b ∷ bs) = (b < 256) × AreBytes bs

pub length-le_bytes : (n w : ℕ) → length (le_bytes n w) ≡ n
unfolding le_bytes
length-le_bytes zero w = refl
length-le_bytes (suc n) w = ap suc (length-le_bytes n (w / 256))

pub le_bytes-le_word : (bs : Bytes) → AreBytes bs → le_bytes (length bs) (le_word bs) ≡ bs
unfolding le_bytes le_word
le_bytes-le_word [] h = refl
le_bytes-le_word (b ∷ bs) h =
    let low : (b + 256 * le_word bs) % 256 ≡ b = omega arith in
    let high : (b + 256 * le_word bs) / 256 ≡ le_word bs = omega arith in
    rw (low, high, le_bytes-le_word bs h.1)
