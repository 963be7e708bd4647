-- ===== src/StringSet/Hash.antt =====
-- The hash of string-set.c against the same sum with no wrap-around.
use graftcp.Prelude.{ℕ, ◌+◌, ◌*◌, ◌%◌, ◌^◌, ◌≡◌, refl, Bytes, [], ◌∷◌, arith, ap, ◌∙◌}
use graftcp.StringSet.{char_value, hash_loop, str_hash}

-- hash * 33 + c over the unbounded numbers.
pub hash_sum : ℕ → Bytes → ℕ
hash_sum hash [] = hash
hash_sum hash (c ∷ str) = hash_sum (hash * 33 + char_value c) str

hash_round :
    (h v : ℕ) → (((h % 2 ^ 64) * 2 ^ 5) % 2 ^ 64 + h % 2 ^ 64 + v) % 2 ^ 64 ≡ (h * 33 + v) % 2 ^ 64
hash_round h v = omega arith

hash_loop-sum : (h : ℕ) (str : Bytes) → hash_loop (h % 2 ^ 64) str ≡ hash_sum h str % 2 ^ 64
unfolding hash_loop hash_sum
hash_loop-sum h [] = refl
hash_loop-sum h (c ∷ str) =
    ap (λ (n : ℕ). hash_loop n str) (hash_round h (char_value c))
    ∙ hash_loop-sum (h * 33 + char_value c) str

-- The shift, the two additions and the wrap-around of each round compute hash * 33 + c modulo 2^64,
-- from 5381, over the signed characters of the string.
pub str_hash-sum : (str : Bytes) → str_hash str ≡ hash_sum 5381 str % 2 ^ 64
unfolding str_hash
str_hash-sum str = hash_loop-sum 5381 str
