-- ===== src/StringSet/Buckets.antt =====
-- Where the members of a string set stand (string-set.c), and writes to one bucket.
use graftcp.Prelude.{
  ℕ, zero, suc, ◌+◌, ◌≤◌, ◌<◌, ◌≡◌, Bytes, true, List, [], ◌∷◌, ltb, ◌==◌, arith, if◌then◌else◌,
  bytes_eq, bytes_eq_iff, get_or, set, get_or-set, length, length-set,
}
use graftcp.StringSet.{Chain, StrSet, slot, bucket, is_str_set_member}
use graftcp.StringSet.Chains.{count, find_member-count}

unfoldable pub total : List Chain → ℕ
total [] = 0
total (c ∷ bs) = length c + total bs

pub total-set :
    (bs : List Chain) (i : ℕ) (c : Chain)
    → i < length bs
    → total (set bs i c) + length (get_or bs i []) ≡ total bs + length c
unfolding total
total-set [] i c h = absurd (omega arith)
total-set (x ∷ bs) zero c h = omega arith
total-set (x ∷ bs) (suc i) c h = omega (arith, total-set bs i c (omega arith))

-- A string stands in the bucket of its hash only, and there at most once; `length` counts members.
pub record IsValid (s : StrSet) : Type 0 where
  pub sized : s.size ≡ 509
  pub width : length s.buckets ≡ 509
  pub placed :
      (q : Bytes) (i : ℕ) → count q (get_or s.buckets i []) ≤ (if i == slot s q then 1 else 0)
  pub counted : total s.buckets ≡ s.length

pub slot-lt : {s : StrSet} (q : Bytes) → IsValid s → slot s q < length s.buckets
unfolding slot
slot-lt q v = omega (arith, v.sized, v.width)

pub is_str_set_member-count :
    (s : StrSet) (q : Bytes) → is_str_set_member s q ≡ ltb 0 (count q (bucket s q))
unfolding is_str_set_member
is_str_set_member-count s q = find_member-count q (bucket s q)

pub slot_congr : (s : StrSet) (a b : Bytes) → bytes_eq a b ≡ true → slot s a ≡ slot s b
slot_congr s a b h = rw ((bytes_eq_iff a b).0 h)

-- A write of the bucket of `e` that changes how often each string stands there within bounds.
module _ (s : StrSet) (v : IsValid s) (e : Bytes) (c : Chain) (n : ℕ) where
  abbrev written : StrSet
  written = record s { length = n; buckets = set s.buckets (slot s e) c }

  pub bucket-written : bucket written e ≡ c
  unfolding slot
  bucket-written = ground (arith, get_or-set s.buckets (slot s e) (slot s e) c [], slot-lt e v)

  pub member-written :
      (q : Bytes)
      → is_str_set_member written q
        ≡ (if slot s e == slot s q then ltb 0 (count q c) else ltb 0 (count q (bucket s q)))
  unfolding slot
  member-written q =
      rw (is_str_set_member-count written q)
        (ground (arith, get_or-set s.buckets (slot s e) (slot s q) c [], slot-lt e v))

  pub written-IsValid :
      ((q : Bytes) → count q c ≤ (if slot s e == slot s q then 1 else 0))
      → n + length (bucket s e) ≡ s.length + length c
      → IsValid written
  unfolding slot
  written-IsValid bound size = record {
    sized = v.sized;
    width = rw length-set v.width;
    placed = λ q i.
        ground (arith, get_or-set s.buckets (slot s e) i c [], slot-lt e v, v.placed q i, bound q);
    counted = omega (arith, total-set s.buckets (slot s e) c (slot-lt e v), v.counted);
  }
