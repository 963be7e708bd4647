-- ===== src/StringSet/Chains.antt =====
-- One chain of the string set (string-set.c): what the walks find, write and unlink.
use graftcp.Prelude.{
  ℕ, ◌+◌, ◌-◌, ◌≡◌, refl, Bytes, none, some, [], ◌∷◌, ltb, arith, if◌then◌else◌, bytes_eq,
  bytes_eq_iff, bytes_eq_refl, length,
}
use graftcp.StringSet.{CString, Member, Chain, find_member, assign, unlink, is_found}

-- How many members of a chain hold the string.
unfoldable pub count : Bytes → Chain → ℕ
count q [] = 0
count q (p ∷ c) = (if bytes_eq q p.element.chars then 1 else 0) + count q c

-- The walk stops at a member exactly where the chain holds the string.
pub find_member-count : (q : Bytes) (c : Chain) → is_found (find_member q c) ≡ ltb 0 (count q c)
unfolding is_found find_member count
find_member-count q [] = refl
find_member-count q (p ∷ c) = ground (arith, find_member-count q c)

pub find_member-eq-none : (q : Bytes) (c : Chain) → find_member q c ≡ none → count q c ≡ 0
unfolding find_member count
find_member-eq-none q [] h = refl
find_member-eq-none q (p ∷ c) h = ground (arith, find_member-eq-none q c)

pub count-assign : (q : Bytes) (e : CString) (c : Chain) → count q (assign e c) ≡ count q c
unfolding assign count
count-assign q e [] = refl
count-assign q e (p ∷ c) = ground (
  arith,
  count-assign q e c,
  bytes_eq_iff e.chars p.element.chars,
  bytes_eq_iff q p.element.chars,
  bytes_eq_iff q e.chars,
)

pub length-assign : (e : CString) (c : Chain) → length (assign e c) ≡ length c
unfolding assign
length-assign e [] = refl
length-assign e (p ∷ c) = ground (arith, length-assign e c)

pub find_member-assign :
    (e : CString) (c : Chain) (p : Member)
    → find_member e.chars c ≡ some p
    → find_member e.chars (assign e c) ≡ some (record p { element = e })
unfolding assign find_member
find_member-assign e [] p h = cc
find_member-assign e (m ∷ c) p h = ground (arith, find_member-assign e c p, bytes_eq_refl e.chars)

pub count-unlink :
    (s q : Bytes) (c : Chain) → count q (unlink s c) ≡ count q c - (if bytes_eq s q then 1 else 0)
unfolding unlink count
count-unlink s q [] = ground arith
count-unlink s q (p ∷ c) = ground (
  arith,
  count-unlink s q c,
  bytes_eq_iff s p.element.chars,
  bytes_eq_iff q p.element.chars,
  bytes_eq_iff s q,
)

pub length-unlink :
    (s : Bytes) (c : Chain) (p : Member)
    → find_member s c ≡ some p
    → length (unlink s c) + 1 ≡ length c
unfolding unlink find_member
length-unlink s [] p h = cc
length-unlink s (m ∷ c) p h = ground (arith, length-unlink s c p)
