-- ===== src/Uthash/Chain.antt =====
-- A concrete table, one chain with the newest element in front: the assumptions on uthash can hold.
use graftcp.Prelude.{
  ℕ, ◌≡◌, refl, arith, Bool, true, false, ◌||◌, ◌&&◌, not, Option, none, some, List, [], ◌∷◌, ◌==◌,
  if◌then◌else◌,
}
use graftcp.Uthash.{Uthash, UthashLaws}

abbrev pub Elements : Type 0
Elements = List (ℕ × ℕ)

unfoldable pub chain_find : Elements → ℕ → Option ℕ
chain_find [] k = none
chain_find ((j, q) ∷ t) k = if j == k then some q else chain_find t k

unfoldable pub chain_del : Elements → ℕ → Elements
chain_del [] p = []
chain_del ((j, q) ∷ t) p = let rest = chain_del t p in if q == p then rest else (j, q) ∷ rest

unfoldable pub chain_holds : Elements → ℕ → ℕ → Bool
chain_holds [] j q = false
chain_holds ((k, p) ∷ t) j q = (j == k && q == p) || chain_holds t j q

pub chain_holds-empty : (k p : ℕ) → chain_holds [] k p ≡ false
unfolding chain_holds
chain_holds-empty k p = refl

pub chain_holds-add :
    (t : Elements) (k p j q : ℕ)
    → chain_holds ((k, p) ∷ t) j q ≡ ((j == k && q == p) || chain_holds t j q)
unfolding chain_holds
chain_holds-add t k p j q = refl

pub chain_holds-del :
    (t : Elements) (p j q : ℕ)
    → chain_holds (chain_del t p) j q ≡ (not (q == p) && chain_holds t j q)
unfolding chain_holds chain_del
chain_holds-del [] p j q = ground arith
chain_holds-del ((k, r) ∷ t) p j q = ground (arith, chain_holds-del t p j q)

pub chain_holds-find : (t : Elements) (k p : ℕ) → chain_find t k ≡ some p → chain_holds t k p ≡ true
unfolding chain_holds chain_find
chain_holds-find [] k p h = cc
chain_holds-find ((j, r) ∷ t) k p h = ground (arith, chain_holds-find t k p)

pub chain_find-none : (t : Elements) (k p : ℕ) → chain_find t k ≡ none → chain_holds t k p ≡ false
unfolding chain_holds chain_find
chain_find-none [] k p h = refl
chain_find-none ((j, r) ∷ t) k p h = ground (arith, chain_find-none t k p)

instance abbrev pub chain_table : Uthash
chain_table = record {
  Table = Elements;
  empty = [];
  add = λ t k p. (k, p) ∷ t;
  del = chain_del;
  find = chain_find;
}

instance abbrev pub chain_laws : UthashLaws ⦃uthash = chain_table⦄
chain_laws = record {
  holds = chain_holds;
  holds-empty = chain_holds-empty;
  holds-add = chain_holds-add;
  holds-del = chain_holds-del;
  holds-find = chain_holds-find;
  find-none = chain_find-none;
}
