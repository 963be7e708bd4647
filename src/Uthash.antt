-- ===== src/Uthash.antt =====
-- The hash table that util.c takes from uthash.h, whose macros it calls and does not implement. The
-- _INT macros compare the sizeof(int) bytes at the key's address, the low 32 bits of the field.
pub mod Chain
use graftcp.Prelude.{ℕ, ◌%◌, ◌^◌, ◌≡◌, Bool, true, false, ◌||◌, ◌&&◌, not, Option, none, some, ◌==◌}

-- A table of pointers under int keys.
pub record Uthash : Type 1 where
  pub Table : Type 0
  -- The head pointer NULL.
  pub empty : Table
  -- HASH_ADD_INT: the key and the element.
  pub add : Table → ℕ → ℕ → Table
  -- HASH_DEL: the element.
  pub del : Table → ℕ → Table
  -- HASH_FIND_INT.
  pub find : Table → ℕ → Option ℕ

-- What uthash promises, over the elements that a table holds under each key: an addition holds the
-- new element beside the old ones, a deletion takes one element out, and a search finds an element
-- that is held under the key, if there is one. Which one it finds of several is not said.
pub record UthashLaws ⦃uthash : Uthash⦄ : Type 0 where
  pub holds : uthash.Table → ℕ → ℕ → Bool
  pub holds-empty : (k p : ℕ) → holds uthash.empty k p ≡ false
  pub holds-add :
      (t : uthash.Table) (k p j q : ℕ)
      → holds (uthash.add t k p) j q ≡ ((j == k && q == p) || holds t j q)
  pub holds-del :
      (t : uthash.Table) (p j q : ℕ) → holds (uthash.del t p) j q ≡ (not (q == p) && holds t j q)
  pub holds-find : (t : uthash.Table) (k p : ℕ) → uthash.find t k ≡ some p → holds t k p ≡ true
  pub find-none : (t : uthash.Table) (k p : ℕ) → uthash.find t k ≡ none → holds t k p ≡ false

-- The key that the _INT macros read from a field.
abbrev pub int_key : ℕ → ℕ
int_key v = v % 2 ^ 32
