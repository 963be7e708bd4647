-- ===== src/StringSet.antt =====
-- string-set.c and string-set.h: a chained hash set of C strings with 509 buckets.
pub mod Hash
pub mod Chains
pub mod Buckets
pub mod Operations
pub mod Lifecycle
pub mod Refinement
use graftcp.Prelude.{
  ℕ, ◌+◌, ◌-◌, ◌*◌, ◌%◌, ◌^◌, Bytes, Bool, true, false, Option, none, some, List, [], ◌∷◌, ltb,
  if◌then◌else◌, bytes_eq, get_or, set, replicate, map, ◌++◌,
}

-- A `char *`: its address, and the bytes in front of the terminating NUL.
pub record CString : Type 0 where
  pub address : ℕ
  pub chars : Bytes

-- A `struct member`: its own address and the stored pointer; `link` is the rest of the chain.
pub record Member : Type 0 where
  pub address : ℕ
  pub element : CString

abbrev pub Chain : Type 0
Chain = List Member

-- `length` counts allocated members, so it stays within an int.
pub record StrSet : Type 0 where
  pub address : ℕ
  pub length : ℕ
  pub size : ℕ
  pub buckets : List Chain

-- What a function that may call `exit` comes to.
pub data Run {ℓ} (A : Type ℓ) : Type ℓ where
  ok : A → Run A
  exit : ℕ → Run A

infixl 5 ◌>>=◌
abbrev pub ◌>>=◌ : {A B : Type 0} → Run A → (A → Run B) → Run B
ok a >>= f = f a
exit n >>= f = exit n

-- `c = *str++` is a signed char, widened to int and then to unsigned long.
pub char_value : ℕ → ℕ
char_value c = if ltb c 128 then c else c + (2 ^ 64 - 256)

hash_loop : ℕ → Bytes → ℕ
unfolding char_value
hash_loop hash [] = hash
hash_loop hash (c ∷ str) = hash_loop (((hash * 2 ^ 5) % 2 ^ 64 + hash + char_value c) % 2 ^ 64) str

pub str_hash : Bytes → ℕ
unfolding hash_loop
str_hash str = hash_loop 5381 str

-- `fresh` is what calloc returns, `none` for NULL.
unfoldable pub str_set_new : Option ℕ → Run StrSet
str_set_new none = exit 1
str_set_new (some fresh) =
    ok (record { address = fresh; length = 0; size = 509; buckets = replicate 509 [] })

-- The walk `for (p = buckets[i]; p; p = p->link)` that stops at an equal string.
unfoldable pub find_member : Bytes → Chain → Option Member
find_member s [] = none
find_member s (p ∷ c) = if bytes_eq s p.element.chars then some p else find_member s c

-- `p->element = elem` at the member where the walk stopped.
unfoldable pub assign : CString → Chain → Chain
assign elem [] = []
assign elem (p ∷ c) =
    if bytes_eq elem.chars p.element.chars
    then record p { element = elem } ∷ c
    else p ∷ assign elem c

-- `*pp = p->link` at the member where the walk stopped.
unfoldable pub unlink : Bytes → Chain → Chain
unlink s [] = []
unlink s (p ∷ c) = if bytes_eq s p.element.chars then c else p ∷ unlink s c

pub slot : StrSet → Bytes → ℕ
unfolding str_hash
slot s str = str_hash str % s.size

abbrev pub bucket : StrSet → Bytes → Chain
bucket s str = get_or s.buckets (slot s str) []

pub put_found : Option Member → StrSet → CString → Option ℕ → Run StrSet
put_found none s elem none = exit 1
put_found none s elem (some fresh) = ok (record s {
  length = s.length + 1;
  buckets =
      set s.buckets (slot s elem.chars)
        (record { address = fresh; element = elem } ∷ bucket s elem.chars);
})
put_found (some p) s elem fresh =
    ok
      (record s { buckets = set s.buckets (slot s elem.chars) (assign elem (bucket s elem.chars)) })

unfoldable pub str_set_put : StrSet → CString → Option ℕ → Run StrSet
unfolding put_found slot
str_set_put s elem fresh = put_found (find_member elem.chars (bucket s elem.chars)) s elem fresh

-- The returned pointer, the members freed, and the set.
pub record Removal : Type 0 where
  pub returned : Option CString
  pub freed : List ℕ
  pub rest : StrSet

pub remove_found : Option Member → StrSet → Bytes → Removal
remove_found none s str = record { returned = none; freed = []; rest = s }
remove_found (some p) s str = record {
  returned = some p.element;
  freed = p.address ∷ [];
  rest = record s {
    length = s.length - 1;
    buckets = set s.buckets (slot s str) (unlink str (bucket s str));
  };
}

unfoldable pub str_set_remove : StrSet → Bytes → Removal
unfolding remove_found slot
str_set_remove s str = remove_found (find_member str (bucket s str)) s str

unfoldable pub str_set_length : StrSet → ℕ
str_set_length s = s.length

pub is_found : Option Member → Bool
is_found none = false
is_found (some p) = true

unfoldable pub is_str_set_member : StrSet → Bytes → Bool
unfolding is_found slot
is_str_set_member s str = is_found (find_member str (bucket s str))

free_all : List Chain → List ℕ
free_all [] = []
free_all (c ∷ bs) = map (λ (p : Member). p.address) c ++ free_all bs

-- The addresses that are passed to free, in order.
unfoldable pub str_set_free : StrSet → List ℕ
unfolding free_all
str_set_free s = (if ltb 0 s.length then free_all s.buckets else []) ++ s.address ∷ []
