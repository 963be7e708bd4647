-- ===== src/StringSet/Lifecycle.antt =====
-- str_set_new and str_set_free of string-set.c.
use graftcp.Prelude.{
  ℕ, zero, suc, ◌≡◌, refl, Bytes, false, Option, none, some, List, [], ◌∷◌, ◌++◌, ltb, arith,
  get_or-replicate, replicate, length-replicate, map, Bool-cases, inl, inr,
}
use graftcp.StringSet.{
  Chain, Member, StrSet, Run, ok, exit, str_set_new, str_set_free, is_str_set_member,
  str_set_length, free_all,
}
use graftcp.StringSet.Chains.{count}
use graftcp.StringSet.Buckets.{IsValid, total, is_str_set_member-count}

-- A valid set with no member.
pub record IsNew (s : StrSet) : Type 0 where
  pub valid : IsValid s
  pub member : (q : Bytes) → is_str_set_member s q ≡ false
  pub empty : str_set_length s ≡ 0

abbrev pub NewOutcome : Option ℕ → Run StrSet → Type 0
NewOutcome fresh (ok s) = IsNew s × (fresh ≡ some s.address)
NewOutcome fresh (exit n) = (n ≡ 1) × (fresh ≡ none)

total-replicate : (n : ℕ) → total (replicate n []) ≡ 0
unfolding total
total-replicate zero = refl
total-replicate (suc n) = omega (arith, total-replicate n)

-- str_set_new makes a valid set with no member, and exits with status 1 exactly where calloc fails.
pub str_set_new-outcome : (fresh : Option ℕ) → NewOutcome fresh (str_set_new fresh)
unfolding str_set_new
str_set_new-outcome none = (refl, refl)
str_set_new-outcome (some a) = (
  record {
    valid = record {
      sized = refl;
      width = length-replicate {A = Chain} 509 [];
      placed = λ q i. rw (get_or-replicate {A = Chain} 509 i []) (unfold count in omega arith);
      counted = total-replicate 509;
    };
    member = λ q.
        rw (is_str_set_member-count _ q, get_or-replicate {A = Chain} 509 _ [])
          (unfold count in refl);
    empty = unfold str_set_length in refl;
  },
  refl,
)

-- The addresses of all members, in the order of the buckets and their chains.
pub members : List Chain → List ℕ
members [] = []
members (c ∷ bs) = map (λ (p : Member). p.address) c ++ members bs

free_all-members : (bs : List Chain) → free_all bs ≡ members bs
unfolding free_all members
free_all-members [] = refl
free_all-members (c ∷ bs) = rw (free_all-members bs)

members-nil : (bs : List Chain) → total bs ≡ 0 → members bs ≡ []
unfolding members total
members-nil [] h = refl
members-nil ([] ∷ bs) h = members-nil bs (omega arith)
members-nil ((p ∷ c) ∷ bs) h = absurd (omega arith)

-- On a valid set str_set_free frees each member once, in the order of the buckets, and then the
-- set: the guard on the length skips nothing.
pub str_set_free-members :
    (s : StrSet) → IsValid s → str_set_free s ≡ members s.buckets ++ s.address ∷ []
unfolding str_set_free
str_set_free-members s v = elim (Bool-cases (ltb 0 s.length)) [
  | inl e ↦ rw (e, free_all-members)
  | inr e ↦ rw (e, members-nil s.buckets (ground (arith, v.counted)))
]
