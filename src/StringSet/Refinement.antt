-- ===== src/StringSet/Refinement.antt =====
-- The string set of string-set.c refines a list of distinct strings, over any run of operations.
use graftcp.Prelude.{
  ℕ, ◌+◌, ◌≡◌, refl, Bytes, Bool, false, ◌||◌, ◌&&◌, not, some, List, [], ◌∷◌, arith, if◌then◌else◌,
  bytes_eq, bytes_eq_iff, length,
}
use graftcp.StringSet.{
  CString, StrSet, Run, ok, exit, ◌>>=◌, str_set_put, str_set_remove, is_str_set_member,
  str_set_length,
}
use graftcp.StringSet.Buckets.{IsValid}
use graftcp.StringSet.Operations.{PutOutcome, str_set_put-outcome, str_set_remove-Removes, Puts}

-- A call of the interface; a put carries the address that calloc returns.
pub data Call : Type 0 where
  put : CString → ℕ → Call
  remove : Bytes → Call

perform : StrSet → Call → Run StrSet
perform s (put e fresh) = str_set_put s e (some fresh)
perform s (remove e) = ok (str_set_remove s e).rest

pub perform_all : StrSet → List Call → Run StrSet
unfolding perform
perform_all s [] = ok s
perform_all s (c ∷ cs) = perform s c >>= λ s'. perform_all s' cs

unfoldable pub contains : Bytes → List Bytes → Bool
contains q [] = false
contains q (x ∷ l) = bytes_eq x q || contains q l

without : Bytes → List Bytes → List Bytes
without e [] = []
without e (x ∷ l) = let rest = without e l in if bytes_eq e x then rest else x ∷ rest

-- The specification: a put conses a new string, a removal takes the string out.
spec_step : List Bytes → Call → List Bytes
unfolding without
spec_step l (put e fresh) = if contains e.chars l then l else e.chars ∷ l
spec_step l (remove e) = without e l

pub spec : List Bytes → List Call → List Bytes
unfolding spec_step
spec l [] = l
spec l (c ∷ cs) = spec (spec_step l c) cs

abbrev pub Distinct : List Bytes → Type 0
Distinct [] = Unit
Distinct (x ∷ l) = (contains x l ≡ false) × Distinct l

contains-without :
    (q e : Bytes) (l : List Bytes) → contains q (without e l) ≡ (not (bytes_eq e q) && contains q l)
unfolding contains without
contains-without q e [] = ground arith
contains-without q e (x ∷ l) =
    ground (arith, contains-without q e l, bytes_eq_iff e x, bytes_eq_iff x q, bytes_eq_iff e q)

length-without :
    (e : Bytes) (l : List Bytes)
    → Distinct l
    → length (without e l) + (if contains e l then 1 else 0) ≡ length l
unfolding contains without
length-without e [] d = refl
length-without e (x ∷ l) d =
    ground (arith, length-without e l d.1, bytes_eq_iff e x, bytes_eq_iff x e)

Distinct-without : (e : Bytes) (l : List Bytes) → Distinct l → Distinct (without e l)
unfolding without
Distinct-without e [] d = tt
Distinct-without e (x ∷ l) d = ground (arith, Distinct-without e l d.1, contains-without x e l)

-- The list has the set's members, each once, and the set's length.
pub record Represents (l : List Bytes) (s : StrSet) : Type 0 where
  pub valid : IsValid s
  pub member : (q : Bytes) → is_str_set_member s q ≡ contains q l
  pub counted : str_set_length s ≡ length l
  pub distinct : Distinct l

Puts-Represents :
    (s r : StrSet) (l : List Bytes) (e : CString) (fresh : ℕ)
    → Represents l s
    → Puts s e r
    → Represents (spec_step l (put e fresh)) r
unfolding spec_step
Puts-Represents s r l e fresh h p = record {
  valid = p.valid;
  member = λ q.
      unfold contains in
      ground (arith, p.member q, h.member q, h.member e.chars, bytes_eq_iff e.chars q);
  counted = ground (arith, p.counted, h.member e.chars, h.counted);
  distinct = ground (arith, h.distinct);
}

Removes-Represents :
    (s : StrSet) (l : List Bytes) (e : Bytes)
    → Represents l s
    → Represents (without e l) (str_set_remove s e).rest
Removes-Represents s l e h =
    let p = str_set_remove-Removes s e h.valid in
    record {
      valid = p.valid;
      member = λ q. rw (p.member q, h.member q, contains-without q e l);
      counted =
          ground (arith, p.counted, p.freed, h.counted, h.member e, length-without e l h.distinct);
      distinct = Distinct-without e l h.distinct;
    }

PutOutcome-Represents :
    (s : StrSet) (l : List Bytes) (e : CString) (fresh : ℕ) (o : Run StrSet)
    → Represents l s
    → PutOutcome s e (some fresh) o
    → (r : StrSet) × (o ≡ ok r) × Represents (spec_step l (put e fresh)) r
PutOutcome-Represents s l e fresh (ok r) h p = (r, refl, Puts-Represents s r l e fresh h p)
PutOutcome-Represents s l e fresh (exit n) h p = cc (p.1)

perform-Represents :
    (s : StrSet) (l : List Bytes) (c : Call)
    → Represents l s
    → (r : StrSet) × (perform s c ≡ ok r) × Represents (spec_step l c) r
unfolding perform spec_step
perform-Represents s l (put e fresh) h =
    PutOutcome-Represents s l e fresh (str_set_put s e (some fresh)) h
      (str_set_put-outcome s e (some fresh) h.valid)
perform-Represents s l (remove e) h = ((str_set_remove s e).rest, refl, Removes-Represents s l e h)

-- Any run of puts and removals, where calloc never fails, completes, and the set that it reaches
-- has the members and the length of the distinct list of the specification.
pub perform_all-Represents :
    (s : StrSet) (l : List Bytes) (cs : List Call)
    → Represents l s
    → (r : StrSet) × (perform_all s cs ≡ ok r) × Represents (spec l cs) r
unfolding perform_all spec
perform_all-Represents s l [] h = (s, refl, h)
perform_all-Represents s l (c ∷ cs) h =
    let (s', run, h') = perform-Represents s l c h in
    let (r, rest, k) = perform_all-Represents s' (spec_step l c) cs h' in (r, rw run rest, k)
