-- ===== src/StringSet/Operations.antt =====
-- The operations of string-set.c: the invariant kept, and the effect on membership and length.
use graftcp.Prelude.{
  ℕ, ◌+◌, ◌-◌, ◌≡◌, refl, Bytes, false, ◌||◌, ◌&&◌, not, Option, none, some, [], ◌∷◌, arith,
  if◌then◌else◌, bytes_eq, bytes_eq_refl, bytes_eq_iff, length,
}
use mathlib.Core.Option
use graftcp.StringSet.{
  CString, StrSet, Run, ok, exit, str_set_put, str_set_remove, is_str_set_member, str_set_length,
  is_found, Removal, slot, bucket, find_member, assign, unlink, Member, put_found, remove_found,
}
use graftcp.StringSet.Chains.{
  count, find_member-eq-none, find_member-count, count-assign, length-assign, find_member-assign,
  count-unlink, length-unlink,
}
use graftcp.StringSet.Buckets.{
  IsValid, total-set, slot-lt, slot_congr, is_str_set_member-count, bucket-written, member-written,
  written-IsValid,
}

-- The pointer that the set stores for a string.
abbrev pub element_at : StrSet → Bytes → Option CString
element_at s str = Option.map (λ (p : Member). p.element) (find_member str (bucket s str))

-- The specification of a successful put.
pub record Puts (s : StrSet) (e : CString) (r : StrSet) : Type 0 where
  pub valid : IsValid r
  pub member : (q : Bytes) → is_str_set_member r q ≡ (bytes_eq e.chars q || is_str_set_member s q)
  pub counted :
      str_set_length r
      ≡ (if is_str_set_member s e.chars then str_set_length s else str_set_length s + 1)
  pub stored : element_at r e.chars ≡ some e

-- What a put comes to: it exits only where calloc fails for a string that is not there yet.
abbrev pub PutOutcome : StrSet → CString → Option ℕ → Run StrSet → Type 0
PutOutcome s e fresh (ok r) = Puts s e r
PutOutcome s e fresh (exit n) = (n ≡ 1) × (fresh ≡ none) × (is_str_set_member s e.chars ≡ false)

put_found-outcome :
    (s : StrSet) (e : CString) (fresh : Option ℕ) (o : Option Member)
    → find_member e.chars (bucket s e.chars) ≡ o
    → IsValid s
    → PutOutcome s e fresh (put_found o s e fresh)
unfolding put_found
put_found-outcome s e none none f v =
    (refl, refl, rw (is_str_set_member-count, find_member-eq-none e.chars (bucket s e.chars) f))
put_found-outcome s e (some a) none f v =
    let absent = find_member-eq-none e.chars (bucket s e.chars) f in
    let c = record { address = a; element = e } ∷ bucket s e.chars in
    record {
      valid =
          written-IsValid s v e.chars c (s.length + 1)
            (λ q.
              unfold count in
              ground (arith, absent, bytes_eq_iff q e.chars, v.placed q (slot s e.chars)))
            (omega arith);
      member = λ q.
          rw (member-written s v e.chars c (s.length + 1) q, is_str_set_member-count s q)
            (unfold count in
              ground
                (arith, bytes_eq_iff q e.chars, bytes_eq_iff e.chars q, slot_congr s e.chars q));
      counted = unfold str_set_length in rw (is_str_set_member-count s e.chars, absent);
      stored =
          rw (bucket-written s v e.chars c (s.length + 1))
            (unfold find_member in rw (bytes_eq_refl e.chars));
    }
put_found-outcome s e fresh (some p) f v =
    let present = find_member-count e.chars (bucket s e.chars) in
    let c = assign e (bucket s e.chars) in
    record {
      valid =
          written-IsValid s v e.chars c s.length
            (λ q. rw count-assign (v.placed q (slot s e.chars))) (rw length-assign);
      member = λ q.
          rw (member-written s v e.chars c s.length q, is_str_set_member-count s q, count-assign)
            (unfold is_found in
              ground (arith, present, f, bytes_eq_iff e.chars q, slot_congr s e.chars q));
      counted = unfold str_set_length is_str_set_member is_found in rw f;
      stored =
          rw (bucket-written s v e.chars c s.length, find_member-assign e (bucket s e.chars) p f);
    }

-- On a valid set str_set_put keeps the invariant, adds its own string to the members and leaves all
-- other memberships alone, counts a new string once, stores the pointer that it was given, and
-- exits with status 1 only where calloc fails for a string that is not a member.
pub str_set_put-outcome :
    (s : StrSet) (e : CString) (fresh : Option ℕ)
    → IsValid s
    → PutOutcome s e fresh (str_set_put s e fresh)
unfolding str_set_put
str_set_put-outcome s e fresh v =
    put_found-outcome s e fresh (find_member e.chars (bucket s e.chars)) refl v

-- The specification of a removal.
pub record Removes (s : StrSet) (e : Bytes) (r : Removal) : Type 0 where
  pub valid : IsValid r.rest
  pub member :
      (q : Bytes) → is_str_set_member r.rest q ≡ (not (bytes_eq e q) && is_str_set_member s q)
  pub freed : length r.freed ≡ (if is_str_set_member s e then 1 else 0)
  pub counted : str_set_length r.rest + length r.freed ≡ str_set_length s
  pub returned : r.returned ≡ element_at s e

remove_found-Removes :
    (s : StrSet) (e : Bytes) (o : Option Member)
    → find_member e (bucket s e) ≡ o
    → IsValid s
    → Removes s e (remove_found o s e)
unfolding remove_found
remove_found-Removes s e none f v =
    let absent = find_member-eq-none e (bucket s e) f in
    record {
      valid = v;
      member = λ q. rw is_str_set_member-count (ground (arith, absent, bytes_eq_iff e q));
      freed = rw (is_str_set_member-count, absent);
      counted = unfold str_set_length in omega arith;
      returned = rw f;
    }
remove_found-Removes s e (some p) f v =
    let shorter = length-unlink e (bucket s e) p f in
    let held = total-set s.buckets (slot s e) [] (slot-lt e v) in
    let c = unlink e (bucket s e) in
    record {
      valid =
          written-IsValid s v e c (s.length - 1)
            (λ q. omega (arith, count-unlink e q (bucket s e), v.placed q (slot s e)))
            (omega (arith, v.counted));
      member = λ q.
          rw (member-written s v e c (s.length - 1) q, is_str_set_member-count s q, count-unlink)
            (ground (arith, v.placed q (slot s e), bytes_eq_iff e q, slot_congr s e q));
      freed = unfold is_str_set_member is_found in rw f;
      counted = unfold str_set_length in omega (arith, v.counted);
      returned = rw f;
    }

-- On a valid set str_set_remove keeps the invariant, ends exactly its own string's membership,
-- frees one member and lowers the length by one exactly where the string was there, and returns the
-- pointer that the set stored for it.
pub str_set_remove-Removes : (s : StrSet) (e : Bytes) → IsValid s → Removes s e (str_set_remove s e)
unfolding str_set_remove
str_set_remove-Removes s e v = remove_found-Removes s e (find_member e (bucket s e)) refl v
