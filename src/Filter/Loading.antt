-- ===== src/Filter/Loading.antt =====
-- load_ip_file of main.c: which addresses end up in the list.
use graftcp.Prelude.{
  ℕ, ◌+◌, ◌≡◌, refl, ◌∙◌, arith, Bytes, Bool, false, ◌||◌, Option, none, some, List, [], ◌∷◌, ◌++◌,
  ltb, length, Bool-cases, inl, inr,
}
use graftcp.StringSet.{StrSet, CString, Run, ok, exit, str_set_new, str_set_put, is_str_set_member}
use graftcp.StringSet.Buckets.{IsValid}
use graftcp.StringSet.Operations.{Puts, PutOutcome, str_set_put-outcome}
use graftcp.StringSet.Lifecycle.{NewOutcome, str_set_new-outcome}
use graftcp.StringSet.Refinement.{contains}
use graftcp.Filter.{load_lines, load_ip_file, getlines, cut_line}
use graftcp.Filter.Lines.{IsPlain, ArePlain, file_of, wanted, long, cut_last, wanted-file_of}

-- A valid set that holds the strings beside what it held before.
pub record Loads (old : Bytes → Bool) (strings : List Bytes) (set : StrSet) : Type 0 where
  pub valid : IsValid set
  pub member : (q : Bytes) → is_str_set_member set q ≡ (contains q strings || old q)

pub put_some :
    (s : StrSet) (e : CString) (fresh : ℕ)
    → IsValid s
    → (r : StrSet) × (str_set_put s e (some fresh) ≡ ok r) × Puts s e r
put_some s e fresh v =
    go (str_set_put s e (some fresh)) refl (str_set_put-outcome s e (some fresh) v)
  where
    go :
        (o : Run StrSet)
        → str_set_put s e (some fresh) ≡ o
        → PutOutcome s e (some fresh) o
        → (r : StrSet) × (str_set_put s e (some fresh) ≡ ok r) × Puts s e r
    go (ok r) h p = (r, h, p)
    go (exit n) h p = cc (p.1)

put-Loads :
    (set : StrSet) (e : CString) {rest : List Bytes} {s r : StrSet}
    → Puts set e s
    → Loads (is_str_set_member s) rest r
    → Loads (is_str_set_member set) (e.chars ∷ rest) r
put-Loads set e p l = record {
  valid = l.valid;
  member = λ q. unfold contains in ground (arith, l.member q, p.member q);
}

load_lines-Loads :
    (set : StrSet) (next : ℕ) (lines : List Bytes)
    → IsValid set
    → (r : StrSet) × (n : ℕ) × (load_lines set next lines ≡ ok (r, n))
      × Loads (is_str_set_member set) (wanted lines) r
unfolding load_lines wanted
load_lines-Loads set next [] v =
    (set, next, refl, record { valid = v; member = λ q. unfold contains in refl })
load_lines-Loads set next (line ∷ lines) v = elim (Bool-cases (ltb (length line) 7)) [
  | inl short ↦
      let (r, n, run, l) = load_lines-Loads set next lines v in
      (r, n, rw (load_lines, short) run, rw (wanted, short) l)
  | inr full ↦
      let (s1, put, p) =
        put_some set (record { address = next; chars = cut_line line }) (next + 1) v in
      let (r, n, run, l) = load_lines-Loads s1 (next + 2) lines p.valid in
      (
        r,
        n,
        rw (load_lines, full, put) run,
        rw (wanted, full) (put-Loads set (record { address = next; chars = cut_line line }) p l),
      )
]

-- The members of a list that may not be there yet.
abbrev pub listed : Option StrSet → Bytes → Bool
listed none q = false
listed (some set) q = is_str_set_member set q

abbrev pub IsValidOption : Option StrSet → Type 0
IsValidOption none = Unit
IsValidOption (some set) = IsValid set

pub new_set :
    (next : ℕ)
    → (s : StrSet) × (str_set_new (some next) ≡ ok s)
      × IsValid s
      × ((q : Bytes) → is_str_set_member s q ≡ false)
new_set next = go (str_set_new (some next)) refl (str_set_new-outcome (some next))
  where
    go :
        (o : Run StrSet)
        → str_set_new (some next) ≡ o
        → NewOutcome (some next) o
        → (s : StrSet) × (str_set_new (some next) ≡ ok s)
          × IsValid s
          × ((q : Bytes) → is_str_set_member s q ≡ false)
    go (ok s) h p = (s, h, p.0.valid, p.0.member)
    go (exit n) h p = cc (p.1)

-- load_ip_file of a file of any contents, in terms of the lines that getline gives.
pub load_ip_file-wanted :
    (file : Bytes) (set : Option StrSet) (next : ℕ)
    → IsValidOption set
    → (r : StrSet) × (n : ℕ) × (load_ip_file (some file) set next ≡ ok (r, n))
      × Loads (listed set) (wanted (getlines file)) r
unfolding load_ip_file
load_ip_file-wanted file (some set) next v = load_lines-Loads set next (getlines file) v
load_ip_file-wanted file none next v =
    let (s, made, valid, empty) = new_set next in
    let (r, n, run, loads) = load_lines-Loads s (next + 1) (getlines file) valid in
    (r, n, rw made run, record { valid = loads.valid; member = λ q. loads.member q ∙ rw (empty q) })

-- load_ip_file of a file whose lines have no NUL completes, whether the list is there already or
-- not, and the list then holds, beside what it held, every line of at least six bytes that ends in
-- a newline, and of a last line without a newline, if it has at least seven bytes, all but its last
-- byte; it holds nothing else.
pub load_ip_file-Loads :
    (l : List Bytes) (last : Bytes) (set : Option StrSet) (next : ℕ)
    → IsValidOption set
    → ArePlain l
    → IsPlain last
    → (r : StrSet) × (n : ℕ) × (load_ip_file (some (file_of l last)) set next ≡ ok (r, n))
      × Loads (listed set) (long l ++ cut_last last) r
load_ip_file-Loads l last set next v h k =
    let (r, n, run, loads) = load_ip_file-wanted (file_of l last) set next v in
    (r, n, run, rw (wanted-file_of l last h k) at loads)
