-- ===== src/Filter/Texts.antt =====
-- The texts of an address file, line by line, and that load_ip_file of main.c takes these.
use graftcp.Prelude.{
  ℕ, ◌+◌, ◌-◌, ◌≡◌, refl, arith, Bytes, List, [], ◌∷◌, ◌++◌, map, ltb, ◌==◌, if◌then◌else◌, length,
  length-append, Bool-cases, inl, inr, ==_iff, true, false,
}
use graftcp.Filter.{join, getlines, cut_line, c_string}
use graftcp.Filter.Lines.{wanted, long, cut_last, take-line}

begin_line : ℕ → List Bytes × Bytes → List Bytes × Bytes
begin_line c ([], last) = ([], c ∷ last)
begin_line c (l ∷ ls, last) = ((c ∷ l) ∷ ls, last)

-- The lines of a file without their newlines, and what stands behind the last newline.
unfoldable pub lines_of : Bytes → List Bytes × Bytes
unfolding begin_line
lines_of [] = ([], [])
lines_of (c ∷ s) =
    let rest = lines_of s in if c == b'\n' then ([] ∷ rest.0, rest.1) else begin_line c rest

-- The lines of at least six bytes, and what stands behind the last newline where it has at least
-- seven, without its last byte; each up to its first NUL.
unfoldable pub file_texts : Bytes → List Bytes
file_texts f = map c_string (long (lines_of f).0 ++ cut_last (lines_of f).1)

-- With the newlines, as getline returns them.
unlines : List Bytes → Bytes → List Bytes
unlines [] [] = []
unlines [] (c ∷ s) = (c ∷ s) ∷ []
unlines (l ∷ ls) last = (l ++ b'\n' ∷ []) ∷ unlines ls last

join-begin_line :
    (c : ℕ) (r : List Bytes × Bytes)
    → join c (unlines r.0 r.1) ≡ unlines (begin_line c r).0 (begin_line c r).1
unfolding join unlines begin_line
join-begin_line c ([], []) = refl
join-begin_line c ([], d ∷ s) = refl
join-begin_line c (l ∷ ls, last) = refl

getlines-unlines : (f : Bytes) → getlines f ≡ unlines (lines_of f).0 (lines_of f).1
unfolding getlines lines_of unlines
getlines-unlines [] = refl
getlines-unlines (c ∷ s) = elim (Bool-cases (c == b'\n')) [
  | inl ends ↦ let e : c ≡ b'\n' = (==_iff c b'\n').0 ends in rw (e, getlines-unlines s) refl
  | inr on ↦ rw (on, getlines-unlines s) (join-begin_line c (lines_of s))
]

cut_line-ended : (l : Bytes) → cut_line (l ++ b'\n' ∷ []) ≡ c_string l
unfolding cut_line
cut_line-ended l =
    let e : length (l ++ b'\n' ∷ []) - 1 ≡ length l = omega (arith, length-append l (b'\n' ∷ [])) in
    rw (e, take-line l b'\n') refl

wanted-unlines :
    (ls : List Bytes) (last : Bytes)
    → wanted (unlines ls last) ≡ map c_string (long ls ++ cut_last last)
unfolding wanted unlines long
wanted-unlines [] [] = refl
wanted-unlines [] (c ∷ s) = elim (Bool-cases (ltb (length (c ∷ s)) 7)) [
  | inl short ↦ rw short refl
  | inr enough ↦ rw enough (unfold cut_line in refl)
]
wanted-unlines (l ∷ ls) last =
    let e : length (l ++ b'\n' ∷ []) ≡ length l + 1 = length-append l (b'\n' ∷ []) in
    let rest = wanted-unlines ls last in
    let cut = cut_line-ended l in
    elim (Bool-cases (ltb (length l) 6)) [
      | inl short ↦
          let f : ltb (length l + 1) 7 ≡ true = ground (arith, short) in rw (e, f, short) rest
      | inr enough ↦
          let f : ltb (length l + 1) 7 ≡ false = ground (arith, enough) in
          rw (e, f, enough, cut, rest) refl
    ]

pub wanted-file_texts : (f : Bytes) → wanted (getlines f) ≡ file_texts f
unfolding file_texts
wanted-file_texts f = rw (getlines-unlines f) (wanted-unlines (lines_of f).0 (lines_of f).1)
