-- ===== src/Filter/Lines.antt =====
-- The lines of an address file, as load_ip_file of main.c reads them.
use graftcp.Prelude.{
  ℕ, zero, suc, ◌-◌, ◌≡◌, refl, ap, arith, Bytes, false, List, [], ◌∷◌, ◌++◌, ltb, ◌==◌,
  if◌then◌else◌, take, length, length-append,
}
use graftcp.Filter.{join, getlines, cut_line, c_string}

-- A line's text: no newline and no NUL.
abbrev pub IsPlain : Bytes → Type 0
IsPlain [] = Unit
IsPlain (c ∷ s) = ((c == b'\n') ≡ false) × ((c == 0) ≡ false) × IsPlain s

abbrev pub ArePlain : List Bytes → Type 0
ArePlain [] = Unit
ArePlain (s ∷ l) = IsPlain s × ArePlain l

-- A file of lines, each with its newline, and a last line without one.
unfoldable pub file_of : List Bytes → Bytes → Bytes
file_of [] last = last
file_of (s ∷ l) last = s ++ b'\n' ∷ file_of l last

-- The strings that load_ip_file puts, of the lines that getline returns.
unfoldable pub wanted : List Bytes → List Bytes
wanted [] = []
wanted (l ∷ ls) = let rest = wanted ls in if ltb (length l) 7 then rest else cut_line l ∷ rest

-- The texts of at least six bytes.
unfoldable pub long : List Bytes → List Bytes
long [] = []
long (s ∷ l) = let rest = long l in if ltb (length s) 6 then rest else s ∷ rest

getlines-line :
    (s rest : Bytes) → IsPlain s → getlines (s ++ b'\n' ∷ rest) ≡ (s ++ b'\n' ∷ []) ∷ getlines rest
unfolding getlines
getlines-line [] rest h = refl
getlines-line (c ∷ s) rest h = rw (h.0, getlines-line s rest h.2)

getlines-cons :
    (c : ℕ) (file : Bytes) → (c == b'\n') ≡ false → getlines (c ∷ file) ≡ join c (getlines file)
unfolding getlines
getlines-cons c file h = rw h

getlines-last : (c : ℕ) (s : Bytes) → IsPlain (c ∷ s) → getlines (c ∷ s) ≡ (c ∷ s) ∷ []
unfolding join
getlines-last c [] h = rw (getlines-cons c [] h.0) (unfold getlines in refl)
getlines-last c (d ∷ s) h = rw (getlines-cons c (d ∷ s) h.0, getlines-last d s h.2)

c_string-plain : (s : Bytes) → IsPlain s → c_string s ≡ s
unfolding c_string
c_string-plain [] h = refl
c_string-plain (c ∷ s) h = rw (h.1, c_string-plain s h.2)

pub take-line : (s : Bytes) (c : ℕ) → take (length s) (s ++ c ∷ []) ≡ s
take-line [] c = refl
take-line (x ∷ s) c = ap (λ (l : Bytes). x ∷ l) (take-line s c)

cut_line-line : (s : Bytes) → IsPlain s → cut_line (s ++ b'\n' ∷ []) ≡ s
unfolding cut_line
cut_line-line s h =
    let e : length (s ++ b'\n' ∷ []) - 1 ≡ length s = omega (arith, length-append s (b'\n' ∷ [])) in
    rw (e, take-line s b'\n') (c_string-plain s h)

IsPlain-take : (n : ℕ) (s : Bytes) → IsPlain s → IsPlain (take n s)
IsPlain-take zero s h = tt
IsPlain-take (suc n) [] h = tt
IsPlain-take (suc n) (c ∷ s) h = (h.0, h.1, IsPlain-take n s h.2)

-- What is put of a last line that ends with the file: all but its last byte.
abbrev pub cut_last : Bytes → List Bytes
cut_last last = if ltb (length last) 7 then [] else take (length last - 1) last ∷ []

wanted-last : (last : Bytes) → IsPlain last → wanted (getlines last) ≡ cut_last last
unfolding wanted
wanted-last [] h = unfold getlines in refl
wanted-last (c ∷ s) h = rw (getlines-last c s h) (
    unfold cut_line in
    rw (
      c_string-plain (take (length (c ∷ s) - 1) (c ∷ s))
        (IsPlain-take (length (c ∷ s) - 1) (c ∷ s) h)))

pub wanted-file_of :
    (l : List Bytes) (last : Bytes)
    → ArePlain l
    → IsPlain last
    → wanted (getlines (file_of l last)) ≡ long l ++ cut_last last
unfolding file_of wanted long
wanted-file_of [] last h k = wanted-last last k
wanted-file_of (s ∷ l) last h k =
    rw (getlines-line s (file_of l last) h.0, cut_line-line s h.0)
      (ground (arith, wanted-file_of l last h.1 k, length-append s (b'\n' ∷ [])))
