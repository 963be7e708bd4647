-- ===== src/Tracee/Overlay.antt =====
-- Byte strings laid over a memory, for putdata of util.c.
use mathlib.Core.List.{append_assoc}
use graftcp.Prelude.{
  ℕ, zero, suc, ◌+◌, ◌-◌, ◌*◌, ◌≤◌, ◌<◌, ◌≡◌, refl, sym, ap, ◌∙◌, arith, Bytes, ◌&&◌, [], ◌∷◌, ◌++◌,
  ltb, leb, ◌==◌, if◌then◌else◌, get_or, get_or-take, get_or-drop, get_or-append, take, drop,
  length, length-take_le, length-drop, drop-drop, le_bytes, le_word, AreBytes, le_bytes-le_word,
  length-append, suc-add,
}

pub AreBytes-take : (n : ℕ) (xs : Bytes) → AreBytes xs → AreBytes (take n xs)
AreBytes-take zero xs h = tt
AreBytes-take (suc n) [] h = tt
AreBytes-take (suc n) (x ∷ xs) h = (h.0, AreBytes-take n xs h.1)

pub AreBytes-drop : (n : ℕ) (xs : Bytes) → AreBytes xs → AreBytes (drop n xs)
AreBytes-drop zero xs h = h
AreBytes-drop (suc n) [] h = tt
AreBytes-drop (suc n) (x ∷ xs) h = AreBytes-drop n xs h.1

pub AreBytes-append : (xs ys : Bytes) → AreBytes xs → AreBytes ys → AreBytes (xs ++ ys)
AreBytes-append [] ys h k = k
AreBytes-append (x ∷ xs) ys h k = (h.0, AreBytes-append xs ys h.1 k)

pub le_bytes_word :
    (n : ℕ) (bs : Bytes) → length bs ≡ n → AreBytes bs → le_bytes n (le_word bs) ≡ bs
le_bytes_word n bs e h = rw (← e) (le_bytes-le_word bs h)

-- A byte string laid over a memory at an address.
unfoldable pub over : (ℕ → ℕ → ℕ) → ℕ → ℕ → Bytes → ℕ → ℕ → ℕ
over f pid a bs q b =
    if pid == q && (leb a b && ltb b (a + length bs)) then get_or bs (b - a) 0 else f q b

pub over-append :
    (f : ℕ → ℕ → ℕ) (pid a q b : ℕ) (xs ys : Bytes)
    → over (over f pid a xs) pid (a + length xs) ys q b ≡ over f pid a (xs ++ ys) q b
unfolding over
over-append f pid a q b xs ys = ground (arith, length-append xs ys, get_or-append xs ys (b - a) 0)

-- What the union holds after j rounds over src.
unfoldable pub last_word : Bytes → Bytes → ℕ → Bytes
last_word chars src zero = chars
last_word chars src (suc j) = take 8 (drop (j * 8) src)

pub last_word-drop :
    (chars src : Bytes) (j : ℕ)
    → last_word (take 8 src) (drop 8 src) j ≡ last_word chars src (suc j)
unfolding last_word
last_word-drop chars src zero = refl
last_word-drop chars src (suc j) =
    let e : 8 + j * 8 ≡ suc j * 8 = omega arith in
    ap (take 8) (drop-drop (j * 8) 8 src ∙ ap (λ (n : ℕ). drop n src) e)

pub take_split : (n m : ℕ) (xs : Bytes) → take n xs ++ take m (drop n xs) ≡ take (n + m) xs
take_split zero m xs = ground arith
take_split (suc n) zero [] = rw (suc-add n 0)
take_split (suc n) (suc m) [] = rw (suc-add n (suc m))
take_split (suc n) m (x ∷ xs) = rw (suc-add n m) (ap (λ (l : Bytes). x ∷ l) (take_split n m xs))

pub take_all : (n : ℕ) (xs : Bytes) → n ≡ length xs → take n xs ≡ xs
take_all zero [] e = refl
take_all zero (x ∷ xs) e = absurd (omega arith)
take_all (suc n) [] e = refl
take_all (suc n) (x ∷ xs) e = ap (λ (l : Bytes). x ∷ l) (take_all n xs (omega arith))

pub take_parts :
    (n r : ℕ) (xs ys : Bytes)
    → n + r ≡ length xs
    → take n xs ++ (take r (drop n xs) ++ ys) ≡ xs ++ ys
take_parts n r xs ys e =
    sym (append_assoc (take n xs) (take r (drop n xs)) ys)
    ∙ ap (λ (l : Bytes). l ++ ys) (take_split n r xs ∙ take_all (n + r) xs e)

pub length-last_word :
    (chars src : Bytes) (j : ℕ)
    → length chars ≡ 8
    → j * 8 ≤ length src
    → length (last_word chars src j) ≡ 8
unfolding last_word
length-last_word chars src zero e h = e
length-last_word chars src (suc j) e h =
    length-take_le 8 (drop (j * 8) src) (omega (arith, length-drop (j * 8) src))

pub plus_minus : (a k : ℕ) → a + k - a ≡ k
plus_minus a k = omega arith

pub get_or-last_word :
    (chars src : Bytes) (j i n : ℕ)
    → 0 < j
    → i < 8
    → n + 8 ≡ j * 8 + i
    → get_or (last_word chars src j) i 0 ≡ get_or src n 0
unfolding last_word
get_or-last_word chars src zero i n h k e = absurd (omega arith)
get_or-last_word chars src (suc j) i n h k e =
    let sum : j * 8 + i ≡ n = omega arith in
    get_or-take 8 i (drop (j * 8) src) 0 k
    ∙ get_or-drop (j * 8) i src 0
    ∙ ap (λ (t : ℕ). get_or src t 0) sum

pub AreBytes-last_word :
    (chars src : Bytes) (j : ℕ) → AreBytes chars → AreBytes src → AreBytes (last_word chars src j)
unfolding last_word
AreBytes-last_word chars src zero h k = h
AreBytes-last_word chars src (suc j) h k =
    AreBytes-take 8 (drop (j * 8) src) (AreBytes-drop (j * 8) src k)
