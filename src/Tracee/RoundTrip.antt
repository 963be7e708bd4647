-- ===== src/Tracee/RoundTrip.antt =====
-- getdata after putdata (util.c): the tracer reads back what it wrote.
use graftcp.Prelude.{
  ℕ, zero, suc, ◌+◌, ◌-◌, ◌*◌, ◌/◌, ◌%◌, ◌^◌, ◌≤◌, ◌<◌, ◌≡◌, refl, sym, ap, ◌∙◌, arith, Bytes, [],
  ◌∷◌, ◌++◌, ◌==◌, get_or, take, drop, length, length-append, AreBytes, le_word, suc-add,
  Bool-cases, inl, inr,
}
use mathlib.Core.Path.{fun_ext}
use graftcp.Kernel.{Kernel}
use graftcp.Tracee.{getdata, putdata, putdata_words, word_address}
use graftcp.Tracee.Memory.{MemoryLaws, Reachable, bytes_at, getdata-bytes_at}
use graftcp.Tracee.Overlay.{over}
use graftcp.Tracee.Writes.{padding, putdata-over}

take-drop-suc :
    (k n : ℕ) (bs : Bytes)
    → k < length bs
    → take (suc n) (drop k bs) ≡ get_or bs k 0 ∷ take n (drop (k + 1) bs)
take-drop-suc zero n [] h = absurd (omega arith)
take-drop-suc zero n (x ∷ bs) h = refl
take-drop-suc (suc k) n [] h = absurd (omega arith)
take-drop-suc (suc k) n (x ∷ bs) h = rw (suc-add k 1) (take-drop-suc k n bs (omega arith))

over-inside :
    (f : ℕ → ℕ → ℕ) (pid a k : ℕ) (bs : Bytes)
    → k < length bs
    → over f pid a bs pid (a + k) ≡ get_or bs k 0
unfolding over
over-inside f pid a k bs h =
    let e : a + k - a ≡ k = omega arith in ground (arith, ap (λ (j : ℕ). get_or bs j 0) e)

bytes_at-over :
    (f : ℕ → ℕ → ℕ) (pid a k n : ℕ) (bs : Bytes)
    → k + n ≤ length bs
    → bytes_at (over f pid a bs pid) (a + k) n ≡ take n (drop k bs)
unfolding bytes_at
bytes_at-over f pid a k zero bs h = refl
bytes_at-over f pid a k (suc n) bs h =
    let next : a + k + 1 ≡ a + (k + 1) = omega arith in
    let here : over f pid a bs pid (a + k) ≡ get_or bs k 0 =
      over-inside f pid a k bs (omega arith) in
    rw (take-drop-suc k n bs (omega arith), next, here)
      (ap (λ (l : Bytes). get_or bs k 0 ∷ l) (bytes_at-over f pid a (k + 1) n bs (omega arith)))

take-append : (xs ys : Bytes) → take (length xs) (xs ++ ys) ≡ xs
take-append [] ys = refl
take-append (x ∷ xs) ys = ap (λ (l : Bytes). x ∷ l) (take-append xs ys)

module _ ⦃kernel : Kernel⦄ ⦃memory : MemoryLaws⦄ where
  open kernel use {State, pokedata}
  open memory use {byte, mapped}

  mapped-putdata_words :
      (s : State) (pid addr i j : ℕ) (src chars : Bytes) (q b : ℕ)
      → mapped (putdata_words s pid addr i j src chars).0 q b ≡ mapped s q b
  unfolding putdata_words
  mapped-putdata_words s pid addr i zero src chars q b = refl
  mapped-putdata_words s pid addr i (suc j) src chars q b =
      mapped-putdata_words (pokedata s pid (word_address addr i) (le_word (take 8 src))) pid addr
        (i + 1) j (drop 8 src) (take 8 src) q b
      ∙ memory.mapped-pokedata s pid _ _ q b

  mapped-putdata :
      (junk : Bytes) (s : State) (pid addr : ℕ) (src : Bytes) (q b : ℕ)
      → mapped (putdata junk s pid addr src (length src)) q b ≡ mapped s q b
  unfolding putdata
  mapped-putdata junk s pid addr src q b =
      let words = mapped-putdata_words s pid addr 0 (length src / 8) src junk q b in
      elim (Bool-cases (length src % 8 == 0)) [
        | inl e ↦ rw e words
        | inr e ↦ rw e (memory.mapped-pokedata _ pid _ _ q b ∙ words)
      ]

  -- Where the words of the range can be reached, getdata after putdata at the same address gives
  -- the bytes that were written, for every length.
  pub getdata-putdata :
      (junk : Bytes) (s : State) (pid addr : ℕ) (src : Bytes)
      → addr + length src + 8 ≤ 2 ^ 64
      → Reachable s pid addr (length src)
      → AreBytes src
      → AreBytes junk
      → length junk ≡ 8
      → getdata (putdata junk s pid addr src (length src)) pid addr (length src) ≡ src
  getdata-putdata junk s pid addr src fits m h k e =
      let s' = putdata junk s pid addr src (length src) in
      let p = padding junk src (length src) in
      let written : byte s' pid ≡ over (byte s) pid addr (src ++ p) pid =
        fun_ext (λ b. putdata-over junk s pid addr src fits m h k e pid b) in
      let read =
        bytes_at-over (byte s) pid addr 0 (length src) (src ++ p)
          (omega (arith, length-append src p)) in
      let start : addr + 0 ≡ addr = omega arith in
      getdata-bytes_at s' pid addr (length src) fits
        (λ i lt. mapped-putdata junk s pid addr src pid (addr + i * 8) ∙ m i lt)
      ∙ ap (λ (f : ℕ → ℕ). bytes_at f addr (length src)) written
      ∙ ap (λ (a : ℕ). bytes_at (over (byte s) pid addr (src ++ p) pid) a (length src)) (sym start)
      ∙ read
      ∙ take-append src p
