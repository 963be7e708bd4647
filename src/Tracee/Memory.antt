-- ===== src/Tracee/Memory.antt =====
-- getdata and putdata of util.c against the memory of the stopped process, byte by byte.
use graftcp.Prelude.{
  ℕ, zero, suc, ◌+◌, ◌-◌, ◌*◌, ◌/◌, ◌%◌, ◌^◌, ◌≤◌, ◌<◌, ◌≡◌, refl, sym, ap, ◌∙◌, arith, Bytes, Bool,
  true, false, ◌&&◌, [], ◌∷◌, ◌++◌, ltb, leb, ◌==◌, if◌then◌else◌, get_or, take, length, le_bytes,
  le_word, AreBytes, le_bytes-le_word, suc-add,
}
use graftcp.Kernel.{Kernel}
use graftcp.Tracee.{getdata_words, getdata, word_address}

-- n bytes from an address.
unfoldable pub bytes_at : (ℕ → ℕ) → ℕ → ℕ → Bytes
bytes_at f a zero = []
bytes_at f a (suc n) = f a ∷ bytes_at f (a + 1) n

-- What ptrace(2) says of the memory of a process: where a word can be reached, a read gives its
-- eight bytes and a write changes these and no others.
pub record MemoryLaws ⦃kernel : Kernel⦄ : Type 0 where
  pub byte : kernel.State → ℕ → ℕ → ℕ
  pub mapped : kernel.State → ℕ → ℕ → Bool
  pub byte-lt : (s : kernel.State) (pid a : ℕ) → byte s pid a < 256
  pub peekdata-byte :
      (s : kernel.State) (pid a : ℕ)
      → mapped s pid a ≡ true
      → kernel.peekdata s pid a ≡ le_word (bytes_at (byte s pid) a 8)
  pub byte-pokedata :
      (s : kernel.State) (pid a w q b : ℕ)
      → mapped s pid a ≡ true
      → byte (kernel.pokedata s pid a w) q b ≡ (
          if pid == q && (leb a b && ltb b (a + 8))
          then get_or (le_bytes 8 w) (b - a) 0
          else byte s q b)
  pub mapped-pokedata :
      (s : kernel.State) (pid a w q b : ℕ) → mapped (kernel.pokedata s pid a w) q b ≡ mapped s q b

bytes_at-AreBytes : (f : ℕ → ℕ) → ((a : ℕ) → f a < 256) → (a n : ℕ) → AreBytes (bytes_at f a n)
unfolding bytes_at
bytes_at-AreBytes f h a zero = tt
bytes_at-AreBytes f h a (suc n) = (h a, bytes_at-AreBytes f h (a + 1) n)

pub length-bytes_at : (f : ℕ → ℕ) (a n : ℕ) → length (bytes_at f a n) ≡ n
unfolding bytes_at
length-bytes_at f a zero = refl
length-bytes_at f a (suc n) = ap suc (length-bytes_at f (a + 1) n)

suc_shift : (a n : ℕ) → a + 1 + n ≡ a + suc n
suc_shift a n = omega arith

bytes_at-append :
    (f : ℕ → ℕ) (a n m : ℕ) → bytes_at f a (n + m) ≡ bytes_at f a n ++ bytes_at f (a + n) m
unfolding bytes_at
bytes_at-append f a zero m = ground arith
bytes_at-append f a (suc n) m = rw (suc-add n m) (
    ap (λ (l : Bytes). f a ∷ l)
      (bytes_at-append f (a + 1) n m
        ∙ ap (λ (k : ℕ). bytes_at f (a + 1) n ++ bytes_at f k m) (suc_shift a n)))

take-bytes_at : (f : ℕ → ℕ) (a n m : ℕ) → n ≤ m → take n (bytes_at f a m) ≡ bytes_at f a n
unfolding bytes_at
take-bytes_at f a zero m h = refl
take-bytes_at f a (suc n) zero h = absurd (omega arith)
take-bytes_at f a (suc n) (suc m) h =
    ap (λ (l : Bytes). f a ∷ l) (take-bytes_at f (a + 1) n m (omega arith))

pub word_address-lt : (addr i : ℕ) → addr + i * 8 < 2 ^ 64 → word_address addr i ≡ addr + i * 8
unfolding word_address
word_address-lt addr i h = omega arith

module _ ⦃kernel : Kernel⦄ ⦃memory : MemoryLaws⦄ where
  open kernel use {State, peekdata, pokedata}
  open memory use {byte, mapped}

  -- Every word that holds one of the bytes can be reached.
  abbrev pub Reachable : State → ℕ → ℕ → ℕ → Type 0
  Reachable s pid addr len = (i : ℕ) → i * 8 < len → mapped s pid (addr + i * 8) ≡ true

  peekdata-bytes_at :
      (s : State) (pid a : ℕ)
      → mapped s pid a ≡ true
      → le_bytes 8 (peekdata s pid a) ≡ bytes_at (byte s pid) a 8
  peekdata-bytes_at s pid a m = rw (memory.peekdata-byte s pid a m) (
      unfold bytes_at in
      le_bytes-le_word (bytes_at (byte s pid) a 8)
        (bytes_at-AreBytes (byte s pid) (memory.byte-lt s pid) a 8))

  getdata_words-bytes_at :
      (s : State) (pid addr i j : ℕ)
      → addr + (i + j) * 8 ≤ 2 ^ 64
      → ((k : ℕ) → k < i + j → mapped s pid (addr + k * 8) ≡ true)
      → getdata_words s pid addr i j ≡ bytes_at (byte s pid) (addr + i * 8) (j * 8)
  unfolding getdata_words
  getdata_words-bytes_at s pid addr i zero fits m = unfold bytes_at in refl
  getdata_words-bytes_at s pid addr i (suc j) fits m =
      let e : suc j * 8 ≡ 8 + j * 8 = omega arith in
      let next : addr + (i + 1) * 8 ≡ addr + i * 8 + 8 = omega arith in
      rw
        (
          word_address-lt addr i (omega arith),
          peekdata-bytes_at s pid (addr + i * 8) (m i (omega arith)),
          e,
        )
        (rw (bytes_at-append (byte s pid) (addr + i * 8) 8 (j * 8), ← next)
          (ap (λ (l : Bytes). bytes_at (byte s pid) (addr + i * 8) 8 ++ l)
            (getdata_words-bytes_at s pid addr (i + 1) j (omega arith) (λ k h. m k (omega arith)))))

  tail-bytes_at :
      (s : State) (pid a r : ℕ)
      → r < 8
      → (0 < r → mapped s pid a ≡ true)
      → (if r == 0 then [] else take r (le_bytes 8 (peekdata s pid a))) ≡ bytes_at (byte s pid) a r
  tail-bytes_at s pid a zero fits m = unfold bytes_at in refl
  tail-bytes_at s pid a (suc r) fits m =
      let more : (suc r == 0) ≡ false = ground arith in
      rw (more, peekdata-bytes_at s pid a (m (omega arith)))
        (take-bytes_at (byte s pid) a (suc r) 8 (omega arith))

  -- Where the words that hold the range can be reached, getdata copies exactly the len bytes at the
  -- address, for every len.
  pub getdata-bytes_at :
      (s : State) (pid addr len : ℕ)
      → addr + len + 8 ≤ 2 ^ 64
      → Reachable s pid addr len
      → getdata s pid addr len ≡ bytes_at (byte s pid) addr len
  unfolding getdata
  getdata-bytes_at s pid addr len fits m =
      let first : addr + 0 * 8 ≡ addr = omega arith in
      let split : len / 8 * 8 + len % 8 ≡ len = omega arith in
      rw
        (
          word_address-lt addr (len / 8) (omega arith),
          tail-bytes_at s pid (addr + len / 8 * 8) (len % 8) (omega arith)
              (λ h. m (len / 8) (omega arith)),
          getdata_words-bytes_at s pid addr 0 (len / 8) (omega arith) (λ k h. m k (omega arith)),
          first,
        )
        (sym (bytes_at-append (byte s pid) addr (len / 8 * 8) (len % 8))
          ∙ ap (bytes_at (byte s pid) addr) split)
