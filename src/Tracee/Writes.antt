-- ===== src/Tracee/Writes.antt =====
-- putdata of util.c: which bytes of the stopped process change, and to what.
use mathlib.Core.Path.{fun_ext}
use mathlib.Core.List.{append-nil}
use graftcp.Prelude.{
  ℕ, zero, suc, ◌+◌, ◌-◌, ◌*◌, ◌/◌, ◌%◌, ◌^◌, ◌≤◌, ◌<◌, ◌≡◌, refl, sym, ap, ◌∙◌, arith, Bytes, true,
  false, [], ◌++◌, ◌==◌, if◌then◌else◌, get_or, get_or-drop, get_or-append, take, drop, length,
  length-take_le, length-drop, drop-drop, le_word, AreBytes, length-append, Bool-cases, inl, inr,
}
use graftcp.Kernel.{Kernel}
use graftcp.Tracee.{putdata_words, putdata, word_address}
use graftcp.Tracee.Memory.{MemoryLaws, word_address-lt, Reachable}
use graftcp.Tracee.Overlay.{
  AreBytes-take, AreBytes-drop, AreBytes-append, le_bytes_word, over, over-append, last_word,
  last_word-drop, take_split, take_all, take_parts, length-last_word, plus_minus, get_or-last_word,
  AreBytes-last_word,
}

module _ ⦃kernel : Kernel⦄ ⦃memory : MemoryLaws⦄ where
  open kernel use {State, pokedata}
  open memory use {byte, mapped}

  pokedata-over :
      (s : State) (pid a : ℕ) (bs : Bytes)
      → mapped s pid a ≡ true
      → length bs ≡ 8
      → AreBytes bs
      → byte (pokedata s pid a (le_word bs)) ≡ over (byte s) pid a bs
  unfolding over
  pokedata-over s pid a bs m e h = fun_ext λ q.
      fun_ext λ b. rw (memory.byte-pokedata s pid a (le_word bs) q b m, le_bytes_word 8 bs e h, e)

  -- What the loop over whole words has done after j rounds.
  pub record AfterWords (s : State) (child a j : ℕ) (src chars : Bytes) (r : State × Bytes × Bytes)
      : Type 0 where
    pub bytes : byte r.0 ≡ over (byte s) child a (take (j * 8) src)
    pub reach : (q b : ℕ) → mapped r.0 q b ≡ mapped s q b
    pub rest : r.1 ≡ drop (j * 8) src
    pub union : r.2 ≡ last_word chars src j

  pub putdata_words-AfterWords :
      (s : State) (child addr i j : ℕ) (src chars : Bytes)
      → addr + (i + j) * 8 ≤ 2 ^ 64
      → ((k : ℕ) → k < i + j → mapped s child (addr + k * 8) ≡ true)
      → j * 8 ≤ length src
      → AreBytes src
      → AfterWords s child (addr + i * 8) j src chars (putdata_words s child addr i j src chars)
  unfolding putdata_words
  putdata_words-AfterWords s child addr i zero src chars fits m le h = record {
    bytes = fun_ext λ q. fun_ext λ b. unfold over in ground arith;
    reach = λ q b. refl;
    rest = refl;
    union = unfold last_word in refl;
  }
  putdata_words-AfterWords s child addr i (suc j) src chars fits m le h =
      let here = word_address-lt addr i (omega arith) in
      let s1 = pokedata s child (word_address addr i) (le_word (take 8 src)) in
      let full = length-take_le 8 src (omega arith) in
      let first =
        pokedata-over s child (addr + i * 8) (take 8 src) (m i (omega arith)) full
          (AreBytes-take 8 src h) in
      let next : addr + (i + 1) * 8 ≡ addr + i * 8 + length (take 8 src) = omega (arith, full) in
      let size : suc j * 8 ≡ 8 + j * 8 = omega arith in
      let ih =
        putdata_words-AfterWords s1 child addr (i + 1) j (drop 8 src) (take 8 src) (omega arith)
          (λ k lt.
            memory.mapped-pokedata s child (word_address addr i) _ child _ ∙ m k (omega arith))
          (omega (arith, length-drop 8 src)) (AreBytes-drop 8 src h) in
      record {
        bytes =
            ih.bytes
            ∙ fun_ext λ q. fun_ext λ b.
              rw (here, first, next, size)
                (over-append (byte s) child (addr + i * 8) q b (take 8 src)
                    (take (j * 8) (drop 8 src))
                  ∙ ap (λ (l : Bytes). over (byte s) child (addr + i * 8) l q b)
                      (take_split 8 (j * 8) src));
        reach = λ q b. ih.reach q b ∙ memory.mapped-pokedata s child (word_address addr i) _ q b;
        rest = ih.rest ∙ drop-drop (j * 8) 8 src ∙ ap (λ (n : ℕ). drop n src) (sym size);
        union = ih.union ∙ last_word-drop chars src j;
      }

  -- The write of the last word, r bytes of src and then of the union.
  last_write :
      (s s' : State) (pid addr n r : ℕ) (src fill : Bytes)
      → byte s' ≡ over (byte s) pid addr (take n src)
      → mapped s' pid (addr + n) ≡ true
      → n + r ≡ length src
      → r < 8
      → AreBytes src
      → length fill ≡ 8
      → AreBytes fill
      → (q b : ℕ)
      → byte (pokedata s' pid (addr + n) (le_word (take r (drop n src) ++ drop r fill))) q b
        ≡ over (byte s) pid addr (src ++ drop r fill) q b
  last_write s s' pid addr n r src fill before m split small h e k q b =
      let rest = take r (drop n src) in
      let front : length (take n src) ≡ n = length-take_le n src (omega arith) in
      let back : length rest ≡ r =
        length-take_le r (drop n src) (omega (arith, length-drop n src)) in
      let size : length (rest ++ drop r fill) ≡ 8 =
        omega (arith, length-append rest (drop r fill), length-drop r fill) in
      let good =
        AreBytes-append rest (drop r fill) (AreBytes-take r (drop n src) (AreBytes-drop n src h))
          (AreBytes-drop r fill k) in
      let over_it = over-append (byte s) pid addr q b (take n src) (rest ++ drop r fill) in
      rw
        (
          pokedata-over s' pid (addr + n) (rest ++ drop r fill) m size good,
          before,
          ← take_parts n r src (drop r fill) split,
        )
        (rw front at over_it)

  -- What fills up the last word: bytes of the word written last, or of the uninitialised union.
  abbrev pub padding : Bytes → Bytes → ℕ → Bytes
  padding junk src len = if len % 8 == 0 then [] else drop (len % 8) (last_word junk src (len / 8))

  -- Where the words of the range can be reached, putdata lays the bytes of src and then the padding
  -- of the last word over the memory of the process, and changes no other byte of any process.
  pub putdata-over :
      (junk : Bytes) (s : State) (pid addr : ℕ) (src : Bytes)
      → addr + length src + 8 ≤ 2 ^ 64
      → Reachable s pid addr (length src)
      → AreBytes src
      → AreBytes junk
      → length junk ≡ 8
      → (q b : ℕ)
      → byte (putdata junk s pid addr src (length src)) q b
        ≡ over (byte s) pid addr (src ++ padding junk src (length src)) q b
  unfolding putdata
  putdata-over junk s pid addr src fits m h k e q b =
      let len = length src in
      let n = len / 8 * 8 in
      let r = len % 8 in
      let first : addr + 0 * 8 ≡ addr = omega arith in
      let w =
        putdata_words-AfterWords s pid addr 0 (len / 8) src junk (omega arith)
          (λ i lt. m i (omega arith)) (omega arith) h in
      elim (Bool-cases (r == 0)) [
        | inl z ↦
            let whole : n ≡ len = ground arith in
            rw (z, w.bytes, first, take_all n src whole, append-nil src)
        | inr z ↦
            let fill = last_word junk src (len / 8) in
            rw (z, w.rest, w.union, word_address-lt addr (len / 8) (omega arith))
              (last_write s (putdata_words s pid addr 0 (len / 8) src junk).0 pid addr n r src fill
                (rw first at w.bytes) (w.reach pid (addr + n) ∙ m (len / 8) (ground arith))
                (omega arith) (omega arith) h (length-last_word junk src (len / 8) e (omega arith))
                (AreBytes-last_word junk src (len / 8) k h) q b)
      ]

  over-padding :
      (junk : Bytes) (s : State) (pid addr : ℕ) (src : Bytes) (k : ℕ)
      → length junk ≡ 8
      → 8 ≤ length src
      → length src ≤ k
      → k < (length src + 7) / 8 * 8
      → over (byte s) pid addr (src ++ padding junk src (length src)) pid (addr + k)
        ≡ get_or src (k - 8) 0
  unfolding over
  over-padding junk s pid addr src k e big past within =
      let len = length src in
      let r = len % 8 in
      let more : (r == 0) ≡ false = ground arith in
      let fill = last_word junk src (len / 8) in
      let whole = length-last_word junk src (len / 8) e (omega arith) in
      let here : get_or (drop r fill) (k - len) 0 ≡ get_or src (k - 8) 0 =
        get_or-drop r (k - len) fill 0
        ∙ get_or-last_word junk src (len / 8) (r + (k - len)) (k - 8) (omega arith) (omega arith)
            (omega arith) in
      rw more (
        ground (
          arith,
          here,
          whole,
          length-append src (drop r fill),
          length-drop r fill,
          get_or-append src (drop r fill) k 0,
          ap (λ (i : ℕ). get_or (src ++ drop r fill) i 0) (plus_minus addr k),
        ))

  -- Past the end of src, putdata of at least eight bytes overwrites the rest of the last word of
  -- the process with bytes of src that stand eight places earlier, where the length is no multiple
  -- of eight and the words can be reached.
  pub putdata-overrun :
      (junk : Bytes) (s : State) (pid addr : ℕ) (src : Bytes) (k : ℕ)
      → addr + length src + 8 ≤ 2 ^ 64
      → Reachable s pid addr (length src)
      → AreBytes src
      → AreBytes junk
      → length junk ≡ 8
      → 8 ≤ length src
      → length src ≤ k
      → k < (length src + 7) / 8 * 8
      → byte (putdata junk s pid addr src (length src)) pid (addr + k) ≡ get_or src (k - 8) 0
  putdata-overrun junk s pid addr src k fits m h kb e big past within =
      putdata-over junk s pid addr src fits m h kb e pid (addr + k)
      ∙ over-padding junk s pid addr src k e big past within
