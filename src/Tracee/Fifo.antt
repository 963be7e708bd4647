-- ===== src/Tracee/Fifo.antt =====
-- What a write to the fifo does, beside the memory of the traced processes.
use graftcp.Prelude.{
  ℕ, zero, suc, ◌+◌, ◌≡◌, refl, ◌∙◌, Bytes, List, [], ◌∷◌, ◌++◌, ◌/◌, ◌%◌, ◌==◌, if◌then◌else◌,
  take, drop, le_word, Bool-cases, inl, inr,
}
use graftcp.Kernel.{Kernel}
use graftcp.Tracee.{putdata, putdata_words, word_address}
use graftcp.Tracee.Memory.{MemoryLaws}

-- The lines that have been written to the fifo: a write adds one, or nothing where it fails; the
-- memory of a traced process and the fifo are apart.
pub record FifoLaws ⦃kernel : Kernel⦄ ⦃memory : MemoryLaws⦄ : Type 0 where
  pub lines : kernel.State → List Bytes
  pub lines-write_fifo :
      (s : kernel.State) (b : Bytes)
      → lines (kernel.write_fifo s b).1
        ≡ (if (kernel.write_fifo s b).0 then lines s ++ b ∷ [] else lines s)
  pub lines-pokedata :
      (s : kernel.State) (pid a v : ℕ) → lines (kernel.pokedata s pid a v) ≡ lines s
  pub byte-write_fifo :
      (s : kernel.State) (b : Bytes) (q a : ℕ)
      → memory.byte (kernel.write_fifo s b).1 q a ≡ memory.byte s q a

module _ ⦃kernel : Kernel⦄ ⦃memory : MemoryLaws⦄ ⦃fifo : FifoLaws⦄ where
  lines-putdata_words :
      (s : kernel.State) (pid addr i j : ℕ) (src chars : Bytes)
      → fifo.lines (putdata_words s pid addr i j src chars).0 ≡ fifo.lines s
  unfolding putdata_words
  lines-putdata_words s pid addr i zero src chars = refl
  lines-putdata_words s pid addr i (suc j) src chars =
      lines-putdata_words (kernel.pokedata s pid (word_address addr i) (le_word (take 8 src))) pid
        addr (i + 1) j (drop 8 src) (take 8 src)
      ∙ fifo.lines-pokedata s pid _ _

  pub lines-putdata :
      (junk : Bytes) (s : kernel.State) (pid addr : ℕ) (src : Bytes) (len : ℕ)
      → fifo.lines (putdata junk s pid addr src len) ≡ fifo.lines s
  unfolding putdata
  lines-putdata junk s pid addr src len =
      let words = lines-putdata_words s pid addr 0 (len / 8) src junk in
      elim (Bool-cases (len % 8 == 0)) [
        | inl e ↦ rw e words
        | inr e ↦ rw e (fifo.lines-pokedata _ pid _ _ ∙ words)
      ]
