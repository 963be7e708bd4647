-- ===== src/Tracee/Reaches.antt =====
-- The states of the kernel that calls of ptrace, the clock and the fifo lead to.
use graftcp.Prelude.{
  ℕ, zero, suc, ◌+◌, ◌≤◌, ◌≡◌, arith, Bytes, ◌/◌, ◌%◌, ◌==◌, take, drop, le_word, Bool-cases, inl,
  inr, some, ◌<◌,
}
use graftcp.Kernel.{Kernel}
use graftcp.Tracee.{putdata, putdata_words, word_address}

module _ ⦃kernel : Kernel⦄ where
  open kernel use {State}

  -- By any calls but wait.
  pub data Reaches (s : State) : State → Type 0 where
    here : Reaches s s
    by_pokeuser : {t : State} → Reaches s t → (pid o v : ℕ) → Reaches s (kernel.pokeuser t pid o v)
    by_pokedata : {t : State} → Reaches s t → (pid a v : ℕ) → Reaches s (kernel.pokedata t pid a v)
    by_setoptions : {t : State} → Reaches s t → (pid : ℕ) → Reaches s (kernel.setoptions t pid).1
    by_resume : {t : State} → Reaches s t → (pid sig : ℕ) → Reaches s (kernel.resume t pid sig).1
    by_usleep : {t : State} → Reaches s t → (n : ℕ) → Reaches s (kernel.usleep t n)
    by_write_fifo : {t : State} → Reaches s t → (b : Bytes) → Reaches s (kernel.write_fifo t b).1

  putdata_words-Reaches :
      (r s : State) (pid addr i j : ℕ) (src chars : Bytes)
      → Reaches r s
      → Reaches r (putdata_words s pid addr i j src chars).0
  unfolding putdata_words
  putdata_words-Reaches r s pid addr i zero src chars h = h
  putdata_words-Reaches r s pid addr i (suc j) src chars h =
      putdata_words-Reaches r (kernel.pokedata s pid (word_address addr i) (le_word (take 8 src)))
        pid addr (i + 1) j (drop 8 src) (take 8 src) (by_pokedata h pid _ _)

  pub putdata-Reaches :
      (junk : Bytes) (s : State) (pid addr : ℕ) (src : Bytes) (len : ℕ)
      → Reaches s (putdata junk s pid addr src len)
  unfolding putdata
  putdata-Reaches junk s pid addr src len =
      let words = putdata_words-Reaches s s pid addr 0 (len / 8) src junk here in
      elim (Bool-cases (len % 8 == 0)) [
        | inl e ↦ rw e words
        | inr e ↦ rw e (by_pokedata words pid _ _)
      ]

  pub Reaches-trans : {s t u : kernel.State} → Reaches s t → Reaches t u → Reaches s u
  Reaches-trans h here = h
  Reaches-trans h (by_pokeuser k pid o v) = by_pokeuser (Reaches-trans h k) pid o v
  Reaches-trans h (by_pokedata k pid a v) = by_pokedata (Reaches-trans h k) pid a v
  Reaches-trans h (by_setoptions k pid) = by_setoptions (Reaches-trans h k) pid
  Reaches-trans h (by_resume k pid sig) = by_resume (Reaches-trans h k) pid sig
  Reaches-trans h (by_usleep k n) = by_usleep (Reaches-trans h k) n
  Reaches-trans h (by_write_fifo k b) = by_write_fifo (Reaches-trans h k) b

-- The traced processes have finitely many events left for wait: a wait that reports one takes one,
-- and no other call adds any.
pub record EventLaws ⦃kernel : Kernel⦄ : Type 0 where
  pub events : kernel.State → ℕ
  pub events-wait :
      (s : kernel.State) (e : ℕ × ℕ)
      → (kernel.wait s).0 ≡ some e
      → events (kernel.wait s).1 < events s
  pub events-pokeuser :
      (s : kernel.State) (pid o v : ℕ) → events (kernel.pokeuser s pid o v) ≤ events s
  pub events-pokedata :
      (s : kernel.State) (pid a v : ℕ) → events (kernel.pokedata s pid a v) ≤ events s
  pub events-setoptions :
      (s : kernel.State) (pid : ℕ) → events (kernel.setoptions s pid).1 ≤ events s
  pub events-resume :
      (s : kernel.State) (pid sig : ℕ) → events (kernel.resume s pid sig).1 ≤ events s
  pub events-usleep : (s : kernel.State) (n : ℕ) → events (kernel.usleep s n) ≤ events s
  pub events-write_fifo :
      (s : kernel.State) (b : Bytes) → events (kernel.write_fifo s b).1 ≤ events s

module _ ⦃kernel : Kernel⦄ ⦃schedule : EventLaws⦄ where
  pub events-Reaches : {s t : kernel.State} → Reaches s t → schedule.events t ≤ schedule.events s
  events-Reaches here = omega arith
  events-Reaches (by_pokeuser h pid o v) =
      omega (arith, events-Reaches h, schedule.events-pokeuser _ pid o v)
  events-Reaches (by_pokedata h pid a v) =
      omega (arith, events-Reaches h, schedule.events-pokedata _ pid a v)
  events-Reaches (by_setoptions h pid) =
      omega (arith, events-Reaches h, schedule.events-setoptions _ pid)
  events-Reaches (by_resume h pid sig) =
      omega (arith, events-Reaches h, schedule.events-resume _ pid sig)
  events-Reaches (by_usleep h n) = omega (arith, events-Reaches h, schedule.events-usleep _ n)
  events-Reaches (by_write_fifo h b) =
      omega (arith, events-Reaches h, schedule.events-write_fifo _ b)
