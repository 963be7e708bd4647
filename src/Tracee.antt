-- ===== src/Tracee.antt =====
-- The part of util.c that reads and writes a stopped process through ptrace.
-- The default build defines NDEBUG, so `assert` does nothing.
pub mod Registers
pub mod Memory
pub mod Overlay
pub mod Writes
pub mod RoundTrip
pub mod Fifo
pub mod Reaches
use graftcp.Prelude.{
  ℕ, zero, suc, ◌+◌, ◌-◌, ◌*◌, ◌/◌, ◌%◌, ◌^◌, Bytes, List, [], ◌∷◌, ◌++◌, ◌==◌, if◌then◌else◌, take,
  drop, le_bytes, le_word, int_of_long, Option, none, some,
}
use graftcp.Kernel.{Kernel}

-- offsetof(struct user, regs.…) on x86-64
abbrev pub offset_rax : ℕ
offset_rax = 80

abbrev pub offset_orig_rax : ℕ
offset_orig_rax = 120

abbrev pub offset_rdi : ℕ
offset_rdi = 112

-- The register of a system call's argument.
abbrev pub arg_offset : ℕ → Option ℕ
arg_offset order =
    if order == 0
    then some offset_rdi
    else if order == 1
    then some 104
    else if order == 2
    then some 96
    else if order == 3
    then some 56
    else if order == 4
    then some 72
    else if order == 5
    then some 64
    else none

-- `addr + i * 8`
pub word_address : ℕ → ℕ → ℕ
word_address addr i = (addr + i * 8) % 2 ^ 64

module _ ⦃kernel : Kernel⦄ where
  open kernel use {State, peekuser, pokeuser, peekdata, pokedata}

  unfoldable pub get_syscall_number : State → ℕ → ℕ
  get_syscall_number s pid = int_of_long (peekuser s pid offset_orig_rax).0

  -- The value and the errno that the caller reads.
  unfoldable pub get_retval : State → ℕ → ℕ × ℕ
  get_retval s pid = let (val, errno) = peekuser s pid offset_rax in (int_of_long val, errno)

  -- PTRACE_GETREGS and PTRACE_SETREGS give and put back every register; rax is the one that
  -- differs.
  unfoldable pub set_retval : State → ℕ → ℕ → State
  set_retval s pid new_val =
      if (peekuser s pid offset_rax).0 == new_val then s else pokeuser s pid offset_rax new_val

  -- A `long`: -1 where there is no such argument.
  unfoldable pub get_syscall_arg : State → ℕ → ℕ → ℕ
  get_syscall_arg s pid order = elim (arg_offset order) [
    | none ↦ 2 ^ 64 - 1
    | some offset ↦ (peekuser s pid offset).0
  ]

  -- The loop over whole words, with j of them left.
  pub getdata_words : State → ℕ → ℕ → ℕ → ℕ → Bytes
  getdata_words s child addr i zero = []
  getdata_words s child addr i (suc j) =
      le_bytes 8 (peekdata s child (word_address addr i)) ++ getdata_words s child addr (i + 1) j

  -- The bytes that are copied to dst.
  unfoldable pub getdata : State → ℕ → ℕ → ℕ → Bytes
  unfolding getdata_words word_address
  getdata s child addr len =
      getdata_words s child addr 0 (len / 8)
      ++ (if len % 8 == 0
          then []
          else take (len % 8) (le_bytes 8 (peekdata s child (word_address addr (len / 8)))))

  -- The loop over whole words: the state, the rest of src and what is left in the union.
  pub putdata_words : State → ℕ → ℕ → ℕ → ℕ → Bytes → Bytes → State × Bytes × Bytes
  putdata_words s child addr i zero src chars = (s, src, chars)
  putdata_words s child addr i (suc j) src chars =
      putdata_words (pokedata s child (word_address addr i) (le_word (take 8 src))) child addr
        (i + 1) j (drop 8 src) (take 8 src)

  -- The last word is filled up with what the union held before: the word written last, or, for
  -- fewer than eight bytes, the eight bytes `junk` of the uninitialised union.
  unfoldable pub putdata : Bytes → State → ℕ → ℕ → Bytes → ℕ → State
  unfolding putdata_words word_address
  putdata junk s child addr src len =
      let (s', rest, chars) = putdata_words s child addr 0 (len / 8) src junk in
      if len % 8 == 0
      then s'
      else pokedata s' child (word_address addr (len / 8))
          (le_word (take (len % 8) rest ++ drop (len % 8) chars))
