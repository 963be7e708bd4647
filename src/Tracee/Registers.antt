-- ===== src/Tracee/Registers.antt =====
-- The registers of a stopped process (util.c).
use graftcp.Prelude.{
  ℕ, ◌≡◌, refl, arith, ◌&&◌, ◌==◌, if◌then◌else◌, Bool-cases, inl, inr, int_of_long, false,
}
use graftcp.Kernel.{Kernel}
use graftcp.Tracee.{get_retval, set_retval, offset_rax}

-- PTRACE_POKEUSER sets one register of one process.
pub record RegisterLaws ⦃kernel : Kernel⦄ : Type 0 where
  pub peekuser-pokeuser :
      (s : kernel.State) (pid offset v q o : ℕ)
      → (kernel.peekuser (kernel.pokeuser s pid offset v) q o).0
        ≡ (if q == pid && o == offset then v else (kernel.peekuser s q o).0)

module _ ⦃kernel : Kernel⦄ ⦃registers : RegisterLaws⦄ where
  -- After set_retval the return value of the process reads as the new one, as an int, whether it
  -- was written or there already, and any other register of any process reads as before.
  pub get_retval-set_retval :
      (s : kernel.State) (pid new_val q o : ℕ)
      → (q == pid && o == offset_rax) ≡ false
      → ((get_retval (set_retval s pid new_val) pid).0 ≡ int_of_long new_val)
        × ((kernel.peekuser (set_retval s pid new_val) q o).0 ≡ (kernel.peekuser s q o).0)
  unfolding get_retval set_retval
  get_retval-set_retval s pid new_val q o h =
      let written = registers.peekuser-pokeuser s pid offset_rax new_val in
      elim (Bool-cases ((kernel.peekuser s pid offset_rax).0 == new_val)) [
        | inl same ↦ rw same (ground arith, refl)
        | inr other ↦
            rw other (ground (arith, written pid offset_rax), ground (arith, h, written q o))
      ]
