-- ===== src/Handlers/Clone.antt =====
-- clone_pre_handle of main.c: a clone call cannot ask for an untraced child.
use graftcp.Prelude.{ℕ, ◌/◌, ◌%◌, ◌^◌, ◌≡◌, arith, false, some, bit_clear, bit_test}
use graftcp.Kernel.{Kernel}
use graftcp.Uthash.{Uthash}
use graftcp.World.{World, done, ProcInfo}
use graftcp.Tracee.{get_syscall_arg, offset_rdi}
use graftcp.Tracee.Registers.{RegisterLaws}
use graftcp.Handlers.{clone_pre_handle, clone_untraced}
use graftcp.Handlers.Outcomes.{clone_pre_handle_lem}

-- A word with one bit cleared: the bit is 0, and the bits below and above it are as before.
clear_untraced_bits :
    (v : ℕ)
    → (bit_test clone_untraced (bit_clear clone_untraced v) ≡ false)
      × (bit_clear clone_untraced v % 2 ^ 23 ≡ v % 2 ^ 23)
      × (bit_clear clone_untraced v / 2 ^ 24 ≡ v / 2 ^ 24)
clear_untraced_bits v = ground arith

module _ ⦃kernel : Kernel⦄ ⦃registers : RegisterLaws⦄ ⦃uthash : Uthash⦄ where
  -- The flags that the kernel reads after clone_pre_handle have CLONE_UNTRACED clear and every
  -- other bit as the process set it, and the second argument of the call is unchanged.
  pub clone_pre_handle-flags :
      (w : World) (pinfp : ℕ) (pi : ProcInfo)
      → w.procs pinfp ≡ some pi
      → (r : World) × (clone_pre_handle pinfp w ≡ done tt r)
        × (bit_test clone_untraced (get_syscall_arg r.system pi.pid 0) ≡ false)
        × (get_syscall_arg r.system pi.pid 0 % 2 ^ 23 ≡ get_syscall_arg w.system pi.pid 0 % 2 ^ 23)
        × (get_syscall_arg r.system pi.pid 0 / 2 ^ 24 ≡ get_syscall_arg w.system pi.pid 0 / 2 ^ 24)
        × (get_syscall_arg r.system pi.pid 1 ≡ get_syscall_arg w.system pi.pid 1)
  clone_pre_handle-flags w pinfp pi live =
      let v = get_syscall_arg w.system pi.pid 0 in
      let r = kernel.pokeuser w.system pi.pid offset_rdi (bit_clear clone_untraced v) in
      let set : get_syscall_arg r pi.pid 0 ≡ bit_clear clone_untraced v =
        unfold get_syscall_arg in
        ground (
          arith,
          registers.peekuser-pokeuser w.system pi.pid offset_rdi (bit_clear clone_untraced v) pi.pid
              offset_rdi,
        ) in
      let kept : get_syscall_arg r pi.pid 1 ≡ get_syscall_arg w.system pi.pid 1 =
        unfold get_syscall_arg in
        ground (
          arith,
          registers.peekuser-pokeuser w.system pi.pid offset_rdi (bit_clear clone_untraced v) pi.pid
              104,
        ) in
      let (clear, low, high) = clear_untraced_bits v in
      (_, clone_pre_handle_lem w pinfp pi live, rw set clear, rw set low, rw set high, kept)
