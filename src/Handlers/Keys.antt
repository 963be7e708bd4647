-- ===== src/Handlers/Keys.antt =====
-- The keys of main.c as uthash reads them: HASH_ADD_INT and HASH_FIND_INT look at the low 32 bits
-- of magic_fd, of which (fd << 31) leaves the parity of the descriptor alone.
use graftcp.Prelude.{ℕ, ◌+◌, ◌*◌, ◌%◌, ◌^◌, ◌<◌, ◌≡◌, ◌↔◌, arith}
use graftcp.Uthash.{int_key}
use graftcp.Handlers.{socket_key, pending_key}

pub int_key-socket_key :
    (fd pid : ℕ) → pid < 2 ^ 31 → int_key (socket_key fd pid) ≡ fd % 2 * 2 ^ 31 + pid
unfolding socket_key
int_key-socket_key fd pid h = ground arith

pub int_key-pending_key : (pid : ℕ) → pid < 2 ^ 31 → int_key (pending_key pid) ≡ 2 ^ 31 + pid
unfolding pending_key
int_key-pending_key pid h = ground arith

-- Two descriptors of two processes share a key exactly where the processes are one and the
-- descriptors have the same parity, and the key of a socket that waits for its descriptor is that
-- of the odd descriptors of its process.
pub socket_key_collisions :
    (fd gd pid qid : ℕ)
    → pid < 2 ^ 31
    → qid < 2 ^ 31
    → ((int_key (socket_key fd pid) ≡ int_key (socket_key gd qid))
        ↔ ((pid ≡ qid) × (fd % 2 ≡ gd % 2)))
      × ((int_key (socket_key fd pid) ≡ int_key (pending_key qid)) ↔ ((pid ≡ qid) × (fd % 2 ≡ 1)))
socket_key_collisions fd gd pid qid h k =
    rw (int_key-socket_key fd pid h, int_key-socket_key gd qid k, int_key-pending_key qid k)
      (
        (λ e. (omega arith, omega arith), λ e. omega arith),
        (λ e. (omega arith, omega arith), λ e. omega arith),
      )
