-- ===== src/Spawn.antt =====
-- The start of the traced program in main.c: init forks, do_child runs the program in the child.
pub mod Arguments
pub mod Program
use graftcp.Prelude.{
  ℕ, ◌+◌, Bytes, Option, none, some, List, [], ◌∷◌, length, set, get_or, replicate, bit_set,
}
use graftcp.Kernel.{Kernel, Fork, fork_failed, in_child, in_parent}
use graftcp.Uthash.{Uthash}
use graftcp.World.{
  World, Cmd, Outcome, exit, replaced, ◌>>=◌, ◌>>◌, pure, load_proc, store_proc, call, run,
}
use graftcp.Tables.{alloc_proc_info}
use graftcp.Trace.{flag_startup}

-- `for (i = 0; i < argc; i++) args[i] = argv[i];` from i on, where NULL is `none`.
pub copy_args : List Bytes → ℕ → List (Option Bytes) → List (Option Bytes)
copy_args [] i args = args
copy_args (a ∷ argv) i args = copy_args argv (i + 1) (set args i (some a))

-- The array `args` of do_child, which holds anything at first.
unfoldable pub exec_args : List (Option Bytes) → List Bytes → List (Option Bytes)
unfolding copy_args
exec_args args argv = set (copy_args argv 0 args) (length argv) none

module _ ⦃kernel : Kernel⦄ ⦃uthash : Uthash⦄ where
  open kernel use {fork, traceme, stop_self, execvp}

  pub exec_failed : Option ℕ → Cmd (Unit {0})
  exec_failed none w = replaced w
  exec_failed (some errno) w = exit errno w

  unfoldable pub do_child : List Bytes → Cmd (Unit {0})
  unfolding exec_failed
  do_child argv = do
    let args = exec_args (replicate (length argv + 1) none) argv
    run traceme
    run stop_self
    errno ← call (λ s. execvp s (get_or args 0 none) args)
    exec_failed errno

  -- From `pi = alloc_proc_info(child)` on.
  pub track : ℕ → Cmd (Unit {0})
  track child = do
    p ← alloc_proc_info child
    pi ← load_proc p
    store_proc p (record pi { flags = bit_set flag_startup pi.flags })

  -- The branches on the result of fork.
  pub forked : List Bytes → Fork → Cmd (Unit {0})
  unfolding track
  forked argv (fork_failed errno) = exit errno
  forked argv in_child = do_child argv >> track 0
  forked argv (in_parent child) = track child

  unfoldable pub init : List Bytes → Cmd (Unit {0})
  unfolding forked
  init argv = do child ← call fork; forked argv child
