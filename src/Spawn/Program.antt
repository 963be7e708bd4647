-- ===== src/Spawn/Program.antt =====
-- What init of main.c comes to, for each result of fork.
use graftcp.Prelude.{
  ℕ, zero, suc, suc-add, ◌+◌, ◌≡◌, refl, ap, Bytes, Option, none, some, List, [], ◌∷◌, ◌++◌, get_or,
  length, replicate, length-replicate,
}
use graftcp.Kernel.{Kernel, Fork, fork_failed, in_child, in_parent}
use graftcp.Uthash.{Uthash, int_key}
use graftcp.World.{
  World, Cmd, and_then, Outcome, done, exit, replaced, ProcInfo, zero_proc, load_proc, store_proc,
  calloc_proc, call, run, update, update_self, update-update,
}
use graftcp.Tables.{alloc_proc_info, add_proc_info}
use graftcp.Trace.{flag_startup}
use graftcp.Spawn.{exec_args, do_child, exec_failed, track, forked, init}
use graftcp.Spawn.Arguments.{terminated, exec_args-terminated}

replicate-last : {A : Type 0} (n : ℕ) (v : A) → replicate (n + 1) v ≡ replicate n v ++ v ∷ []
replicate-last zero v = refl
replicate-last (suc n) v = rw (suc-add n 1) (ap (λ l. v ∷ l) (replicate-last n v))

module _ ⦃kernel : Kernel⦄ ⦃uthash : Uthash⦄ where
  -- The struct of the first process.
  abbrev pub first_proc : ℕ → ProcInfo
  first_proc child = record zero_proc { pid = child; flags = flag_startup }

  abbrev pub tracked : World → ℕ → World
  tracked w child = record w {
    proc_info_tab = uthash.add w.proc_info_tab (int_key child) w.brk;
    procs = update w.procs w.brk (some (first_proc child));
    brk = w.brk + 1;
  }

  pub track_lem : (w : World) (child : ℕ) → track child w ≡ done tt (tracked w child)
  unfolding track alloc_proc_info calloc_proc load_proc store_proc add_proc_info
  track_lem w child = simp (update_self, update-update)

  abbrev pub executed : World → Option ℕ × kernel.State → Outcome (Unit {0})
  executed w (none, k) = replaced (record w { system = k })
  executed w (some errno, k) = exit errno (record w { system = k })

  -- The child stops itself for the tracer, and then runs the first word with all of them.
  abbrev pub run_program : List Bytes → World → kernel.State → Outcome (Unit {0})
  run_program argv w k = executed w (
      kernel.execvp (kernel.stop_self (kernel.traceme k)) (get_or (terminated argv) 0 none)
        (terminated argv))

  -- By the result of fork.
  abbrev pub spawned : List Bytes → World → Fork × kernel.State → Outcome (Unit {0})
  spawned argv w (fork_failed errno, k) = exit errno (record w { system = k })
  spawned argv w (in_child, k) = run_program argv w k
  spawned argv w (in_parent child, k) = done tt (tracked (record w { system = k }) child)

  exec_failed-executed :
      (w : World) (o : Option ℕ) (k : kernel.State)
      → exec_failed o (record w { system = k }) ≡ executed w (o, k)
  unfolding exec_failed
  exec_failed-executed w none k = refl
  exec_failed-executed w (some errno) k = refl

  -- Neither outcome goes on.
  executed-ends :
      (w : World) (e : Option ℕ × kernel.State) (next : Unit {0} → Cmd (Unit {0}))
      → and_then (executed w e) next ≡ executed w e
  executed-ends w (none, k) next = refl
  executed-ends w (some errno, k) next = refl

  do_child_lem : (argv : List Bytes) (w : World) → do_child argv w ≡ run_program argv w w.system
  unfolding do_child call run exec_failed
  do_child_lem argv w =
      let argc = length argv in
      let args : exec_args (replicate (argc + 1) none) argv ≡ terminated argv = rw replicate-last (
        exec_args-terminated (replicate argc none) none argv
          (length-replicate {A = Option Bytes} argc none)) in
      rw args (exec_failed-executed w _ _)

  forked_lem :
      (argv : List Bytes) (w : World) (f : Fork) → forked argv f w ≡ spawned argv w (f, w.system)
  unfolding forked
  forked_lem argv w (fork_failed errno) = refl
  forked_lem argv w in_child = rw do_child_lem (executed-ends w _ (λ _. track 0))
  forked_lem argv w (in_parent child) = track_lem w child

  -- A failed fork ends the program with errno; the parent goes on with a new proc_info of the
  -- child's pid, which is in the table and waits for its first stop; the child asks to be traced,
  -- stops itself, and becomes the program of the first word with all the words and NULL, or ends
  -- with execvp's errno.
  pub init-spawned :
      (argv : List Bytes) (w : World) → init argv w ≡ spawned argv w (kernel.fork w.system)
  unfolding init call
  init-spawned argv w =
      forked_lem argv (record w { system = (kernel.fork w.system).1 }) (kernel.fork w.system).0
