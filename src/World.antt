-- ===== src/World.antt =====
-- The state of the tracer, graftcp's one process, and commands over it. The structs that main.c and
-- util.c allocate stand on a heap, so that a table and a handler can share one.
pub mod Consistent
use graftcp.Prelude.{ℕ, ◌+◌, ◌≡◌, refl, arith, Option, none, some, ◌==◌, ==_refl, if◌then◌else◌}
use mathlib.Core.Path.{fun_ext}
use graftcp.Kernel.{Kernel, TimeVal}
use graftcp.Uthash.{Uthash}

-- struct socket_info; ints are 32-bit patterns, magic_fd has 64 bits.
pub record SocketInfo : Type 0 where
  pub pid : ℕ
  pub fd : ℕ
  pub magic_fd : ℕ
  pub domain : ℕ
  pub type : ℕ
  pub conn_ti : TimeVal

-- struct proc_info; `cws` is a pointer that the code never sets.
pub record ProcInfo : Type 0 where
  pub pid : ℕ
  pub flags : ℕ
  pub csn : ℕ
  pub cws : ℕ

-- What calloc leaves in a struct.
abbrev pub zero_socket : SocketInfo
zero_socket = record {
  pid = 0;
  fd = 0;
  magic_fd = 0;
  domain = 0;
  type = 0;
  conn_ti = record { tv_sec = 0; tv_usec = 0 };
}

abbrev pub zero_proc : ProcInfo
zero_proc = record { pid = 0; flags = 0; csn = 0; cws = 0 }

unfoldable pub update {ℓ} : {A : Type ℓ} → (ℕ → A) → ℕ → A → ℕ → A
update f p v q = if q == p then v else f q

module _ {ℓ} {A : Type ℓ} (f : ℕ → A) (p : ℕ) where
  pub update_self : (v : A) → update f p v p ≡ v
  unfolding update
  update_self v = rw (==_refl p)

  pub update-update : (v u : A) → update (update f p v) p u ≡ update f p u
  unfolding update
  update-update v u = fun_ext λ q. ground arith

  pub update_lem : (v : A) (q : ℕ) → update f p v q ≡ (if q == p then v else f q)
  unfolding update
  update_lem v q = refl

module _ ⦃kernel : Kernel⦄ ⦃uthash : Uthash⦄ where
  -- The addresses from `brk` on are free; calloc is taken to succeed.
  pub record World : Type 0 where
    pub system : kernel.State
    pub socket_info_tab : uthash.Table
    pub proc_info_tab : uthash.Table
    pub sockets : ℕ → Option SocketInfo
    pub procs : ℕ → Option ProcInfo
    pub brk : ℕ

  -- `fault` is an access through a pointer to no live struct.
  pub data Outcome (A : Type 0) : Type 0 where
    done : A → World → Outcome A
    exit : ℕ → World → Outcome A
    -- execvp has put another program in place of this one.
    replaced : World → Outcome A
    fault : Outcome A
    out_of_fuel : Outcome A

  abbrev pub Cmd : Type 0 → Type 0
  Cmd A = World → Outcome A

  abbrev pub pure : {A : Type 0} → A → Cmd A
  pure a w = done a w

module _ ⦃kernel : Kernel⦄ ⦃uthash : Uthash⦄ {A B : Type 0} where
  abbrev pub and_then : Outcome A → (A → Cmd B) → Outcome B
  and_then (done a w) k = k a w
  and_then (exit n w) k = exit n w
  and_then (replaced w) k = replaced w
  and_then fault k = fault
  and_then out_of_fuel k = out_of_fuel

  infixl 5 ◌>>=◌ ◌>>◌
  abbrev pub ◌>>=◌ : Cmd A → (A → Cmd B) → Cmd B
  ◌>>=◌ m k w = and_then (m w) k

  abbrev pub ◌>>◌ : Cmd A → Cmd B → Cmd B
  ◌>>◌ m k w = and_then (m w) (λ _. k)

module _ ⦃kernel : Kernel⦄ ⦃uthash : Uthash⦄ where
  abbrev or_fault : {A : Type 0} → Option A → Cmd A
  or_fault none w = fault
  or_fault (some a) w = done a w

  -- `*p`
  unfoldable pub load_socket : ℕ → Cmd SocketInfo
  load_socket p w = or_fault (w.sockets p) w

  unfoldable pub load_proc : ℕ → Cmd ProcInfo
  load_proc p w = or_fault (w.procs p) w

  -- A write through a pointer that the code has loaded before.
  unfoldable pub store_socket : ℕ → SocketInfo → Cmd (Unit {0})
  store_socket p s w = done tt (record w { sockets = update w.sockets p (some s) })

  unfoldable pub store_proc : ℕ → ProcInfo → Cmd (Unit {0})
  store_proc p i w = done tt (record w { procs = update w.procs p (some i) })

  unfoldable pub calloc_socket : Cmd ℕ
  calloc_socket w =
      done w.brk (record w { sockets = update w.sockets w.brk (some zero_socket); brk = w.brk + 1 })

  unfoldable pub calloc_proc : Cmd ℕ
  calloc_proc w =
      done w.brk (record w { procs = update w.procs w.brk (some zero_proc); brk = w.brk + 1 })

  -- free(p): a second free would find no struct.
  unfoldable pub free_socket : ℕ → Cmd (Unit {0})
  free_socket p w =
      and_then (or_fault (w.sockets p) w)
        (λ _ w'. done tt (record w' { sockets = update w'.sockets p none }))

  -- What the kernel shows now, and a call that changes it.
  unfoldable pub ask : {A : Type 0} → (kernel.State → A) → Cmd A
  ask f w = done (f w.system) w

  unfoldable pub call : {A : Type 0} → (kernel.State → A × kernel.State) → Cmd A
  call f w = let (a, s) = f w.system in done a (record w { system = s })

  unfoldable pub run : (kernel.State → kernel.State) → Cmd (Unit {0})
  run f w = done tt (record w { system = f w.system })
