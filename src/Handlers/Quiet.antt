-- ===== src/Handlers/Quiet.antt =====
-- How a command changes the state of the kernel, and the commands that do not: those that work on
-- the tracer's own heap and tables.
use graftcp.Prelude.{ℕ, ◌≡◌, refl, Bool, true, false, if◌then◌else◌, Option-cases, inl, inr}
use graftcp.Kernel.{Kernel}
use graftcp.Uthash.{Uthash}
use graftcp.World.{
  World, Cmd, Outcome, done, exit, replaced, fault, out_of_fuel, and_then, ProcInfo, SocketInfo,
  ◌>>=◌, pure, load_socket, load_proc, store_socket, store_proc, calloc_socket, free_socket, ask,
}
use graftcp.Tables.{add_socket_info, del_socket_info, find_socket_info}

module _ ⦃kernel : Kernel⦄ ⦃uthash : Uthash⦄ where
  open kernel use {State}

  -- How the kernel's state changes where the program goes on.
  abbrev pub Changes : {A : Type 0} → (State → Type 0) → Outcome A → Type 0
  Changes Q (done a r) = Q r.system
  Changes Q (exit n r) = Unit {0}
  Changes Q (replaced r) = Unit {0}
  Changes Q fault = Unit {0}
  Changes Q out_of_fuel = Unit {0}

  abbrev pub Quiet : {A : Type 0} → Cmd A → Type 0
  Quiet m = (w : World) → Changes (λ s. s ≡ w.system) (m w)

  pub Changes-then :
      {A B : Type 0} (Q : State → Type 0) (o : Outcome A) (k : A → Cmd B)
      → Changes Q o
      → ((a : A) → Quiet (k a))
      → Changes Q (and_then o k)
  Changes-then Q (done a r) k h quiet = moved (k a r) (quiet a r)
    where
      moved : {C : Type 0} (o : Outcome C) → Changes (λ s. s ≡ r.system) o → Changes Q o
      moved (done b v) e = rw e h
      moved (exit n v) e = tt
      moved (replaced v) e = tt
      moved fault e = tt
      moved out_of_fuel e = tt
  Changes-then Q (exit n r) k h quiet = tt
  Changes-then Q (replaced r) k h quiet = tt
  Changes-then Q fault k h quiet = tt
  Changes-then Q out_of_fuel k h quiet = tt

  pub Quiet-bind :
      {A B : Type 0} (m : Cmd A) (k : A → Cmd B)
      → Quiet m
      → ((a : A) → Quiet (k a))
      → Quiet (m >>= k)
  Quiet-bind m k h next w = Changes-then (λ s. s ≡ w.system) (m w) k (h w) next

  pub Quiet-if :
      {A : Type 0} (b : Bool) (m n : Cmd A) → Quiet m → Quiet n → Quiet (if b then m else n)
  Quiet-if true m n h k = h
  Quiet-if false m n h k = k

  pub Quiet-pure : {A : Type 0} (a : A) → Quiet (pure a)
  Quiet-pure a w = refl

  pub Quiet-ask : {A : Type 0} (f : State → A) → Quiet (ask f)
  unfolding ask
  Quiet-ask f w = refl

  pub Quiet-load_proc : (p : ℕ) → Quiet (load_proc p)
  unfolding load_proc
  Quiet-load_proc p w = elim (Option-cases (w.procs p)) [ inl e ↦ rw e tt | inr (i, e) ↦ rw e refl ]

  pub Quiet-load_socket : (p : ℕ) → Quiet (load_socket p)
  unfolding load_socket
  Quiet-load_socket p w = elim (Option-cases (w.sockets p)) [
    | inl e ↦ rw e tt
    | inr (i, e) ↦ rw e refl
  ]

  pub Quiet-store_proc : (p : ℕ) (i : ProcInfo) → Quiet (store_proc p i)
  unfolding store_proc
  Quiet-store_proc p i w = refl

  pub Quiet-store_socket : (p : ℕ) (s : SocketInfo) → Quiet (store_socket p s)
  unfolding store_socket
  Quiet-store_socket p s w = refl

  pub Quiet-calloc_socket : Quiet calloc_socket
  unfolding calloc_socket
  Quiet-calloc_socket w = refl

  pub Quiet-free_socket : (p : ℕ) → Quiet (free_socket p)
  unfolding free_socket
  Quiet-free_socket p w = elim (Option-cases (w.sockets p)) [
    | inl e ↦ rw e tt
    | inr (i, e) ↦ rw e refl
  ]

  pub Quiet-add_socket_info : (p : ℕ) → Quiet (add_socket_info p)
  unfolding add_socket_info
  Quiet-add_socket_info p w = elim (Option-cases (w.sockets p)) [
    | inl e ↦ rw e tt
    | inr (i, e) ↦ rw e refl
  ]

  pub Quiet-del_socket_info : (p : ℕ) → Quiet (del_socket_info p)
  unfolding del_socket_info
  Quiet-del_socket_info p w = refl

  pub Quiet-find_socket_info : (k : ℕ) → Quiet (find_socket_info k)
  unfolding find_socket_info
  Quiet-find_socket_info k w = refl

  pub ruleset quiet = (
    Quiet-bind, Quiet-if, Quiet-pure, Quiet-ask, Quiet-load_proc, Quiet-load_socket,
    Quiet-store_proc, Quiet-store_socket, Quiet-calloc_socket, Quiet-free_socket,
    Quiet-add_socket_info, Quiet-del_socket_info, Quiet-find_socket_info,
  )
