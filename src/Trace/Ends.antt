-- ===== src/Trace/Ends.antt =====
-- What the parts of a round of do_trace of main.c come to: they keep the tables consistent and
-- follow no dangling pointer.
use graftcp.Prelude.{ℕ, ◌≡◌, some}
use graftcp.Kernel.{Kernel}
use graftcp.Uthash.{Uthash, UthashLaws, int_key}
use graftcp.World.{World, Cmd, Outcome, done, exit, ProcInfo, and_then}
use graftcp.World.Consistent.{IsConsistent}
use graftcp.Tracee.Reaches.{Reaches, Reaches-trans}

module _ ⦃kernel : Kernel⦄ ⦃uthash : Uthash⦄ ⦃laws : UthashLaws⦄ where
  -- The live proc_info of a process, as the table's keys tell processes apart.
  abbrev pub IsLive : ℕ → ℕ → World → Type 0
  IsLive child p w =
      (i : ProcInfo) × (w.procs p ≡ some i)
      × (int_key child ≡ int_key i.pid)
      × (uthash.find w.proc_info_tab (int_key child) ≡ some p)

  -- The program goes on in a consistent world, with no wait in between, or it exits for a reason
  -- that E gives.
  abbrev pub Ends : {A : Type 0} → World → (ℕ → Type 0) → (A → World → Type 0) → Outcome A → Type 0
  Ends w E Q (done a r) = IsConsistent r × Reaches w.system r.system × Q a r
  Ends w E Q (exit n r) = E n
  Ends w E Q (Outcome.replaced r) = ⊥
  Ends w E Q Outcome.fault = ⊥
  Ends w E Q Outcome.out_of_fuel = ⊥

  pub Ends-onward :
      {A : Type 0} (E : ℕ → Type 0) (Q : A → World → Type 0) (v u : World) (o : Outcome A)
      → Reaches v.system u.system
      → Ends u E Q o
      → Ends v E Q o
  Ends-onward E Q v u (done a r) reach e = (e.0, Reaches-trans reach e.1, e.2)
  Ends-onward E Q v u (exit n r) reach e = e
  Ends-onward E Q v u (Outcome.replaced r) reach e = e
  Ends-onward E Q v u Outcome.fault reach e = e
  Ends-onward E Q v u Outcome.out_of_fuel reach e = e

  pub Ends-bind :
      {A B : Type 0} (E : ℕ → Type 0) (Q : A → World → Type 0) (R : B → World → Type 0) (w : World)
      (o : Outcome A) (k : A → Cmd B)
      → Ends w E Q o
      → ((a : A) (r : World)
          → IsConsistent r
          → Reaches w.system r.system
          → Q a r
          → Ends r E R (k a r))
      → Ends w E R (and_then o k)
  Ends-bind E Q R w (done a r) k h next = Ends-onward E R w r (k a r) h.1 (next a r h.0 h.1 h.2)
  Ends-bind E Q R w (exit n r) k h next = h
  Ends-bind E Q R w (Outcome.replaced r) k h next = absurd h
  Ends-bind E Q R w Outcome.fault k h next = absurd h
  Ends-bind E Q R w Outcome.out_of_fuel k h next = absurd h

  pub Ends-weaken :
      {A : Type 0} (E F : ℕ → Type 0) (Q R : A → World → Type 0) (w : World) (o : Outcome A)
      → ((n : ℕ) → E n → F n)
      → ((a : A) (r : World) → Q a r → R a r)
      → Ends w E Q o
      → Ends w F R o
  Ends-weaken E F Q R w (done a r) g f h = (h.0, h.1, f a r h.2)
  Ends-weaken E F Q R w (exit n r) g f h = g n h
  Ends-weaken E F Q R w (Outcome.replaced r) g f h = h
  Ends-weaken E F Q R w Outcome.fault g f h = h
  Ends-weaken E F Q R w Outcome.out_of_fuel g f h = h
