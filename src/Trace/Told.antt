-- ===== src/Trace/Told.antt =====
-- The lines that a run of do_trace of main.c leaves in the fifo.
use mathlib.Core.List.{append-nil, append_assoc}
use graftcp.Prelude.{
  ℕ, ◌≡◌, refl, ◌∙◌, ap, Bytes, Bool, false, List, [], ◌∷◌, ◌++◌, map, Bool-cases, inl, inr, length,
  replicate, ◌<◌, if◌then◌else◌,
}
use graftcp.Kernel.{Kernel}
use graftcp.Uthash.{Uthash, UthashLaws}
use graftcp.World.{World, Outcome, done, exit, replaced, fault, out_of_fuel}
use graftcp.World.Consistent.{IsConsistent}
use graftcp.Tracee.{putdata, get_syscall_arg}
use graftcp.Tracee.Memory.{MemoryLaws}
use graftcp.Tracee.Fifo.{FifoLaws, lines-putdata}
use graftcp.Tracee.Reaches.{EventLaws}
use graftcp.Address.{Libc, fifo_line}
use graftcp.Filter.{is_ignore}
use graftcp.Handlers.{Config}
use graftcp.Handlers.Connect.{Destination}
use graftcp.Trace.{Ret, Round, do_trace}
use graftcp.Trace.Acts.{Acts, nothing, redirects, untraces, delays}
use graftcp.Trace.Phases.{Phase, phase_of}
use graftcp.Trace.Spec.{
  Starts, old, new, Answered, passes, enters, returns, leaves, ended, Runs, stops, fails, again,
  Quits,
}
use graftcp.Trace.Loop.{Follows, do_trace-Follows}

-- No other call of the kernel than a write to it changes the fifo. (lines-pokedata is one of
-- FifoLaws.)
pub record ApartLaws ⦃kernel : Kernel⦄ ⦃memory : MemoryLaws⦄ ⦃fifo : FifoLaws⦄ : Type 0 where
  pub lines-pokeuser :
      (s : kernel.State) (pid o v : ℕ) → fifo.lines (kernel.pokeuser s pid o v) ≡ fifo.lines s
  pub lines-setoptions :
      (s : kernel.State) (pid : ℕ) → fifo.lines (kernel.setoptions s pid).1 ≡ fifo.lines s
  pub lines-resume :
      (s : kernel.State) (pid sig : ℕ) → fifo.lines (kernel.resume s pid sig).1 ≡ fifo.lines s
  pub lines-wait : (s : kernel.State) → fifo.lines (kernel.wait s).1 ≡ fifo.lines s
  pub lines-usleep : (s : kernel.State) (n : ℕ) → fifo.lines (kernel.usleep s n) ≡ fifo.lines s

-- A process and where it connects to, and the line that tells of it.
abbrev pub told : ℕ × Destination → Bytes
told (pid, d) = fifo_line d.ip d.port pid

-- Of a destination that the lists do not exclude.
unfoldable pub AreNew : Config → List (ℕ × Destination) → Type 0
AreNew cfg [] = Unit {0}
AreNew cfg ((pid, d) ∷ ds) = (is_ignore cfg.lists d.ip ≡ false) × AreNew cfg ds

AreNew-append :
    (cfg : Config) (ds es : List (ℕ × Destination))
    → AreNew cfg ds
    → AreNew cfg es
    → AreNew cfg (ds ++ es)
unfolding AreNew
AreNew-append cfg [] es h k = k
AreNew-append cfg (d ∷ ds) es h k = (h.0, AreNew-append cfg ds es h.1 k)

map-append : (ds es : List (ℕ × Destination)) → map told (ds ++ es) ≡ map told ds ++ map told es
map-append [] es = refl
map-append (d ∷ ds) es = ap (λ (l : List Bytes). told d ∷ l) (map-append ds es)

module _ ⦃kernel : Kernel⦄ ⦃libc : Libc⦄ (cfg : Config) where
  open kernel use {State}

  -- The line that one stop has told: that of the connect that it has redirected, where the write to
  -- the fifo has gone through.
  unfoldable pub told_by : {pid : ℕ} {s t : State} → Acts cfg pid s t → List (ℕ × Destination)
  told_by nothing = []
  told_by (untraces call) = []
  told_by (delays n call few) = []
  told_by {pid} {s} (redirects d call to unlisted) =
      let addr = get_syscall_arg s pid 1 in
      let k = putdata (replicate 8 0) s pid addr d.proxy (length d.proxy) in
      if (kernel.write_fifo k (told (pid, d))).0 then (pid, d) ∷ [] else []

  unfoldable pub answer_told :
      {child status : ℕ} {s t : State} {f g : ℕ → Phase} {round : Round}
      → Answered cfg child status s f round t g
      → List (ℕ × Destination)
  answer_told (passes pid same st stop no_call set) = []
  answer_told (enters pid same st called idle acts set) = told_by acts
  answer_told (returns pid csn same st called inside going set) = []
  answer_told (leaves csn st called inside over set) = []
  answer_told (ended st stop set) = []

  -- The redirected connects of a run, in their order, whose lines have been written.
  unfoldable pub said :
      {s t : State} {f : ℕ → Phase} {ret : Ret} → Runs cfg s f ret t → List (ℕ × Destination)
  said (stops over) = []
  said (fails child status got a) = answer_told a
  said (again child status got a more) = answer_told a ++ said more

  told_by-AreNew : {pid : ℕ} {s t : State} (a : Acts cfg pid s t) → AreNew cfg (told_by a)
  unfolding told_by AreNew
  told_by-AreNew nothing = tt
  told_by-AreNew (untraces call) = tt
  told_by-AreNew (delays n call few) = tt
  told_by-AreNew {pid} {s} (redirects d call to unlisted) =
      let k = putdata (replicate 8 0) s pid (get_syscall_arg s pid 1) d.proxy (length d.proxy) in
      elim (Bool-cases (kernel.write_fifo k (told (pid, d))).0) [
        | inl sent ↦ rw sent (unlisted, tt)
        | inr lost ↦ rw lost tt
      ]

  answer_told-AreNew :
      {child status : ℕ} {s t : State} {f g : ℕ → Phase} {round : Round}
      (a : Answered cfg child status s f round t g)
      → AreNew cfg (answer_told a)
  unfolding answer_told AreNew
  answer_told-AreNew (passes pid same st stop no_call set) = tt
  answer_told-AreNew (enters pid same st called idle acts set) = told_by-AreNew acts
  answer_told-AreNew (returns pid csn same st called inside going set) = tt
  answer_told-AreNew (leaves csn st called inside over set) = tt
  answer_told-AreNew (ended st stop set) = tt

  said-AreNew :
      {s t : State} {f : ℕ → Phase} {ret : Ret} (run : Runs cfg s f ret t) → AreNew cfg (said run)
  unfolding said AreNew
  said-AreNew (stops over) = tt
  said-AreNew (fails child status got a) = answer_told-AreNew a
  said-AreNew (again child status got a more) =
      AreNew-append cfg (answer_told a) (said more) (answer_told-AreNew a) (said-AreNew more)

module _ ⦃kernel : Kernel⦄ ⦃memory : MemoryLaws⦄ ⦃fifo : FifoLaws⦄ ⦃apart : ApartLaws⦄ ⦃libc : Libc⦄
    (cfg : Config) where
  open kernel use {State}

  -- From s to t the fifo gets the lines of these, and nothing else.
  abbrev pub Tells : State → State → List (ℕ × Destination) → Type 0
  Tells s t ds = fifo.lines t ≡ fifo.lines s ++ map told ds

  Tells-none : (s t : State) → fifo.lines t ≡ fifo.lines s → Tells s t []
  Tells-none s t e = rw append-nil e

  Tells-trans :
      (s t u : State) (ds es : List (ℕ × Destination))
      → Tells s t ds
      → Tells t u es
      → Tells s u (ds ++ es)
  Tells-trans s t u ds es e f =
      rw (f, e, map-append ds es) (append_assoc (fifo.lines s) (map told ds) (map told es))

  Acts-Tells : {pid : ℕ} {s t : State} (a : Acts cfg pid s t) → Tells s t (told_by cfg a)
  unfolding told_by
  Acts-Tells {s} nothing = Tells-none s s refl
  Acts-Tells {pid} {s} {t} (untraces call) = Tells-none s t (apart.lines-pokeuser s pid _ _)
  Acts-Tells {s} {t} (delays n call few) = Tells-none s t (apart.lines-usleep s n)
  Acts-Tells {pid} {s} {t} (redirects d call to unlisted) =
      let addr = get_syscall_arg s pid 1 in
      let k = putdata (replicate 8 0) s pid addr d.proxy (length d.proxy) in
      let same = lines-putdata (replicate 8 0) s pid addr d.proxy (length d.proxy) in
      let wrote = fifo.lines-write_fifo k (told (pid, d)) in
      elim (Bool-cases (kernel.write_fifo k (told (pid, d))).0) [
        | inl sent ↦ rw (wrote, sent, same) refl
        | inr lost ↦ rw (lost) (Tells-none s t (rw (wrote, lost, same) refl))
      ]

  started-lines :
      {b : Bool} {child : ℕ} {s t : State} → Starts b child s t → fifo.lines t ≡ fifo.lines s
  started-lines (old known) = refl
  started-lines {child} {s} (new fresh fine) = apart.lines-setoptions s child

  Answered-Tells :
      {child status : ℕ} {s t : State} {f g : ℕ → Phase} {round : Round}
      (a : Answered cfg child status s f round t g)
      → Tells s t (answer_told cfg a)
  unfolding answer_told
  Answered-Tells {s} {t} (passes {t = v} pid same st stop no_call set) =
      Tells-none s t (apart.lines-resume v pid _ ∙ started-lines st)
  Answered-Tells {s} {t} (enters {t = v} {b} pid same st called idle acts set) =
      apart.lines-resume b pid 0
      ∙ Acts-Tells acts
      ∙ ap (λ (l : List Bytes). l ++ map told (told_by cfg acts)) (started-lines st)
  Answered-Tells {s} {t} (returns {t = v} pid csn same st called inside going set) =
      Tells-none s t (apart.lines-resume v pid 0 ∙ started-lines st)
  Answered-Tells {s} {t} (leaves csn st called inside over set) = Tells-none s t (started-lines st)
  Answered-Tells {s} {t} (ended st stop set) = Tells-none s t (started-lines st)

  waited : (s t : State) (ds : List (ℕ × Destination)) → Tells (kernel.wait s).1 t ds → Tells s t ds
  waited s t ds e = e ∙ ap (λ (l : List Bytes). l ++ map told ds) (apart.lines-wait s)

  pub Runs-Tells :
      {s t : State} {f : ℕ → Phase} {ret : Ret} (run : Runs cfg s f ret t)
      → Tells s t (said cfg run)
  unfolding said
  Runs-Tells {s} {t} (stops over) = Tells-none s t (apart.lines-wait s)
  Runs-Tells {s} {t} (fails child status got a) = waited s t (answer_told cfg a) (Answered-Tells a)
  Runs-Tells {s} {t} (again {t = v} child status got a more) =
      let said_ = answer_told cfg a in
      Tells-trans s v t said_ (said cfg more) (waited s v said_ (Answered-Tells a))
        (Runs-Tells more)

  module _ ⦃uthash : Uthash⦄ ⦃laws : UthashLaws⦄ ⦃schedule : EventLaws⦄ where
    -- Where the loop returns, it is a run of the machine of Spec, and the fifo has got the lines of
    -- the redirected connects of this run.
    abbrev pub TellsOnly : State → (ℕ → Phase) → Outcome Ret → Type 0
    TellsOnly s f (done ret r) =
        (run : Runs cfg s f ret r.system) × AreNew cfg (said cfg run)
        × Tells s r.system (said cfg run)
    TellsOnly s f (exit n r) = Quits cfg s f n
    TellsOnly s f (replaced r) = ⊥
    TellsOnly s f fault = ⊥
    TellsOnly s f out_of_fuel = ⊥

    Follows-TellsOnly :
        (s : State) (f : ℕ → Phase) (o : Outcome Ret) → Follows cfg s f o → TellsOnly s f o
    Follows-TellsOnly s f (done ret r) h = (h.1, said-AreNew cfg h.1, Runs-Tells h.1)
    Follows-TellsOnly s f (exit n r) h = h
    Follows-TellsOnly s f (replaced r) h = h
    Follows-TellsOnly s f fault h = h
    Follows-TellsOnly s f out_of_fuel h = h

    -- From a consistent world, with one round more than wait has events left, do_trace is a
    -- run of the machine of Trace/Spec that has left in the fifo exactly the lines of the
    -- connects that it has redirected, in their order: each line has the address and the
    -- port that the process had written for that connect, which the lists do not exclude,
    -- and the number of the process. A line whose write fails is left out. Or the program
    -- exits as the machine does. Only a write to the fifo changes it.
    pub do_trace-TellsOnly :
        (fuel : ℕ) (w : World)
        → IsConsistent w
        → schedule.events w.system < fuel
        → TellsOnly w.system (phase_of w) (do_trace cfg fuel w)
    do_trace-TellsOnly fuel w c few =
        Follows-TellsOnly w.system (phase_of w) (do_trace cfg fuel w)
          (do_trace-Follows cfg fuel w c few)
