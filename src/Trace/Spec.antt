-- ===== src/Trace/Spec.antt =====
-- What the loop of do_trace in main.c is to the traced processes: a machine over the states of the
-- kernel and the phases of the processes, with no table and no heap.
use graftcp.Prelude.{ℕ, ◌≡◌, ◌≢◌, Bool, true, false, Option, none, some, ◌==◌, if◌then◌else◌}
use graftcp.Kernel.{Kernel}
use graftcp.Uthash.{int_key}
use graftcp.Tracee.{get_syscall_number, get_retval}
use graftcp.Address.{Libc}
use graftcp.Handlers.{Config}
use graftcp.Trace.{Ret, Round, success, esrch, sys_socket}
use graftcp.Trace.Acts.{Acts}
use graftcp.Trace.Phases.{Phase, Settles}
use graftcp.Trace.Signals.{is_stop, is_call_stop, is_end, delivered, after_resume}

module _ ⦃kernel : Kernel⦄ where
  open kernel use {State, wait, resume, setoptions, getsiginfo}

  -- The first event of a fresh process sets its options.
  pub data Starts (fresh : Bool) (child : ℕ) (s : State) : State → Type 0 where
    old : fresh ≡ false → Starts fresh child s s
    new : fresh ≡ true → (setoptions s child).0 ≡ 0 → Starts fresh child s (setoptions s child).1

  -- A process with the call that it is in, no longer fresh.
  abbrev pub within : Option ℕ → Phase
  within call = record { call = call; fresh = false }

  -- Why the program exits at an event, and with which status: the options of a fresh process cannot
  -- be set, or the result of a socket(2) that a process leaves cannot be read.
  pub data Exits (child status : ℕ) (s : State) (f : ℕ → Phase) : ℕ → Type 0 where
    no_options :
        (f (int_key child)).fresh ≡ true
        → (setoptions s child).0 ≢ 0
        → Exits child status s f (setoptions s child).0
    no_result :
        {t : State} (pid : ℕ)
        → int_key child ≡ int_key pid
        → Starts (f (int_key child)).fresh child s t
        → is_call_stop (getsiginfo t child) status ≡ true
        → (f (int_key child)).call ≡ some sys_socket
        → (get_retval t pid).1 ≢ 0
        → Exits child status s f (if (get_retval t pid).1 == esrch then 0 else (get_retval t pid).1)

  module _ ⦃libc : Libc⦄ (cfg : Config) where
    -- The answer to one event, from the phases f to the phases g. In a stop for a system call the
    -- process enters one, or leaves the one that it is in; it then runs on, but where it leaves a
    -- call that ends it. In any other stop it runs on, with its signal. One that has ended is let
    -- be.
    pub data Answered (child status : ℕ) (s : State) (f : ℕ → Phase)
        : Round → State → (ℕ → Phase) → Type 0 where
      passes :
          {t : State} {g : ℕ → Phase} (pid : ℕ)
          → int_key child ≡ int_key pid
          → Starts (f (int_key child)).fresh child s t
          → is_stop status ≡ true
          → is_call_stop (getsiginfo t child) status ≡ false
          → Settles (int_key child) (within (f (int_key child)).call) f g
          → Answered child status s f
              (after_resume (resume t pid (delivered (getsiginfo t child) status)).0)
              (resume t pid (delivered (getsiginfo t child) status)).1
              g
      enters :
          {t b : State} {g : ℕ → Phase} (pid : ℕ)
          → int_key child ≡ int_key pid
          → Starts (f (int_key child)).fresh child s t
          → is_call_stop (getsiginfo t child) status ≡ true
          → (f (int_key child)).call ≡ none
          → Acts cfg pid t b
          → Settles (int_key child) (within (some (get_syscall_number t pid))) f g
          → Answered child status s f (after_resume (resume b pid 0).0) (resume b pid 0).1 g
      returns :
          {t : State} {g : ℕ → Phase} (pid csn : ℕ)
          → int_key child ≡ int_key pid
          → Starts (f (int_key child)).fresh child s t
          → is_call_stop (getsiginfo t child) status ≡ true
          → (f (int_key child)).call ≡ some csn
          → is_end csn ≡ false
          → Settles (int_key child) (within none) f g
          → Answered child status s f (after_resume (resume t pid 0).0) (resume t pid 0).1 g
      leaves :
          {t : State} {g : ℕ → Phase} (csn : ℕ)
          → Starts (f (int_key child)).fresh child s t
          → is_call_stop (getsiginfo t child) status ≡ true
          → (f (int_key child)).call ≡ some csn
          → is_end csn ≡ true
          → Settles (int_key child) (within none) f g
          → Answered child status s f none t g
      ended :
          {t : State} {g : ℕ → Phase}
          → Starts (f (int_key child)).fresh child s t
          → is_stop status ≡ false
          → Settles (int_key child) (within (f (int_key child)).call) f g
          → Answered child status s f none t g

    -- A run, with the value that do_trace returns.
    pub data Runs : State → (ℕ → Phase) → Ret → State → Type 0 where
      stops : {s : State} {f : ℕ → Phase} → (wait s).0 ≡ none → Runs s f success (wait s).1
      fails :
          {s t : State} {f g : ℕ → Phase} {ret : Ret} (child status : ℕ)
          → (wait s).0 ≡ some (child, status)
          → Answered child status (wait s).1 f (some ret) t g
          → Runs s f ret t
      again :
          {s t u : State} {f g : ℕ → Phase} {ret : Ret} (child status : ℕ)
          → (wait s).0 ≡ some (child, status)
          → Answered child status (wait s).1 f none t g
          → Runs t g ret u
          → Runs s f ret u

    -- A run that comes to an exit of the program.
    pub data Quits : State → (ℕ → Phase) → ℕ → Type 0 where
      at_once :
          {s : State} {f : ℕ → Phase} {n : ℕ} (child status : ℕ)
          → (wait s).0 ≡ some (child, status)
          → Exits child status (wait s).1 f n
          → Quits s f n
      later :
          {s t : State} {f g : ℕ → Phase} {n : ℕ} (child status : ℕ)
          → (wait s).0 ≡ some (child, status)
          → Answered child status (wait s).1 f none t g
          → Quits t g n
          → Quits s f n
