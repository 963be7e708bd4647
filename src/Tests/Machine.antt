-- ===== src/Tests/Machine.antt =====
-- A machine in place of the kernel that main.c and util.c call: every assumption on the kernel
-- holds of it.
use graftcp.Prelude.{
  ℕ, zero, suc, ◌+◌, ◌-◌, ◌*◌, ◌/◌, ◌%◌, ◌≤◌, ◌<◌, ◌≡◌, refl, arith, Bytes, true, ◌&&◌, Option,
  none, some, List, [], ◌∷◌, ◌++◌, ltb, leb, ◌==◌, if◌then◌else◌, get_or, le_bytes, le_word, length,
}
use native.Mathlib.Nat.{le_refl}
use graftcp.Kernel.{Kernel, Fork}
use graftcp.Tracee.Memory.{MemoryLaws, bytes_at}
use graftcp.Tracee.Fifo.{FifoLaws}
use graftcp.Tracee.Reaches.{EventLaws}
use graftcp.Tracee.Registers.{RegisterLaws}
use graftcp.Handlers.Close.{ClockLaws}

pub record Machine : Type 0 where
  pub memory : ℕ → ℕ → ℕ
  pub registers : ℕ → ℕ → ℕ
  pub clock : ℕ
  pub sent : List Bytes
  pub queue : List (ℕ × ℕ)
  -- The result of fork to come.
  pub fork : Fork

pub poke : (ℕ → ℕ → ℕ) → ℕ → ℕ → ℕ → ℕ → ℕ → ℕ
poke f pid a w q b =
    if pid == q && (leb a b && ltb b (a + 8)) then get_or (le_bytes 8 w) (b - a) 0 else f q b

pub next_event : Machine → List (ℕ × ℕ) → Option (ℕ × ℕ) × Machine
next_event m [] = (none, m)
next_event m (e ∷ rest) = (some e, record m { queue = rest })

pub next_event-lines : (m : Machine) (q : List (ℕ × ℕ)) → (next_event m q).1.sent ≡ m.sent
unfolding next_event
next_event-lines m [] = refl
next_event-lines m (e ∷ rest) = refl

-- ENOENT where there is no program, and EFAULT for NULL.
pub exec_result : Option Bytes → Option ℕ
exec_result none = some 14
exec_result (some f) = if length f == 0 then some 2 else none

instance abbrev pub machine : Kernel
machine = record {
  State = Machine;
  peekuser = λ m pid o. (m.registers pid o, 0);
  pokeuser = λ m pid o v. record m {
    registers = λ q p. if q == pid && p == o then v else m.registers q p;
  };
  peekdata = λ m pid a. le_word (bytes_at (λ b. m.memory pid b % 256) a 8);
  pokedata = λ m pid a w. record m { memory = poke m.memory pid a w };
  setoptions = λ m pid. (0, m);
  getsiginfo = λ m pid. true;
  resume = λ m pid sig. (0, m);
  wait = λ m. next_event m m.queue;
  gettimeofday = λ m. record { tv_sec = m.clock / 1000000; tv_usec = m.clock % 1000000 };
  usleep = λ m n. record m { clock = m.clock + n };
  fork = λ m. (m.fork, m);
  traceme = λ m. m;
  stop_self = λ m. m;
  execvp = λ m f args. (exec_result f, m);
  write_fifo = λ m b. (true, record m { sent = m.sent ++ b ∷ [] });
}

pub get_or-le_bytes-lt : (n w i : ℕ) → get_or (le_bytes n w) i 0 < 256
unfolding le_bytes
get_or-le_bytes-lt zero w i = omega arith
get_or-le_bytes-lt (suc n) w zero = omega arith
get_or-le_bytes-lt (suc n) w (suc i) = get_or-le_bytes-lt n (w / 256) i

pub poke-byte :
    (f : ℕ → ℕ → ℕ) (pid a w q b : ℕ)
    → poke f pid a w q b % 256 ≡ (
        if pid == q && (leb a b && ltb b (a + 8))
        then get_or (le_bytes 8 w) (b - a) 0
        else f q b % 256)
unfolding poke
poke-byte f pid a w q b = ground (arith, get_or-le_bytes-lt 8 w (b - a))

instance abbrev pub machine_memory : MemoryLaws ⦃kernel = machine⦄
machine_memory = record {
  byte = λ m pid a. m.memory pid a % 256;
  mapped = λ m pid a. true;
  byte-lt = λ m pid a. byte_lt (m.memory pid a);
  peekdata-byte = λ m pid a h. refl;
  byte-pokedata = λ m pid a w q b h. poke-byte m.memory pid a w q b;
  mapped-pokedata = λ m pid a w q b. refl;
}
  where
    byte_lt : (v : ℕ) → v % 256 < 256
    byte_lt v = omega arith

instance abbrev pub machine_fifo : FifoLaws ⦃kernel = machine⦄ ⦃memory = machine_memory⦄
machine_fifo = record {
  lines = λ m. m.sent;
  lines-write_fifo = λ m b. refl;
  lines-pokedata = λ m pid a v. refl;
  byte-write_fifo = λ m b q a. refl;
}

instance abbrev pub machine_registers : RegisterLaws ⦃kernel = machine⦄
machine_registers = record { peekuser-pokeuser = λ m pid o v q p. refl }

pub clock_runs :
    (c n : ℕ)
    → c / 1000000 * 1000000 + c % 1000000 + n ≤ (c + n) / 1000000 * 1000000 + (c + n) % 1000000
clock_runs c n = omega arith

pub usec_lt : (c : ℕ) → c % 1000000 < 1000000
usec_lt c = omega arith

instance abbrev pub machine_clock : ClockLaws ⦃kernel = machine⦄
machine_clock = record {
  gettimeofday-IsTime = λ m. usec_lt m.clock;
  gettimeofday-usleep = λ m n. clock_runs m.clock n;
}

pub next_event-shorter :
    (m : Machine) (q : List (ℕ × ℕ)) (e : ℕ × ℕ)
    → m.queue ≡ q
    → (next_event m q).0 ≡ some e
    → length (next_event m q).1.queue < length q
unfolding next_event
next_event-shorter m [] e h k = cc
next_event-shorter m (x ∷ q) e h k = omega arith

instance abbrev pub machine_schedule : EventLaws ⦃kernel = machine⦄
machine_schedule = record {
  events = λ m. length m.queue;
  events-wait = λ m e h. next_event-shorter m m.queue e refl h;
  events-pokeuser = λ m pid o v. le_refl (length m.queue);
  events-pokedata = λ m pid a v. le_refl (length m.queue);
  events-setoptions = λ m pid. le_refl (length m.queue);
  events-resume = λ m pid sig. le_refl (length m.queue);
  events-usleep = λ m n. le_refl (length m.queue);
  events-write_fifo = λ m b. le_refl (length m.queue);
}
