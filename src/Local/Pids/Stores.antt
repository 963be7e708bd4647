-- ===== src/Local/Pids/Stores.antt =====
-- The lines that main.c writes to the fifo in the process map of graftcp-local: the goroutines that
-- UpdateProcessAddrInfo (local.go) starts call StorePidAddr in any order.
use mathlib.Core.List.{Memᴰ, Permᴰ}
use mathlib.Core.List.Memᴰ.{head, tail}
use mathlib.Core.List.Memᴰ
use mathlib.Core.List.Permᴰ
use graftcp.Prelude.{
  ℕ, ◌<◌, ◌^◌, ◌≡◌, refl, sym, ap, ◌∙◌, arith, Bytes, true, List, [], ◌∷◌, map, bytes_eq,
  bytes_eq_iff, bytes_eq_refl, inl, inr, Bool-cases,
}
use graftcp.Address.{decimal, fifo_line}
use graftcp.Local.{read_line}
use graftcp.Local.Lines.{avoids, shown, parse_line-fifo_line}
use graftcp.Local.Numbers.{value, value-decimal}
use graftcp.Local.Pids.{PidAddrMap, load_pid_addr, store_pid_addr, stores, store_all}
use graftcp.Local.Pids.Entries.{load-store}

Memᴰ-Permᴰ {ℓ} : {A : Type ℓ} {a : A} {xs ys : List A} → Permᴰ xs ys → Memᴰ a ys → Memᴰ a xs
Memᴰ-Permᴰ Permᴰ.nil m = m
Memᴰ-Permᴰ (Permᴰ.cons e d) (head h) = head (h ∙ sym e)
Memᴰ-Permᴰ (Permᴰ.cons e d) (tail m) = tail (Memᴰ-Permᴰ d m)
Memᴰ-Permᴰ (Permᴰ.swap e f) (head h) = tail (head (h ∙ sym f))
Memᴰ-Permᴰ (Permᴰ.swap e f) (tail (head h)) = head (h ∙ sym e)
Memᴰ-Permᴰ (Permᴰ.swap e f) (tail (tail m)) = tail (tail m)
Memᴰ-Permᴰ (Permᴰ.trans c d) m = Memᴰ-Permᴰ c (Memᴰ-Permᴰ d m)

-- Every store of the pid stores the address.
abbrev IsSole : Bytes → Bytes → List (Bytes × Bytes) → Type 0
IsSole pid addr es = (e : Bytes × Bytes) → Memᴰ e es → e.0 ≡ pid → e.1 ≡ addr

store_all-kept :
    (pid addr : Bytes) (es : List (Bytes × Bytes)) (m : PidAddrMap)
    → IsSole pid addr es
    → load_pid_addr pid m ≡ (addr, true)
    → load_pid_addr pid (store_all es m) ≡ (addr, true)
unfolding store_all
store_all-kept pid addr [] m sole h = h
store_all-kept pid addr ((p, a) ∷ es) m sole h =
    store_all-kept pid addr es (store_pid_addr p a m) (λ e q. sole e (tail q))
      (elim (Bool-cases (bytes_eq p pid)) [
        | inl same ↦
            let new = sole (p, a) (head refl) ((bytes_eq_iff p pid).0 same) in
            rw (load-store p a pid m, same, new)
        | inr other ↦ rw (load-store p a pid m, other) h
      ])

store_all-stored :
    (pid addr : Bytes) (es : List (Bytes × Bytes)) (m : PidAddrMap)
    → IsSole pid addr es
    → Memᴰ (pid, addr) es
    → load_pid_addr pid (store_all es m) ≡ (addr, true)
unfolding store_all
store_all-stored pid addr [] m sole q = elim q [ ]
store_all-stored pid addr ((p, a) ∷ es) m sole (head h) =
    let stored : load_pid_addr pid (store_pid_addr p a m) ≡ (addr, true) =
      rw (load-store p a pid m, sym (ap (λ e. e.0) h), bytes_eq_refl pid)
        (ap (λ e. (e.1, true)) (sym h)) in
    store_all-kept pid addr es (store_pid_addr p a m) (λ e q. sole e (tail q)) stored
store_all-stored pid addr ((p, a) ∷ es) m sole (tail q) =
    store_all-stored pid addr es (store_pid_addr p a m) (λ e r. sole e (tail r)) q

-- A connect that main.c tells of: the text of the destination, its port and the process.
pub record Destination : Type 0 where
  pub ip : Bytes
  pub port : ℕ
  pub pid : ℕ

-- The line of it, as ReadLine gives it.
unfoldable pub line : Destination → Bytes
line d = read_line (fifo_line d.ip d.port d.pid)

-- What graftcp-local keeps of it.
unfoldable pub entry : Destination → Bytes × Bytes
entry d = (decimal d.pid, shown d.ip (decimal d.port))

-- The text has no newline and the pid fits in an int.
unfoldable pub IsPlain : Destination → Type 0
IsPlain d = (avoids b'\n' d.ip ≡ true) × (d.pid < 2 ^ 31)

stores-lines :
    (ds : List Destination)
    → ((d : Destination) → Memᴰ d ds → IsPlain d)
    → stores (map line ds) ≡ map entry ds
unfolding stores line entry IsPlain
stores-lines [] plain = refl
stores-lines (d ∷ ds) plain =
    rw (parse_line-fifo_line d.ip d.port d.pid (plain d (head refl)).0)
      (ap (λ (es : List (Bytes × Bytes)). entry d ∷ es) (stores-lines ds (λ e q. plain e (tail q))))

entry-pid :
    (d e : Destination)
    → d.pid < 2 ^ 31
    → e.pid < 2 ^ 31
    → (entry e).0 ≡ (entry d).0
    → e.pid ≡ d.pid
unfolding entry
entry-pid d e hd he same =
    sym (value-decimal e.pid (omega arith)) ∙ ap (value 0) same ∙ value-decimal d.pid (omega arith)

from_entry :
    (ds : List Destination) (e : Bytes × Bytes)
    → Memᴰ e (map entry ds)
    → (d : Destination) × Memᴰ d ds × (e ≡ entry d)
from_entry [] e q = elim q [ ]
from_entry (d ∷ ds) e (head h) = (d, head refl, h)
from_entry (d ∷ ds) e (tail q) = let (d', r, h) = from_entry ds e q in (d', tail r, h)

-- Whatever the order in which the goroutines of the lines run, and whatever the map held before,
-- the map then gives for the pid of a connect its destination: where every line is of an address
-- with no newline and of a pid that fits in an int, and no other line of the pid has another
-- destination.
pub load-stores :
    (ds : List Destination) (es : List (Bytes × Bytes)) (m : PidAddrMap) (d : Destination)
    → ((e : Destination) → Memᴰ e ds → IsPlain e)
    → Permᴰ es (stores (map line ds))
    → Memᴰ d ds
    → ((e : Destination) → Memᴰ e ds → e.pid ≡ d.pid → e ≡ d)
    → load_pid_addr (decimal d.pid) (store_all es m) ≡ (shown d.ip (decimal d.port), true)
unfolding IsPlain entry
load-stores ds es m d plain order mem sole =
    store_all-stored (entry d).0 (entry d).1 es m only (Memᴰ-Permᴰ moved (Memᴰ.map entry mem))
  where
    moved : Permᴰ es (map entry ds)
    moved = rw (stores-lines ds plain) at order

    only : IsSole (entry d).0 (entry d).1 es
    only e q same =
        let (d', r, h) = from_entry ds e (Memᴰ-Permᴰ (Permᴰ.symm moved) q) in
        let pids = entry-pid d d' (plain d mem).1 (plain d' r).1 (ap (λ x. x.0) (sym h) ∙ same) in
        ap (λ x. x.1) h ∙ ap (λ x. (entry x).1) (sole d' r pids)
