-- ===== src/Spawn/Arguments.antt =====
-- The array that do_child of main.c hands to execvp.
use graftcp.Prelude.{
  suc, ◌+◌, ◌≡◌, refl, ap, arith, Bytes, Option, none, some, List, [], ◌∷◌, ◌++◌, map, length,
  length-append, set,
}
use mathlib.Core.List.{append_assoc}
use graftcp.Spawn.{copy_args, exec_args}

-- The array of execvp: the words of the command, and NULL behind them.
abbrev pub terminated : List Bytes → List (Option Bytes)
terminated argv = map some argv ++ none ∷ []

set-append :
    {A : Type 0} (pre : List A) (x v : A) (rest : List A)
    → set (pre ++ x ∷ rest) (length pre) v ≡ pre ++ v ∷ rest
set-append [] x v rest = refl
set-append (p ∷ pre) x v rest = ap (λ l. p ∷ l) (set-append pre x v rest)

length-concat : {A : Type 0} (pre : List A) (v : A) → length (pre ++ v ∷ []) ≡ length pre + 1
length-concat pre v = omega (arith, length-append pre (v ∷ []))

copy_args-append :
    (argv : List Bytes) (pre : List (Option Bytes)) (rest : List (Option Bytes))
    (junk : Option Bytes)
    → length rest ≡ length argv
    → copy_args argv (length pre) (pre ++ (rest ++ junk ∷ [])) ≡ pre ++ (map some argv ++ junk ∷ [])
unfolding copy_args
copy_args-append [] pre [] junk h = refl
copy_args-append [] pre (x ∷ rest) junk h = absurd (omega arith)
copy_args-append (a ∷ argv) pre [] junk h = absurd (omega arith)
copy_args-append (a ∷ argv) pre (x ∷ rest) junk h =
    rw
      (
        set-append pre x (some a),
        ← length-concat pre (some a),
        ← append_assoc pre (some a ∷ []) (rest ++ junk ∷ []),
        ← append_assoc pre (some a ∷ []) (map some argv ++ junk ∷ []),
      )
      (copy_args-append argv (pre ++ some a ∷ []) rest junk (omega arith))

length-map-some : (argv : List Bytes) → length (map some argv) ≡ length argv
length-map-some [] = refl
length-map-some (a ∷ argv) = ap suc (length-map-some argv)

-- Whatever the array of one place more than there are words holds at first, do_child fills it with
-- the words in their order and NULL in the last place.
pub exec_args-terminated :
    (rest : List (Option Bytes)) (junk : Option Bytes) (argv : List Bytes)
    → length rest ≡ length argv
    → exec_args (rest ++ junk ∷ []) argv ≡ terminated argv
unfolding exec_args
exec_args-terminated rest junk argv h =
    rw (copy_args-append argv [] rest junk h, ← length-map-some argv)
      (set-append (map some argv) junk none [])
