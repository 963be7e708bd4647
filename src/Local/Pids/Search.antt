-- ===== src/Local/Pids/Search.antt =====
-- The search of getPidByAddr (local.go) in the process map, over its three tries.
use mathlib.Core.List.{Memᴰ}
use mathlib.Core.List.Memᴰ.{head, tail}
use graftcp.Prelude.{
  ℕ, zero, suc, ◌+◌, ◌≡◌, refl, arith, Bytes, Bool, true, false, ◌||◌, [], ◌∷◌, some, ◌==◌, ◌⊎◌,
  inl, inr, Bool-cases, length,
}
use graftcp.Local.Pids.{
  PidAddrMap, ProcFs, range_pid_addr, visit, tries, get_pid_by_addr, has_include_inode,
  delete_pid_addr,
}

-- Some pid of the map holds the socket.
unfoldable pub is_held : ProcFs → Bytes → PidAddrMap → Bool
is_held fs inode [] = false
is_held fs inode ((p, a) ∷ m) = has_include_inode fs p inode || is_held fs inode m

-- An entry of the map whose pid holds the socket.
unfoldable pub IsHolder : ProcFs → Bytes → PidAddrMap → Bytes × Bytes → Type 0
IsHolder fs inode m e = Memᴰ e m × (has_include_inode fs e.0 inode ≡ true)

range_pid_addr-visit :
    (fs : ProcFs) (inode : Bytes) (found : Bytes × Bytes) (m : PidAddrMap)
    → IsHolder fs inode m (range_pid_addr (visit fs inode) found m)
      ⊎ ((is_held fs inode m ≡ false) × (range_pid_addr (visit fs inode) found m ≡ found))
unfolding range_pid_addr visit is_held IsHolder
range_pid_addr-visit fs inode found [] = inr (refl, refl)
range_pid_addr-visit fs inode found ((p, a) ∷ m) =
    elim (Bool-cases (has_include_inode fs p inode)) [
      | inl holds ↦ rw holds (inl (head refl, holds))
      | inr not_ ↦ rw not_ (elim (range_pid_addr-visit fs inode found m) [
        | inl (mem, h) ↦ inl (tail mem, h)
        | inr none_ ↦ inr none_
      ])
    ]

pub holder-pid :
    (fs : ProcFs) (inode : Bytes) (e : Bytes × Bytes)
    → fs.atoi [] ≡ 0
    → has_include_inode fs e.0 inode ≡ true
    → (length e.0 == 0) ≡ false
unfolding has_include_inode
holder-pid fs inode ([], a) z h = absurd (ground arith)
holder-pid fs inode (c ∷ p, a) z h = ground arith

-- Some pid holds the socket in one of the n tries from i on.
unfoldable pub is_ever_held : Bytes → (ℕ → ProcFs × PidAddrMap) → ℕ → ℕ → Bool
is_ever_held inode moment zero i = false
is_ever_held inode moment (suc n) i =
    is_held (moment i).0 inode (moment i).1 || is_ever_held inode moment n (i + 1)

-- The search found e, in one of the n tries from i on.
pub data IsFound (inode : Bytes) (moment : ℕ → ProcFs × PidAddrMap) (e : Bytes × Bytes)
    : ℕ → ℕ → Type 0 where
  now : {n i : ℕ} → IsHolder (moment i).0 inode (moment i).1 e → IsFound inode moment e (suc n) i
  later :
      {n i : ℕ}
      → is_held (moment i).0 inode (moment i).1 ≡ false
      → IsFound inode moment e n (i + 1)
      → IsFound inode moment e (suc n) i

-- A pid with no characters is no number, and strconv.Atoi of it is 0.
abbrev pub AtoiLaw : (ℕ → ProcFs × PidAddrMap) → Type 0
AtoiLaw moment = (i : ℕ) → (moment i).0.atoi [] ≡ 0

module _ (inode : Bytes) (moment : ℕ → ProcFs × PidAddrMap) (empty : AtoiLaw moment) where
  tries-IsFound :
      (n i : ℕ)
      → (IsFound inode moment (tries inode moment n i ([], [])) n i
          × ((length (tries inode moment n i ([], [])).0 == 0) ≡ false))
        ⊎ ((is_ever_held inode moment n i ≡ false) × (tries inode moment n i ([], []) ≡ ([], [])))
  unfolding tries is_ever_held IsHolder
  tries-IsFound zero i = inr (refl, refl)
  tries-IsFound (suc n) i = elim (range_pid_addr-visit (moment i).0 inode ([], []) (moment i).1) [
    | inl holder ↦
        let named =
          holder-pid (moment i).0 inode
            (range_pid_addr (visit (moment i).0 inode) ([], []) (moment i).1) (empty i) holder.1 in
        rw named (inl (now holder, named))
    | inr (not_, same) ↦
        rw (same, not_)
          (elim (tries-IsFound n (i + 1)) [
            | inl (found, named) ↦ inl (later not_ found, named)
            | inr none_ ↦ inr none_
          ])
  ]

  -- Where the inode is known, getPidByAddr gives an entry of the map whose process holds the socket
  -- in one of its three tries, the first try in which there is one, and deletes the pid from the
  -- map; where no process of the map holds it in any try, it gives nothing and leaves the map
  -- alone. The hypothesis is that strconv.Atoi gives 0 for "".
  pub get_pid_by_addr-finds :
      (last : PidAddrMap)
      → (IsFound inode moment (get_pid_by_addr (some inode) moment last).0 3 0
          × ((get_pid_by_addr (some inode) moment last).1
              ≡ delete_pid_addr (get_pid_by_addr (some inode) moment last).0.0 last))
        ⊎ ((is_ever_held inode moment 3 0 ≡ false)
            × (get_pid_by_addr (some inode) moment last ≡ (([], []), last)))
  unfolding get_pid_by_addr
  get_pid_by_addr-finds last = elim (tries-IsFound 3 0) [
    | inl (found, named) ↦ inl (found, rw named)
    | inr (not_, same) ↦ inr (not_, rw same)
  ]
