-- ===== src/World/Consistent.antt =====
-- The invariant of the tracer's tables and heap (util.c, main.c): each element of a table is a live
-- struct whose key field is the key that it stands under.
use graftcp.Prelude.{
  ℕ, ◌+◌, ◌≤◌, ◌≡◌, arith, true, Option, none, some, ◌==◌, ==_iff, Bool-cases, inl, inr,
  Option-cases, sym, ap, ◌∙◌, false,
}
use graftcp.Kernel.{Kernel}
use graftcp.Uthash.{Uthash, UthashLaws, int_key}
use graftcp.World.{World, SocketInfo, ProcInfo, update}

module _ ⦃uthash : Uthash⦄ ⦃laws : UthashLaws⦄ where
  open uthash use {Table, add, del}
  open laws use {holds}

  -- A table of structs with a key field, over the heap f that is free from n on.
  pub record IsKeyed {A : Type 0} (key : A → ℕ) (t : Table) (f : ℕ → Option A) (n : ℕ)
      : Type 0 where
    pub live : (k p : ℕ) → holds t k p ≡ true → (a : A) × (f p ≡ some a) × (k ≡ int_key (key a))
    pub free : (p : ℕ) → n ≤ p → f p ≡ none

  module _ {A : Type 0} (key : A → ℕ) (t : Table) (f : ℕ → Option A) (n : ℕ)
      (h : IsKeyed key t f n) where
    -- The next free address is in no table.
    pub not_held : (k : ℕ) → holds t k n ≡ false
    not_held k = elim (Bool-cases (holds t k n)) [
      | inl e ↦ let (a, here, _) = h.live k n e in cc (here, h.free n (omega arith))
      | inr e ↦ e
    ]

    -- A new struct is put on the heap and into the table.
    pub IsKeyed-add :
        (a : A) → IsKeyed key (add t (int_key (key a)) n) (update f n (some a)) (n + 1)
    unfolding update
    IsKeyed-add a = record {
      live = λ k p e.
          let held = laws.holds-add t (int_key (key a)) n k p in
          elim (Bool-cases (p == n)) [
            | inl new ↦ (a, rw new, ground (arith, held, not_held k))
            | inr old ↦
                let (b, here, same) = h.live k p (ground (arith, held)) in (b, rw old here, same)
          ];
      free = λ p e. ground (arith, h.free p);
    }

    -- A new struct that is freed again.
    pub IsKeyed-skip : IsKeyed key t (update f n none) (n + 1)
    unfolding update
    IsKeyed-skip = record {
      live = λ k p e.
          let (b, here, same) = h.live k p e in
          elim (Bool-cases (p == n)) [
            | inl new ↦ cc (e, not_held k, (==_iff p n).0 new)
            | inr old ↦ (b, rw old here, same)
          ];
      free = λ p e. ground (arith, h.free p);
    }

    module _ (p : ℕ) (a : A) (here : f p ≡ some a) where
      -- A write that leaves the key field alone.
      pub IsKeyed-store : (b : A) → key b ≡ key a → IsKeyed key t (update f p (some b)) n
      unfolding update
      IsKeyed-store b same = record {
        live = λ k q e.
            let (c, there, keyed) = h.live k q e in
            elim (Bool-cases (q == p)) [
              | inl it ↦
                  let match : c ≡ a = ground (arith, here, there, it) in
                  (b, rw it, rw (same, ← match) keyed)
              | inr other ↦ (c, rw other there, keyed)
            ];
        free = λ q e. ground (arith, h.free q, here);
      }

      -- A struct that is taken out of the table, given another key and put back.
      pub IsKeyed-rekey :
          (b : A) → IsKeyed key (add (del t p) (int_key (key b)) p) (update f p (some b)) n
      unfolding update
      IsKeyed-rekey b = record {
        live = λ k q e.
            let held = laws.holds-add (del t p) (int_key (key b)) p k q in
            let kept = laws.holds-del t p k q in
            elim (Bool-cases (q == p)) [
              | inl it ↦ (b, rw it, ground (arith, held, kept))
              | inr other ↦
                  let (c, there, keyed) = h.live k q (ground (arith, held, kept)) in
                  (c, rw other there, keyed)
            ];
        free = λ q e. ground (arith, h.free q, here);
      }

      -- A struct that is taken out of the table and freed.
      pub IsKeyed-drop : IsKeyed key (del t p) (update f p none) n
      unfolding update
      IsKeyed-drop = record {
        live = λ k q e.
            let kept = laws.holds-del t p k q in
            elim (Bool-cases (q == p)) [
              | inl it ↦ absurd (ground (arith, kept))
              | inr other ↦
                  let (c, there, keyed) = h.live k q (ground (arith, kept)) in
                  (c, rw other there, keyed)
            ];
        free = λ q e. ground (arith, h.free q);
      }

module _ ⦃uthash : Uthash⦄ ⦃laws : UthashLaws⦄ where
  pub IsKeyed-grow :
      {A : Type 0} (key : A → ℕ) (t : uthash.Table) (f : ℕ → Option A) (n : ℕ)
      → IsKeyed key t f n
      → IsKeyed key t f (n + 1)
  IsKeyed-grow key t f n h = record { live = h.live; free = λ p e. h.free p (omega arith) }

  -- A search of a keyed table finds a live struct under the key.
  pub find-live :
      {A : Type 0} (key : A → ℕ) (t : uthash.Table) (f : ℕ → Option A) (n k p : ℕ)
      → IsKeyed key t f n
      → uthash.find t k ≡ some p
      → (a : A) × (f p ≡ some a) × (k ≡ int_key (key a))
  find-live key t f n k p h e = h.live k p (laws.holds-find t k p e)

module _ ⦃uthash : Uthash⦄ ⦃laws : UthashLaws⦄ where
  -- Under each key a table holds one element at most.
  unfoldable pub IsUnique : uthash.Table → Type 0
  IsUnique t = (k p q : ℕ) → laws.holds t k p ≡ true → laws.holds t k q ≡ true → p ≡ q

  pub empty-IsUnique : IsUnique uthash.empty
  unfolding IsUnique
  empty-IsUnique k p q h = cc (h, laws.holds-empty k p)

  pub add-IsUnique :
      (t : uthash.Table) (k p : ℕ)
      → uthash.find t k ≡ none
      → IsUnique t
      → IsUnique (uthash.add t k p)
  unfolding IsUnique
  add-IsUnique t k p free u j q r h l = ground (
    arith,
    h,
    l,
    u j q r,
    laws.holds-add t k p j q,
    laws.holds-add t k p j r,
    laws.find-none t k q free,
    laws.find-none t k r free,
  )

  -- An addition under one key does not change what is found under another one.
  pub find-add_apart :
      (t : uthash.Table) (k p j : ℕ)
      → IsUnique t
      → (j == k) ≡ false
      → uthash.find (uthash.add t k p) j ≡ uthash.find t j
  unfolding IsUnique
  find-add_apart t k p j u apart = elim (Option-cases (uthash.find (uthash.add t k p) j)) [
    | inl none_there ↦ elim (Option-cases (uthash.find t j)) [
      | inl none_here ↦ none_there ∙ sym none_here
      | inr (q, here) ↦ absurd (
          ground (
            arith,
            apart,
            laws.find-none (uthash.add t k p) j q none_there,
            laws.holds-add t k p j q,
            laws.holds-find t j q here,
          ))
    ]
    | inr (r, there) ↦
        let held : laws.holds t j r ≡ true =
          ground (
            arith,
            apart,
            laws.holds-find (uthash.add t k p) j r there,
            laws.holds-add t k p j r,
          ) in
        elim (Option-cases (uthash.find t j)) [
          | inl none_here ↦ absurd (ground (arith, held, laws.find-none t j r none_here))
          | inr (q, here) ↦ there ∙ ap some (u j r q held (laws.holds-find t j q here)) ∙ sym here
        ]
  ]

abbrev pub socket_field : SocketInfo → ℕ
socket_field s = s.magic_fd

abbrev pub proc_field : ProcInfo → ℕ
proc_field i = i.pid

module _ ⦃kernel : Kernel⦄ ⦃uthash : Uthash⦄ ⦃laws : UthashLaws⦄ where
  pub record IsConsistent (w : World) : Type 0 where
    pub sockets_keyed : IsKeyed socket_field w.socket_info_tab w.sockets w.brk
    pub procs_keyed : IsKeyed proc_field w.proc_info_tab w.procs w.brk
    pub procs_unique : IsUnique w.proc_info_tab
