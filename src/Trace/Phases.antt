-- ===== src/Trace/Phases.antt =====
-- What the table of proc_info says of each process to the loop of do_trace in main.c.
use graftcp.Prelude.{
  ℕ, ◌≡◌, refl, arith, Bool, false, Option, none, some, ◌==◌, ==_iff, ==_refl, if◌then◌else◌,
  bit_test, Bool-cases, Option-cases, inl, inr,
}
use graftcp.Kernel.{Kernel}
use graftcp.Uthash.{Uthash, UthashLaws, int_key}
use graftcp.World.{World, ProcInfo, zero_proc, update}
use graftcp.World.Consistent.{IsConsistent, find-add_apart, find-live, proc_field}
use graftcp.Trace.{flag_startup, flag_insyscall}

-- The system call that a process has entered and not left, and whether its options are still to be
-- set.
pub record Phase : Type 0 where
  pub call : Option ℕ
  pub fresh : Bool

-- A process that the tracer does not know.
abbrev pub idle : Phase
idle = record { call = none; fresh = false }

abbrev pub phase_in : ProcInfo → Phase
phase_in i = record {
  call = if bit_test flag_insyscall i.flags then some i.csn else none;
  fresh = bit_test flag_startup i.flags;
}

phase_of_proc : Option ProcInfo → Phase
phase_of_proc none = idle
phase_of_proc (some i) = phase_in i

phase_at : (ℕ → Option ProcInfo) → Option ℕ → Phase
unfolding phase_of_proc
phase_at procs none = idle
phase_at procs (some p) = phase_of_proc (procs p)

-- The process of a key has come to a phase, and the others are where they were.
abbrev pub Settles : ℕ → Phase → (ℕ → Phase) → (ℕ → Phase) → Type 0
Settles key now f g = (k : ℕ) → g k ≡ (if k == key then now else f k)

pub Settles-stay : (key : ℕ) (now : Phase) (f : ℕ → Phase) → now ≡ f key → Settles key now f f
Settles-stay key now f e k = elim (Bool-cases (k == key)) [
  | inl it ↦ let j : k ≡ key = (==_iff k key).0 it in rw (it, j, e) refl
  | inr other ↦ rw other refl
]

pub Settles-then :
    (key : ℕ) (now then_ : Phase) (f g h : ℕ → Phase)
    → Settles key now f g
    → Settles key then_ g h
    → Settles key then_ f h
Settles-then key now then_ f g h a b k = elim (Bool-cases (k == key)) [
  | inl it ↦ rw (b k, it) refl
  | inr other ↦ rw (b k, a k, other) refl
]

pub Settles-now : (key : ℕ) (now : Phase) (f g : ℕ → Phase) → Settles key now f g → g key ≡ now
Settles-now key now f g a = rw (a key, ==_refl key) refl

module _ ⦃kernel : Kernel⦄ ⦃uthash : Uthash⦄ where
  unfoldable pub phase_of : World → ℕ → Phase
  unfolding phase_at
  phase_of w k = phase_at w.procs (uthash.find w.proc_info_tab k)

  pub phase_of-found :
      (w : World) (key p : ℕ) (i : ProcInfo)
      → uthash.find w.proc_info_tab key ≡ some p
      → w.procs p ≡ some i
      → phase_of w key ≡ phase_in i
  unfolding phase_of phase_at phase_of_proc
  phase_of-found w key p i found live = rw (found, live) refl

  module _ ⦃laws : UthashLaws⦄ (w r : World) (c : IsConsistent w) where
    -- A write to the proc_info of one process.
    pub phase_of-store :
        (key p : ℕ) (i j : ProcInfo)
        → uthash.find w.proc_info_tab key ≡ some p
        → w.procs p ≡ some i
        → r.procs ≡ update w.procs p (some j)
        → r.proc_info_tab ≡ w.proc_info_tab
        → Settles key (phase_in j) (phase_of w) (phase_of r)
    unfolding phase_of phase_at phase_of_proc update
    phase_of-store key p i j found live procs same k = elim (Bool-cases (k == key)) [
      | inl it ↦
          let e : k ≡ key = (==_iff k key).0 it in rw (it, procs, same, e, found, ==_refl p) refl
      | inr other ↦
          rw (other, procs, same)
            (elim (Option-cases (uthash.find w.proc_info_tab k)) [
              | inl none_ ↦ rw none_ refl
              | inr (q, there) ↦ elim (Bool-cases (q == p)) [
                | inl it ↦
                    let e : q ≡ p = (==_iff q p).0 it in
                    let (a, la, ka) = find-live proc_field _ _ _ k q c.procs_keyed there in
                    let (b, lb, kb) = find-live proc_field _ _ _ key p c.procs_keyed found in
                    let la' : w.procs p ≡ some a = rw (← e) la in
                    let same : a ≡ b = cc (la', lb) in
                    let match : k ≡ key = cc (ka, kb, same) in cc (other, (==_iff k key).1 match)
                | inr far ↦ rw (there, far) refl
              ]
            ])
    ]

    -- A process that was not in the table is idle in it.
    pub phase_of-alloc :
        (child : ℕ)
        → uthash.find w.proc_info_tab (int_key child) ≡ none
        → uthash.find (uthash.add w.proc_info_tab (int_key child) w.brk) (int_key child)
          ≡ some w.brk
        → r.procs ≡ update w.procs w.brk (some (record zero_proc { pid = child }))
        → r.proc_info_tab ≡ uthash.add w.proc_info_tab (int_key child) w.brk
        → (k : ℕ) → phase_of r k ≡ phase_of w k
    unfolding phase_of phase_at phase_of_proc update
    phase_of-alloc child free found procs tab k = elim (Bool-cases (k == int_key child)) [
      | inl it ↦
          let e : k ≡ int_key child = (==_iff k (int_key child)).0 it in
          rw (procs, tab, e, found, free, ==_refl w.brk) refl
      | inr other ↦
          let kept = find-add_apart w.proc_info_tab (int_key child) w.brk k c.procs_unique other in
          rw (procs, tab, kept)
            (elim (Option-cases (uthash.find w.proc_info_tab k)) [
              | inl none_ ↦ rw none_ refl
              | inr (q, there) ↦
                  let (a, la, ka) = find-live proc_field _ _ _ k q c.procs_keyed there in
                  elim (Bool-cases (q == w.brk)) [
                    | inl it ↦
                        let e : q ≡ w.brk = (==_iff q w.brk).0 it in
                        cc (e, la, c.procs_keyed.free w.brk (omega arith))
                    | inr far ↦ rw (there, far) refl
                  ]
            ])
    ]
