-- ===== src/Trace/Steps.antt =====
-- The parts of a round of do_trace of main.c, one by one.
use mathlib.Core.Path.{fun_ext}
use graftcp.Prelude.{
  ℕ, ◌≡◌, ◌≢◌, refl, arith, Bool, true, false, Option, none, some, ◌==◌, ==_iff, bit_test,
  bit_clear, Bool-cases, inl, inr,
}
use graftcp.Kernel.{Kernel}
use graftcp.Uthash.{Uthash, UthashLaws, int_key}
use graftcp.World.{
  World, done, exit, zero_proc, load_proc, store_proc, call, update, update_self, update-update,
}
use graftcp.World.Consistent.{
  IsConsistent, IsKeyed-store, IsKeyed-add, IsKeyed-grow, add-IsUnique, find-live, proc_field,
  socket_field,
}
use graftcp.Tables.{alloc_proc_info}
use graftcp.Tracee.Reaches.{here, by_setoptions, by_resume}
use graftcp.Handlers.Sockets.{find-add}
use graftcp.Trace.{Round, flag_startup, flag_insyscall, resume_child, start_up, find_or_alloc}
use graftcp.Trace.Signals.{after_resume}
use graftcp.Trace.Ends.{IsLive, Ends}
use graftcp.Trace.Phases.{
  phase_in, phase_of, phase_of-found, phase_of-store, phase_of-alloc, Settles, Settles-stay,
}
use graftcp.Trace.Spec.{Starts, old, new, within}

-- The one flag and the other.
insyscall_started :
    (v : ℕ) → bit_test flag_insyscall (bit_clear flag_startup v) ≡ bit_test flag_insyscall v
insyscall_started v = ground arith

startup_started : (v : ℕ) → bit_test flag_startup (bit_clear flag_startup v) ≡ false
startup_started v = ground arith

module _ ⦃kernel : Kernel⦄ ⦃uthash : Uthash⦄ ⦃laws : UthashLaws⦄ where
  open kernel use {State, setoptions, resume}

  module _ (w : World) (c : IsConsistent w) where
    alloc_proc_info-Ends :
        (E : ℕ → Type 0) (child : ℕ)
        → uthash.find w.proc_info_tab (int_key child) ≡ none
        → Ends w E
            (λ p r. IsLive child p r × (r.system ≡ w.system) × (phase_of r ≡ phase_of w))
            (alloc_proc_info child w)
    unfolding alloc_proc_info
    alloc_proc_info-Ends E child free =
        let pi = record zero_proc { pid = child } in
        let found = find-add w.proc_info_tab (int_key child) w.brk free in
        simp (update_self, update-update)
          (
            record {
              sockets_keyed = IsKeyed-grow socket_field _ _ _ c.sockets_keyed;
              procs_keyed = IsKeyed-add proc_field _ _ _ c.procs_keyed pi;
              procs_unique = add-IsUnique w.proc_info_tab (int_key child) w.brk free c.procs_unique;
            },
            here,
            (
              (pi, refl, refl, found),
              refl,
              fun_ext (phase_of-alloc w _ c child free found refl refl),
            ),
          )

    pub find_or_alloc-Ends :
        (E : ℕ → Type 0) (child : ℕ) (o : Option ℕ)
        → uthash.find w.proc_info_tab (int_key child) ≡ o
        → Ends w E
            (λ p r. IsLive child p r × (r.system ≡ w.system) × (phase_of r ≡ phase_of w))
            (find_or_alloc child o w)
    unfolding find_or_alloc
    find_or_alloc-Ends E child none e = alloc_proc_info-Ends E child e
    find_or_alloc-Ends E child (some p) e =
        let (i, live, same) = find-live proc_field _ _ _ _ p c.procs_keyed e in
        (c, here, ((i, live, same, e), refl, refl))

    module _ (child pinfp : ℕ) (live : IsLive child pinfp w) where
      -- The process runs on, and no table changes.
      abbrev pub Resumed : ℕ → ℕ → State → Round → World → Type 0
      Resumed pid sig s round r =
          (round ≡ after_resume (resume s pid sig).0)
          × (r.system ≡ (resume s pid sig).1)
          × (phase_of r ≡ phase_of w)

      pub resume_child-Ends :
          (E : ℕ → Type 0) (sig : ℕ)
          → Ends w E (Resumed live.0.pid sig w.system) (resume_child pinfp sig w)
      unfolding resume_child load_proc call phase_of
      resume_child-Ends E sig =
          simp (live.1) (c', by_resume here live.0.pid sig, (refl, refl, refl))
        where
          c' : IsConsistent (record w { system = (kernel.resume w.system live.0.pid sig).1 })
          c' = record {
            sockets_keyed = c.sockets_keyed;
            procs_keyed = c.procs_keyed;
            procs_unique = c.procs_unique;
          }

      -- Why start_up ends the program.
      abbrev pub Unset : Bool → ℕ → Type 0
      Unset fresh n =
          (fresh ≡ true) × ((setoptions w.system child).0 ≢ 0) × (n ≡ (setoptions w.system child).0)

      abbrev pub Started : World → Type 0
      Started v =
          IsLive child pinfp v
          × Starts (phase_of w (int_key child)).fresh child w.system v.system
          × Settles (int_key child) (within (phase_of w (int_key child)).call) (phase_of w)
              (phase_of v)

      -- The world once the first event has cleared FLAG_STARTUP and set the options.
      abbrev started : World
      started = record w {
        procs =
            update w.procs pinfp
              (some (record (live.0) { flags = bit_clear flag_startup live.0.flags }));
        system = (kernel.setoptions w.system child).1;
      }

      pub start_up-Ends :
          Ends w
            (Unset (phase_of w (int_key child)).fresh)
            (λ _ v. Started v)
            (start_up pinfp child w)
      unfolding start_up load_proc store_proc call
      start_up-Ends =
          let k = kernel.setoptions w.system child in
          let i = live.0 in
          let is_in : phase_of w (int_key child) ≡ phase_in i =
            phase_of-found w (int_key child) pinfp i live.3 live.1 in
          let pj = record i { flags = bit_clear flag_startup i.flags } in
          let live' : IsLive child pinfp started =
            (pj, update_self w.procs pinfp (some pj), live.2, live.3) in
          let set : Settles (int_key child) (phase_in pj) (phase_of w) (phase_of started) =
            phase_of-store w started c (int_key child) pinfp i pj live.3 live.1 refl refl in
          let now : phase_in pj ≡ within (phase_of w (int_key child)).call =
            rw (is_in, insyscall_started i.flags, startup_started i.flags) refl in
          elim (Bool-cases (bit_test flag_startup i.flags)) [
            | inl fresh ↦
                let e : (phase_of w (int_key child)).fresh ≡ true = rw (is_in, fresh) refl in
                elim (Bool-cases (k.0 == 0)) [
                  | inl fine ↦
                      let zero_ : k.0 ≡ 0 = (==_iff k.0 0).0 fine in
                      let run : start_up pinfp child w ≡ done tt started =
                        simp (live.1, fresh, fine) in
                      rw run (c', by_setoptions here child, (live', new e zero_, rw (← now) set))
                  | inr bad ↦
                      let run : start_up pinfp child w ≡ exit k.0 started =
                        simp (live.1, fresh, bad) in
                      rw run (e, (λ z. cc (bad, (==_iff k.0 0).1 z)), refl)
                ]
            | inr known ↦
                let run : start_up pinfp child w ≡ done tt w = simp (live.1, known) in
                let e : (phase_of w (int_key child)).fresh ≡ false = rw (is_in, known) refl in
                rw run (
                  c,
                  here,
                  (
                    live,
                    old e,
                    Settles-stay (int_key child) _ (phase_of w) (rw (is_in, known) refl),
                  ),
                )
          ]
        where
          c' : IsConsistent started
          c' = record {
            sockets_keyed = c.sockets_keyed;
            procs_keyed = IsKeyed-store proc_field _ _ _ c.procs_keyed pinfp live.0 live.1 _ refl;
            procs_unique = c.procs_unique;
          }
