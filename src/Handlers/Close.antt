-- ===== src/Handlers/Close.antt =====
-- close_pre_handle of main.c: how long a connection is kept before its close goes through.
use graftcp.Prelude.{
  ℕ, ◌+◌, ◌-◌, ◌*◌, ◌^◌, ◌≤◌, ◌<◌, ◌≡◌, arith, some, ltb, leb, ltb→lt, Bool-cases, inl, inr,
}
use graftcp.Kernel.{Kernel, TimeVal}
use graftcp.Uthash.{Uthash}
use graftcp.World.{World, done, SocketInfo, ProcInfo}
use graftcp.Handlers.{close_pre_handle, elapsed_ms, min_close_msec}
use graftcp.Handlers.Outcomes.{found_socket, close_pre_handle-some}

-- A time in microseconds.
abbrev pub micros : TimeVal → ℕ
micros t = t.tv_sec * 1000000 + t.tv_usec

-- A time as gettimeofday gives it.
abbrev pub IsTime : TimeVal → Type 0
IsTime t = t.tv_usec < 1000000

-- usleep(n) returns after n microseconds at the earliest.
pub record ClockLaws ⦃kernel : Kernel⦄ : Type 0 where
  pub gettimeofday-IsTime : (s : kernel.State) → IsTime (kernel.gettimeofday s)
  pub gettimeofday-usleep :
      (s : kernel.State) (n : ℕ)
      → micros (kernel.gettimeofday s) + n ≤ micros (kernel.gettimeofday (kernel.usleep s n))

-- For a time that is not before the connection, delta_ms does not exceed the age by a millisecond.
elapsed_ms_bounds :
    (now then_ : TimeVal)
    → IsTime now
    → IsTime then_
    → now.tv_sec < 2 ^ 50
    → micros then_ ≤ micros now
    → elapsed_ms now then_ * 1000 + micros then_ < micros now + 1000
unfolding elapsed_ms
elapsed_ms_bounds now then_ n t small h = elim (Bool-cases (leb then_.tv_usec now.tv_usec)) [
  | inl e ↦ let le : then_.tv_usec ≤ now.tv_usec = ground arith in rw e (omega arith)
  | inr e ↦ let lt : now.tv_usec < then_.tv_usec = ground arith in rw e (omega arith)
]

module _ ⦃kernel : Kernel⦄ ⦃clock : ClockLaws⦄ ⦃uthash : Uthash⦄ where
  -- A close of a tracked socket returns to the process later than 499 milliseconds after the
  -- connection was made, where the clock has not gone back behind that time and is
  -- below 2^50 seconds.
  pub close_pre_handle-delay :
      (w : World) (pinfp si : ℕ) (pi : ProcInfo) (s : SocketInfo)
      → w.procs pinfp ≡ some pi
      → found_socket w pi.pid ≡ some si
      → w.sockets si ≡ some s
      → IsTime s.conn_ti
      → (kernel.gettimeofday w.system).tv_sec < 2 ^ 50
      → micros s.conn_ti ≤ micros (kernel.gettimeofday w.system)
      → (r : World) × (close_pre_handle pinfp w ≡ done tt r)
        × (micros s.conn_ti + 499000 < micros (kernel.gettimeofday r.system))
  close_pre_handle-delay w pinfp si pi s live found here t small h =
      let now = kernel.gettimeofday w.system in
      let delta_ms = elapsed_ms now s.conn_ti in
      let age = elapsed_ms_bounds now s.conn_ti (clock.gettimeofday-IsTime w.system) t small h in
      (
        _,
        close_pre_handle-some w pinfp pi live si s found here,
        elim (Bool-cases (ltb delta_ms min_close_msec)) [
          | inl e ↦
              let early = ltb→lt delta_ms min_close_msec e in
              rw e (
                omega
                  (arith, clock.gettimeofday-usleep w.system ((min_close_msec - delta_ms) * 1000)))
          | inr e ↦ let late : min_close_msec ≤ delta_ms = ground arith in rw e (omega arith)
        ],
      )
