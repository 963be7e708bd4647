-- ===== src/Handlers/Redirect.antt =====
-- The graft of main.c: a connect that is redirected, as the memory of the process, the fifo and the
-- tables show it.
use graftcp.Prelude.{
  ℕ, ◌+◌, ◌^◌, ◌≤◌, ◌≡◌, refl, ◌∙◌, arith, true, false, some, [], ◌∷◌, ◌++◌, length,
  length-replicate, replicate, AreBytes,
}
use graftcp.Kernel.{Kernel}
use graftcp.Uthash.{Uthash}
use graftcp.World.{World, done, SocketInfo, ProcInfo, update_self}
use graftcp.Tracee.{get_syscall_arg, putdata}
use graftcp.Tracee.Memory.{MemoryLaws, Reachable}
use graftcp.Tracee.Overlay.{over}
use graftcp.Tracee.Writes.{padding, putdata-over}
use graftcp.Tracee.Fifo.{FifoLaws, lines-putdata}
use graftcp.Address.{Libc, fifo_line}
use graftcp.Filter.{is_ignore}
use graftcp.Handlers.{Config, connect_pre_handle}
use graftcp.Handlers.Outcomes.{found_socket}
use graftcp.Handlers.Connect.{
  Destination, destination, announced, redirected, connect_pre_handle-redirected,
}

module _ ⦃kernel : Kernel⦄ ⦃memory : MemoryLaws⦄ ⦃fifo : FifoLaws⦄ where
  open memory use {byte}

  -- How the kernel stands after a connect that is redirected.
  pub record Grafts (k : kernel.State) (pid addr : ℕ) (d : Destination) (r : kernel.State)
      : Type 0 where
    pub bytes :
        (q b : ℕ)
        → byte r q b
          ≡ over (byte k) pid addr (d.proxy ++ padding (replicate 8 0) d.proxy (length d.proxy)) q b
    pub told : fifo.lines r ≡ fifo.lines k ++ fifo_line d.ip d.port pid ∷ []

  pub announced-Grafts :
      (k : kernel.State) (pid addr : ℕ) (d : Destination)
      → addr + length d.proxy + 8 ≤ 2 ^ 64
      → Reachable k pid addr (length d.proxy)
      → AreBytes d.proxy
      → (kernel.write_fifo
          (putdata (replicate 8 0) k pid addr d.proxy (length d.proxy))
          (fifo_line d.ip d.port pid)).0
        ≡ true
      → Grafts k pid addr d (announced k pid addr d)
  announced-Grafts k pid addr d fits m h sent =
      let k1 = putdata (replicate 8 0) k pid addr d.proxy (length d.proxy) in
      let line = fifo_line d.ip d.port pid in
      record {
        bytes = λ q b.
            fifo.byte-write_fifo k1 line q b
            ∙ putdata-over (replicate 8 0) k pid addr d.proxy fits m h (omega arith)
                (length-replicate {A = ℕ} 8 0) q b;
        told =
            fifo.lines-write_fifo k1 line
            ∙ rw (sent, lines-putdata (replicate 8 0) k pid addr d.proxy (length d.proxy));
      }

  module _ ⦃uthash : Uthash⦄ ⦃libc : Libc⦄ where
    -- A connect of a socket that the table knows, to a destination that the lists do not exclude,
    -- where the argument's words can be reached and the fifo takes the line: the handler completes;
    -- the process's address argument holds the proxy address, followed by the padding of its last
    -- word, and no other byte of any process changes; the fifo has one more line, the original
    -- destination with the pid; the socket has the time, and both tables stay as they are.
    pub connect_pre_handle-Grafts :
        (cfg : Config) (w : World) (pinfp si : ℕ) (pi : ProcInfo) (s : SocketInfo) (addr : ℕ)
        (d : Destination)
        → w.procs pinfp ≡ some pi
        → found_socket w pi.pid ≡ some si
        → w.sockets si ≡ some s
        → get_syscall_arg w.system pi.pid 1 ≡ addr
        → destination cfg w.system pi.pid addr ≡ some d
        → is_ignore cfg.lists d.ip ≡ false
        → addr + length d.proxy + 8 ≤ 2 ^ 64
        → Reachable w.system pi.pid addr (length d.proxy)
        → AreBytes d.proxy
        → (kernel.write_fifo
            (putdata (replicate 8 0) w.system pi.pid addr d.proxy (length d.proxy))
            (fifo_line d.ip d.port pi.pid)).0
          ≡ true
        → (r : World) × (connect_pre_handle cfg pinfp w ≡ done tt r)
          × Grafts w.system pi.pid addr d r.system
          × (r.sockets si ≡ some (record s { conn_ti = kernel.gettimeofday r.system }))
          × (r.socket_info_tab ≡ w.socket_info_tab)
          × (r.proc_info_tab ≡ w.proc_info_tab)
    connect_pre_handle-Grafts cfg w pinfp si pi s addr d live found here arg to e fits m h sent = (
      redirected w pi.pid si s addr d,
      connect_pre_handle-redirected cfg w pinfp si pi s addr live found here arg d to e,
      announced-Grafts w.system pi.pid addr d fits m h sent,
      update_self w.sockets si _,
      refl,
      refl,
    )
