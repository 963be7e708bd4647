-- ===== src/Handlers/Safety.antt =====
-- Every handler of main.c keeps the tables consistent and follows no dangling pointer.
use graftcp.Prelude.{
  ℕ, ◌≡◌, refl, Option, none, some, Option-cases, Bool-cases, inl, inr, length, ltb,
}
use graftcp.Kernel.{Kernel}
use graftcp.Uthash.{Uthash, UthashLaws, int_key}
use graftcp.World.{World, Cmd, done, SocketInfo, ProcInfo}
use graftcp.World.Consistent.{
  IsConsistent, IsKeyed-add, IsKeyed-skip, IsKeyed-grow, IsKeyed-store, IsKeyed-rekey, IsKeyed-drop,
  find-live, socket_field, proc_field,
}
use graftcp.Tracee.{get_syscall_arg}
use graftcp.Tracee.Reaches.{Reaches, here, by_pokeuser, by_usleep, by_write_fifo, putdata-Reaches}
use graftcp.Address.{Libc}
use graftcp.Filter.{is_ignore}
use graftcp.Handlers.{
  Config, elapsed_ms, min_close_msec, pending_key, socket_key, not_tcp, socket_pre_handle,
  socket_exiting_handle, connect_pre_handle, close_pre_handle, clone_pre_handle,
}
use graftcp.Handlers.Outcomes.{
  arg_type, arg_domain, pending_socket, slept, found_socket, socket_pre_handle-tcp,
  socket_pre_handle-other, socket_exiting_handle-none, socket_exiting_handle-some,
  connect_pre_handle-none, close_pre_handle-none, close_pre_handle-some, clone_pre_handle_lem,
}
use graftcp.Handlers.Connect.{
  Destination, destination, connect_pre_handle-none_of_them, connect_pre_handle-ignored,
  connect_pre_handle-redirected,
}

module _ ⦃kernel : Kernel⦄ ⦃uthash : Uthash⦄ where
  slept-Reaches : (k : kernel.State) (delta_ms : ℕ) → Reaches k (slept k delta_ms)
  slept-Reaches k delta_ms = elim (Bool-cases (ltb delta_ms min_close_msec)) [
    | inl e ↦ rw e (by_usleep here _)
    | inr e ↦ rw e here
  ]

module _ ⦃kernel : Kernel⦄ ⦃uthash : Uthash⦄ ⦃laws : UthashLaws⦄ where
  -- The command completes, in a consistent world with the same proc_infos.
  pub record Completes (w : World) (m : Cmd (Unit {0})) : Type 0 where
    pub next : World
    pub runs : m w ≡ done tt next
    pub consistent : IsConsistent next
    pub same_procs : next.procs ≡ w.procs
    pub same_table : next.proc_info_tab ≡ w.proc_info_tab
    pub reaches : Reaches w.system next.system

  module _ (w : World) (c : IsConsistent w) (pinfp : ℕ) (pi : ProcInfo)
      (live : w.procs pinfp ≡ some pi) where
    pub socket_pre_handle-Completes : Completes w (socket_pre_handle pinfp)
    socket_pre_handle-Completes =
        elim (Bool-cases (not_tcp (arg_type w.system pi.pid) (arg_domain w.system pi.pid))) [
          | inl other ↦ record {
            next = _;
            runs = socket_pre_handle-other w pinfp pi live other;
            consistent = record {
              sockets_keyed = IsKeyed-skip socket_field _ _ _ c.sockets_keyed;
              procs_keyed = IsKeyed-grow proc_field _ _ _ c.procs_keyed;
              procs_unique = c.procs_unique;
            };
            same_procs = refl;
            same_table = refl;
            reaches = here;
          }
          | inr tcp ↦ record {
            next = _;
            runs = socket_pre_handle-tcp w pinfp pi live tcp;
            consistent = record {
              sockets_keyed =
                  IsKeyed-add socket_field _ _ _ c.sockets_keyed (pending_socket w.system pi.pid);
              procs_keyed = IsKeyed-grow proc_field _ _ _ c.procs_keyed;
              procs_unique = c.procs_unique;
            };
            same_procs = refl;
            same_table = refl;
            reaches = here;
          }
        ]

    stays : {m : Cmd (Unit {0})} → m w ≡ done tt w → Completes w m
    stays e = record {
      next = w;
      runs = e;
      consistent = c;
      same_procs = refl;
      same_table = refl;
      reaches = here;
    }

    pub socket_exiting_handle-Completes : (fd : ℕ) → Completes w (socket_exiting_handle pinfp fd)
    socket_exiting_handle-Completes fd =
        elim (Option-cases (uthash.find w.socket_info_tab (int_key (pending_key pi.pid)))) [
          | inl lost ↦ stays (socket_exiting_handle-none w pinfp pi live fd lost)
          | inr (si, found) ↦
              let (s, held, _) = find-live socket_field _ _ _ _ si c.sockets_keyed found in
              record {
                next = _;
                runs = socket_exiting_handle-some w pinfp pi live fd si s found held;
                consistent = record {
                  sockets_keyed =
                      IsKeyed-rekey socket_field _ _ _ c.sockets_keyed si s held
                        (record s { fd = fd; magic_fd = socket_key fd pi.pid });
                  procs_keyed = c.procs_keyed;
                  procs_unique = c.procs_unique;
                };
                same_procs = refl;
                same_table = refl;
                reaches = here;
              }
        ]

    pub close_pre_handle-Completes : Completes w (close_pre_handle pinfp)
    close_pre_handle-Completes = elim (Option-cases (found_socket w pi.pid)) [
      | inl lost ↦ stays (close_pre_handle-none w pinfp pi live lost)
      | inr (si, found) ↦
          let (s, held, _) = find-live socket_field _ _ _ _ si c.sockets_keyed found in
          record {
            next = _;
            runs = close_pre_handle-some w pinfp pi live si s found held;
            consistent = record {
              sockets_keyed = IsKeyed-drop socket_field _ _ _ c.sockets_keyed si s held;
              procs_keyed = c.procs_keyed;
              procs_unique = c.procs_unique;
            };
            same_procs = refl;
            same_table = refl;
            reaches = slept-Reaches w.system (elapsed_ms (kernel.gettimeofday w.system) s.conn_ti);
          }
    ]

    pub clone_pre_handle-Completes : Completes w (clone_pre_handle pinfp)
    clone_pre_handle-Completes = record {
      next = _;
      runs = clone_pre_handle_lem w pinfp pi live;
      consistent = record {
        sockets_keyed = c.sockets_keyed;
        procs_keyed = c.procs_keyed;
        procs_unique = c.procs_unique;
      };
      same_procs = refl;
      same_table = refl;
      reaches = by_pokeuser here pi.pid _ _;
    }

    connected :
        ⦃libc : Libc⦄ (cfg : Config) (si : ℕ) (s : SocketInfo)
        → found_socket w pi.pid ≡ some si
        → w.sockets si ≡ some s
        → (o : Option Destination)
        → destination cfg w.system pi.pid (get_syscall_arg w.system pi.pid 1) ≡ o
        → Completes w (connect_pre_handle cfg pinfp)
    connected cfg si s found held none to =
        stays (connect_pre_handle-none_of_them cfg w pinfp si pi s _ live found held refl to)
    connected cfg si s found held (some d) to = elim (Bool-cases (is_ignore cfg.lists d.ip)) [
      | inl e ↦ stays (connect_pre_handle-ignored cfg w pinfp si pi s _ live found held refl d to e)
      | inr e ↦ record {
        next = _;
        runs = connect_pre_handle-redirected cfg w pinfp si pi s _ live found held refl d to e;
        consistent = record {
          sockets_keyed = IsKeyed-store socket_field _ _ _ c.sockets_keyed si s held _ refl;
          procs_keyed = c.procs_keyed;
          procs_unique = c.procs_unique;
        };
        same_procs = refl;
        same_table = refl;
        reaches = by_write_fifo (putdata-Reaches _ w.system pi.pid _ d.proxy (length d.proxy)) _;
      }
    ]

    pub connect_pre_handle-Completes :
        ⦃libc : Libc⦄ (cfg : Config) → Completes w (connect_pre_handle cfg pinfp)
    connect_pre_handle-Completes cfg = elim (Option-cases (found_socket w pi.pid)) [
      | inl lost ↦ stays (connect_pre_handle-none w pinfp pi live cfg lost)
      | inr (si, found) ↦
          let (s, held, _) = find-live socket_field _ _ _ _ si c.sockets_keyed found in
          connected cfg si s found held _ refl
    ]
