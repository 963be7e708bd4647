-- ===== src/Tables.antt =====
-- The two tables of util.c, of socket_info and of proc_info.
use graftcp.Prelude.{ℕ, Option}
use graftcp.Kernel.{Kernel}
use graftcp.Uthash.{Uthash, int_key}
use graftcp.World.{Cmd, done, ◌>>=◌, ◌>>◌, pure, load_socket, load_proc, store_proc, calloc_proc}

module _ ⦃kernel : Kernel⦄ ⦃uthash : Uthash⦄ where
  open uthash use {add, del, find}

  unfoldable pub add_socket_info : ℕ → Cmd (Unit {0})
  unfolding load_socket
  add_socket_info p = do
    s ← load_socket p
    λ w. done tt (record w { socket_info_tab = add w.socket_info_tab (int_key s.magic_fd) p })

  unfoldable pub del_socket_info : ℕ → Cmd (Unit {0})
  del_socket_info p w = done tt (record w { socket_info_tab = del w.socket_info_tab p })

  unfoldable pub find_socket_info : ℕ → Cmd (Option ℕ)
  find_socket_info magic_fd w = done (find w.socket_info_tab (int_key magic_fd)) w

  unfoldable pub add_proc_info : ℕ → Cmd (Unit {0})
  unfolding load_proc
  add_proc_info p = do
    i ← load_proc p
    λ w. done tt (record w { proc_info_tab = add w.proc_info_tab (int_key i.pid) p })

  unfoldable pub del_proc_info : ℕ → Cmd (Unit {0})
  del_proc_info p w = done tt (record w { proc_info_tab = del w.proc_info_tab p })

  unfoldable pub find_proc_info : ℕ → Cmd (Option ℕ)
  find_proc_info pid w = done (find w.proc_info_tab (int_key pid)) w

  unfoldable pub alloc_proc_info : ℕ → Cmd ℕ
  unfolding calloc_proc load_proc store_proc add_proc_info
  alloc_proc_info pid = do
    newp ← calloc_proc
    i ← load_proc newp
    store_proc newp (record i { pid = pid })
    add_proc_info newp
    pure newp
