-- ===== src/Local/Tunnel/HalfClose.antt =====
-- The relay of HandleConn (local.go) with a client that closes one direction before the other.
use graftcp.Prelude.{ℕ, ◌+◌, ◌≡◌, refl, Bytes, Bool, true, []}
use graftcp.Local.Tunnel.{
  returned, Tunnel, at_end, cut_off, conn_copies, conn_at_dst, conn_at_src, conn_sends, dest_copies,
  dest_at_dst, dest_at_src, dest_sends, closes_conn, closes_dest, Proceeds, proceeds, Steps,
  none_yet, one_more, opened_tunnel,
}

-- A number of steps, none of which is an error of a connection.
pub data Proceedings (t : Tunnel) : ℕ → Tunnel → Type 0 where
  at_start : Proceedings t 0 t
  then_ : (n : ℕ) (u v : Tunnel) → Proceedings t n u → Proceeds u v → Proceedings t (n + 1) v

pub Proceedings-Steps : (t : Tunnel) (n : ℕ) (u : Tunnel) → Proceedings t n u → Steps t n u
Proceedings-Steps t _ _ at_start = none_yet
Proceedings-Steps t _ v (then_ n u _ before step) =
    one_more n u v (Proceedings-Steps t n u before) (proceeds v step)

-- A client that closes its side for writing once it has nothing more to say, while the
-- destination's answer is still to come: in some order of the steps, none an error of a
-- connection, HandleConn closes both connections, and the client gets nothing of the answer.
pub half_close-cuts :
    (answer : Bytes) (ends : Bool)
    → (t : Tunnel) × Proceedings (opened_tunnel answer ends [] true) 10 t
      × (t.handler ≡ returned)
      × (t.to_conn.delivered ≡ [])
half_close-cuts answer ends = (
  _,
  then_ 9 _ _
      (then_ 8 _ _
        (then_ 7 _ _
          (then_ 6 _ _
            (then_ 5 _ _
              (then_ 4 _ _
                (then_ 3 _ _
                  (then_ 2 _ _
                    (then_ 1 _ _ (then_ 0 _ _ at_start (dest_copies _ (at_end refl refl refl)))
                      (dest_at_dst refl))
                    (dest_at_src refl))
                  (conn_copies _ (cut_off refl refl)))
                (conn_at_dst refl))
              (conn_at_src refl))
            (conn_sends refl refl))
          (dest_sends refl refl))
        (closes_conn refl))
      (closes_dest refl),
  refl,
  refl,
)
