-- ===== src/Local/Tunnel/Kept.antt =====
-- Every step of the relay of HandleConn (local.go) keeps what Sound says.
use graftcp.Prelude.{ℕ, refl, ◌∙◌, arith, Bytes, Bool}
use graftcp.Local.Tunnel.{
  Pipe, Tunnel, Proceeds, conn_copies, conn_at_dst, conn_at_src, conn_sends, dest_copies,
  dest_at_dst, dest_at_src, dest_sends, closes_conn, closes_dest, Step, proceeds, conn_breaks,
  dest_breaks, Steps, none_yet, one_more, opened_tunnel,
}
use graftcp.Local.Tunnel.Sound.{
  is_sent, past_dst, past_src, received_write, received_read, closed_conn, closed_dest, IsSound,
  opened-IsSound, IsEarly, at_dst-IsEarly, Copies-IsEarly,
}

module _ (from_dest from_conn : Bytes) (t : Tunnel) (s : IsSound from_dest from_conn t) where
  conn_early :
      (q : Pipe) → IsEarly t.to_conn q → IsSound from_dest from_conn (record t { to_conn = q })
  conn_early q k = record {
    conn_over = k.same ∙ s.conn_over;
    dest_over = s.dest_over;
    conn_dst = λ e. let d = k.dst in cc;
    conn_src = λ e. let d = k.src in cc;
    dest_dst = s.dest_dst;
    dest_src = s.dest_src;
    conn_closings = s.conn_closings;
    dest_closings = s.dest_closings;
    conn_bytes = k.bytes ∙ s.conn_bytes;
    dest_bytes = s.dest_bytes;
  }

  dest_early :
      (q : Pipe) → IsEarly t.to_dest q → IsSound from_dest from_conn (record t { to_dest = q })
  dest_early q k = record {
    conn_over = s.conn_over;
    dest_over = k.same ∙ s.dest_over;
    conn_dst = s.conn_dst;
    conn_src = s.conn_src;
    dest_dst = λ e. let d = k.dst in cc;
    dest_src = λ e. let d = k.src in cc;
    conn_closings = s.conn_closings;
    dest_closings = s.dest_closings;
    conn_bytes = s.conn_bytes;
    dest_bytes = k.bytes ∙ s.dest_bytes;
  }

  Proceeds-IsSound : (u : Tunnel) → Proceeds t u → IsSound from_dest from_conn u
  unfolding is_sent past_dst past_src received_write received_read closed_conn closed_dest
  Proceeds-IsSound _ (conn_copies p c) = conn_early p (Copies-IsEarly _ t.to_conn p c)
  Proceeds-IsSound _ (dest_copies p c) = dest_early p (Copies-IsEarly _ t.to_dest p c)
  Proceeds-IsSound _ (conn_at_dst e) = record {
    conn_over = rw e at s.conn_over;
    dest_over = s.dest_over;
    conn_dst = λ h. refl;
    conn_src = λ h. cc;
    dest_dst = s.dest_dst;
    dest_src = λ h. refl;
    conn_closings = s.conn_closings;
    dest_closings = s.dest_closings;
    conn_bytes = s.conn_bytes;
    dest_bytes = s.dest_bytes;
  }
  Proceeds-IsSound _ (conn_at_src e) = record {
    conn_over = rw e at s.conn_over;
    dest_over = s.dest_over;
    conn_dst = λ h. s.conn_dst (rw e refl);
    conn_src = λ h. refl;
    dest_dst = λ h. refl;
    dest_src = s.dest_src;
    conn_closings = s.conn_closings;
    dest_closings = s.dest_closings;
    conn_bytes = s.conn_bytes;
    dest_bytes = s.dest_bytes;
  }
  Proceeds-IsSound _ (conn_sends e f) = record {
    conn_over = refl;
    dest_over = rw f at s.dest_over;
    conn_dst = λ h. s.conn_dst (rw e refl);
    conn_src = λ h. s.conn_src (rw e refl);
    dest_dst = s.dest_dst;
    dest_src = s.dest_src;
    conn_closings = rw f at s.conn_closings;
    dest_closings = rw f at s.dest_closings;
    conn_bytes = s.conn_bytes;
    dest_bytes = s.dest_bytes;
  }
  Proceeds-IsSound _ (dest_at_dst e) = record {
    conn_over = s.conn_over;
    dest_over = rw e at s.dest_over;
    conn_dst = s.conn_dst;
    conn_src = λ h. refl;
    dest_dst = λ h. refl;
    dest_src = λ h. cc;
    conn_closings = s.conn_closings;
    dest_closings = s.dest_closings;
    conn_bytes = s.conn_bytes;
    dest_bytes = s.dest_bytes;
  }
  Proceeds-IsSound _ (dest_at_src e) = record {
    conn_over = s.conn_over;
    dest_over = rw e at s.dest_over;
    conn_dst = λ h. refl;
    conn_src = s.conn_src;
    dest_dst = λ h. s.dest_dst (rw e refl);
    dest_src = λ h. refl;
    conn_closings = s.conn_closings;
    dest_closings = s.dest_closings;
    conn_bytes = s.conn_bytes;
    dest_bytes = s.dest_bytes;
  }
  Proceeds-IsSound _ (dest_sends e f) = record {
    conn_over = rw f at s.conn_over;
    dest_over = refl;
    conn_dst = s.conn_dst;
    conn_src = s.conn_src;
    dest_dst = λ h. s.dest_dst (rw e refl);
    dest_src = λ h. s.dest_src (rw e refl);
    conn_closings = rw f at s.conn_closings;
    dest_closings = rw f at s.dest_closings;
    conn_bytes = s.conn_bytes;
    dest_bytes = s.dest_bytes;
  }
  Proceeds-IsSound _ (closes_conn e) = record {
    conn_over = rw e at s.conn_over;
    dest_over = rw e at s.dest_over;
    conn_dst = s.conn_dst;
    conn_src = s.conn_src;
    dest_dst = s.dest_dst;
    dest_src = s.dest_src;
    conn_closings = ground (arith, rw e at s.conn_closings);
    dest_closings = rw e at s.dest_closings;
    conn_bytes = s.conn_bytes;
    dest_bytes = s.dest_bytes;
  }
  Proceeds-IsSound _ (closes_dest e) = record {
    conn_over = rw e at s.conn_over;
    dest_over = rw e at s.dest_over;
    conn_dst = s.conn_dst;
    conn_src = s.conn_src;
    dest_dst = s.dest_dst;
    dest_src = s.dest_src;
    conn_closings = rw e at s.conn_closings;
    dest_closings = ground (arith, rw e at s.dest_closings);
    conn_bytes = s.conn_bytes;
    dest_bytes = s.dest_bytes;
  }

  Step-IsSound : (u : Tunnel) → Step t u → IsSound from_dest from_conn u
  Step-IsSound _ (proceeds u p) = Proceeds-IsSound u p
  Step-IsSound _ (conn_breaks e) = conn_early _ (at_dst-IsEarly t.to_conn e)
  Step-IsSound _ (dest_breaks e) = dest_early _ (at_dst-IsEarly t.to_dest e)

pub run-IsSound :
    (from_dest from_conn : Bytes) (e f : Bool) (n : ℕ) (t : Tunnel)
    → Steps (opened_tunnel from_dest e from_conn f) n t
    → IsSound from_dest from_conn t
run-IsSound from_dest from_conn e f _ _ none_yet = opened-IsSound from_dest from_conn e f
run-IsSound from_dest from_conn e f _ t (one_more n u _ run now) =
    Step-IsSound from_dest from_conn u (run-IsSound from_dest from_conn e f n u run) t now
