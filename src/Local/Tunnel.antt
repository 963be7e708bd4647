-- ===== src/Local/Tunnel.antt =====
-- The end of HandleConn in graftcp-local/local.go once the dial has succeeded: the two goroutines
-- that run pipe, the two channels without a buffer, and the closing, as the steps of the three.
pub mod Sound
pub mod Kept
pub mod Progress
pub mod HalfClose
use graftcp.Prelude.{ℕ, ◌+◌, ◌≡◌, ◌||◌, Bytes, Bool, true, false, List, [], ◌∷◌, ◌++◌}

-- Where pipe stands: in io.Copy, in front of dst.SetDeadline, in front of src.SetDeadline, at the
-- channel, and behind it.
pub data PipeAt : Type 0 where
  copying at_dst at_src sending sent : PipeAt

-- Where HandleConn stands: at the two channels, at the two closings, and at the return.
pub data HandlerAt : Type 0 where
  at_write_chan at_read_chan at_close at_dest_close returned : HandlerAt

-- A call of pipe: what its src has yet to give, whether src ends behind that or stays open, and
-- what has gone to dst.
pub record Pipe : Type 0 where
  pub at : PipeAt
  pub incoming : Bytes
  pub ends : Bool
  pub delivered : Bytes

-- The first pipe is pipe(conn, destConn, writeChan), and the second pipe(destConn, conn, readChan).
pub record Tunnel : Type 0 where
  pub handler : HandlerAt
  pub to_conn : Pipe
  pub to_dest : Pipe
  pub conn_expired : Bool
  pub dest_expired : Bool
  pub conn_closings : ℕ
  pub dest_closings : ℕ

-- io.Copy goes on by a byte, or ends: where src is at its end, or the deadline of one of the two
-- connections has passed.
pub data Copies (expired : Bool) (p : Pipe) : Pipe → Type 0 where
  copied :
      (b : ℕ) (left : Bytes)
      → p.at ≡ copying
      → p.incoming ≡ b ∷ left
      → Copies expired p (record p { incoming = left; delivered = p.delivered ++ b ∷ [] })
  at_end :
      p.at ≡ copying → p.incoming ≡ [] → p.ends ≡ true → Copies expired p (record p { at = at_dst })
  cut_off : p.at ≡ copying → expired ≡ true → Copies expired p (record p { at = at_dst })

-- The steps that nothing but the connections' data keeps from coming.
pub data Proceeds (t : Tunnel) : Tunnel → Type 0 where
  conn_copies :
      (p : Pipe)
      → Copies (t.conn_expired || t.dest_expired) t.to_conn p
      → Proceeds t (record t { to_conn = p })
  conn_at_dst :
      t.to_conn.at ≡ at_dst
      → Proceeds t (record t { to_conn = record t.to_conn { at = at_src }; conn_expired = true })
  conn_at_src :
      t.to_conn.at ≡ at_src
      → Proceeds t (record t { to_conn = record t.to_conn { at = sending }; dest_expired = true })
  conn_sends :
      t.to_conn.at ≡ sending
      → t.handler ≡ at_write_chan
      → Proceeds t (record t { to_conn = record t.to_conn { at = sent }; handler = at_read_chan })
  dest_copies :
      (p : Pipe)
      → Copies (t.conn_expired || t.dest_expired) t.to_dest p
      → Proceeds t (record t { to_dest = p })
  dest_at_dst :
      t.to_dest.at ≡ at_dst
      → Proceeds t (record t { to_dest = record t.to_dest { at = at_src }; dest_expired = true })
  dest_at_src :
      t.to_dest.at ≡ at_src
      → Proceeds t (record t { to_dest = record t.to_dest { at = sending }; conn_expired = true })
  dest_sends :
      t.to_dest.at ≡ sending
      → t.handler ≡ at_read_chan
      → Proceeds t (record t { to_dest = record t.to_dest { at = sent }; handler = at_close })
  closes_conn :
      t.handler ≡ at_close
      → Proceeds t (record t { handler = at_dest_close; conn_closings = t.conn_closings + 1 })
  closes_dest :
      t.handler ≡ at_dest_close
      → Proceeds t (record t { handler = returned; dest_closings = t.dest_closings + 1 })

-- An error of a connection ends io.Copy at any time.
pub data Step (t : Tunnel) : Tunnel → Type 0 where
  proceeds : (u : Tunnel) → Proceeds t u → Step t u
  conn_breaks :
      t.to_conn.at ≡ copying → Step t (record t { to_conn = record t.to_conn { at = at_dst } })
  dest_breaks :
      t.to_dest.at ≡ copying → Step t (record t { to_dest = record t.to_dest { at = at_dst } })

-- A number of steps, of the three goroutines in any order.
pub data Steps (t : Tunnel) : ℕ → Tunnel → Type 0 where
  none_yet : Steps t 0 t
  one_more : (n : ℕ) (u v : Tunnel) → Steps t n u → Step u v → Steps t (n + 1) v

-- The goroutines start, with what destConn and conn will give and whether they end behind it.
abbrev pub opened_pipe : Bytes → Bool → Pipe
opened_pipe stream ends = record { at = copying; incoming = stream; ends = ends; delivered = [] }

abbrev pub opened_tunnel : Bytes → Bool → Bytes → Bool → Tunnel
opened_tunnel from_dest dest_ends from_conn conn_ends = record {
  handler = at_write_chan;
  to_conn = opened_pipe from_dest dest_ends;
  to_dest = opened_pipe from_conn conn_ends;
  conn_expired = false;
  dest_expired = false;
  conn_closings = 0;
  dest_closings = 0;
}
