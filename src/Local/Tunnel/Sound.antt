-- ===== src/Local/Tunnel/Sound.antt =====
-- What holds in every state of the relay of HandleConn (local.go).
use mathlib.Core.List.{append_assoc}
use graftcp.Prelude.{ℕ, ◌≡◌, refl, Bytes, Bool, true, false, [], ◌∷◌, ◌++◌}
use graftcp.Local.Tunnel.{
  PipeAt, copying, at_dst, at_src, sending, sent, HandlerAt, at_write_chan, at_read_chan, at_close,
  at_dest_close, returned, Pipe, Tunnel, Copies, copied, at_end, cut_off, opened_tunnel,
}

-- How far pipe is: whether it is over, and the deadlines that it has set.
unfoldable pub is_sent : PipeAt → Bool
is_sent copying = false
is_sent at_dst = false
is_sent at_src = false
is_sent sending = false
is_sent sent = true

unfoldable pub past_dst : PipeAt → Bool
past_dst copying = false
past_dst at_dst = false
past_dst at_src = true
past_dst sending = true
past_dst sent = true

unfoldable pub past_src : PipeAt → Bool
past_src copying = false
past_src at_dst = false
past_src at_src = false
past_src sending = true
past_src sent = true

-- How far HandleConn is: what it has received, and what it has closed.
unfoldable pub received_write : HandlerAt → Bool
received_write at_write_chan = false
received_write at_read_chan = true
received_write at_close = true
received_write at_dest_close = true
received_write returned = true

unfoldable pub received_read : HandlerAt → Bool
received_read at_write_chan = false
received_read at_read_chan = false
received_read at_close = true
received_read at_dest_close = true
received_read returned = true

unfoldable pub closed_conn : HandlerAt → ℕ
closed_conn at_write_chan = 0
closed_conn at_read_chan = 0
closed_conn at_close = 0
closed_conn at_dest_close = 1
closed_conn returned = 1

unfoldable pub closed_dest : HandlerAt → ℕ
closed_dest at_write_chan = 0
closed_dest at_read_chan = 0
closed_dest at_close = 0
closed_dest at_dest_close = 0
closed_dest returned = 1

-- HandleConn is past a channel exactly where its pipe is over, and closes each connection once,
-- behind both; a pipe that is over has set both deadlines; and what has gone to a connection is
-- what the other one has given so far, in its order.
pub record IsSound (from_dest from_conn : Bytes) (t : Tunnel) : Type 0 where
  pub conn_over : is_sent t.to_conn.at ≡ received_write t.handler
  pub dest_over : is_sent t.to_dest.at ≡ received_read t.handler
  pub conn_dst : past_dst t.to_conn.at ≡ true → t.conn_expired ≡ true
  pub conn_src : past_src t.to_conn.at ≡ true → t.dest_expired ≡ true
  pub dest_dst : past_dst t.to_dest.at ≡ true → t.dest_expired ≡ true
  pub dest_src : past_src t.to_dest.at ≡ true → t.conn_expired ≡ true
  pub conn_closings : t.conn_closings ≡ closed_conn t.handler
  pub dest_closings : t.dest_closings ≡ closed_dest t.handler
  pub conn_bytes : t.to_conn.delivered ++ t.to_conn.incoming ≡ from_dest
  pub dest_bytes : t.to_dest.delivered ++ t.to_dest.incoming ≡ from_conn

pub opened-IsSound :
    (from_dest from_conn : Bytes) (e f : Bool)
    → IsSound from_dest from_conn (opened_tunnel from_dest e from_conn f)
unfolding is_sent past_dst past_src received_write received_read closed_conn closed_dest
opened-IsSound from_dest from_conn e f = record {
  conn_over = refl;
  dest_over = refl;
  conn_dst = λ never. cc;
  conn_src = λ never. cc;
  dest_dst = λ never. cc;
  dest_src = λ never. cc;
  conn_closings = refl;
  dest_closings = refl;
  conn_bytes = refl;
  dest_bytes = refl;
}

-- A pipe that has not yet set a deadline, before and after a step, with the same bytes.
pub record IsEarly (p q : Pipe) : Type 0 where
  pub same : is_sent q.at ≡ is_sent p.at
  pub dst : past_dst q.at ≡ false
  pub src : past_src q.at ≡ false
  pub bytes : q.delivered ++ q.incoming ≡ p.delivered ++ p.incoming

pub at_dst-IsEarly : (p : Pipe) → p.at ≡ copying → IsEarly p (record p { at = at_dst })
unfolding is_sent past_dst past_src
at_dst-IsEarly p e = record { same = rw e refl; dst = refl; src = refl; bytes = refl }

pub Copies-IsEarly : (b : Bool) (p q : Pipe) → Copies b p q → IsEarly p q
unfolding is_sent past_dst past_src
Copies-IsEarly b p _ (copied c left e f) = record {
  same = refl;
  dst = rw e refl;
  src = rw e refl;
  bytes = rw f (append_assoc p.delivered (c ∷ []) left);
}
Copies-IsEarly b p _ (at_end e f g) = at_dst-IsEarly p e
Copies-IsEarly b p _ (cut_off e f) = at_dst-IsEarly p e
