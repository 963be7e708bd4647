-- ===== src/Local/Tunnel/Progress.antt =====
-- The relay of HandleConn (local.go) comes to its end.
use graftcp.Prelude.{
  ℕ, suc, ◌+◌, ◌≤◌, ◌≡◌, ◌⊎◌, inl, inr, refl, arith, Bytes, Bool, true, false, ◌||◌, [], ◌∷◌,
  length,
}
use graftcp.Local.Tunnel.{
  PipeAt, copying, at_dst, at_src, sending, sent, HandlerAt, at_write_chan, at_read_chan, at_close,
  at_dest_close, returned, Pipe, Tunnel, Copies, copied, at_end, cut_off, Proceeds, conn_copies,
  conn_at_dst, conn_at_src, conn_sends, dest_copies, dest_at_dst, dest_at_src, dest_sends,
  closes_conn, closes_dest, Step, proceeds, conn_breaks, dest_breaks, Steps, none_yet, one_more,
  opened_tunnel,
}
use graftcp.Local.Tunnel.Sound.{is_sent, past_dst, past_src, received_write, received_read, IsSound}
use graftcp.Local.Tunnel.Kept.{run-IsSound}

-- How many steps are left at most.
pub pipe_steps : PipeAt → ℕ
pipe_steps copying = 4
pipe_steps at_dst = 3
pipe_steps at_src = 2
pipe_steps sending = 1
pipe_steps sent = 0

pub handler_steps : HandlerAt → ℕ
handler_steps at_write_chan = 4
handler_steps at_read_chan = 3
handler_steps at_close = 2
handler_steps at_dest_close = 1
handler_steps returned = 0

pub steps_left : Tunnel → ℕ
steps_left t =
    (pipe_steps t.to_conn.at + length t.to_conn.incoming)
    + (pipe_steps t.to_dest.at + length t.to_dest.incoming)
    + handler_steps t.handler

Copies-fewer :
    (b : Bool) (p q : Pipe)
    → Copies b p q
    → suc (pipe_steps q.at + length q.incoming) ≤ pipe_steps p.at + length p.incoming
unfolding pipe_steps
Copies-fewer b p _ (copied c left e f) = rw (e, f) (omega arith)
Copies-fewer b p _ (at_end e f g) = rw e (omega arith)
Copies-fewer b p _ (cut_off e f) = rw e (omega arith)

Proceeds-fewer : (t u : Tunnel) → Proceeds t u → suc (steps_left u) ≤ steps_left t
unfolding pipe_steps handler_steps steps_left
Proceeds-fewer t _ (conn_copies p c) = omega (arith, Copies-fewer _ t.to_conn p c)
Proceeds-fewer t _ (dest_copies p c) = omega (arith, Copies-fewer _ t.to_dest p c)
Proceeds-fewer t _ (conn_at_dst e) = rw e (omega arith)
Proceeds-fewer t _ (conn_at_src e) = rw e (omega arith)
Proceeds-fewer t _ (conn_sends e f) = rw (e, f) (omega arith)
Proceeds-fewer t _ (dest_at_dst e) = rw e (omega arith)
Proceeds-fewer t _ (dest_at_src e) = rw e (omega arith)
Proceeds-fewer t _ (dest_sends e f) = rw (e, f) (omega arith)
Proceeds-fewer t _ (closes_conn e) = rw e (omega arith)
Proceeds-fewer t _ (closes_dest e) = rw e (omega arith)

Step-fewer : (t u : Tunnel) → Step t u → suc (steps_left u) ≤ steps_left t
unfolding pipe_steps handler_steps steps_left
Step-fewer t _ (proceeds u p) = Proceeds-fewer t u p
Step-fewer t _ (conn_breaks e) = rw e (omega arith)
Step-fewer t _ (dest_breaks e) = rw e (omega arith)

Steps-fewer : (t : Tunnel) (n : ℕ) (u : Tunnel) → Steps t n u → n + steps_left u ≤ steps_left t
Steps-fewer t _ _ none_yet = omega arith
Steps-fewer t _ v (one_more n u _ run now) =
    omega (arith, Steps-fewer t n u run, Step-fewer u v now)

-- Both sources stay open, have nothing more to give, and no deadline is set.
pub record IsIdle (t : Tunnel) : Type 0 where
  pub conn_waits : (t.to_conn.at ≡ copying) × (t.to_conn.incoming ≡ []) × (t.to_conn.ends ≡ false)
  pub dest_waits : (t.to_dest.at ≡ copying) × (t.to_dest.incoming ≡ []) × (t.to_dest.ends ≡ false)
  pub unexpired : (t.conn_expired || t.dest_expired) ≡ false

-- io.Copy goes on, or it waits for its source.
Copies-cases :
    (b : Bool) (p : Pipe)
    → p.at ≡ copying
    → ((q : Pipe) × Copies b p q) ⊎ ((b ≡ false) × (p.incoming ≡ []) × (p.ends ≡ false))
Copies-cases b p e = from p.incoming refl b refl p.ends refl
  where
    from :
        (left : Bytes)
        → p.incoming ≡ left
        → (c : Bool) → b ≡ c
        → (d : Bool) → p.ends ≡ d
        → ((q : Pipe) × Copies b p q) ⊎ ((b ≡ false) × (p.incoming ≡ []) × (p.ends ≡ false))
    from (x ∷ left) f c g d h = inl (_, copied x left e f)
    from [] f c g true h = inl (_, at_end e f h)
    from [] f true g false h = inl (_, cut_off e g)
    from [] f false g false h = inr (g, f, h)

pub GoesOn : Tunnel → Type 0
GoesOn t = (u : Tunnel) × Proceeds t u

sent_past : (a : PipeAt) → is_sent a ≡ true → past_dst a ≡ true
unfolding is_sent past_dst
sent_past sent e = refl
sent_past copying e = cc
sent_past at_dst e = cc
sent_past at_src e = cc
sent_past sending e = cc

module _ (from_dest from_conn : Bytes) (t : Tunnel) (s : IsSound from_dest from_conn t) where
  -- The pipe to the destination goes on, or waits, or is at its channel, or behind.
  dest_goes :
      (a : PipeAt) → t.to_dest.at ≡ a → t.handler ≡ at_read_chan → t.conn_expired ≡ true → GoesOn t
  unfolding GoesOn is_sent received_read
  dest_goes copying e h x = elim (Copies-cases (t.conn_expired || t.dest_expired) t.to_dest e) [
    | inl (q, c) ↦ (_, dest_copies q c)
    | inr (never, _, _) ↦ absurd (ground arith)
  ]
  dest_goes at_dst e h x = (_, dest_at_dst e)
  dest_goes at_src e h x = (_, dest_at_src e)
  dest_goes sending e h x = (_, dest_sends e h)
  dest_goes sent e h x = let never : true ≡ false = rw (e, h) at s.dest_over in cc

  both_wait :
      (a : PipeAt)
      → t.to_dest.at ≡ a
      → (t.to_conn.at ≡ copying) × (t.to_conn.incoming ≡ []) × (t.to_conn.ends ≡ false)
      → (t.conn_expired || t.dest_expired) ≡ false
      → GoesOn t ⊎ IsIdle t
  unfolding GoesOn past_src
  both_wait copying e w x = elim (Copies-cases (t.conn_expired || t.dest_expired) t.to_dest e) [
    | inl (q, c) ↦ inl (_, dest_copies q c)
    | inr (_, f, g) ↦ inr (record { conn_waits = w; dest_waits = (e, f, g); unexpired = x })
  ]
  both_wait at_dst e w x = inl (_, dest_at_dst e)
  both_wait at_src e w x = inl (_, dest_at_src e)
  both_wait sending e w x =
      let over : t.conn_expired ≡ true = s.dest_src (rw e refl) in absurd (ground arith)
  both_wait sent e w x =
      let over : t.conn_expired ≡ true = s.dest_src (rw e refl) in absurd (ground arith)

  conn_goes : (a : PipeAt) → t.to_conn.at ≡ a → t.handler ≡ at_write_chan → GoesOn t ⊎ IsIdle t
  unfolding GoesOn is_sent received_write
  conn_goes copying e h = elim (Copies-cases (t.conn_expired || t.dest_expired) t.to_conn e) [
    | inl (q, c) ↦ inl (_, conn_copies q c)
    | inr (x, f, g) ↦ both_wait t.to_dest.at refl (e, f, g) x
  ]
  conn_goes at_dst e h = inl (_, conn_at_dst e)
  conn_goes at_src e h = inl (_, conn_at_src e)
  conn_goes sending e h = inl (_, conn_sends e h)
  conn_goes sent e h = let never : true ≡ false = rw (e, h) at s.conn_over in cc

  handler_goes : (a : HandlerAt) → t.handler ≡ a → (t.handler ≡ returned) ⊎ (GoesOn t ⊎ IsIdle t)
  unfolding GoesOn received_write
  handler_goes at_write_chan h = inr (conn_goes t.to_conn.at refl h)
  handler_goes at_read_chan h = inr (
      inl
        (dest_goes t.to_dest.at refl h (s.conn_dst (sent_past t.to_conn.at (rw h at s.conn_over)))))
  handler_goes at_close h = inr (inl (_, closes_conn h))
  handler_goes at_dest_close h = inr (inl (_, closes_dest h))
  handler_goes returned h = inl h

-- From the start of the two pipes, on whatever the two connections give and in whatever order the
-- three goroutines run: there are at most as many steps as the bytes that the connections give, and
-- twelve. In each state HandleConn has returned, or one of the three can take a step that needs no
-- error, or both pipes wait for a connection that stays open, with no deadline set. HandleConn
-- closes each connection once, and not before both pipes are over; and each connection gets bytes
-- that the other one gives, from its first one on, in their order.
pub steps-IsSound :
    (from_dest from_conn : Bytes) (e f : Bool) (n : ℕ) (t : Tunnel)
    → Steps (opened_tunnel from_dest e from_conn f) n t
    → (n ≤ length from_dest + length from_conn + 12)
      × ((t.handler ≡ returned) ⊎ (GoesOn t ⊎ IsIdle t))
      × IsSound from_dest from_conn t
unfolding steps_left pipe_steps handler_steps
steps-IsSound from_dest from_conn e f n t run =
    let s = run-IsSound from_dest from_conn e f n t run in
    (omega (arith, Steps-fewer _ n t run), handler_goes from_dest from_conn t s t.handler refl, s)
