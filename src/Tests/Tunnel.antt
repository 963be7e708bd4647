-- ===== src/Tests/Tunnel.antt =====
-- The relay of one connection, where the client closes its side for writing before the answer
-- comes.
use graftcp.Prelude.{◌+◌, ◌≤◌, ◌≡◌, ◌⊎◌, Bytes, true, false, [], codes, length}
use graftcp.Local.Tunnel.{Tunnel, opened_tunnel, returned}
use graftcp.Local.Tunnel.Sound.{IsSound}
use graftcp.Local.Tunnel.Progress.{GoesOn, IsIdle, steps-IsSound}
use graftcp.Local.Tunnel.HalfClose.{Proceedings, Proceedings-Steps, half_close-cuts}

abbrev answer : Bytes
answer = codes "ok"

half_close-cuts_example :
    (t : Tunnel) × Proceedings (opened_tunnel answer false [] true) 10 t
    × (t.handler ≡ returned)
    × (t.to_conn.delivered ≡ [])
half_close-cuts_example = half_close-cuts answer false

-- The state behind this run.
abbrev last : Tunnel
last = (half_close-cuts answer false).0

steps-IsSound_example :
    (10 ≤ length answer + 0 + 12)
    × ((last.handler ≡ returned) ⊎ (GoesOn last ⊎ IsIdle last))
    × IsSound answer [] last
steps-IsSound_example =
    steps-IsSound answer [] false true 10 last
      (Proceedings-Steps _ 10 last (half_close-cuts answer false).1)
