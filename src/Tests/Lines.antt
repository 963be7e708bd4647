-- ===== src/Tests/Lines.antt =====
-- The lines of the fifo, on samples.
use graftcp.Prelude.{◌≡◌, refl, Bytes, some, [], ◌∷◌}
use graftcp.Address.{decimal, fifo_line}
use graftcp.Tests.Machine.{machine}
use graftcp.Tests.Samples.{libc}
use graftcp.Local.{parse_line, read_line}
use graftcp.Local.Lines.{avoids, shown, parse_line-fifo_line}

-- "::1"
abbrev colons : Bytes
colons = b':' ∷ b':' ∷ b'1' ∷ []

parse_line-fifo_line_example :
    parse_line (read_line (fifo_line colons 8080 100))
    ≡ some (decimal 100, shown colons (decimal 8080))
unfolding avoids
parse_line-fifo_line_example = parse_line-fifo_line colons 8080 100 refl
