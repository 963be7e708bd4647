-- ===== src/Options/Usage.antt =====
-- The help text of usage in main.c, against the table of options of main.
use mathlib.Core.List.{Memᴰ}
use mathlib.Core.List.Memᴰ.{head, tail}
use graftcp.Prelude.{
  arith, ℕ, Bool, false, ◌≡◌, refl, Bytes, true, List, [], ◌∷◌, ◌++◌, codes, if◌then◌else◌,
}
use graftcp.Local.Pids.{has_prefix, contains}

-- struct option with no flag.
pub record LongOpt : Type 0 where
  pub name : Bytes
  pub has_arg : Bool
  pub val : ℕ

abbrev pub long_opts : List LongOpt
long_opts =
    record { name = codes "help"; has_arg = false; val = b'h' }
    ∷ record { name = codes "local-addr"; has_arg = true; val = b'a' }
    ∷ record { name = codes "local-port"; has_arg = true; val = b'p' }
    ∷ record { name = codes "local-fifo"; has_arg = true; val = b'f' }
    ∷ record { name = codes "blackip-file"; has_arg = true; val = b'b' }
    ∷ record { name = codes "whiteip-file"; has_arg = true; val = b'w' }
    ∷ record { name = codes "not-ignore-local"; has_arg = false; val = b'n' }
    ∷ []

-- The text of usage behind argv[0].
options_text : Bytes
options_text =
    codes " [options] prog [prog-args]\n\n"
    ++ codes "Options:\n"
    ++ codes "  -a --local-addr=<graftcp-local-IP-addr>\n"
    ++ codes "                    graftcp-local's IP address. Default: localhost\n"
    ++ codes "  -p --local-port=<graftcp-local-port>\n"
    ++ codes "                    Which port is graftcp-local listening? Default: 2233\n"
    ++ codes "  -f --local-fifo=<fifo-path>\n"
    ++ codes "                    Path of fifo to communicate with graftcp-local.\n"
    ++ codes "                    Default: /tmp/graftcplocal.fifo\n"
    ++ codes "  -b --blackip-file=<black-ip-file-path>\n"
    ++ codes "                    The IP in black-ip-file will connect direct\n"
    ++ codes "  -w --whiteip-file=<white-ip-file-path>\n"
    ++ codes "                    Only redirect the connect that destination ip in the\n"
    ++ codes "                    white-ip-file to SOCKS5\n"
    ++ codes "  -n --not-ignore-local\n"
    ++ codes "                    Connecting to local is not changed by default, this\n"
    ++ codes "                    option will redirect it to SOCKS5\n"
    ++ codes "  -h --help\n"
    ++ codes "                    Display this help and exit\n"
    ++ codes "\n"

-- What usage writes to standard error, for argv[0].
unfoldable pub usage : Bytes → Bytes
unfolding options_text
usage prog = codes "Usage: " ++ prog ++ options_text

-- What a line of the help text begins with for an option.
pub option_line : LongOpt → Bytes
option_line o =
    codes "\n  -"
    ++ o.val ∷ []
    ++ codes " --"
    ++ o.name
    ++ (if o.has_arg then codes "=<" else codes "\n")

contains-append : (sub xs ys : Bytes) → contains sub ys ≡ true → contains sub (xs ++ ys) ≡ true
unfolding contains
contains-append sub [] ys h = h
contains-append sub (x ∷ xs) ys h = ground (arith, contains-append sub xs ys h)

AreShown : Bytes → List LongOpt → Type 0
AreShown text [] = Unit {0}
AreShown text (o ∷ os) = (contains (option_line o) text ≡ true) × AreShown text os

AreShown-Memᴰ :
    (text : Bytes) (o : LongOpt) (os : List LongOpt)
    → Memᴰ o os
    → AreShown text os
    → contains (option_line o) text ≡ true
unfolding AreShown
AreShown-Memᴰ text o [] m h = elim m [ ]
AreShown-Memᴰ text o (p ∷ os) (head e) h = rw e (h.0)
AreShown-Memᴰ text o (p ∷ os) (tail m) h = AreShown-Memᴰ text o os m h.1

options_text-AreShown : AreShown options_text long_opts
unfolding AreShown options_text option_line contains has_prefix
options_text-AreShown = (refl, (refl, (refl, (refl, (refl, (refl, (refl, tt)))))))

-- Whatever the program is called, the help text has a line for each option of the table, with its
-- letter and its name, and with an argument exactly where the option takes one.
pub usage-long_opts :
    (prog : Bytes) (o : LongOpt) → Memᴰ o long_opts → contains (option_line o) (usage prog) ≡ true
unfolding usage
usage-long_opts prog o m =
    contains-append (option_line o) (codes "Usage: ") (prog ++ options_text) (
      contains-append (option_line o) prog options_text
        (AreShown-Memᴰ options_text o long_opts m options_text-AreShown))
