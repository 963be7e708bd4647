-- ===== src/Options/Reading.antt =====
-- The option loop of main.c against what the options say: the last value of each, and the strings
-- of the files.
use graftcp.Prelude.{
  ℕ, ◌%◌, ◌^◌, ◌≡◌, refl, ◌∙◌, arith, Bytes, Bool, true, false, ◌||◌, ◌&&◌, Option, none, some,
  List, [], ◌∷◌,
}
use graftcp.StringSet.{CString, StrSet, ok}
use graftcp.StringSet.Refinement.{contains}
use graftcp.Filter.{load_blackip_file, load_whiteip_file}
use graftcp.Filter.Texts.{file_texts, wanted-file_texts}
use graftcp.Filter.Loading.{Loads, listed, IsValidOption, load_ip_file-wanted}
use graftcp.Options.{
  Host, Opt, opt_a, opt_p, opt_f, opt_b, opt_w, opt_n, opt_h, Settings, read_options,
}

abbrev pub is_set : Option StrSet → Bool
is_set none = false
is_set (some s) = true

abbrev pub reads : Option Bytes → Bool
reads none = false
reads (some f) = true

-- The lines of the file of a list.
abbrev pub strings : Option Bytes → List Bytes
strings none = []
strings (some f) = file_texts f

-- The values of the last options, or those before.
abbrev pub last_addr : List Opt → CString → CString
last_addr [] v = v
last_addr (opt_a a ∷ opts) v = last_addr opts a
last_addr (opt_p p ∷ opts) v = last_addr opts v
last_addr (opt_f f ∷ opts) v = last_addr opts v
last_addr (opt_b b ∷ opts) v = last_addr opts v
last_addr (opt_w w ∷ opts) v = last_addr opts v
last_addr (opt_n ∷ opts) v = last_addr opts v
last_addr (opt_h ∷ opts) v = last_addr opts v

abbrev pub last_fifo : List Opt → Bytes → Bytes
last_fifo [] v = v
last_fifo (opt_a a ∷ opts) v = last_fifo opts v
last_fifo (opt_p p ∷ opts) v = last_fifo opts v
last_fifo (opt_f f ∷ opts) v = last_fifo opts f
last_fifo (opt_b b ∷ opts) v = last_fifo opts v
last_fifo (opt_w w ∷ opts) v = last_fifo opts v
last_fifo (opt_n ∷ opts) v = last_fifo opts v
last_fifo (opt_h ∷ opts) v = last_fifo opts v

abbrev pub ignores_local : List Opt → Bool
ignores_local [] = true
ignores_local (opt_a a ∷ opts) = ignores_local opts
ignores_local (opt_p p ∷ opts) = ignores_local opts
ignores_local (opt_f f ∷ opts) = ignores_local opts
ignores_local (opt_b b ∷ opts) = ignores_local opts
ignores_local (opt_w w ∷ opts) = ignores_local opts
ignores_local (opt_n ∷ opts) = false
ignores_local (opt_h ∷ opts) = ignores_local opts

abbrev pub has_white : List Opt → Bool
has_white [] = false
has_white (opt_a a ∷ opts) = has_white opts
has_white (opt_p p ∷ opts) = has_white opts
has_white (opt_f f ∷ opts) = has_white opts
has_white (opt_b b ∷ opts) = has_white opts
has_white (opt_w w ∷ opts) = true
has_white (opt_n ∷ opts) = has_white opts
has_white (opt_h ∷ opts) = has_white opts

-- Settings with the given values; the lists by their members.
pub record Has (addr_ : CString) (port_ : ℕ) (fifo_ : Bytes) (local_ : Bool)
    (black_ white_ : Bytes → Bool) (white_set_ : Bool) (r : Settings) : Type 0 where
  pub addr : r.local_addr ≡ addr_
  pub port : r.local_port ≡ port_
  pub fifo : r.local_pipe_paht ≡ fifo_
  pub local : r.ignore_local ≡ local_
  pub black_valid : IsValidOption r.lists.blacklist_ip
  pub black : (q : Bytes) → listed r.lists.blacklist_ip q ≡ black_ q
  pub white_valid : IsValidOption r.lists.whitelacklist_ip
  pub white : (q : Bytes) → listed r.lists.whitelacklist_ip q ≡ white_ q
  pub white_set : is_set r.lists.whitelacklist_ip ≡ white_set_

module _ ⦃host : Host⦄ where
  abbrev pub last_port : List Opt → ℕ → ℕ
  last_port [] v = v
  last_port (opt_a a ∷ opts) v = last_port opts v
  last_port (opt_p p ∷ opts) v = last_port opts (host.atoi p % 2 ^ 16)
  last_port (opt_f f ∷ opts) v = last_port opts v
  last_port (opt_b b ∷ opts) v = last_port opts v
  last_port (opt_w w ∷ opts) v = last_port opts v
  last_port (opt_n ∷ opts) v = last_port opts v
  last_port (opt_h ∷ opts) v = last_port opts v

  -- Whether some file of the black, or of the white list, has the string as a line.
  abbrev pub in_black : List Opt → Bytes → Bool
  in_black [] q = false
  in_black (opt_a a ∷ opts) q = in_black opts q
  in_black (opt_p p ∷ opts) q = in_black opts q
  in_black (opt_f f ∷ opts) q = in_black opts q
  in_black (opt_b b ∷ opts) q = in_black opts q || contains q (strings (host.file b))
  in_black (opt_w w ∷ opts) q = in_black opts q
  in_black (opt_n ∷ opts) q = in_black opts q
  in_black (opt_h ∷ opts) q = in_black opts q

  abbrev pub in_white : List Opt → Bytes → Bool
  in_white [] q = false
  in_white (opt_a a ∷ opts) q = in_white opts q
  in_white (opt_p p ∷ opts) q = in_white opts q
  in_white (opt_f f ∷ opts) q = in_white opts q
  in_white (opt_b b ∷ opts) q = in_white opts q
  in_white (opt_w w ∷ opts) q = in_white opts q || contains q (strings (host.file w))
  in_white (opt_n ∷ opts) q = in_white opts q
  in_white (opt_h ∷ opts) q = in_white opts q

  -- Every option is known, and every file of a list can be opened.
  abbrev pub usable : List Opt → Bool
  usable [] = true
  usable (opt_a a ∷ opts) = usable opts
  usable (opt_p p ∷ opts) = usable opts
  usable (opt_f f ∷ opts) = usable opts
  usable (opt_b b ∷ opts) = reads (host.file b) && usable opts
  usable (opt_w w ∷ opts) = reads (host.file w) && usable opts
  usable (opt_n ∷ opts) = usable opts
  usable (opt_h ∷ opts) = false

  -- What the settings are after the options.
  abbrev pub Follows : List Opt → Settings → Settings → Type 0
  Follows opts s r =
      Has (last_addr opts s.local_addr) (last_port opts s.local_port)
        (last_fifo opts s.local_pipe_paht) (s.ignore_local && ignores_local opts)
        (λ q. in_black opts q || listed s.lists.blacklist_ip q)
        (λ q. in_white opts q || listed s.lists.whitelacklist_ip q)
        (has_white opts || is_set s.lists.whitelacklist_ip) r

  abbrev Reached : List Opt → Settings → Type 0
  Reached opts s = (r : Settings) × (read_options opts s ≡ ok r) × Follows opts s r

  -- A file that can be opened is loaded.
  pub load_black :
      (f : Option Bytes) (s : Settings)
      → reads f ≡ true
      → IsValidOption s.lists.blacklist_ip
      → (set : StrSet) × (n : ℕ) × (load_blackip_file f s.lists s.next
          ≡ ok (record s.lists { blacklist_ip = some set }, n))
        × Loads (listed s.lists.blacklist_ip) (strings f) set
  unfolding load_blackip_file
  load_black none s h v = cc
  load_black (some f) s h v =
      let (set, n, run, l) = load_ip_file-wanted f s.lists.blacklist_ip s.next v in
      (set, n, rw run, rw (← wanted-file_texts f) l)

  pub load_white :
      (f : Option Bytes) (s : Settings)
      → reads f ≡ true
      → IsValidOption s.lists.whitelacklist_ip
      → (set : StrSet) × (n : ℕ) × (load_whiteip_file f s.lists s.next
          ≡ ok (record s.lists { whitelacklist_ip = some set }, n))
        × Loads (listed s.lists.whitelacklist_ip) (strings f) set
  unfolding load_whiteip_file
  load_white none s h v = cc
  load_white (some f) s h v =
      let (set, n, run, l) = load_ip_file-wanted f s.lists.whitelacklist_ip s.next v in
      (set, n, rw run, rw (← wanted-file_texts f) l)

  loaded_or : (x y z u : Bool) → u ≡ (y || z) → (x || u) ≡ ((x || y) || z)
  loaded_or x y z u h = ground arith

  pub read_options-Follows :
      (opts : List Opt) (s : Settings)
      → usable opts ≡ true
      → IsValidOption s.lists.blacklist_ip
      → IsValidOption s.lists.whitelacklist_ip
      → Reached opts s
  unfolding read_options
  read_options-Follows [] s h v w = (
    s,
    refl,
    record {
      addr = refl;
      port = refl;
      fifo = refl;
      local = ground arith;
      black_valid = v;
      black = λ q. refl;
      white_valid = w;
      white = λ q. refl;
      white_set = refl;
    },
  )
  read_options-Follows (opt_a a ∷ opts) s h v w =
      read_options-Follows opts (record s { local_addr = a }) h v w
  read_options-Follows (opt_p p ∷ opts) s h v w =
      read_options-Follows opts (record s { local_port = host.atoi p % 2 ^ 16 }) h v w
  read_options-Follows (opt_f x ∷ opts) s h v w =
      read_options-Follows opts (record s { local_pipe_paht = x }) h v w
  read_options-Follows (opt_n ∷ opts) s h v w =
      let (r, run, f) = read_options-Follows opts (record s { ignore_local = false }) h v w in
      (
        r,
        run,
        record {
          addr = f.addr;
          port = f.port;
          fifo = f.fifo;
          local = ground (arith, f.local);
          black_valid = f.black_valid;
          black = f.black;
          white_valid = f.white_valid;
          white = f.white;
          white_set = f.white_set;
        },
      )
  read_options-Follows (opt_h ∷ opts) s h v w = cc
  read_options-Follows (opt_b b ∷ opts) s h v w =
      let (set, n, put, l) = load_black (host.file b) s (ground (arith, h)) v in
      let lists = record s.lists { blacklist_ip = some set } in
      let (r, run, f) =
        read_options-Follows opts (record s { lists = lists; next = n }) (ground (arith, h)) l.valid
          w in
      (
        r,
        rw put run,
        record {
          addr = f.addr;
          port = f.port;
          fifo = f.fifo;
          local = f.local;
          black_valid = f.black_valid;
          black = λ q. f.black q ∙ loaded_or (in_black opts q) _ _ _ (l.member q);
          white_valid = f.white_valid;
          white = f.white;
          white_set = f.white_set;
        },
      )
  read_options-Follows (opt_w x ∷ opts) s h v w =
      let (set, n, put, l) = load_white (host.file x) s (ground (arith, h)) w in
      let lists = record s.lists { whitelacklist_ip = some set } in
      let (r, run, f) =
        read_options-Follows opts (record s { lists = lists; next = n }) (ground (arith, h)) v
          l.valid in
      (
        r,
        rw put run,
        record {
          addr = f.addr;
          port = f.port;
          fifo = f.fifo;
          local = f.local;
          black_valid = f.black_valid;
          black = f.black;
          white_valid = f.white_valid;
          white = λ q. f.white q ∙ loaded_or (in_white opts q) _ _ _ (l.member q);
          white_set = ground (arith, f.white_set);
        },
      )
