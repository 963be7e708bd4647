-- ===== src/Local/Settings/Precedence.antt =====
-- Which value a setting of graftcp-local gets: the command line's, the configuration file's or the
-- default's (config.go).
use mathlib.Core.List.{append-nil, append_assoc}
use graftcp.Prelude.{
  ℕ, ◌≡◌, refl, ap, ◌∙◌, arith, Bytes, Bool, true, false, ◌||◌, Option, some, none, ◌++◌,
  Option-cases, List, [], ◌∷◌, ◌==◌, if◌then◌else◌, codes, length, inl, inr, leb, ◌&&◌, ◌+◌,
  bytes_eq, bytes_eq_sound, Bool-cases,
}
use graftcp.Local.Settings.{
  Cfg, App, Key, key_listen, key_loglevel, key_pipepath, key_socks5, key_socks5_username,
  key_socks5_password, key_http_proxy, key_select_proxy_mode, ConfigHost, to_lower, key_of,
  set_case, set_cfg, parse_item, split_eq, trim_items, read_strings, set_all, override,
  override_config, config_path, read_config, parse_config_file,
}

-- The settings that are texts of App.
pub data Setting : Type 0 where
  listen socks5 socks5_username socks5_password http_proxy pipepath select_proxy_mode : Setting

-- The name of a setting, as a flag and as a key in the file.
pub flag : Setting → Bytes
flag listen = codes "listen"
flag socks5 = codes "socks5"
flag socks5_username = codes "socks5_username"
flag socks5_password = codes "socks5_password"
flag http_proxy = codes "http_proxy"
flag pipepath = codes "pipepath"
flag select_proxy_mode = codes "select_proxy_mode"

pub in_cfg : Setting → Cfg → Bytes
in_cfg listen cfg = cfg.listen
in_cfg socks5 cfg = cfg.socks5
in_cfg socks5_username cfg = cfg.socks5_username
in_cfg socks5_password cfg = cfg.socks5_password
in_cfg http_proxy cfg = cfg.http_proxy
in_cfg pipepath cfg = cfg.pipe_path
in_cfg select_proxy_mode cfg = cfg.select_proxy_mode

pub in_app : Setting → App → Bytes
in_app listen app = app.listen_addr
in_app socks5 app = app.socks5_addr
in_app socks5_username app = app.socks5_username
in_app socks5_password app = app.socks5_password
in_app http_proxy app = app.http_proxy_addr
in_app pipepath app = app.pipe_path
in_app select_proxy_mode app = app.select_proxy_mode

-- A key is a name, whatever the case of its letters; a name has no capitals.
pub is_named : Bytes → Bytes → Bool
is_named [] [] = true
is_named [] (d ∷ name) = false
is_named (c ∷ key) [] = false
is_named (c ∷ key) (d ∷ name) =
    (if leb b'A' c && leb c b'Z' then c + 32 == d else c == d) && is_named key name

-- A line at its first equals sign.
at_eq : Bytes → Option (Bytes × Bytes)
at_eq [] = none
at_eq (x ∷ s) = let rest = at_eq s in if x == b'=' then some ([], s) else longer x rest
  where
    longer : ℕ → Option (Bytes × Bytes) → Option (Bytes × Bytes)
    longer x none = none
    longer x (some (k, v)) = some (x ∷ k, v)

behind : Bytes → Option (Bytes × Bytes) → Option (Bytes × Bytes)
behind read none = none
behind read (some (k, v)) = some (read ++ k, v)

split_eq-at_eq : (read line : Bytes) → split_eq read line ≡ behind read (at_eq line)
unfolding split_eq at_eq behind
split_eq-at_eq read [] = refl
split_eq-at_eq read (x ∷ s) = elim (Bool-cases (x == b'=')) [
  | inl here ↦ rw (here, append-nil) refl
  | inr on ↦
      rw (on, split_eq-at_eq (read ++ x ∷ []) s)
        (elim (Option-cases (at_eq s)) [
          | inl none_ ↦ rw none_ refl
          | inr ((k, v), e) ↦ rw e (ap (λ (l : Bytes). some (l, v)) (append_assoc read (x ∷ []) k))
        ])
]

behind-nothing : (o : Option (Bytes × Bytes)) → behind [] o ≡ o
unfolding behind
behind-nothing none = refl
behind-nothing (some (k, v)) = refl

parse_item-at_eq : (line : Bytes) → parse_item line ≡ trim_items (at_eq line)
unfolding parse_item
parse_item-at_eq line = ap trim_items (split_eq-at_eq [] line ∙ behind-nothing (at_eq line))

-- The value that the lines give to a setting: the last one, "old" where there is none. A line gives
-- the value behind its first equals sign to the name before it, both trimmed.
pub last_value : Setting → List Bytes → Bytes → Bytes
unfolding is_named flag at_eq
last_value s [] old = old
last_value s (line ∷ lines) old =
    let item = trim_items (at_eq line) in
    last_value s lines (if is_named item.0 (flag s) then item.1 else old)

is_named-to_lower : (key name : Bytes) → bytes_eq (to_lower key) name ≡ is_named key name
unfolding bytes_eq to_lower is_named
is_named-to_lower [] [] = refl
is_named-to_lower [] (d ∷ name) = refl
is_named-to_lower (c ∷ key) [] = refl
is_named-to_lower (c ∷ key) (d ∷ name) = ground (arith, is_named-to_lower key name)

is_key : Setting → Key → Bool
is_key listen key_listen = true
is_key socks5 key_socks5 = true
is_key socks5_username key_socks5_username = true
is_key socks5_password key_socks5_password = true
is_key http_proxy key_http_proxy = true
is_key pipepath key_pipepath = true
is_key select_proxy_mode key_select_proxy_mode = true
is_key _ _ = false

is_key-flag : (s : Setting) → is_key s (key_of (flag s)) ≡ true
unfolding is_key key_of flag bytes_eq
is_key-flag listen = refl
is_key-flag socks5 = refl
is_key-flag socks5_username = refl
is_key-flag socks5_password = refl
is_key-flag http_proxy = refl
is_key-flag pipepath = refl
is_key-flag select_proxy_mode = refl

is_key-other : (s : Setting) (x : Bytes) → bytes_eq x (flag s) ≡ false → is_key s (key_of x) ≡ false
unfolding is_key key_of flag
is_key-other listen x h = ground (arith, h)
is_key-other socks5 x h = ground (arith, h)
is_key-other socks5_username x h = ground (arith, h)
is_key-other socks5_password x h = ground (arith, h)
is_key-other http_proxy x h = ground (arith, h)
is_key-other pipepath x h = ground (arith, h)
is_key-other select_proxy_mode x h = ground (arith, h)

-- The key of a setting in setCfg's switch is its name.
is_key-named :
    (s : Setting) (key : Bytes) → is_key s (key_of (to_lower key)) ≡ is_named key (flag s)
is_key-named s key =
    let low = to_lower key in
    ◌∙◌
      (elim (Bool-cases (bytes_eq low (flag s))) [
        | inl e ↦
            let same : low ≡ flag s = bytes_eq_sound low (flag s) e in rw (e, same) (is_key-flag s)
        | inr e ↦ rw e (is_key-other s low e)
      ])
      (is_named-to_lower key (flag s))

in_cfg-set_case :
    (atoi : Bytes → Option ℕ) (s : Setting) (key : Key) (val : Bytes) (cfg : Cfg)
    → in_cfg s (set_case atoi key val cfg) ≡ (if is_key s key then val else in_cfg s cfg)
unfolding in_cfg set_case is_key
in_cfg-set_case atoi s key_loglevel val cfg = elim (Option-cases (atoi val)) [
  | inl wrong ↦ rw wrong (ground arith)
  | inr (level, e) ↦ rw e (ground arith)
]
in_cfg-set_case atoi s key val cfg = ground arith

in_cfg-set_all :
    (atoi : Bytes → Option ℕ) (s : Setting) (lines : List Bytes) (cfg : Cfg)
    → in_cfg s (set_all atoi lines cfg) ≡ last_value s lines (in_cfg s cfg)
unfolding set_all set_cfg last_value
in_cfg-set_all atoi s [] cfg = refl
in_cfg-set_all atoi s (line ∷ lines) cfg =
    let item = parse_item line in
    let key = key_of (to_lower item.0) in
    rw (← parse_item-at_eq line) (
      in_cfg-set_all atoi s lines (set_case atoi key item.1 cfg)
      ∙ ap (last_value s lines) (
          in_cfg-set_case atoi s key item.1 cfg
          ∙ ap (λ (b : Bool). if b then item.1 else in_cfg s cfg) (is_key-named s item.0)))

in_app-override_config :
    (flagset : Bytes → Bool) (s : Setting) (cfg : Cfg) (app : App)
    → in_app s (override_config flagset cfg app)
      ≡ override (flagset (flag s)) (in_cfg s cfg) (in_app s app)
unfolding override_config in_app in_cfg flag
in_app-override_config flagset s cfg app = ground arith

-- Where the file that ParseConfigFile chooses can be read to its end, each of the seven
-- settings that are texts of App has afterwards the last value that a line of the file gives to
-- its name, in capitals or not, unless its flag is on the command line, or this value is empty:
-- then it has the value that it had.
pub parse_config_file-last_value :
    (host : ConfigHost) (flagset : Bytes → Bool) (path chosen text : Bytes) (cfg : Cfg) (app : App)
    (s : Setting)
    → config_path host path ≡ some chosen
    → host.file chosen ≡ some (text, false)
    → let val = last_value s (read_strings [] text) (in_cfg s cfg) in
      in_app s (parse_config_file host flagset path cfg app).0.1
      ≡ (if flagset (flag s) || length val == 0 then in_app s app else val)
unfolding parse_config_file read_config override
parse_config_file-last_value host flagset path chosen text cfg app s found read =
    let cfg' = set_all host.atoi (read_strings [] text) cfg in
    let val = last_value s (read_strings [] text) (in_cfg s cfg) in
    rw
      (
        found,
        read,
        in_app-override_config flagset s cfg' app,
        in_cfg-set_all host.atoi s (read_strings [] text) cfg,
      )
      (ground arith)
