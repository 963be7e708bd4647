-- ===== src/Local/Settings.antt =====
-- The configuration file of graftcp-local (config.go): ParseConfigFile, with setCfg, parseLine and
-- overrideConfig. Texts are ASCII.
pub mod Precedence
use graftcp.Prelude.{
  ℕ, ◌+◌, ◌-◌, ◌^◌, Bytes, Bool, true, false, not, ◌||◌, ◌&&◌, Option, none, some, List, [], ◌∷◌,
  ◌++◌, map, ltb, ◌==◌, if◌then◌else◌, codes, bytes_eq, length,
}
use graftcp.Local.Inode.{is_space}

-- Config; loglevel is the pattern of an int of 64 bits.
pub record Cfg : Type 0 where
  pub listen : Bytes
  pub logfile : Bytes
  pub loglevel : ℕ
  pub pipe_path : Bytes
  pub socks5 : Bytes
  pub socks5_username : Bytes
  pub socks5_password : Bytes
  pub http_proxy : Bytes
  pub use_syslog : Bool
  pub select_proxy_mode : Bytes

-- `var Cfg = &Config{Loglevel: -1}`
abbrev pub initial_cfg : Cfg
initial_cfg = record {
  listen = [];
  logfile = [];
  loglevel = 2 ^ 64 - 1;
  pipe_path = [];
  socks5 = [];
  socks5_username = [];
  socks5_password = [];
  http_proxy = [];
  use_syslog = false;
  select_proxy_mode = [];
}

-- strings.ToLower
unfoldable pub to_lower : Bytes → Bytes
to_lower [] = []
to_lower (c ∷ s) = (if ltb 64 c && ltb c 91 then c + 32 else c) ∷ to_lower s

-- The cases of setCfg's switch, and any other key.
pub data Key : Type 0 where
  key_listen key_logfile key_loglevel key_pipepath key_socks5 key_socks5_username : Key
  key_socks5_password key_http_proxy key_usesyslog key_select_proxy_mode key_other : Key

unfoldable pub key_of : Bytes → Key
key_of k =
    if bytes_eq k (codes "listen")
    then key_listen
    else if bytes_eq k (codes "logfile")
    then key_logfile
    else if bytes_eq k (codes "loglevel")
    then key_loglevel
    else if bytes_eq k (codes "pipepath")
    then key_pipepath
    else if bytes_eq k (codes "socks5")
    then key_socks5
    else if bytes_eq k (codes "socks5_username")
    then key_socks5_username
    else if bytes_eq k (codes "socks5_password")
    then key_socks5_password
    else if bytes_eq k (codes "http_proxy")
    then key_http_proxy
    else if bytes_eq k (codes "usesyslog")
    then key_usesyslog
    else if bytes_eq k (codes "select_proxy_mode")
    then key_select_proxy_mode
    else key_other

-- What config.go asks of the system: strconv.Atoi, as the pattern of an int of 64 bits, whether the
-- default file stands beside the executable, and a file's text, with whether reading it ends in an
-- error before its end; `none` where Open fails.
pub record ConfigHost : Type 0 where
  pub atoi : Bytes → Option ℕ
  pub default_conf : Bytes
  pub exists : Bytes → Bool
  pub file : Bytes → Option (Bytes × Bool)

abbrev pub set_loglevel : Option ℕ → Cfg → Cfg
set_loglevel none cfg = cfg
set_loglevel (some level) cfg = record cfg { loglevel = level }

unfoldable pub set_case : (Bytes → Option ℕ) → Key → Bytes → Cfg → Cfg
set_case atoi key_listen val cfg = record cfg { listen = val }
set_case atoi key_logfile val cfg = record cfg { logfile = val }
set_case atoi key_loglevel val cfg = set_loglevel (atoi val) cfg
set_case atoi key_pipepath val cfg = record cfg { pipe_path = val }
set_case atoi key_socks5 val cfg = record cfg { socks5 = val }
set_case atoi key_socks5_username val cfg = record cfg { socks5_username = val }
set_case atoi key_socks5_password val cfg = record cfg { socks5_password = val }
set_case atoi key_http_proxy val cfg = record cfg { http_proxy = val }
set_case atoi key_usesyslog val cfg = record cfg {
  use_syslog = bytes_eq (to_lower val) (codes "true");
}
set_case atoi key_select_proxy_mode val cfg = record cfg { select_proxy_mode = val }
set_case atoi key_other val cfg = cfg

unfoldable pub set_cfg : (Bytes → Option ℕ) → Bytes × Bytes → Cfg → Cfg
unfolding set_case to_lower key_of
set_cfg atoi (key, val) cfg = set_case atoi (key_of (to_lower key)) val cfg

-- strings.SplitN(line, "=", 2), where there is a "=": what stands before it, behind what has been
-- read, and what stands after it.
unfoldable pub split_eq : Bytes → Bytes → Option (Bytes × Bytes)
split_eq read [] = none
split_eq read (x ∷ s) =
    let rest = split_eq (read ++ x ∷ []) s in if x == b'=' then some (read, s) else rest

-- strings.TrimSpace
unfoldable pub trim_left : Bytes → Bytes
trim_left [] = []
trim_left (x ∷ s) = let rest = trim_left s in if is_space x then rest else x ∷ s

unfoldable pub trim_right : Bytes → Bytes
trim_right [] = []
trim_right (x ∷ s) =
    let rest = trim_right s in if is_space x && length rest == 0 then [] else x ∷ rest

abbrev pub trim_items : Option (Bytes × Bytes) → Bytes × Bytes
trim_items none = ([], [])
trim_items (some (a, b)) = (trim_right (trim_left a), trim_right (trim_left b))

-- parseLine
unfoldable pub parse_item : Bytes → Bytes × Bytes
unfolding trim_left trim_right split_eq
parse_item line = trim_items (split_eq [] line)

-- What reader.ReadString('\n') gives until the end of the file, behind what has been read.
unfoldable pub read_strings : Bytes → Bytes → List Bytes
read_strings read [] = read ∷ []
read_strings read (x ∷ s) =
    let rest = read_strings [] s in
    let longer = read_strings (read ++ x ∷ []) s in
    if x == b'\n' then (read ++ x ∷ []) ∷ rest else longer

unfoldable pub set_all : (Bytes → Option ℕ) → List Bytes → Cfg → Cfg
unfolding set_cfg parse_item
set_all atoi [] cfg = cfg
set_all atoi (line ∷ lines) cfg = set_all atoi lines (set_cfg atoi (parse_item line) cfg)

-- App, the variable selectProxyMode, and the calls of dlog that have been made.
pub record App : Type 0 where
  pub listen_addr : Bytes
  pub socks5_addr : Bytes
  pub socks5_username : Bytes
  pub socks5_password : Bytes
  pub http_proxy_addr : Bytes
  pub pipe_path : Bytes
  pub select_proxy_mode : Bytes
  pub use_log_file : Option Bytes
  pub set_log_level : Option ℕ
  pub use_syslog : Option Bool

-- `if !flagset[…] && Cfg.… != "" { app.… = Cfg.… }`
unfoldable pub override : Bool → Bytes → Bytes → Bytes
override set_ val old = if not set_ && not (length val == 0) then val else old

-- A loglevel below 7 is not negative: the pattern of a negative one is 2 ^ 63 or more.
unfoldable pub override_config : (Bytes → Bool) → Cfg → App → App
unfolding override
override_config flagset cfg app = record {
  listen_addr = override (flagset (codes "listen")) cfg.listen app.listen_addr;
  socks5_addr = override (flagset (codes "socks5")) cfg.socks5 app.socks5_addr;
  socks5_username =
      override (flagset (codes "socks5_username")) cfg.socks5_username app.socks5_username;
  socks5_password =
      override (flagset (codes "socks5_password")) cfg.socks5_password app.socks5_password;
  http_proxy_addr = override (flagset (codes "http_proxy")) cfg.http_proxy app.http_proxy_addr;
  pipe_path = override (flagset (codes "pipepath")) cfg.pipe_path app.pipe_path;
  select_proxy_mode =
      override (flagset (codes "select_proxy_mode")) cfg.select_proxy_mode app.select_proxy_mode;
  use_log_file =
      if not (flagset (codes "logfile")) && not (length cfg.logfile == 0)
      then some cfg.logfile
      else app.use_log_file;
  set_log_level =
      if not (flagset (codes "loglevel")) && ltb cfg.loglevel 7
      then some cfg.loglevel
      else app.set_log_level;
  use_syslog = if not (flagset (codes "syslog")) then some cfg.use_syslog else app.use_syslog;
}

-- The file that is read: the one named, or the default one where none is named and there is one.
unfoldable pub config_path : ConfigHost → Bytes → Option Bytes
config_path host path =
    if length path == 0
    then (if host.exists host.default_conf then some host.default_conf else none)
    else some path

-- What a read that ends in an error has given is not set.
unfoldable pub without_last : List Bytes → List Bytes
without_last [] = []
without_last (line ∷ []) = []
without_last (line ∷ next ∷ lines) = line ∷ without_last (next ∷ lines)

-- From Open on: Cfg, the app, and whether an error is returned.
pub read_config :
    ConfigHost → (Bytes → Bool) → Option (Bytes × Bool) → Cfg → App → (Cfg × App) × Bool
read_config host flagset none cfg app = ((cfg, app), true)
read_config host flagset (some (text, true)) cfg app =
    ((set_all host.atoi (without_last (read_strings [] text)) cfg, app), true)
read_config host flagset (some (text, false)) cfg app =
    let cfg' = set_all host.atoi (read_strings [] text) cfg in
    ((cfg', override_config flagset cfg' app), false)

pub parse_config_path : ConfigHost → (Bytes → Bool) → Option Bytes → Cfg → App → (Cfg × App) × Bool
unfolding read_config
parse_config_path host flagset none cfg app = ((cfg, app), false)
parse_config_path host flagset (some path) cfg app =
    read_config host flagset (host.file path) cfg app

unfoldable pub parse_config_file :
    ConfigHost → (Bytes → Bool) → Bytes → Cfg → App → (Cfg × App) × Bool
unfolding parse_config_path
parse_config_file host flagset path cfg app =
    parse_config_path host flagset (config_path host path) cfg app
