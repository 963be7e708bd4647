-- ===== src/Tests/Settings.antt =====
-- The configuration of graftcp-local from a sample file.
use graftcp.Prelude.{
  ◌≡◌, refl, Bytes, Bool, true, false, ◌||◌, none, some, [], ◌∷◌, ◌++◌, ◌==◌, if◌then◌else◌, codes,
  bytes_eq, length,
}
use graftcp.Local.Settings.{
  App, ConfigHost, initial_cfg, config_path, parse_config_file, read_strings, override_config,
  set_all,
}
use graftcp.Local.Settings.Precedence.{
  listen, flag, in_cfg, in_app, last_value, parse_config_file-last_value,
}

-- Two lines for one setting, the second with another case and no newline at its end.
abbrev text : Bytes
text = codes "listen = :1 " ++ b'\n' ∷ codes "Listen=:2"

abbrev config_host : ConfigHost
config_host = record {
  atoi = λ s. none;
  default_conf = codes "/usr/bin/graftcp-local.conf";
  exists = λ path. true;
  file = λ path. some (text, false);
}

abbrev app : App
app = record {
  listen_addr = codes ":2233";
  socks5_addr = codes "127.0.0.1:1080";
  socks5_username = [];
  socks5_password = [];
  http_proxy_addr = [];
  pipe_path = codes "/tmp/graftcplocal.fifo";
  select_proxy_mode = codes "auto";
  use_log_file = none;
  set_log_level = none;
  use_syslog = none;
}

-- --socks5 is on the command line.
abbrev flagset : Bytes → Bool
flagset name = bytes_eq name (codes "socks5")

parse_config_file-last_value_example :
    let val = last_value listen (read_strings [] text) (in_cfg listen initial_cfg) in
    in_app listen (parse_config_file config_host flagset [] initial_cfg app).0.1
    ≡ (if flagset (flag listen) || length val == 0 then in_app listen app else val)
unfolding config_path
parse_config_file-last_value_example =
    parse_config_file-last_value config_host flagset [] (codes "/usr/bin/graftcp-local.conf") text
      initial_cfg app listen refl refl

listens : (parse_config_file config_host flagset [] initial_cfg app).0.1.listen_addr ≡ codes ":2"
unfolding parse_config_file bytes_eq config_path override_config set_all read_strings
listens = refl
