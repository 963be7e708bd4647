-- ===== src/Tests/HttpProxy.antt =====
-- The HTTP dialer behind a proxy that answers each request with the status of its connection's
-- number.
use graftcp.Prelude.{ℕ, ◌+◌, ◌≡◌, ◌≢◌, ◌↔◌, refl, Bytes, true, false, none, some, [], ◌∷◌, codes}
use graftcp.Local.Pids.{contains}
use graftcp.Local.Relay.{http_url}
use graftcp.Local.HttpProxy.{
  ProxyUrl, Web, Response, HttpDialer, connected, panicked, new_http_proxy, http_dial,
}
use graftcp.Local.HttpProxy.Tunnel.{IsTunnel, conn_closings, returned, opened, http_dial-IsTunnel}
use graftcp.Local.HttpProxy.Reason.{http_dial-panicked}

abbrev answers : ℕ → Bytes → Response
answers code status = record { status_code = code; status = status }

abbrev web : ℕ → Bytes → Web ℕ ℕ Bytes
web code status = record {
  dial = λ forward host. some forward;
  parse = λ url. some url;
  write = λ conn req. true;
  read_response = λ conn req. some (answers code status);
}

abbrev proxy_url : ProxyUrl
proxy_url = record {
  host = codes "proxy:3128";
  user = some (record { username = codes "me"; password = none });
}

abbrev destination : Bytes
destination = codes "10.0.0.1:80"

http_dial-IsTunnel_example :
    let r = http_dial (web 200 (codes "200 OK")) (new_http_proxy proxy_url 7) destination in
    ((r.1 ≡ connected 7) ↔ IsTunnel (web 200 (codes "200 OK")) proxy_url 7 destination 7)
    × (conn_closings r.0 + returned r.1 ≡ opened ((web 200 (codes "200 OK")).dial 7 proxy_url.host))
http_dial-IsTunnel_example = http_dial-IsTunnel (web 200 (codes "200 OK")) proxy_url 7 destination 7

gives_it :
    (http_dial (web 200 (codes "200 OK")) (new_http_proxy proxy_url 7) destination).1 ≡ connected 7
unfolding http_dial new_http_proxy
gives_it = refl

-- A dialer with no user.
abbrev dialer : HttpDialer ℕ
dialer = record {
  host = codes "proxy:3128";
  is_auth = false;
  username = [];
  password = [];
  forward = 7;
}

http_dial-panicked_example :
    ((http_dial (web 403 (codes "403")) dialer destination).1 ≡ panicked) ↔ (
      ((answers 403 (codes "403")).status_code ≢ 200)
      × (contains (b' ' ∷ []) (codes "403") ≡ false))
http_dial-panicked_example =
    http_dial-panicked (web 403 (codes "403")) dialer destination 7 (http_url destination)
      (answers 403 (codes "403")) refl refl refl refl
