-- ===== src/Local/HttpProxy.antt =====
-- The HTTP dialer of graftcp-local (http_proxy.go): httpDialer with its Dial, and newHttpProxy. The
-- dialer behind it is of a type D, its connections of a type C, and the URLs of the url package of
-- a type U.
pub mod Tunnel
pub mod Reason
use graftcp.Prelude.{
  ℕ, Bytes, Bool, true, false, Option, none, some, List, [], ◌∷◌, ◌==◌, if◌then◌else◌, codes,
}
use graftcp.Local.Relay.{http_url}

-- url.Userinfo, where a password need not be set.
pub record Userinfo : Type 0 where
  pub username : Bytes
  pub password : Option Bytes

pub record ProxyUrl : Type 0 where
  pub host : Bytes
  pub user : Option Userinfo

pub record HttpDialer (D : Type 0) : Type 0 where
  pub host : Bytes
  pub is_auth : Bool
  pub username : Bytes
  pub password : Bytes
  pub forward : D

-- "" where no password is set.
unfoldable pub password_or_empty : Option Bytes → Bytes
password_or_empty none = []
password_or_empty (some password) = password

unfoldable pub new_http_proxy : {D : Type 0} → ProxyUrl → D → HttpDialer D
unfolding password_or_empty
new_http_proxy {D} u forward = with_user u.user
  where
    with_user : Option Userinfo → HttpDialer D
    with_user none = record {
      host = u.host;
      is_auth = false;
      username = [];
      password = [];
      forward = forward;
    }
    with_user (some user) = record {
      host = u.host;
      is_auth = true;
      username = user.username;
      password = password_or_empty user.password;
      forward = forward;
    }

-- An http.Request with no header but the one of SetBasicAuth.
pub record Request (U : Type 0) : Type 0 where
  pub method : Bytes
  pub url : U
  pub host : Bytes
  pub basic_auth : Option (Bytes × Bytes)

-- http.Response: Status is the code with, behind a space, the reason.
pub record Response : Type 0 where
  pub status_code : ℕ
  pub status : Bytes

-- What Dial takes of the proxy, url and http packages: the forward dialer's Dial over TCP, Parse,
-- whether Write succeeds, and ReadResponse for a request. An error is `none`.
pub record Web (D C U : Type 0) : Type 0 where
  pub dial : D → Bytes → Option C
  pub parse : Bytes → Option U
  pub write : C → Request U → Bool
  pub read_response : C → Request U → Option Response

-- What Dial does to its connection: the dial itself, the call of Write, and the two closings.
pub data HttpAction (C U : Type 0) : Type 0 where
  forward_dialed : Bytes → HttpAction C U
  request_written : C → Request U → HttpAction C U
  body_closed : HttpAction C U
  conn_closed : C → HttpAction C U

-- What Dial comes to: a connection, an error of a package, the error of its own with its reason, or
-- the panic of an index out of range.
pub data Dialed (C : Type 0) : Type 0 where
  connected : C → Dialed C
  failed : Dialed C
  refused : Bytes → Dialed C
  panicked : Dialed C

-- strings.SplitN(s, " ", 2)[1]: `none` where it panics.
unfoldable pub reason : Bytes → Option Bytes
reason [] = none
reason (c ∷ s) = let rest = reason s in if c == b' ' then some s else rest

unfoldable pub refusal : {C : Type 0} → Option Bytes → Dialed C
refusal none = panicked
refusal (some text) = refused text

unfoldable pub connect_request : {D U : Type 0} → HttpDialer D → Bytes → U → Request U
connect_request h addr url = record {
  method = codes "CONNECT";
  url = url;
  host = addr;
  basic_auth = if h.is_auth then some (h.username, h.password) else none;
}

module _ {D C U : Type 0} (web : Web D C U) where
  -- Dial from the result of ReadResponse on; from the request on; and from the result of Parse on.
  unfoldable pub answered : C → Option Response → List (HttpAction C U) × Dialed C
  unfolding reason refusal
  answered conn none = (conn_closed conn ∷ [], failed)
  answered conn (some resp) =
      if resp.status_code == 200
      then (body_closed ∷ [], connected conn)
      else (body_closed ∷ conn_closed conn ∷ [], refusal (reason resp.status))

  unfoldable pub requested : C → Request U → List (HttpAction C U) × Dialed C
  unfolding answered
  requested conn req =
      if web.write conn req
      then answered conn (web.read_response conn req)
      else (conn_closed conn ∷ [], failed)

  unfoldable pub on_conn : HttpDialer D → Bytes → C → Option U → List (HttpAction C U) × Dialed C
  unfolding requested
  on_conn h addr conn none = (conn_closed conn ∷ [], failed)
  on_conn h addr conn (some url) =
      let req = connect_request h addr url in
      let rest = requested conn req in (request_written conn req ∷ rest.0, rest.1)

  -- The rest of Dial, with what the forward dialer has given.
  unfoldable pub forwarded : HttpDialer D → Bytes → Option C → List (HttpAction C U) × Dialed C
  unfolding on_conn
  forwarded h addr none = ([], failed)
  forwarded h addr (some conn) = on_conn h addr conn (web.parse (http_url addr))

  -- Dial; its network is not looked at.
  unfoldable pub http_dial : HttpDialer D → Bytes → List (HttpAction C U) × Dialed C
  unfolding forwarded
  http_dial h addr =
      let rest = forwarded h addr (web.dial h.forward h.host) in
      (forward_dialed h.host ∷ rest.0, rest.1)
