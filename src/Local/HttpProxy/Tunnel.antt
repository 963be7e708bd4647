-- ===== src/Local/HttpProxy/Tunnel.antt =====
-- What Dial of the HTTP dialer (http_proxy.go) returns and closes.
use graftcp.Prelude.{
  ℕ, ◌+◌, ◌≡◌, ◌≢◌, ◌↔◌, refl, arith, Bytes, true, Option, none, some, List, [], ◌∷◌, ◌==◌,
  Bool-cases, Option-cases, inl, inr, codes, ap, sym, ◌∙◌,
}
use graftcp.Local.Relay.{http_url}
use graftcp.Local.HttpProxy.{
  Userinfo, ProxyUrl, HttpDialer, password_or_empty, new_http_proxy, Request, Response, Web,
  HttpAction, forward_dialed, request_written, body_closed, conn_closed, Dialed, connected, failed,
  refused, panicked, reason, refusal, connect_request, answered, requested, on_conn, forwarded,
  http_dial,
}

-- The name and the password of a proxy's URL; one that is not set counts as empty.
pub credentials : Option Userinfo → Option (Bytes × Bytes)
unfolding password_or_empty
credentials none = none
credentials (some user) = some (user.username, password_or_empty user.password)

-- The request by which a proxy is asked for a connection to an address.
abbrev pub connect_to : {U : Type 0} → ProxyUrl → Bytes → U → Request U
connect_to u addr url = record {
  method = codes "CONNECT";
  url = url;
  host = addr;
  basic_auth = credentials u.user;
}

connect_request-new :
    {D U : Type 0} (host addr : Bytes) (user : Option Userinfo) (forward : D) (url : U)
    → let u : ProxyUrl = record { host = host; user = user } in
      connect_request (new_http_proxy u forward) addr url ≡ connect_to u addr url
unfolding connect_request new_http_proxy credentials
connect_request-new host addr none forward url = refl
connect_request-new host addr (some user) forward url = refl

new_http_proxy-forward :
    {D : Type 0} (host : Bytes) (user : Option Userinfo) (forward : D)
    → let h = new_http_proxy (record { host = host; user = user }) forward in
      (h.host ≡ host) × (h.forward ≡ forward)
unfolding new_http_proxy
new_http_proxy-forward host none forward = (refl, refl)
new_http_proxy-forward host (some user) forward = (refl, refl)

module _ {C U : Type 0} where
  -- How often Dial closes a connection.
  unfoldable pub conn_closings : List (HttpAction C U) → ℕ
  conn_closings [] = 0
  conn_closings (a ∷ actions) = close a (conn_closings actions)
    where
      close : HttpAction C U → ℕ → ℕ
      close (conn_closed c) n = n + 1
      close (forward_dialed host) n = n
      close (request_written c req) n = n
      close body_closed n = n

module _ {C : Type 0} where
  -- How many connections Dial returns.
  pub returned : Dialed C → ℕ
  returned (connected c) = 1
  returned failed = 0
  returned (refused text) = 0
  returned panicked = 0

  pub opened : Option C → ℕ
  opened none = 0
  opened (some c) = 1

refusal-closed : (C : Type 0) (o : Option Bytes) → returned (refusal {C = C} o) ≡ 0
unfolding refusal returned
refusal-closed C none = refl
refusal-closed C (some text) = refl

module _ {D C U : Type 0} (web : Web D C U) where
  -- The connection c of the forward dialer to the proxy, by which the proxy has answered the
  -- request for a connection to an address with status 200.
  pub record IsTunnel (u : ProxyUrl) (forward : D) (addr : Bytes) (c : C) : Type 0 where
    pub url : U
    pub response : Response
    pub dialed : web.dial forward u.host ≡ some c
    pub parsed : web.parse (http_url addr) ≡ some url
    pub written : web.write c (connect_to u addr url) ≡ true
    pub answer : web.read_response c (connect_to u addr url) ≡ some response
    pub ok : response.status_code ≡ 200

  abbrev ClosesOr : List (HttpAction C U) × Dialed C → Type 0
  ClosesOr r = conn_closings r.0 + returned r.1 ≡ 1

  answered-closings : (c : C) (o : Option Response) → ClosesOr (answered web c o)
  unfolding answered conn_closings returned
  answered-closings c none = refl
  answered-closings c (some resp) = elim (Bool-cases (resp.status_code == 200)) [
    | inl ok ↦ rw ok refl
    | inr bad ↦ rw (bad, refusal-closed C (reason resp.status)) refl
  ]

  requested-closings : (c : C) (req : Request U) → ClosesOr (requested web c req)
  unfolding requested conn_closings returned
  requested-closings c req = elim (Bool-cases (web.write c req)) [
    | inl fine ↦ rw fine (answered-closings c (web.read_response c req))
    | inr bad ↦ rw bad refl
  ]

  on_conn-closings :
      (h : HttpDialer D) (addr : Bytes) (c : C) (o : Option U) → ClosesOr (on_conn web h addr c o)
  unfolding on_conn conn_closings returned
  on_conn-closings h addr c none = refl
  on_conn-closings h addr c (some url) = requested-closings c (connect_request h addr url)

  refusal-connected : (o : Option Bytes) (c : C) → refusal o ≢ connected c
  unfolding refusal
  refusal-connected none c e = cc
  refusal-connected (some text) c e = cc

  answered-connected :
      (b : C) (o : Option Response) (c : C)
      → (answered web b o).1 ≡ connected c
      → (b ≡ c) × (resp : Response) × (o ≡ some resp) × (resp.status_code ≡ 200)
  unfolding answered
  answered-connected b none c e = cc
  answered-connected b (some resp) c e = elim (Bool-cases (resp.status_code == 200)) [
    | inl ok ↦ (cc (rw ok at e), resp, refl, ground arith)
    | inr bad ↦ absurd (refusal-connected (reason resp.status) c (rw bad at e))
  ]

  requested-connected :
      (b : C) (req : Request U) (c : C)
      → (requested web b req).1 ≡ connected c
      → (web.write b req ≡ true)
        × (b ≡ c)
        × (resp : Response) × (web.read_response b req ≡ some resp)
        × (resp.status_code ≡ 200)
  unfolding requested
  requested-connected b req c e = elim (Bool-cases (web.write b req)) [
    | inl fine ↦
        let (this, resp, answer, ok) =
          answered-connected b (web.read_response b req) c (rw fine at e) in
        (fine, this, resp, answer, ok)
    | inr bad ↦ let never : failed ≡ connected c = rw bad at e in cc
  ]

  forwarded-closings :
      (h : HttpDialer D) (addr : Bytes) (o : Option C)
      → let r = forwarded web h addr o in conn_closings r.0 + returned r.1 ≡ opened o
  unfolding forwarded conn_closings returned opened
  forwarded-closings h addr none = refl
  forwarded-closings h addr (some c) = on_conn-closings h addr c (web.parse (http_url addr))

  from_connected :
      (u : ProxyUrl) (forward : D) (addr : Bytes) (c : C) (h : HttpDialer D)
      → web.dial forward u.host ≡ web.dial h.forward h.host
      → ((url : U) → connect_request h addr url ≡ connect_to u addr url)
      → (http_dial web h addr).1 ≡ connected c
      → IsTunnel u forward addr c
  unfolding http_dial forwarded on_conn
  from_connected u forward addr c h same req e = elim (Option-cases (web.dial h.forward h.host)) [
    | inl none_ ↦ let never : failed ≡ connected c = rw none_ at e in cc
    | inr (b, dialed) ↦ elim (Option-cases (web.parse (http_url addr))) [
      | inl unparsed ↦ let never : failed ≡ connected c = rw (dialed, unparsed) at e in cc
      | inr (url, parsed) ↦
          let (written, this, resp, answer, ok) =
            requested-connected b (connect_request h addr url) c (rw (dialed, parsed) at e) in
          record {
            url = url;
            response = resp;
            dialed = same ∙ dialed ∙ ap some this;
            parsed = parsed;
            written = rw (this, req url) at written;
            answer = rw (this, req url) at answer;
            ok = ok;
          }
    ]
  ]

  to_connected :
      (u : ProxyUrl) (forward : D) (addr : Bytes) (c : C) (h : HttpDialer D)
      → web.dial forward u.host ≡ web.dial h.forward h.host
      → ((url : U) → connect_request h addr url ≡ connect_to u addr url)
      → IsTunnel u forward addr c
      → (http_dial web h addr).1 ≡ connected c
  unfolding http_dial forwarded on_conn requested answered
  to_connected u forward addr c h same req t =
      rw (sym same, t.dialed, t.parsed, req t.url, t.written, t.answer, t.ok) refl

  -- Of a URL of a proxy, newHttpProxy makes a dialer whose Dial returns a connection exactly where
  -- this is the forward dialer's connection to the proxy's host, the request for the address can be
  -- written, a CONNECT with the name and the password of the URL where it has a user, and the proxy
  -- answers it with status 200. The connection that the forward dialer has opened is either
  -- returned or closed once, whatever fails, and never both.
  pub http_dial-IsTunnel :
      (u : ProxyUrl) (forward : D) (addr : Bytes) (c : C)
      → let r = http_dial web (new_http_proxy u forward) addr in
        ((r.1 ≡ connected c) ↔ IsTunnel u forward addr c)
        × (conn_closings r.0 + returned r.1 ≡ opened (web.dial forward u.host))
  unfolding http_dial conn_closings
  http_dial-IsTunnel u forward addr c =
      let h = new_http_proxy u forward in
      let (to, by) = new_http_proxy-forward u.host u.user forward in
      let same : web.dial forward u.host ≡ web.dial h.forward h.host = rw (to, by) refl in
      let req = connect_request-new u.host addr u.user forward in
      (
        (from_connected u forward addr c h same req, to_connected u forward addr c h same req),
        rw same (forwarded-closings h addr (web.dial h.forward h.host)),
      )
