-- ===== src/Local/HttpProxy/Reason.antt =====
-- The error that Dial of the HTTP dialer (http_proxy.go) makes of an answer that is not 200.
use graftcp.Prelude.{
  ◌≡◌, ◌≢◌, ◌↔◌, refl, arith, Bytes, true, false, Option, none, some, [], ◌∷◌, ◌==◌, Bool-cases,
  inl, inr,
}
use graftcp.Local.Pids.{contains, has_prefix}
use graftcp.Local.Relay.{http_url}
use graftcp.Local.HttpProxy.{
  HttpDialer, Response, Web, panicked, reason, refusal, connect_request, answered, requested,
  on_conn, forwarded, http_dial,
}

reason-contains : (s : Bytes) → reason s ≡ none → contains (b' ' ∷ []) s ≡ false
unfolding reason contains has_prefix
reason-contains [] e = refl
reason-contains (c ∷ s) e = elim (Bool-cases (c == b' ')) [
  | inl space ↦ let never : some s ≡ none = rw space at e in cc
  | inr other ↦ ground (arith, reason-contains s (rw other at e))
]

contains-reason : (s : Bytes) → contains (b' ' ∷ []) s ≡ false → reason s ≡ none
unfolding reason contains has_prefix
contains-reason [] e = refl
contains-reason (c ∷ s) e = elim (Bool-cases (c == b' ')) [
  | inl space ↦ absurd (ground arith)
  | inr other ↦ rw other (contains-reason s (ground arith))
]

refusal-panicked : {C : Type 0} (o : Option Bytes) → refusal {C = C} o ≡ panicked → o ≡ none
unfolding refusal
refusal-panicked none e = refl
refusal-panicked (some text) e = cc

module _ {D C U : Type 0} (web : Web D C U) where
  -- Where the proxy can be asked and gives an answer, Dial indexes out of range, which ends
  -- graftcp-local, exactly where the answer has a status other than 200 and no space in its text,
  -- so that the proxy gives no reason.
  pub http_dial-panicked :
      (h : HttpDialer D) (addr : Bytes) (c : C) (url : U) (resp : Response)
      → web.dial h.forward h.host ≡ some c
      → web.parse (http_url addr) ≡ some url
      → web.write c (connect_request h addr url) ≡ true
      → web.read_response c (connect_request h addr url) ≡ some resp
      → ((http_dial web h addr).1 ≡ panicked)
        ↔ ((resp.status_code ≢ 200) × (contains (b' ' ∷ []) resp.status ≡ false))
  unfolding http_dial forwarded on_conn requested answered
  http_dial-panicked h addr c url resp dialed parsed written answer =
      rw (dialed, parsed, written, answer)
        (elim (Bool-cases (resp.status_code == 200)) [
          | inl ok ↦ rw ok (λ e. cc, λ e. absurd (e.0 (ground arith)))
          | inr bad ↦ rw bad (
            λ e. (
              ground arith,
              reason-contains resp.status (refusal-panicked (reason resp.status) e),
            ),
            λ e. rw (contains-reason resp.status e.1) refl,
          )
        ])
