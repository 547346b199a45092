-- ===== src/Transport/Exchange/Once.antt =====
-- How often one exchange reaches the network, and what success means (internal/transport/transport.go).
use hstongapi4go.Common.{
  ℕ, ◌+◌, ◌≡◌, refl, ◌≤◌, ◌⊎◌, ◌<◌, String, Bool, true, false, not, Option, arith, if◌then◌else◌,
  Bool-cases, inl, inr,
}
use hstongapi4go.Common.Bytes.{Bytes}
use hstongapi4go.Errs.{GoError, nil_error, wrap, new_error, timeout_error, connection_error}
use hstongapi4go.Resilience.Retry.{is_nil}
use hstongapi4go.Transport.{failure, transport_error, read_error, timeout_seconds}
use hstongapi4go.Transport.Exchange.{
  Http, Settings, Sent, refused, answered, read_all, too_large, broken, body_error, reply_error,
  encoded, exchange, do_,
}

module _ {P W : Type 0} (http : Http P W) where
  -- A reply that is a success of HTTP and of the Gateway.
  abbrev pub IsAccepted : Sent → Type 0
  IsAccepted (refused e) = false ≡ true
  IsAccepted (answered status too_large) = false ≡ true
  IsAccepted (answered status (broken e)) = false ≡ true
  IsAccepted (answered status (read_all body)) =
      (200 ≤ status) × (status < 300) × ((http.unmarshal_response body).0.ok ≡ true)

module _ {P W : Type 0} (http : Http P W) (t : Settings) (op : String) where
  reply_error-nil :
      (wants : Bool) (s : Sent) → is_nil (reply_error http t op wants s) ≡ true → IsAccepted http s
  unfolding reply_error body_error transport_error read_error timeout_error connection_error
      new_error wrap failure
  reply_error-nil wants (refused e) h = ground arith
  reply_error-nil wants (answered status too_large) h = ground arith
  reply_error-nil wants (answered status (broken e)) h = ground arith
  reply_error-nil wants (answered status (read_all body)) h = ground arith

  module _ (requests : W → ℕ)
      (quiet : (w : W) → requests (http.new_correlation_id w).1 ≡ requests w)
      (sends : (path envelope : Bytes) (w : W)
        → requests (http.send path envelope w).1 ≡ requests w + 1) where
    -- What a run of `Do` from this world may end with.
    abbrev pub IsOnce : Bytes → W → GoError × W → Type 0
    IsOnce path w r =
        (requests r.1 ≤ requests w + 1)
        × ((is_nil r.0 ≡ false)
            ⊎ ((envelope : Bytes) × (w' : W) × (r.1 ≡ (http.send path envelope w').1)
                × IsAccepted http (http.send path envelope w').0
                × (requests r.1 ≡ requests w + 1)))

    -- An early return with an error keeps what holds of the way on.
    IsOnce-guard :
        (path : Bytes) (w w' : W) (error : GoError) (text : String) (rest : GoError × W)
        → requests w' ≡ requests w
        → IsOnce path w rest
        → IsOnce path w (if not (is_nil error) then (wrap error "" op text, w') else rest)
    unfolding wrap
    IsOnce-guard path w w' error text rest same go = elim (Bool-cases (is_nil error)) [
      | inl e ↦ rw e go
      | inr e ↦ rw e (omega arith, inl refl)
    ]

    IsOnce-send :
        (wants : Bool) (path envelope : Bytes) (w w' : W)
        → requests w' ≡ requests w
        → let sent = http.send path envelope w' in
          IsOnce path w (reply_error http t op wants sent.0, sent.1)
    IsOnce-send wants path envelope w w' same =
        let more = sends path envelope w' in
        let sent = http.send path envelope w' in
        (
          omega arith,
          elim (Bool-cases (is_nil (reply_error http t op wants sent.0))) [
            | inl h ↦ inr (envelope, w', refl, reply_error-nil wants sent.0 h, omega arith)
            | inr h ↦ inl h
          ],
        )

    named_quiet :
        (b : Bool) (w : W)
        → requests (if b then http.new_correlation_id w else (nil_error, w)).1 ≡ requests w
    named_quiet true w = quiet w
    named_quiet false w = refl

    exchange-IsOnce :
        (wants : Bool) (path envelope : Bytes) (w : W)
        → IsOnce path w (exchange http t op wants path envelope w)
    unfolding exchange
    exchange-IsOnce wants path envelope w =
        let named = if t.names_header then http.new_correlation_id w else (nil_error, w) in
        let same = named_quiet t.names_header w in
        let sent = http.send path envelope named.1 in
        IsOnce-guard path w named.1 named.0 "generate correlation id"
          (reply_error http t op wants sent.0, sent.1) same
          (IsOnce-send wants path envelope w named.1 same)

    -- One call of the transport sends at most one HTTP request, and it returns an error or has sent
    -- exactly one to the path, whose reply was read in full and has a status of success and an
    -- envelope that is ok; its world is then the one behind that request. The world counts the
    -- requests: sending one counts it, and naming the correlation counts none.
    pub do_-IsOnce :
        (params : Option P) (wants : Bool) (path : Bytes) (w : W)
        → IsOnce path w (do_ http t op params wants path w)
    unfolding do_
    do_-IsOnce params wants path w =
        let raw = encoded http t op params in
        let seconds = timeout_seconds t.default_timeout (http.until_deadline w) in
        let envelope = http.marshal_request seconds raw.0 in
        let built = http.new_request path in
        let sent = exchange http t op wants path envelope.0 w in
        let rest = if not (is_nil built) then (wrap built "" op "build request", w) else sent in
        let behind =
          if not (is_nil envelope.1)
          then (wrap envelope.1 "" op "encode request envelope", w)
          else rest in
        IsOnce-guard path w w raw.1 "encode params" behind refl (
          IsOnce-guard path w w envelope.1 "encode request envelope" rest refl (
            IsOnce-guard path w w built "build request" sent refl
              (exchange-IsOnce wants path envelope.0 w)))
