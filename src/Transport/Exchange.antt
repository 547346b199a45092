-- ===== src/Transport/Exchange.antt =====
-- `Do` of internal/transport/transport.go: one HTTP exchange. The codecs of JSON, the HTTP client and the
-- random generator of the Go library are fields of `Http`, on the world `W`.
pub mod Once
use hstongapi4go.Common.{
  ℕ, ◌+◌, ◌≡◌, refl, ◌≤◌, String, Bool, true, not, ◌&&◌, ◌||◌, Option, none, some, arith, leb, ltb,
  if◌then◌else◌,
}
use hstongapi4go.Common.Int.{ℤ}
use hstongapi4go.Common.Bytes.{Bytes}
use hstongapi4go.Common.Text.{bytes_eq, codes}
use hstongapi4go.Errs.{GoError, nil_error, wrap, new_error}
use hstongapi4go.Domain.Symbol.{is_empty}
use hstongapi4go.Resilience.Retry.{is_nil}
use hstongapi4go.Transport.{failure, transport_error, read_error, timeout_seconds}

-- What reading the body of a reply ends with.
pub data Body : Type 0 where
  read_all : Bytes → Body
  too_large : Body
  broken : GoError → Body

-- What the HTTP client ends with: an error, or a reply with its status.
pub data Sent : Type 0 where
  refused : GoError → Sent
  answered : ℕ → Body → Sent

-- `response`, with `Data` trimmed.
pub record Response : Type 0 where
  pub ok : Bool
  pub err : String
  pub payload : Bytes

pub record Http (P W : Type 0) : Type 0 where
  pub marshal : P → Bytes × GoError
  pub marshal_request : ℕ → Option Bytes → Bytes × GoError
  pub new_request : Bytes → GoError
  pub new_correlation_id : W → GoError × W
  pub until_deadline : W → Option ℤ
  pub send : Bytes → Bytes → W → Sent × W
  pub unmarshal_response : Bytes → Response × GoError
  pub unmarshal : Bytes → GoError
  pub cap_message : String
  pub status_message : ℕ → Bytes → String

-- The fields of `Transport` that `Do` reads: the default timeout, and whether there is a name for the
-- correlation header.
pub record Settings : Type 0 where
  pub default_timeout : ℕ
  pub names_header : Bool

module _ {P W : Type 0} (http : Http P W) (t : Settings) (op : String) where
  -- The data of an answer that is ok.
  unfoldable pub decoded : Bool → Bytes → GoError
  decoded wants payload =
      let error = http.unmarshal payload in
      if not wants || (is_empty payload || bytes_eq payload (codes "null"))
      then nil_error
      else if is_nil error
      then nil_error
      else wrap error "" op "decode response data"

  -- What the status and the body of a reply come to.
  unfoldable pub body_error : Bool → ℕ → Body → GoError
  unfolding decoded
  body_error wants status too_large = new_error "" op http.cap_message
  body_error wants status (broken e) = read_error op e
  body_error wants status (read_all body) =
      let (reply, error) = http.unmarshal_response body in
      if ltb status 200 || leb 300 status
      then new_error "" op (http.status_message status body)
      else if not (is_nil error)
      then wrap error "" op "decode response envelope"
      else if not reply.ok
      then failure op reply.err
      else decoded wants reply.payload

  unfoldable pub reply_error : Bool → Sent → GoError
  unfolding body_error
  reply_error wants (refused e) = transport_error op e
  reply_error wants (answered status body) = body_error wants status body

  -- From the request that is built to its reply.
  unfoldable pub exchange : Bool → Bytes → Bytes → W → GoError × W
  exchange wants path envelope w =
      let named = if t.names_header then http.new_correlation_id w else (nil_error, w) in
      let sent = http.send path envelope named.1 in
      if not (is_nil named.0)
      then (wrap named.0 "" op "generate correlation id", named.1)
      else (reply_error wants sent.0, sent.1)

  -- `json.Marshal` of the params, if there are any.
  unfoldable pub encoded : Option P → Option Bytes × GoError
  encoded none = (none, nil_error)
  encoded (some p) = let (bytes, error) = http.marshal p in (some bytes, error)

  -- `Do`; `wants` says whether the caller takes data.
  unfoldable pub do_ : Option P → Bool → Bytes → W → GoError × W
  unfolding encoded exchange reply_error
  do_ params wants path w =
      let raw = encoded params in
      let seconds = timeout_seconds t.default_timeout (http.until_deadline w) in
      let envelope = http.marshal_request seconds raw.0 in
      let built = http.new_request path in
      if not (is_nil raw.1)
      then (wrap raw.1 "" op "encode params", w)
      else if not (is_nil envelope.1)
      then (wrap envelope.1 "" op "encode request envelope", w)
      else if not (is_nil built)
      then (wrap built "" op "build request", w)
      else exchange wants path envelope.0 w
