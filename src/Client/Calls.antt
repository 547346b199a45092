-- ===== src/Client/Calls.antt =====
-- `Client.Do` of client/client.go as the services call it: the closed client, the unknown route, and
-- `execute`. Logging, tracing and metrics are left out. A request's body is a value of `B`.
use hstongapi4go.Common.{ℕ, String, Bool, not, Option, none, some, if◌then◌else◌}
use hstongapi4go.Common.Bytes.{Bytes}
use hstongapi4go.Errs.{GoError, opaque, wrapped}
use hstongapi4go.Resilience.Retry.{Env}
use hstongapi4go.Client.Routes.{validate}
use hstongapi4go.Client.Execute.{Config, Store, Done, execute}

-- What a service needs of its client: `Executor` of pkg/services/executor.go.
pub record Executor (B W : Type 0) : Type 0 where
  pub do_ : String → Bytes → B → W → Option (GoError × W)

abbrev pub err_client_closed : GoError
err_client_closed = opaque "client: client is closed"

abbrev pub err_unknown_route : GoError
err_unknown_route = opaque "client: unknown route"

module _ {B W : Type 0} (env : Env W) (clock : W → ℕ) (transport_do : B → Bytes → W → GoError × W)
    (cfg : Config W) (closed : Store × W → Bool) where
  abbrev pub returned : Option (Done W) → Option (GoError × (Store × W))
  returned none = none
  returned (some d) = some (d.error, (d.store, d.world))

  unfoldable pub client_do : String → Bytes → B → Store × W → Option (GoError × (Store × W))
  client_do op route params sw =
      if closed sw
      then some (wrapped op err_client_closed, sw)
      else if not (validate route)
      then some (wrapped "" err_unknown_route, sw)
      else returned (execute env clock (transport_do params) op cfg sw.0 route sw.1)

  abbrev pub client : Executor B (Store × W)
  client = record { do_ = client_do }
