-- ===== src/Push/Connection.antt =====
-- The connection of a push client and the calls that share it: Connect, Close, and Run's dials
-- (internal/push/client.go). A step is the part of a call between two points where another may come
-- in; steps of different calls interleave in any order. Close is one step, though it sets its flag
-- just before it takes the mutex. Connections are numbered.
pub mod Owned
use hstongapi4go.Common.{
  ℕ, Bool, true, false, not, ◌||◌, Option, none, some, List, [], ◌∷◌, ◌==◌, if◌then◌else◌,
}

-- The client's fields, with what the system knows of the connections: which are open, and which were
-- dialled by a Connect, or by Run, that has not stored them yet.
pub record Client : Type 0 where
  pub closed : Bool
  pub init_failed : Bool
  pub conn : Option ℕ
  pub opened : ℕ → Bool
  pub connecting : ℕ → Bool
  pub running : ℕ → Bool

-- `New`.
abbrev pub new_client : Bool → Client
new_client init_failed = record {
  closed = false;
  init_failed = init_failed;
  conn = none;
  opened = λ c. false;
  connecting = λ c. false;
  running = λ c. false;
}

abbrev pub set_at : ℕ → Bool → (ℕ → Bool) → ℕ → Bool
set_at c v f x = if x == c then v else f x

abbrev pub close_conn_of : Option ℕ → (ℕ → Bool) → ℕ → Bool
close_conn_of none f = f
close_conn_of (some c) f = set_at c false f

-- The first part of `Connect`: what it answers at once, or that it dials.
pub data Start : Type 0 where
  err_closed init_error already dialing : Start

abbrev pub is_some : Option ℕ → Bool
is_some none = false
is_some (some c) = true

unfoldable pub connect_start : Client → Start
connect_start s =
    if s.closed
    then err_closed
    else if s.init_failed
    then init_error
    else if is_some s.conn
    then already
    else dialing

-- What an interleaving is made of.
pub data Step : Type 0 where
  connect_dial connect_store run_dial run_store : ℕ → Step
  close_conn close : Step

-- The dial of a `Connect` gave a new connection.
unfoldable pub connect_dialled : ℕ → Client → Client
connect_dialled c s =
    if s.opened c
    then s
    else record s { opened = set_at c true s.opened; connecting = set_at c true s.connecting }

-- The second part of `Connect`, for the connection that it dialled.
unfoldable pub connect_stored : ℕ → Client → Client
connect_stored c s =
    if not (s.connecting c)
    then s
    else if s.closed || is_some s.conn
    then record s { opened = set_at c false s.opened; connecting = set_at c false s.connecting }
    else record s { conn = some c; connecting = set_at c false s.connecting }

-- A dial of `Run` gave a new connection.
unfoldable pub run_dialled : ℕ → Client → Client
run_dialled c s =
    if s.opened c
    then s
    else record s { opened = set_at c true s.opened; running = set_at c true s.running }

-- `setConn`, for the connection that `Run` dialled.
unfoldable pub run_stored : ℕ → Client → Client
run_stored c s =
    if s.running c then record s { conn = some c; running = set_at c false s.running } else s

-- `closeConn`
unfoldable pub conn_closed : Client → Client
conn_closed s = record s { conn = none; opened = close_conn_of s.conn s.opened }

-- `Close`, which acts once.
unfoldable pub closing : Client → Client
closing s =
    if s.closed
    then s
    else record s { closed = true; conn = none; opened = close_conn_of s.conn s.opened }

unfoldable pub step : Step → Client → Client
step (connect_dial c) s = connect_dialled c s
step (connect_store c) s = connect_stored c s
step (run_dial c) s = run_dialled c s
step (run_store c) s = run_stored c s
step close_conn s = conn_closed s
step close s = closing s

unfoldable pub run : List Step → Client → Client
run [] s = s
run (x ∷ xs) s = run xs (step x s)
