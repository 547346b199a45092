-- ===== src/Domain/Order.antt =====
-- The life of an order: NextOrderState of pkg/domain/order.go. A status and an event are strings, as
-- they are in the code.
pub mod Progress
use hstongapi4go.Common.{Bool, true, false, ◌&&◌, String, List, [], ◌∷◌, str_eq, if◌then◌else◌}

abbrev pub Status : Type 0
Status = String

abbrev pub Event : Type 0
Event = String

abbrev pub no_register : Status
no_register = "0"

abbrev pub wait_to_register : Status
wait_to_register = "1"

abbrev pub registered : Status
registered = "2"

abbrev pub wait_cancel : Status
wait_cancel = "3"

abbrev pub part_filled_wait_cancel : Status
part_filled_wait_cancel = "4"

abbrev pub part_cancelled : Status
part_cancelled = "5"

abbrev pub cancelled : Status
cancelled = "6"

abbrev pub part_filled : Status
part_filled = "7"

abbrev pub filled : Status
filled = "8"

abbrev pub host_reject : Status
host_reject = "9"

abbrev pub wait_modify_registered : Status
wait_modify_registered = "A"

abbrev pub wait_modify_part_filled : Status
wait_modify_part_filled = "E"

-- A key of the map and its value.
pub record Transition : Type 0 where
  pub from : Status
  pub event : Event
  pub to : Status

abbrev row : Status → Event → Status → Transition
row a e b = record { from = a; event = e; to = b }

abbrev pub transitions : List Transition
transitions =
    row no_register "created" wait_to_register
    ∷ row wait_to_register "accepted" registered
    ∷ row registered "partially_filled" part_filled
    ∷ row registered "filled" filled
    ∷ row part_filled "filled" filled
    ∷ row registered "cancelled" wait_cancel
    ∷ row part_filled "cancelled" part_filled_wait_cancel
    ∷ row wait_cancel "cancel_accepted" cancelled
    ∷ row part_filled_wait_cancel "cancel_accepted" part_cancelled
    ∷ row registered "rejected" host_reject
    ∷ row registered "modify_submitted" wait_modify_registered
    ∷ row wait_modify_registered "modify_accepted" registered
    ∷ row part_filled "modify_submitted" wait_modify_part_filled
    ∷ row wait_modify_part_filled "modify_accepted" part_filled
    ∷ []

-- The lookup in the map; a pair that has no entry leaves the status.
unfoldable pub next_in : List Transition → Status → Event → Status
next_in [] current event = current
next_in (t ∷ ts) current event =
    if str_eq t.from current && str_eq t.event event then t.to else next_in ts current event

unfoldable pub next_order_state : Status → Event → Status
next_order_state current event = next_in transitions current event

-- The events of an order, in order.
unfoldable pub after_events : Status → List Event → Status
after_events s [] = s
after_events s (e ∷ es) = after_events (next_order_state s e) es
