-- ===== src/Services/Registry/Reconnect/Ready.antt =====
-- The calls of Subscribe and Cancel leave the entries of pkg/services/push.go a map, as a reconnect
-- finds them.
use hstongapi4go.Common.{
  ℕ, ◌≡◌, Bool, true, false, Option, none, some, List, [], ◌∷◌, ◌++◌, get_elem?, if◌then◌else◌,
  Bool-cases, inl, inr,
}
use hstongapi4go.Common.Bytes.{Bytes}
use hstongapi4go.Common.Table.{find}
use hstongapi4go.Resilience.Retry.{is_nil}
use hstongapi4go.Common.{length}
use hstongapi4go.Common.Int.{ℤ}
use hstongapi4go.Services.Push.Keys.{Security, canonical_push_key}
use hstongapi4go.Services.Push.Topics.{notify_type_for_topic}
use hstongapi4go.Services.Registry.{
  Subscription, Entry, Registry, Gateway, key_of, join_entry, leave, detach_by, detach_locked,
  cancel_sub, cancel_local, with_entry, new_entry, with_type, locked, subscribe_under_lock, Reply,
  copy_and_validate_securities,
}
use hstongapi4go.Services.Registry.Spec.{Call, subscribe_call, cancel_call, run_calls}
use hstongapi4go.Services.Registry.Reconnect.Tables

-- Every call leaves the table of entries a map and the registry open.
abbrev pub IsReady : Registry → Type 0
IsReady r = Tables.IsUnique r.entries × (r.closed ≡ false)

join_entry-IsReady :
    (topic : ℤ) (t : ℕ) (ss : List Security) (key : Bytes) (e : Entry) (r : Registry)
    → IsReady r
    → IsReady (join_entry topic t ss key e r)
unfolding join_entry
join_entry-IsReady topic t ss key e r ready = (
  Tables.put-IsUnique key (record e { subs = e.subs ++ (length r.made ∷ []) }) r.entries ready.0,
  ready.1,
)

leave-IsReady :
    (key : Bytes) (e : Entry) (ls : List ℕ) (index : Bytes → List ℕ) (r : Registry)
    → IsReady r
    → IsReady (leave key e ls index r).0
unfolding leave
leave-IsReady key e [] index r ready = (Tables.remove-IsUnique key r.entries ready.0, ready.1)
leave-IsReady key e (x ∷ xs) index r ready =
    (Tables.put-IsUnique key (record e { subs = x ∷ xs }) r.entries ready.0, ready.1)

detach_by-IsReady :
    (i : ℕ) (key : Bytes) (r : Registry) (o : Option Entry)
    → IsReady r
    → IsReady (detach_by i key r o).0
unfolding detach_by
detach_by-IsReady i key r none ready = ready
detach_by-IsReady i key r (some e) ready = leave-IsReady key e _ _ r ready

cancel-IsReady :
    (i : ℕ) (o : Option Subscription) (r : Registry) → IsReady r → IsReady (cancel_sub i o r).0
unfolding cancel_sub detach_locked
cancel-IsReady i none r ready = ready
cancel-IsReady i (some s) r ready = elim (Bool-cases s.closed) [
  | inl c ↦ rw c ready
  | inr c ↦ rw c (detach_by-IsReady i (key_of s) r (find (key_of s) r.entries) ready)
]

module _ {W : Type 0} (gateway : Gateway W) where
  open_reply :
      (b : Bool) (x y : Reply W)
      → b ≡ false
      → IsReady y.registry
      → IsReady (if b then x else y).registry
  open_reply true x y h ready = cc
  open_reply false x y h ready = ready

  with_entry-IsReady :
      (topic : ℤ) (t : ℕ) (ss : List Security) (r : Registry) (w : W) (o : Option Entry)
      → IsReady r
      → IsReady (with_entry gateway topic t ss r w o).registry
  with_entry-IsReady topic t ss r w (some e) ready = join_entry-IsReady topic t ss _ e r ready
  with_entry-IsReady topic t ss r w none ready =
      elim (Bool-cases (is_nil (gateway.subscribe topic ss w).0)) [
        | inl y ↦ rw y (join_entry-IsReady topic t ss _ (new_entry topic ss) r ready)
        | inr n ↦ rw n ready
      ]

  with_type-IsReady :
      (topic : ℤ) (t : Option ℕ) (ss : Option (List Security)) (r : Registry) (w : W)
      → IsReady r
      → IsReady (with_type gateway topic t ss r w).registry
  unfolding locked
  with_type-IsReady topic none ss r w ready = ready
  with_type-IsReady topic (some t) none r w ready = ready
  with_type-IsReady topic (some t) (some ss) r w ready =
      open_reply r.closed _ _ ready.1
        (with_entry-IsReady topic t ss r w (find (canonical_push_key topic ss) r.entries) ready)

  pub run_calls-IsReady :
      (cs : List Call) (r : Registry) (w : W) → IsReady r → IsReady (run_calls gateway cs (r, w)).0
  unfolding run_calls subscribe_under_lock cancel_local
  run_calls-IsReady [] r w ready = ready
  run_calls-IsReady (subscribe_call topic sec ∷ cs) r w ready = run_calls-IsReady cs _ _ (
      with_type-IsReady topic (notify_type_for_topic topic) (copy_and_validate_securities sec) r w
        ready)
  run_calls-IsReady (cancel_call i ∷ cs) r w ready =
      run_calls-IsReady cs _ _ (cancel-IsReady i (get_elem? r.made i) r ready)
