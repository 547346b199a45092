-- ===== src/Examples/Recovery.antt =====
-- The reconnect and the closing of the push subscriptions (pkg/services/push.go), and the walk over a
-- journal (pkg/services/account.go), at concrete inputs.
use hstongapi4go.Common.{
  inr, ℕ, ◌+◌, ◌≡◌, refl, true, false, ◌⊎◌, Option, some, List, [], ◌∷◌, ◌++◌, get_elem?, arith,
  if◌then◌else◌,
}
use hstongapi4go.Common.Int.{pos}
use hstongapi4go.Common.Bytes.{Bytes}
use hstongapi4go.Common.Text.{codes, bytes_eq}
use hstongapi4go.Common.Decimal.{itoa, digits}
use hstongapi4go.Common.Table.{find, put, remove, erase}
use hstongapi4go.Errs.{nil_error}
use hstongapi4go.Resilience.Retry.{is_nil}
use hstongapi4go.Services.Validation.{bytes_less}
use hstongapi4go.Services.Push.Topics.{notify_type_for_topic}
use hstongapi4go.Services.Push.Keys.{
  canonical_push_key, sort, insert, join, security_keys, distinct_keys, normalise_routing_key,
}
use hstongapi4go.Services.Registry.{
  subscribe_under_lock, copy_and_validate_securities, locked, join_entry, attach, cancel_local,
  detach_locked,
}
use hstongapi4go.Services.Registry.Spec.{run_calls, empty_registry}
use hstongapi4go.Services.Registry.Reconnect.{close_all}
use hstongapi4go.Services.Registry.Reconnect.Renewal.{holds, is_lost}
use hstongapi4go.Services.Registry.Reconnect.Restored.{before, after, reconnect-restores}
use hstongapi4go.Services.Registry.Reconnect.Closed.{is_shut, run_calls-close_all}
use hstongapi4go.Services.Account.{Page, walk_fund_jour_pages, max_pages}
use hstongapi4go.Services.Account.Walk.{
  Holds, Journal, Ends, walk_fund_jour_pages-Ends, walk_fund_jour_pages_complete,
}
use hstongapi4go.Examples.Desks.{
  by_key, gateway, by_key_gateway, by_key-Serves, nothing, calls, key,
}

second_held : holds (before gateway by_key by_key_gateway calls nothing nothing) 1 key ≡ true
unfolding run_calls subscribe_under_lock notify_type_for_topic copy_and_validate_securities locked
    join_entry attach cancel_local detach_locked canonical_push_key sort insert bytes_less join itoa
    digits find put remove erase bytes_eq security_keys distinct_keys normalise_routing_key
second_held = refl

reconnect-restores_example :
    let r = after gateway by_key by_key_gateway calls nothing nothing in
    ((holds r.registry 1 key ≡ true) × (r.world key ≡ true) × (is_lost key r.reports ≡ false))
    ⊎ ((holds r.registry 1 key ≡ false) × (is_lost key r.reports ≡ true))
reconnect-restores_example =
    reconnect-restores gateway by_key by_key_gateway calls nothing nothing (λ w x. w x) bytes_eq
      by_key-Serves (λ k x p q b. b) 1 key second_held

run_calls-close_all_example :
    let r = close_all (run_calls gateway calls (empty_registry, nothing)).0 in
    (run_calls gateway calls (r, nothing) ≡ (r, nothing)) × (is_shut (get_elem? r.made 1) ≡ true)
run_calls-close_all_example =
    run_calls-close_all gateway by_key by_key_gateway calls calls nothing nothing 1

-- A journal of two pages; the world counts the fetches and keeps the pages.
abbrev World : Type 0
World = ℕ × List (List ℕ)

abbrev second : Bytes
second = codes "p2"

abbrev book : Bytes → Page ℕ
book c = record {
  entries = if bytes_eq c second then 3 ∷ [] else 1 ∷ 2 ∷ [];
  next = second;
  error = nil_error;
}

abbrev fetch : ℕ → Bytes → World → Option (Page ℕ × World)
fetch size c w = some (book c, (w.0 + 1, w.1 ++ ((book c).entries ∷ [])))

book_fine : (c : Bytes) → is_nil (book c).error ≡ true
book_fine c = refl

fetch-Journal : Journal fetch (λ w. w.0) (λ w. w.1)
fetch-Journal = record {
  returns = λ size c w. (book c, (w.0 + 1, w.1 ++ ((book c).entries ∷ [])), refl, refl, refl);
}

walk_fund_jour_pages-Ends_example :
    Ends
      (λ w. nil_error)
      fetch
      (λ w. w.0)
      (λ w. w.1)
      fetch-Journal
      max_pages
      (0, [])
      (walk_fund_jour_pages (λ w. nil_error) fetch (pos 0) [] (0, []))
      []
walk_fund_jour_pages-Ends_example =
    walk_fund_jour_pages-Ends (λ w. nil_error) fetch (λ w. w.0) (λ w. w.1) fetch-Journal (pos 0) []
      (0, []) refl

two_pages : Holds book [] ((1 ∷ 2 ∷ []) ∷ (3 ∷ []) ∷ [])
unfolding bytes_eq
two_pages = ((omega arith, (λ e. cc), (λ e. cc)), refl, (inr refl, refl))

walk_fund_jour_pages_complete_example :
    (w : World) × (walk_fund_jour_pages (λ w. nil_error) fetch (pos 0) [] (0, [])
      ≡ some (record { all = 1 ∷ 2 ∷ 3 ∷ []; error = nil_error; world = w }))
    × (w.0 ≡ 2)
walk_fund_jour_pages_complete_example =
    walk_fund_jour_pages_complete (λ w. nil_error) fetch (λ w. w.0) book (λ v. refl) book_fine
      (λ size c v. ((v.0 + 1, v.1 ++ ((book c).entries ∷ [])), refl, refl))
      ((1 ∷ 2 ∷ []) ∷ (3 ∷ []) ∷ []) (pos 0) [] (0, []) two_pages (omega arith)
