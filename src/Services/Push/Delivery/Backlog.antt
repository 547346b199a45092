-- ===== src/Services/Push/Delivery/Backlog.antt =====
-- Order deliveries are never lost in silence (pkg/services/push.go).
use hstongapi4go.Common.{
  ℕ, suc, ◌+◌, ◌<◌, ◌≤◌, ◌≡◌, refl, ap, ◌∙◌, sym, Bool, true, false, not, List, [], ◌∷◌, length,
  take, drop, arith, ltb, Bool-cases, inl, inr, length-append, length-drop, length-take, ◌%◌,
}
use mathlib.Core.Path.{subst}
use hstongapi4go.Push.Queue.Drop.{enqueue_room, enqueue_full}
use hstongapi4go.Services.Push.Delivery.{Update, OrderFeed, new_order_feed, deliver_order, word}

-- A delivery, or the caller takes some of the updates.
pub data Event : Type 0 where
  arrives : ℕ → Update → Event
  takes : ℕ → Event

-- The subscription, what the caller took, and how many reports were made.
pub record Run : Type 0 where
  pub feed : OrderFeed
  pub taken : ℕ
  pub reports : ℕ

abbrev pub one_more : Bool → ℕ → ℕ
one_more true n = n + 1
one_more false n = n

abbrev pub event_step : ℕ → Event → Run → Run
event_step cap (arrives now u) s =
    let out = deliver_order cap 0 0 now u s.feed in
    record s { feed = out.0; reports = one_more out.1 s.reports }
event_step cap (takes k) s = record s {
  feed = record s.feed { updates = drop k s.feed.updates };
  taken = s.taken + length (take k s.feed.updates);
}

unfoldable pub run_events : ℕ → List Event → Run → Run
run_events cap [] s = s
run_events cap (e ∷ es) s = run_events cap es (event_step cap e s)

abbrev pub arrivals : List Event → ℕ
arrivals [] = 0
arrivals (arrives now u ∷ es) = suc (arrivals es)
arrivals (takes k ∷ es) = arrivals es

abbrev pub new_run : Run
new_run = record { feed = new_order_feed; taken = 0; reports = 0 }

-- After n arrivals.
record IsBalanced (cap n : ℕ) (s : Run) : Type 0 where
  running : s.feed.closed ≡ false
  fits : length s.feed.updates ≤ cap
  balance : s.taken + length s.feed.updates + s.feed.dropped ≡ n
  raised : s.feed.backlog_raised ≡ ltb 0 s.feed.dropped
  reported : s.reports ≡ one_more (ltb 0 s.feed.dropped) 0

not_empty : (n : ℕ) → ltb 0 (n + 1) ≡ true
not_empty n = ground arith

-- The first loss is reported, and no other.
first : (d m : ℕ) → m ≡ one_more (ltb 0 d) 0 → one_more (not (ltb 0 d)) m ≡ 1
first d m h = elim (Bool-cases (ltb 0 d)) [
  | inl e ↦ rw e (h ∙ ap (λ t. one_more t 0) e)
  | inr e ↦ rw e (ap (λ k. k + 1) (h ∙ ap (λ t. one_more t 0) e))
]

arrived :
    (cap n now : ℕ) (u : Update) (s : Run)
    → 0 < cap
    → n + 1 < word
    → IsBalanced cap n s
    → IsBalanced cap (n + 1) (event_step cap (arrives now u) s)
unfolding deliver_order
arrived cap n now u s pos small b = elim (Bool-cases (ltb (length s.feed.updates) cap)) [
  | inl h ↦
      let less : length s.feed.updates < cap = ground arith in
      let more = length-append s.feed.updates (u ∷ []) in
      record {
        running = rw b.running refl;
        fits = rw (b.running, enqueue_room cap 0 0 u s.feed.updates less) (omega (arith, more));
        balance =
            rw (b.running, h, enqueue_room cap 0 0 u s.feed.updates less)
              (omega (arith, more, b.balance));
        raised = rw (b.running, h) b.raised;
        reported = rw (b.running, h) b.reported;
      }
  | inr h ↦
      let full : length s.feed.updates ≡ cap = ground (arith, b.fits) in
      let more = length-append (drop 1 s.feed.updates) (u ∷ []) in
      let fewer = length-drop 1 s.feed.updates in
      let exact : (s.feed.dropped + 1) % word ≡ s.feed.dropped + 1 = omega (arith, b.balance) in
      record {
        running = rw b.running refl;
        fits =
            rw (b.running, enqueue_full cap 0 0 u s.feed.updates pos full)
              (omega (arith, more, fewer));
        balance =
            rw (b.running, h, exact, enqueue_full cap 0 0 u s.feed.updates pos full)
              (omega (arith, more, fewer, b.balance));
        raised = rw (b.running, h, exact) (sym (not_empty s.feed.dropped));
        reported =
            rw (b.running, h, exact, not_empty s.feed.dropped, b.raised)
              (first s.feed.dropped s.reports b.reported);
      }
]

took : (cap n k : ℕ) (s : Run) → IsBalanced cap n s → IsBalanced cap n (event_step cap (takes k) s)
took cap n k s b = record {
  running = b.running;
  fits = omega (arith, length-drop k s.feed.updates, b.fits);
  balance = omega (arith, length-drop k s.feed.updates, length-take k s.feed.updates, b.balance);
  raised = b.raised;
  reported = b.reported;
}

run-IsBalanced :
    (cap n : ℕ) (es : List Event) (s : Run)
    → 0 < cap
    → n + arrivals es < word
    → IsBalanced cap n s
    → IsBalanced cap (n + arrivals es) (run_events cap es s)
unfolding run_events
run-IsBalanced cap n [] s pos small b = subst (λ k. IsBalanced cap k s) (omega arith) b
run-IsBalanced cap n (arrives now u ∷ es) s pos small b =
    subst (λ k. IsBalanced cap k (run_events cap es (event_step cap (arrives now u) s)))
      (omega arith)
      (run-IsBalanced cap (n + 1) es (event_step cap (arrives now u) s) pos (omega arith)
        (arrived cap n now u s pos (omega arith) b))
run-IsBalanced cap n (takes k ∷ es) s pos small b =
    run-IsBalanced cap n es (event_step cap (takes k) s) pos small (took cap n k s b)

-- Whatever deliveries and reads come from a new order subscription, every update delivered was
-- taken, waits in the channel, or is counted as dropped; the channel keeps to its capacity; and a
-- backlog was reported exactly once if anything was dropped, and never otherwise. For a positive
-- capacity, fewer than 2^64 deliveries, and reads that fall between deliveries.
pub run_events_lem :
    (cap : ℕ) (es : List Event)
    → 0 < cap
    → arrivals es < word
    → let s = run_events cap es new_run in
      (s.taken + length s.feed.updates + s.feed.dropped ≡ arrivals es)
      × (length s.feed.updates ≤ cap)
      × (s.reports ≡ one_more (ltb 0 s.feed.dropped) 0)
run_events_lem cap es pos small =
    let b = run-IsBalanced cap 0 es new_run pos (omega arith) (record {
      running = refl;
      fits = omega arith;
      balance = refl;
      raised = refl;
      reported = refl;
    }) in
    (omega (arith, b.balance), b.fits, b.reported)
