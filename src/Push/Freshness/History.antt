-- ===== src/Push/Freshness/History.antt =====
-- What Check says after any run of Record (internal/push/freshness.go).
use hstongapi4go.Common.{
  ℕ, zero, suc, ◌≡◌, refl, ap, ◌∙◌, true, false, Option, none, some, List, [], ◌∷◌, arith, ltb, ◌-◌,
  if◌then◌else◌, max, Bool-cases, inl, inr,
}
use hstongapi4go.Common.Int.{ℤ, pos, negsuc}
use hstongapi4go.Push.Freshness.{
  FreshnessEntry, Entries, FreshnessMonitor, same_topic, find, put, observe, Status, unknown_topic,
  stale, fresh, seen, entry_or_zero, zero_entry, status_of, check, Activity, observe_all,
  new_monitor,
}

same_topic-≡ : (a b : ℤ) → same_topic a b ≡ true → a ≡ b
same_topic-≡ (pos a) (pos b) h = ground arith
same_topic-≡ (negsuc a) (negsuc b) h = ground arith
same_topic-≡ (pos a) (negsuc b) h = ground arith
same_topic-≡ (negsuc a) (pos b) h = ground arith

same_topic_self : (a : ℤ) → same_topic a a ≡ true
same_topic_self (pos a) = ground arith
same_topic_self (negsuc a) = ground arith

find-put_self : (t : ℤ) (e : FreshnessEntry) (es : Entries) → find t (put t e es) ≡ some e
unfolding find put
find-put_self t e [] = rw (same_topic_self t) refl
find-put_self t e ((u, d) ∷ es) = elim (Bool-cases (same_topic u t)) [
  | inl h ↦ rw (h, put, find) (rw h refl)
  | inr h ↦ rw (h, put, find) (rw h (find-put_self t e es))
]

find-put_ne :
    (t s : ℤ) (e : FreshnessEntry) (es : Entries)
    → same_topic s t ≡ false
    → find t (put s e es) ≡ find t es
unfolding find put
find-put_ne t s e [] n = rw n refl
find-put_ne t s e ((u, d) ∷ es) n = elim (Bool-cases (same_topic u s)) [
  | inl h ↦
      let other : same_topic u t ≡ false = ap (λ x. same_topic x t) (same_topic-≡ u s h) ∙ n in
      rw (h, other, find) refl
  | inr h ↦ rw (h, put, find) (rw (find-put_ne t s e es n) refl)
]

-- What is known of a topic after its activity, in order, for a topic that was not known before: the
-- highest sequence number, and the time of the last record.
highest : ℕ → List Activity → ℕ
highest n [] = n
highest n ((now, u, seq) ∷ rest) = highest (max n seq) rest

latest : ℕ → List Activity → ℕ
latest at_ [] = at_
latest at_ ((now, u, seq) ∷ rest) = latest now rest

pub of_topic : ℤ → List Activity → List Activity
of_topic t [] = []
of_topic t ((now, u, seq) ∷ rest) =
    let more = of_topic t rest in if same_topic u t then (now, u, seq) ∷ more else more

entry : ℤ → ℕ → ℕ → FreshnessEntry
entry t seq at_ = record { last_seq = seq; last_seen = at_; topic_id = t }

-- A fold of the activity of one topic over what is known of it.
seq_of : Option FreshnessEntry → ℕ
seq_of none = 0
seq_of (some e) = e.last_seq

after : Option FreshnessEntry → ℤ → List Activity → Option FreshnessEntry
unfolding entry seq_of
after o t [] = o
after o t ((now, u, seq) ∷ rest) = after (some (entry t (max (seq_of o) seq) now)) t rest

after-entry :
    (t : ℤ) (seq at_ : ℕ) (rest : List Activity)
    → after (some (entry t seq at_)) t rest ≡ some (entry t (highest seq rest) (latest at_ rest))
unfolding after highest latest
after-entry t seq at_ [] = refl
after-entry t seq at_ ((now, u, s) ∷ rest) = after-entry t (max seq s) now rest

max_if : (a b : ℕ) → (if ltb a b then b else a) ≡ max a b
max_if a b = ground arith

seen_lem :
    (o : Option FreshnessEntry) (t : ℤ) (seq now : ℕ)
    → seen (entry_or_zero o) t seq now ≡ entry t (max (seq_of o) seq) now
unfolding seen entry_or_zero entry seq_of zero_entry
seen_lem none t seq now = ground arith
seen_lem (some e) t seq now = ap (λ n. entry t n now) (max_if e.last_seq seq)

find-observe_self :
    (t : ℤ) (now seq : ℕ) (m : FreshnessMonitor)
    → find t (observe now t seq m).entries
      ≡ some (entry t (max (seq_of (find t m.entries)) seq) now)
unfolding observe
find-observe_self t now seq m =
    find-put_self t _ m.entries ∙ ap some (seen_lem (find t m.entries) t seq now)

find-observe_ne :
    (t u : ℤ) (now seq : ℕ) (m : FreshnessMonitor)
    → same_topic u t ≡ false
    → find t (observe now u seq m).entries ≡ find t m.entries
unfolding observe
find-observe_ne t u now seq m n = find-put_ne t u _ m.entries n

find-observe_all :
    (t : ℤ) (as_ : List Activity) (m : FreshnessMonitor)
    → find t (observe_all as_ m).entries ≡ after (find t m.entries) t (of_topic t as_)
unfolding observe_all after of_topic
find-observe_all t [] m = refl
find-observe_all t ((now, u, seq) ∷ rest) m = elim (Bool-cases (same_topic u t)) [
  | inl h ↦
      let one : find t (observe now u seq m).entries
          ≡ some (entry t (max (seq_of (find t m.entries)) seq) now) =
        ap (λ x. find t (observe now x seq m).entries) (same_topic-≡ u t h)
        ∙ find-observe_self t now seq m in
      rw (h, of_topic)
        (find-observe_all t rest (observe now u seq m) ∙ ap (λ o. after o t (of_topic t rest)) one)
  | inr h ↦
      rw (h, of_topic)
        (find-observe_all t rest (observe now u seq m)
          ∙ ap (λ o. after o t (of_topic t rest)) (find-observe_ne t u now seq m h))
]

tol-observe_all : (as_ : List Activity) (m : FreshnessMonitor) → (observe_all as_ m).tol ≡ m.tol
unfolding observe_all observe
tol-observe_all [] m = refl
tol-observe_all ((now, u, seq) ∷ rest) m = tol-observe_all rest (observe now u seq m)

max_0 : (n : ℕ) → max 0 n ≡ n
max_0 n = ground arith

find-new : (t tol : ℤ) → find t (new_monitor tol).entries ≡ none
unfolding find new_monitor
find-new t (pos zero) = refl
find-new t (pos (suc n)) = refl
find-new t (negsuc n) = refl

-- What Check must say of a topic, from the topic's own activity.
pub verdict : ℕ → ℕ → ℤ → List Activity → Status
unfolding highest latest entry
verdict now tol t [] = unknown_topic
verdict now tol t ((at_, u, seq) ∷ rest) =
    let e = entry t (highest seq rest) (latest at_ rest) in
    if ltb tol (now - latest at_ rest) then stale e else fresh e

verdict_lem :
    (now tol : ℕ) (t : ℤ) (as_ : List Activity)
    → status_of now tol (after none t as_) ≡ verdict now tol t as_
unfolding status_of verdict after seq_of
verdict_lem now tol t [] = refl
verdict_lem now tol t ((at_, u, seq) ∷ rest) =
    ap (status_of now tol) (after-entry t (max 0 seq) at_ rest) ∙ rw (max_0 seq) refl

-- After any run of Record on a new monitor, whatever its order and topics, Check of a topic depends
-- only on that topic's own records: it is unknown without any, and otherwise its entry has the highest
-- sequence number of them and the time of the last one, and is stale exactly if that time is longer
-- ago than the tolerance, which is the default for a tolerance that is not positive.
pub check-observe_all :
    (tol : ℤ) (t : ℤ) (now : ℕ) (as_ : List Activity)
    → check now t (observe_all as_ (new_monitor tol))
      ≡ verdict now (new_monitor tol).tol t (of_topic t as_)
unfolding check
check-observe_all tol t now as_ =
    rw (tol-observe_all as_ (new_monitor tol), find-observe_all t as_ (new_monitor tol))
      (ap (λ o. status_of now (new_monitor tol).tol (after o t (of_topic t as_))) (find-new t tol)
        ∙ verdict_lem now (new_monitor tol).tol t (of_topic t as_))
