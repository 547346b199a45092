-- ===== src/Services/Push/Delivery/Late.antt =====
-- Which updates of a market subscription count as out of order (pkg/services/push.go).
use hstongapi4go.Common.{
  ℕ, ◌+◌, ◌%◌, ◌<◌, ◌≡◌, refl, ap, ◌∙◌, sym, false, Option, none, some, List, [], ◌∷◌, max, arith,
  ltb, ◌==◌, Bool-cases, inl, inr, if◌then◌else◌,
}
use mathlib.Core.Path.{subst}
use hstongapi4go.Services.Push.Delivery.{
  Update, Feed, new_feed, deliver, wire_checked, wire_against, word,
}
use hstongapi4go.Services.Push.Delivery.Backlog.{one_more}

-- One delivery after the other, each with its time of day and what the reader takes during it; and the
-- number of reports.
pub record Arrival : Type 0 where
  pub now : ℕ
  pub gap1 : ℕ
  pub gap2 : ℕ
  pub update : Update

unfoldable pub deliver_all : ℕ → List Arrival → Feed × ℕ → Feed × ℕ
deliver_all cap [] s = s
deliver_all cap (a ∷ rest) s =
    let out = deliver cap a.gap1 a.gap2 a.now a.update s.0 in
    deliver_all cap rest (out.0, one_more out.1 s.1)

-- The newest time of those seen, and how many were older than one before them.
abbrev pub newest_of : Option ℕ → List (Option ℕ) → Option ℕ
newest_of m [] = m
newest_of m (none ∷ ts) = newest_of m ts
newest_of none (some t ∷ ts) = newest_of (some t) ts
newest_of (some m) (some t ∷ ts) = newest_of (some (max m t)) ts

abbrev pub late_of : Option ℕ → List (Option ℕ) → ℕ
late_of m [] = 0
late_of m (none ∷ ts) = late_of m ts
late_of none (some t ∷ ts) = late_of (some t) ts
late_of (some m) (some t ∷ ts) = (if ltb t m then 1 else 0) + late_of (some (max m t)) ts

abbrev pub times_of : List Arrival → List (Option ℕ)
times_of [] = []
times_of (a ∷ rest) = a.update.time ∷ times_of rest

first_late :
    (d m : ℕ) → m ≡ one_more (ltb 0 d) 0 → one_more (d + 1 == 1) m ≡ one_more (ltb 0 (d + 1)) 0
first_late d m h = ground (arith, h)

-- What one comparison does to the newest time, the count and the reports.
against_lem :
    (t last : Option ℕ) (f : Feed) (ts : List (Option ℕ)) (n : ℕ)
    → f.last_wire ≡ last
    → n ≡ one_more (ltb 0 f.out_of_order) 0
    → f.out_of_order + late_of last (t ∷ ts) < word
    → let c = wire_against t last f in
      (newest_of c.0.last_wire ts ≡ newest_of last (t ∷ ts))
      × (c.0.out_of_order + late_of c.0.last_wire ts ≡ f.out_of_order + late_of last (t ∷ ts))
      × (one_more c.1 n ≡ one_more (ltb 0 c.0.out_of_order) 0)
unfolding wire_against
against_lem none last f ts n e h small = rw e (refl, refl, h)
against_lem (some t) none f ts n e h small = (refl, refl, h)
against_lem (some t) (some l) f ts n e h small = elim (Bool-cases (ltb t l)) [
  | inl y ↦
      let older : max l t ≡ l = ground arith in
      let exact : (f.out_of_order + 1) % word ≡ f.out_of_order + 1 = omega (
        arith,
        subst (λ b. f.out_of_order + ((if b then 1 else 0) + late_of (some (max l t)) ts) < word) y
            small,
      ) in
      rw (y, e, older, exact) (refl, omega arith, first_late f.out_of_order n h)
  | inr y ↦ let newer : max l t ≡ t = ground arith in rw (y, newer) (refl, omega arith, h)
]

against-closed : (t last : Option ℕ) (f : Feed) → (wire_against t last f).0.closed ≡ f.closed
unfolding wire_against
against-closed none last f = refl
against-closed (some t) none f = refl
against-closed (some t) (some l) f = elim (Bool-cases (ltb t l)) [
  | inl y ↦ rw y refl
  | inr y ↦ rw y refl
]

-- What a delivery to an open subscription does besides the queue.
deliver_open :
    (cap gap1 gap2 now : ℕ) (u : Update) (f : Feed)
    → f.closed ≡ false
    → let out = deliver cap gap1 gap2 now u f in
      let c = wire_against u.time f.last_wire f in
      (out.0.closed ≡ false)
      × (out.0.last_wire ≡ c.0.last_wire)
      × (out.0.out_of_order ≡ c.0.out_of_order)
      × (out.1 ≡ c.1)
unfolding deliver wire_checked
deliver_open cap gap1 gap2 now u f running =
    rw running (against-closed u.time f.last_wire (record f { closed = false }), refl, refl, refl)

deliver_all_from :
    (cap : ℕ) (rest : List Arrival) (f : Feed) (n : ℕ)
    → f.closed ≡ false
    → n ≡ one_more (ltb 0 f.out_of_order) 0
    → f.out_of_order + late_of f.last_wire (times_of rest) < word
    → let s = deliver_all cap rest (f, n) in
      (s.0.last_wire ≡ newest_of f.last_wire (times_of rest))
      × (s.0.out_of_order ≡ f.out_of_order + late_of f.last_wire (times_of rest))
      × (s.1 ≡ one_more (ltb 0 s.0.out_of_order) 0)
unfolding deliver_all
deliver_all_from cap [] f n running h small = (refl, omega arith, h)
deliver_all_from cap (a ∷ rest) f n running h small =
    let (newest, count, reports) =
      against_lem a.update.time f.last_wire f (times_of rest) n refl h small in
    let (o, w, c, r) = deliver_open cap a.gap1 a.gap2 a.now a.update f running in
    let out = deliver cap a.gap1 a.gap2 a.now a.update f in
    let ts = times_of rest in
    let agree : one_more out.1 n ≡ one_more (ltb 0 out.0.out_of_order) 0 =
      ap (λ b. one_more b n) r ∙ reports ∙ ap (λ k. one_more (ltb 0 k) 0) (sym c) in
    let total : out.0.out_of_order + late_of out.0.last_wire ts
        ≡ f.out_of_order + late_of f.last_wire (a.update.time ∷ ts) =
      ap (λ k. k + late_of out.0.last_wire ts) c
      ∙ ap (λ m. (wire_against a.update.time f.last_wire f).0.out_of_order + late_of m ts) w
      ∙ count in
    let (i, j, k) =
      deliver_all_from cap rest out.0 (one_more out.1 n) o agree (omega (arith, total, small)) in
    (i ∙ ap (λ m. newest_of m ts) w ∙ newest, j ∙ total, k)

-- Whatever updates a new market subscription is delivered, and whatever its reader takes
-- meanwhile, it ends with the newest wire time of all, has counted exactly the updates with a time
-- older than one before them, and has reported such an update once if there was any. Updates
-- without a time do not count. For fewer than 2^64 late updates.
pub deliver_all_lem :
    (cap : ℕ) (rest : List Arrival)
    → late_of none (times_of rest) < word
    → let s = deliver_all cap rest (new_feed, 0) in
      (s.0.last_wire ≡ newest_of none (times_of rest))
      × (s.0.out_of_order ≡ late_of none (times_of rest))
      × (s.1 ≡ one_more (ltb 0 s.0.out_of_order) 0)
deliver_all_lem cap rest small =
    let (a, b, c) = deliver_all_from cap rest new_feed 0 refl refl (omega arith) in
    (a, omega (arith, b), c)
