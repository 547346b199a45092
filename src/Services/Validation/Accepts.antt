-- ===== src/Services/Validation/Accepts.antt =====
-- Which orders pass the checks (pkg/services/trading.go).
use mathlib.Core.Path.{subst}
use mathlib.Core.Bool.{and_assoc}
use hstongapi4go.Common.{
  ℕ, String, ◌≡◌, refl, sym, Bool, true, false, not, ◌&&◌, ◌||◌, Option, none, some, arith, str_eq,
  ltb, ◌==◌, if◌then◌else◌, Bool-cases, inl, inr, eq_iff, Option-cases, [], ◌∷◌,
}
use hstongapi4go.Common.Int.{ℤ, pos, negsuc}
use hstongapi4go.Common.Bytes.{Bytes}
use hstongapi4go.Common.Text.{codes, bytes_eq, bytes_eq_refl, eq_of_bytes_eq}
use hstongapi4go.Errs.{GoError}
use hstongapi4go.Domain.Symbol.{Symbol, market_hk, is_type, data_type_hk_stock, data_type_hk_etf}
use hstongapi4go.Domain.Price.{
  Decimals, Price, ValueError, max_int64, validate_on, on_parsed, validate_integer, validate_lot,
}
use hstongapi4go.Services.Validation.{
  Order, Resolver, one_of, known_hk_order_types, valid_tifs, hk_sides, is_price_optional,
  is_conditional_order, between, max_valid_days, ◌>>>◌, refuse, bytes_less, validate_session_window,
  validate_order_type_eligibility, validate_time_in_force, validate_short_selling_flag,
  validate_conditional, validate_quantity_for_hk, resolve_tick_for_price, validate_price_for_hk,
  validate_order_for_hk, as_refusal, quantity_on, price_on, resolve_by,
}

abbrev pub passes : Option GoError → Bool
passes none = true
passes (some e) = false

pub passes->>> : (a b : Option GoError) → passes (a >>> b) ≡ (passes a && passes b)
passes->>> none b = refl
passes->>> (some e) b = refl

passes_if : (b : Bool) (m : String) → passes (if b then none else refuse m) ≡ b
passes_if true m = refl
passes_if false m = refl

passes_unless :
    (b : Bool) (next : Option GoError) → passes (if b then none else next) ≡ (b || passes next)
passes_unless true next = refl
passes_unless false next = refl

-- The time of day lies in the window, bounds included.
abbrev pub within : Bytes → String → String → Bool
within now start end_ = not (bytes_less now (codes start)) && not (bytes_less (codes end_) now)

-- The window of each session type; the others have none.
abbrev pub is_hk_equity : ℤ → Bool
is_hk_equity t = is_type data_type_hk_stock t || is_type data_type_hk_etf t

unfoldable pub in_window : Bytes → String → Bool
in_window now t =
    (not (str_eq t "1") || within now "09:00" "09:30")
    && (not (str_eq t "2") || within now "09:30" "12:00")
    && (not (str_eq t "3") || within now "12:00" "16:00")

-- The session type is one of the four, or has no window.
abbrev Window : Bytes → String → Type 0
Window now t = passes (validate_session_window now market_hk t) ≡ in_window now t

on_literal : (now : Bytes) (t k : String) → Window now k → (str_eq t k ≡ true) → Window now t
on_literal now t k h e = subst (Window now) (sym ((eq_iff t k).0 e)) h

at_zero : (now : Bytes) → Window now "0"
unfolding validate_session_window in_window
at_zero now = rw (bytes_eq_refl market_hk) refl

at_one : (now : Bytes) → Window now "1"
unfolding validate_session_window in_window
at_one now = rw (bytes_eq_refl market_hk) (ground arith)

at_two : (now : Bytes) → Window now "2"
unfolding validate_session_window in_window
at_two now = rw (bytes_eq_refl market_hk) (ground arith)

at_three : (now : Bytes) → Window now "3"
unfolding validate_session_window in_window
at_three now = rw (bytes_eq_refl market_hk) (ground arith)

window_lem : (now : Bytes) (t : String) → Window now t
unfolding validate_session_window in_window
window_lem now t = elim (Bool-cases (str_eq t "0")) [
  | inl e ↦ on_literal now t "0" (at_zero now) e
  | inr a ↦ elim (Bool-cases (str_eq t "1")) [
    | inl e ↦ on_literal now t "1" (at_one now) e
    | inr b ↦ elim (Bool-cases (str_eq t "2")) [
      | inl e ↦ on_literal now t "2" (at_two now) e
      | inr c ↦ elim (Bool-cases (str_eq t "3")) [
        | inl e ↦ on_literal now t "3" (at_three now) e
        | inr d ↦ ground (arith, bytes_eq_refl market_hk)
      ]
    ]
  ]
]

-- The types of conditional orders, and those whose price is not looked at.
abbrev pub needs_condition : String → Bool
needs_condition t =
    str_eq t "31"
    || (str_eq t "32" || (str_eq t "33" || (str_eq t "34" || (str_eq t "35" || str_eq t "36"))))

abbrev pub needs_no_price : String → Bool
needs_no_price t = str_eq t "5" || (str_eq t "8" || (str_eq t "10" || needs_condition t))

-- From 1 to 100.
abbrev pub is_day_count : ℤ → Bool
is_day_count (pos n) = ltb 0 n && ltb n 101
is_day_count (negsuc n) = false

is_conditional_order_lem : (t : String) → is_conditional_order t ≡ needs_condition t
is_conditional_order_lem t = ground arith

is_price_optional_lem : (t : String) → is_price_optional t ≡ needs_no_price t
is_price_optional_lem t = ground arith

between_lem : (d : ℤ) → between 1 max_valid_days d ≡ is_day_count d
between_lem (pos n) = ground arith
between_lem (negsuc n) = refl

-- The tick of a price: the resolver's own answer for it, or else the tick of the instrument.
abbrev pub ticked : Option (ℕ × String) → Option String
ticked none = none
ticked (some (lot, tick)) = some tick

abbrev pub tick_by :
    {D : Type 0}
    → Option (Symbol → Price D → Option String)
    → Resolver D
    → Symbol
    → Price D
    → Option String
tick_by none r s p = ticked (r.schedule_for s)
tick_by (some answer) r s p = answer s p

abbrev pub tick_for : {D : Type 0} → Resolver D → Symbol → Price D → Option String
tick_for r s p = tick_by r.schedule_for_price r s p

module _ {D : Type 0} (dec : Decimals D) (describe : ValueError → String) where
  resolve_by_lem :
      (o : Option (Symbol → Price D → Option String)) (p : Price D) (r : Resolver D) (s : Symbol)
      → resolve_by dec describe o p r s ≡ tick_by o r s p
  unfolding resolve_by
  resolve_by_lem none p r s = elim (Option-cases (r.schedule_for s)) [
    | inl e ↦ rw e refl
    | inr (x, e) ↦ rw e refl
  ]
  resolve_by_lem (some answer) p r s = refl

  resolve_tick_for_price_lem :
      (p : Price D) (r : Resolver D) (s : Symbol)
      → resolve_tick_for_price dec describe p r s ≡ tick_for r s p
  unfolding resolve_tick_for_price
  resolve_tick_for_price_lem p r s = resolve_by_lem r.schedule_for_price p r s

  -- A whole number of lots, where the instrument's lot is known.
  abbrev pub in_lots : Option (ℕ × String) → D → Bool
  in_lots none q = true
  in_lots (some (lot, tick)) q =
      dec.is_integer q
      && (lot == 0 || not (ltb max_int64 lot) && dec.is_zero (dec.modulo q (dec.new_from_int lot)))

  abbrev pub on_positive_grid : Option D → D → Bool
  on_positive_grid none p = false
  on_positive_grid (some grid) p =
      dec.is_zero grid || dec.is_negative grid || dec.is_zero (dec.modulo p grid)

  -- A price that is not negative and on the tick, where the tick is known.
  abbrev pub on_tick : Option String → D → Bool
  on_tick none p = true
  on_tick (some tick) p =
      not (dec.is_negative p) && (str_eq tick "" || on_positive_grid (dec.new_from_string tick) p)

  quantity_lem :
      (s : Option (ℕ × String)) (q : D) → passes (quantity_on dec describe s q) ≡ in_lots s q
  unfolding quantity_on validate_integer validate_lot
  quantity_lem none q = refl
  quantity_lem (some (lot, tick)) q = ground arith

  grid_lem :
      (g : Option D) (p : D)
      → passes (as_refusal dec describe (on_parsed dec g p)) ≡ on_positive_grid g p
  unfolding on_parsed
  grid_lem none p = refl
  grid_lem (some g) p = ground arith

  price_lem :
      (t : Option String) (p : Price D) → passes (price_on dec describe t p) ≡ on_tick t p.dec
  unfolding price_on validate_on
  price_lem none p = refl
  price_lem (some tick) p = ground (arith, grid_lem (dec.new_from_string tick) p.dec)

  -- What a Hong Kong order must be.
  unfoldable pub sound : Bytes → Order D → Resolver D → Bool
  sound now o r =
      in_lots (r.schedule_for o.symbol) o.quantity
      && (needs_no_price o.order_type || on_tick (tick_for r o.symbol o.price) o.price.dec)
      && in_window now o.session_type
      && one_of o.order_type ("0" ∷ "1" ∷ "2" ∷ "3" ∷ "4" ∷ "6" ∷ "7" ∷ "31" ∷ "33" ∷ "35" ∷ [])
      && one_of o.time_in_force ("" ∷ "DAY" ∷ "IOC" ∷ "FOK" ∷ "GTD" ∷ [])
      && (not (is_hk_equity o.symbol.data_type) || one_of o.side ("1" ∷ "2" ∷ "4" ∷ "3" ∷ []))
      && (not (needs_condition o.order_type)
          || is_day_count o.valid_days && not (str_eq o.cond_value ""))

  unfoldable pub acceptable : Bytes → Order D → Resolver D → Bool
  unfolding sound
  acceptable now o r = not (bytes_eq o.symbol.market market_hk) || sound now o r

  pub price_checked :
      (p : Price D) (r : Resolver D) (s : Symbol)
      → passes (validate_price_for_hk dec describe p r s)
        ≡ on_tick (resolve_tick_for_price dec describe p r s) p.dec
  unfolding validate_price_for_hk
  price_checked p r s = price_lem (resolve_tick_for_price dec describe p r s) p

  pub quantity_checked :
      (q : D) (r : Resolver D) (s : Symbol)
      → passes (validate_quantity_for_hk dec describe q r s) ≡ in_lots (r.schedule_for s) q
  unfolding validate_quantity_for_hk
  quantity_checked q r s = quantity_lem (r.schedule_for s) q

  type_lem :
      (t : String)
      → passes (validate_order_type_eligibility t market_hk) ≡ one_of t known_hk_order_types
  unfolding validate_order_type_eligibility
  type_lem t = rw (bytes_eq_refl market_hk) (passes_if _ _)

  tif_lem : (t : String) → passes (validate_time_in_force t) ≡ one_of t valid_tifs
  unfolding validate_time_in_force
  tif_lem t = passes_if _ _

  side_lem :
      (s : String) (t : ℤ)
      → passes (validate_short_selling_flag s t) ≡ (not (is_hk_equity t) || one_of s hk_sides)
  unfolding validate_short_selling_flag
  side_lem s t =
      ground (arith, passes_if (one_of s hk_sides) "side is not valid for HK stocks/ETFs")

  conditional_lem :
      (t : String) (d : ℤ) (c : String)
      → passes (validate_conditional t d c)
        ≡ (not (needs_condition t) || is_day_count d && not (str_eq c ""))
  unfolding validate_conditional
  conditional_lem t d c =
      rw (is_conditional_order_lem, between_lem)
        (elim (Bool-cases (needs_condition t)) [ inl e ↦ rw e (ground arith) | inr e ↦ rw e refl ])

  -- The checks in a row, with the market that two of them are given.
  abbrev row : Bytes → Order D → Resolver D → Bytes → Option GoError
  row now o r market =
      validate_quantity_for_hk dec describe o.quantity r o.symbol
      >>> (if is_price_optional o.order_type
          then none
          else validate_price_for_hk dec describe o.price r o.symbol)
      >>> validate_session_window now market o.session_type
      >>> validate_order_type_eligibility o.order_type market
      >>> validate_time_in_force o.time_in_force
      >>> validate_short_selling_flag o.side o.symbol.data_type
      >>> validate_conditional o.order_type o.valid_days o.cond_value

  in_a_row :
      (now : Bytes) (o : Order D) (r : Resolver D) → passes (row now o r market_hk) ≡ sound now o r
  unfolding validate_quantity_for_hk validate_price_for_hk sound
  in_a_row now o r =
      rw
        (
          passes->>>,
          passes->>>,
          passes->>>,
          passes->>>,
          passes->>>,
          passes->>>,
          passes_unless,
          quantity_lem,
          price_lem,
          is_price_optional_lem,
          resolve_tick_for_price_lem,
          window_lem,
          type_lem,
          tif_lem,
          side_lem,
          conditional_lem,
          ← and_assoc,
          ← and_assoc,
          ← and_assoc,
          ← and_assoc,
          ← and_assoc,
        )
        refl

  pub accepts_lem :
      (now : Bytes) (o : Order D) (r : Resolver D)
      → passes (validate_order_for_hk dec describe now o r) ≡ acceptable now o r
  unfolding validate_order_for_hk acceptable
  accepts_lem now o r = elim (Bool-cases (bytes_eq o.symbol.market market_hk)) [
    | inl e ↦ rw e (
        subst (λ m. passes (row now o r m) ≡ sound now o r)
          (sym (eq_of_bytes_eq o.symbol.market market_hk e)) (in_a_row now o r))
    | inr e ↦ rw e refl
  ]
