-- ===== src/Domain/Ticks/Bands.antt =====
-- The price bands are ordered (pkg/domain/hk_price_bands.go).
use hstongapi4go.Common.{
  ℕ, suc, String, ◌≡◌, refl, ◌≤◌, Bool, true, false, All, take, drop, List, [], ◌∷◌, arith,
  get_elem?, map, if◌then◌else◌, Bool-cases, inl, inr,
}
use hstongapi4go.Domain.Symbol.{Symbol, is_type, data_type_hk_stock}
use hstongapi4go.Domain.Ticks.{
  hk_stock_price_bands, is_covered, tick_in, hk_stock_tick_at_price, schedule_for_price,
}

-- The ticks of the table, from the finest to the coarsest.
abbrev pub ticks : List String
ticks =
    "0.001" ∷ "0.005" ∷ "0.010" ∷ "0.020" ∷ "0.050" ∷ "0.100" ∷ "0.200" ∷ "0.500" ∷ "1.000"
    ∷ "2.000" ∷ "5.000" ∷ []

-- The upper bounds of the published bands.
abbrev pub bounds : List String
bounds =
    "0.25" ∷ "10" ∷ "20" ∷ "50" ∷ "100" ∷ "200" ∷ "500" ∷ "1000" ∷ "2000" ∷ "5000" ∷ "9995" ∷ []

module _ {D : Type 0} (parse : String → D) (le : D → D → Bool) where
  skipped : List (String × String) → D → ℕ
  skipped [] p = 0
  skipped ((upper, tick) ∷ bands) p =
      let rest = skipped bands p in if le p (parse upper) then 0 else suc rest

  tick_in-get :
      (bands : List (String × String)) (p : D)
      → tick_in parse le bands p ≡ get_elem? (map (λ b. b.1) bands) (skipped bands p)
  unfolding tick_in skipped
  tick_in-get [] p = refl
  tick_in-get ((upper, tick) ∷ bands) p = elim (Bool-cases (le p (parse upper))) [
    | inl e ↦ rw e refl
    | inr e ↦ rw e (tick_in-get bands p)
  ]

  skipped_le :
      (bands : List (String × String)) (p q : D)
      → ((u : D) → le q u ≡ true → le p u ≡ true)
      → skipped bands p ≤ skipped bands q
  unfolding skipped
  skipped_le [] p q f = omega arith
  skipped_le ((upper, tick) ∷ bands) p q f = elim (Bool-cases (le q (parse upper))) [
    | inl e ↦ rw (e, f (parse upper) e) (omega arith)
    | inr e ↦ elim (Bool-cases (le p (parse upper))) [
      | inl h ↦ rw (e, h) (omega arith)
      | inr h ↦ rw (e, h) (omega (arith, skipped_le bands p q f))
    ]
  ]

  -- The price lies in band `i` of the table: above the bounds before, and not above the band's own,
  -- where 11 is above the whole table.
  abbrev pub InBand : ℕ → D → Type 0
  InBand i p =
      All (λ u. le p (parse u) ≡ false) (take i bounds)
      × All (λ u. le p (parse u) ≡ true) (take 1 (drop i bounds))

  skipped-InBand :
      (bands : List (String × String)) (p : D)
      → let us = map (λ b. b.0) bands in
        All (λ u. le p (parse u) ≡ false) (take (skipped bands p) us)
        × All (λ u. le p (parse u) ≡ true) (take 1 (drop (skipped bands p) us))
  unfolding skipped
  skipped-InBand [] p = (tt, tt)
  skipped-InBand ((upper, tick) ∷ bands) p = elim (Bool-cases (le p (parse upper))) [
    | inl e ↦ rw e (tt, (e, tt))
    | inr e ↦ rw e (let (l, r) = skipped-InBand bands p in ((e, l), r))
  ]

  -- The tick of a Hong Kong stock's price is that of the one band that the price lies in, and there
  -- is none above the last bound; and it is never finer than that of a lower price, in the order of
  -- the published ticks. The comparison of decimals is assumed to be transitive.
  pub schedule_for_price-ordered :
      ((a b c : D) → le a b ≡ true → le b c ≡ true → le a c ≡ true)
      → (s : Symbol) (p q : D) → is_covered s ≡ true
      → is_type data_type_hk_stock s.data_type ≡ true
      → le p q ≡ true
      → (i : ℕ) × (j : ℕ) × (schedule_for_price parse le s p ≡ get_elem? ticks i)
        × (schedule_for_price parse le s q ≡ get_elem? ticks j)
        × InBand i p
        × InBand j q
        × (i ≤ j)
  unfolding schedule_for_price hk_stock_tick_at_price
  schedule_for_price-ordered trans s p q c t h = (
    skipped hk_stock_price_bands p,
    skipped hk_stock_price_bands q,
    rw (c, t) (tick_in-get hk_stock_price_bands p),
    rw (c, t) (tick_in-get hk_stock_price_bands q),
    skipped-InBand hk_stock_price_bands p,
    skipped-InBand hk_stock_price_bands q,
    skipped_le hk_stock_price_bands p q (λ u k. trans p q u h k),
  )
